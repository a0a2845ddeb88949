-- ===== src/Districts/Psc.antt =====
-- The districts of the Public Service Commission, of src/voter_api/lib/district_parser/parser.py.
use voter_api.Prelude.{String, Bool, false, ◌||◌, List, [], ◌∷◌, Option, none, some, if◌then◌else◌}
use voter_api.Text.{Text, codes, strip, upper, same_text}

abbrev texts_of : List String → List Text
texts_of [] = []
texts_of (s ∷ rest) = codes s ∷ texts_of rest

-- district 1
abbrev first : List String
first =
    "Appling" ∷ "Atkinson" ∷ "Bacon" ∷ "Baker" ∷ "Ben Hill" ∷ "Berrien" ∷ "Brantley" ∷ "Brooks"
    ∷ "Bulloch" ∷ "Burke" ∷ "Calhoun" ∷ "Camden" ∷ "Candler" ∷ "Charlton" ∷ "Chatham" ∷ "Clinch"
    ∷ "Coffee" ∷ "Colquitt" ∷ "Cook" ∷ "Decatur" ∷ "Dodge" ∷ "Dougherty" ∷ "Early" ∷ "Echols"
    ∷ "Effingham" ∷ "Emanuel" ∷ "Evans" ∷ "Glynn" ∷ "Grady" ∷ "Irwin" ∷ "Jeff Davis" ∷ "Jefferson"
    ∷ "Jenkins" ∷ "Johnson" ∷ "Lanier" ∷ "Laurens" ∷ "Lee" ∷ "Liberty" ∷ "Long" ∷ "Lowndes"
    ∷ "McIntosh" ∷ "Miller" ∷ "Mitchell" ∷ "Montgomery" ∷ "Pierce" ∷ "Quitman" ∷ "Randolph"
    ∷ "Richmond" ∷ "Screven" ∷ "Seminole" ∷ "Tattnall" ∷ "Terrell" ∷ "Thomas" ∷ "Tift" ∷ "Toombs"
    ∷ "Treutlen" ∷ "Turner" ∷ "Ware" ∷ "Wayne" ∷ "Wheeler" ∷ "Wilcox" ∷ "Worth" ∷ []

-- district 2
abbrev second : List String
second =
    "Baldwin" ∷ "Bibb" ∷ "Bleckley" ∷ "Bryan" ∷ "Butts" ∷ "Chattahoochee" ∷ "Clay" ∷ "Columbia"
    ∷ "Crawford" ∷ "Crisp" ∷ "Dooly" ∷ "Glascock" ∷ "Hancock" ∷ "Harris" ∷ "Houston" ∷ "Jasper"
    ∷ "Jones" ∷ "Lamar" ∷ "Lincoln" ∷ "Macon" ∷ "Marion" ∷ "McDuffie" ∷ "Meriwether" ∷ "Monroe"
    ∷ "Muscogee" ∷ "Peach" ∷ "Pike" ∷ "Pulaski" ∷ "Putnam" ∷ "Schley" ∷ "Stewart" ∷ "Sumter"
    ∷ "Talbot" ∷ "Taliaferro" ∷ "Taylor" ∷ "Telfair" ∷ "Twiggs" ∷ "Upson" ∷ "Warren" ∷ "Washington"
    ∷ "Webster" ∷ "Wilkes" ∷ "Wilkinson" ∷ []

-- district 3
abbrev third : List String
third =
    "Barrow" ∷ "Carroll" ∷ "Cherokee" ∷ "Clarke" ∷ "Clayton" ∷ "Coweta" ∷ "DeKalb" ∷ "Douglas"
    ∷ "Elbert" ∷ "Fayette" ∷ "Greene" ∷ "Gwinnett" ∷ "Hart" ∷ "Heard" ∷ "Henry" ∷ "Jackson"
    ∷ "Madison" ∷ "Morgan" ∷ "Newton" ∷ "Oconee" ∷ "Oglethorpe" ∷ "Rockdale" ∷ "Spalding" ∷ "Troup"
    ∷ "Walton" ∷ []

-- district 4
abbrev fourth : List String
fourth =
    "Banks" ∷ "Catoosa" ∷ "Chattooga" ∷ "Dade" ∷ "Dawson" ∷ "Fannin" ∷ "Floyd" ∷ "Franklin"
    ∷ "Gilmer" ∷ "Gordon" ∷ "Habersham" ∷ "Hall" ∷ "Haralson" ∷ "Lumpkin" ∷ "Murray" ∷ "Paulding"
    ∷ "Pickens" ∷ "Polk" ∷ "Rabun" ∷ "Stephens" ∷ "Towns" ∷ "Union" ∷ "Walker" ∷ "White"
    ∷ "Whitfield" ∷ []

-- district 5
abbrev fifth : List String
fifth = "Bartow" ∷ "Cobb" ∷ "Forsyth" ∷ "Fulton" ∷ "North Fulton" ∷ "South Fulton" ∷ []

-- `PSC_DISTRICT_COUNTIES`, with its keys
abbrev pub psc_district_counties : List (Text × List String)
psc_district_counties =
    (codes "1", first)
    ∷ (codes "2", second)
    ∷ (codes "3", third)
    ∷ (codes "4", fourth)
    ∷ (codes "5", fifth)
    ∷ []

abbrev lookup_in : Text → List (Text × List String) → List Text
lookup_in d [] = []
lookup_in d ((k, counties) ∷ rest) = if same_text k d then texts_of counties else lookup_in d rest

-- `PSC_DISTRICT_COUNTIES.get(district, [])`
unfoldable pub psc_counties : Text → List Text
psc_counties d = lookup_in d psc_district_counties

abbrev has_county : Text → List String → Bool
has_county name [] = false
has_county name (c ∷ counties) = same_text (upper (codes c)) name || has_county name counties

-- `_COUNTY_TO_PSC_DISTRICT.get(name)`: no county stands in two districts
abbrev district_of : Text → List (Text × List String) → Option Text
district_of name [] = none
district_of name ((k, counties) ∷ rest) =
    let later = district_of name rest in if has_county name counties then some k else later

unfoldable pub get_psc_district_for_county : Text → Option Text
get_psc_district_for_county county_name =
    district_of (upper (strip county_name)) psc_district_counties
