-- ===== src/Elections/Resolve/Updates.antt =====
-- The bulk updates of services/election_resolution_service.py: each returns how many records it
-- assigned to the election, and the records.
use voter_api.Prelude.{
  ℕ, Bool, true, false, ◌==◌, ◌&&◌, ◌||◌, ◌+◌, ◌-◌, ◌*◌, Option, none, some, List, [], ◌∷◌,
  count_where, exists_where, modify, is_none, map, if◌then◌else◌,
}
use voter_api.Text.{Text, codes, same_text, is_in, is_digit, upper, strip}
use voter_api.Text.Slug.{decimal}
use voter_api.Districts.Parser.{zfill}
use voter_api.Elections.Resolve.Tables.{VoterHistory, Voter, trim}

-- `DISTRICT_TYPE_TO_VOTER_COLUMN`: the columns of a voter
pub data VoterColumn : Type 0 where
  state_senate state_house congressional county_commission : VoterColumn
  school_board city_council judicial : VoterColumn

abbrev column_types : List (Text × VoterColumn)
column_types =
    (codes "state_senate", VoterColumn.state_senate)
    ∷ (codes "state_house", VoterColumn.state_house)
    ∷ (codes "congressional", VoterColumn.congressional)
    ∷ (codes "county_commission", VoterColumn.county_commission)
    ∷ (codes "school_board", VoterColumn.school_board)
    ∷ (codes "board_of_education", VoterColumn.school_board)
    ∷ (codes "city_council", VoterColumn.city_council)
    ∷ (codes "judicial", VoterColumn.judicial)
    ∷ []

abbrev column_in : Text → List (Text × VoterColumn) → Option VoterColumn
column_in t [] = none
column_in t ((k, c) ∷ rest) =
    let later = column_in t rest in if same_text k t then some c else later

-- `DISTRICT_TYPE_TO_VOTER_COLUMN.get`
unfoldable pub voter_column_of : Text → Option VoterColumn
voter_column_of t = column_in t column_types

abbrev column : VoterColumn → Voter → Option Text
column VoterColumn.state_senate v = v.state_senate_district
column VoterColumn.state_house v = v.state_house_district
column VoterColumn.congressional v = v.congressional_district
column VoterColumn.county_commission v = v.county_commission_district
column VoterColumn.school_board v = v.school_board_district
column VoterColumn.city_council v = v.city_council_district
column VoterColumn.judicial v = v.judicial_district

-- `str.isdigit` and `int` of digits
abbrev are_digits : Text → Bool
are_digits [] = true
are_digits (c ∷ s) = is_digit c && are_digits s

abbrev all_digits : Text → Bool
all_digits [] = false
all_digits (c ∷ s) = are_digits (c ∷ s)

abbrev value_from : ℕ → Text → ℕ
value_from n [] = n
value_from n (c ∷ s) = value_from (n * 10 + (c - b'0')) s

-- a set in the source, of which only the members matter
unfoldable pub build_district_id_variants : Text → List Text
build_district_id_variants identifier =
    let digits = decimal (value_from 0 identifier) in
    if all_digits identifier
    then identifier ∷ digits ∷ zfill 2 digits ∷ zfill 3 digits ∷ zfill 4 digits ∷ []
    else identifier ∷ []

-- an update of the records on this date that pass a test, of those without an election unless forced
abbrev pub is_open : Bool → ℕ → VoterHistory → Bool
is_open force date r = r.election_date == date && (force || is_none r.election_id)

abbrev pub with_election : ℕ → VoterHistory → VoterHistory
with_election i r = record r { election_id = some i }

abbrev pub assign : Bool → ℕ → ℕ → (VoterHistory → Bool) → List VoterHistory → ℕ × List VoterHistory
assign force date i test rows = (
  count_where (λ r. is_open force date r && test r) rows,
  modify (λ r. is_open force date r && test r) (with_election i) rows,
)

-- `UPPER(TRIM(county))` is the county
abbrev pub of_county : Text → VoterHistory → Bool
of_county county r = same_text (upper (trim r.county)) (upper (strip county))

-- the condition that a county adds, if it is not empty
abbrev pub of_county? : Option Text → VoterHistory → Bool
of_county? none r = true
of_county? (some []) r = true
of_county? (some (c ∷ s)) r = of_county (c ∷ s) r

abbrev pub has_municipality : Text → Option Text → Bool
has_municipality municipality none = false
has_municipality municipality (some m) = same_text (upper (trim m)) (upper (strip municipality))

abbrev pub lives_in : Option Text → Voter → Bool
lives_in none v = true
lives_in (some []) v = true
lives_in (some (c ∷ s)) v = has_municipality (c ∷ s) v.municipality

abbrev has_district : List Text → Option Text → Bool
has_district identifiers none = false
has_district identifiers (some d) = is_in d identifiers

abbrev pub in_district : VoterColumn → Text → Voter → Bool
in_district c identifier v = has_district (build_district_id_variants identifier) (column c v)

-- the condition on the district, if both the column and the identifier are given
abbrev pub in_district? : Option VoterColumn → Option Text → Voter → Bool
in_district? none identifier v = true
in_district? (some c) none v = true
in_district? (some c) (some []) v = true
in_district? (some c) (some (d ∷ s)) v = in_district c (d ∷ s) v

-- the join of a record and its voter
abbrev pub is_voter : VoterHistory → Voter → Bool
is_voter r v = same_text r.voter_registration_number v.voter_registration_number

unfoldable pub update_vh_statewide : Bool → ℕ → ℕ → List VoterHistory → ℕ × List VoterHistory
update_vh_statewide force date i rows = assign force date i (λ r. true) rows

unfoldable pub update_vh_by_county : Bool → ℕ → ℕ → Text → List VoterHistory → ℕ × List VoterHistory
update_vh_by_county force date i county rows = assign force date i (of_county county) rows

abbrev pub of_municipality :
    List Voter → Option Text → Option Text → Option VoterColumn → Option Text → VoterHistory → Bool
of_municipality voters municipality county c identifier r =
    exists_where (λ v. is_voter r v && lives_in municipality v && in_district? c identifier v)
      voters
    && of_county? county r

unfoldable pub update_vh_by_municipality :
    List Voter
    → Bool
    → ℕ
    → ℕ
    → Option Text
    → Option Text
    → Option VoterColumn
    → Option Text
    → List VoterHistory
    → ℕ × List VoterHistory
update_vh_by_municipality voters force date i municipality county c identifier rows =
    assign force date i (of_municipality voters municipality county c identifier) rows

abbrev pub of_district : List Voter → VoterColumn → Text → Option Text → VoterHistory → Bool
of_district voters c identifier county r =
    exists_where (λ v. is_voter r v && in_district c identifier v) voters && of_county? county r

unfoldable pub update_vh_by_district :
    List Voter
    → Bool
    → ℕ
    → ℕ
    → VoterColumn
    → Text
    → Option Text
    → List VoterHistory
    → ℕ × List VoterHistory
update_vh_by_district voters force date i c identifier county rows =
    assign force date i (of_district voters c identifier county) rows

abbrev pub of_counties : List Text → VoterHistory → Bool
of_counties counties r = is_in (upper (trim r.county)) (map upper counties)

unfoldable pub update_vh_by_psc_county :
    Bool → ℕ → ℕ → List Text → List VoterHistory → ℕ × List VoterHistory
update_vh_by_psc_county force date i counties rows = assign force date i (of_counties counties) rows
