-- ===== src/Districts/Parser.antt =====
-- lib/district_parser/parser.py. Text is ASCII.
pub mod RoundTrip
use voter_api.Prelude.{
  ℕ, String, Bool, true, false, ◌&&◌, ◌||◌, Option, none, some, List, [], ◌∷◌, ◌++◌, ◌==◌, ◌-◌,
  is_some, if◌then◌else◌, length, drop, not, suc, zero,
}
use voter_api.Text.{
  Text, codes, same_text, is_in, is_digit, is_space, is_blank, has_char, lower, strip, before, from,
}
use voter_api.Text.Search.{
  starts_with, is_within, any_within, any_starts, is_letter, after_word, after_spaces, and_then,
  find_number,
}

pub record ParsedDistrict : Type 0 where
  pub district_type : Option Text
  pub district_identifier : Option Text
  pub party : Option Text
  pub county : Option Text
  pub raw : Text

-- `_PREFIX_MAP`
abbrev pub prefix_map : List (Text × Text)
prefix_map =
    (codes "state house of representatives", codes "state_house")
    ∷ (codes "us house of representatives", codes "congressional")
    ∷ (codes "state senate", codes "state_senate")
    ∷ (codes "psc", codes "psc")
    ∷ []

-- the first prefix of the text
abbrev pub type_of_prefix : Text → List (Text × Text) → Option Text
type_of_prefix s [] = none
type_of_prefix s ((prefix, dtype) ∷ rest) =
    let later = type_of_prefix s rest in if starts_with prefix s then some dtype else later

-- the text behind `\s+County\s+Commission`, if the text starts so
abbrev after_county_commission : Text → Option Text
after_county_commission s = and_then (after_spaces s) (λ r.
    and_then (after_word (codes "county") r)
      (λ t. and_then (after_spaces t) (after_word (codes "commission"))))

-- group 1 of `_COUNTY_COMMISSION_RE` behind its first letter: the fewest words
abbrev county_words : Text → Option Text
county_words [] = none
county_words (c ∷ s) =
    let rest = county_words s in
    let longer : Option Text = elim rest [ none ↦ none | some w ↦ some (c ∷ w) ] in
    if is_letter c
    then (if is_some (after_county_commission s) then some (c ∷ []) else longer)
    else if is_space c
    then longer
    else none

unfoldable pub match_county_commission : Text → Option Text
match_county_commission [] = none
match_county_commission (c ∷ s) = if is_letter c then county_words (c ∷ s) else none

-- the text is this word in any case, and spaces
abbrev is_word : Text → Text → Bool
is_word w s = elim (after_word w s) [ none ↦ false | some rest ↦ is_blank rest ]

-- `-\s*(Dem|Rep)\s*$` at the start: the party as it is written
abbrev party_here : Text → Option Text
party_here [] = none
party_here (c ∷ s) =
    let r = from (λ d. not (is_space d)) s in
    if c == b'-' && (is_word (codes "dem") r || is_word (codes "rep") r)
    then some (before (λ d. not (is_letter d)) r)
    else none

unfoldable pub find_party : Text → Option Text
find_party [] = none
find_party (c ∷ s) =
    let rest = find_party s in elim (party_here (c ∷ s)) [ none ↦ rest | some p ↦ some p ]

-- step 1 and 2: the first of two languages, without "Special "
unfoldable pub bare_district : Text → Text
bare_district district =
    let first =
      if has_char b'/' district then strip (before (λ c. c == b'/') district) else district in
    if starts_with (codes "special ") (lower first) then drop 8 first else first

-- step 3: the type and the county
unfoldable pub classify_district : Text → Option (Text × Option Text)
classify_district district = elim (type_of_prefix (lower district) prefix_map) [
  | some dtype ↦ some (dtype, none)
  | none ↦
      and_then (match_county_commission district)
        (λ county. some (codes "county_commission", some county))
]

-- the result, from the type and county, the number and the party
abbrev pub parsed : Text → Option (Text × Option Text) → Option Text → Option Text → ParsedDistrict
parsed raw none number party = record {
  district_type = none;
  district_identifier = none;
  party = none;
  county = none;
  raw = raw;
}
parsed raw (some (dtype, county)) number party = record {
  district_type = some dtype;
  district_identifier = number;
  party = party;
  county = county;
  raw = raw;
}

-- steps 3 to 5
abbrev pub parse_bare : Text → Text → ParsedDistrict
parse_bare raw district =
    parsed raw (classify_district district) (find_number (codes "district" ∷ []) district)
      (find_party district)

unfoldable pub parse_election_district : Text → ParsedDistrict
parse_election_district raw = parse_bare raw (bare_district raw)

-- `str.zfill`, of a text without a sign
abbrev zeros : ℕ → Text → Text
zeros zero s = s
zeros (suc n) s = b'0' ∷ zeros n s

unfoldable pub zfill : ℕ → Text → Text
zfill width s = zeros (width - length s) s

unfoldable pub pad_district_identifier : Text → Text
pad_district_identifier identifier = zfill 3 identifier
