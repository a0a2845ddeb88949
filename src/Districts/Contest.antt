-- ===== src/Districts/Contest.antt =====
-- `parse_contest_name` of lib/district_parser/parser.py, for the file of qualified candidates.
use voter_api.Prelude.{Bool, ◌&&◌, not, Option, none, some, List, [], ◌∷◌, ◌==◌, if◌then◌else◌}
use voter_api.Text.{Text, codes, same_text, is_in, is_blank, lower, strip, before, from}
use voter_api.Text.Search.{starts_with, any_within, any_starts, is_letter, find_number}
use voter_api.Districts.Parser.{ParsedDistrict}

-- `_PARTY_ABBREV_MAP`
abbrev pub party_abbrev_map : List (Text × Text)
party_abbrev_map =
    (codes "R", codes "Republican")
    ∷ (codes "D", codes "Democrat")
    ∷ (codes "NP", codes "Nonpartisan")
    ∷ (codes "L", codes "Libertarian")
    ∷ (codes "I", codes "Independent")
    ∷ []

-- `dict.get(key, key)`
abbrev full_party : Text → List (Text × Text) → Text
full_party abbrev' [] = abbrev'
full_party abbrev' ((k, v) ∷ rest) =
    let later = full_party abbrev' rest in if same_text k abbrev' then v else later

abbrev pub statewide_offices : List Text
statewide_offices =
    codes "governor"
    ∷ codes "lieutenant governor"
    ∷ codes "secretary of state"
    ∷ codes "attorney general"
    ∷ codes "commissioner of agriculture"
    ∷ codes "commissioner of insurance"
    ∷ codes "commissioner of labor"
    ∷ codes "state school superintendent"
    ∷ []

-- `\(([A-Za-z]+)\)\s*$` at the start: the letters
abbrev paren_here : Text → Option Text
paren_here [] = none
paren_here (c ∷ s) =
    let letters = before (λ d. not (is_letter d)) s in
    if c == b'('
    then elim letters [
      | [] ↦ none
      | l ∷ ls ↦ elim (from (λ d. not (is_letter d)) s) [
        | [] ↦ none
        | d ∷ rest ↦ if d == b')' && is_blank rest then some (l ∷ ls) else none
      ]
    ]
    else none

-- step 1: the text before the party, and the party
unfoldable pub split_party : Text → Text × Option Text
split_party [] = ([], none)
split_party (c ∷ s) =
    let rest = split_party s in
    elim (paren_here (c ∷ s)) [ some p ↦ ([], some p) | none ↦ (c ∷ rest.0, rest.1) ]

abbrev pub is_statewide : Text → Bool
is_statewide lower' = is_in (strip (before (λ c. c == b',') lower')) statewide_offices

abbrev pub is_judicial : Text → Bool
is_judicial = any_within (
    codes "supreme court"
    ∷ codes "court of appeals"
    ∷ codes "superior court"
    ∷ codes "district attorney"
    ∷ codes "solicitor"
    ∷ codes "judge"
    ∷ codes "magistrate"
    ∷ codes "juvenile court"
    ∷ [])

abbrev pub is_county_office : Text → Bool
is_county_office = any_starts (
    codes "clerk of superior court"
    ∷ codes "sheriff"
    ∷ codes "tax commissioner"
    ∷ codes "coroner"
    ∷ codes "probate judge"
    ∷ codes "surveyor"
    ∷ [])

abbrev pub is_municipal : Text → Bool
is_municipal =
    any_starts
      (codes "mayor" ∷ codes "city council" ∷ codes "council member" ∷ codes "alderman" ∷ [])

-- step 3: the type, and the county or municipality that goes with it
unfoldable pub classify_contest : Text → Option Text → Option Text → Option Text × Option Text
classify_contest lower' county municipality =
    if any_within (codes "u.s house" ∷ codes "u.s. house" ∷ []) lower'
    then (some (codes "congressional"), none)
    else if any_within (codes "u.s senate" ∷ codes "u.s. senate" ∷ []) lower'
    then (some (codes "us_senate"), none)
    else if starts_with (codes "state senate") lower'
    then (some (codes "state_senate"), none)
    else if starts_with (codes "state house") lower'
    then (some (codes "state_house"), none)
    else if any_starts (codes "public service commission" ∷ codes "psc" ∷ []) lower'
    then (some (codes "psc"), none)
    else if is_statewide lower'
    then (some (codes "statewide"), none)
    else if any_within (codes "board of education" ∷ codes "school board" ∷ []) lower'
    then (some (codes "board_of_education"), county)
    else if any_within (codes "county commiss" ∷ codes "board of commissioners" ∷ []) lower'
    then (some (codes "county_commission"), county)
    else if is_county_office lower'
    then (some (codes "county_office"), county)
    else if is_judicial lower'
    then (some (codes "judicial"), none)
    else if starts_with (codes "city council") lower'
    then (some (codes "city_council"), municipality)
    else if is_municipal lower'
    then (some (codes "municipal"), municipality)
    else (none, none)

abbrev pub contest_words : List Text
contest_words =
    codes "district" ∷ codes "seat" ∷ codes "post" ∷ codes "ward" ∷ codes "division" ∷ []

unfoldable pub parse_contest_name : Text → Option Text → Option Text → ParsedDistrict
parse_contest_name raw county municipality =
    let (head, party) = split_party raw in
    let text : Text = elim party [ none ↦ raw | some p ↦ strip head ] in
    let kind = classify_contest (lower text) county municipality in
    record {
      district_type = kind.0;
      district_identifier = find_number contest_words text;
      party = elim party [ none ↦ none | some p ↦ some (full_party p party_abbrev_map) ];
      county = kind.1;
      raw = raw;
    }
