-- ===== src/Analysis/Comparator.antt =====
-- lib/analyzer/comparator.py. A dict is the list of its items, of which `get` finds the first with a
-- key; text is ASCII.
pub mod Verdict
pub mod Formats
pub mod Details
use voter_api.Prelude.{
  ℕ, Bool, true, false, not, ◌&&◌, ◌||◌, Option, none, some, List, [], ◌∷◌, ◌++◌, ◌==◌, leb, ltb,
  if◌then◌else◌, length, drop, sort_by, select, map, is_some,
}
use voter_api.Text.{Text, codes, same_text, is_in, is_digit, strip}

-- One item of a dict from a boundary type to an identifier.
pub record Assignment : Type 0 where
  pub boundary_type : Text
  pub value : Text

abbrev pub get : Text → List Assignment → Option Text
get t [] = none
get t (a ∷ items) =
    let rest = get t items in if same_text a.boundary_type t then some a.value else rest

-- The columns of a voter that name a district or a precinct.
pub record Voter : Type 0 where
  pub congressional_district : Option Text
  pub state_senate_district : Option Text
  pub state_house_district : Option Text
  pub county_precinct : Option Text
  pub municipal_precinct : Option Text
  pub judicial_district : Option Text
  pub county_commission_district : Option Text
  pub school_board_district : Option Text
  pub city_council_district : Option Text
  pub municipal_school_board_district : Option Text
  pub water_board_district : Option Text
  pub super_council_district : Option Text
  pub super_commissioner_district : Option Text
  pub super_school_board_district : Option Text
  pub fire_district : Option Text

-- `BOUNDARY_TYPE_TO_VOTER_FIELD`, with the value of each field
abbrev pub boundary_fields : Voter → List (Text × Option Text)
boundary_fields v =
    (codes "congressional", v.congressional_district)
    ∷ (codes "state_senate", v.state_senate_district)
    ∷ (codes "state_house", v.state_house_district)
    ∷ (codes "county_precinct", v.county_precinct)
    ∷ (codes "municipal_precinct", v.municipal_precinct)
    ∷ (codes "judicial", v.judicial_district)
    ∷ (codes "county_commission", v.county_commission_district)
    ∷ (codes "school_board", v.school_board_district)
    ∷ (codes "city_council", v.city_council_district)
    ∷ (codes "municipal_school_board", v.municipal_school_board_district)
    ∷ (codes "water_board", v.water_board_district)
    ∷ (codes "super_council", v.super_council_district)
    ∷ (codes "super_commissioner", v.super_commissioner_district)
    ∷ (codes "super_school_board", v.super_school_board_district)
    ∷ (codes "fire_district", v.fire_district)
    ∷ []

-- a set literal
abbrev pub district_types : List Text
district_types =
    codes "congressional"
    ∷ codes "state_senate"
    ∷ codes "state_house"
    ∷ codes "judicial"
    ∷ codes "county_commission"
    ∷ codes "school_board"
    ∷ codes "city_council"
    ∷ codes "municipal_school_board"
    ∷ codes "water_board"
    ∷ codes "super_council"
    ∷ codes "super_commissioner"
    ∷ codes "super_school_board"
    ∷ codes "fire_district"
    ∷ []

abbrev pub precinct_types : List Text
precinct_types = codes "county_precinct" ∷ codes "municipal_precinct" ∷ []

abbrev pub numeric_district_types : List Text
numeric_district_types = district_types

unfoldable pub is_district : Text → Bool
is_district t = is_in t district_types

unfoldable pub is_precinct : Text → Bool
is_precinct t = is_in t precinct_types

unfoldable pub is_numeric_district : Text → Bool
is_numeric_district t = is_in t numeric_district_types

-- what `int` reads after a sign: digits, with single underscores between them
abbrev pub follows : Text → Bool
follows [] = true
follows (c ∷ []) = is_digit c
follows (c ∷ d ∷ s) =
    let after = follows (d ∷ s) in
    let later = follows s in if is_digit c then after else c == b'_' && is_digit d && later

abbrev pub is_numeral : Text → Bool
is_numeral [] = false
is_numeral (c ∷ s) = is_digit c && follows s

abbrev pub drop_zeros : Text → Text
drop_zeros [] = []
drop_zeros (c ∷ s) = let rest = drop_zeros s in if c == b'0' then rest else c ∷ s

-- The digits of `str(int(text))` but the sign; `int` refuses more than 4300 digits.
abbrev pub decimal : Text → Option Text
decimal s =
    let digits = select is_digit s in
    if is_numeral s && leb (length digits) 4300 then some (drop_zeros digits) else none

abbrev pub signed : Bool → Option Text → Option Text
signed minus none = none
signed minus (some []) = some (codes "0")
signed minus (some (c ∷ s)) = some (if minus then b'-' ∷ c ∷ s else c ∷ s)

-- `str(int(text))` of a text without spaces around it, or the ValueError
unfoldable pub int_text : Text → Option Text
int_text [] = none
int_text (c ∷ s) =
    if c == b'-'
    then signed true (decimal s)
    else if c == b'+'
    then signed false (decimal s)
    else signed false (decimal (c ∷ s))

-- `with contextlib.suppress(ValueError): text = str(int(text))`
abbrev pub renumber : Text → Text
renumber s = elim (int_text s) [ none ↦ s | some n ↦ n ]

unfoldable pub normalize_for_comparison : Text → Text → Text → Text × Text
normalize_for_comparison boundary_type determined registered =
    let det = strip determined in
    let reg = strip registered in
    if is_numeric_district boundary_type
    then (renumber det, renumber reg)
    else if is_precinct boundary_type && ltb 3 (length det) && same_text (drop 3 det) reg
    then (drop 3 det, reg)
    else (det, reg)

abbrev registered_of : List (Text × Option Text) → List Assignment
registered_of [] = []
registered_of ((t, none) ∷ fields) = registered_of fields
registered_of ((t, some value) ∷ fields) =
    let rest = registered_of fields in
    elim (strip value) [ [] ↦ rest | c ∷ s ↦ record { boundary_type = t; value = c ∷ s } ∷ rest ]

unfoldable pub extract_registered_boundaries : Voter → List Assignment
extract_registered_boundaries voter = registered_of (boundary_fields voter)

-- the order of `sorted` on texts
abbrev pub text_leb : Text → Text → Bool
text_leb [] t = true
text_leb (c ∷ s) [] = false
text_leb (c ∷ s) (d ∷ t) = let rest = text_leb s t in ltb c d || c == d && rest

pub data MatchStatus : Type 0 where
  unable_to_analyze match mismatch_both mismatch_precinct mismatch_district : MatchStatus

pub record Mismatch : Type 0 where
  pub boundary_type : Text
  pub registered : Text
  pub determined : Text

pub record ComparisonResult : Type 0 where
  pub match_status : MatchStatus
  pub determined_boundaries : List Assignment
  pub registered_boundaries : List Assignment
  pub mismatch_details : List Mismatch

-- what the loop of `compare_boundaries` collects
pub record Comparison : Type 0 where
  pub mismatches : List Mismatch
  pub has_district_mismatch : Bool
  pub has_precinct_mismatch : Bool

-- before the loop
abbrev pub nothing : Comparison
nothing = record { mismatches = []; has_district_mismatch = false; has_precinct_mismatch = false }

-- The values of a type that both dicts have, if they are not equal in normal form.
abbrev pub conflict : Text → Option Text → Option Text → Option Mismatch
conflict t none reg = none
conflict t (some d) none = none
conflict t (some d) (some r) =
    let norm = normalize_for_comparison t d r in
    if same_text norm.0 norm.1
    then none
    else some (record { boundary_type = t; registered = r; determined = d })

abbrev pub note : Comparison → Text → Option Mismatch → Comparison
note found t none = found
note found t (some m) = record {
  mismatches = found.mismatches ++ (m ∷ []);
  has_district_mismatch = found.has_district_mismatch || is_district t;
  has_precinct_mismatch = found.has_precinct_mismatch || is_precinct t;
}

module _ (determined registered : List Assignment) where
  unfoldable pub compare_types : List Text → Comparison → Comparison
  compare_types [] found = found
  compare_types (t ∷ types) found =
      compare_types types (note found t (conflict t (get t determined) (get t registered)))

-- `sorted(set(determined.keys()) & set(registered.keys()))`
abbrev pub types_of : List Assignment → List Text
types_of items = map (λ a. a.boundary_type) items

abbrev pub comparable_types : List Assignment → List Assignment → List Text
comparable_types determined registered =
    sort_by text_leb (select (λ t. is_some (get t registered)) (types_of determined))

unfoldable pub status_of : Bool → Bool → List Mismatch → MatchStatus
status_of has_district_mismatch has_precinct_mismatch [] = MatchStatus.match
status_of has_district_mismatch has_precinct_mismatch (m ∷ ms) =
    if has_district_mismatch && has_precinct_mismatch
    then MatchStatus.mismatch_both
    else if has_precinct_mismatch
    then MatchStatus.mismatch_precinct
    else MatchStatus.mismatch_district

unfoldable pub compare_boundaries : List Assignment → List Assignment → ComparisonResult
compare_boundaries [] registered = record {
  match_status = MatchStatus.unable_to_analyze;
  determined_boundaries = [];
  registered_boundaries = registered;
  mismatch_details = [];
}
compare_boundaries (a ∷ items) registered =
    let determined = a ∷ items in
    let found =
      compare_types determined registered (comparable_types determined registered) nothing in
    record {
      match_status =
          status_of found.has_district_mismatch found.has_precinct_mismatch found.mismatches;
      determined_boundaries = determined;
      registered_boundaries = registered;
      mismatch_details = found.mismatches;
    }
