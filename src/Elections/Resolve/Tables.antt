-- ===== src/Elections/Resolve/Tables.antt =====
-- models/voter_history.py, voter.py and election_event.py: the columns that the resolution reads or
-- writes.
use voter_api.Prelude.{
  ℕ, Bool, true, ◌==◌, ◌&&◌, Option, none, some, List, [], ◌∷◌, Result, or_raise, ◌>>=◌,
  if◌then◌else◌,
}
use voter_api.Text.{Text, same_text, is_in}
use voter_api.Elections.Db.{Db, Error, no_result, one_or_none}

pub record ElectionEvent : Type 0 where
  pub id : ℕ
  pub event_date : ℕ
  pub event_type : Text

pub record VoterHistory : Type 0 where
  pub voter_registration_number : Text
  pub county : Text
  pub election_date : ℕ
  pub normalized_election_type : Text
  pub election_id : Option ℕ
  pub election_event_id : Option ℕ

pub record Voter : Type 0 where
  pub voter_registration_number : Text
  pub congressional_district : Option Text
  pub state_senate_district : Option Text
  pub state_house_district : Option Text
  pub judicial_district : Option Text
  pub county_commission_district : Option Text
  pub school_board_district : Option Text
  pub city_council_district : Option Text
  pub municipality : Option Text

-- The elections and boundaries are those of Elections/Db.
pub record Records : Type 0 where
  pub db : Db
  pub election_events : List ElectionEvent
  pub voter_history : List VoterHistory
  pub voters : List Voter

-- the key of `uq_election_event_date_type`
abbrev pub event_on : ℕ → Text → ElectionEvent → Bool
event_on date type e = e.event_date == date && same_text e.event_type type

-- `scalar_one`
unfoldable pub one : {A : Type 0} → (A → Bool) → List A → Result Error A
one p rows = do row ← one_or_none p rows; or_raise row no_result

-- a filter on a date, if one is asked for
abbrev pub is_on : Option ℕ → ℕ → Bool
is_on none date = true
is_on (some d) date = date == d

-- `TRIM` of the database, which takes blanks only
abbrev ltrim : Text → Text
ltrim [] = []
ltrim (c ∷ s) = let rest = ltrim s in if c == b' ' then rest else c ∷ s

abbrev rtrim : Text → Text
rtrim [] = []
rtrim (c ∷ s) = let rest = rtrim s in if c == b' ' && is_in rest ([] ∷ []) then [] else c ∷ rest

unfoldable pub trim : Text → Text
trim s = rtrim (ltrim s)
