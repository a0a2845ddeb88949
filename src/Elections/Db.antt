-- ===== src/Elections/Db.antt =====
-- models/election.py and boundary.py: the columns that the modelled services read or write. A date
-- is a number of days, an instant a number of seconds.
use voter_api.Prelude.{
  ℕ, Bool, true, false, Option, none, some, List, ◌==◌, ◌&&◌, is_none, Result, ok, err, leb, find,
  count_where, if◌then◌else◌,
}
use voter_api.Text.{Text, same_text}

pub data ElectionStatus : Type 0 where
  active finalized : ElectionStatus

pub data ElectionSource : Type 0 where
  sos_feed manual linked : ElectionSource

abbrev pub is_active : ElectionStatus → Bool
is_active ElectionStatus.active = true
is_active ElectionStatus.finalized = false

abbrev pub is_manual : ElectionSource → Bool
is_manual ElectionSource.manual = true
is_manual _ = false

-- the descriptive columns
pub record ElectionInfo : Type 0 where
  pub description : Option Text
  pub purpose : Option Text
  pub eligibility_description : Option Text
  pub registration_deadline : Option ℕ
  pub early_voting_start : Option ℕ
  pub early_voting_end : Option ℕ
  pub absentee_request_deadline : Option ℕ
  pub qualifying_start : Option ℕ
  pub qualifying_end : Option ℕ

pub record Election : Type 0 where
  pub id : ℕ
  pub name : Text
  pub election_date : ℕ
  pub election_type : Text
  pub district : Text
  pub data_source_url : Option Text
  pub source : ElectionSource
  pub ballot_item_id : Option Text
  pub status : ElectionStatus
  pub last_refreshed_at : Option ℕ
  pub refresh_interval_seconds : ℕ
  pub info : ElectionInfo
  pub boundary_id : Option ℕ
  pub district_type : Option Text
  pub district_identifier : Option Text
  pub district_party : Option Text
  pub eligible_county : Option Text
  pub eligible_municipality : Option Text
  pub election_event_id : Option ℕ
  pub deleted_at : Option ℕ

-- An object of a JSON column; a key that is absent is none. A value is not null, since the parser
-- of the feed puts 0 or "" for null, but `precinctResults` may be.
pub record StoredGroup : Type 0 where
  pub group_name : Option Text
  pub vote_count : Option ℕ

pub record StoredPrecinct : Type 0 where
  pub id : Option Text
  pub name : Option Text
  pub vote_count : Option ℕ
  pub reporting_status : Option Text
  pub group_results : Option (List StoredGroup)

pub record StoredOption : Type 0 where
  pub id : Option Text
  pub name : Option Text
  pub political_party : Option Text
  pub ballot_order : Option ℕ
  pub vote_count : Option ℕ
  pub group_results : Option (List StoredGroup)
  pub precinct_results : Option (List StoredPrecinct)

pub record ElectionResult : Type 0 where
  pub election_id : ℕ
  pub precincts_participating : Option ℕ
  pub precincts_reporting : Option ℕ
  pub results_data : List StoredOption
  pub source_created_at : Option ℕ
  pub fetched_at : ℕ

pub record ElectionCountyResult : Type 0 where
  pub election_id : ℕ
  pub county_name : Text
  pub county_name_normalized : Text
  pub precincts_participating : Option ℕ
  pub precincts_reporting : Option ℕ
  pub results_data : List StoredOption

pub record Boundary : Type 0 where
  pub id : ℕ
  pub boundary_type : Text
  pub boundary_identifier : Text
  pub name : Text
  pub county : Option Text

pub record Db : Type 0 where
  pub elections : List Election
  pub results : List ElectionResult
  pub county_results : List ElectionCountyResult
  pub boundaries : List Boundary

-- What the service raises: its own exceptions, ValueError with what its message says, the
-- ValidationError of a request that it builds, and the errors of SQLAlchemy and of the fetcher.
pub data Error : Type 0 where
  duplicate_election manual_result_conflict election_not_found : Error
  boundary_required no_such_boundary not_manual no_data_source_url : Error
  ballot_item_not_found no_ballot_items invalid_date validation_error : Error
  fetch_error integrity_error data_error multiple_results no_result : Error

-- a nullable column has this value
abbrev pub has_text : Option Text → Text → Bool
has_text none t = false
has_text (some s) t = same_text s t

-- the rows that are not deleted
abbrev pub election_at : ℕ → Election → Bool
election_at i e = e.id == i && is_none e.deleted_at

-- the key of `uq_election_name_date`
abbrev pub named_on : Text → ℕ → Election → Bool
named_on name date e = same_text e.name name && e.election_date == date && is_none e.deleted_at

-- the key of `uq_election_feed_ballot_item`, deleted rows included
abbrev pub fed_by : Text → Text → Election → Bool
fed_by url item e = has_text e.data_source_url url && has_text e.ballot_item_id item

abbrev pub result_of : ℕ → ElectionResult → Bool
result_of i r = r.election_id == i

-- the key of `uq_election_county_results`
abbrev pub county_result : ℕ → Text → ElectionCountyResult → Bool
county_result i name r = r.election_id == i && same_text r.county_name name

abbrev pub boundary_at : ℕ → Boundary → Bool
boundary_at i b = b.id == i

-- `scalar_one_or_none`
unfoldable pub one_or_none : {A : Type 0} → (A → Bool) → List A → Result Error (Option A)
one_or_none p rows = if leb (count_where p rows) 1 then ok (find p rows) else err multiple_results
