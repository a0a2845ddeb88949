-- ===== src/Elections/Results.antt =====
-- services/election_service.py: the results of elections, read, or submitted by hand.
pub mod RoundTrip
use voter_api.Prelude.{
  ℕ, String, Bool, true, false, not, ◌&&◌, ◌||◌, ◌==◌, ◌+◌, Option, none, some, List, [], ◌∷◌, ◌++◌,
  is_none, is_some, if◌then◌else◌, find, select, write, map, Result, ok, err, ◌>>=◌, ◌>>◌, guard,
  or_raise, committed,
}
use voter_api.Text.{Text, lower, is_digit, is_lower}
use voter_api.Elections.Db.{
  Db, Election, ElectionStatus, ElectionResult, ElectionCountyResult, StoredOption, StoredGroup,
  Error, election_at, result_of, county_result, is_manual, is_active, election_not_found,
  manual_result_conflict, no_data_source_url,
}
use voter_api.Elections.Ingest.{
  SosFeed, IngestionResult, StatewideResultData, CountyResultData, ingest_election_results,
}
use voter_api.Text.Slug.{decimal, slug}
use voter_api.Elections.Service.{get_election_by_id}

pub record VoteMethodResult : Type 0 where
  pub group_name : Text
  pub vote_count : ℕ

pub record CandidateResult : Type 0 where
  pub id : Text
  pub name : Text
  pub political_party : Text
  pub ballot_order : ℕ
  pub vote_count : ℕ
  pub group_results : List VoteMethodResult

pub record CountyResultSummary : Type 0 where
  pub county_name : Text
  pub precincts_participating : Option ℕ
  pub precincts_reporting : Option ℕ
  pub candidates : List CandidateResult

pub record ElectionResultsResponse : Type 0 where
  pub election_id : ℕ
  pub election_name : Text
  pub election_date : ℕ
  pub status : ElectionStatus
  pub last_refreshed_at : Option ℕ
  pub precincts_participating : Option ℕ
  pub precincts_reporting : Option ℕ
  pub candidates : List CandidateResult
  pub county_results : List CountyResultSummary

-- `dict.get(key, default)`
abbrev pub get_or {ℓ} : {A : Type ℓ} → Option A → A → A
get_or none default = default
get_or (some a) default = a

abbrev to_group : StoredGroup → VoteMethodResult
to_group g = record { group_name = get_or g.group_name []; vote_count = get_or g.vote_count 0 }

unfoldable pub ballot_option_to_candidate : StoredOption → CandidateResult
ballot_option_to_candidate opt = record {
  id = get_or opt.id [];
  name = get_or opt.name [];
  political_party = get_or opt.political_party [];
  ballot_order = get_or opt.ballot_order 1;
  vote_count = get_or opt.vote_count 0;
  group_results = map to_group (get_or opt.group_results []);
}

abbrev pub county_summary : ElectionCountyResult → CountyResultSummary
county_summary row = record {
  county_name = row.county_name;
  precincts_participating = row.precincts_participating;
  precincts_reporting = row.precincts_reporting;
  candidates = map ballot_option_to_candidate row.results_data;
}

abbrev pub county_rows : ℕ → List ElectionCountyResult → List ElectionCountyResult
county_rows i rows = select (λ r. r.election_id == i) rows

-- what the result row of the election gives, or nothing
abbrev pub from_result {ℓ} : {A : Type ℓ} → (ElectionResult → A) → A → Option ElectionResult → A
from_result f default none = default
from_result f default (some r) = f r

abbrev pub response_of : Db → Election → ElectionResultsResponse
response_of db e =
    let result = find (result_of e.id) db.results in
    record {
      election_id = e.id;
      election_name = e.name;
      election_date = e.election_date;
      status = e.status;
      last_refreshed_at = e.last_refreshed_at;
      precincts_participating = from_result (λ r. r.precincts_participating) none result;
      precincts_reporting = from_result (λ r. r.precincts_reporting) none result;
      candidates = from_result (λ r. map ballot_option_to_candidate r.results_data) [] result;
      county_results = map county_summary (county_rows e.id db.county_results);
    }

abbrev pub response_for : Db → Option Election → Option ElectionResultsResponse
response_for db none = none
response_for db (some e) = some (response_of db e)

unfoldable pub get_election_results : Db → ℕ → Option ElectionResultsResponse
get_election_results db i = response_for db (get_election_by_id db i)

pub record ManualCandidateResult : Type 0 where
  pub name : Text
  pub political_party : Text
  pub ballot_order : ℕ
  pub vote_count : ℕ
  pub group_results : List VoteMethodResult

pub record ManualResultSubmitRequest : Type 0 where
  pub precincts_participating : Option ℕ
  pub precincts_reporting : Option ℕ
  pub candidates : List ManualCandidateResult

abbrev store_group : VoteMethodResult → StoredGroup
store_group g = record { group_name = some g.group_name; vote_count = some g.vote_count }

-- the object that is stored for a candidate
unfoldable pub store_candidate : ManualCandidateResult → StoredOption
store_candidate c = record {
  id = some (slug (lower c.name) ++ b'-' ∷ decimal c.ballot_order);
  name = some c.name;
  political_party = some c.political_party;
  ballot_order = some c.ballot_order;
  vote_count = some c.vote_count;
  group_results = some (map store_group c.group_results);
  precinct_results = none;
}

-- the columns that both ways of storing results write
abbrev pub set_result :
    Option ℕ → Option ℕ → List StoredOption → ℕ → ElectionResult → ElectionResult
set_result participating reporting options now r = record r {
  precincts_participating = participating;
  precincts_reporting = reporting;
  results_data = options;
  fetched_at = now;
}

abbrev pub new_result : ℕ → Option ℕ → Option ℕ → List StoredOption → Option ℕ → ℕ → ElectionResult
new_result i participating reporting options created now = record {
  election_id = i;
  precincts_participating = participating;
  precincts_reporting = reporting;
  results_data = options;
  source_created_at = created;
  fetched_at = now;
}

-- the row of the election is written, or is new
abbrev pub upsert_result :
    ℕ
    → (ElectionResult → ElectionResult)
    → ElectionResult
    → List ElectionResult
    → List ElectionResult
upsert_result i f new rows =
    if is_some (find (result_of i) rows) then write (result_of i) f rows else rows ++ new ∷ []

abbrev pub refreshed : ℕ → ℕ → List Election → List Election
refreshed now i rows = write (election_at i) (λ e. record e { last_refreshed_at = some now }) rows

-- the response to a submission for this election
abbrev pub submitted_response : ℕ → ManualResultSubmitRequest → Election → ElectionResultsResponse
submitted_response now request e = record {
  election_id = e.id;
  election_name = e.name;
  election_date = e.election_date;
  status = e.status;
  last_refreshed_at = some now;
  precincts_participating = request.precincts_participating;
  precincts_reporting = request.precincts_reporting;
  candidates = map ballot_option_to_candidate (map store_candidate request.candidates);
  county_results = [];
}

-- the tables that a submission commits
abbrev pub submitted_db : Db → ℕ → ℕ → ManualResultSubmitRequest → Db
submitted_db db now i request =
    let options = map store_candidate request.candidates in
    record db {
      results =
          upsert_result i
            (set_result request.precincts_participating request.precincts_reporting options now)
            (new_result i request.precincts_participating request.precincts_reporting options none
              now)
            db.results;
      elections = refreshed now i db.elections;
    }

-- The response, and whether a result was there before.
unfoldable pub submit_manual_results :
    Db → ℕ → ℕ → ManualResultSubmitRequest → Result Error ((ElectionResultsResponse × Bool) × Db)
submit_manual_results db now i request = do
  e ← or_raise (get_election_by_id db i) election_not_found
  guard (is_manual e.source) manual_result_conflict
  ok (
    (submitted_response now request e, is_some (find (result_of i) db.results)),
    submitted_db db now i request,
  )
