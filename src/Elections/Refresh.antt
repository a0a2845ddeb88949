-- ===== src/Elections/Refresh.antt =====
-- services/election_service.py: the results of elections that a feed delivers.
use voter_api.Prelude.{
  ℕ, Bool, ◌&&◌, ◌+◌, Option, List, [], ◌∷◌, ◌++◌, is_none, is_some, if◌then◌else◌, find, select,
  write, Result, ok, err, ◌>>=◌, or_raise, committed,
}
use voter_api.Text.{Text}
use voter_api.Elections.Db.{
  Db, Election, ElectionResult, ElectionCountyResult, Error, result_of, county_result, is_active,
  election_not_found, no_data_source_url,
}
use voter_api.Elections.Ingest.{SosFeed, IngestionResult, CountyResultData, ingest_election_results}
use voter_api.Elections.Service.{get_election_by_id}
use voter_api.Elections.Results.{set_result, new_result, upsert_result, refreshed}

abbrev pub set_county : CountyResultData → ElectionCountyResult → ElectionCountyResult
set_county county row = record row {
  precincts_participating = county.precincts_participating;
  precincts_reporting = county.precincts_reporting;
  results_data = county.results_data;
}

abbrev pub new_county : ℕ → CountyResultData → ElectionCountyResult
new_county i county = record {
  election_id = i;
  county_name = county.county_name;
  county_name_normalized = county.county_name_normalized;
  precincts_participating = county.precincts_participating;
  precincts_reporting = county.precincts_reporting;
  results_data = county.results_data;
}

-- one turn of the loop over the counties
unfoldable pub upsert_county :
    ℕ → CountyResultData → List ElectionCountyResult → List ElectionCountyResult
upsert_county i county rows =
    let key = county_result i county.county_name in
    if is_some (find key rows)
    then write key (set_county county) rows
    else rows ++ new_county i county ∷ []

unfoldable pub upsert_counties :
    ℕ → List CountyResultData → List ElectionCountyResult → List ElectionCountyResult
upsert_counties i [] rows = rows
upsert_counties i (county ∷ counties) rows =
    upsert_counties i counties (upsert_county i county rows)

-- The number that is returned with the tables is the length of the list of counties.
unfoldable pub persist_ingestion_result : Db → ℕ → ℕ → IngestionResult → Db
persist_ingestion_result db now i ingestion =
    let s = ingestion.statewide in
    let set = λ (r : ElectionResult).
      record (set_result s.precincts_participating s.precincts_reporting s.results_data now r) {
        source_created_at = s.source_created_at;
      } in
    let new =
      new_result i s.precincts_participating s.precincts_reporting s.results_data
        s.source_created_at now in
    record db {
      results = upsert_result i set new db.results;
      county_results = upsert_counties i ingestion.counties db.county_results;
    }

-- What a fetch of a url gives: the parsed feed, or an error.
abbrev pub Fetch : Type 0
Fetch = Text → Result Error SosFeed

-- The precincts of the answer are those of the row of results.
unfoldable pub refresh_single_election :
    Fetch → Db → ℕ → ℕ → Result Error (Option ElectionResult × Db)
refresh_single_election fetch db now i = do
  e ← or_raise (get_election_by_id db i) election_not_found
  url ← or_raise e.data_source_url no_data_source_url
  feed ← fetch url
  ingestion ← ingest_election_results feed e.ballot_item_id
  let db' = persist_ingestion_result db now e.id ingestion
  let db'' : Db = record db' { elections = refreshed now i db'.elections }
  ok (find (result_of e.id) db''.results, db'')

-- the query for the active elections
abbrev is_refreshable : Election → Bool
is_refreshable e = is_active e.status && is_none e.deleted_at && is_some e.data_source_url

abbrev successes : Result Error (Option ElectionResult × Db) → ℕ
successes (ok r) = 1
successes (err e) = 0

-- The loop over the rows of the query: an exception is logged. Each turn has its own instant.
unfoldable pub refresh_each : Fetch → Db → List (ℕ × ℕ) → ℕ × Db
refresh_each fetch db [] = (0, db)
refresh_each fetch db ((now, i) ∷ rest) =
    let r = refresh_single_election fetch db now i in
    let (n, last) = refresh_each fetch (committed db r) rest in (n + successes r, last)

abbrev turns : (ℕ → ℕ) → List Election → List (ℕ × ℕ)
turns clock [] = []
turns clock (e ∷ es) = (clock e.id, e.id) ∷ turns clock es

-- `clock` gives the instant at which the turn of an election comes.
unfoldable pub refresh_all_active_elections : Fetch → Db → (ℕ → ℕ) → ℕ × Db
refresh_all_active_elections fetch db clock =
    refresh_each fetch db (turns clock (select is_refreshable db.elections))
