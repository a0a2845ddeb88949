-- ===== src/Elections/Steps/Unique.antt =====
-- The unique indexes over runs.
use voter_api.Prelude.{
  ℕ, suc, ◌≡◌, refl, inl, inr, Bool, true, false, Option, some, List, [], ◌∷◌, arith, committed,
  if_committed, Result, Result-cases, ok, err, >>=-eq-ok, Bool-cases, or_raise,
}
use voter_api.Text.{Text}
use voter_api.Elections.Db.{
  Db, Election, ElectionResult, ElectionStatus, Error, duplicate_election, election_not_found,
  no_data_source_url,
}
use voter_api.Elections.Ingest.{SosFeed, BallotItem, IngestionResult, ingest_election_results}
use voter_api.Elections.Service.{create_election, get_election_by_id}
use voter_api.Elections.Results.{refreshed}
use voter_api.Elections.Refresh.{
  Fetch, persist_ingestion_result, refresh_single_election, refresh_each,
}
use voter_api.Elections.Feed.{
  FeedImportRequest, FeedImportResponse, Turn, report, after_create, first_refresh, import_item,
  import_items, race_request, is_valid_race,
}
use voter_api.Elections.Unique.{HasUniqueRows}
use voter_api.Elections.Unique.Handlers.{create_election-HasUniqueRows}
use voter_api.Elections.Unique.Stores.{
  persist_ingestion_result-HasUniqueRows, refreshed-HasUniqueRows,
}

-- A refresh stores what was taken out of a feed, and stamps the election.
pub refresh_single_election-ok :
    (fetch : Fetch) (db : Db) (now i : ℕ) (r : Option ElectionResult) (db' : Db)
    → refresh_single_election fetch db now i ≡ ok (r, db')
    → (j : ℕ) × (ingestion : IngestionResult) × (db'
        ≡ record (persist_ingestion_result db now j ingestion) {
          elections = refreshed now i (persist_ingestion_result db now j ingestion).elections;
        })
unfolding refresh_single_election
refresh_single_election-ok fetch db now i r db' h =
    let (e, found, h1) = >>=-eq-ok (or_raise (get_election_by_id db i) election_not_found) _ h in
    let (url, has_url, h2) = >>=-eq-ok (or_raise e.data_source_url no_data_source_url) _ h1 in
    let (feed, fetched, h3) = >>=-eq-ok (fetch url) _ h2 in
    let (ingestion, ingested, h4) =
      >>=-eq-ok (ingest_election_results feed e.ballot_item_id) _ h3 in
    (e.id, ingestion, ground arith)

pub refresh_single_election-HasUniqueRows :
    (fetch : Fetch) (db : Db) (now i : ℕ) (r : Option ElectionResult) (db' : Db)
    → refresh_single_election fetch db now i ≡ ok (r, db')
    → HasUniqueRows db
    → HasUniqueRows db'
refresh_single_election-HasUniqueRows fetch db now i r db' h u =
    let (j, ingestion, after) = refresh_single_election-ok fetch db now i r db' h in
    rw after (
      refreshed-HasUniqueRows (persist_ingestion_result db now j ingestion) now i
        (persist_ingestion_result-HasUniqueRows db now j ingestion u))

pub refresh_each-HasUniqueRows :
    (fetch : Fetch) (turns : List (ℕ × ℕ)) (db : Db)
    → HasUniqueRows db
    → HasUniqueRows (refresh_each fetch db turns).1
unfolding refresh_each
refresh_each-HasUniqueRows fetch [] db u = u
refresh_each-HasUniqueRows fetch ((now, i) ∷ rest) db u =
    refresh_each-HasUniqueRows fetch rest (committed db (refresh_single_election fetch db now i)) (
      if_committed HasUniqueRows db (refresh_single_election fetch db now i) u
        (λ r db' h. refresh_single_election-HasUniqueRows fetch db now i r db' h u))

first_refresh-HasUniqueRows :
    (fetch : Fetch) (feed : SosFeed) (auto : Bool) (status : ElectionStatus) (now : ℕ)
    (item : BallotItem) (e : Election) (db : Db)
    → HasUniqueRows db
    → HasUniqueRows (first_refresh fetch feed auto status now item e db).1
unfolding first_refresh
first_refresh-HasUniqueRows fetch feed false status now item e db u = u
first_refresh-HasUniqueRows fetch feed true ElectionStatus.active now item e db u =
    elim (Result-cases (refresh_single_election fetch db now e.id)) [
      | inr (raised, h) ↦ rw h u
      | inl ((r, db'), h) ↦ rw h (refresh_single_election-HasUniqueRows fetch db now e.id r db' h u)
    ]
first_refresh-HasUniqueRows fetch feed true ElectionStatus.finalized now item e db u =
    elim (Result-cases (ingest_election_results feed (some item.id))) [
      | inr (raised, h) ↦ rw h u
      | inl (ingestion, h) ↦ rw h (
          refreshed-HasUniqueRows (persist_ingestion_result db now e.id ingestion) now e.id
            (persist_ingestion_result-HasUniqueRows db now e.id ingestion u))
    ]

-- The tables behind a turn are those behind the loop, or those that the next turns find.
pub report-end :
    (P : Db → Type 0) (turn : Turn) (db : Db) (rest : Result Error FeedImportResponse × Db)
    → P db
    → P rest.1
    → P (report turn db rest).1
report-end P (Turn.stopped e) db (r, last) h k = h
report-end P (Turn.created e) db (ok r, last) h k = k
report-end P (Turn.created e) db (err r, last) h k = k
report-end P Turn.skipped db (ok r, last) h k = k
report-end P Turn.skipped db (err r, last) h k = k

module _ (fetch : Fetch) (feed : SosFeed) (request : FeedImportRequest) (date : ℕ)
    (election_type : Text) (status : ElectionStatus) (draw clock : ℕ → ℕ) where
  after_create-HasUniqueRows :
      (k : ℕ) (item : BallotItem) (db : Db) (r : Result Error (Election × Db))
      → HasUniqueRows db
      → ((e : Election) (db' : Db) → r ≡ ok (e, db') → HasUniqueRows db')
      → HasUniqueRows
          (after_create fetch feed request date election_type status draw clock k item db r).1
  after_create-HasUniqueRows k item db (ok (e, db')) u h =
      first_refresh-HasUniqueRows fetch feed request.auto_refresh status (clock k) item e db'
        (h e db' refl)
  after_create-HasUniqueRows k item db (err raised) u h = after_raise raised
    where
      after_raise :
          (raised : Error)
          → HasUniqueRows
              (after_create fetch feed request date election_type status draw clock k item db
                (err raised)).1
      after_raise duplicate_election = u
      after_raise _ = u

  pub import_item-HasUniqueRows :
      (k : ℕ) (item : BallotItem) (db : Db)
      → HasUniqueRows db
      → HasUniqueRows
          (import_item fetch feed request date election_type status draw clock k item db).1
  unfolding import_item
  import_item-HasUniqueRows k item db u = elim (Bool-cases (is_valid_race feed item)) [
    | inr h ↦ rw h u
    | inl h ↦
        let race = race_request feed request date election_type status item in
        rw h (
          after_create-HasUniqueRows k item db (create_election db (draw k) race) u
            (λ e db' made. create_election-HasUniqueRows db (draw k) race e db' made u))
  ]

  pub import_items-HasUniqueRows :
      (items : List BallotItem) (k : ℕ) (db : Db)
      → HasUniqueRows db
      → HasUniqueRows
          (import_items fetch feed request date election_type status draw clock k items db).1
  unfolding import_items
  import_items-HasUniqueRows [] k db u = u
  import_items-HasUniqueRows (item ∷ items) k db u =
      let turn = import_item fetch feed request date election_type status draw clock k item db in
      let after = import_item-HasUniqueRows k item db u in
      report-end HasUniqueRows turn.0 turn.1
        (import_items fetch feed request date election_type status draw clock (suc k) items turn.1)
        after (import_items-HasUniqueRows items (suc k) turn.1 after)
