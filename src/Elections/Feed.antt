-- ===== src/Elections/Feed.antt =====
-- `import_feed` of services/election_service.py: the races of a feed as elections.
use voter_api.Prelude.{
  ℕ, suc, Bool, true, false, not, ◌&&◌, ◌==◌, ◌+◌, ◌-◌, Option, none, some, List, [], ◌∷◌, ◌++◌,
  ltb, leb, length, if◌then◌else◌, Result, ok, err, ◌>>=◌, or_raise,
}
use voter_api.Text.{Text, codes}
use voter_api.Elections.Db.{
  Db, Election, ElectionStatus, ElectionSource, ElectionResult, Error, duplicate_election,
  no_ballot_items, invalid_date, validation_error,
}
use voter_api.Elections.Ingest.{
  SosFeed, BallotItem, IngestionResult, ingest_election_results, detect_election_type,
}
use voter_api.Elections.Service.{ElectionCreateRequest, create_election}
use voter_api.Elections.Results.{refreshed}
use voter_api.Elections.Refresh.{Fetch, persist_ingestion_result, refresh_single_election}

pub record FeedImportRequest : Type 0 where
  pub data_source_url : Text
  pub election_type : Option Text
  pub refresh_interval_seconds : ℕ
  pub auto_refresh : Bool

pub record FeedImportedElection : Type 0 where
  pub election_id : ℕ
  pub ballot_item_id : Text
  pub name : Text
  pub election_date : ℕ
  pub status : ElectionStatus
  pub refreshed : Bool
  pub precincts_reporting : Option ℕ
  pub precincts_participating : Option ℕ

pub record FeedImportResponse : Type 0 where
  pub elections_skipped : ℕ
  pub elections : List FeedImportedElection

abbrev pub type_or_detected : SosFeed → Option Text → Text
type_or_detected feed none = detect_election_type feed.election_name
type_or_detected feed (some t) = t

-- finalized if the date is more than 14 days ago
abbrev pub status_on : ℕ → ℕ → ElectionStatus
status_on today date =
    if ltb 14 (today - date) then ElectionStatus.finalized else ElectionStatus.active

-- `_parse_feed_date`, `_resolve_feed_metadata`: the date, the type and the status
unfoldable pub resolve_feed_metadata :
    ℕ → SosFeed → Option Text → Result Error (ℕ × Text × ElectionStatus)
resolve_feed_metadata today feed request_type = do
  date ← or_raise feed.election_date invalid_date
  ok (date, type_or_detected feed request_type, status_on today date)

abbrev pub race_name : SosFeed → BallotItem → Text
race_name feed item = feed.election_name ++ (codes " - " ++ item.name)

abbrev pub race_request :
    SosFeed → FeedImportRequest → ℕ → Text → ElectionStatus → BallotItem → ElectionCreateRequest
race_request feed request date election_type status item = record {
  name = race_name feed item;
  election_date = date;
  election_type = election_type;
  district = item.name;
  source = ElectionSource.sos_feed;
  data_source_url = some request.data_source_url;
  boundary_id = none;
  refresh_interval_seconds = request.refresh_interval_seconds;
  ballot_item_id = some item.id;
  status = status;
}

abbrev within : ℕ → Text → Bool
within n s = not (length s == 0) && leb (length s) n

-- the bounds that the schema of a request checks
abbrev pub is_valid_race : SosFeed → BallotItem → Bool
is_valid_race feed item =
    within 500 (race_name feed item) && within 200 item.name && within 50 item.id

-- How the first refresh of an election went: the row of results, if it succeeded, and the tables.
abbrev pub precincts_of : Option ElectionResult → Option ℕ × Option ℕ
precincts_of none = (none, none)
precincts_of (some r) = (r.precincts_reporting, r.precincts_participating)

abbrev pub after_refresh :
    Db → Result Error (Option ElectionResult × Db) → Option (Option ℕ × Option ℕ) × Db
after_refresh db (err raised) = (none, db)
after_refresh db (ok (r, db')) = (some (precincts_of r), db')

-- the results of the feed that is at hand, for an election that is over
abbrev pub after_ingestion :
    Db → ℕ → Election → Result Error IngestionResult → Option (Option ℕ × Option ℕ) × Db
after_ingestion db now e (err raised) = (none, db)
after_ingestion db now e (ok ingestion) =
    let s = ingestion.statewide in
    let db' = persist_ingestion_result db now e.id ingestion in
    (
      some (s.precincts_reporting, s.precincts_participating),
      record db' { elections = refreshed now e.id db'.elections },
    )

unfoldable pub first_refresh :
    Fetch
    → SosFeed
    → Bool
    → ElectionStatus
    → ℕ
    → BallotItem
    → Election
    → Db
    → Option (Option ℕ × Option ℕ) × Db
first_refresh fetch feed false status now item e db = (none, db)
first_refresh fetch feed true ElectionStatus.active now item e db =
    after_refresh db (refresh_single_election fetch db now e.id)
first_refresh fetch feed true ElectionStatus.finalized now item e db =
    after_ingestion db now e (ingest_election_results feed (some item.id))

abbrev imported :
    SosFeed
    → ℕ
    → ElectionStatus
    → BallotItem
    → Election
    → Option (Option ℕ × Option ℕ)
    → FeedImportedElection
imported feed date status item e none = record {
  election_id = e.id;
  ballot_item_id = item.id;
  name = race_name feed item;
  election_date = date;
  status = status;
  refreshed = false;
  precincts_reporting = none;
  precincts_participating = none;
}
imported feed date status item e (some (reporting, participating)) = record {
  election_id = e.id;
  ballot_item_id = item.id;
  name = race_name feed item;
  election_date = date;
  status = status;
  refreshed = true;
  precincts_reporting = reporting;
  precincts_participating = participating;
}

-- How the turn of an item ends.
pub data Turn : Type 0 where
  created : FeedImportedElection → Turn
  skipped : Turn
  stopped : Error → Turn

-- what the loop returns or raises, from a turn and the turns behind it
abbrev pub report :
    Turn → Db → Result Error FeedImportResponse × Db → Result Error FeedImportResponse × Db
report (Turn.stopped e) db rest = (err e, db)
report (Turn.created e) db (err raised, last) = (err raised, last)
report (Turn.created e) db (ok r, last) = (ok (record r { elections = e ∷ r.elections }), last)
report Turn.skipped db (err raised, last) = (err raised, last)
report Turn.skipped db (ok r, last) =
    (ok (record r { elections_skipped = r.elections_skipped + 1 }), last)

-- The tables hold what was committed before an exception. `draw k` is the UUID of the k-th item,
-- `clock k` the instant at which its turn comes.
module _ (fetch : Fetch) (feed : SosFeed) (request : FeedImportRequest) (date : ℕ)
    (election_type : Text) (status : ElectionStatus) (draw clock : ℕ → ℕ) where
  abbrev pub after_create : ℕ → BallotItem → Db → Result Error (Election × Db) → Turn × Db
  after_create k item db (err duplicate_election) = (Turn.skipped, db)
  after_create k item db (err raised) = (Turn.stopped raised, db)
  after_create k item db (ok (e, db')) =
      let (precincts, db'') =
        first_refresh fetch feed request.auto_refresh status (clock k) item e db' in
      (Turn.created (imported feed date status item e precincts), db'')

  unfoldable pub import_item : ℕ → BallotItem → Db → Turn × Db
  import_item k item db =
      if is_valid_race feed item
      then after_create k item db
          (create_election db (draw k) (race_request feed request date election_type status item))
      else (Turn.stopped validation_error, db)

  unfoldable pub import_items : ℕ → List BallotItem → Db → Result Error FeedImportResponse × Db
  import_items k [] db = (ok (record { elections_skipped = 0; elections = [] }), db)
  import_items k (item ∷ items) db =
      let (turn, db') = import_item k item db in report turn db' (import_items (suc k) items db')

-- the import once the feed has its metadata
abbrev pub import_races :
    Fetch
    → SosFeed
    → Db
    → (ℕ → ℕ)
    → (ℕ → ℕ)
    → FeedImportRequest
    → Result Error (ℕ × Text × ElectionStatus)
    → Result Error FeedImportResponse × Db
import_races fetch feed db draw clock request (err raised) = (err raised, db)
import_races fetch feed db draw clock request (ok (date, election_type, status)) =
    import_items fetch feed request date election_type status draw clock 0 feed.ballot_items db

abbrev pub import_fetched :
    Fetch
    → Db
    → ℕ
    → (ℕ → ℕ)
    → (ℕ → ℕ)
    → FeedImportRequest
    → Result Error SosFeed
    → Result Error FeedImportResponse × Db
import_fetched fetch db today draw clock request (err raised) = (err raised, db)
import_fetched fetch db today draw clock request (ok feed) =
    if length feed.ballot_items == 0
    then (err no_ballot_items, db)
    else import_races fetch feed db draw clock request
        (resolve_feed_metadata today feed request.election_type)

unfoldable pub import_feed :
    Fetch → Db → ℕ → (ℕ → ℕ) → (ℕ → ℕ) → FeedImportRequest → Result Error FeedImportResponse × Db
import_feed fetch db today draw clock request =
    import_fetched fetch db today draw clock request (fetch request.data_source_url)
