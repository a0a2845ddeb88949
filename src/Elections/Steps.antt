-- ===== src/Elections/Steps.antt =====
-- All write handlers of services/election_service.py as one system: a command is a call of a handler,
-- a run is any sequence of them.
pub mod Unique
pub mod Known
pub mod Reimport
pub mod Runs
use voter_api.Prelude.{ℕ, Option, List, [], ◌∷◌, committed, Bool}
use voter_api.Text.{Text}
use voter_api.Elections.Db.{Db}
use voter_api.Elections.Service.{
  ElectionCreateRequest, ElectionField, create_election, update_election, soft_delete_election,
  link_election,
}
use voter_api.Elections.Results.{ManualResultSubmitRequest, submit_manual_results}
use voter_api.Elections.Refresh.{Fetch, refresh_single_election, refresh_all_active_elections}
use voter_api.Elections.Feed.{FeedImportRequest, import_feed}

-- A command with what it draws, reads from the clock and fetches.
pub data Command : Type 0 where
  create : ℕ → ElectionCreateRequest → Command
  update : ℕ → List ElectionField → Command
  soft_delete : ℕ → ℕ → Command
  link : ℕ → Text → Option Text → Command
  submit : ℕ → ℕ → ManualResultSubmitRequest → Command
  refresh : Fetch → ℕ → ℕ → Command
  refresh_all : Fetch → (ℕ → ℕ) → Command
  import : Fetch → ℕ → (ℕ → ℕ) → (ℕ → ℕ) → FeedImportRequest → Command

abbrev pub step : Command → Db → Db
step (Command.create fresh request) db = committed db (create_election db fresh request)
step (Command.update i fields) db = committed db (update_election db i fields)
step (Command.soft_delete now i) db = (soft_delete_election db now i).1
step (Command.link i url item) db = committed db (link_election db i url item)
step (Command.submit now i request) db = committed db (submit_manual_results db now i request)
step (Command.refresh fetch now i) db = committed db (refresh_single_election fetch db now i)
step (Command.refresh_all fetch clock) db = (refresh_all_active_elections fetch db clock).1
step (Command.import fetch today draw clock request) db =
    (import_feed fetch db today draw clock request).1

unfoldable pub run : List Command → Db → Db
run [] db = db
run (c ∷ cs) db = run cs (step c db)
