-- ===== src/Elections/Steps/Runs.antt =====
-- Runs of commands, and what they leave to `create_election`.
use voter_api.Prelude.{
  ℕ, inl, inr, List, [], ◌∷◌, if_committed, Result, ok, err, Bool-cases, length, ◌==◌,
}
use voter_api.Text.{Text}
use voter_api.Elections.Db.{Db, ElectionStatus, Error}
use voter_api.Elections.Ingest.{SosFeed}
use voter_api.Elections.Service.{create_election}
use voter_api.Elections.Refresh.{Fetch, refresh_single_election, refresh_all_active_elections}
use voter_api.Elections.Feed.{
  FeedImportRequest, import_feed, import_fetched, import_races, resolve_feed_metadata,
}
use voter_api.Elections.Unique.{HasUniqueRows}
use voter_api.Elections.Unique.Handlers.{
  create_election-HasUniqueRows, update_election-HasUniqueRows, link_election-HasUniqueRows,
  soft_delete_election-HasUniqueRows,
}
use voter_api.Elections.Unique.Stores.{submit_manual_results-HasUniqueRows}
use voter_api.Elections.Steps.Unique.{
  refresh_single_election-HasUniqueRows, refresh_each-HasUniqueRows, import_items-HasUniqueRows,
}
use voter_api.Elections.Steps.{Command, step, run}

module _ (fetch : Fetch) (db : Db) (draw clock : ℕ → ℕ) (request : FeedImportRequest)
    (u : HasUniqueRows db) where
  import_races-HasUniqueRows :
      (feed : SosFeed) (meta : Result Error (ℕ × Text × ElectionStatus))
      → HasUniqueRows (import_races fetch feed db draw clock request meta).1
  import_races-HasUniqueRows feed (err raised) = u
  import_races-HasUniqueRows feed (ok (date, kind, status)) =
      import_items-HasUniqueRows fetch feed request date kind status draw clock feed.ballot_items 0
        db u

  import_fetched-HasUniqueRows :
      (today : ℕ) (r : Result Error SosFeed)
      → HasUniqueRows (import_fetched fetch db today draw clock request r).1
  import_fetched-HasUniqueRows today (err raised) = u
  import_fetched-HasUniqueRows today (ok feed) = elim (Bool-cases (length feed.ballot_items == 0)) [
    | inl h ↦ rw h u
    | inr h ↦
        rw h
          (import_races-HasUniqueRows feed (resolve_feed_metadata today feed request.election_type))
  ]

step-HasUniqueRows : (c : Command) (db : Db) → HasUniqueRows db → HasUniqueRows (step c db)
unfolding refresh_all_active_elections import_feed
step-HasUniqueRows (Command.create fresh request) db u =
    if_committed HasUniqueRows db (create_election db fresh request) u
      (λ e db' h. create_election-HasUniqueRows db fresh request e db' h u)
step-HasUniqueRows (Command.update i fields) db u = update_election-HasUniqueRows db i fields u
step-HasUniqueRows (Command.soft_delete now i) db u = soft_delete_election-HasUniqueRows db now i u
step-HasUniqueRows (Command.link i url item) db u = link_election-HasUniqueRows db i url item u
step-HasUniqueRows (Command.submit now i request) db u =
    submit_manual_results-HasUniqueRows db now i request u
step-HasUniqueRows (Command.refresh fetch now i) db u =
    if_committed HasUniqueRows db (refresh_single_election fetch db now i) u
      (λ r db' h. refresh_single_election-HasUniqueRows fetch db now i r db' h u)
step-HasUniqueRows (Command.refresh_all fetch clock) db u = refresh_each-HasUniqueRows fetch _ db u
step-HasUniqueRows (Command.import fetch today draw clock request) db u =
    import_fetched-HasUniqueRows fetch db draw clock request u today (fetch request.data_source_url)

-- If the unique indexes hold, then whatever the handlers are asked for, in any order: no two
-- elections have the same id, no two that are not deleted the same name and date, and no two the
-- same feed and ballot item; no election has two rows of results, or two for one county.
pub run-HasUniqueRows : (cs : List Command) (db : Db) → HasUniqueRows db → HasUniqueRows (run cs db)
unfolding run
run-HasUniqueRows [] db u = u
run-HasUniqueRows (c ∷ cs) db u = run-HasUniqueRows cs (step c db) (step-HasUniqueRows c db u)
