-- ===== src/Locations/Steps.antt =====
-- The write handlers of locations and jobs as one system: a command is a call of a handler, a run is
-- any sequence of them. The loop `process_geocoding_job` is not among the commands.
pub mod Ended
pub mod Reopened
use voter_api.Prelude.{ℕ, Bool, Option, List, [], ◌∷◌, committed, find}
use voter_api.Text.{Text}
use voter_api.Locations.Db.{Db, Coordinates, job_at}
use voter_api.Locations.Service.{
  GeocodingResult, store_geocoded_location, add_manual_location, set_primary_location,
  set_official_location_override, clear_official_location_override, cancel_geocoding_job,
  mark_geocoding_job_failed, end_row, open_job, cancelled_at, failed_at,
}
use voter_api.Locations.Consistent.{IsConsistent}
use voter_api.Locations.Handlers.{
  store_geocoded_location-IsConsistent, add_manual_location-IsConsistent,
  set_primary_location-IsConsistent, set_official_location_override-IsConsistent,
  clear_official_location_override-IsConsistent, end_row-IsConsistent,
}

pub data Command : Type 0 where
  store : ℕ → ℕ → ℕ → GeocodingResult → Text → Text → Command
  add : ℕ → ℕ → ℕ → Coordinates → Text → Bool → Command
  set_primary : ℕ → ℕ → Command
  set_override : ℕ → Coordinates → Command
  clear_override : ℕ → Command
  cancel : ℕ → ℕ → Command
  mark_failed : ℕ → ℕ → Option Text → Command

unfoldable pub step : Command → Db → Db
step (Command.store now fresh voter result source address) db =
    committed db (store_geocoded_location db now fresh voter result source address)
step (Command.add now fresh voter at source set_as_primary) db =
    committed db (add_manual_location db now fresh voter at source set_as_primary)
step (Command.set_primary voter i) db = (set_primary_location db voter i).1
step (Command.set_override i at) db = committed db (set_official_location_override db i at)
step (Command.clear_override i) db = committed db (clear_official_location_override db i)
step (Command.cancel now i) db = committed db (cancel_geocoding_job db now i)
step (Command.mark_failed now i reason) db =
    committed db (mark_geocoding_job_failed db now i reason)

unfoldable pub run : List Command → Db → Db
run [] db = db
run (c ∷ cs) db = run cs (step c db)

step-IsConsistent : (c : Command) (db : Db) → IsConsistent db → IsConsistent (step c db)
unfolding step cancel_geocoding_job mark_geocoding_job_failed
step-IsConsistent (Command.store now fresh voter result source address) db =
    store_geocoded_location-IsConsistent db now fresh voter result source address
step-IsConsistent (Command.add now fresh voter at source set_as_primary) db =
    add_manual_location-IsConsistent db now fresh voter at source set_as_primary
step-IsConsistent (Command.set_primary voter i) db = set_primary_location-IsConsistent db voter i
step-IsConsistent (Command.set_override i at) db =
    set_official_location_override-IsConsistent db i at
step-IsConsistent (Command.clear_override i) db = clear_official_location_override-IsConsistent db i
step-IsConsistent (Command.cancel now i) db =
    end_row-IsConsistent db i (cancelled_at now) (find (open_job i) db.jobs)
      (find (job_at i) db.jobs)
step-IsConsistent (Command.mark_failed now i reason) db =
    end_row-IsConsistent db i (failed_at now reason) (find (open_job i) db.jobs)
      (find (job_at i) db.jobs)

-- If no two locations have the same id, of the locations of each voter that has any exactly one is
-- primary, and each official location that is not overridden is that of the best location, then all
-- of this holds after any sequence of requests.
pub run-IsConsistent : (cs : List Command) (db : Db) → IsConsistent db → IsConsistent (run cs db)
unfolding run
run-IsConsistent [] db c = c
run-IsConsistent (command ∷ cs) db c =
    run-IsConsistent cs (step command db) (step-IsConsistent command db c)
