-- ===== src/Examples/LocationRuns.antt =====
-- Requests on the locations of one voter, and on two geocoding jobs.
use voter_api.Prelude.{
  ℕ, refl, none, some, List, [], ◌∷◌, true, false, pos, negsuc, arith, ◌≡◌, ok, err,
}
use voter_api.Text.{codes}
use voter_api.Locations.Db.{Coordinates, Db, GeocodingJob, JobStatus, Voter, job_terminal}
use voter_api.Locations.Service.{GeocodingResult, cancelled_at, start_job, cancel_geocoding_job}
use voter_api.Locations.Consistent.{IsConsistent}
use voter_api.Locations.Steps.{Command, run, run-IsConsistent}
use voter_api.Locations.Steps.Ended.{Ending, end_job, end_job-run}
use voter_api.Locations.Steps.Reopened.{start_job-reopens}

abbrev macon : Coordinates
macon = record { latitude = pos 32840000; longitude = negsuc 83632000 }

abbrev job : ℕ → JobStatus → GeocodingJob
job i status = record {
  id = i;
  status = status;
  started_at = none;
  completed_at = none;
  error_log = none;
}

abbrev voter : Voter
voter = record { id = 1; official = none; official_is_override = false }

abbrev unlocated : Db
unlocated = record {
  voters = voter ∷ [];
  locations = [];
  jobs = job 1 JobStatus.running ∷ job 2 JobStatus.completed ∷ [];
}

abbrev running : GeocodingJob
running = job 1 JobStatus.running

-- the tables after the first job is cancelled
abbrev ended : Db
ended = record unlocated { jobs = cancelled_at 99 running ∷ job 2 JobStatus.completed ∷ [] }

unlocated-IsConsistent : IsConsistent unlocated
unlocated-IsConsistent = record {
  ids = λ i. ground arith;
  primaries = λ i. refl;
  officials = ((λ free. refl), tt);
}

abbrev found : GeocodingResult
found = record { at = macon; confidence_score = some 900000 }

abbrev commands : List Command
commands =
    Command.store 100 10 1 found (codes "census") (codes "1 Main St")
    ∷ Command.add 101 11 1 macon (codes "manual") true
    ∷ Command.set_primary 1 10
    ∷ Command.set_override 1 macon
    ∷ Command.clear_override 1
    ∷ Command.cancel 102 1
    ∷ Command.mark_failed 103 2 (some (codes "late"))
    ∷ []

run-IsConsistent_example : IsConsistent (run commands unlocated)
run-IsConsistent_example = run-IsConsistent commands unlocated unlocated-IsConsistent

ends_running : end_job unlocated 99 1 Ending.cancelling ≡ ok (cancelled_at 99 running, ended)
unfolding end_job cancel_geocoding_job
ends_running = refl

end_job-run_example :
    end_job (run commands ended) 104 1 (Ending.failing none)
    ≡ err (job_terminal JobStatus.cancelled)
end_job-run_example =
    end_job-run commands unlocated ended 99 104 1 Ending.cancelling (Ending.failing none)
      (cancelled_at 99 running) (ground arith) ends_running

start_job-reopens_example :
    (k : GeocodingJob) × (db' : Db) × (end_job (start_job ended 105 1) 106 1 Ending.cancelling
      ≡ ok (k, db'))
start_job-reopens_example =
    start_job-reopens unlocated ended 99 105 106 1 Ending.cancelling Ending.cancelling
      (cancelled_at 99 running) ends_running
