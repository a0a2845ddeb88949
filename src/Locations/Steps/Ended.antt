-- ===== src/Locations/Steps/Ended.antt =====
-- The attempts to end a geocoding job that has been ended, with the requests of Locations/Steps in
-- between: those on locations, cancel_geocoding_job and mark_geocoding_job_failed.
use voter_api.Prelude.{
  ℕ, ◌≡◌, refl, sym, ap, ◌∙◌, Bool, true, Option, none, some, List, [], ◌∷◌, arith, All, All-modify,
  All-modify-rest, All-find, IsKey, Option-cases, find, find-pass, find-exists, exists_where,
  exists_where-found, exists_where-modify, modify, Result, ok, err, committed, inl, inr,
}
use voter_api.Text.{Text}
use voter_api.Locations.Db.{
  Db, Coordinates, Error, GeocodingJob, JobStatus, is_terminal, job_at, job_terminal,
}
use voter_api.Locations.Rows.{key-All}
use voter_api.Locations.Service.{
  GeocodingResult, store_geocoded_location, add_manual_location, set_primary_location,
  set_official_location_override, clear_official_location_override, cancel_geocoding_job,
  mark_geocoding_job_failed, end_row, open_job, cancelled_at, failed_at, sync_official_location,
}
use voter_api.Locations.Steps.{Command, step, run}

-- A request to end a job: to cancel it, or to mark it failed with or without a reason.
pub data Ending : Type 0 where
  cancelling : Ending
  failing : Option Text → Ending

-- the handler that answers the request
unfoldable pub end_job : Db → ℕ → ℕ → Ending → Result Error (GeocodingJob × Db)
end_job db now i Ending.cancelling = cancel_geocoding_job db now i
end_job db now i (Ending.failing reason) = mark_geocoding_job_failed db now i reason

-- the job is there and has this status
record HasStatus (i : ℕ) (s : JobStatus) (jobs : List GeocodingJob) : Type 0 where
  rows : All (λ j. job_at i j ≡ true → j.status ≡ s) jobs
  present : exists_where (job_at i) jobs ≡ true

-- a write of an open job keeps an ended one
end_row-HasStatus :
    (i k : ℕ) (s : JobStatus) (db : Db) (f : GeocodingJob → GeocodingJob)
    (found existing : Option GeocodingJob)
    → is_terminal s ≡ true
    → ((j : GeocodingJob) → (f j).id ≡ j.id)
    → HasStatus i s db.jobs
    → HasStatus i s (committed db (end_row db k f found existing)).jobs
end_row-HasStatus i k s db f none none over same h = h
end_row-HasStatus i k s db f none (some j) over same h = h
end_row-HasStatus i k s db f (some j) existing over same h = record {
  rows =
      All-modify (λ j. job_at i j ≡ true → j.status ≡ s) (open_job k) f db.jobs
        (λ a is_open kept hit.
          let hit_before : job_at i a ≡ true = ground (arith, same a) in
          absurd (ground (arith, kept hit_before)))
        h.rows;
  present =
      exists_where-modify (job_at i) (open_job k) f db.jobs (λ a is_open. ground (arith, same a))
      ∙ h.present;
}

store-jobs :
    (db : Db) (now fresh voter : ℕ) (result : GeocodingResult) (source address : Text)
    → (committed db (store_geocoded_location db now fresh voter result source address)).jobs
      ≡ db.jobs
unfolding store_geocoded_location sync_official_location
store-jobs db now fresh voter result source address = ground arith

add-jobs :
    (db : Db) (now fresh voter : ℕ) (at : Coordinates) (source : Text) (p : Bool)
    → (committed db (add_manual_location db now fresh voter at source p)).jobs ≡ db.jobs
unfolding add_manual_location sync_official_location
add-jobs db now fresh voter at source p = ground arith

set_primary-jobs : (db : Db) (voter i : ℕ) → (set_primary_location db voter i).1.jobs ≡ db.jobs
unfolding set_primary_location sync_official_location
set_primary-jobs db voter i = ground arith

set_override-jobs :
    (db : Db) (i : ℕ) (at : Coordinates)
    → (committed db (set_official_location_override db i at)).jobs ≡ db.jobs
unfolding set_official_location_override
set_override-jobs db i at = ground arith

clear_override-jobs :
    (db : Db) (i : ℕ) → (committed db (clear_official_location_override db i)).jobs ≡ db.jobs
unfolding clear_official_location_override
clear_override-jobs db i = ground arith

HasStatus-of_same :
    (i : ℕ) (s : JobStatus) (jobs jobs' : List GeocodingJob)
    → jobs' ≡ jobs
    → HasStatus i s jobs
    → HasStatus i s jobs'
HasStatus-of_same i s jobs jobs' same h = rw same h

module _ (i : ℕ) (s : JobStatus) (over : is_terminal s ≡ true) where
  step-HasStatus : (c : Command) (db : Db) → HasStatus i s db.jobs → HasStatus i s (step c db).jobs
  unfolding step cancel_geocoding_job mark_geocoding_job_failed
  step-HasStatus (Command.cancel now k) db h =
      end_row-HasStatus i k s db (cancelled_at now) (find (open_job k) db.jobs)
        (find (job_at k) db.jobs) over (λ j. refl) h
  step-HasStatus (Command.mark_failed now k reason) db h =
      end_row-HasStatus i k s db (failed_at now reason) (find (open_job k) db.jobs)
        (find (job_at k) db.jobs) over (λ j. refl) h
  step-HasStatus (Command.store now fresh voter result source address) db h =
      HasStatus-of_same i s db.jobs _ (store-jobs db now fresh voter result source address) h
  step-HasStatus (Command.add now fresh voter at source set_as_primary) db h =
      HasStatus-of_same i s db.jobs _ (add-jobs db now fresh voter at source set_as_primary) h
  step-HasStatus (Command.set_primary voter k) db h =
      HasStatus-of_same i s db.jobs _ (set_primary-jobs db voter k) h
  step-HasStatus (Command.set_override k at) db h =
      HasStatus-of_same i s db.jobs _ (set_override-jobs db k at) h
  step-HasStatus (Command.clear_override k) db h =
      HasStatus-of_same i s db.jobs _ (clear_override-jobs db k) h

  run-HasStatus :
      (cs : List Command) (db : Db) → HasStatus i s db.jobs → HasStatus i s (run cs db).jobs
  unfolding run
  run-HasStatus [] db h = h
  run-HasStatus (c ∷ cs) db h = run-HasStatus cs (step c db) (step-HasStatus c db h)

  end_row-refused :
      (db : Db) (f : GeocodingJob → GeocodingJob)
      → HasStatus i s db.jobs
      → end_row db i f (find (open_job i) db.jobs) (find (job_at i) db.jobs) ≡ err (job_terminal s)
  end_row-refused db f h = elim (Option-cases (find (open_job i) db.jobs)) [
    | inr (a, e) ↦
        let hit = find-pass (open_job i) db.jobs e in
        let here : job_at i a ≡ true = ground arith in
        let same =
          All-find (λ j. job_at i j ≡ true → j.status ≡ s) (open_job i) db.jobs {a = a} h.rows e
            here in
        absurd (ground (arith, ap is_terminal same))
    | inl e ↦ elim (Option-cases (find (job_at i) db.jobs)) [
      | inl gone ↦ absurd (ground (arith, find-exists (job_at i) db.jobs, h.present))
      | inr (b, found) ↦
          let same =
            All-find (λ j. job_at i j ≡ true → j.status ≡ s) (job_at i) db.jobs {a = b} h.rows found
              (find-pass (job_at i) db.jobs found) in
          rw (e, found) (ap (λ t. err (job_terminal t)) same)
    ]
  ]

-- without an open job nothing is ended
pub end_row-closed :
    (db db' : Db) (i : ℕ) (f : GeocodingJob → GeocodingJob) (existing : Option GeocodingJob)
    (j : GeocodingJob)
    → end_row db i f none existing ≡ ok (j, db')
    → ⊥
end_row-closed db db' i f none j h = ground arith
end_row-closed db db' i f (some b) j h = ground arith

-- the job that is ended gets the status of what is returned
end_row-ends :
    (i : ℕ) (s : JobStatus) (db db' : Db) (f : GeocodingJob → GeocodingJob) (j : GeocodingJob)
    → ((a : GeocodingJob) → ((f a).id ≡ a.id) × ((f a).status ≡ s))
    → IsKey (job_at i) db.jobs
    → end_row db i f (find (open_job i) db.jobs) (find (job_at i) db.jobs) ≡ ok (j, db')
    → (j.status ≡ s) × HasStatus i s db'.jobs
end_row-ends i s db db' f j writes key h = elim (Option-cases (find (open_job i) db.jobs)) [
  | inl e ↦ absurd (end_row-closed db db' i f (find (job_at i) db.jobs) j (rw e at h))
  | inr (a, e) ↦
      let answered : ◌≡◌ {A = Result Error (GeocodingJob × Db)}
          (ok (f a, record db { jobs = modify (open_job i) f db.jobs })) (ok (j, db')) =
        rw e at h in
      let (is_j, is_db) : (j ≡ f a) × (db'.jobs ≡ modify (open_job i) f db.jobs) = ground arith in
      let hit = find-pass (open_job i) db.jobs e in
      let only = key-All (open_job i) (job_at i) db.jobs a key e (ground arith) in
      (
        ap (λ (b : GeocodingJob). b.status) is_j ∙ (writes a).1,
        rw is_db (record {
          rows =
              All-modify-rest (λ b. job_at i b ≡ true → b ≡ a)
                (λ b. job_at i b ≡ true → b.status ≡ s) (open_job i) f db.jobs
                (λ b is_open same here. (writes b).1)
                (λ b closed same here. absurd (ground (arith, ap (open_job i) (same here)))) only;
          present =
              exists_where-modify (job_at i) (open_job i) f db.jobs
                (λ b is_open. rw ((writes b).0) refl)
              ∙ exists_where-found (job_at i) (open_job i) db.jobs e (ground arith);
        }),
      )
]

end_job-ends :
    (db db' : Db) (now i : ℕ) (first : Ending) (j : GeocodingJob)
    → IsKey (job_at i) db.jobs
    → end_job db now i first ≡ ok (j, db')
    → (s : JobStatus) × (is_terminal s ≡ true) × (j.status ≡ s) × HasStatus i s db'.jobs
unfolding end_job cancel_geocoding_job mark_geocoding_job_failed
end_job-ends db db' now i Ending.cancelling j key h =
    let (same, ended) =
      end_row-ends i JobStatus.cancelled db db' (cancelled_at now) j (λ a. (refl, refl)) key h in
    (JobStatus.cancelled, refl, same, ended)
end_job-ends db db' now i (Ending.failing reason) j key h =
    let (same, ended) =
      end_row-ends i JobStatus.failed db db' (failed_at now reason) j (λ a. (refl, refl)) key h in
    (JobStatus.failed, refl, same, ended)

end_job-refused :
    (i : ℕ) (s : JobStatus)
    → is_terminal s ≡ true
    → (db : Db) (later : ℕ) (again : Ending) → HasStatus i s db.jobs
    → end_job db later i again ≡ err (job_terminal s)
unfolding end_job cancel_geocoding_job mark_geocoding_job_failed
end_job-refused i s over db later Ending.cancelling =
    end_row-refused i s over db (cancelled_at later)
end_job-refused i s over db later (Ending.failing reason) =
    end_row-refused i s over db (failed_at later reason)

-- A geocoding job that has been cancelled or marked failed, its id being the primary key, is not ended
-- again: after any sequence of the requests on locations and of those that cancel a job or mark it
-- failed, each further attempt to cancel it or to mark it failed, at any time, raises that the job is
-- terminal, with the status that the first attempt gave it. The loop process_geocoding_job is not
-- among the requests.
pub end_job-run :
    (cs : List Command) (db db' : Db) (now later i : ℕ) (first again : Ending) (j : GeocodingJob)
    → IsKey (job_at i) db.jobs
    → end_job db now i first ≡ ok (j, db')
    → end_job (run cs db') later i again ≡ err (job_terminal j.status)
end_job-run cs db db' now later i first again j key h =
    let (s, over, same, ended) = end_job-ends db db' now i first j key h in
    end_job-refused i s over (run cs db') later again (run-HasStatus i s over cs db' ended)
    ∙ ap (λ t. err (job_terminal t)) (sym same)
