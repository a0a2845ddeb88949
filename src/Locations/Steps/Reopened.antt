-- ===== src/Locations/Steps/Reopened.antt =====
-- A geocoding job that is ended and then started: process_geocoding_job does not look at its status.
use voter_api.Prelude.{
  ℕ, ◌≡◌, refl, ◌∙◌, true, List, [], ◌∷◌, arith, Option, Option-cases, find, find-pass, find-exists,
  exists_where, exists_where-found, exists_where-modify, modify, Result, ok, inl, inr,
}
use voter_api.Locations.Db.{Db, Error, GeocodingJob, job_at}
use voter_api.Locations.Service.{
  cancel_geocoding_job, mark_geocoding_job_failed, end_row, open_job, cancelled_at, failed_at,
  started_at, start_job,
}
use voter_api.Locations.Steps.Ended.{Ending, end_job, end_row-closed}

-- a job that is started is open
exists_where-started :
    (i now : ℕ) (jobs : List GeocodingJob)
    → exists_where (job_at i) jobs ≡ true
    → exists_where (open_job i) (modify (job_at i) (started_at now) jobs) ≡ true
exists_where-started i now [] h = ground arith
exists_where-started i now (j ∷ jobs) h = ground (arith, exists_where-started i now jobs)

end_row-present :
    (db db' : Db) (i : ℕ) (f : GeocodingJob → GeocodingJob) (j : GeocodingJob)
    → ((a : GeocodingJob) → (f a).id ≡ a.id)
    → end_row db i f (find (open_job i) db.jobs) (find (job_at i) db.jobs) ≡ ok (j, db')
    → exists_where (job_at i) db'.jobs ≡ true
end_row-present db db' i f j same h = elim (Option-cases (find (open_job i) db.jobs)) [
  | inl e ↦ absurd (end_row-closed db db' i f (find (job_at i) db.jobs) j (rw e at h))
  | inr (a, e) ↦
      let answered : ◌≡◌ {A = Result Error (GeocodingJob × Db)}
          (ok (f a, record db { jobs = modify (open_job i) f db.jobs })) (ok (j, db')) =
        rw e at h in
      let is_db : db'.jobs ≡ modify (open_job i) f db.jobs = ground arith in
      let hit = find-pass (open_job i) db.jobs e in
      rw is_db (
        exists_where-modify (job_at i) (open_job i) f db.jobs (λ b is_open. rw (same b) refl)
        ∙ exists_where-found (job_at i) (open_job i) db.jobs e (ground arith))
]

end_row-succeeds :
    (db : Db) (i : ℕ) (f : GeocodingJob → GeocodingJob) (existing : Option GeocodingJob)
    → exists_where (open_job i) db.jobs ≡ true
    → (k : GeocodingJob) × (db' : Db) × (end_row db i f (find (open_job i) db.jobs) existing
        ≡ ok (k, db'))
end_row-succeeds db i f existing h = elim (Option-cases (find (open_job i) db.jobs)) [
  | inl e ↦ absurd (ground (arith, find-exists (open_job i) db.jobs))
  | inr (a, e) ↦ (f a, record db { jobs = modify (open_job i) f db.jobs }, rw e refl)
]

end_job-present :
    (db db' : Db) (now i : ℕ) (first : Ending) (j : GeocodingJob)
    → end_job db now i first ≡ ok (j, db')
    → exists_where (job_at i) db'.jobs ≡ true
unfolding end_job cancel_geocoding_job mark_geocoding_job_failed
end_job-present db db' now i Ending.cancelling j h =
    end_row-present db db' i (cancelled_at now) j (λ a. refl) h
end_job-present db db' now i (Ending.failing reason) j h =
    end_row-present db db' i (failed_at now reason) j (λ a. refl) h

end_job-succeeds :
    (db : Db) (now i : ℕ) (again : Ending)
    → exists_where (open_job i) db.jobs ≡ true
    → (k : GeocodingJob) × (db' : Db) × (end_job db now i again ≡ ok (k, db'))
unfolding end_job cancel_geocoding_job mark_geocoding_job_failed
end_job-succeeds db now i Ending.cancelling h =
    end_row-succeeds db i (cancelled_at now) (find (job_at i) db.jobs) h
end_job-succeeds db now i (Ending.failing reason) h =
    end_row-succeeds db i (failed_at now reason) (find (job_at i) db.jobs) h

-- A geocoding job that has been cancelled or marked failed is reopened when process_geocoding_job
-- starts it: a further attempt to cancel it or to mark it failed succeeds.
pub start_job-reopens :
    (db db' : Db) (now started later i : ℕ) (first again : Ending) (j : GeocodingJob)
    → end_job db now i first ≡ ok (j, db')
    → (k : GeocodingJob) × (db'' : Db) × (end_job (start_job db' started i) later i again
        ≡ ok (k, db''))
unfolding start_job
start_job-reopens db db' now started later i first again j h =
    end_job-succeeds (start_job db' started i) later i again
      (exists_where-started i started db'.jobs (end_job-present db db' now i first j h))
