-- ===== src/Locations/Service.antt =====
-- services/geocoding_service.py: the locations of voters and the end of geocoding jobs. A handler is
-- a function from the tables to what it returns and commits, or to the exception.
use voter_api.Prelude.{
  ℕ, pos, negsuc, leb_ℤ, Bool, true, false, not, ◌&&◌, ◌||◌, ◌==◌, Option, none, some, List, [],
  ◌∷◌, ◌++◌, Result, ok, err, ◌>>=◌, ◌>>◌, guard, or_raise, find, select, exists_where, modify,
  write, ltb, if◌then◌else◌,
}
use voter_api.Text.{Text, codes, strip}
use voter_api.Locations.Db.{
  Coordinates, GeocodedLocation, Official, Voter, JobStatus, GeocodingJob, Db, Error,
  voter_not_found, out_of_bounds, integrity_error, job_not_found, job_terminal, voter_at,
  location_at, of_voter, at_source, primary_of, job_at, is_terminal,
}

-- `ORDER BY confidence_score DESC NULLS LAST, geocoded_at DESC`: whether `a` stands before `b`
abbrev pub outranks : GeocodedLocation → GeocodedLocation → Bool
outranks a b = by_score a.confidence_score b.confidence_score
  where
    by_score : Option ℕ → Option ℕ → Bool
    by_score none none = ltb b.geocoded_at a.geocoded_at
    by_score none (some t) = false
    by_score (some s) none = true
    by_score (some s) (some t) = ltb t s || s == t && ltb b.geocoded_at a.geocoded_at

-- `LIMIT 1`; of rows that tie it is the first of the table, which the database leaves open
abbrev pub best : List GeocodedLocation → Option GeocodedLocation
best [] = none
best (l ∷ ls) = elim (best ls) [ none ↦ some l | some m ↦ if outranks m l then some m else some l ]

abbrev pub official_of : Option GeocodedLocation → Option Official
official_of none = none
official_of (some l) = some (record { at = l.at; source = l.source_type })

-- the voter after a sync with the table of locations
abbrev pub synced : List GeocodedLocation → Voter → Voter
synced locations v =
    if v.official_is_override
    then v
    else record v { official = official_of (best (select (of_voter v.id) locations)) }

-- the voter of this id, if there is one
unfoldable pub sync_official_location : ℕ → Db → Db
sync_official_location i db = record db {
  voters = modify (voter_at i) (synced db.locations) db.voters;
}

abbrev pub has_voter : ℕ → Db → Bool
has_voter i db = exists_where (voter_at i) db.voters

-- what a geocoder found
pub record GeocodingResult : Type 0 where
  pub at : Coordinates
  pub confidence_score : Option ℕ

abbrev pub refreshed : ℕ → GeocodingResult → Text → GeocodedLocation → GeocodedLocation
refreshed now result address l = record l {
  at = result.at;
  confidence_score = result.confidence_score;
  input_address = some address;
  geocoded_at = now;
}

abbrev pub new_location : ℕ → ℕ → ℕ → GeocodingResult → Text → Text → GeocodedLocation
new_location now fresh voter result source address = record {
  id = fresh;
  voter_id = voter;
  at = result.at;
  confidence_score = result.confidence_score;
  source_type = source;
  is_primary = false;
  input_address = some address;
  geocoded_at = now;
}

-- `INSERT … ON CONFLICT DO UPDATE`
unfoldable pub upsert_location :
    ℕ → ℕ → ℕ → GeocodingResult → Text → Text → List GeocodedLocation → List GeocodedLocation
upsert_location now fresh voter result source address rows =
    if exists_where (at_source voter source) rows
    then write (at_source voter source) (refreshed now result address) rows
    else rows ++ new_location now fresh voter result source address ∷ []

abbrev pub primary : Bool → GeocodedLocation → GeocodedLocation
primary b l = record l { is_primary = b }

-- the location becomes primary if no other of the voter is
unfoldable pub promote : ℕ → ℕ → List GeocodedLocation → List GeocodedLocation
promote voter i rows =
    if exists_where (λ l. primary_of voter l && not (l.id == i)) rows
    then rows
    else modify (location_at i) (primary true) rows

unfoldable pub store_geocoded_location :
    Db → ℕ → ℕ → ℕ → GeocodingResult → Text → Text → Result Error (GeocodedLocation × Db)
store_geocoded_location db now fresh voter result source address = do
  guard (has_voter voter db) integrity_error
  guard (not (exists_where (location_at fresh) db.locations)) integrity_error
  let rows = upsert_location now fresh voter result source address db.locations
  l ← or_raise (find (at_source voter source) rows) integrity_error
  let rows' = promote voter l.id rows
  l' ← or_raise (find (location_at l.id) rows') integrity_error
  ok (l', sync_official_location voter (record db { locations = rows' }))

-- all others of the voter are unset
unfoldable pub set_primary : ℕ → ℕ → List GeocodedLocation → List GeocodedLocation
set_primary voter i rows =
    modify (location_at i) (primary true) (modify (of_voter voter) (primary false) rows)

abbrev pub manual_location : ℕ → ℕ → ℕ → Coordinates → Text → Bool → GeocodedLocation
manual_location now fresh voter at source primary = record {
  id = fresh;
  voter_id = voter;
  at = at;
  confidence_score = none;
  source_type = source;
  is_primary = primary;
  input_address = none;
  geocoded_at = now;
}

-- The row is flushed before the others are unset.
unfoldable pub add_rows :
    ℕ → ℕ → ℕ → Coordinates → Text → Bool → List GeocodedLocation → List GeocodedLocation
add_rows now fresh voter at source set_as_primary rows =
    let is_first = not (exists_where (of_voter voter) rows) in
    let rows' =
      rows ++ manual_location now fresh voter at source (is_first || set_as_primary) ∷ [] in
    if set_as_primary && not is_first then set_primary voter fresh rows' else rows'

unfoldable pub add_manual_location :
    Db → ℕ → ℕ → ℕ → Coordinates → Text → Bool → Result Error (Option GeocodedLocation × Db)
add_manual_location db now fresh voter at source set_as_primary = do
  guard (has_voter voter db) integrity_error
  guard (not (exists_where (location_at fresh) db.locations)) integrity_error
  guard (not (exists_where (at_source voter source) db.locations)) integrity_error
  let rows = add_rows now fresh voter at source set_as_primary db.locations
  ok (find (location_at fresh) rows, sync_official_location voter (record db { locations = rows }))

unfoldable pub set_primary_location : Db → ℕ → ℕ → Option GeocodedLocation × Db
set_primary_location db voter i =
    let rows = set_primary voter i db.locations in
    if exists_where (λ l. l.id == i && l.voter_id == voter) db.locations
    then (find (location_at i) rows, sync_official_location voter (record db { locations = rows }))
    else (none, db)

-- `validate_georgia_coordinates`, in millionths of a degree
unfoldable pub is_in_georgia : Coordinates → Bool
is_in_georgia at =
    leb_ℤ (pos 30355000) at.latitude
    && leb_ℤ at.latitude (pos 35001000)
    && leb_ℤ (negsuc 85605999) at.longitude
    && leb_ℤ at.longitude (negsuc 80839999)

abbrev pub overridden : Coordinates → Voter → Voter
overridden at v = record v {
  official = some (record { at = at; source = codes "admin" });
  official_is_override = true;
}

unfoldable pub set_official_location_override : Db → ℕ → Coordinates → Result Error (Voter × Db)
set_official_location_override db i at = do
  v ← or_raise (find (voter_at i) db.voters) voter_not_found
  guard (is_in_georgia at) out_of_bounds
  ok (overridden at v, record db { voters = modify (voter_at i) (overridden at) db.voters })

abbrev pub released : List GeocodedLocation → Voter → Voter
released locations v = synced locations (record v { official_is_override = false })

unfoldable pub clear_official_location_override : Db → ℕ → Result Error (Voter × Db)
clear_official_location_override db i = do
  v ← or_raise (find (voter_at i) db.voters) voter_not_found
  ok (
    released db.locations v,
    record db { voters = modify (voter_at i) (released db.locations) db.voters },
  )

-- the row that the atomic UPDATE may write
abbrev pub open_job : ℕ → GeocodingJob → Bool
open_job i j = j.id == i && not (is_terminal j.status)

abbrev pub end_row :
    Db
    → ℕ
    → (GeocodingJob → GeocodingJob)
    → Option GeocodingJob
    → Option GeocodingJob
    → Result Error (GeocodingJob × Db)
end_row db i f (some j) existing = ok (f j, record db { jobs = modify (open_job i) f db.jobs })
end_row db i f none none = err job_not_found
end_row db i f none (some j) = err (job_terminal j.status)

abbrev pub cancelled_at : ℕ → GeocodingJob → GeocodingJob
cancelled_at now j = record j { status = JobStatus.cancelled; completed_at = some now }

unfoldable pub cancel_geocoding_job : Db → ℕ → ℕ → Result Error (GeocodingJob × Db)
cancel_geocoding_job db now i =
    end_row db i (cancelled_at now) (find (open_job i) db.jobs) (find (job_at i) db.jobs)

abbrev pub with_reason : Option Text → Option (List Text) → Option (List Text)
with_reason none log = log
with_reason (some reason) none = some (strip reason ∷ [])
with_reason (some reason) (some log) = some (log ++ strip reason ∷ [])

abbrev pub failed_at : ℕ → Option Text → GeocodingJob → GeocodingJob
failed_at now reason j = record j {
  status = JobStatus.failed;
  completed_at = some now;
  error_log = with_reason reason j.error_log;
}

unfoldable pub mark_geocoding_job_failed :
    Db → ℕ → ℕ → Option Text → Result Error (GeocodingJob × Db)
mark_geocoding_job_failed db now i reason =
    end_row db i (failed_at now reason) (find (open_job i) db.jobs) (find (job_at i) db.jobs)

abbrev pub started_at : ℕ → GeocodingJob → GeocodingJob
started_at now j = record j { status = JobStatus.running; started_at = some now }

-- What `process_geocoding_job` commits before its loop: the job is running, whatever its status was.
unfoldable pub start_job : Db → ℕ → ℕ → Db
start_job db now i = record db { jobs = modify (job_at i) (started_at now) db.jobs }
