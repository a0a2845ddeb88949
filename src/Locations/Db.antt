-- ===== src/Locations/Db.antt =====
-- models/geocoded_location.py, the official location of models/voter.py, and geocoding_job.py. A
-- coordinate and a score are numbers of millionths; the geometry of a point is left out.
use voter_api.Prelude.{ℕ, ℤ, Bool, true, false, ◌==◌, ◌&&◌, Option, List}
use voter_api.Text.{Text, same_text}

pub record Coordinates : Type 0 where
  pub latitude : ℤ
  pub longitude : ℤ

pub record GeocodedLocation : Type 0 where
  pub id : ℕ
  pub voter_id : ℕ
  pub at : Coordinates
  pub confidence_score : Option ℕ
  pub source_type : Text
  pub is_primary : Bool
  pub input_address : Option Text
  pub geocoded_at : ℕ

-- the official location with the source that it is from
pub record Official : Type 0 where
  pub at : Coordinates
  pub source : Text

pub record Voter : Type 0 where
  pub id : ℕ
  pub official : Option Official
  pub official_is_override : Bool

pub data JobStatus : Type 0 where
  pending running completed failed cancelled : JobStatus

pub record GeocodingJob : Type 0 where
  pub id : ℕ
  pub status : JobStatus
  pub started_at : Option ℕ
  pub completed_at : Option ℕ
  pub error_log : Option (List Text)

pub record Db : Type 0 where
  pub voters : List Voter
  pub locations : List GeocodedLocation
  pub jobs : List GeocodingJob

pub data Error : Type 0 where
  voter_not_found out_of_bounds integrity_error job_not_found : Error
  job_terminal : JobStatus → Error

abbrev pub voter_at : ℕ → Voter → Bool
voter_at i v = v.id == i

abbrev pub location_at : ℕ → GeocodedLocation → Bool
location_at i l = l.id == i

abbrev pub of_voter : ℕ → GeocodedLocation → Bool
of_voter i l = l.voter_id == i

-- the key of `uq_voter_source`
abbrev pub at_source : ℕ → Text → GeocodedLocation → Bool
at_source i source l = l.voter_id == i && same_text l.source_type source

abbrev pub primary_of : ℕ → GeocodedLocation → Bool
primary_of i l = l.voter_id == i && l.is_primary

abbrev pub job_at : ℕ → GeocodingJob → Bool
job_at i j = j.id == i

-- `TERMINAL_STATUSES`
abbrev pub is_terminal : JobStatus → Bool
is_terminal JobStatus.pending = false
is_terminal JobStatus.running = false
is_terminal _ = true
