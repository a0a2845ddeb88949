-- ===== src/Officials/Db.antt =====
-- models/elected_official.py and the record that the providers of lib/officials/base.py return.
-- The columns that officials, sources and records have alike, but for the seat and the full name,
-- are one record here. A date is a number, a JSON object a text.
use voter_api.Prelude.{ℕ, String, Bool, Option, List, ◌==◌, ◌&&◌}
use text.Mathlib.Text.{◌==◌ as str_eq}

pub data OfficialStatus : Type 0 where
  auto approved manual : OfficialStatus

pub record Details : Type 0 where
  pub first_name : Option String
  pub last_name : Option String
  pub party : Option String
  pub title : Option String
  pub photo_url : Option String
  pub term_start_date : Option ℕ
  pub term_end_date : Option ℕ
  pub website : Option String
  pub email : Option String
  pub phone : Option String
  pub office_address : Option String

pub record ElectedOfficial : Type 0 where
  pub id : ℕ
  pub boundary_type : String
  pub district_identifier : String
  pub full_name : String
  pub details : Details
  pub last_election_date : Option ℕ
  pub next_election_date : Option ℕ
  pub external_ids : Option String
  pub status : OfficialStatus
  pub approved_by_id : Option ℕ
  pub approved_at : Option ℕ

pub record ElectedOfficialSource : Type 0 where
  pub id : ℕ
  pub elected_official_id : Option ℕ
  pub source_name : String
  pub source_record_id : String
  pub boundary_type : String
  pub district_identifier : String
  pub raw_data : Option String
  pub full_name : String
  pub details : Details
  pub fetched_at : ℕ
  pub is_current : Bool

pub record OfficialRecord : Type 0 where
  pub source_name : String
  pub source_record_id : String
  pub boundary_type : String
  pub district_identifier : String
  pub full_name : String
  pub details : Details
  pub raw_data : Option String

pub record Db : Type 0 where
  pub officials : List ElectedOfficial
  pub sources : List ElectedOfficialSource

-- What the service raises: ValueError with what its message says, and the errors of SQLAlchemy.
pub data Error : Type 0 where
  already_exists source_not_found not_of_official : Error
  multiple_results integrity_error : Error

abbrev pub official_at : ℕ → ElectedOfficial → Bool
official_at i o = o.id == i

abbrev pub source_at : ℕ → ElectedOfficialSource → Bool
source_at i s = s.id == i

-- the key of `uq_source_record`
abbrev pub has_key : String → String → ElectedOfficialSource → Bool
has_key source_name record_id s =
    str_eq s.source_name source_name && str_eq s.source_record_id record_id

-- the key of `uq_official_district_name`
abbrev pub has_seat : String → String → String → ElectedOfficial → Bool
has_seat boundary_type district full_name o =
    str_eq o.boundary_type boundary_type
    && str_eq o.district_identifier district
    && str_eq o.full_name full_name
