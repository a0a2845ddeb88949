-- ===== src/Meetings/Db.antt =====
-- The tables behind the meeting records: models/governing_body.py, models/meeting.py,
-- models/agenda_item.py, models/meeting_attachment.py and models/meeting_video_embed.py.
-- A UUID and an instant are numbers. The columns created_at and updated_at are left out where no
-- service reads them.
use voter_api.Prelude.{ℕ, String, Bool, Option, List, ◌&&◌, ◌==◌, is_none, ℤ}

pub record GoverningBody : Type 0 where
  pub id : ℕ
  pub name : String
  pub type_id : ℕ
  pub jurisdiction : String
  pub description : Option String
  pub website_url : Option String
  pub deleted_at : Option ℕ

pub data MeetingType : Type 0 where
  regular special work_session emergency public_hearing : MeetingType

pub data MeetingStatus : Type 0 where
  scheduled completed cancelled postponed : MeetingStatus

pub data ApprovalStatus : Type 0 where
  pending approved rejected : ApprovalStatus

pub MeetingType-discrete : Discrete MeetingType
MeetingType-discrete = hlevel

pub MeetingStatus-discrete : Discrete MeetingStatus
MeetingStatus-discrete = hlevel

pub record Meeting : Type 0 where
  pub id : ℕ
  pub governing_body_id : ℕ
  pub meeting_date : ℕ
  pub location : Option String
  pub meeting_type : MeetingType
  pub status : MeetingStatus
  pub external_source_url : Option String
  pub approval_status : ApprovalStatus
  pub submitted_by : Option ℕ
  pub approved_by : Option ℕ
  pub approved_at : Option ℕ
  pub rejection_reason : Option String
  pub deleted_at : Option ℕ

pub data Disposition : Type 0 where
  approved denied tabled no_action informational : Disposition

pub record AgendaItem : Type 0 where
  pub id : ℕ
  pub meeting_id : ℕ
  pub title : String
  pub description : Option String
  pub action_taken : Option String
  pub disposition : Option Disposition
  pub display_order : ℕ
  pub deleted_at : Option ℕ

pub record MeetingAttachment : Type 0 where
  pub id : ℕ
  pub meeting_id : Option ℕ
  pub agenda_item_id : Option ℕ
  pub original_filename : String
  pub stored_path : String
  pub file_size : ℕ
  pub content_type : String
  pub created_at : ℕ
  pub deleted_at : Option ℕ

pub data Platform : Type 0 where
  youtube vimeo : Platform

pub record MeetingVideoEmbed : Type 0 where
  pub id : ℕ
  pub meeting_id : Option ℕ
  pub agenda_item_id : Option ℕ
  pub video_url : String
  pub platform : Platform
  pub start_seconds : Option ℤ
  pub end_seconds : Option ℤ
  pub created_at : ℕ
  pub deleted_at : Option ℕ

-- `body_types` holds the primary keys of the lookup table governing_body_types.
pub record Db : Type 0 where
  pub body_types : List ℕ
  pub bodies : List GoverningBody
  pub meetings : List Meeting
  pub items : List AgendaItem
  pub attachments : List MeetingAttachment
  pub embeds : List MeetingVideoEmbed

-- What the services of this part raise: ValueError with what its message says (`not_found` to
-- `invalid_timestamps`), PermissionError, and the database's own errors.
pub data Error : Type 0 where
  not_found body_not_found parent_not_found not_pending duplicate has_meetings : Error
  duplicate_ids missing_items one_parent bad_format too_large invalid_url invalid_timestamps : Error
  permission_denied : Error
  integrity_error out_of_range negative_offset : Error

-- `deleted_at IS NULL`, with the primary key
abbrev pub body_at : ℕ → GoverningBody → Bool
body_at i b = b.id == i && is_none b.deleted_at

abbrev pub meeting_at : ℕ → Meeting → Bool
meeting_at i m = m.id == i && is_none m.deleted_at

abbrev pub item_at : ℕ → AgendaItem → Bool
item_at i a = a.id == i && is_none a.deleted_at
