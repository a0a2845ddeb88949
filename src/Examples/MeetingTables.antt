-- ===== src/Examples/MeetingTables.antt =====
-- A small database of meeting records, and requests against it.
use voter_api.Prelude.{none, some, List, [], ◌∷◌, true, pos}
use voter_api.Users.{User, Role}
use voter_api.Meetings.Db.{
  Db, GoverningBody, Meeting, MeetingType, MeetingStatus, ApprovalStatus, AgendaItem,
  MeetingAttachment, MeetingVideoEmbed, Platform,
}
use voter_api.Meetings.Service.{MeetingCreate, MeetingField}
use voter_api.Meetings.Filters.{MeetingFilter}
use voter_api.Meetings.Agenda.{ItemCreate, ItemField}
use voter_api.Meetings.Embeds.{EmbedCreate}
use voter_api.Meetings.Steps.{Command}

abbrev pub boss : User
boss = record {
  id = 1;
  username = "boss";
  email = "boss@example.org";
  hashed_password = "x";
  role = Role.admin;
  is_active = true;
  last_login_at = none;
}

abbrev pub clerk : User
clerk = record {
  id = 2;
  username = "clerk";
  email = "clerk@example.org";
  hashed_password = "y";
  role = Role.contributor;
  is_active = true;
  last_login_at = none;
}

abbrev pub council : GoverningBody
council = record {
  id = 1;
  name = "City Council";
  type_id = 1;
  jurisdiction = "Macon";
  description = none;
  website_url = none;
  deleted_at = none;
}

-- a meeting that the clerk submitted
abbrev pub submitted : Meeting
submitted = record {
  id = 7;
  governing_body_id = 1;
  meeting_date = 100;
  location = some "Room 2";
  meeting_type = MeetingType.regular;
  status = MeetingStatus.scheduled;
  external_source_url = none;
  approval_status = ApprovalStatus.pending;
  submitted_by = some 2;
  approved_by = none;
  approved_at = none;
  rejection_reason = none;
  deleted_at = none;
}

-- a meeting of the admin
abbrev pub published : Meeting
published = record submitted {
  id = 8;
  meeting_date = 90;
  approval_status = ApprovalStatus.approved;
  submitted_by = some 1;
}

abbrev pub opening : AgendaItem
opening = record {
  id = 20;
  meeting_id = 7;
  title = "Opening";
  description = none;
  action_taken = none;
  disposition = none;
  display_order = 10;
  deleted_at = none;
}

abbrev pub budget : AgendaItem
budget = record opening { id = 21; title = "Budget"; display_order = 20 }

-- the figures of the budget, under its agenda item
abbrev pub figures : MeetingAttachment
figures = record {
  id = 30;
  meeting_id = none;
  agenda_item_id = some 21;
  original_filename = "figures.xlsx";
  stored_path = "a/figures.xlsx";
  file_size = 5;
  content_type = "text/csv";
  created_at = 3;
  deleted_at = none;
}

abbrev pub recording : MeetingVideoEmbed
recording = record {
  id = 40;
  meeting_id = some 7;
  agenda_item_id = none;
  video_url = "https://youtu.be/abc";
  platform = Platform.youtube;
  start_seconds = some (pos 5);
  end_seconds = none;
  created_at = 4;
  deleted_at = none;
}

abbrev pub tables : Db
tables = record {
  body_types = 1 ∷ 2 ∷ [];
  bodies = council ∷ [];
  meetings = submitted ∷ published ∷ [];
  items = opening ∷ budget ∷ [];
  attachments = figures ∷ [];
  embeds = recording ∷ [];
}

abbrev pub plan : MeetingCreate
plan = record {
  governing_body_id = 1;
  meeting_date = 120;
  location = none;
  meeting_type = MeetingType.special;
  status = MeetingStatus.scheduled;
  external_source_url = none;
}

abbrev pub motion : ItemCreate
motion = record {
  title = "Motion";
  description = none;
  action_taken = none;
  disposition = none;
  display_order = none;
}

abbrev pub everything : MeetingFilter
everything = record {
  governing_body_id = none;
  date_from = none;
  date_to = none;
  meeting_type = none;
  status = none;
}

abbrev pub clip : EmbedCreate
clip = record {
  video_url = "https://vimeo.com/1";
  start_seconds = some (pos 1);
  end_seconds = some (pos 9);
}

-- one request of every kind, some of which raise
abbrev pub requests : List Command
requests =
    Command.create_meeting 9 plan clerk
    ∷ Command.create_item 22 7 motion
    ∷ Command.update_meeting 8 (MeetingField.location none ∷ []) clerk
    ∷ Command.update_meeting 7 (MeetingField.status (some MeetingStatus.completed) ∷ []) clerk
    ∷ Command.approve_meeting 110 7 boss
    ∷ Command.reject_meeting 111 7 boss "late"
    ∷ Command.reorder_items 7 (22 ∷ 20 ∷ 21 ∷ [])
    ∷ Command.update_item 7 20 (ItemField.title (some "Start") ∷ [])
    ∷ Command.create_embed 112 41 clip none (some 21)
    ∷ Command.delete_body 113 1
    ∷ Command.delete_item 114 7 20
    ∷ Command.delete_meeting 115 8 boss
    ∷ []
