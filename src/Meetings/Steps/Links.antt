-- ===== src/Meetings/Steps/Links.antt =====
-- The links that the soft deletes of the services are to keep: of a meeting to its governing body,
-- and of an agenda item to its meeting.
pub mod Bodies
pub mod Meetings
pub mod Items
pub mod Runs
use voter_api.Prelude.{◌≡◌, Bool, true, List, is_none, exists_where, All}
use voter_api.Meetings.Db.{Db, GoverningBody, Meeting, AgendaItem, body_at, meeting_at}

abbrev pub has_body : List GoverningBody → Meeting → Bool
has_body bodies m = exists_where (body_at m.governing_body_id) bodies

abbrev pub has_meeting : List Meeting → AgendaItem → Bool
has_meeting meetings a = exists_where (meeting_at a.meeting_id) meetings

abbrev pub UnderBody : List GoverningBody → Meeting → Type 0
UnderBody bodies m = is_none m.deleted_at ≡ true → has_body bodies m ≡ true

abbrev pub UnderMeeting : List Meeting → AgendaItem → Type 0
UnderMeeting meetings a = is_none a.deleted_at ≡ true → has_meeting meetings a ≡ true

pub record IsLinked (db : Db) : Type 0 where
  pub meetings : All (UnderBody db.bodies) db.meetings
  pub items : All (UnderMeeting db.meetings) db.items
