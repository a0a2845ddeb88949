-- ===== src/Meetings/Service.antt =====
-- services/meeting_service.py. A handler reads the database and returns what it commits, or the
-- exception that it raises; `now` is the clock and `fresh` the UUID that the new row draws.
pub mod Runs
pub mod Evolution
pub mod Visibility
pub mod Rights
use voter_api.Prelude.{
  ℕ, String, Bool, true, false, not, ◌&&◌, ◌||◌, is_true, Option, none, some, List, [], ◌∷◌, ◌++◌,
  ◌-◌, ◌*◌, ◌==◌, ltb, is_none, is_some, is_eq, if◌then◌else◌, select, find, modify, write,
  count_where, take, drop, Result, ok, err, ◌>>=◌, ◌>>◌, guard, or_raise,
}
use voter_api.Users.{User, is_admin}
use voter_api.Meetings.Db.{
  Db, Meeting, MeetingType, MeetingType-discrete, MeetingStatus-discrete, MeetingStatus,
  ApprovalStatus, GoverningBody, AgendaItem, MeetingAttachment, MeetingVideoEmbed, Error, body_at,
  meeting_at, not_found, body_not_found, not_pending, permission_denied, integrity_error,
  negative_offset,
}
use voter_api.Meetings.Filters.{
  is_approved, is_pending, same_type, same_status, is_restricted, is_visible_to, unless_given,
  MeetingFilter, passes,
}

-- The `where` clauses of `list_meetings`, shared by the page and by the count.
unfoldable pub is_listed : Option User → MeetingFilter → Meeting → Bool
is_listed user f m =
    is_none m.deleted_at && (not (is_restricted user) || is_visible_to user m) && passes f m

-- `order_by(Meeting.meeting_date.desc())`: an order of the rows that the database picks, since rows of
-- one date are left in any order. `offset = (page - 1) * page_size`, and the database refuses an
-- offset below 0.
module _ (order : List Meeting → List Meeting) where
  unfoldable pub list_meetings :
      Db → MeetingFilter → ℕ → ℕ → Option User → Result Error (List Meeting × ℕ)
  list_meetings db f page page_size user =
      let total = count_where (is_listed user f) db.meetings in
      let rows = order (select (is_listed user f) db.meetings) in
      if page == 0 && ltb 0 page_size
      then err negative_offset
      else ok (take page_size (drop ((page - 1) * page_size) rows), total)

-- the check that a row passes after it is read
abbrev pub show_to : Option User → Meeting → Option Meeting
show_to user m = if is_restricted user && not (is_visible_to user m) then none else some m

unfoldable pub get_meeting : Db → ℕ → Option User → Option Meeting
get_meeting db i user = elim (find (meeting_at i) db.meetings) [
  | none ↦ none
  | some m ↦ show_to user m
]

-- the active children of a meeting
abbrev pub item_of : ℕ → AgendaItem → Bool
item_of i a = a.meeting_id == i && is_none a.deleted_at

abbrev pub attachment_of : ℕ → MeetingAttachment → Bool
attachment_of i a = is_eq a.meeting_id i && is_none a.deleted_at

abbrev pub embed_of : ℕ → MeetingVideoEmbed → Bool
embed_of i e = is_eq e.meeting_id i && is_none e.deleted_at

unfoldable pub get_child_counts : Db → ℕ → ℕ × ℕ × ℕ
get_child_counts db i = (
  count_where (item_of i) db.items,
  count_where (attachment_of i) db.attachments,
  count_where (embed_of i) db.embeds,
)

pub record MeetingCreate : Type 0 where
  pub governing_body_id : ℕ
  pub meeting_date : ℕ
  pub location : Option String
  pub meeting_type : MeetingType
  pub status : MeetingStatus
  pub external_source_url : Option String

abbrev pub new_meeting : ℕ → MeetingCreate → User → Meeting
new_meeting fresh values user = record {
  id = fresh;
  governing_body_id = values.governing_body_id;
  meeting_date = values.meeting_date;
  location = values.location;
  meeting_type = values.meeting_type;
  status = values.status;
  external_source_url = values.external_source_url;
  approval_status = if is_admin user.role then ApprovalStatus.approved else ApprovalStatus.pending;
  submitted_by = some user.id;
  approved_by = none;
  approved_at = none;
  rejection_reason = none;
  deleted_at = none;
}

unfoldable pub create_meeting : Db → ℕ → MeetingCreate → User → Result Error (Meeting × Db)
create_meeting db fresh values user = do
  guard (is_some (find (body_at values.governing_body_id) db.bodies)) body_not_found
  let meeting = new_meeting fresh values user
  ok (meeting, record db { meetings = db.meetings ++ meeting ∷ [] })

-- An entry of the dict of new values: any column, at a value that may be None.
pub data MeetingField : Type 0 where
  meeting_date : Option ℕ → MeetingField
  location : Option String → MeetingField
  meeting_type : Option MeetingType → MeetingField
  status : Option MeetingStatus → MeetingField
  external_source_url : Option String → MeetingField
  governing_body_id : Option ℕ → MeetingField
  approval_status : Option ApprovalStatus → MeetingField
  submitted_by : Option ℕ → MeetingField
  approved_by : Option ℕ → MeetingField
  approved_at : Option ℕ → MeetingField
  rejection_reason : Option String → MeetingField
  deleted_at : Option ℕ → MeetingField

-- `_UPDATABLE_FIELDS`
abbrev pub is_updatable : MeetingField → Bool
is_updatable (meeting_date v) = true
is_updatable (location v) = true
is_updatable (meeting_type v) = true
is_updatable (status v) = true
is_updatable (external_source_url v) = true
is_updatable _ = false

-- `setattr`; None in a NOT NULL column is refused by the database at the commit
abbrev pub setattr : MeetingField → Meeting → Result Error Meeting
setattr (meeting_date v) m = do d ← or_raise v integrity_error; ok (record m { meeting_date = d })
setattr (location v) m = ok (record m { location = v })
setattr (meeting_type v) m = do t ← or_raise v integrity_error; ok (record m { meeting_type = t })
setattr (status v) m = do s ← or_raise v integrity_error; ok (record m { status = s })
setattr (external_source_url v) m = ok (record m { external_source_url = v })
setattr (governing_body_id v) m = do
  i ← or_raise v integrity_error
  ok (record m { governing_body_id = i })
setattr (approval_status v) m = do
  s ← or_raise v integrity_error
  ok (record m { approval_status = s })
setattr (submitted_by v) m = ok (record m { submitted_by = v })
setattr (approved_by v) m = ok (record m { approved_by = v })
setattr (approved_at v) m = ok (record m { approved_at = v })
setattr (rejection_reason v) m = ok (record m { rejection_reason = v })
setattr (deleted_at v) m = ok (record m { deleted_at = v })

-- the body of the loop over `data.items()`
unfoldable pub write_field : MeetingField → Meeting → Result Error Meeting
write_field f m = if is_updatable f then setattr f m else ok m

unfoldable pub apply_updates : List MeetingField → Meeting → Result Error Meeting
apply_updates [] m = ok m
apply_updates (f ∷ fs) m = do m' ← write_field f m; apply_updates fs m'

-- `current_user.role != "admin" and meeting.submitted_by != current_user.id`
abbrev pub may_edit : User → Meeting → Bool
may_edit user m = is_admin user.role || is_eq m.submitted_by user.id

abbrev pub replace_meeting : ℕ → (Meeting → Meeting) → Db → Db
replace_meeting i f db = record db { meetings = write (meeting_at i) f db.meetings }

unfoldable pub update_meeting : Db → ℕ → List MeetingField → User → Result Error (Meeting × Db)
update_meeting db i fields user = do
  m ← or_raise (get_meeting db i (some user)) not_found
  guard (may_edit user m) permission_denied
  m' ← apply_updates fields m
  ok (m', replace_meeting i (λ _. m') db)

-- `meeting.deleted_at = now`, and the same for each active child of the meeting
abbrev pub mark_deleted : ℕ → Meeting → Meeting
mark_deleted now m = record m { deleted_at = some now }

abbrev pub mark_item : ℕ → AgendaItem → AgendaItem
mark_item now a = record a { deleted_at = some now }

abbrev pub mark_attachment : ℕ → MeetingAttachment → MeetingAttachment
mark_attachment now a = record a { deleted_at = some now }

abbrev pub mark_embed : ℕ → MeetingVideoEmbed → MeetingVideoEmbed
mark_embed now e = record e { deleted_at = some now }

abbrev pub cascade_delete : ℕ → ℕ → Db → Db
cascade_delete now i db = record db {
  meetings = write (meeting_at i) (mark_deleted now) db.meetings;
  items = modify (item_of i) (mark_item now) db.items;
  attachments = modify (attachment_of i) (mark_attachment now) db.attachments;
  embeds = modify (embed_of i) (mark_embed now) db.embeds;
}

unfoldable pub delete_meeting : Db → ℕ → ℕ → User → Result Error (Unit {0} × Db)
delete_meeting db now i user = do
  m ← or_raise (find (meeting_at i) db.meetings) not_found
  guard (may_edit user m) permission_denied
  ok (tt, cascade_delete now i db)

abbrev pub approve : ℕ → User → Meeting → Meeting
approve now admin m = record m {
  approval_status = ApprovalStatus.approved;
  approved_by = some admin.id;
  approved_at = some now;
  rejection_reason = none;
}

unfoldable pub approve_meeting : Db → ℕ → ℕ → User → Result Error (Meeting × Db)
approve_meeting db now i admin = do
  m ← or_raise (find (meeting_at i) db.meetings) not_found
  guard (is_pending m.approval_status) not_pending
  ok (approve now admin m, replace_meeting i (approve now admin) db)

abbrev pub reject : ℕ → User → String → Meeting → Meeting
reject now admin reason m = record m {
  approval_status = ApprovalStatus.rejected;
  approved_by = some admin.id;
  approved_at = some now;
  rejection_reason = some reason;
}

unfoldable pub reject_meeting : Db → ℕ → ℕ → User → String → Result Error (Meeting × Db)
reject_meeting db now i admin reason = do
  m ← or_raise (find (meeting_at i) db.meetings) not_found
  guard (is_pending m.approval_status) not_pending
  ok (reject now admin reason m, replace_meeting i (reject now admin reason) db)
