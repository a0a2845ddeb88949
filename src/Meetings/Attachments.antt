-- ===== src/Meetings/Attachments.antt =====
-- services/meeting_attachment_service.py. The storage backend is a parameter: `save` gives the
-- path under which it put a file, `load` the content at a path.
use voter_api.Prelude.{
  ℕ, Bool, true, not, ◌&&◌, Option, none, some, List, [], ◌∷◌, ◌++◌, String, ◌==◌, leb, ltb, length,
  is_none, is_eq, select, find, write, sort_by, Result, ok, ◌>>=◌, ◌>>◌, guard, or_raise,
}
use voter_api.Text.{codes}
use voter_api.Meetings.Db.{
  Db, MeetingAttachment, Error, not_found, one_parent, bad_format, too_large,
}
use voter_api.Meetings.Parents.{has_one_parent, require_parents}
use voter_api.Meetings.Validators.{validate_file_content_type, validate_file_extension}

abbrev pub attachment_at : ℕ → MeetingAttachment → Bool
attachment_at i a = a.id == i && is_none a.deleted_at

-- the agenda item is preferred where both parents are given
abbrev pub is_child : Option ℕ → Option ℕ → MeetingAttachment → Bool
is_child meeting (some k) a = is_eq a.agenda_item_id k
is_child (some i) none a = is_eq a.meeting_id i
is_child none none a = true

abbrev pub newer : MeetingAttachment → MeetingAttachment → Bool
newer a b = leb b.created_at a.created_at

unfoldable pub list_attachments : Db → Option ℕ → Option ℕ → List MeetingAttachment
list_attachments db meeting item =
    sort_by newer (select (λ a. is_none a.deleted_at && is_child meeting item a) db.attachments)

unfoldable pub get_attachment : Db → ℕ → Option MeetingAttachment
get_attachment db i = find (attachment_at i) db.attachments

pub record Upload : Type 0 where
  pub file_content : List ℕ
  pub filename : String
  pub content_type : String
  pub meeting_id : Option ℕ
  pub agenda_item_id : Option ℕ

module _ (save : List ℕ → String → String) where
  unfoldable pub upload_attachment : Db → ℕ → ℕ → Upload → ℕ → Result Error (MeetingAttachment × Db)
  upload_attachment db now fresh u max_file_size_bytes = do
    guard (has_one_parent u.meeting_id u.agenda_item_id) one_parent
    guard
        (validate_file_content_type (codes u.content_type)
          && validate_file_extension (codes u.filename))
        bad_format
    guard (not (ltb max_file_size_bytes (length u.file_content))) too_large
    require_parents db u.meeting_id u.agenda_item_id
    let attachment : MeetingAttachment = record {
      id = fresh;
      meeting_id = u.meeting_id;
      agenda_item_id = u.agenda_item_id;
      original_filename = u.filename;
      stored_path = save u.file_content u.filename;
      file_size = length u.file_content;
      content_type = u.content_type;
      created_at = now;
      deleted_at = none;
    }
    ok (attachment, record db { attachments = db.attachments ++ attachment ∷ [] })

module _ (load : String → List ℕ) where
  unfoldable pub download_attachment : Db → ℕ → Result Error (List ℕ × MeetingAttachment)
  download_attachment db i = do
    a ← or_raise (get_attachment db i) not_found
    ok (load a.stored_path, a)

abbrev pub mark_attachment : ℕ → MeetingAttachment → MeetingAttachment
mark_attachment now a = record a { deleted_at = some now }

unfoldable pub delete_attachment : Db → ℕ → ℕ → Result Error (Unit {0} × Db)
delete_attachment db now i = do
  a ← or_raise (get_attachment db i) not_found
  ok (tt, record db { attachments = write (attachment_at i) (mark_attachment now) db.attachments })
