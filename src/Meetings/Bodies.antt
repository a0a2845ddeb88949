-- ===== src/Meetings/Bodies.antt =====
-- services/governing_body_service.py
pub mod Runs
use voter_api.Prelude.{
  ℕ, String, Bool, true, false, not, ◌&&◌, Option, none, some, List, [], ◌∷◌, ◌++◌, ◌==◌, ltb,
  contains, is_none, if◌then◌else◌, find, modify, write, count_where, exists_where, Result, ok, err,
  ◌>>=◌, ◌>>◌, guard, or_raise,
}
use text.Mathlib.Text.{◌==◌ as str_eq}
use voter_api.Meetings.Db.{
  Db, GoverningBody, Error, body_at, not_found, duplicate, has_meetings, integrity_error,
}

unfoldable pub get_body : Db → ℕ → Option GoverningBody
get_body db i = find (body_at i) db.bodies

unfoldable pub get_meeting_count : Db → ℕ → ℕ
get_meeting_count db i =
    count_where (λ m. m.governing_body_id == i && is_none m.deleted_at) db.meetings

-- The partial unique index over (name, jurisdiction), as it is met by a row with this key.
abbrev pub clashes : GoverningBody → GoverningBody → Bool
clashes b c =
    str_eq c.name b.name
    && str_eq c.jurisdiction b.jurisdiction
    && is_none c.deleted_at
    && not (c.id == b.id)

-- `session.commit()` of a written row, with the exception that the service makes of an
-- IntegrityError: the unique index or the foreign key of the type
abbrev pub commit_body : Db → GoverningBody → List GoverningBody → Result Error (GoverningBody × Db)
commit_body db b rows = do
  guard (contains b.type_id db.body_types) duplicate
  guard (not (exists_where (clashes b) db.bodies)) duplicate
  ok (b, record db { bodies = rows })

abbrev pub new_body : ℕ → String → ℕ → String → Option String → Option String → GoverningBody
new_body fresh name type_id jurisdiction description website_url = record {
  id = fresh;
  name = name;
  type_id = type_id;
  jurisdiction = jurisdiction;
  description = description;
  website_url = website_url;
  deleted_at = none;
}

unfoldable pub create_body :
    Db → ℕ → String → ℕ → String → Option String → Option String → Result Error (GoverningBody × Db)
create_body db fresh name type_id jurisdiction description website_url =
    let b = new_body fresh name type_id jurisdiction description website_url in
    commit_body db b (db.bodies ++ b ∷ [])

pub data BodyField : Type 0 where
  name : Option String → BodyField
  type_id : Option ℕ → BodyField
  jurisdiction : Option String → BodyField
  description : Option String → BodyField
  website_url : Option String → BodyField
  deleted_at : Option ℕ → BodyField

-- `_UPDATABLE_FIELDS`
abbrev pub is_updatable : BodyField → Bool
is_updatable (deleted_at v) = false
is_updatable _ = true

-- None in a NOT NULL column is an IntegrityError of the commit, which the service catches.
abbrev pub setattr : BodyField → GoverningBody → Result Error GoverningBody
setattr (name v) b = do n ← or_raise v duplicate; ok (record b { name = n })
setattr (type_id v) b = do t ← or_raise v duplicate; ok (record b { type_id = t })
setattr (jurisdiction v) b = do j ← or_raise v duplicate; ok (record b { jurisdiction = j })
setattr (description v) b = ok (record b { description = v })
setattr (website_url v) b = ok (record b { website_url = v })
setattr (deleted_at v) b = ok (record b { deleted_at = v })

-- the body of the loop over `data.items()`
unfoldable pub write_field : BodyField → GoverningBody → Result Error GoverningBody
write_field f b = if is_updatable f then setattr f b else ok b

unfoldable pub apply_updates : List BodyField → GoverningBody → Result Error GoverningBody
apply_updates [] b = ok b
apply_updates (f ∷ fs) b = do b' ← write_field f b; apply_updates fs b'

unfoldable pub update_body : Db → ℕ → List BodyField → Result Error (GoverningBody × Db)
update_body db i fields = do
  b ← or_raise (get_body db i) not_found
  b' ← apply_updates fields b
  commit_body db b' (write (body_at i) (λ _. b') db.bodies)

abbrev pub mark_deleted : ℕ → GoverningBody → GoverningBody
mark_deleted now b = record b { deleted_at = some now }

unfoldable pub delete_body : Db → ℕ → ℕ → Result Error (Unit {0} × Db)
delete_body db now i = do
  b ← or_raise (get_body db i) not_found
  guard (not (ltb 0 (get_meeting_count db i))) has_meetings
  ok (tt, record db { bodies = write (body_at i) (mark_deleted now) db.bodies })
