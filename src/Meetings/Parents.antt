-- ===== src/Meetings/Parents.antt =====
-- The checks on the parent of an attachment or an embed, which
-- services/meeting_attachment_service.py and services/meeting_video_embed_service.py share word for
-- word: exactly one parent is given, and it exists.
use voter_api.Prelude.{ℕ, Bool, true, false, Option, none, some, is_some, find, Result, ◌>>◌, guard}
use voter_api.Meetings.Db.{Db, Error, meeting_at, item_at, parent_not_found}

-- `not ((meeting_id is None) == (agenda_item_id is None))`
abbrev pub has_one_parent : Option ℕ → Option ℕ → Bool
has_one_parent none none = false
has_one_parent none (some k) = true
has_one_parent (some i) none = true
has_one_parent (some i) (some k) = false

-- `_require_meeting` and `_require_agenda_item`, each where its parent is given
abbrev pub meeting_is_there : Db → Option ℕ → Bool
meeting_is_there db none = true
meeting_is_there db (some i) = is_some (find (meeting_at i) db.meetings)

abbrev pub item_is_there : Db → Option ℕ → Bool
item_is_there db none = true
item_is_there db (some k) = is_some (find (item_at k) db.items)

unfoldable pub require_parents : Db → Option ℕ → Option ℕ → Result Error (Unit {0})
require_parents db meeting item = do
  guard (meeting_is_there db meeting) parent_not_found
  guard (item_is_there db item) parent_not_found
