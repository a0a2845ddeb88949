-- ===== src/Meetings/Embeds.antt =====
-- services/meeting_video_embed_service.py
use voter_api.Prelude.{
  ℕ, Bool, true, ◌&&◌, Option, none, some, List, [], ◌∷◌, ◌++◌, String, ◌==◌, leb, is_none, is_eq,
  select, find, write, sort_by, ℤ, pos, negsuc, leb_ℤ, Result, ok, err, ◌>>=◌, ◌>>◌, guard,
  or_raise,
}
use voter_api.Text.{codes}
use voter_api.Meetings.Db.{
  Db, MeetingVideoEmbed, Platform, Error, not_found, one_parent, invalid_url, invalid_timestamps,
  out_of_range,
}
use voter_api.Meetings.Parents.{has_one_parent, require_parents}
use voter_api.Meetings.Agenda.{int4_max}
use voter_api.Meetings.Validators.{validate_video_url, validate_video_timestamps}

abbrev pub embed_at : ℕ → MeetingVideoEmbed → Bool
embed_at i e = e.id == i && is_none e.deleted_at

-- the agenda item is preferred where both parents are given
abbrev pub is_child : Option ℕ → Option ℕ → MeetingVideoEmbed → Bool
is_child meeting (some k) e = is_eq e.agenda_item_id k
is_child (some i) none e = is_eq e.meeting_id i
is_child none none e = true

abbrev pub newer : MeetingVideoEmbed → MeetingVideoEmbed → Bool
newer a b = leb b.created_at a.created_at

unfoldable pub list_embeds : Db → Option ℕ → Option ℕ → List MeetingVideoEmbed
list_embeds db meeting item =
    sort_by newer (select (λ e. is_none e.deleted_at && is_child meeting item e) db.embeds)

unfoldable pub get_embed : Db → ℕ → Option MeetingVideoEmbed
get_embed db i = find (embed_at i) db.embeds

-- the columns of seconds are INTEGERs of 32 bits
abbrev pub fits_int4 : Option ℤ → Bool
fits_int4 none = true
fits_int4 (some n) = leb_ℤ n (pos int4_max) && leb_ℤ (negsuc int4_max) n

-- the platform of a url that is valid
unfoldable pub require_platform : String → Result Error Platform
require_platform url = or_raise (validate_video_url (codes url)).1 invalid_url

pub record EmbedCreate : Type 0 where
  pub video_url : String
  pub start_seconds : Option ℤ
  pub end_seconds : Option ℤ

unfoldable pub create_embed :
    Db → ℕ → ℕ → EmbedCreate → Option ℕ → Option ℕ → Result Error (MeetingVideoEmbed × Db)
create_embed db now fresh values meeting item = do
  platform ← require_platform values.video_url
  guard (validate_video_timestamps values.start_seconds values.end_seconds) invalid_timestamps
  guard (has_one_parent meeting item) one_parent
  require_parents db meeting item
  guard (fits_int4 values.start_seconds && fits_int4 values.end_seconds) out_of_range
  let embed : MeetingVideoEmbed = record {
    id = fresh;
    meeting_id = meeting;
    agenda_item_id = item;
    video_url = values.video_url;
    platform = platform;
    start_seconds = values.start_seconds;
    end_seconds = values.end_seconds;
    created_at = now;
    deleted_at = none;
  }
  ok (embed, record db { embeds = db.embeds ++ embed ∷ [] })

-- The dict of new values: `none` where the key is not there, `some none` where its value is None.
-- Keys outside of `_UPDATABLE_FIELDS` are never read and are left out.
pub record EmbedUpdate : Type 0 where
  pub video_url : Option (Option String)
  pub start_seconds : Option (Option ℤ)
  pub end_seconds : Option (Option ℤ)

-- `data.get(key, old)`
abbrev pub get_or_old {ℓ} : {A : Type ℓ} → Option A → A → A
get_or_old none old = old
get_or_old (some v) old = v

-- `if "video_url" in data`: the url is checked again, and the platform follows it
abbrev pub with_url : Option (Option String) → MeetingVideoEmbed → Result Error MeetingVideoEmbed
with_url none e = ok e
with_url (some none) e = err invalid_url
with_url (some (some url)) e = do
  p ← require_platform url
  ok (record e { video_url = url; platform = p })

unfoldable pub update_embed : Db → ℕ → EmbedUpdate → Result Error (MeetingVideoEmbed × Db)
update_embed db i values = do
  e ← or_raise (get_embed db i) not_found
  e' ← with_url values.video_url e
  let start = get_or_old values.start_seconds e.start_seconds
  let stop = get_or_old values.end_seconds e.end_seconds
  guard (validate_video_timestamps start stop) invalid_timestamps
  guard (fits_int4 start && fits_int4 stop) out_of_range
  let embed = record e' { start_seconds = start; end_seconds = stop }
  ok (embed, record db { embeds = write (embed_at i) (λ _. embed) db.embeds })

abbrev pub mark_embed : ℕ → MeetingVideoEmbed → MeetingVideoEmbed
mark_embed now e = record e { deleted_at = some now }

unfoldable pub delete_embed : Db → ℕ → ℕ → Result Error (Unit {0} × Db)
delete_embed db now i = do
  e ← or_raise (get_embed db i) not_found
  ok (tt, record db { embeds = write (embed_at i) (mark_embed now) db.embeds })
