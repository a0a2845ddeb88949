-- ===== src/Meetings/Steps/Videos.antt =====
-- The stored video embeds and the validators of lib/meetings/validators.py.
use voter_api.Prelude.{
  ℕ, String, ◌≡◌, refl, Bool, true, Option, none, some, List, [], ◌∷◌, ◌++◌, arith, find, All,
  All-append, All-write, All-modify, committed, if_committed, ok, ◌&&◌, >>=-eq-ok, write, modify,
  is_none, is_eq,
}
use voter_api.Text.{codes}
use voter_api.Users.{User}
use voter_api.Meetings.Db.{Db, MeetingVideoEmbed, Platform}
use voter_api.Meetings.Service.{delete_meeting, embed_of}
use voter_api.Meetings.Service.Runs.{delete_meeting-ok}
use voter_api.Meetings.Agenda.{OrderUpdate, delete_item}
use voter_api.Meetings.Agenda.Runs.{delete_item-ok}
use voter_api.Meetings.Steps.{Command, step, run, run_induction}
use voter_api.Meetings.Steps.Frames.{embeds-step}
use voter_api.Meetings.Parents.{has_one_parent}
use voter_api.Meetings.Validators.{
  detect_video_platform, validate_video_url, validate_video_timestamps,
}
use voter_api.Meetings.Embeds.{
  EmbedCreate, EmbedUpdate, create_embed, update_embed, delete_embed, require_platform, embed_at,
  get_embed, with_url, mark_embed,
}

-- The platform is the one of the url, the seconds are in order, and there is one parent.
pub record IsEmbed (e : MeetingVideoEmbed) : Type 0 where
  pub platform : detect_video_platform (codes e.video_url) ≡ some e.platform
  pub seconds : validate_video_timestamps e.start_seconds e.end_seconds ≡ true
  pub parent : has_one_parent e.meeting_id e.agenda_item_id ≡ true

abbrev pub HasEmbeds : Db → Type 0
HasEmbeds db = All IsEmbed db.embeds

require_platform-ok :
    (url : String) (p : Platform)
    → require_platform url ≡ ok p
    → detect_video_platform (codes url) ≡ some p
unfolding require_platform validate_video_url
require_platform-ok url p h = ground arith

create_embed-ok :
    (db : Db) (now fresh : ℕ) (values : EmbedCreate) (meeting item : Option ℕ)
    (e : MeetingVideoEmbed) (db' : Db)
    → create_embed db now fresh values meeting item ≡ ok (e, db')
    → IsEmbed e × (db' ≡ record db { embeds = db.embeds ++ e ∷ [] })
unfolding create_embed
create_embed-ok db now fresh values meeting item e db' h =
    let (p, valid, rest) = >>=-eq-ok (require_platform values.video_url) _ h in
    let stored = require_platform-ok values.video_url p valid in ground arith

update_embed-ok :
    (db : Db) (i : ℕ) (values : EmbedUpdate) (e' : MeetingVideoEmbed) (db' : Db)
    → update_embed db i values ≡ ok (e', db')
    → (e d : MeetingVideoEmbed) × (find (embed_at i) db.embeds ≡ some e)
      × (with_url values.video_url e ≡ ok d)
      × (validate_video_timestamps e'.start_seconds e'.end_seconds ≡ true)
      × (e' ≡ record d { start_seconds = e'.start_seconds; end_seconds = e'.end_seconds })
      × (db' ≡ record db { embeds = write (embed_at i) (λ _. e') db.embeds })
unfolding update_embed get_embed
update_embed-ok db i values e' db' h = ground arith

-- a change of the url changes the platform with it, and nothing else
with_url-ok :
    (v : Option (Option String)) (e d : MeetingVideoEmbed)
    → with_url v e ≡ ok d
    → IsEmbed e
    → (detect_video_platform (codes d.video_url) ≡ some d.platform)
      × (d.meeting_id ≡ e.meeting_id)
      × (d.agenda_item_id ≡ e.agenda_item_id)
with_url-ok none e d h k = let same : e ≡ d = cc in rw (← same) (k.platform, refl, refl)
with_url-ok (some none) e d h k = cc
with_url-ok (some (some url)) e d h k =
    let (p, valid, rest) = >>=-eq-ok (require_platform url) _ h in
    let stored = require_platform-ok url p valid in ground arith

update_embed-HasEmbeds :
    (db : Db) (i : ℕ) (values : EmbedUpdate)
    → HasEmbeds db
    → HasEmbeds (committed db (update_embed db i values))
update_embed-HasEmbeds db i values h =
    if_committed HasEmbeds db (update_embed db i values) h λ e' db' run.
      let (e, d, found, urled, seconds, parts, same) = update_embed-ok db i values e' db' run in
      rw same (
        All-write IsEmbed (embed_at i) (λ _. e') db.embeds
          (λ a at_key good.
            let is_a : a ≡ e = ground arith in
            let (platform, m, k) = with_url-ok values.video_url e d urled (rw (← is_a) good) in
            let parent : has_one_parent d.meeting_id d.agenda_item_id ≡ true =
              rw (m, k, ← is_a) good.parent in
            rw parts record { platform = platform; seconds = seconds; parent = parent })
          h)

delete_embed-HasEmbeds :
    (db : Db) (now i : ℕ) → HasEmbeds db → HasEmbeds (committed db (delete_embed db now i))
unfolding delete_embed
delete_embed-HasEmbeds db now i h = if_committed HasEmbeds db (delete_embed db now i) h λ u db' run.
    let same : db' ≡ record db { embeds = write (embed_at i) (mark_embed now) db.embeds } =
      ground arith in
    rw same (
      All-write IsEmbed (embed_at i) (mark_embed now) db.embeds
        (λ a found good. record {
          platform = good.platform;
          seconds = good.seconds;
          parent = good.parent;
        })
        h)

create_embed-HasEmbeds :
    (db : Db) (now fresh : ℕ) (values : EmbedCreate) (meeting item : Option ℕ)
    → HasEmbeds db
    → HasEmbeds (committed db (create_embed db now fresh values meeting item))
create_embed-HasEmbeds db now fresh values meeting item h =
    if_committed HasEmbeds db (create_embed db now fresh values meeting item) h λ e db' run.
      let (is_embed, same) = create_embed-ok db now fresh values meeting item e db' run in
      rw same (All-append IsEmbed db.embeds (e ∷ []) h (is_embed, tt))

-- to delete more embeds keeps what is known of their urls
deleted-HasEmbeds :
    (now : ℕ) (q : MeetingVideoEmbed → Bool) (embeds : List MeetingVideoEmbed)
    → All IsEmbed embeds
    → All IsEmbed (modify q (mark_embed now) embeds)
deleted-HasEmbeds now q embeds h =
    All-modify IsEmbed q (mark_embed now) embeds
      (λ a found good. record {
        platform = good.platform;
        seconds = good.seconds;
        parent = good.parent;
      })
      h

delete_item-HasEmbeds :
    (db : Db) (now i k : ℕ) → HasEmbeds db → HasEmbeds (committed db (delete_item db now i k))
delete_item-HasEmbeds db now i k h =
    if_committed HasEmbeds db (delete_item db now i k) h λ u db' run.
      let (a, found, same) = delete_item-ok db now i k u db' run in
      rw same
        (deleted-HasEmbeds now (λ e. is_eq e.agenda_item_id k && is_none e.deleted_at) db.embeds h)

delete_meeting-HasEmbeds :
    (db : Db) (now i : ℕ) (user : User)
    → HasEmbeds db
    → HasEmbeds (committed db (delete_meeting db now i user))
delete_meeting-HasEmbeds db now i user h =
    if_committed HasEmbeds db (delete_meeting db now i user) h λ u db' run.
      let (m, _, _, same) = delete_meeting-ok db now i user u db' run in
      rw same (deleted-HasEmbeds now (embed_of i) db.embeds h)

HasEmbeds-of_same : (db db' : Db) → db'.embeds ≡ db.embeds → HasEmbeds db → HasEmbeds db'
HasEmbeds-of_same db db' e h = rw e h

module _ (flush_order : List OrderUpdate → List OrderUpdate) (save : List ℕ → String → String) where
  step-HasEmbeds : (c : Command) (db : Db) → HasEmbeds db → HasEmbeds (step flush_order save c db)
  unfolding step
  step-HasEmbeds (Command.delete_meeting now i user) db h = delete_meeting-HasEmbeds db now i user h
  step-HasEmbeds (Command.delete_item now i k) db h = delete_item-HasEmbeds db now i k h
  step-HasEmbeds (Command.create_embed now fresh values meeting item) db h =
      create_embed-HasEmbeds db now fresh values meeting item h
  step-HasEmbeds (Command.update_embed i values) db h = update_embed-HasEmbeds db i values h
  step-HasEmbeds (Command.delete_embed now i) db h = delete_embed-HasEmbeds db now i h
  step-HasEmbeds c db h =
      HasEmbeds-of_same db (step flush_order save c db) (embeds-step flush_order save c db tt) h

  -- From tables in which every video embed has the platform that its url shows, seconds in order
  -- and exactly one parent, any sequence of write requests, valid or not, leads to tables in which
  -- this still holds.
  pub run-HasEmbeds :
      (cs : List Command) (db : Db) → HasEmbeds db → HasEmbeds (run flush_order save cs db)
  run-HasEmbeds = run_induction flush_order save HasEmbeds step-HasEmbeds
