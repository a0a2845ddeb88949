-- ===== src/Meetings/Steps.antt =====
-- The write requests of the meeting records as one system: each command is a call of a handler
-- with its arguments, the clock and the UUID that it draws, and a request that raises leaves the
-- database as it was. A run is any sequence of them.
pub mod Frames
pub mod History
pub mod Decisions
pub mod Once
pub mod Links
pub mod Videos
use voter_api.Prelude.{ℕ, String, Option, List, [], ◌∷◌, committed}
use voter_api.Users.{User}
use voter_api.Meetings.Db.{Db}
use voter_api.Meetings.Service
use voter_api.Meetings.Service.{MeetingCreate, MeetingField}
use voter_api.Meetings.Bodies
use voter_api.Meetings.Bodies.{BodyField}
use voter_api.Meetings.Agenda
use voter_api.Meetings.Agenda.{ItemCreate, ItemField, OrderUpdate}
use voter_api.Meetings.Attachments
use voter_api.Meetings.Attachments.{Upload}
use voter_api.Meetings.Embeds
use voter_api.Meetings.Embeds.{EmbedCreate, EmbedUpdate}

pub data Command : Type 0 where
  create_body : ℕ → String → ℕ → String → Option String → Option String → Command
  update_body : ℕ → List BodyField → Command
  delete_body : ℕ → ℕ → Command
  create_meeting : ℕ → MeetingCreate → User → Command
  update_meeting : ℕ → List MeetingField → User → Command
  delete_meeting : ℕ → ℕ → User → Command
  approve_meeting : ℕ → ℕ → User → Command
  reject_meeting : ℕ → ℕ → User → String → Command
  create_item : ℕ → ℕ → ItemCreate → Command
  update_item : ℕ → ℕ → List ItemField → Command
  delete_item : ℕ → ℕ → ℕ → Command
  reorder_items : ℕ → List ℕ → Command
  upload_attachment : ℕ → ℕ → Upload → ℕ → Command
  delete_attachment : ℕ → ℕ → Command
  create_embed : ℕ → ℕ → EmbedCreate → Option ℕ → Option ℕ → Command
  update_embed : ℕ → EmbedUpdate → Command
  delete_embed : ℕ → ℕ → Command

module _ (flush_order : List OrderUpdate → List OrderUpdate) (save : List ℕ → String → String) where
  unfoldable pub step : Command → Db → Db
  step (create_body fresh n t j d w) db = committed db (Bodies.create_body db fresh n t j d w)
  step (update_body i fields) db = committed db (Bodies.update_body db i fields)
  step (delete_body now i) db = committed db (Bodies.delete_body db now i)
  step (create_meeting fresh values user) db =
      committed db (Service.create_meeting db fresh values user)
  step (update_meeting i fields user) db = committed db (Service.update_meeting db i fields user)
  step (delete_meeting now i user) db = committed db (Service.delete_meeting db now i user)
  step (approve_meeting now i admin) db = committed db (Service.approve_meeting db now i admin)
  step (reject_meeting now i admin reason) db =
      committed db (Service.reject_meeting db now i admin reason)
  step (create_item fresh i values) db = committed db (Agenda.create_item db fresh i values)
  step (update_item i k fields) db = committed db (Agenda.update_item db i k fields)
  step (delete_item now i k) db = committed db (Agenda.delete_item db now i k)
  step (reorder_items i ids) db = committed db (Agenda.reorder_items flush_order db i ids)
  step (upload_attachment now fresh u size) db =
      committed db (Attachments.upload_attachment save db now fresh u size)
  step (delete_attachment now i) db = committed db (Attachments.delete_attachment db now i)
  step (create_embed now fresh values meeting item) db =
      committed db (Embeds.create_embed db now fresh values meeting item)
  step (update_embed i values) db = committed db (Embeds.update_embed db i values)
  step (delete_embed now i) db = committed db (Embeds.delete_embed db now i)

  unfoldable pub run : List Command → Db → Db
  run [] db = db
  run (c ∷ cs) db = run cs (step c db)

-- To keep a property over a run, keep it over each request.
module _ (flush_order : List OrderUpdate → List OrderUpdate) (save : List ℕ → String → String) where
  pub run_induction :
      (P : Db → Type 0)
      → ((c : Command) (db : Db) → P db → P (step flush_order save c db))
      → (cs : List Command) (db : Db) → P db
      → P (run flush_order save cs db)
  unfolding run
  run_induction P keep [] db h = h
  run_induction P keep (c ∷ cs) db h =
      run_induction P keep cs (step flush_order save c db) (keep c db h)
