-- ===== src/Meetings/Steps/Frames.antt =====
-- What a handler of one table leaves alone in the others.
use voter_api.Prelude.{ℕ, String, ◌≡◌, List, arith}
use voter_api.Meetings.Db.{Db}
use voter_api.Meetings.Agenda
use voter_api.Meetings.Agenda.{OrderUpdate}
use voter_api.Meetings.Steps.{Command, step}
use voter_api.Meetings.Attachments
use voter_api.Meetings.Bodies
use voter_api.Meetings.Embeds
use voter_api.Meetings.Service

-- a command of another table than `meetings`
abbrev pub IsElsewhere : Command → Type 0
IsElsewhere (Command.create_meeting fresh values user) = ⊥
IsElsewhere (Command.update_meeting i fields user) = ⊥
IsElsewhere (Command.delete_meeting now i user) = ⊥
IsElsewhere (Command.approve_meeting now i admin) = ⊥
IsElsewhere (Command.reject_meeting now i admin reason) = ⊥
IsElsewhere _ = Unit

module _ (flush_order : List OrderUpdate → List OrderUpdate) (save : List ℕ → String → String) where
  pub meetings-step :
      (c : Command) (db : Db) → IsElsewhere c → (step flush_order save c db).meetings ≡ db.meetings
  unfolding step Bodies.create_body Bodies.update_body Bodies.delete_body Agenda.create_item
      Agenda.update_item Agenda.delete_item Agenda.reorder_items Attachments.upload_attachment
      Attachments.delete_attachment Embeds.create_embed Embeds.update_embed Embeds.delete_embed
  meetings-step (Command.create_meeting fresh values user) db h = absurd h
  meetings-step (Command.create_body fresh n t j d w) db h = ground arith
  meetings-step (Command.reorder_items i ids) db h = ground arith
  meetings-step _ db h = ground arith

-- a command of attachments or embeds
abbrev pub IsChild : Command → Type 0
IsChild (Command.upload_attachment now fresh u size) = Unit
IsChild (Command.delete_attachment now i) = Unit
IsChild (Command.create_embed now fresh values meeting item) = Unit
IsChild (Command.update_embed i values) = Unit
IsChild (Command.delete_embed now i) = Unit
IsChild _ = ⊥

pub record SameParents (a b : Db) : Type 0 where
  pub bodies : a.bodies ≡ b.bodies
  pub meetings : a.meetings ≡ b.meetings
  pub items : a.items ≡ b.items

module _ (flush_order : List OrderUpdate → List OrderUpdate) (save : List ℕ → String → String) where
  pub step-SameParents :
      (c : Command) (db : Db) → IsChild c → SameParents (step flush_order save c db) db
  unfolding step Attachments.upload_attachment Attachments.delete_attachment Embeds.create_embed
      Embeds.update_embed Embeds.delete_embed
  step-SameParents (Command.upload_attachment now fresh u size) db h = ground arith
  step-SameParents (Command.delete_attachment now i) db h = ground arith
  step-SameParents (Command.create_embed now fresh values meeting item) db h = ground arith
  step-SameParents (Command.update_embed i values) db h = ground arith
  step-SameParents (Command.delete_embed now i) db h = ground arith
  step-SameParents _ db h = absurd h

-- a command that writes no agenda item
abbrev pub IsNoItem : Command → Type 0
IsNoItem (Command.delete_meeting now i user) = ⊥
IsNoItem (Command.create_item fresh i values) = ⊥
IsNoItem (Command.update_item i k fields) = ⊥
IsNoItem (Command.delete_item now i k) = ⊥
IsNoItem (Command.reorder_items i ids) = ⊥
IsNoItem _ = Unit

module _ (flush_order : List OrderUpdate → List OrderUpdate) (save : List ℕ → String → String) where
  pub items-step :
      (c : Command) (db : Db) → IsNoItem c → (step flush_order save c db).items ≡ db.items
  unfolding step Bodies.create_body Bodies.update_body Bodies.delete_body Service.create_meeting
      Service.update_meeting Service.approve_meeting Service.reject_meeting
      Attachments.upload_attachment Attachments.delete_attachment Embeds.create_embed
      Embeds.update_embed Embeds.delete_embed
  items-step (Command.delete_meeting now i user) db h = absurd h
  items-step (Command.reorder_items i ids) db h = absurd h
  items-step _ db h = ground arith

-- a command that writes no video embed
abbrev pub IsNoEmbed : Command → Type 0
IsNoEmbed (Command.delete_meeting now i user) = ⊥
IsNoEmbed (Command.delete_item now i k) = ⊥
IsNoEmbed (Command.create_embed now fresh values meeting item) = ⊥
IsNoEmbed (Command.update_embed i values) = ⊥
IsNoEmbed (Command.delete_embed now i) = ⊥
IsNoEmbed _ = Unit

module _ (flush_order : List OrderUpdate → List OrderUpdate) (save : List ℕ → String → String) where
  pub embeds-step :
      (c : Command) (db : Db) → IsNoEmbed c → (step flush_order save c db).embeds ≡ db.embeds
  unfolding step Bodies.create_body Bodies.update_body Bodies.delete_body Service.create_meeting
      Service.update_meeting Service.approve_meeting Service.reject_meeting Agenda.create_item
      Agenda.update_item Agenda.reorder_items Attachments.upload_attachment
      Attachments.delete_attachment
  embeds-step (Command.delete_meeting now i user) db h = absurd h
  embeds-step _ db h = ground arith
