-- ===== src/Meetings/Steps/Links/Runs.antt =====
-- The links between the tables over a run of the requests of Meetings/Steps.
use voter_api.Prelude.{ℕ, String, List}
use voter_api.Meetings.Db.{Db}
use voter_api.Meetings.Agenda.{OrderUpdate}
use voter_api.Meetings.Steps.{Command, step, run, run_induction}
use voter_api.Meetings.Steps.Frames.{IsChild, SameParents, step-SameParents}
use voter_api.Meetings.Steps.Links.{IsLinked}
use voter_api.Meetings.Steps.Links.Bodies.{
  create_body-IsLinked, update_body-IsLinked, delete_body-IsLinked,
}
use voter_api.Meetings.Steps.Links.Meetings.{
  create_meeting-IsLinked, update_meeting-IsLinked, delete_meeting-IsLinked,
  approve_meeting-IsLinked, reject_meeting-IsLinked,
}
use voter_api.Meetings.Steps.Links.Items.{
  create_item-IsLinked, update_item-IsLinked, delete_item-IsLinked, reorder_items-IsLinked,
}

IsLinked-of_same : (db db' : Db) → SameParents db' db → IsLinked db → IsLinked db'
IsLinked-of_same db db' e h = record {
  meetings = rw (e.bodies, e.meetings) (h.meetings);
  items = rw (e.meetings, e.items) (h.items);
}

module _ (flush_order : List OrderUpdate → List OrderUpdate) (save : List ℕ → String → String) where
  child-IsLinked :
      (c : Command) (db : Db) → IsLinked db → IsChild c → IsLinked (step flush_order save c db)
  child-IsLinked c db h child =
      IsLinked-of_same db (step flush_order save c db)
        (step-SameParents flush_order save c db child) h

  step-IsLinked : (c : Command) (db : Db) → IsLinked db → IsLinked (step flush_order save c db)
  unfolding step
  step-IsLinked (Command.create_body fresh n t j d w) db h =
      create_body-IsLinked db h fresh n t j d w
  step-IsLinked (Command.update_body i fields) db h = update_body-IsLinked db h i fields
  step-IsLinked (Command.delete_body now i) db h = delete_body-IsLinked db h now i
  step-IsLinked (Command.create_meeting fresh values user) db h =
      create_meeting-IsLinked db h fresh values user
  step-IsLinked (Command.update_meeting i fields user) db h =
      update_meeting-IsLinked db h i fields user
  step-IsLinked (Command.delete_meeting now i user) db h = delete_meeting-IsLinked db h now i user
  step-IsLinked (Command.approve_meeting now i admin) db h =
      approve_meeting-IsLinked db h now i admin
  step-IsLinked (Command.reject_meeting now i admin reason) db h =
      reject_meeting-IsLinked db h now i admin reason
  step-IsLinked (Command.create_item fresh i values) db h = create_item-IsLinked db h fresh i values
  step-IsLinked (Command.update_item i k fields) db h = update_item-IsLinked db h i k fields
  step-IsLinked (Command.delete_item now i k) db h = delete_item-IsLinked db h now i k
  step-IsLinked (Command.reorder_items i ids) db h = reorder_items-IsLinked db h flush_order i ids
  step-IsLinked c db h = child-IsLinked c db h tt

  -- From tables in which every active meeting stands under an active governing body and every active
  -- agenda item under an active meeting, any sequence of write requests, valid or not, leads to
  -- tables in which this still holds.
  pub run-IsLinked :
      (cs : List Command) (db : Db) → IsLinked db → IsLinked (run flush_order save cs db)
  run-IsLinked = run_induction flush_order save IsLinked step-IsLinked
