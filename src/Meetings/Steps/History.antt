-- ===== src/Meetings/Steps/History.antt =====
-- What any run may do to the meetings that are there when it starts.
use voter_api.Prelude.{ℕ, String, ◌≡◌, List, Extends-trans}
use voter_api.Meetings.Db.{Db}
use voter_api.Meetings.Agenda.{OrderUpdate}
use voter_api.Meetings.Service.Evolution.{
  Evolves, Evolves-trans, Grows, Grows-refl, create_meeting-Grows, update_meeting-Grows,
  delete_meeting-Grows, approve_meeting-Grows, reject_meeting-Grows,
}
use voter_api.Meetings.Steps.{Command, step, run, run_induction}
use voter_api.Meetings.Steps.Frames.{meetings-step}

Grows-of_same : (db db' : Db) → db'.meetings ≡ db.meetings → Grows db db'
Grows-of_same db db' e = rw e (Grows-refl db)

module _ (flush_order : List OrderUpdate → List OrderUpdate) (save : List ℕ → String → String) where
  pub step-Grows : (c : Command) (db : Db) → Grows db (step flush_order save c db)
  unfolding step
  step-Grows (Command.create_meeting fresh values user) db =
      create_meeting-Grows db fresh values user
  step-Grows (Command.update_meeting i fields user) db = update_meeting-Grows db i fields user
  step-Grows (Command.delete_meeting now i user) db = delete_meeting-Grows db now i user
  step-Grows (Command.approve_meeting now i admin) db = approve_meeting-Grows db now i admin
  step-Grows (Command.reject_meeting now i admin reason) db =
      reject_meeting-Grows db now i admin reason
  step-Grows c db =
      Grows-of_same db (step flush_order save c db) (meetings-step flush_order save c db tt)

  -- Over any sequence of write requests of the meeting records, valid or not, every meeting keeps
  -- its place, its id, its governing body and its submitter; the decision on it (status, who, when,
  -- reason) changes only from pending to approved or rejected; and a deleted meeting never changes.
  pub run-Grows : (cs : List Command) (db : Db) → Grows db (run flush_order save cs db)
  run-Grows cs db =
      run_induction flush_order save (Grows db)
        (λ c mid h.
          Extends-trans Evolves Evolves-trans db.meetings mid.meetings
            (step flush_order save c mid).meetings h (step-Grows c mid))
        cs db (Grows-refl db)
