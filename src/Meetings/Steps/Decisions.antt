-- ===== src/Meetings/Steps/Decisions.antt =====
-- The columns of the approval workflow of models/meeting.py and how they belong together.
use voter_api.Prelude.{
  ℕ, String, ◌≡◌, true, none, List, arith, All, All-append, All-write, committed, if_committed,
  is_some,
}
use voter_api.Users.{User}
use voter_api.Meetings.Db.{Db, Meeting, ApprovalStatus, meeting_at}
use voter_api.Meetings.Agenda.{OrderUpdate}
use voter_api.Meetings.Service.{
  MeetingCreate, MeetingField, new_meeting, create_meeting, update_meeting, delete_meeting,
  approve_meeting, reject_meeting, approve, reject, mark_deleted,
}
use voter_api.Meetings.Service.Runs.{
  create_meeting-ok, update_meeting-ok, delete_meeting-ok, approve_meeting-ok, reject_meeting-ok,
}
use voter_api.Meetings.Service.Evolution.{apply_updates-Kept}
use voter_api.Meetings.Steps.{Command, step, run, run_induction}
use voter_api.Meetings.Steps.Frames.{meetings-step}

-- A pending meeting has no decision, a rejected one has all of it and a reason, and an approved one
-- has no reason, and either all of it or, submitted by an admin, none.
pub record IsDecided (m : Meeting) : Type 0 where
  pub pending_open :
      m.approval_status ≡ ApprovalStatus.pending
      → (m.approved_by ≡ none) × (m.approved_at ≡ none) × (m.rejection_reason ≡ none)
  pub rejected_signed :
      m.approval_status ≡ ApprovalStatus.rejected
      → (is_some m.approved_by ≡ true)
        × (is_some m.approved_at ≡ true)
        × (is_some m.rejection_reason ≡ true)
  pub approved_clean :
      m.approval_status ≡ ApprovalStatus.approved
      → (m.rejection_reason ≡ none) × (is_some m.approved_by ≡ is_some m.approved_at)

abbrev pub AreDecided : Db → Type 0
AreDecided db = All IsDecided db.meetings

new_meeting-IsDecided :
    (fresh : ℕ) (values : MeetingCreate) (user : User) → IsDecided (new_meeting fresh values user)
new_meeting-IsDecided fresh values user = ground arith

module _ (db : Db) (h : AreDecided db) where
  create-AreDecided :
      (fresh : ℕ) (values : MeetingCreate) (user : User)
      → AreDecided (committed db (create_meeting db fresh values user))
  create-AreDecided fresh values user =
      if_committed AreDecided db (create_meeting db fresh values user) h λ m' db' run.
        let (_, _, e) = create_meeting-ok db fresh values user m' db' run in
        rw e (All-append IsDecided db.meetings _ h (new_meeting-IsDecided fresh values user, tt))

  update-AreDecided :
      (i : ℕ) (fields : List MeetingField) (user : User)
      → AreDecided (committed db (update_meeting db i fields user))
  update-AreDecided i fields user =
      if_committed AreDecided db (update_meeting db i fields user) h λ m' db' run.
        let (m, found, _, _, wrote, e) = update_meeting-ok db i fields user m' db' run in
        rw e (
          All-write IsDecided (meeting_at i) (λ _. m') db.meetings
            (λ a same decided. ground (arith, apply_updates-Kept fields m m' wrote)) h)

  delete-AreDecided :
      (now i : ℕ) (user : User) → AreDecided (committed db (delete_meeting db now i user))
  delete-AreDecided now i user =
      if_committed AreDecided db (delete_meeting db now i user) h λ m' db' run.
        let (m, found, _, e) = delete_meeting-ok db now i user m' db' run in
        rw e (
          All-write IsDecided (meeting_at i) (mark_deleted now) db.meetings
            (λ a same decided. ground arith) h)

  approve-AreDecided :
      (now i : ℕ) (admin : User) → AreDecided (committed db (approve_meeting db now i admin))
  approve-AreDecided now i admin =
      if_committed AreDecided db (approve_meeting db now i admin) h λ m' db' run.
        let (m, found, waiting, _, e) = approve_meeting-ok db now i admin m' db' run in
        rw e (
          All-write IsDecided (meeting_at i) (approve now admin) db.meetings
            (λ a same decided. ground arith) h)

  reject-AreDecided :
      (now i : ℕ) (admin : User) (reason : String)
      → AreDecided (committed db (reject_meeting db now i admin reason))
  reject-AreDecided now i admin reason =
      if_committed AreDecided db (reject_meeting db now i admin reason) h λ m' db' run.
        let (m, found, waiting, _, e) = reject_meeting-ok db now i admin reason m' db' run in
        rw e (
          All-write IsDecided (meeting_at i) (reject now admin reason) db.meetings
            (λ a same decided. ground arith) h)

AreDecided-of_same : (db db' : Db) → db'.meetings ≡ db.meetings → AreDecided db → AreDecided db'
AreDecided-of_same db db' e h = rw e h

module _ (flush_order : List OrderUpdate → List OrderUpdate) (save : List ℕ → String → String) where
  step-AreDecided :
      (c : Command) (db : Db) → AreDecided db → AreDecided (step flush_order save c db)
  unfolding step
  step-AreDecided (Command.create_meeting fresh values user) db h =
      create-AreDecided db h fresh values user
  step-AreDecided (Command.update_meeting i fields user) db h = update-AreDecided db h i fields user
  step-AreDecided (Command.delete_meeting now i user) db h = delete-AreDecided db h now i user
  step-AreDecided (Command.approve_meeting now i admin) db h = approve-AreDecided db h now i admin
  step-AreDecided (Command.reject_meeting now i admin reason) db h =
      reject-AreDecided db h now i admin reason
  step-AreDecided c db h =
      AreDecided-of_same db (step flush_order save c db) (meetings-step flush_order save c db tt) h

  -- From tables in which the columns of the approval agree, any sequence of write requests leads to
  -- tables in which they agree: a pending meeting has no decision, a rejected one has its admin, its
  -- instant and a reason, and an approved one has no reason.
  pub run-AreDecided :
      (cs : List Command) (db : Db) → AreDecided db → AreDecided (run flush_order save cs db)
  run-AreDecided = run_induction flush_order save AreDecided step-AreDecided
