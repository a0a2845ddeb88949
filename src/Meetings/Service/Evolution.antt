-- ===== src/Meetings/Service/Evolution.antt =====
-- How one row of `meetings` may change under the handlers of services/meeting_service.py.
use voter_api.Prelude.{
  ℕ, String, ◌≡◌, refl, ◌≢◌, ◌⊎◌, inl, true, false, some, List, [], ◌∷◌, arith, is_some, find,
  find-pass, Extends, Extends-refl, Extends-append, ok, committed, >>=-eq-ok, Extends-write,
  if_committed,
}
use voter_api.Users.{User}
use voter_api.Meetings.Db.{Db, Meeting, ApprovalStatus, meeting_at}
use voter_api.Meetings.Service.{
  MeetingCreate, MeetingField, new_meeting, write_field, create_meeting, apply_updates,
  update_meeting, delete_meeting, approve_meeting, reject_meeting, approve, reject, mark_deleted,
}
use voter_api.Meetings.Service.Runs.{
  create_meeting-ok, update_meeting-ok, delete_meeting-ok, approve_meeting-ok, reject_meeting-ok,
}

-- The decision on a submission: who took it, when, and the reason.
pub record SameDecision (a b : Meeting) : Type 0 where
  pub status : a.approval_status ≡ b.approval_status
  pub by : a.approved_by ≡ b.approved_by
  pub at : a.approved_at ≡ b.approved_at
  pub reason : a.rejection_reason ≡ b.rejection_reason

pub record Evolves (a b : Meeting) : Type 0 where
  pub same_id : a.id ≡ b.id
  pub same_body : a.governing_body_id ≡ b.governing_body_id
  pub same_submitter : a.submitted_by ≡ b.submitted_by
  pub decision :
      SameDecision a b
      ⊎ ((a.approval_status ≡ ApprovalStatus.pending)
          × (b.approval_status ≢ ApprovalStatus.pending))
  pub frozen : is_some a.deleted_at ≡ true → a ≡ b

pub Evolves-refl : (a : Meeting) → Evolves a a
Evolves-refl a = record {
  same_id = refl;
  same_body = refl;
  same_submitter = refl;
  decision = inl (record { status = refl; by = refl; at = refl; reason = refl });
  frozen = λ _. refl;
}

pub Evolves-trans : (a b c : Meeting) → Evolves a b → Evolves b c → Evolves a c
Evolves-trans a b c h k = ground arith

-- What the loop over the new values leaves alone.
pub record Kept (a b : Meeting) : Type 0 where
  pub id : a.id ≡ b.id
  pub body : a.governing_body_id ≡ b.governing_body_id
  pub submitter : a.submitted_by ≡ b.submitted_by
  pub decision : SameDecision a b
  pub deleted : a.deleted_at ≡ b.deleted_at

Kept-trans : (a b c : Meeting) → Kept a b → Kept b c → Kept a c
Kept-trans a b c h k = ground arith

write_field-Kept : (f : MeetingField) (m m' : Meeting) → write_field f m ≡ ok m' → Kept m m'
unfolding write_field
write_field-Kept f m m' h = ground arith

pub apply_updates-Kept :
    (fields : List MeetingField) (m m' : Meeting) → apply_updates fields m ≡ ok m' → Kept m m'
unfolding apply_updates
apply_updates-Kept [] m m' h = ground arith
apply_updates-Kept (f ∷ fs) m m' h =
    let (n, first, rest) = >>=-eq-ok (write_field f m) (apply_updates fs) h in
    Kept-trans m n m' (write_field-Kept f m n first) (apply_updates-Kept fs n m' rest)

-- Each handler, whether it commits or raises, lets every row evolve.
abbrev pub Grows : Db → Db → Type 0
Grows db db' = Extends Evolves db.meetings db'.meetings

pub Grows-refl : (db : Db) → Grows db db
Grows-refl db = Extends-refl Evolves Evolves-refl db.meetings

pub create_meeting-Grows :
    (db : Db) (fresh : ℕ) (values : MeetingCreate) (user : User)
    → Grows db (committed db (create_meeting db fresh values user))
create_meeting-Grows db fresh values user =
    if_committed (Grows db) db (create_meeting db fresh values user) (Grows-refl db) λ m' db' h.
      let (_, _, e) = create_meeting-ok db fresh values user m' db' h in
      rw e (Extends-append Evolves Evolves-refl db.meetings (new_meeting fresh values user ∷ []))

-- the row that the key selects is active, so it is not frozen
selected_active :
    (i : ℕ) (rows : List Meeting) (m : Meeting)
    → find (meeting_at i) rows ≡ some m
    → is_some m.deleted_at ≡ false
selected_active i rows m h = ground (arith, find-pass (meeting_at i) rows h)

pub update_meeting-Grows :
    (db : Db) (i : ℕ) (fields : List MeetingField) (user : User)
    → Grows db (committed db (update_meeting db i fields user))
update_meeting-Grows db i fields user =
    if_committed (Grows db) db (update_meeting db i fields user) (Grows-refl db) λ m' db' h.
      let (m, found, _, _, wrote, e) = update_meeting-ok db i fields user m' db' h in
      rw e (
        Extends-write Evolves Evolves-refl (meeting_at i) (λ _. m') db.meetings
          λ a same.
            ground
              (arith, selected_active i db.meetings a same, apply_updates-Kept fields m m' wrote))

pub delete_meeting-Grows :
    (db : Db) (now i : ℕ) (user : User) → Grows db (committed db (delete_meeting db now i user))
delete_meeting-Grows db now i user =
    if_committed (Grows db) db (delete_meeting db now i user) (Grows-refl db) λ m' db' h.
      let (m, found, _, e) = delete_meeting-ok db now i user m' db' h in
      rw e (
        Extends-write Evolves Evolves-refl (meeting_at i) (mark_deleted now) db.meetings
          λ a same. ground (arith, selected_active i db.meetings a same))

pub approve_meeting-Grows :
    (db : Db) (now i : ℕ) (admin : User) → Grows db (committed db (approve_meeting db now i admin))
approve_meeting-Grows db now i admin =
    if_committed (Grows db) db (approve_meeting db now i admin) (Grows-refl db) λ m' db' h.
      let (m, found, waiting, _, e) = approve_meeting-ok db now i admin m' db' h in
      rw e (
        Extends-write Evolves Evolves-refl (meeting_at i) (approve now admin) db.meetings
          λ a same. ground (arith, selected_active i db.meetings a same))

pub reject_meeting-Grows :
    (db : Db) (now i : ℕ) (admin : User) (reason : String)
    → Grows db (committed db (reject_meeting db now i admin reason))
reject_meeting-Grows db now i admin reason =
    if_committed (Grows db) db (reject_meeting db now i admin reason) (Grows-refl db) λ m' db' h.
      let (m, found, waiting, _, e) = reject_meeting-ok db now i admin reason m' db' h in
      rw e (
        Extends-write Evolves Evolves-refl (meeting_at i) (reject now admin reason) db.meetings
          λ a same. ground (arith, selected_active i db.meetings a same))
