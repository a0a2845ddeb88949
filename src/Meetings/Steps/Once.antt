-- ===== src/Meetings/Steps/Once.antt =====
-- The attempts to decide on a meeting that is decided, whatever requests lie between.
use mathlib.Core.List.{Memᴰ}
use voter_api.Prelude.{
  Memᴰ-All, ℕ, String, ◌≡◌, ◌≢◌, ◌⊎◌, inl, inr, refl, Bool, true, false, Option, none, some, List,
  [], ◌∷◌, arith, ◌==◌, All, All-imp, All-append, All-write, All-find, IsKey, count_where,
  count_where-zero, count_where-found, count_where-imp_le, find, find-pass, write, Bool-cases,
  Option-cases, Result, ok, err, committed, if_committed, ==_iff,
}
use voter_api.Users.{User}
use voter_api.Meetings.Db.{ApprovalStatus, Db, Meeting, Error, meeting_at, not_found, not_pending}
use voter_api.Meetings.Filters.{is_pending}
use voter_api.Meetings.Agenda.{OrderUpdate}
use voter_api.Meetings.Service.{
  MeetingCreate, MeetingField, create_meeting, update_meeting, delete_meeting, approve_meeting,
  reject_meeting, approve, reject, mark_deleted,
}
use voter_api.Meetings.Service.Runs.{
  create_meeting-ok, update_meeting-ok, delete_meeting-ok, approve_meeting-ok, reject_meeting-ok,
}
use voter_api.Meetings.Service.Evolution.{apply_updates-Kept}
use voter_api.Meetings.Steps.{Command, step, run}
use voter_api.Meetings.Steps.Frames.{meetings-step}

-- A decision of an admin: to approve, or to reject for a reason.
unfoldable pub decide : Db → ℕ → ℕ → User → Option String → Result Error (Meeting × Db)
decide db now i admin none = approve_meeting db now i admin
decide db now i admin (some reason) = reject_meeting db now i admin reason

abbrev pub has_id : ℕ → Meeting → Bool
has_id i m = m.id == i

-- the row is not a pending meeting of this id
abbrev IsOver : ℕ → Meeting → Type 0
IsOver i m = has_id i m ≡ true → is_pending m.approval_status ≡ false

abbrev IsSettled : ℕ → Db → Type 0
IsSettled i db = All (IsOver i) db.meetings

-- A command that creates a meeting draws another id.
abbrev pub DrawsOther : ℕ → Command → Type 0
DrawsOther i (Command.create_meeting fresh values user) = fresh ≢ i
DrawsOther i _ = Unit

-- No meeting of this id is pending.
abbrev pub IsNowherePending : ℕ → Db → Type 0
IsNowherePending i db =
    (m : Meeting) → Memᴰ m db.meetings → m.id ≡ i → m.approval_status ≢ ApprovalStatus.pending

is_pending_none : (s : ApprovalStatus) → s ≢ ApprovalStatus.pending → is_pending s ≡ false
is_pending_none ApprovalStatus.pending other = absurd (other refl)
is_pending_none _ other = refl

IsNowherePending-IsSettled : (i : ℕ) (db : Db) → IsNowherePending i db → IsSettled i db
IsNowherePending-IsSettled i db nowhere =
    Memᴰ-All (IsOver i) db.meetings
      (λ m here same. is_pending_none m.approval_status (nowhere m here ((==_iff m.id i).0 same)))

module _ (i : ℕ) (db : Db) (h : IsSettled i db) where
  create-IsSettled :
      (fresh : ℕ) (values : MeetingCreate) (user : User)
      → fresh ≢ i
      → IsSettled i (committed db (create_meeting db fresh values user))
  create-IsSettled fresh values user other =
      if_committed (IsSettled i) db (create_meeting db fresh values user) h λ m' db' run.
        let (_, _, e) = create_meeting-ok db fresh values user m' db' run in
        rw e (
          All-append (IsOver i) db.meetings _ h
            ((λ same. absurd (other ((==_iff fresh i).0 same))), tt))

  update-IsSettled :
      (k : ℕ) (fields : List MeetingField) (user : User)
      → IsSettled i (committed db (update_meeting db k fields user))
  update-IsSettled k fields user =
      if_committed (IsSettled i) db (update_meeting db k fields user) h λ m' db' run.
        let (m, found, _, _, wrote, e) = update_meeting-ok db k fields user m' db' run in
        rw e (
          All-write (IsOver i) (meeting_at k) (λ _. m') db.meetings
            (λ a same over hit. ground (arith, apply_updates-Kept fields m m' wrote)) h)

  delete-IsSettled :
      (now k : ℕ) (user : User) → IsSettled i (committed db (delete_meeting db now k user))
  delete-IsSettled now k user =
      if_committed (IsSettled i) db (delete_meeting db now k user) h λ m' db' run.
        let (m, found, _, e) = delete_meeting-ok db now k user m' db' run in
        rw e (
          All-write (IsOver i) (meeting_at k) (mark_deleted now) db.meetings (λ a same over. over)
            h)

  approve-IsSettled :
      (now k : ℕ) (admin : User) → IsSettled i (committed db (approve_meeting db now k admin))
  approve-IsSettled now k admin =
      if_committed (IsSettled i) db (approve_meeting db now k admin) h λ m' db' run.
        let (m, found, _, _, e) = approve_meeting-ok db now k admin m' db' run in
        rw e (
          All-write (IsOver i) (meeting_at k) (approve now admin) db.meetings
            (λ a same over hit. refl) h)

  reject-IsSettled :
      (now k : ℕ) (admin : User) (reason : String)
      → IsSettled i (committed db (reject_meeting db now k admin reason))
  reject-IsSettled now k admin reason =
      if_committed (IsSettled i) db (reject_meeting db now k admin reason) h λ m' db' run.
        let (m, found, _, _, e) = reject_meeting-ok db now k admin reason m' db' run in
        rw e (
          All-write (IsOver i) (meeting_at k) (reject now admin reason) db.meetings
            (λ a same over hit. refl) h)

IsSettled-of_same :
    (i : ℕ) (db db' : Db) → db'.meetings ≡ db.meetings → IsSettled i db → IsSettled i db'
IsSettled-of_same i db db' e h = rw e h

-- the only meeting of the id is written
write-IsOver :
    (i : ℕ) (f : Meeting → Meeting) (rows : List Meeting) (a : Meeting)
    → ((m : Meeting) → is_pending (f m).approval_status ≡ false)
    → IsKey (has_id i) rows
    → find (meeting_at i) rows ≡ some a
    → All (IsOver i) (write (meeting_at i) f rows)
write-IsOver i f [] a over key found = tt
write-IsOver i f (m ∷ rows) a over key found = elim (Bool-cases (meeting_at i m)) [
  | inl e ↦
      let none_left : count_where (has_id i) rows ≡ 0 = ground arith in
      rw e (
        (λ hit. over m),
        All-imp (λ b. has_id i b ≡ false) (IsOver i) (λ b no hit. absurd (ground arith)) rows
            (count_where-zero (has_id i) rows none_left),
      )
  | inr e ↦
      let later : find (meeting_at i) rows ≡ some a = rw e at found in
      let some_left = count_where-found (meeting_at i) rows {a = a} later in
      let more = count_where-imp_le (meeting_at i) (has_id i) rows (λ b hit. ground arith) in
      let other : has_id i m ≡ false = ground arith in
      rw e ((λ hit. absurd (ground arith)), write-IsOver i f rows a over (ground arith) later)
]

decide-IsSettled :
    (db db' : Db) (now i : ℕ) (admin : User) (verdict : Option String) (m : Meeting)
    → IsKey (has_id i) db.meetings
    → decide db now i admin verdict ≡ ok (m, db')
    → IsSettled i db'
unfolding decide
decide-IsSettled db db' now i admin none m key h =
    let (a, found, _, _, e) = approve_meeting-ok db now i admin m db' h in
    rw e (write-IsOver i (approve now admin) db.meetings a (λ b. refl) key found)
decide-IsSettled db db' now i admin (some reason) m key h =
    let (a, found, _, _, e) = reject_meeting-ok db now i admin reason m db' h in
    rw e (write-IsOver i (reject now admin reason) db.meetings a (λ b. refl) key found)

-- The decision on a meeting is refused.
abbrev pub IsRefused : Result Error (Meeting × Db) → Type 0
IsRefused answer = (answer ≡ err not_pending) ⊎ (answer ≡ err not_found)

module _ (db : Db) (later i : ℕ) (other : User) where
  decide-missing :
      (second : Option String)
      → find (meeting_at i) db.meetings ≡ none
      → decide db later i other second ≡ err not_found
  unfolding decide approve_meeting reject_meeting
  decide-missing none gone = ground arith
  decide-missing (some reason) gone = ground arith

  decide-over :
      (second : Option String) (m : Meeting)
      → find (meeting_at i) db.meetings ≡ some m
      → is_pending m.approval_status ≡ false
      → decide db later i other second ≡ err not_pending
  unfolding decide approve_meeting reject_meeting
  decide-over none m found over = ground arith
  decide-over (some reason) m found over = ground arith

  decide-IsRefused :
      (second : Option String) → IsSettled i db → IsRefused (decide db later i other second)
  decide-IsRefused second settled = elim (Option-cases (find (meeting_at i) db.meetings)) [
    | inl gone ↦ inr (decide-missing second gone)
    | inr (m, found) ↦
        let over = All-find (IsOver i) (meeting_at i) db.meetings {a = m} settled found in
        let hit = find-pass (meeting_at i) db.meetings found in
        inl (decide-over second m found (ground arith))
  ]

module _ (flush_order : List OrderUpdate → List OrderUpdate) (save : List ℕ → String → String) where
  step-IsSettled :
      (i : ℕ) (c : Command) (db : Db)
      → DrawsOther i c
      → IsSettled i db
      → IsSettled i (step flush_order save c db)
  unfolding step
  step-IsSettled i (Command.create_meeting fresh values user) db other h =
      create-IsSettled i db h fresh values user other
  step-IsSettled i (Command.update_meeting k fields user) db other h =
      update-IsSettled i db h k fields user
  step-IsSettled i (Command.delete_meeting now k user) db other h =
      delete-IsSettled i db h now k user
  step-IsSettled i (Command.approve_meeting now k admin) db other h =
      approve-IsSettled i db h now k admin
  step-IsSettled i (Command.reject_meeting now k admin reason) db other h =
      reject-IsSettled i db h now k admin reason
  step-IsSettled i c db other h =
      IsSettled-of_same i db (step flush_order save c db) (meetings-step flush_order save c db tt) h

  run-IsSettled :
      (i : ℕ) (cs : List Command) (db : Db)
      → All (DrawsOther i) cs
      → IsSettled i db
      → IsSettled i (run flush_order save cs db)
  unfolding run
  run-IsSettled i [] db others h = h
  run-IsSettled i (c ∷ cs) db others h =
      run-IsSettled i cs (step flush_order save c db) others.1 (step-IsSettled i c db others.0 h)

  -- A meeting that is approved or rejected by a successful request, its id being the primary key, or
  -- that is not pending from the start, as one that an admin submits, is never decided again: after
  -- any sequence of write requests of which none draws its id anew, every attempt to approve or reject
  -- it, by any admin at any time, raises that it is not in pending status or, where it is deleted,
  -- that it is not found.
  pub decide-run :
      (cs : List Command) (db db' : Db) (now later i : ℕ) (admin other : User)
      (verdict second : Option String) (m : Meeting)
      → IsNowherePending i db'
        ⊎ (IsKey (has_id i) db.meetings × (decide db now i admin verdict ≡ ok (m, db')))
      → All (DrawsOther i) cs
      → IsRefused (decide (run flush_order save cs db') later i other second)
  decide-run cs db db' now later i admin other verdict second m start others =
      let settled : IsSettled i db' = elim start [
        | inl nowhere ↦ IsNowherePending-IsSettled i db' nowhere
        | inr (key, decided) ↦ decide-IsSettled db db' now i admin verdict m key decided
      ] in
      decide-IsRefused (run flush_order save cs db') later i other second
        (run-IsSettled i cs db' others settled)
