-- ===== src/Meetings/Service/Rights.antt =====
-- Who may change a meeting.
use voter_api.Prelude.{
  ℕ, ◌≡◌, refl, true, false, some, List, arith, find, write, Extends, Extends-refl, Extends-append,
  Extends-write, committed, if_committed, is_eq,
}
use voter_api.Users.{User, is_admin}
use voter_api.Meetings.Db.{Db, Meeting, meeting_at}
use voter_api.Meetings.Service.{
  MeetingCreate, MeetingField, create_meeting, update_meeting, delete_meeting, mark_deleted,
}
use voter_api.Meetings.Service.Runs.{create_meeting-ok, update_meeting-ok, delete_meeting-ok}

-- A request that a contributor may make.
pub data Request : Type 0 where
  create : ℕ → MeetingCreate → Request
  update : ℕ → List MeetingField → Request
  delete : ℕ → ℕ → Request

unfoldable pub request : Db → User → Request → Db
request db user (create fresh values) = committed db (create_meeting db fresh values user)
request db user (update i fields) = committed db (update_meeting db i fields user)
request db user (delete now i) = committed db (delete_meeting db now i user)

-- the row is as it was unless the user has submitted it
abbrev pub Untouched : User → Meeting → Meeting → Type 0
Untouched user a b = is_eq a.submitted_by user.id ≡ false → a ≡ b

Untouched-write :
    (user : User) (i : ℕ) (f : Meeting → Meeting) (rows : List Meeting) (m : Meeting)
    → find (meeting_at i) rows ≡ some m
    → is_eq m.submitted_by user.id ≡ true
    → Extends (Untouched user) rows (write (meeting_at i) f rows)
Untouched-write user i f rows m found own =
    Extends-write (Untouched user) (λ a _. refl) (meeting_at i) f rows
      (λ a same other. ground arith)

-- No request to create, update or delete a meeting by a user who is not an admin changes a meeting
-- that another user has submitted, whether the request succeeds or raises.
pub request-Untouched :
    (db : Db) (user : User) (r : Request)
    → is_admin user.role ≡ false
    → Extends (Untouched user) db.meetings (request db user r).meetings
unfolding request
request-Untouched db user (create fresh values) plain =
    if_committed (λ d. Extends (Untouched user) db.meetings d.meetings) db
      (create_meeting db fresh values user)
      (Extends-refl (Untouched user) (λ a _. refl) db.meetings)
      λ m' db' run.
        let (_, _, e) = create_meeting-ok db fresh values user m' db' run in
        rw e (Extends-append (Untouched user) (λ a _. refl) db.meetings _)
request-Untouched db user (update i fields) plain =
    if_committed (λ d. Extends (Untouched user) db.meetings d.meetings) db
      (update_meeting db i fields user) (Extends-refl (Untouched user) (λ a _. refl) db.meetings)
      λ m' db' run.
        let (m, found, _, may, _, e) = update_meeting-ok db i fields user m' db' run in
        rw e (Untouched-write user i (λ _. m') db.meetings m found (ground arith))
request-Untouched db user (delete now i) plain =
    if_committed (λ d. Extends (Untouched user) db.meetings d.meetings) db
      (delete_meeting db now i user) (Extends-refl (Untouched user) (λ a _. refl) db.meetings)
      λ u db' run.
        let (m, found, may, e) = delete_meeting-ok db now i user u db' run in
        rw e (Untouched-write user i (mark_deleted now) db.meetings m found (ground arith))
