-- ===== src/Meetings/Service/Runs.antt =====
-- When a write handler of services/meeting_service.py succeeds, and what it then commits.
use voter_api.Prelude.{ℕ, String, ◌≡◌, true, some, List, [], ◌∷◌, ◌++◌, arith, is_some, find, ok}
use voter_api.Users.{User}
use voter_api.Meetings.Db.{Db, Meeting, body_at, meeting_at}
use voter_api.Meetings.Service.{
  MeetingCreate, MeetingField, new_meeting, create_meeting, apply_updates, update_meeting, may_edit,
  delete_meeting, approve_meeting, reject_meeting, approve, reject, get_meeting, cascade_delete,
  replace_meeting,
}
use voter_api.Meetings.Filters.{is_pending}

module _ (db : Db) where
  pub create_meeting-ok :
      (fresh : ℕ) (values : MeetingCreate) (user : User) (m : Meeting) (db' : Db)
      → create_meeting db fresh values user ≡ ok (m, db')
      → (is_some (find (body_at values.governing_body_id) db.bodies) ≡ true)
        × (m ≡ new_meeting fresh values user)
        × (db' ≡ record db { meetings = db.meetings ++ new_meeting fresh values user ∷ [] })
  unfolding create_meeting
  create_meeting-ok fresh values user m db' h = ground arith

  pub update_meeting-ok :
      (i : ℕ) (fields : List MeetingField) (user : User) (m' : Meeting) (db' : Db)
      → update_meeting db i fields user ≡ ok (m', db')
      → (m : Meeting) × (find (meeting_at i) db.meetings ≡ some m)
        × (get_meeting db i (some user) ≡ some m)
        × (may_edit user m ≡ true)
        × (apply_updates fields m ≡ ok m')
        × (db' ≡ replace_meeting i (λ _. m') db)
  unfolding update_meeting get_meeting
  update_meeting-ok i fields user m' db' h = ground arith

  pub delete_meeting-ok :
      (now i : ℕ) (user : User) (u : Unit {0}) (db' : Db)
      → delete_meeting db now i user ≡ ok (u, db')
      → (m : Meeting) × (find (meeting_at i) db.meetings ≡ some m)
        × (may_edit user m ≡ true)
        × (db' ≡ cascade_delete now i db)
  unfolding delete_meeting
  delete_meeting-ok now i user u db' h = ground arith

  pub approve_meeting-ok :
      (now i : ℕ) (admin : User) (m' : Meeting) (db' : Db)
      → approve_meeting db now i admin ≡ ok (m', db')
      → (m : Meeting) × (find (meeting_at i) db.meetings ≡ some m)
        × (is_pending m.approval_status ≡ true)
        × (m' ≡ approve now admin m)
        × (db' ≡ replace_meeting i (approve now admin) db)
  unfolding approve_meeting
  approve_meeting-ok now i admin m' db' h = ground arith

  pub reject_meeting-ok :
      (now i : ℕ) (admin : User) (reason : String) (m' : Meeting) (db' : Db)
      → reject_meeting db now i admin reason ≡ ok (m', db')
      → (m : Meeting) × (find (meeting_at i) db.meetings ≡ some m)
        × (is_pending m.approval_status ≡ true)
        × (m' ≡ reject now admin reason m)
        × (db' ≡ replace_meeting i (reject now admin reason) db)
  unfolding reject_meeting
  reject_meeting-ok now i admin reason m' db' h = ground arith
