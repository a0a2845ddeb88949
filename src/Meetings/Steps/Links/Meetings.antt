-- ===== src/Meetings/Steps/Links/Meetings.antt =====
-- The links between the tables under the handlers of services/meeting_service.py.
use voter_api.Prelude.{
  ℕ, String, ◌≡◌, refl, sym, ◌∙◌, some, List, [], ◌∷◌, ◌++◌, arith, find, find-pass, find-exists,
  write, exists_where-write, exists_where-append, All-imp, All-modify-rest, All-append, All-write,
  committed, if_committed,
}
use voter_api.Users.{User}
use voter_api.Meetings.Db.{Db, Meeting, body_at, meeting_at}
use voter_api.Meetings.Service.{
  MeetingCreate, MeetingField, new_meeting, create_meeting, update_meeting, delete_meeting,
  approve_meeting, reject_meeting, approve, reject, mark_deleted, mark_item, item_of,
  replace_meeting,
}
use voter_api.Meetings.Service.Runs.{
  create_meeting-ok, update_meeting-ok, delete_meeting-ok, approve_meeting-ok, reject_meeting-ok,
}
use voter_api.Meetings.Service.Evolution.{apply_updates-Kept}
use voter_api.Meetings.Steps.Links.{UnderBody, UnderMeeting, IsLinked}

module _ (db : Db) (h : IsLinked db) where
  pub create_meeting-IsLinked :
      (fresh : ℕ) (values : MeetingCreate) (user : User)
      → IsLinked (committed db (create_meeting db fresh values user))
  create_meeting-IsLinked fresh values user =
      if_committed IsLinked db (create_meeting db fresh values user) h λ m' db' run.
        let (there, _, e) = create_meeting-ok db fresh values user m' db' run in
        let m = new_meeting fresh values user in
        rw e (record {
          meetings = All-append (UnderBody db.bodies) db.meetings (m ∷ []) h.meetings (
            λ active. sym (find-exists (body_at values.governing_body_id) db.bodies) ∙ there,
            tt,
          );
          items =
              All-imp (UnderMeeting db.meetings) (UnderMeeting (db.meetings ++ m ∷ []))
                (λ a under active.
                  exists_where-append (meeting_at a.meeting_id) db.meetings (m ∷ []) (under active))
                db.items h.items;
        })

  -- a write that keeps the key, the body and the deletion of a meeting keeps the links
  rewrite-IsLinked :
      (i : ℕ) (f : Meeting → Meeting)
      → ((a : Meeting)
          → find (meeting_at i) db.meetings ≡ some a
          → ((f a).id ≡ a.id)
            × ((f a).governing_body_id ≡ a.governing_body_id)
            × ((f a).deleted_at ≡ a.deleted_at))
      → IsLinked (replace_meeting i f db)
  rewrite-IsLinked i f same = record {
    meetings =
        All-write (UnderBody db.bodies) (meeting_at i) f db.meetings
          (λ a found under. ground (arith, same a found)) h.meetings;
    items =
        All-imp (UnderMeeting db.meetings) (UnderMeeting (write (meeting_at i) f db.meetings))
          (λ a under active.
            exists_where-write (meeting_at a.meeting_id) (meeting_at i) f db.meetings
              (λ m found. ground (arith, same m found))
            ∙ under active)
          db.items h.items;
  }

  pub update_meeting-IsLinked :
      (i : ℕ) (fields : List MeetingField) (user : User)
      → IsLinked (committed db (update_meeting db i fields user))
  update_meeting-IsLinked i fields user =
      if_committed IsLinked db (update_meeting db i fields user) h λ m' db' run.
        let (m, found, _, _, wrote, e) = update_meeting-ok db i fields user m' db' run in
        let kept = apply_updates-Kept fields m m' wrote in
        rw e (rewrite-IsLinked i (λ _. m') (λ a same. ground arith))

  pub approve_meeting-IsLinked :
      (now i : ℕ) (admin : User) → IsLinked (committed db (approve_meeting db now i admin))
  approve_meeting-IsLinked now i admin =
      if_committed IsLinked db (approve_meeting db now i admin) h λ m' db' run.
        let (m, _, _, _, e) = approve_meeting-ok db now i admin m' db' run in
        rw e (rewrite-IsLinked i (approve now admin) (λ a same. (refl, refl, refl)))

  pub reject_meeting-IsLinked :
      (now i : ℕ) (admin : User) (reason : String)
      → IsLinked (committed db (reject_meeting db now i admin reason))
  reject_meeting-IsLinked now i admin reason =
      if_committed IsLinked db (reject_meeting db now i admin reason) h λ m' db' run.
        let (m, _, _, _, e) = reject_meeting-ok db now i admin reason m' db' run in
        rw e (rewrite-IsLinked i (reject now admin reason) (λ a same. (refl, refl, refl)))

  pub delete_meeting-IsLinked :
      (now i : ℕ) (user : User) → IsLinked (committed db (delete_meeting db now i user))
  delete_meeting-IsLinked now i user =
      if_committed IsLinked db (delete_meeting db now i user) h λ u db' run.
        let (m, found, _, e) = delete_meeting-ok db now i user u db' run in
        rw e (record {
          meetings =
              All-write (UnderBody db.bodies) (meeting_at i) (mark_deleted now) db.meetings
                (λ a same under active. cc) h.meetings;
          items =
              All-modify-rest (UnderMeeting db.meetings)
                (UnderMeeting (write (meeting_at i) (mark_deleted now) db.meetings)) (item_of i)
                (mark_item now) db.items (λ a here under active. cc)
                (λ a other under active.
                  exists_where-write (meeting_at a.meeting_id) (meeting_at i) (mark_deleted now)
                    db.meetings
                    (λ m same. ground (arith, find-pass (meeting_at i) db.meetings same))
                  ∙ under active)
                h.items;
        })
