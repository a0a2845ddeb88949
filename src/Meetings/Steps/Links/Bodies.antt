-- ===== src/Meetings/Steps/Links/Bodies.antt =====
-- The links between the tables under the handlers of services/governing_body_service.py.
use voter_api.Prelude.{
  ℕ, String, ◌≡◌, ◌∙◌, Bool, false, ◌&&◌, Option, List, [], ◌∷◌, ◌++◌, arith, ◌==◌, is_none,
  find-pass, write, exists_where-write, exists_where-append, count_where-zero, All, All-imp,
  All-imp₂, committed, if_committed,
}
use voter_api.Meetings.Db.{Db, Meeting, body_at}
use voter_api.Meetings.Bodies
use voter_api.Meetings.Bodies.{BodyField, create_body, update_body, delete_body, get_meeting_count}
use voter_api.Meetings.Bodies.Runs.{create_body-ok, update_body-ok, delete_body-ok}
use voter_api.Meetings.Bodies.Runs
use voter_api.Meetings.Steps.Links.{UnderBody, IsLinked}

abbrev at_body : ℕ → Meeting → Bool
at_body i m = m.governing_body_id == i && is_none m.deleted_at

none_at_body :
    (db : Db) (i : ℕ) → get_meeting_count db i ≡ 0 → All (λ m. at_body i m ≡ false) db.meetings
unfolding get_meeting_count
none_at_body db i h = count_where-zero (at_body i) db.meetings h

module _ (db : Db) (h : IsLinked db) where
  pub create_body-IsLinked :
      (fresh : ℕ) (n : String) (t : ℕ) (j : String) (d w : Option String)
      → IsLinked (committed db (create_body db fresh n t j d w))
  create_body-IsLinked fresh n t j d w =
      if_committed IsLinked db (create_body db fresh n t j d w) h λ b db' run.
        let (_, _, _, e) = create_body-ok db fresh n t j d w b db' run in
        rw e (record {
          meetings =
              All-imp (UnderBody db.bodies) (UnderBody (db.bodies ++ b ∷ []))
                (λ m under active.
                  exists_where-append (body_at m.governing_body_id) db.bodies (b ∷ [])
                    (under active))
                db.meetings h.meetings;
          items = h.items;
        })

  pub update_body-IsLinked :
      (i : ℕ) (fields : List BodyField) → IsLinked (committed db (update_body db i fields))
  update_body-IsLinked i fields = if_committed IsLinked db (update_body db i fields) h λ b' db' run.
      let (b, found, wrote, _, e) = update_body-ok db i fields b' db' run in
      let kept = Runs.apply_updates-Kept fields b b' wrote in
      rw e (record {
        meetings =
            All-imp (UnderBody db.bodies) (UnderBody (write (body_at i) (λ _. b') db.bodies))
              (λ m under active.
                exists_where-write (body_at m.governing_body_id) (body_at i) (λ _. b') db.bodies
                  (λ a same. ground arith)
                ∙ under active)
              db.meetings h.meetings;
        items = h.items;
      })

  pub delete_body-IsLinked : (now i : ℕ) → IsLinked (committed db (delete_body db now i))
  delete_body-IsLinked now i = if_committed IsLinked db (delete_body db now i) h λ u db' run.
      let (b, found, empty, e) = delete_body-ok db now i u db' run in
      rw e (record {
        meetings =
            All-imp₂ (UnderBody db.bodies) (λ m. at_body i m ≡ false)
              (UnderBody (write (body_at i) (Bodies.mark_deleted now) db.bodies))
              (λ m under other active.
                exists_where-write (body_at m.governing_body_id) (body_at i)
                  (Bodies.mark_deleted now) db.bodies
                  (λ a same. ground (arith, find-pass (body_at i) db.bodies same))
                ∙ under active)
              db.meetings h.meetings (none_at_body db i empty);
        items = h.items;
      })
