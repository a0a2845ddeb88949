-- ===== src/Meetings/Bodies/Runs.antt =====
-- When a write handler of services/governing_body_service.py succeeds, and what it then commits.
use voter_api.Prelude.{
  ℕ, String, ◌≡◌, true, false, Option, some, List, [], ◌∷◌, ◌++◌, arith, find, write, exists_where,
  contains, ok, >>=-eq-ok,
}
use voter_api.Meetings.Db.{Db, GoverningBody, body_at}
use voter_api.Meetings.Bodies.{
  BodyField, new_body, create_body, write_field, apply_updates, update_body, delete_body, get_body,
  get_meeting_count, mark_deleted, clashes,
}

module _ (db : Db) where
  pub create_body-ok :
      (fresh : ℕ) (n : String) (t : ℕ) (j : String) (d w : Option String) (b : GoverningBody)
      (db' : Db)
      → create_body db fresh n t j d w ≡ ok (b, db')
      → (b ≡ new_body fresh n t j d w)
        × (contains t db.body_types ≡ true)
        × (exists_where (clashes b) db.bodies ≡ false)
        × (db' ≡ record db { bodies = db.bodies ++ b ∷ [] })
  unfolding create_body
  create_body-ok fresh n t j d w b db' h = ground arith

  pub update_body-ok :
      (i : ℕ) (fields : List BodyField) (b' : GoverningBody) (db' : Db)
      → update_body db i fields ≡ ok (b', db')
      → (b : GoverningBody) × (find (body_at i) db.bodies ≡ some b)
        × (apply_updates fields b ≡ ok b')
        × (exists_where (clashes b') db.bodies ≡ false)
        × (db' ≡ record db { bodies = write (body_at i) (λ _. b') db.bodies })
  unfolding update_body get_body
  update_body-ok i fields b' db' h = ground arith

  pub delete_body-ok :
      (now i : ℕ) (u : Unit {0}) (db' : Db)
      → delete_body db now i ≡ ok (u, db')
      → (b : GoverningBody) × (find (body_at i) db.bodies ≡ some b)
        × (get_meeting_count db i ≡ 0)
        × (db' ≡ record db { bodies = write (body_at i) (mark_deleted now) db.bodies })
  unfolding delete_body get_body
  delete_body-ok now i u db' h = ground arith

-- What the loop over the new values leaves alone.
pub record Kept (a b : GoverningBody) : Type 0 where
  pub id : a.id ≡ b.id
  pub deleted : a.deleted_at ≡ b.deleted_at

write_field-Kept : (f : BodyField) (b b' : GoverningBody) → write_field f b ≡ ok b' → Kept b b'
unfolding write_field
write_field-Kept f b b' h = ground arith

Kept-trans : (a b c : GoverningBody) → Kept a b → Kept b c → Kept a c
Kept-trans a b c h k = ground arith

pub apply_updates-Kept :
    (fields : List BodyField) (b b' : GoverningBody) → apply_updates fields b ≡ ok b' → Kept b b'
unfolding apply_updates
apply_updates-Kept [] b b' h = ground arith
apply_updates-Kept (f ∷ fs) b b' h =
    let (c, first, rest) = >>=-eq-ok (write_field f b) (apply_updates fs) h in
    Kept-trans b c b' (write_field-Kept f b c first) (apply_updates-Kept fs c b' rest)
