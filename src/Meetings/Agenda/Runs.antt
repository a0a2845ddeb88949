-- ===== src/Meetings/Agenda/Runs.antt =====
-- When a write handler of services/agenda_item_service.py succeeds, and what it then commits.
use voter_api.Prelude.{
  ℕ, ◌≡◌, true, false, some, List, [], ◌∷◌, ◌++◌, arith, is_some, find, write, exists_where, ok,
  >>=-eq-ok,
}
use voter_api.Meetings.Db.{Db, AgendaItem, meeting_at}
use voter_api.Meetings.Agenda.{
  ItemCreate, ItemField, OrderUpdate, new_item, create_item, write_field, apply_updates,
  update_item, delete_item, get_item, item_in, cascade_delete, chosen_order, at_order,
  reorder_items, flush, changes, item_ids, has_duplicates, all_in, list_items,
}

module _ (db : Db) where
  pub create_item-ok :
      (fresh i : ℕ) (values : ItemCreate) (a : AgendaItem) (db' : Db)
      → create_item db fresh i values ≡ ok (a, db')
      → (is_some (find (meeting_at i) db.meetings) ≡ true)
        × (exists_where (at_order i a.display_order) db.items ≡ false)
        × (a ≡ new_item fresh i values (chosen_order i db.items values.display_order))
        × (db' ≡ record db { items = db.items ++ a ∷ [] })
  unfolding create_item
  create_item-ok fresh i values a db' h = ground arith

  pub update_item-ok :
      (i k : ℕ) (fields : List ItemField) (a' : AgendaItem) (db' : Db)
      → update_item db i k fields ≡ ok (a', db')
      → (a : AgendaItem) × (find (item_in i k) db.items ≡ some a)
        × (apply_updates fields a ≡ ok a')
        × (db' ≡ record db { items = write (item_in i k) (λ _. a') db.items })
  unfolding update_item get_item
  update_item-ok i k fields a' db' h = ground arith

  pub delete_item-ok :
      (now i k : ℕ) (u : Unit {0}) (db' : Db)
      → delete_item db now i k ≡ ok (u, db')
      → (a : AgendaItem) × (find (item_in i k) db.items ≡ some a)
        × (db' ≡ cascade_delete now i k db)
  unfolding delete_item get_item
  delete_item-ok now i k u db' h = ground arith

  pub reorder_items-ok :
      (flush_order : List OrderUpdate → List OrderUpdate) (i : ℕ) (ids : List ℕ)
      (listed : List AgendaItem) (db' : Db)
      → reorder_items flush_order db i ids ≡ ok (listed, db')
      → (items : List AgendaItem) × (is_some (find (meeting_at i) db.meetings) ≡ true)
        × (has_duplicates ids ≡ false)
        × (all_in ids (item_ids i db.items) ≡ true)
        × (all_in (item_ids i db.items) ids ≡ true)
        × (flush i (flush_order (changes i db.items ids)) db.items ≡ ok items)
        × (list_items db' i ≡ ok listed)
        × (db' ≡ record db { items = items })
  unfolding reorder_items
  reorder_items-ok flush_order i ids listed db' h = ground arith

-- What the loop over the new values leaves alone.
pub record Kept (a b : AgendaItem) : Type 0 where
  pub id : a.id ≡ b.id
  pub meeting : a.meeting_id ≡ b.meeting_id
  pub order : a.display_order ≡ b.display_order
  pub deleted : a.deleted_at ≡ b.deleted_at

write_field-Kept : (f : ItemField) (a b : AgendaItem) → write_field f a ≡ ok b → Kept a b
unfolding write_field
write_field-Kept f a b h = ground arith

Kept-trans : (a b c : AgendaItem) → Kept a b → Kept b c → Kept a c
Kept-trans a b c h k = ground arith

pub apply_updates-Kept :
    (fields : List ItemField) (a b : AgendaItem) → apply_updates fields a ≡ ok b → Kept a b
unfolding apply_updates
apply_updates-Kept [] a b h = ground arith
apply_updates-Kept (f ∷ fs) a b h =
    let (c, first, rest) = >>=-eq-ok (write_field f a) (apply_updates fs) h in
    Kept-trans a c b (write_field-Kept f a c first) (apply_updates-Kept fs c b rest)
