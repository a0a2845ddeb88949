-- ===== src/Meetings/Agenda/Orders.antt =====
-- The orders of agenda items: where a new item is put, and the partial unique index.
use voter_api.Prelude.{
  ℕ, ◌+◌, ◌≤◌, ◌<◌, ◌≡◌, refl, true, false, none, List, [], ◌∷◌, ◌++◌, arith, is_some, find,
  exists_where, All, All-imp, ok,
}
use voter_api.Meetings.Db.{Db, AgendaItem, meeting_at}
use voter_api.Meetings.Agenda.{
  ItemCreate, create_item, new_item, max_order, order_gap, int4_max, in_meeting, at_order,
}

max_order-bounds :
    (i : ℕ) (rows : List AgendaItem)
    → All (λ a. in_meeting i a ≡ true → a.display_order ≤ max_order i rows) rows
max_order-bounds i [] = tt
max_order-bounds i (a ∷ rows) = (
  λ h. ground arith,
  All-imp (λ b. in_meeting i b ≡ true → b.display_order ≤ max_order i rows)
      (λ b. in_meeting i b ≡ true → b.display_order ≤ max_order i (a ∷ rows))
      (λ b h k. let le = h k in ground arith) rows (max_order-bounds i rows),
)

max_order-free :
    (i n : ℕ) (rows : List AgendaItem)
    → All (λ a. in_meeting i a ≡ true → a.display_order < n) rows
    → exists_where (at_order i n) rows ≡ false
max_order-free i n [] h = refl
max_order-free i n (a ∷ rows) h = ground (arith, h.0, max_order-free i n rows h.1)

-- An item that is created without an order goes behind every active item of its meeting: where the
-- meeting is active and the order fits the column, the request succeeds, and the new item has an
-- order above all of theirs.
pub create_item-appends :
    (db : Db) (fresh i : ℕ) (values : ItemCreate)
    → is_some (find (meeting_at i) db.meetings) ≡ true
    → values.display_order ≡ none
    → max_order i db.items + order_gap ≤ int4_max
    → let item = new_item fresh i values (max_order i db.items + order_gap) in
      (create_item db fresh i values ≡ ok (item, record db { items = db.items ++ item ∷ [] }))
      × All (λ a. in_meeting i a ≡ true → a.display_order < item.display_order) db.items
unfolding create_item
create_item-appends db fresh i values there unset fits =
    let n = max_order i db.items + order_gap in
    let below =
      All-imp (λ a. in_meeting i a ≡ true → a.display_order ≤ max_order i db.items)
        (λ a. in_meeting i a ≡ true → a.display_order < n) (λ a h k. omega (arith, h k)) db.items
        (max_order-bounds i db.items) in
    let free = max_order-free i n db.items below in (rw (there, unset) (ground arith), below)
