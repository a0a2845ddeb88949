-- ===== src/Meetings/Agenda/Flush.antt =====
-- What a flush of new orders of `reorder_items` leaves alone.
use voter_api.Prelude.{ℕ, ◌≡◌, List, [], ◌∷◌, arith, write, All, All-write, ok, >>=-eq-ok}
use voter_api.Meetings.Db.{AgendaItem}
use voter_api.Meetings.Agenda.{OrderUpdate, write_order, flush, item_in, set_order}

pub write_order-ok :
    (i : ℕ) (u : OrderUpdate) (rows rows' : List AgendaItem)
    → write_order i u rows ≡ ok rows'
    → rows' ≡ write (item_in i u.item) (set_order u.order) rows
unfolding write_order
write_order-ok i u rows rows' h = ground arith

-- What holds of a row at any order holds of every row after a flush.
pub All-flush :
    (P : AgendaItem → Type 0)
    → ((a : AgendaItem) (n : ℕ) → P a → P (set_order n a))
    → (i : ℕ) (us : List OrderUpdate) (rows rows' : List AgendaItem) → flush i us rows ≡ ok rows'
    → All P rows
    → All P rows'
unfolding flush
All-flush P keep i [] rows rows' h all = let e : rows ≡ rows' = cc in rw e at all
All-flush P keep i (u ∷ us) rows rows' h all =
    let (mid, first, rest) = >>=-eq-ok (write_order i u rows) (flush i us) h in
    All-flush P keep i us mid rows' rest (
      rw (write_order-ok i u rows mid first)
        (All-write P (item_in i u.item) (set_order u.order) rows (λ a found. keep a u.order) all))
