-- ===== src/Meetings/Agenda/Reorder.antt =====
-- `reorder_items` on an agenda whose orders are all taken.
use mathlib.Core.List.{Permᴰ}
use voter_api.Prelude.{
  All-Permᴰ, ℕ, ◌≡◌, ◌≢◌, refl, true, false, List, [], ◌∷◌, arith, is_some, find, find-pass,
  exists_where, count_where-exists, count_where-write, All, All-select, select-pass, err,
  Option-cases, inl, inr,
}
use voter_api.Meetings.Db.{Db, AgendaItem, meeting_at, integrity_error}
use voter_api.Meetings.Agenda.{
  OrderUpdate, reorder_items, item_in, at_order, write_order, flush, set_order, is_change, changes,
  assignments, has_duplicates, all_in, item_ids,
}

-- The order that an update asks for is held by an active item of the meeting.
abbrev pub IsTaken : ℕ → List AgendaItem → OrderUpdate → Type 0
IsTaken i rows u = exists_where (at_order i u.order) rows ≡ true

write_order-taken :
    (i : ℕ) (u : OrderUpdate) (rows : List AgendaItem)
    → is_change i rows u ≡ true
    → IsTaken i rows u
    → write_order i u rows ≡ err integrity_error
unfolding write_order
write_order-taken i u rows change taken = elim (Option-cases (find (item_in i u.item) rows)) [
  | inl e ↦ absurd (ground arith)
  | inr (a, e) ↦
      let held = (count_where-exists (at_order i u.order) rows).1 taken in
      let more =
        count_where-write (at_order i u.order) (item_in i u.item) (set_order u.order) rows e in
      let here = find-pass (item_in i u.item) rows e in ground arith
]

flush-taken :
    (i : ℕ) (us : List OrderUpdate) (rows : List AgendaItem)
    → us ≢ []
    → All (λ u. is_change i rows u ≡ true) us
    → All (IsTaken i rows) us
    → flush i us rows ≡ err integrity_error
unfolding flush
flush-taken i [] rows some_update changed taken = absurd (some_update refl)
flush-taken i (u ∷ us) rows some_update changed taken =
    rw (write_order-taken i u rows changed.0 taken.0)

Permᴰ-nil : {us vs : List OrderUpdate} → Permᴰ us vs → us ≡ [] → vs ≡ []
Permᴰ-nil Permᴰ.nil e = refl
Permᴰ-nil (Permᴰ.cons p q) e = cc
Permᴰ-nil (Permᴰ.swap p q) e = cc
Permᴰ-nil (Permᴰ.trans p q) e = Permᴰ-nil q (Permᴰ-nil p e)

-- A reorder that is valid (the meeting is active, the ids are without duplicates and are the ids of
-- all active items of the meeting), that moves some item, and whose new orders are all held by
-- active items of the meeting, as they are in an agenda that was built by appending, raises the
-- IntegrityError of the unique index, in whatever order the flush writes the rows.
pub reorder_items-taken :
    (flush_order : List OrderUpdate → List OrderUpdate)
    → ((us : List OrderUpdate) → Permᴰ (flush_order us) us)
    → (db : Db) (i : ℕ) (ids : List ℕ) → is_some (find (meeting_at i) db.meetings) ≡ true
    → has_duplicates ids ≡ false
    → all_in ids (item_ids i db.items) ≡ true
    → all_in (item_ids i db.items) ids ≡ true
    → changes i db.items ids ≢ []
    → All (IsTaken i db.items) (assignments 0 ids)
    → reorder_items flush_order db i ids ≡ err integrity_error
unfolding reorder_items
reorder_items-taken flush_order permutes db i ids there single known complete moves taken =
    let us = changes i db.items ids in
    let perm = permutes us in
    let fails =
      flush-taken i (flush_order us) db.items (λ e. moves (Permᴰ-nil perm e))
        (All-Permᴰ (λ u. is_change i db.items u ≡ true) perm
          (select-pass (is_change i db.items) (assignments 0 ids)))
        (All-Permᴰ (IsTaken i db.items) perm
          (All-select (IsTaken i db.items) (is_change i db.items) (assignments 0 ids) taken)) in
    rw (there, single, known, complete, fails)
