-- ===== src/Meetings/Agenda.antt =====
-- services/agenda_item_service.py
pub mod Runs
pub mod Flush
pub mod Orders
pub mod Reorder
use Prim.Native.Nat.{max}
use voter_api.Prelude.{
  ℕ, zero, suc, String, Bool, true, false, not, ◌&&◌, ◌||◌, Option, none, some, List, [], ◌∷◌, ◌++◌,
  map, ◌+◌, ◌*◌, ◌==◌, leb, contains, is_none, is_some, is_eq, if◌then◌else◌, select, find, modify,
  write, count_where, exists_where, sort_by, Result, ok, err, ◌>>=◌, ◌>>◌, guard, or_raise,
}
use voter_api.Meetings.Db.{
  Db, AgendaItem, Disposition, Error, meeting_at, item_at, not_found, duplicate, duplicate_ids,
  missing_items, parent_not_found, integrity_error, out_of_range,
}

-- `_ORDER_GAP`
abbrev pub order_gap : ℕ
order_gap = 10

-- the range of the column display_order, an INTEGER of 32 bits
abbrev pub int4_max : ℕ
int4_max = 2147483647

-- the active items of a meeting
abbrev pub in_meeting : ℕ → AgendaItem → Bool
in_meeting i a = a.meeting_id == i && is_none a.deleted_at

abbrev pub earlier : AgendaItem → AgendaItem → Bool
earlier a b = leb a.display_order b.display_order

abbrev pub item_in : ℕ → ℕ → AgendaItem → Bool
item_in i k a = a.id == k && in_meeting i a

-- `_require_meeting`
abbrev pub require_meeting : Db → ℕ → Result Error (Unit {0})
require_meeting db i = guard (is_some (find (meeting_at i) db.meetings)) not_found

unfoldable pub list_items : Db → ℕ → Result Error (List AgendaItem)
list_items db i = do require_meeting db i; ok (sort_by earlier (select (in_meeting i) db.items))

unfoldable pub get_item : Db → ℕ → ℕ → Option AgendaItem
get_item db i k = find (item_in i k) db.items

unfoldable pub get_item_child_counts : Db → ℕ → ℕ × ℕ
get_item_child_counts db k = (
  count_where (λ a. is_eq a.agenda_item_id k && is_none a.deleted_at) db.attachments,
  count_where (λ e. is_eq e.agenda_item_id k && is_none e.deleted_at) db.embeds,
)

pub record ItemCreate : Type 0 where
  pub title : String
  pub description : Option String
  pub action_taken : Option String
  pub disposition : Option Disposition
  pub display_order : Option ℕ

-- `func.max(AgendaItem.display_order)` or 0, where there is no row
abbrev pub max_order : ℕ → List AgendaItem → ℕ
max_order i [] = 0
max_order i (a ∷ rows) =
    let rest = max_order i rows in if in_meeting i a then max a.display_order rest else rest

abbrev pub chosen_order : ℕ → List AgendaItem → Option ℕ → ℕ
chosen_order i rows (some n) = n
chosen_order i rows none = max_order i rows + order_gap

-- the key of the partial unique index `uq_agenda_item_meeting_order`
abbrev pub at_order : ℕ → ℕ → AgendaItem → Bool
at_order i n a = in_meeting i a && a.display_order == n

abbrev pub new_item : ℕ → ℕ → ItemCreate → ℕ → AgendaItem
new_item fresh i values order = record {
  id = fresh;
  meeting_id = i;
  title = values.title;
  description = values.description;
  action_taken = values.action_taken;
  disposition = values.disposition;
  display_order = order;
  deleted_at = none;
}

unfoldable pub create_item : Db → ℕ → ℕ → ItemCreate → Result Error (AgendaItem × Db)
create_item db fresh i values = do
  require_meeting db i
  let order = chosen_order i db.items values.display_order
  guard (leb order int4_max) out_of_range
  guard (not (exists_where (at_order i order) db.items)) duplicate
  let item = new_item fresh i values order
  ok (item, record db { items = db.items ++ item ∷ [] })

pub data ItemField : Type 0 where
  title : Option String → ItemField
  description : Option String → ItemField
  action_taken : Option String → ItemField
  disposition : Option Disposition → ItemField
  meeting_id : Option ℕ → ItemField
  display_order : Option ℕ → ItemField
  deleted_at : Option ℕ → ItemField

-- `_UPDATABLE_FIELDS`
abbrev pub is_updatable : ItemField → Bool
is_updatable (title v) = true
is_updatable (description v) = true
is_updatable (action_taken v) = true
is_updatable (disposition v) = true
is_updatable _ = false

-- None in a NOT NULL column is refused by the database at the commit.
abbrev pub setattr : ItemField → AgendaItem → Result Error AgendaItem
setattr (title v) a = do t ← or_raise v integrity_error; ok (record a { title = t })
setattr (description v) a = ok (record a { description = v })
setattr (action_taken v) a = ok (record a { action_taken = v })
setattr (disposition v) a = ok (record a { disposition = v })
setattr (meeting_id v) a = do i ← or_raise v integrity_error; ok (record a { meeting_id = i })
setattr (display_order v) a = do n ← or_raise v integrity_error; ok (record a { display_order = n })
setattr (deleted_at v) a = ok (record a { deleted_at = v })

-- the body of the loop over `data.items()`
unfoldable pub write_field : ItemField → AgendaItem → Result Error AgendaItem
write_field f a = if is_updatable f then setattr f a else ok a

unfoldable pub apply_updates : List ItemField → AgendaItem → Result Error AgendaItem
apply_updates [] a = ok a
apply_updates (f ∷ fs) a = do a' ← write_field f a; apply_updates fs a'

unfoldable pub update_item : Db → ℕ → ℕ → List ItemField → Result Error (AgendaItem × Db)
update_item db i k fields = do
  a ← or_raise (get_item db i k) not_found
  a' ← apply_updates fields a
  ok (a', record db { items = write (item_in i k) (λ _. a') db.items })

-- `item.deleted_at = now`, and the same for each active child of the item
abbrev pub mark_deleted : ℕ → AgendaItem → AgendaItem
mark_deleted now a = record a { deleted_at = some now }

abbrev pub cascade_delete : ℕ → ℕ → ℕ → Db → Db
cascade_delete now i k db = record db {
  items = write (item_in i k) (mark_deleted now) db.items;
  attachments =
      modify (λ a. is_eq a.agenda_item_id k && is_none a.deleted_at)
        (λ a. record a { deleted_at = some now }) db.attachments;
  embeds =
      modify (λ e. is_eq e.agenda_item_id k && is_none e.deleted_at)
        (λ e. record e { deleted_at = some now }) db.embeds;
}

unfoldable pub delete_item : Db → ℕ → ℕ → ℕ → Result Error (Unit {0} × Db)
delete_item db now i k = do
  a ← or_raise (get_item db i k) not_found
  ok (tt, cascade_delete now i k db)

-- `len(item_ids) != len(set(item_ids))`
abbrev pub has_duplicates : List ℕ → Bool
has_duplicates [] = false
has_duplicates (k ∷ ks) = contains k ks || has_duplicates ks

abbrev pub all_in : List ℕ → List ℕ → Bool
all_in [] known = true
all_in (k ∷ ks) known = contains k known && all_in ks known

-- the keys of `existing_items`
abbrev pub item_ids : ℕ → List AgendaItem → List ℕ
item_ids i rows = map (λ (a : AgendaItem). a.id) (select (in_meeting i) rows)

-- A write that the unit of work has to make: the item, and its new display_order.
pub record OrderUpdate : Type 0 where
  pub item : ℕ
  pub order : ℕ

-- `for idx, item_id in enumerate(item_ids)` from `idx`: (idx + 1) * _ORDER_GAP
abbrev pub assignments : ℕ → List ℕ → List OrderUpdate
assignments idx [] = []
assignments idx (k ∷ ks) =
    record { item = k; order = (idx + 1) * order_gap } ∷ assignments (idx + 1) ks

-- Only an attribute whose value changes is written.
abbrev pub is_change : ℕ → List AgendaItem → OrderUpdate → Bool
is_change i rows u = elim (find (item_in i u.item) rows) [
  | none ↦ false
  | some a ↦ not (a.display_order == u.order)
]

abbrev pub changes : ℕ → List AgendaItem → List ℕ → List OrderUpdate
changes i rows ids = select (is_change i rows) (assignments 0 ids)

abbrev pub set_order : ℕ → AgendaItem → AgendaItem
set_order n a = record a { display_order = n }

-- One UPDATE. The unique index is not deferrable, so the table is held to it at once.
unfoldable pub write_order : ℕ → OrderUpdate → List AgendaItem → Result Error (List AgendaItem)
write_order i u rows =
    let rows' = write (item_in i u.item) (set_order u.order) rows in
    if leb (count_where (at_order i u.order) rows') 1 then ok rows' else err integrity_error

unfoldable pub flush : ℕ → List OrderUpdate → List AgendaItem → Result Error (List AgendaItem)
flush i [] rows = ok rows
flush i (u ∷ us) rows = do rows' ← write_order i u rows; flush i us rows'

-- `flush_order` is the order in which SQLAlchemy emits the UPDATE statements of one flush.
module _ (flush_order : List OrderUpdate → List OrderUpdate) where
  unfoldable pub reorder_items : Db → ℕ → List ℕ → Result Error (List AgendaItem × Db)
  reorder_items db i ids = do
    require_meeting db i
    let existing = item_ids i db.items
    guard (not (has_duplicates ids)) duplicate_ids
    guard (all_in ids existing) parent_not_found
    guard (all_in existing ids) missing_items
    items ← flush i (flush_order (changes i db.items ids)) db.items
    let db' = record db { items = items }
    reordered ← list_items db' i
    ok (reordered, db')

unfoldable pub require_agenda_item_in_meeting : Db → ℕ → ℕ → Result Error (Unit {0})
require_agenda_item_in_meeting db i k = guard (is_some (get_item db i k)) parent_not_found
