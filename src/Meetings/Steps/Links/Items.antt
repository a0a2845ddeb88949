-- ===== src/Meetings/Steps/Links/Items.antt =====
-- The links between the tables under the handlers of services/agenda_item_service.py.
use voter_api.Prelude.{
  ℕ, List, [], ◌∷◌, arith, find-exists, All-append, All-write, committed, if_committed,
}
use voter_api.Meetings.Db.{Db, meeting_at}
use voter_api.Meetings.Agenda.{
  ItemCreate, ItemField, OrderUpdate, create_item, update_item, delete_item, reorder_items, item_in,
  mark_deleted, changes,
}
use voter_api.Meetings.Agenda.Runs.{
  create_item-ok, update_item-ok, delete_item-ok, reorder_items-ok, apply_updates-Kept,
}
use voter_api.Meetings.Agenda.Flush.{All-flush}
use voter_api.Meetings.Steps.Links.{UnderMeeting, IsLinked}

module _ (db : Db) (h : IsLinked db) where
  pub create_item-IsLinked :
      (fresh i : ℕ) (values : ItemCreate) → IsLinked (committed db (create_item db fresh i values))
  create_item-IsLinked fresh i values =
      if_committed IsLinked db (create_item db fresh i values) h λ a db' run.
        let (there, _, same, e) = create_item-ok db fresh i values a db' run in
        rw e (record {
          meetings = h.meetings;
          items =
              All-append (UnderMeeting db.meetings) db.items (a ∷ []) h.items
                (λ active. ground (arith, find-exists (meeting_at i) db.meetings), tt);
        })

  pub update_item-IsLinked :
      (i k : ℕ) (fields : List ItemField) → IsLinked (committed db (update_item db i k fields))
  update_item-IsLinked i k fields =
      if_committed IsLinked db (update_item db i k fields) h λ a' db' run.
        let (a, found, wrote, e) = update_item-ok db i k fields a' db' run in
        let kept = apply_updates-Kept fields a a' wrote in
        rw e (record {
          meetings = h.meetings;
          items =
              All-write (UnderMeeting db.meetings) (item_in i k) (λ _. a') db.items
                (λ b same under active. ground arith) h.items;
        })

  pub delete_item-IsLinked : (now i k : ℕ) → IsLinked (committed db (delete_item db now i k))
  delete_item-IsLinked now i k = if_committed IsLinked db (delete_item db now i k) h λ u db' run.
      let (a, found, e) = delete_item-ok db now i k u db' run in
      rw e (record {
        meetings = h.meetings;
        items =
            All-write (UnderMeeting db.meetings) (item_in i k) (mark_deleted now) db.items
              (λ b same under active. cc) h.items;
      })

  pub reorder_items-IsLinked :
      (flush_order : List OrderUpdate → List OrderUpdate) (i : ℕ) (ids : List ℕ)
      → IsLinked (committed db (reorder_items flush_order db i ids))
  reorder_items-IsLinked flush_order i ids =
      if_committed IsLinked db (reorder_items flush_order db i ids) h λ listed db' run.
        let (items, _, _, _, _, wrote, _, e) =
          reorder_items-ok db flush_order i ids listed db' run in
        rw e (record {
          meetings = h.meetings;
          items =
              All-flush (UnderMeeting db.meetings) (λ a n under. under) i
                (flush_order (changes i db.items ids)) db.items items wrote h.items;
        })
