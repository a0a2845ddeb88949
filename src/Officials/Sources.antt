-- ===== src/Officials/Sources.antt =====
-- `upsert_source_records` of services/elected_official_service.py: the rows under the keys of the
-- records of a fetch.
use text.Mathlib.TextEquality.{eq_iff}
use text.Mathlib.TextPositions.{eq_refl}
use voter_api.Prelude.{
  ℕ, String, ◌≡◌, refl, ◌⊎◌, inl, inr, Bool, true, ◌&&◌, none, some, List, [], ◌∷◌, ◌++◌, arith,
  find, find-pass, find-write, write, exists_where, exists_where-append, exists_where-append_right,
  exists_where-write_imp, exists_where-found, count_where, count_where-exists, count_where-none,
  count_where-imp_le, All, All-imp, IsKey, IsKey-append, IsKey-write, ok, >>=-eq-ok, Option-cases,
}
use voter_api.Officials.Db.{Db, ElectedOfficialSource, OfficialRecord, has_key}
use voter_api.Officials.Service.{upsert_record, upsert_source_records}

abbrev pub UniqueSources : List ElectedOfficialSource → Type 0
UniqueSources sources = (n r : String) → IsKey (has_key n r) sources

-- a row under the key of the record, that is current
abbrev pub is_stored : OfficialRecord → ElectedOfficialSource → Bool
is_stored rec s = has_key rec.source_name rec.source_record_id s && s.is_current

-- What one turn of the loop does to the table, for any key.
record IsUpserted (rec : OfficialRecord) (before after : List ElectedOfficialSource) : Type 0 where
  unique : UniqueSources before → UniqueSources after
  stored : exists_where (is_stored rec) after ≡ true
  keeps :
      (other : OfficialRecord)
      → exists_where (is_stored other) before ≡ true
      → exists_where (is_stored other) after ≡ true

module _ (upper : String → String) where
  -- the row that is written, or that is new
  upsert_record-ok :
      (db : Db) (now fresh : ℕ) (rec : OfficialRecord) (s : ElectedOfficialSource) (db' : Db)
      → upsert_record upper db now fresh rec ≡ ok (s, db')
      → (has_key rec.source_name rec.source_record_id s ≡ true)
        × (s.is_current ≡ true)
        × (db'.officials ≡ db.officials)
        × (((db'.sources ≡ db.sources ++ s ∷ [])
              × (find (has_key rec.source_name rec.source_record_id) db.sources ≡ none))
            ⊎ ((old : ElectedOfficialSource) × (find
                    (has_key rec.source_name rec.source_record_id)
                    db.sources
                  ≡ some old)
                × (s.source_name ≡ old.source_name)
                × (s.source_record_id ≡ old.source_record_id)
                × (db'.sources
                    ≡ write (has_key rec.source_name rec.source_record_id) (λ _. s) db.sources)))
  unfolding upsert_record
  upsert_record-ok db now fresh rec s db' h =
      elim (Option-cases (find (has_key rec.source_name rec.source_record_id) db.sources)) [
        | inl e ↦
            let own : has_key rec.source_name rec.source_record_id s ≡ true =
              ground (arith, eq_refl rec.source_name, eq_refl rec.source_record_id) in
            (own, ground arith, ground arith, inl (ground arith, e))
        | inr (old, e) ↦
            let was = find-pass (has_key rec.source_name rec.source_record_id) db.sources e in
            let own : has_key rec.source_name rec.source_record_id s ≡ true = ground arith in
            (
              own,
              ground arith,
              ground arith,
              inr (old, e, ground arith, ground arith, ground arith),
            )
      ]

-- two keys of one row are the same key
pub same_key :
    (n r m q : String) (s t : ElectedOfficialSource)
    → has_key n r s ≡ true
    → has_key m q s ≡ true
    → has_key m q t ≡ true
    → has_key n r t ≡ true
same_key n r m q s t h k l =
    let a = (eq_iff s.source_name n).0 (ground arith) in
    let b = (eq_iff s.source_name m).0 (ground arith) in
    let c = (eq_iff s.source_record_id r).0 (ground arith) in
    let d = (eq_iff s.source_record_id q).0 (ground arith) in rw (← a, b, ← c, d) l

module _ (upper : String → String) where
  upsert_record-IsUpserted :
      (db : Db) (now fresh : ℕ) (rec : OfficialRecord) (s : ElectedOfficialSource) (db' : Db)
      → upsert_record upper db now fresh rec ≡ ok (s, db')
      → IsUpserted rec db.sources db'.sources
  upsert_record-IsUpserted db now fresh rec s db' h =
      let key = has_key rec.source_name rec.source_record_id in
      let (own, current, _, wrote) = upsert_record-ok upper db now fresh rec s db' h in
      let is_new : is_stored rec s ≡ true = rw (own, current) refl in
      elim wrote [
        | inl (e, free) ↦
            let here : exists_where (is_stored rec) (s ∷ []) ≡ true = rw is_new refl in
            rw e (record {
              unique = λ u n r.
                  IsKey-append (has_key n r) db.sources s
                    (λ p.
                      count_where-none key (has_key n r) db.sources
                        (λ t l. same_key rec.source_name rec.source_record_id n r s t own p l) free)
                    (u n r);
              stored = exists_where-append_right (is_stored rec) db.sources (s ∷ []) here;
              keeps =
                  λ other there. exists_where-append (is_stored other) db.sources (s ∷ []) there;
            })
        | inr (old, found, same_name, same_id, e) ↦ rw e (record {
          unique = λ u n r.
              IsKey-write (has_key n r) key (λ _. s) db.sources (λ a is_a p. inl (ground arith))
                (u n r);
          stored =
              exists_where-found (is_stored rec) key (write key (λ _. s) db.sources)
                (find-write key (λ _. s) db.sources (λ a p. own) found) is_new;
          keeps = λ other there.
              exists_where-write_imp (is_stored other) key (λ _. s) db.sources
                (λ a is_a p. ground arith) there;
        })
      ]

  -- what the loop has done to the table
  record AreUpserted (records : List (ℕ × OfficialRecord))
      (before after : List ElectedOfficialSource) : Type 0 where
    unique : UniqueSources before → UniqueSources after
    stored : All (λ (r : ℕ × OfficialRecord). exists_where (is_stored r.1) after ≡ true) records
    keeps :
        (other : OfficialRecord)
        → exists_where (is_stored other) before ≡ true
        → exists_where (is_stored other) after ≡ true

  all_upserted :
      (records : List (ℕ × OfficialRecord)) (db : Db) (now : ℕ) (rows : List ElectedOfficialSource)
      (db' : Db)
      → upsert_source_records upper db now records ≡ ok (rows, db')
      → AreUpserted records db.sources db'.sources
  unfolding upsert_source_records
  all_upserted [] db now rows db' h =
      let same : db ≡ db' = ground arith in
      rw (← same) (record { unique = λ u. u; stored = tt; keeps = λ other there. there })
  all_upserted ((fresh, rec) ∷ rest) db now rows db' h =
      let ((s, mid), first, next) = >>=-eq-ok (upsert_record upper db now fresh rec) _ h in
      let ((others, last), run, end) =
        >>=-eq-ok (upsert_source_records upper mid now rest) _ next in
      let same : last ≡ db' = ground arith in
      let one = upsert_record-IsUpserted db now fresh rec s mid first in
      let ih = all_upserted rest mid now others last run in
      rw (← same) (record {
        unique = λ u. ih.unique (one.unique u);
        stored = (ih.keeps rec one.stored, ih.stored);
        keeps = λ other there. ih.keeps other (one.keeps other there);
      })

  -- From a table in which no two sources have the same provider and record id, a fetch that is stored
  -- leads to one in which this still holds, and in which each record of the fetch has exactly one row
  -- under its key, which is current.
  pub upsert_source_records-stored :
      (records : List (ℕ × OfficialRecord)) (db : Db) (now : ℕ) (rows : List ElectedOfficialSource)
      (db' : Db)
      → UniqueSources db.sources
      → upsert_source_records upper db now records ≡ ok (rows, db')
      → UniqueSources db'.sources
        × All
            (λ (r : ℕ × OfficialRecord).
              (count_where (has_key r.1.source_name r.1.source_record_id) db'.sources ≡ 1)
              × (exists_where (is_stored r.1) db'.sources ≡ true))
            records
  upsert_source_records-stored records db now rows db' u h =
      let all = all_upserted records db now rows db' h in
      let unique = all.unique u in
      (
        unique,
        All-imp (λ (r : ℕ × OfficialRecord). exists_where (is_stored r.1) db'.sources ≡ true)
            (λ (r : ℕ × OfficialRecord).
              (count_where (has_key r.1.source_name r.1.source_record_id) db'.sources ≡ 1)
              × (exists_where (is_stored r.1) db'.sources ≡ true))
            (λ r there.
              let some_row = (count_where-exists (is_stored r.1) db'.sources).1 there in
              let more =
                count_where-imp_le (is_stored r.1) (has_key r.1.source_name r.1.source_record_id)
                  db'.sources (λ t p. ground arith) in
              let most = unique r.1.source_name r.1.source_record_id in (omega arith, there))
            records all.stored,
      )
