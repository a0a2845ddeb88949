-- ===== src/Officials/Approval.antt =====
-- `approve_official` of services/elected_official_service.py.
use voter_api.Prelude.{
  ℕ, ◌≡◌, refl, ◌⊎◌, inl, inr, Option, none, some, arith, find, find-pass, write, Extends,
  Extends-write, ok, >>=-eq-ok,
}
use voter_api.Officials.Db.{Db, ElectedOfficial, ElectedOfficialSource, official_at, source_at}
use voter_api.Officials.Service.{approve_official, approve, promote, promoted}

-- the official as it is approved: as it was, or with the fields of one of its own sources
abbrev pub IsPromoted : Db → ElectedOfficial → Option ℕ → ElectedOfficial → Type 0
IsPromoted db official none o = o ≡ official
IsPromoted db official (some k) o =
    (s : ElectedOfficialSource) × (find (source_at k) db.sources ≡ some s)
    × (s.elected_official_id ≡ some official.id)
    × (o ≡ promote s official)

promoted-IsPromoted :
    (db : Db) (official : ElectedOfficial) (source_id : Option ℕ) (o : ElectedOfficial)
    → promoted db official source_id ≡ ok o
    → IsPromoted db official source_id o
promoted-IsPromoted db official none o h = ground arith
promoted-IsPromoted db official (some k) o h = ground arith

-- a row of another official stays
abbrev pub IsOther : ℕ → ElectedOfficial → ElectedOfficial → Type 0
IsOther i a b = (a.id ≡ i) ⊎ (a ≡ b)

-- An approval that succeeds returns the official as it was, or where a source is given, with the
-- name and the details of that source, which must be one of the official's own; marked as approved,
-- with the admin and the instant. No source changes, and no other official.
pub approve_official-promotes :
    (db : Db) (now admin_id : ℕ) (official : ElectedOfficial) (source_id : Option ℕ)
    (o' : ElectedOfficial) (db' : Db)
    → approve_official db now official admin_id source_id ≡ ok (o', db')
    → (o : ElectedOfficial) × IsPromoted db official source_id o
      × (o' ≡ approve now admin_id o)
      × (db'.sources ≡ db.sources)
      × Extends (IsOther official.id) db.officials db'.officials
unfolding approve_official
approve_official-promotes db now admin_id official source_id o' db' h =
    let (o, first, next) = >>=-eq-ok (promoted db official source_id) _ h in
    let is_o : o' ≡ approve now admin_id o = ground arith in
    let is_db : db'
        ≡ record db { officials = write (official_at official.id) (λ _. o') db.officials } =
      ground arith in
    (
      o,
      promoted-IsPromoted db official source_id o first,
      is_o,
      rw is_db refl,
      rw is_db (
          Extends-write (IsOther official.id) (λ a. inr refl) (official_at official.id) (λ _. o')
            db.officials
            (λ a found.
              inl (ground (arith, find-pass (official_at official.id) db.officials found)))),
    )
