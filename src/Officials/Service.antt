-- ===== src/Officials/Service.antt =====
-- services/elected_official_service.py. `upper` is the database's function of that name, and `draw`
-- gives the UUID of the official that is created for a source.
use voter_api.Prelude.{
  ℕ, String, Bool, true, not, ◌&&◌, Option, none, some, List, [], ◌∷◌, ◌++◌, ◌==◌, ltb, is_none,
  is_eq, if◌then◌else◌, find, write, count_where, exists_where, Result, ok, err, ◌>>=◌, ◌>>◌, guard,
  or_raise,
}
use text.Mathlib.Text.{◌==◌ as str_eq}
use voter_api.Officials.Db.{
  Db, OfficialStatus, Details, ElectedOfficial, ElectedOfficialSource, OfficialRecord, Error,
  official_at, source_at, has_key, has_seat, already_exists, source_not_found, not_of_official,
  multiple_results, integrity_error,
}

pub record OfficialCreate : Type 0 where
  pub boundary_type : String
  pub district_identifier : String
  pub full_name : String
  pub details : Details
  pub last_election_date : Option ℕ
  pub next_election_date : Option ℕ
  pub external_ids : Option String
  pub status : OfficialStatus

abbrev pub new_official : ℕ → OfficialCreate → ElectedOfficial
new_official fresh v = record {
  id = fresh;
  boundary_type = v.boundary_type;
  district_identifier = v.district_identifier;
  full_name = v.full_name;
  details = v.details;
  last_election_date = v.last_election_date;
  next_election_date = v.next_election_date;
  external_ids = v.external_ids;
  status = v.status;
  approved_by_id = none;
  approved_at = none;
}

unfoldable pub create_official : Db → ℕ → OfficialCreate → Result Error (ElectedOfficial × Db)
create_official db fresh v = do
  guard
      (not (exists_where (has_seat v.boundary_type v.district_identifier v.full_name) db.officials))
      already_exists
  let official = new_official fresh v
  ok (official, record db { officials = db.officials ++ official ∷ [] })

-- `_promote_source_fields`
abbrev pub promote : ElectedOfficialSource → ElectedOfficial → ElectedOfficial
promote s o = record o { full_name = s.full_name; details = s.details }

abbrev pub promoted : Db → ElectedOfficial → Option ℕ → Result Error ElectedOfficial
promoted db o none = ok o
promoted db o (some k) = do
  source ← or_raise (find (source_at k) db.sources) source_not_found
  guard (is_eq source.elected_official_id o.id) not_of_official
  ok (promote source o)

abbrev pub approve : ℕ → ℕ → ElectedOfficial → ElectedOfficial
approve now admin_id o = record o {
  status = OfficialStatus.approved;
  approved_by_id = some admin_id;
  approved_at = some now;
}

-- another row with the seat and the name of this one
abbrev pub clashes : ElectedOfficial → ElectedOfficial → Bool
clashes o p = has_seat o.boundary_type o.district_identifier o.full_name p && not (p.id == o.id)

-- `official` is the row that `get_official` returned.
unfoldable pub approve_official :
    Db → ℕ → ElectedOfficial → ℕ → Option ℕ → Result Error (ElectedOfficial × Db)
approve_official db now official admin_id source_id = do
  o ← promoted db official source_id
  let o' = approve now admin_id o
  guard (not (exists_where (clashes o') db.officials)) integrity_error
  ok (o', record db { officials = write (official_at official.id) (λ _. o') db.officials })

module _ (upper : String → String) where
  abbrev pub is_match : String → String → String → ElectedOfficial → Bool
  is_match boundary_type district full_name o =
      str_eq o.boundary_type boundary_type
      && str_eq o.district_identifier district
      && str_eq (upper o.full_name) (upper full_name)

  -- `_find_matching_official`, by `scalar_one_or_none`
  unfoldable pub find_matching_official :
      List ElectedOfficial → String → String → String → Result Error (Option ElectedOfficial)
  find_matching_official officials boundary_type district full_name =
      let p = is_match boundary_type district full_name in
      if ltb 1 (count_where p officials) then err multiple_results else ok (find p officials)

  abbrev pub overwrite : ℕ → OfficialRecord → ElectedOfficialSource → ElectedOfficialSource
  overwrite now rec s = record s {
    boundary_type = rec.boundary_type;
    district_identifier = rec.district_identifier;
    full_name = rec.full_name;
    details = rec.details;
    raw_data = rec.raw_data;
    fetched_at = now;
    is_current = true;
  }

  abbrev pub new_source : ℕ → ℕ → OfficialRecord → ElectedOfficialSource
  new_source now fresh rec = record {
    id = fresh;
    elected_official_id = none;
    source_name = rec.source_name;
    source_record_id = rec.source_record_id;
    boundary_type = rec.boundary_type;
    district_identifier = rec.district_identifier;
    raw_data = rec.raw_data;
    full_name = rec.full_name;
    details = rec.details;
    fetched_at = now;
    is_current = true;
  }

  -- `if upserted[-1].elected_official_id is None`: the official to link the source to
  abbrev pub link_for :
      List ElectedOfficial → OfficialRecord → ElectedOfficialSource → Result Error (Option ℕ)
  link_for officials rec s = elim s.elected_official_id [
    | some i ↦ ok (some i)
    | none ↦ do
      official ←
          find_matching_official officials rec.boundary_type rec.district_identifier rec.full_name
      ok (elim official [ none ↦ none | some o ↦ some o.id ])
  ]

  abbrev pub link : Option ℕ → ElectedOfficialSource → ElectedOfficialSource
  link i s = record s { elected_official_id = i }

  -- one turn of the loop of `upsert_source_records`
  unfoldable pub upsert_record :
      Db → ℕ → ℕ → OfficialRecord → Result Error (ElectedOfficialSource × Db)
  upsert_record db now fresh rec =
      let key = has_key rec.source_name rec.source_record_id in
      elim (find key db.sources) [
        | some old ↦ do
          i ← link_for db.officials rec (overwrite now rec old)
          let s = link i (overwrite now rec old)
          ok (s, record db { sources = write key (λ _. s) db.sources })
        | none ↦ do
          i ← link_for db.officials rec (new_source now fresh rec)
          let s = link i (new_source now fresh rec)
          ok (s, record db { sources = db.sources ++ s ∷ [] })
      ]

  -- The records of a fetch, each with the UUID that its row draws if it is new.
  unfoldable pub upsert_source_records :
      Db → ℕ → List (ℕ × OfficialRecord) → Result Error (List ElectedOfficialSource × Db)
  upsert_source_records db now [] = ok ([], db)
  upsert_source_records db now ((fresh, rec) ∷ rest) = do
    (s, db') ← upsert_record db now fresh rec
    (upserted, db'') ← upsert_source_records db' now rest
    ok (s ∷ upserted, db'')

-- the current sources of a district that are linked to no official
abbrev pub is_unlinked : String → String → ElectedOfficialSource → Bool
is_unlinked boundary_type district s =
    str_eq s.boundary_type boundary_type
    && str_eq s.district_identifier district
    && s.is_current
    && is_none s.elected_official_id

abbrev pub official_of : ℕ → ElectedOfficialSource → ElectedOfficial
official_of fresh s = record {
  id = fresh;
  boundary_type = s.boundary_type;
  district_identifier = s.district_identifier;
  full_name = s.full_name;
  details = s.details;
  last_election_date = none;
  next_election_date = none;
  external_ids = none;
  status = OfficialStatus.auto;
  approved_by_id = none;
  approved_at = none;
}

-- What the loop of `auto_create_officials_from_sources` has: the sources that it has gone through,
-- the table of officials, and the officials that it has created.
pub record Linking : Type 0 where
  pub sources : List ElectedOfficialSource
  pub officials : List ElectedOfficial
  pub created : List ElectedOfficial

module _ (upper : String → String) (draw : ℕ → ℕ) where
  -- one turn of the loop, at an unlinked source
  unfoldable pub link_source :
      List ElectedOfficial
      → ElectedOfficialSource
      → Result Error (ElectedOfficialSource × List ElectedOfficial)
  link_source officials s = do
    existing ←
        find_matching_official upper officials s.boundary_type s.district_identifier s.full_name
    elim existing [
      | some o ↦ ok (record s { elected_official_id = some o.id }, [])
      | none ↦
          let o = official_of (draw s.id) s in
          ok (record s { elected_official_id = some o.id }, o ∷ [])
    ]

  unfoldable pub link_sources :
      String → String → List ElectedOfficialSource → List ElectedOfficial → Result Error Linking
  link_sources boundary_type district [] officials =
      ok (record { sources = []; officials = officials; created = [] })
  link_sources boundary_type district (s ∷ rest) officials =
      if is_unlinked boundary_type district s
      then (do
        (s', new) ← link_source officials s
        done ← link_sources boundary_type district rest (officials ++ new)
        ok (record {
          sources = s' ∷ done.sources;
          officials = done.officials;
          created = new ++ done.created;
        }))
      else (do
        done ← link_sources boundary_type district rest officials
        ok (record done { sources = s ∷ done.sources }))

  unfoldable pub auto_create_officials_from_sources :
      Db → String → String → Result Error (List ElectedOfficial × Db)
  auto_create_officials_from_sources db boundary_type district = do
    done ← link_sources boundary_type district db.sources db.officials
    ok (done.created, record { officials = done.officials; sources = done.sources })
