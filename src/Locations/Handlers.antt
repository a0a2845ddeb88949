-- ===== src/Locations/Handlers.antt =====
-- Each handler keeps the locations of voters consistent.
use voter_api.Prelude.{
  ℕ, ◌≡◌, refl, sym, ◌∙◌, ◌≤◌, Bool, true, false, ◌&&◌, ◌==◌, ==_refl, Option, none, some, List,
  arith, All-imp, All-modify, exists_where-found, find-exists, find, find-pass, exists_where,
  count_where, Bool-cases, Option-cases, inl, inr, committed,
}
use voter_api.Text.{Text}
use voter_api.Locations.Db.{
  GeocodedLocation, Coordinates, Db, GeocodingJob, location_at, of_voter, primary_of, at_source,
  voter_at,
}
use voter_api.Locations.Service.{
  GeocodingResult, set_primary, promote, upsert_location, add_rows, sync_official_location,
  store_geocoded_location, add_manual_location, set_primary_location,
  set_official_location_override, clear_official_location_override, overridden, is_in_georgia,
  released, has_voter, end_row,
}
use voter_api.Locations.Rows.{key-All, IsOwned}
use voter_api.Locations.Consistent.{
  HasPrimary, KeepsOthers, IsSynced, IsConsistent, sync_official_location-IsConsistent,
  synced-IsSynced,
}
use voter_api.Locations.Manual.{add_rows-IsAdded}
use voter_api.Locations.Primary.{
  HasIds, set_primary-HasPrimary, set_primary-HasIds, set_primary-KeepsOthers, promote-HasPrimary,
  promote-HasIds, promote-KeepsOthers, upsert_location-HasIds, upsert_location-KeepsOthers,
  upsert_location-primaries,
}

-- the row that a key of the voter finds is the only one with its id
found-IsOwned :
    (voter : ℕ) (p : GeocodedLocation → Bool) (rows : List GeocodedLocation) (l : GeocodedLocation)
    → HasIds rows
    → find p rows ≡ some l
    → of_voter voter l ≡ true
    → IsOwned voter l.id rows
found-IsOwned voter p rows l ids found mine =
    All-imp (λ x. location_at l.id x ≡ true → x ≡ l)
      (λ x. location_at l.id x ≡ true → of_voter voter x ≡ true) (λ x only hit. rw (only hit) mine)
      rows (key-All p (location_at l.id) rows l (ids l.id) found (==_refl l.id))

promoted-IsConsistent :
    (db : Db) (voter : ℕ) (source : Text) (rows : List GeocodedLocation) (l : GeocodedLocation)
    → IsConsistent db
    → HasIds rows
    → KeepsOthers voter db.locations rows
    → count_where (primary_of voter) rows ≤ 1
    → find (at_source voter source) rows ≡ some l
    → IsConsistent
        (sync_official_location voter (record db { locations = promote voter l.id rows }))
promoted-IsConsistent db voter source rows l c ids keeps at_most found =
    let is_at = find-pass (at_source voter source) rows found in
    let mine : of_voter voter l ≡ true = ground arith in
    let owned = found-IsOwned voter (at_source voter source) rows l ids found mine in
    sync_official_location-IsConsistent db voter (promote voter l.id rows) c
      (promote-HasIds voter l.id rows ids)
      (λ j other. promote-KeepsOthers voter l.id rows owned j other ∙ keeps j other)
      (promote-HasPrimary voter l.id rows ids owned
        (exists_where-found (location_at l.id) (at_source voter source) rows found (==_refl l.id))
        at_most)

at_most_one :
    (voter : ℕ) (rows : List GeocodedLocation)
    → HasPrimary rows voter
    → count_where (primary_of voter) rows ≤ 1
at_most_one voter rows has = ground arith

pub store_geocoded_location-IsConsistent :
    (db : Db) (now fresh voter : ℕ) (result : GeocodingResult) (source address : Text)
    → IsConsistent db
    → IsConsistent (committed db (store_geocoded_location db now fresh voter result source address))
unfolding store_geocoded_location
store_geocoded_location-IsConsistent db now fresh voter result source address c =
    elim (Bool-cases (has_voter voter db)) [
      | inr missing ↦ rw missing c
      | inl there ↦ elim (Bool-cases (exists_where (location_at fresh) db.locations)) [
        | inl taken ↦ rw (there, taken) c
        | inr new ↦
            let rows = upsert_location now fresh voter result source address db.locations in
            elim (Option-cases (find (at_source voter source) rows)) [
              | inl lost ↦ rw (there, new, lost) c
              | inr (l, found) ↦
                  elim (Option-cases (find (location_at l.id) (promote voter l.id rows))) [
                    | inl lost ↦ rw (there, new, found, lost) c
                    | inr (l', again) ↦
                        rw (there, new, found, again)
                          (promoted-IsConsistent db voter source rows l c
                            (upsert_location-HasIds now fresh voter result source address
                              db.locations new c.ids)
                            (upsert_location-KeepsOthers now fresh voter result source address
                              db.locations)
                            (rw
                              (upsert_location-primaries now fresh voter result source address
                                db.locations)
                              (at_most_one voter db.locations (c.primaries voter)))
                            found)
                  ]
            ]
      ]
    ]

pub add_manual_location-IsConsistent :
    (db : Db) (now fresh voter : ℕ) (at : Coordinates) (source : Text) (set_as_primary : Bool)
    → IsConsistent db
    → IsConsistent (committed db (add_manual_location db now fresh voter at source set_as_primary))
unfolding add_manual_location
add_manual_location-IsConsistent db now fresh voter at source set_as_primary c =
    elim (Bool-cases (has_voter voter db)) [
      | inr missing ↦ rw missing c
      | inl there ↦ elim (Bool-cases (exists_where (location_at fresh) db.locations)) [
        | inl taken ↦ rw (there, taken) c
        | inr new ↦ elim (Bool-cases (exists_where (at_source voter source) db.locations)) [
          | inl twice ↦ rw (there, new, twice) c
          | inr first ↦
              let added =
                add_rows-IsAdded now fresh voter at source db.locations new c.ids
                  (c.primaries voter) set_as_primary in
              rw (there, new, first)
                (sync_official_location-IsConsistent db voter
                  (add_rows now fresh voter at source set_as_primary db.locations) c added.keeps_ids
                  added.keeps_others added.has_primary)
        ]
      ]
    ]

pub set_primary_location-IsConsistent :
    (db : Db) (voter i : ℕ) → IsConsistent db → IsConsistent (set_primary_location db voter i).1
unfolding set_primary_location
set_primary_location-IsConsistent db voter i c =
    elim (Option-cases (find (λ l. l.id == i && l.voter_id == voter) db.locations)) [
      | inl missing ↦
          let nowhere : exists_where (λ l. l.id == i && l.voter_id == voter) db.locations ≡ false =
            sym (find-exists (λ l. l.id == i && l.voter_id == voter) db.locations)
            ∙ rw missing refl in
          rw nowhere c
      | inr (l, found) ↦
          let somewhere : exists_where (λ l. l.id == i && l.voter_id == voter) db.locations ≡ true =
            sym (find-exists (λ l. l.id == i && l.voter_id == voter) db.locations)
            ∙ rw found refl in
          let is_l = find-pass (λ l. l.id == i && l.voter_id == voter) db.locations found in
          let here : l.id ≡ i = ground arith in
          let mine : of_voter voter l ≡ true = ground arith in
          let owned = rw here at (
            found-IsOwned voter (λ l. l.id == i && l.voter_id == voter) db.locations l c.ids found
              mine) in
          let there =
            exists_where-found (location_at i) (λ l. l.id == i && l.voter_id == voter) db.locations
              found (ground arith) in
          rw somewhere (
            sync_official_location-IsConsistent db voter (set_primary voter i db.locations) c
              (set_primary-HasIds voter i db.locations c.ids)
              (set_primary-KeepsOthers voter i db.locations owned)
              (set_primary-HasPrimary voter i db.locations c.ids owned there))
    ]

pub set_official_location_override-IsConsistent :
    (db : Db) (i : ℕ) (at : Coordinates)
    → IsConsistent db
    → IsConsistent (committed db (set_official_location_override db i at))
unfolding set_official_location_override
set_official_location_override-IsConsistent db i at c =
    elim (Option-cases (find (voter_at i) db.voters)) [
      | inl missing ↦ rw missing c
      | inr (v, found) ↦ elim (Bool-cases (is_in_georgia at)) [
        | inr outside ↦ rw (found, outside) c
        | inl inside ↦
            rw (found, inside)
              (record {
                ids = c.ids;
                primaries = c.primaries;
                officials =
                    All-modify (IsSynced db.locations) (voter_at i) (overridden at) db.voters
                      (λ v is_v old free. absurd (ground arith)) c.officials;
              })
      ]
    ]

pub clear_official_location_override-IsConsistent :
    (db : Db) (i : ℕ)
    → IsConsistent db
    → IsConsistent (committed db (clear_official_location_override db i))
unfolding clear_official_location_override
clear_official_location_override-IsConsistent db i c =
    elim (Option-cases (find (voter_at i) db.voters)) [
      | inl missing ↦ rw missing c
      | inr (v, found) ↦ rw found (record {
        ids = c.ids;
        primaries = c.primaries;
        officials =
            All-modify (IsSynced db.locations) (voter_at i) (released db.locations) db.voters
              (λ v is_v old.
                synced-IsSynced db.locations (record v { official_is_override = false }))
              c.officials;
      })
    ]

-- a job that is ended leaves the locations as they are
pub end_row-IsConsistent :
    (db : Db) (i : ℕ) (f : GeocodingJob → GeocodingJob) (found existing : Option GeocodingJob)
    → IsConsistent db
    → IsConsistent (committed db (end_row db i f found existing))
end_row-IsConsistent db i f none none c = c
end_row-IsConsistent db i f none (some j) c = c
end_row-IsConsistent db i f (some j) existing c = record {
  ids = c.ids;
  primaries = c.primaries;
  officials = c.officials;
}
