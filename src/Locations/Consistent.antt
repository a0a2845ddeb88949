-- ===== src/Locations/Consistent.antt =====
-- What every handler keeps of the locations of voters.
use voter_api.Prelude.{
  ℕ, ◌≡◌, refl, sym, ◌∙◌, ap, ◌≤◌, true, false, ◌==◌, List, [], ◌∷◌, arith, All, All-modify-rest,
  select, exists_where, count_where, if◌then◌else◌, Bool-cases, inl, inr,
}
use voter_api.Locations.Db.{
  GeocodedLocation, Voter, Db, location_at, of_voter, primary_of, voter_at,
}
use voter_api.Locations.Service.{best, official_of, synced, sync_official_location}

-- exactly one location is primary, if the voter has any
abbrev pub HasPrimary : List GeocodedLocation → ℕ → Type 0
HasPrimary rows i =
    count_where (primary_of i) rows ≡ (if exists_where (of_voter i) rows then 1 else 0)

-- without an override the official location is the best one
abbrev pub IsSynced : List GeocodedLocation → Voter → Type 0
IsSynced rows v =
    v.official_is_override ≡ false → v.official ≡ official_of (best (select (of_voter v.id) rows))

pub record IsConsistent (db : Db) : Type 0 where
  pub ids : (i : ℕ) → count_where (location_at i) db.locations ≤ 1
  pub primaries : (i : ℕ) → HasPrimary db.locations i
  pub officials : All (IsSynced db.locations) db.voters

-- the rows of the other voters are as they were
abbrev pub KeepsOthers : ℕ → List GeocodedLocation → List GeocodedLocation → Type 0
KeepsOthers voter rows rows' =
    (i : ℕ) → (voter == i) ≡ false → select (of_voter i) rows' ≡ select (of_voter i) rows

count_where-select :
    (i : ℕ) (rows : List GeocodedLocation)
    → count_where (primary_of i) rows ≡ count_where (λ l. l.is_primary) (select (of_voter i) rows)
count_where-select i [] = refl
count_where-select i (l ∷ rows) = elim (Bool-cases (l.voter_id == i)) [
  | inl mine ↦ rw (mine, count_where-select i rows) refl
  | inr other ↦ rw (other, count_where-select i rows) refl
]

exists_where-select :
    (i : ℕ) (rows : List GeocodedLocation)
    → exists_where (of_voter i) rows ≡ exists_where (λ l. true) (select (of_voter i) rows)
exists_where-select i [] = refl
exists_where-select i (l ∷ rows) = elim (Bool-cases (l.voter_id == i)) [
  | inl mine ↦ rw mine refl
  | inr other ↦ rw (other, exists_where-select i rows) refl
]

HasPrimary-other :
    (voter i : ℕ) (rows rows' : List GeocodedLocation)
    → KeepsOthers voter rows rows'
    → (voter == i) ≡ false
    → HasPrimary rows i
    → HasPrimary rows' i
HasPrimary-other voter i rows rows' keeps other has =
    let before =
      sym (count_where-select i rows)
      ∙ has
      ∙ ap (λ b. if b then 1 else 0) (exists_where-select i rows) in
    count_where-select i rows'
    ∙ ap (count_where (λ l. l.is_primary)) (keeps i other)
    ∙ before
    ∙ ap (λ ls. if exists_where (λ l. true) ls then 1 else 0) (sym (keeps i other))
    ∙ ap (λ b. if b then 1 else 0) (sym (exists_where-select i rows'))

pub synced-IsSynced : (rows : List GeocodedLocation) (v : Voter) → IsSynced rows (synced rows v)
synced-IsSynced rows v = elim (Bool-cases v.official_is_override) [
  | inl kept ↦ rw kept (λ free. absurd (ground arith))
  | inr free ↦ rw free (λ h. refl)
]

IsSynced-other :
    (voter : ℕ) (rows rows' : List GeocodedLocation) (v : Voter)
    → KeepsOthers voter rows rows'
    → (voter == v.id) ≡ false
    → IsSynced rows v
    → IsSynced rows' v
IsSynced-other voter rows rows' v keeps other old free =
    old free ∙ ap (λ ls. official_of (best ls)) (sym (keeps v.id other))

-- a change of the locations of one voter, followed by a sync
pub sync_official_location-IsConsistent :
    (db : Db) (voter : ℕ) (rows : List GeocodedLocation)
    → IsConsistent db
    → ((i : ℕ) → count_where (location_at i) rows ≤ 1)
    → KeepsOthers voter db.locations rows
    → HasPrimary rows voter
    → IsConsistent (sync_official_location voter (record db { locations = rows }))
unfolding sync_official_location
sync_official_location-IsConsistent db voter rows c ids keeps has = record {
  ids = ids;
  primaries = λ i. elim (Bool-cases (voter == i)) [
    | inl same ↦ let is_i : voter ≡ i = ground arith in rw (← is_i) has
    | inr other ↦ HasPrimary-other voter i db.locations rows keeps other (c.primaries i)
  ];
  officials =
      All-modify-rest (IsSynced db.locations) (IsSynced rows) (voter_at voter) (synced rows)
        db.voters (λ v is_v old. synced-IsSynced rows v)
        (λ v other old. IsSynced-other voter db.locations rows v keeps (ground arith) old)
        c.officials;
}
