-- ===== src/Locations/Primary.antt =====
-- The writes that decide which location of a voter is primary.
use voter_api.Prelude.{
  ℕ, ◌≡◌, refl, sym, ◌∙◌, ap, ◌≤◌, true, false, not, ◌&&◌, ◌==◌, ==_refl, List, [], ◌∷◌, ◌++◌,
  arith, All, All-imp, exists_where, exists_where-modify, count_where, count_where-append,
  count_where-exists, count_where-write_same, modify, if◌then◌else◌, Bool-cases, inl, inr,
}
use voter_api.Text.{Text}
use voter_api.Locations.Db.{GeocodedLocation, location_at, of_voter, primary_of, at_source}
use voter_api.Locations.Service.{
  GeocodingResult, primary, set_primary, promote, upsert_location, new_location, refreshed,
}
use voter_api.Locations.Rows.{
  exists_where-none, count_where-modify_same, select-modify_other, select-write_other,
  select-append_other, IsOwned, set_primary-counted, promote-counted,
}
use voter_api.Locations.Consistent.{HasPrimary, KeepsOthers}

-- rows of which each has its own id
abbrev pub HasIds : List GeocodedLocation → Type 0
HasIds rows = (i : ℕ) → count_where (location_at i) rows ≤ 1

one_location :
    (i : ℕ) (rows : List GeocodedLocation)
    → HasIds rows
    → exists_where (location_at i) rows ≡ true
    → count_where (location_at i) rows ≡ 1
one_location i rows ids there =
    let some_row = (count_where-exists (location_at i) rows).1 there in
    omega (arith, ids i, some_row)

owned-exists :
    (voter i : ℕ) (rows : List GeocodedLocation)
    → IsOwned voter i rows
    → exists_where (location_at i) rows ≡ true
    → exists_where (of_voter voter) rows ≡ true
owned-exists voter i [] owned there = absurd (ground arith)
owned-exists voter i (l ∷ rows) owned there = elim (Bool-cases (l.id == i)) [
  | inl here ↦ rw (owned.0 here) refl
  | inr other ↦ elim (Bool-cases (l.voter_id == voter)) [
    | inl mine ↦ rw mine refl
    | inr theirs ↦ rw theirs (owned-exists voter i rows owned.1 (rw other at there))
  ]
]

owned-others :
    (voter i : ℕ) (rows : List GeocodedLocation)
    → IsOwned voter i rows
    → (j : ℕ) → (voter == j) ≡ false
    → All (λ l. location_at i l ≡ true → of_voter j l ≡ false) rows
owned-others voter i rows owned j other =
    All-imp (λ l. location_at i l ≡ true → of_voter voter l ≡ true)
      (λ l. location_at i l ≡ true → of_voter j l ≡ false)
      (λ l mine hit. let is_mine = mine hit in ground arith) rows owned

-- a location of the voter becomes the only one that is primary
pub set_primary-HasPrimary :
    (voter i : ℕ) (rows : List GeocodedLocation)
    → HasIds rows
    → IsOwned voter i rows
    → exists_where (location_at i) rows ≡ true
    → HasPrimary (set_primary voter i rows) voter
unfolding set_primary
set_primary-HasPrimary voter i rows ids owned there =
    let still : exists_where (of_voter voter) (set_primary voter i rows) ≡ true =
      exists_where-modify (of_voter voter) (location_at i) (primary true)
        (modify (of_voter voter) (primary false) rows) (λ l h. refl)
      ∙ exists_where-modify (of_voter voter) (of_voter voter) (primary false) rows (λ l h. refl)
      ∙ owned-exists voter i rows owned there in
    set_primary-counted voter i rows owned
    ∙ one_location i rows ids there
    ∙ ap (λ b. if b then 1 else 0) (sym still)

pub set_primary-HasIds :
    (voter i : ℕ) (rows : List GeocodedLocation) → HasIds rows → HasIds (set_primary voter i rows)
unfolding set_primary
set_primary-HasIds voter i rows ids k =
    rw
      (
        count_where-modify_same (location_at k) (location_at i) (primary true)
            (modify (of_voter voter) (primary false) rows) (λ l. refl),
        count_where-modify_same (location_at k) (of_voter voter) (primary false) rows (λ l. refl),
      )
      (ids k)

voter_rows-others :
    (voter : ℕ) (rows : List GeocodedLocation) (j : ℕ)
    → (voter == j) ≡ false
    → All (λ l. of_voter voter l ≡ true → of_voter j l ≡ false) rows
voter_rows-others voter [] j other = tt
voter_rows-others voter (l ∷ rows) j other =
    ((λ mine. ground arith), voter_rows-others voter rows j other)

-- the first write keeps whose the rows are
unset-IsOwned :
    (voter i : ℕ) (rows : List GeocodedLocation)
    → IsOwned voter i rows
    → IsOwned voter i (modify (of_voter voter) (primary false) rows)
unset-IsOwned voter i [] owned = tt
unset-IsOwned voter i (l ∷ rows) owned = elim (Bool-cases (l.voter_id == voter)) [
  | inl mine ↦ rw (mine, mine) ((λ h. refl), unset-IsOwned voter i rows owned.1)
  | inr theirs ↦
      rw (theirs, theirs) ((λ h. ground (arith, owned.0 h)), unset-IsOwned voter i rows owned.1)
]

pub set_primary-KeepsOthers :
    (voter i : ℕ) (rows : List GeocodedLocation)
    → IsOwned voter i rows
    → KeepsOthers voter rows (set_primary voter i rows)
unfolding set_primary
set_primary-KeepsOthers voter i rows owned j other =
    select-modify_other (of_voter j) (location_at i) (primary true)
      (modify (of_voter voter) (primary false) rows) (λ l h. h)
      (owned-others voter i (modify (of_voter voter) (primary false) rows)
        (unset-IsOwned voter i rows owned) j other)
    ∙ select-modify_other (of_voter j) (of_voter voter) (primary false) rows (λ l h. h)
        (voter_rows-others voter rows j other)

primary-exists :
    (voter i : ℕ) (rows : List GeocodedLocation)
    → exists_where (λ l. primary_of voter l && not (l.id == i)) rows ≡ true
    → exists_where (primary_of voter) rows ≡ true
primary-exists voter i [] there = there
primary-exists voter i (l ∷ rows) there =
    elim (Bool-cases (primary_of voter l && not (l.id == i))) [
      | inl here ↦ let is_one : primary_of voter l ≡ true = ground arith in rw is_one refl
      | inr other ↦ ground (arith, primary-exists voter i rows (rw other at there))
    ]

-- a location of the voter becomes primary if no other is
pub promote-HasPrimary :
    (voter i : ℕ) (rows : List GeocodedLocation)
    → HasIds rows
    → IsOwned voter i rows
    → exists_where (location_at i) rows ≡ true
    → count_where (primary_of voter) rows ≤ 1
    → HasPrimary (promote voter i rows) voter
unfolding promote
promote-HasPrimary voter i rows ids owned there at_most =
    elim (Bool-cases (exists_where (λ l. primary_of voter l && not (l.id == i)) rows)) [
      | inl other ↦
          let has_one =
            (count_where-exists (primary_of voter) rows).1 (primary-exists voter i rows other) in
          rw (other, owned-exists voter i rows owned there) (omega (arith, at_most, has_one))
      | inr alone ↦
          let still =
            exists_where-modify (of_voter voter) (location_at i) (primary true) rows (λ l h. refl)
            ∙ owned-exists voter i rows owned there in
          rw (alone, still)
            (promote-counted voter i rows owned
                (exists_where-none (λ l. primary_of voter l && not (l.id == i)) rows alone)
              ∙ one_location i rows ids there)
    ]

pub promote-HasIds :
    (voter i : ℕ) (rows : List GeocodedLocation) → HasIds rows → HasIds (promote voter i rows)
unfolding promote
promote-HasIds voter i rows ids k =
    let same =
      count_where-modify_same (location_at k) (location_at i) (primary true) rows (λ l. refl) in
    elim (Bool-cases (exists_where (λ l. primary_of voter l && not (l.id == i)) rows)) [
      | inl found ↦ rw found (ids k)
      | inr alone ↦ rw alone (rw same (ids k))
    ]

pub promote-KeepsOthers :
    (voter i : ℕ) (rows : List GeocodedLocation)
    → IsOwned voter i rows
    → KeepsOthers voter rows (promote voter i rows)
unfolding promote
promote-KeepsOthers voter i rows owned j other =
    let same =
      select-modify_other (of_voter j) (location_at i) (primary true) rows (λ l h. h)
        (owned-others voter i rows owned j other) in
    elim (Bool-cases (exists_where (λ l. primary_of voter l && not (l.id == i)) rows)) [
      | inl found ↦ rw found refl
      | inr alone ↦ rw alone same
    ]

pub append-HasIds :
    (rows : List GeocodedLocation) (l : GeocodedLocation)
    → exists_where (location_at l.id) rows ≡ false
    → HasIds rows
    → HasIds (rows ++ l ∷ [])
append-HasIds rows l new ids k =
    rw (count_where-append (location_at k) rows (l ∷ [])) (elim (Bool-cases (l.id == k)) [
      | inl same ↦
          let is_k : l.id ≡ k = ground arith in
          let none_there = (count_where-exists (location_at l.id) rows).0 new in
          rw (same, ← is_k, none_there) (omega arith)
      | inr other ↦ rw other (omega (arith, ids k))
    ])

-- the upsert
pub upsert_location-HasIds :
    (now fresh voter : ℕ) (result : GeocodingResult) (source address : Text)
    (rows : List GeocodedLocation)
    → exists_where (location_at fresh) rows ≡ false
    → HasIds rows
    → HasIds (upsert_location now fresh voter result source address rows)
unfolding upsert_location
upsert_location-HasIds now fresh voter result source address rows new ids k =
    elim (Bool-cases (exists_where (at_source voter source) rows)) [
      | inl there ↦ rw there (
          rw
            (count_where-write_same (location_at k) (at_source voter source)
              (refreshed now result address) rows (λ l. refl))
            (ids k))
      | inr missing ↦
          rw missing
            (append-HasIds rows (new_location now fresh voter result source address) new ids k)
    ]

pub upsert_location-KeepsOthers :
    (now fresh voter : ℕ) (result : GeocodingResult) (source address : Text)
    (rows : List GeocodedLocation)
    → KeepsOthers voter rows (upsert_location now fresh voter result source address rows)
unfolding upsert_location
upsert_location-KeepsOthers now fresh voter result source address rows j other =
    elim (Bool-cases (exists_where (at_source voter source) rows)) [
      | inl there ↦ rw there (
          select-write_other (of_voter j) (at_source voter source) (refreshed now result address)
            rows (λ l mine. ground arith) (λ l h. h))
      | inr missing ↦ rw missing (
          select-append_other (of_voter j) rows (new_location now fresh voter result source address)
            other)
    ]

pub upsert_location-primaries :
    (now fresh voter : ℕ) (result : GeocodingResult) (source address : Text)
    (rows : List GeocodedLocation)
    → count_where (primary_of voter) (upsert_location now fresh voter result source address rows)
      ≡ count_where (primary_of voter) rows
unfolding upsert_location
upsert_location-primaries now fresh voter result source address rows =
    elim (Bool-cases (exists_where (at_source voter source) rows)) [
      | inl there ↦ rw there (
          count_where-write_same (primary_of voter) (at_source voter source)
            (refreshed now result address) rows (λ l. refl))
      | inr missing ↦ rw missing (
          rw
            (count_where-append (primary_of voter) rows
              (new_location now fresh voter result source address ∷ []))
            (rw (==_refl voter) (omega arith)))
    ]
