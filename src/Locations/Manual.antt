-- ===== src/Locations/Manual.antt =====
-- A location that a user gives.
use voter_api.Prelude.{
  ℕ, ◌≡◌, refl, ◌∙◌, Bool, true, false, not, ==_refl, List, [], ◌∷◌, ◌++◌, arith, All-imp,
  All-append, exists_where, count_where-append, Bool-cases, inl, inr, exists_where-append,
  exists_where-append_right,
}
use voter_api.Text.{Text}
use voter_api.Locations.Db.{GeocodedLocation, Coordinates, location_at, of_voter, primary_of}
use voter_api.Locations.Service.{set_primary, manual_location, add_rows}
use voter_api.Locations.Rows.{exists_where-none, select-append_other, IsOwned}
use voter_api.Locations.Consistent.{HasPrimary, KeepsOthers}
use voter_api.Locations.Primary.{
  HasIds, append-HasIds, set_primary-HasPrimary, set_primary-HasIds, set_primary-KeepsOthers,
}

module _ (now fresh voter : ℕ) (at : Coordinates) (source : Text) (rows : List GeocodedLocation)
    (new : exists_where (location_at fresh) rows ≡ false) (ids : HasIds rows)
    (has : HasPrimary rows voter) where
  abbrev given : Bool → GeocodedLocation
  given b = manual_location now fresh voter at source b

  given-IsOwned : (b : Bool) → IsOwned voter fresh (rows ++ given b ∷ [])
  given-IsOwned b =
      All-append (λ l. location_at fresh l ≡ true → of_voter voter l ≡ true) rows (given b ∷ [])
        (All-imp (λ l. location_at fresh l ≡ false)
          (λ l. location_at fresh l ≡ true → of_voter voter l ≡ true)
          (λ l no hit. absurd (ground arith)) rows (exists_where-none (location_at fresh) rows new))
        ((λ hit. ==_refl voter), tt)

  given-exists : (b : Bool) → exists_where (location_at fresh) (rows ++ given b ∷ []) ≡ true
  given-exists b =
      exists_where-append_right (location_at fresh) rows (given b ∷ []) (rw (==_refl fresh) refl)

  given-KeepsOthers : (b : Bool) → KeepsOthers voter rows (rows ++ given b ∷ [])
  given-KeepsOthers b j other = select-append_other (of_voter j) rows (given b) other

  -- what the rows keep, whichever is written
  pub record IsAdded (rows' : List GeocodedLocation) : Type 0 where
    pub keeps_ids : HasIds rows'
    pub keeps_others : KeepsOthers voter rows rows'
    pub has_primary : HasPrimary rows' voter

  set_primary-IsAdded : (b : Bool) → IsAdded (set_primary voter fresh (rows ++ given b ∷ []))
  set_primary-IsAdded b =
      let ids' = append-HasIds rows (given b) new ids in
      record {
        keeps_ids = set_primary-HasIds voter fresh (rows ++ given b ∷ []) ids';
        keeps_others = λ j other.
            set_primary-KeepsOthers voter fresh (rows ++ given b ∷ []) (given-IsOwned b) j other
            ∙ given-KeepsOthers b j other;
        has_primary =
            set_primary-HasPrimary voter fresh (rows ++ given b ∷ []) ids' (given-IsOwned b)
              (given-exists b);
      }

  -- the new row is primary exactly if it is the first
  append-IsAdded : IsAdded (rows ++ given (not (exists_where (of_voter voter) rows)) ∷ [])
  append-IsAdded = record {
    keeps_ids = append-HasIds rows (given (not (exists_where (of_voter voter) rows))) new ids;
    keeps_others = given-KeepsOthers (not (exists_where (of_voter voter) rows));
    has_primary = elim (Bool-cases (exists_where (of_voter voter) rows)) [
      | inl more ↦
          let still = exists_where-append (of_voter voter) rows (given false ∷ []) more in
          rw (more, still, count_where-append (primary_of voter) rows (given false ∷ []))
            (rw (==_refl voter) (ground (arith, has, more)))
      | inr first ↦
          let some_row =
            exists_where-append_right (of_voter voter) rows (given true ∷ [])
              (rw (==_refl voter) refl) in
          rw (first, some_row, count_where-append (primary_of voter) rows (given true ∷ []))
            (rw (==_refl voter) (ground (arith, has, first)))
    ];
  }

  pub add_rows-IsAdded : (p : Bool) → IsAdded (add_rows now fresh voter at source p rows)
  unfolding add_rows
  add_rows-IsAdded true = elim (Bool-cases (exists_where (of_voter voter) rows)) [
    | inl more ↦ rw more (set_primary-IsAdded true)
    | inr first ↦ rw first (rw first at append-IsAdded)
  ]
  add_rows-IsAdded false = elim (Bool-cases (exists_where (of_voter voter) rows)) [
    | inl more ↦ rw more (rw more at append-IsAdded)
    | inr first ↦ rw first (rw first at append-IsAdded)
  ]
