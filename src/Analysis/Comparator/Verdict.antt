-- ===== src/Analysis/Comparator/Verdict.antt =====
-- The verdict of `compare_boundaries`, without the order in which it looks at the types.
use voter_api.Prelude.{
  Bool, true, false, ◌&&◌, ◌||◌, ◌≡◌, refl, ◌∙◌, List, [], ◌∷◌, ◌++◌, Option, none, some, inl, inr,
  arith, exists_where, sort_by, insert_by, select, is_some, if◌then◌else◌, Bool-cases,
}
use voter_api.Text.{Text}
use voter_api.Analysis.Comparator.{
  Assignment, Mismatch, MatchStatus, Comparison, conflict, note, get, compare_types, types_of,
  comparable_types, status_of, compare_boundaries, nothing, is_district, is_precinct, text_leb,
}

module _ {ℓ} {A : Type ℓ} where
  exists_where-insert_by :
      (p : A → Bool) (le : A → A → Bool) (x : A) (xs : List A)
      → exists_where p (insert_by le x xs) ≡ (p x || exists_where p xs)
  exists_where-insert_by p le x [] = ground arith
  exists_where-insert_by p le x (y ∷ ys) = ground (arith, exists_where-insert_by p le x ys)

  pub exists_where-sort_by :
      (p : A → Bool) (le : A → A → Bool) (xs : List A)
      → exists_where p (sort_by le xs) ≡ exists_where p xs
  exists_where-sort_by p le [] = refl
  exists_where-sort_by p le (x ∷ xs) =
      ground (arith, exists_where-insert_by p le x (sort_by le xs), exists_where-sort_by p le xs)

module _ {ℓ} {A : Type ℓ} where
  exists_where-select_all :
      (p q : A → Bool)
      → ((x : A) → p x ≡ true → q x ≡ true)
      → (xs : List A) → exists_where p (select q xs) ≡ exists_where p xs
  exists_where-select_all p q h [] = refl
  exists_where-select_all p q h (x ∷ xs) = elim (Bool-cases (p x)) [
    | inl e ↦ ground (arith, h x e)
    | inr e ↦ ground (arith, exists_where-select_all p q h xs)
  ]

-- The dicts disagree on a type that both have.
abbrev pub differs : List Assignment → List Assignment → Text → Bool
differs determined registered t = is_some (conflict t (get t determined) (get t registered))

-- They disagree on a type of `determined` in one of these groups.
abbrev pub disagree_in : (Text → Bool) → List Assignment → List Assignment → Bool
disagree_in group determined registered =
    exists_where (λ t. differs determined registered t && group t) (types_of determined)

abbrev pub disagree : List Assignment → List Assignment → Bool
disagree determined registered = exists_where (differs determined registered) (types_of determined)

-- the verdict that the module promises
abbrev pub verdict : List Assignment → List Assignment → MatchStatus
verdict [] registered = MatchStatus.unable_to_analyze
verdict (a ∷ items) registered =
    let determined = a ∷ items in
    if disagree determined registered
    then if disagree_in is_precinct determined registered
      then if disagree_in is_district determined registered
        then MatchStatus.mismatch_both
        else MatchStatus.mismatch_precinct
      else MatchStatus.mismatch_district
    else MatchStatus.match

-- a list is not empty
abbrev is_cons {ℓ} : {A : Type ℓ} → List A → Bool
is_cons [] = false
is_cons (x ∷ xs) = true

is_cons-append {ℓ} : {A : Type ℓ} (xs : List A) (x : A) → is_cons (xs ++ (x ∷ [])) ≡ true
is_cons-append [] x = refl
is_cons-append (y ∷ ys) x = refl

is_cons-note :
    (found : Comparison) (t : Text) (c : Option Mismatch)
    → is_cons (note found t c).mismatches ≡ (is_cons found.mismatches || is_some c)
is_cons-note found t none = ground arith
is_cons-note found t (some m) = ground (arith, is_cons-append found.mismatches m)

district-note :
    (found : Comparison) (t : Text) (c : Option Mismatch)
    → (note found t c).has_district_mismatch
      ≡ (found.has_district_mismatch || (is_some c && is_district t))
district-note found t none = ground arith
district-note found t (some m) = ground arith

precinct-note :
    (found : Comparison) (t : Text) (c : Option Mismatch)
    → (note found t c).has_precinct_mismatch
      ≡ (found.has_precinct_mismatch || (is_some c && is_precinct t))
precinct-note found t none = ground arith
precinct-note found t (some m) = ground arith

module _ (determined registered : List Assignment) where
  compare_types-mismatches :
      (types : List Text) (found : Comparison)
      → is_cons (compare_types determined registered types found).mismatches
        ≡ (is_cons found.mismatches || exists_where (differs determined registered) types)
  unfolding compare_types
  compare_types-mismatches [] found = ground arith
  compare_types-mismatches (t ∷ types) found =
      let c = conflict t (get t determined) (get t registered) in
      ground (arith, compare_types-mismatches types (note found t c), is_cons-note found t c)

  compare_types-district :
      (types : List Text) (found : Comparison)
      → (compare_types determined registered types found).has_district_mismatch ≡ (
          found.has_district_mismatch
          || exists_where (λ t. differs determined registered t && is_district t) types)
  unfolding compare_types
  compare_types-district [] found = ground arith
  compare_types-district (t ∷ types) found =
      let c = conflict t (get t determined) (get t registered) in
      ground (arith, compare_types-district types (note found t c), district-note found t c)

  compare_types-precinct :
      (types : List Text) (found : Comparison)
      → (compare_types determined registered types found).has_precinct_mismatch ≡ (
          found.has_precinct_mismatch
          || exists_where (λ t. differs determined registered t && is_precinct t) types)
  unfolding compare_types
  compare_types-precinct [] found = ground arith
  compare_types-precinct (t ∷ types) found =
      let c = conflict t (get t determined) (get t registered) in
      ground (arith, compare_types-precinct types (note found t c), precinct-note found t c)

  differs-registered :
      (t : Text) → differs determined registered t ≡ true → is_some (get t registered) ≡ true
  differs-registered t h = go (get t determined) (get t registered) h
    where
      go : (d r : Option Text) → is_some (conflict t d r) ≡ true → is_some r ≡ true
      go none r h = absurd (ground arith)
      go (some d) none h = absurd (ground arith)
      go (some d) (some r) h = refl

  -- the types that are compared, in place of those of `determined`
  exists_where-comparable :
      (p : Text → Bool)
      → ((t : Text) → p t ≡ true → differs determined registered t ≡ true)
      → exists_where p (comparable_types determined registered)
        ≡ exists_where p (types_of determined)
  exists_where-comparable p h =
      exists_where-sort_by p text_leb
        (select (λ t. is_some (get t registered)) (types_of determined))
      ∙ exists_where-select_all p (λ t. is_some (get t registered))
          (λ t e. differs-registered t (h t e)) (types_of determined)

-- the verdict from what is found: some mismatch, one of a precinct, one of a district
abbrev classified : Bool → Bool → Bool → MatchStatus
classified false precinct district = MatchStatus.match
classified true false district = MatchStatus.mismatch_district
classified true true false = MatchStatus.mismatch_precinct
classified true true true = MatchStatus.mismatch_both

status_of-classified :
    (district precinct : Bool) (mismatches : List Mismatch)
    → status_of district precinct mismatches ≡ classified (is_cons mismatches) precinct district
unfolding status_of
status_of-classified district precinct [] = refl
status_of-classified false false (m ∷ ms) = refl
status_of-classified false true (m ∷ ms) = refl
status_of-classified true false (m ∷ ms) = refl
status_of-classified true true (m ∷ ms) = refl

classified_if :
    (mismatch precinct district : Bool)
    → classified mismatch precinct district ≡ (
        if mismatch
        then if precinct
          then if district then MatchStatus.mismatch_both else MatchStatus.mismatch_precinct
          else MatchStatus.mismatch_district
        else MatchStatus.match)
classified_if false precinct district = refl
classified_if true false district = refl
classified_if true true false = refl
classified_if true true true = refl

-- The status is unable-to-analyze exactly if no boundary is determined. Else it is match, if the
-- dicts agree on every type that both have, and otherwise says whether they disagree on a precinct,
-- on a precinct and on a district, or on no precinct. The order of the types plays no part.
pub compare_boundaries-verdict :
    (determined registered : List Assignment)
    → (compare_boundaries determined registered).match_status ≡ verdict determined registered
unfolding compare_boundaries
compare_boundaries-verdict [] registered = refl
compare_boundaries-verdict (a ∷ items) registered =
    let determined = a ∷ items in
    let types = comparable_types determined registered in
    let found = compare_types determined registered types nothing in
    let some_mismatch =
      compare_types-mismatches determined registered types nothing
      ∙ exists_where-comparable determined registered (differs determined registered) (λ t e. e) in
    let some_precinct =
      compare_types-precinct determined registered types nothing
      ∙ exists_where-comparable determined registered
          (λ t. differs determined registered t && is_precinct t) (λ t e. ground arith) in
    let some_district =
      compare_types-district determined registered types nothing
      ∙ exists_where-comparable determined registered
          (λ t. differs determined registered t && is_district t) (λ t e. ground arith) in
    status_of-classified found.has_district_mismatch found.has_precinct_mismatch found.mismatches
    ∙ rw (some_mismatch, some_precinct, some_district)
        (classified_if (disagree determined registered)
          (disagree_in is_precinct determined registered)
          (disagree_in is_district determined registered))
