-- ===== src/Locations/Rows.antt =====
-- Lemmas on the rows of locations: whose they are, and how many are primary.
use voter_api.Prelude.{
  ℕ, ◌≡◌, refl, sym, ap, ◌≤◌, suc, Bool, true, false, not, ◌&&◌, ◌==◌, some, List, [], ◌∷◌, ◌++◌,
  arith, All, All-imp, exists_where-found, find, select, exists_where, count_where,
  count_where-zero, count_where-exists, modify, write, Bool-cases, inl, inr,
}
use mathlib.Core.Path.{subst}
use voter_api.Locations.Db.{GeocodedLocation, location_at, of_voter, primary_of}
use voter_api.Locations.Service.{primary, set_primary}

module _ {A : Type 0} where
  -- the only row that has a key
  pub key-All :
      (p q : A → Bool) (xs : List A) (a : A)
      → count_where q xs ≤ 1
      → find p xs ≡ some a
      → q a ≡ true
      → All (λ x. q x ≡ true → x ≡ a) xs
  key-All p q [] a u h k = tt
  key-All p q (x ∷ xs) a u h k = elim (Bool-cases (p x)) [
    | inl here ↦
        let same : x ≡ a = ground arith in
        let none_left : count_where q xs ≡ 0 =
          ground (arith, subst (λ y. q y ≡ true) (sym same) k) in
        (
          λ hit. same,
          All-imp (λ y. q y ≡ false) (λ y. q y ≡ true → y ≡ a) (λ y no hit. absurd (ground arith))
              xs (count_where-zero q xs none_left),
        )
    | inr later ↦
        let there = exists_where-found q p xs (rw later at h) k in
        let some_left = (count_where-exists q xs).1 there in
        let no_hit : q x ≡ false = ground (arith, some_left) in
        (λ hit. absurd (ground arith), key-All p q xs a (ground (arith, no_hit)) (rw later at h) k)
  ]

  pub exists_where-none :
      (p : A → Bool) (xs : List A) → exists_where p xs ≡ false → All (λ x. p x ≡ false) xs
  exists_where-none p [] h = tt
  exists_where-none p (x ∷ xs) h = elim (Bool-cases (p x)) [
    | inl here ↦ absurd (ground arith)
    | inr other ↦ (other, exists_where-none p xs (rw other at h))
  ]

  pub count_where-modify_same :
      (p q : A → Bool) (f : A → A) (xs : List A)
      → ((a : A) → p (f a) ≡ p a)
      → count_where p (modify q f xs) ≡ count_where p xs
  count_where-modify_same p q f [] same = refl
  count_where-modify_same p q f (x ∷ xs) same =
      ground (arith, same x, count_where-modify_same p q f xs same)

  pub select-modify_other :
      (p q : A → Bool) (f : A → A) (xs : List A)
      → ((a : A) → p a ≡ false → p (f a) ≡ false)
      → All (λ a. q a ≡ true → p a ≡ false) xs
      → select p (modify q f xs) ≡ select p xs
  select-modify_other p q f [] same all = refl
  select-modify_other p q f (x ∷ xs) same all = elim (Bool-cases (q x)) [
    | inl hit ↦ rw (hit, same x (all.0 hit), all.0 hit) (select-modify_other p q f xs same all.1)
    | inr miss ↦ rw (miss, select-modify_other p q f xs same all.1) refl
  ]

  pub select-write_other :
      (p q : A → Bool) (f : A → A) (xs : List A)
      → ((a : A) → q a ≡ true → p a ≡ false)
      → ((a : A) → p a ≡ false → p (f a) ≡ false)
      → select p (write q f xs) ≡ select p xs
  select-write_other p q f [] other same = refl
  select-write_other p q f (x ∷ xs) other same = elim (Bool-cases (q x)) [
    | inl hit ↦ rw (hit, same x (other x hit), other x hit) refl
    | inr miss ↦ rw (miss, select-write_other p q f xs other same) refl
  ]

  pub select-append_other :
      (p : A → Bool) (xs : List A) (y : A) → p y ≡ false → select p (xs ++ y ∷ []) ≡ select p xs
  select-append_other p [] y other = rw other refl
  select-append_other p (x ∷ xs) y other = rw (select-append_other p xs y other) refl

-- every row with this id is of this voter
abbrev pub IsOwned : ℕ → ℕ → List GeocodedLocation → Type 0
IsOwned voter i rows = All (λ l. location_at i l ≡ true → of_voter voter l ≡ true) rows

pub set_primary-counted :
    (voter i : ℕ) (rows : List GeocodedLocation)
    → IsOwned voter i rows
    → count_where (primary_of voter) (set_primary voter i rows) ≡ count_where (location_at i) rows
unfolding set_primary
set_primary-counted voter i [] owned = refl
set_primary-counted voter i (l ∷ rows) owned =
    let rest = set_primary-counted voter i rows owned.1 in
    elim (Bool-cases (l.id == i)) [
      | inl here ↦ rw (here, owned.0 here, here, owned.0 here) (ap suc rest)
      | inr other ↦ elim (Bool-cases (l.voter_id == voter)) [
        | inl mine ↦ rw (other, mine, other, mine) rest
        | inr theirs ↦ rw (other, theirs, other, theirs) rest
      ]
    ]

pub promote-counted :
    (voter i : ℕ) (rows : List GeocodedLocation)
    → IsOwned voter i rows
    → All (λ l. (primary_of voter l && not (l.id == i)) ≡ false) rows
    → count_where (primary_of voter) (modify (location_at i) (primary true) rows)
      ≡ count_where (location_at i) rows
promote-counted voter i [] owned alone = refl
promote-counted voter i (l ∷ rows) owned alone =
    let rest = promote-counted voter i rows owned.1 alone.1 in
    elim (Bool-cases (l.id == i)) [
      | inl here ↦ rw (here, owned.0 here) (ap suc rest)
      | inr other ↦ rw other (ground (arith, rest, alone.0))
    ]
