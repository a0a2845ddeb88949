-- ===== src/Prelude/Keys.antt =====
-- A key that at most one row has: how the tables keep it.
use Prim.Native.Nat.{◌≤◌}
use mathlib.Core.Path.{◌≡◌, refl, subst}
use mathlib.Core.Logic.{◌⊎◌, ◌≢◌, inl, inr}
use mathlib.Core.Bool.{Bool, true, false, not}
use mathlib.Core.Option.{none, some}
use mathlib.Core.List.{List, [], ◌∷◌, ◌++◌}
use native.Mathlib.Omega.{arith}
use voter_api.Prelude.Tests.{Bool-cases, Option-cases}
use voter_api.Prelude.Lists.{All}
use voter_api.Prelude.Rows.{
  exists_where, find, select, write, write-none, count_where, count_where-append, count_where-write,
}

module _ {ℓ} {A : Type ℓ} where
  abbrev pub IsKey : (A → Bool) → List A → Type 0
  IsKey p xs = count_where p xs ≤ 1

  pub count_where-none :
      (p q : A → Bool) (xs : List A)
      → ((a : A) → q a ≡ true → p a ≡ true)
      → find p xs ≡ none
      → count_where q xs ≡ 0
  count_where-none p q [] k h = refl
  count_where-none p q (x ∷ xs) k h = ground (arith, k x, count_where-none p q xs k)

  pub find-none_imp :
      (p q : A → Bool) (xs : List A)
      → ((a : A) → q a ≡ true → p a ≡ true)
      → find p xs ≡ none
      → find q xs ≡ none
  find-none_imp p q [] k h = refl
  find-none_imp p q (x ∷ xs) k h = ground (arith, k x, find-none_imp p q xs k)

  pub count_where-write_same :
      (p q : A → Bool) (f : A → A) (xs : List A)
      → ((a : A) → p (f a) ≡ p a)
      → count_where p (write q f xs) ≡ count_where p xs
  count_where-write_same p q f [] k = refl
  count_where-write_same p q f (x ∷ xs) k = ground (arith, k x, count_where-write_same p q f xs k)

  pub count_where-select_le :
      (p q : A → Bool) (xs : List A) → count_where p (select q xs) ≤ count_where p xs
  count_where-select_le p q [] = omega arith
  count_where-select_le p q (x ∷ xs) = ground (arith, count_where-select_le p q xs)

  pub count_where-select_none :
      (p : A → Bool) (xs : List A) → count_where p (select (λ a. not (p a)) xs) ≡ 0
  count_where-select_none p [] = refl
  count_where-select_none p (x ∷ xs) = ground (arith, count_where-select_none p xs)

  -- the row that is written gets no key that another row has
  pub IsKey-write :
      (p q : A → Bool) (f : A → A) (xs : List A)
      → ((a : A) → find q xs ≡ some a → p (f a) ≡ true → (p a ≡ true) ⊎ (count_where p xs ≡ 0))
      → IsKey p xs
      → IsKey p (write q f xs)
  IsKey-write p q f xs k h = elim (Option-cases (find q xs)) [
    | inl e ↦ rw (write-none q f xs e) h
    | inr (a, e) ↦ ground (arith, count_where-write p q f xs e, k a e)
  ]

  pub IsKey-append :
      (p : A → Bool) (xs : List A) (a : A)
      → (p a ≡ true → count_where p xs ≡ 0)
      → IsKey p xs
      → IsKey p (xs ++ a ∷ [])
  IsKey-append p xs a k h =
      let sum = count_where-append p xs (a ∷ []) in
      elim (Bool-cases (p a)) [ inl e ↦ ground (arith, k e) | inr e ↦ ground arith ]

  pub count_where-imp_le :
      (p q : A → Bool) (xs : List A)
      → ((a : A) → p a ≡ true → q a ≡ true)
      → count_where p xs ≤ count_where q xs
  count_where-imp_le p q [] k = omega arith
  count_where-imp_le p q (x ∷ xs) k = ground (arith, k x, count_where-imp_le p q xs k)

  pub exists_where-select :
      (p q : A → Bool) (xs : List A)
      → exists_where p xs ≡ false
      → exists_where p (select q xs) ≡ false
  exists_where-select p q [] h = refl
  exists_where-select p q (x ∷ xs) h = ground (arith, exists_where-select p q xs)

  pub count_where-found :
      (p : A → Bool) (xs : List A) {a : A} → find p xs ≡ some a → 1 ≤ count_where p xs
  count_where-found p [] h = absurd (ground arith)
  count_where-found p (x ∷ xs) {a} h = ground (arith, count_where-found p xs {a = a})

  -- two tests that select different rows
  pub count_where-two :
      (p q r : A → Bool) (xs : List A) {a b : A}
      → ((c : A) → p c ≡ true → r c ≡ true)
      → ((c : A) → q c ≡ true → r c ≡ true)
      → find p xs ≡ some a
      → find q xs ≡ some b
      → a ≢ b
      → 2 ≤ count_where r xs
  count_where-two p q r [] k l h g other = absurd (ground arith)
  count_where-two p q r (x ∷ xs) {a} {b} k l h g other = ground (
    arith,
    k x,
    l x,
    count_where-two p q r xs {a = a} {b = b} k l,
    count_where-found p xs {a = a},
    count_where-found q xs {a = b},
    count_where-imp_le p r xs k,
    count_where-imp_le q r xs l,
  )

  -- no row that passes one test is left by a selection that drops them
  pub count_where-dropped :
      (p q : A → Bool) (xs : List A)
      → ((a : A) → p a ≡ true → q a ≡ false)
      → count_where p (select q xs) ≡ 0
  count_where-dropped p q [] k = refl
  count_where-dropped p q (x ∷ xs) k = ground (arith, k x, count_where-dropped p q xs k)

  pub All-find :
      (P : A → Type 0) (p : A → Bool) (xs : List A) {a : A} → All P xs → find p xs ≡ some a → P a
  All-find P p [] h found = absurd (ground arith)
  All-find P p (x ∷ xs) {a} h found = elim (Bool-cases (p x)) [
    | inl e ↦ let same : x ≡ a = ground arith in subst P same h.0
    | inr e ↦ All-find P p xs h.1 (rw e at found)
  ]

  pub exists_where-append_right :
      (p : A → Bool) (xs ys : List A) → exists_where p ys ≡ true → exists_where p (xs ++ ys) ≡ true
  exists_where-append_right p [] ys h = h
  exists_where-append_right p (x ∷ xs) ys h = ground (arith, exists_where-append_right p xs ys h)

  pub exists_where-write_imp :
      (p q : A → Bool) (f : A → A) (xs : List A)
      → ((a : A) → find q xs ≡ some a → p a ≡ true → p (f a) ≡ true)
      → exists_where p xs ≡ true
      → exists_where p (write q f xs) ≡ true
  exists_where-write_imp p q f [] k h = h
  exists_where-write_imp p q f (x ∷ xs) k h = elim (Bool-cases (q x)) [
    | inl e ↦ rw e (ground (arith, k x (rw e)))
    | inr e ↦ rw e (ground (arith, exists_where-write_imp p q f xs (rw e at k)))
  ]

  pub exists_where-found :
      (p q : A → Bool) (xs : List A) {a : A}
      → find q xs ≡ some a
      → p a ≡ true
      → exists_where p xs ≡ true
  exists_where-found p q [] h k = absurd (ground arith)
  exists_where-found p q (x ∷ xs) {a} h k = elim (Bool-cases (q x)) [
    | inl e ↦ let same : x ≡ a = ground arith in ground arith
    | inr e ↦ ground (arith, exists_where-found p q xs {a = a})
  ]
