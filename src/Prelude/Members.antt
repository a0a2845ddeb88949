-- ===== src/Prelude/Members.antt =====
-- Membership in a list, for the tests and the queries on tables.
use mathlib.Core.Path.{◌≡◌, refl, sym, ap, ◌∙◌, subst}
use mathlib.Core.Logic.{inl, inr}
use mathlib.Core.Bool.{Bool, true}
use mathlib.Core.Option.{some}
use mathlib.Core.List.{List, [], ◌∷◌}
use mathlib.Core.List.{Memᴰ, Permᴰ}
use mathlib.Core.List.Memᴰ
use voter_api.Prelude.Lists.{All}
use native.Mathlib.Omega.{arith}
use voter_api.Prelude.Tests.{Bool-cases}
use voter_api.Prelude.Rows.{find, exists_where}

module _ {ℓ} {A : Type ℓ} (p : A → Bool) where
  pub exists_where-Memᴰ :
      (xs : List A) → exists_where p xs ≡ true → (a : A) × Memᴰ a xs × (p a ≡ true)
  exists_where-Memᴰ [] h = ground arith
  exists_where-Memᴰ (x ∷ xs) h = elim (Bool-cases (p x)) [
    | inl e ↦ (x, Memᴰ.head refl, e)
    | inr e ↦ let (a, m, q) = exists_where-Memᴰ xs (rw e at h) in (a, Memᴰ.tail m, q)
  ]

  pub Memᴰ-exists_where : (a : A) (xs : List A) → Memᴰ a xs → p a ≡ true → exists_where p xs ≡ true
  Memᴰ-exists_where a [] m h = absurd (Memᴰ.not-nil m)
  Memᴰ-exists_where a (x ∷ xs) m h = elim (Memᴰ.cases_cons m) [
    | inl e ↦ let here : p x ≡ true = sym (ap p e) ∙ h in rw here refl
    | inr n ↦ let later = Memᴰ-exists_where a xs n h in ground arith
  ]

  pub find-Memᴰ : (a : A) (xs : List A) → find p xs ≡ some a → Memᴰ a xs
  find-Memᴰ a [] h = ground arith
  find-Memᴰ a (x ∷ xs) h = elim (Bool-cases (p x)) [
    | inl e ↦ let same : a ≡ x = ground arith in Memᴰ.head same
    | inr e ↦ Memᴰ.tail (find-Memᴰ a xs (rw e at h))
  ]

  -- the only row that passes the test is the one that is found
  pub Memᴰ-find :
      (a : A) (xs : List A)
      → ((b : A) → Memᴰ b xs → p b ≡ true → b ≡ a)
      → Memᴰ a xs
      → p a ≡ true
      → find p xs ≡ some a
  Memᴰ-find a [] only m h = absurd (Memᴰ.not-nil m)
  Memᴰ-find a (x ∷ xs) only m h = elim (Bool-cases (p x)) [
    | inl e ↦ rw e (ap some (only x (Memᴰ.head refl) e))
    | inr e ↦ elim (Memᴰ.cases_cons m) [
      | inl same ↦ absurd (ground (arith, ap p same))
      | inr n ↦ rw e (Memᴰ-find a xs (λ b k. only b (Memᴰ.tail k)) n h)
    ]
  ]

module _ {ℓ κ} {A : Type ℓ} where
  pub All-Permᴰ : (P : A → Type κ) {us vs : List A} → Permᴰ us vs → All P vs → All P us
  All-Permᴰ P Permᴰ.nil h = tt
  All-Permᴰ P (Permᴰ.cons e p) h = (subst P (sym e) h.0, All-Permᴰ P p h.1)
  All-Permᴰ P (Permᴰ.swap e d) h = (subst P (sym e) h.1.0, (subst P (sym d) h.0, h.1.1))
  All-Permᴰ P (Permᴰ.trans p q) h = All-Permᴰ P p (All-Permᴰ P q h)

  pub Memᴰ-All : (P : A → Type κ) (xs : List A) → ((a : A) → Memᴰ a xs → P a) → All P xs
  Memᴰ-All P [] h = tt
  Memᴰ-All P (x ∷ xs) h = (h x (Memᴰ.head refl), Memᴰ-All P xs (λ a m. h a (Memᴰ.tail m)))
