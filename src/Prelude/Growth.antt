-- ===== src/Prelude/Growth.antt =====
-- How a table may change: every old row has its successor at the same place, and new rows follow.
use mathlib.Core.Path.{◌≡◌}
use mathlib.Core.Bool.{Bool, true, false}
use mathlib.Core.List.{List, [], ◌∷◌, ◌++◌}
use mathlib.Core.Option.{some}
use mathlib.Core.Logic.{◌⊎◌, inl, inr}
use voter_api.Prelude.Tests.{if◌then◌else◌, Bool-cases}
use voter_api.Prelude.Rows.{find, modify, write}

module _ {ℓ} {A : Type ℓ} where
  abbrev pub Extends : (A → A → Type 0) → List A → List A → Type 0
  Extends R [] ys = Unit
  Extends R (x ∷ xs) [] = ⊥
  Extends R (x ∷ xs) (y ∷ ys) = R x y × Extends R xs ys

module _ {ℓ} {A : Type ℓ} (R : A → A → Type 0) where
  pub Extends-append : ((a : A) → R a a) → (xs ys : List A) → Extends R xs (xs ++ ys)
  Extends-append r [] ys = tt
  Extends-append r (x ∷ xs) ys = (r x, Extends-append r xs ys)

  pub Extends-refl : ((a : A) → R a a) → (xs : List A) → Extends R xs xs
  Extends-refl r [] = tt
  Extends-refl r (x ∷ xs) = (r x, Extends-refl r xs)

  pub Extends-trans :
      ((a b c : A) → R a b → R b c → R a c)
      → (xs ys zs : List A) → Extends R xs ys
      → Extends R ys zs
      → Extends R xs zs
  Extends-trans t [] ys zs h k = tt
  Extends-trans t (x ∷ xs) [] zs h k = absurd h
  Extends-trans t (x ∷ xs) (y ∷ ys) [] h k = absurd k
  Extends-trans t (x ∷ xs) (y ∷ ys) (z ∷ zs) h k =
      (t x y z h.0 k.0, Extends-trans t xs ys zs h.1 k.1)

  pub Extends-modify :
      ((a : A) → R a a)
      → (q : A → Bool) (f : A → A) → ((a : A) → q a ≡ true → R a (f a))
      → (xs : List A) → Extends R xs (modify q f xs)
  Extends-modify r q f k [] = tt
  Extends-modify r q f k (x ∷ xs) = (head (Bool-cases (q x)), Extends-modify r q f k xs)
    where
      head : (q x ≡ true) ⊎ (q x ≡ false) → R x (if q x then f x else x)
      head (inl e) = rw e (k x e)
      head (inr e) = rw e (r x)

  pub Extends-write :
      ((a : A) → R a a)
      → (q : A → Bool) (f : A → A) (xs : List A) → ((a : A) → find q xs ≡ some a → R a (f a))
      → Extends R xs (write q f xs)
  Extends-write r q f [] k = tt
  Extends-write r q f (x ∷ xs) k = elim (Bool-cases (q x)) [
    | inl e ↦ rw e (k x (rw e), Extends-refl r xs)
    | inr e ↦ rw e (r x, Extends-write r q f xs (rw e at k))
  ]
