-- ===== src/Prelude/Results.antt =====
-- A handler that may raise. An exception ends the request: its session is closed with nothing
-- committed, so an error carries no state unless the handler has committed before it raises.
use mathlib.Core.Path.{◌≡◌, refl}
use mathlib.Core.Bool.{Bool, true, false}
use mathlib.Core.Option.{Option, none, some}
use mathlib.Core.Logic.{◌⊎◌, inl, inr}

pub data Result {ℓ} (E A : Type ℓ) : Type ℓ where
  ok : A → Result E A
  err : E → Result E A

module _ {ℓ} {E : Type ℓ} where
  infixl 5 ◌>>=◌
  abbrev pub ◌>>=◌ : {A B : Type ℓ} → Result E A → (A → Result E B) → Result E B
  ok a >>= f = f a
  err e >>= f = err e

  abbrev pub guard : Bool → E → Result E (Unit {ℓ})
  guard true e = ok tt
  guard false e = err e

  -- the object that a query found, or the exception that is raised without it
  abbrev pub or_raise : {A : Type ℓ} → Option A → E → Result E A
  or_raise none e = err e
  or_raise (some a) e = ok a

module _ {ℓ} {E : Type ℓ} where
  infixl 5 ◌>>◌
  abbrev pub ◌>>◌ : {B : Type ℓ} → Result E (Unit {ℓ}) → Result E B → Result E B
  m >> k = m >>= λ _. k

-- The database after a request: what the handler committed, or the old one if it raised.
abbrev pub committed {ℓ} : {E A S : Type ℓ} → S → Result E (A × S) → S
committed s (ok (a, s')) = s'
committed s (err e) = s

module _ {ℓ} {E A : Type ℓ} where
  pub Result-cases : (r : Result E A) → ((a : A) × (r ≡ ok a)) ⊎ ((e : E) × (r ≡ err e))
  Result-cases (ok a) = inl (a, refl)
  Result-cases (err e) = inr (e, refl)

  -- what a block has committed only if its first step returned
  pub >>=-eq-ok :
      {B : Type ℓ} {end : B} (first : Result E A) (next : A → Result E B)
      → (first >>= next) ≡ ok end
      → (mid : A) × (first ≡ ok mid) × (next mid ≡ ok end)
  >>=-eq-ok (err raised) next returns = cc
  >>=-eq-ok (ok mid) next returns = (mid, refl, returns)

-- To show a property of the database after a request, show it of the old one and of what a
-- successful run commits.
module _ {ℓ} {E A S : Type ℓ} (P : S → Type 0) (s : S) where
  pub if_committed :
      (r : Result E (A × S)) → P s → ((a : A) (s' : S) → r ≡ ok (a, s') → P s') → P (committed s r)
  if_committed (ok (a, s')) h k = k a s' refl
  if_committed (err e) h k = h
