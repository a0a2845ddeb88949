-- ===== src/Prelude/Tests.antt =====
-- Boolean tests, the conditional, and case splits that keep the equation.
use Prim.Native.Nat.{ℕ, ◌≤◌, ◌<◌, compare, Ordering}
use mathlib.Core.Path.{◌≡◌, refl}
use mathlib.Core.Logic.{◌↔◌, ◌⊎◌, inl, inr}
use mathlib.Core.Bool.{Bool, true, false, ◌&&◌}
use mathlib.Core.Option.{Option, none, some}
use native.Mathlib.Omega.{arith}

abbrev pub ltb : ℕ → ℕ → Bool
ltb a b = elim (compare a b) [ Ordering.lt ↦ true | _ ↦ false ]

abbrev pub leb : ℕ → ℕ → Bool
leb a b = elim (compare a b) [ Ordering.gt ↦ false | _ ↦ true ]

infix 50 ◌==◌
abbrev pub ◌==◌ : ℕ → ℕ → Bool
a == b = elim (compare a b) [ Ordering.eq ↦ true | _ ↦ false ]

infix 1 if◌then◌else◌
abbrev pub if◌then◌else◌ {ℓ} : {A : Type ℓ} → Bool → A → A → A
if true then x else y = x
if false then x else y = y

pub ltb→lt : (a b : ℕ) → ltb a b ≡ true → a < b
ltb→lt a b h = ground arith

pub lt→ltb : (a b : ℕ) → a < b → ltb a b ≡ true
lt→ltb a b h = ground arith

pub leb→le : (a b : ℕ) → leb a b ≡ true → a ≤ b
leb→le a b h = ground arith

pub ==_iff : (a b : ℕ) → ((a == b) ≡ true) ↔ (a ≡ b)
==_iff a b = ground arith

pub ==_refl : (a : ℕ) → (a == a) ≡ true
==_refl a = ground arith

pub ruleset tests = (arith, ltb→lt, lt→ltb, leb→le)

pub Bool-cases : (b : Bool) → (b ≡ true) ⊎ (b ≡ false)
Bool-cases true = inl refl
Bool-cases false = inr refl

module _ {ℓ} {A : Type ℓ} where
  -- `x is None` and `x is not None`
  abbrev pub is_none : Option A → Bool
  is_none none = true
  is_none (some a) = false

  abbrev pub is_some : Option A → Bool
  is_some none = false
  is_some (some a) = true

  pub Option-cases : (o : Option A) → (o ≡ none) ⊎ ((a : A) × (o ≡ some a))
  Option-cases none = inl refl
  Option-cases (some a) = inr (a, refl)

-- `x == y` where either may be None, as an SQL or a Python comparison with a value
abbrev pub is_eq : Option ℕ → ℕ → Bool
is_eq none n = false
is_eq (some m) n = m == n

-- a decision as a Boolean test
abbrev pub is_true {ℓ} : {P : Type ℓ} → Dec P → Bool
is_true (yes p) = true
is_true (no p) = false

pub is_true_iff {ℓ} : {P : Type ℓ} (d : Dec P) → (is_true d ≡ true) ↔ P
is_true_iff (yes p) = (λ h. p, λ q. refl)
is_true_iff (no n) = (λ h. ground arith, λ q. absurd (n q))

-- a test that holds exactly where a decision does
pub same_test {ℓ} : {P : Type ℓ} (b : Bool) (d : Dec P) → (b ≡ true) ↔ P → b ≡ is_true d
same_test true (yes p) k = refl
same_test true (no n) k = absurd (n (k.0 refl))
same_test false (yes p) k = k.1 p
same_test false (no n) k = refl

pub &&_iff {ℓ κ} :
    {P : Type ℓ} {Q : Type κ} {b c : Bool}
    → (b ≡ true) ↔ P
    → (c ≡ true) ↔ Q
    → ((b && c) ≡ true) ↔ (P × Q)
&&_iff {b = b} {c = c} h k = (
  λ e. let (l, r) : (b ≡ true) × (c ≡ true) = ground arith in (h.0 l, k.0 r),
  λ (p, q). rw (h.1 p, k.1 q) refl,
)

pub leb_iff : (a b : ℕ) → (leb a b ≡ true) ↔ (a ≤ b)
leb_iff a b = (leb→le a b, λ h. ground arith)
