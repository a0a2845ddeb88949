-- ===== src/Prelude/Rows.antt =====
-- A table is the list of its rows in order of insertion. These are the queries and the writes that
-- the services make through SQLAlchemy: `select … where`, `scalar_one_or_none`, `func.count`, and
-- the assignment to attributes of the rows that a query returned.
use Prim.Native.Nat.{ℕ, suc, ◌+◌, ◌<◌}
use mathlib.Core.Path.{◌≡◌, refl, ap}
use mathlib.Core.Logic.{◌⊎◌, inl, inr}
use mathlib.Core.Bool.{Bool, true, false}
use mathlib.Core.Option.{Option, none, some}
use mathlib.Core.List.{List, [], ◌∷◌, ◌++◌}
use native.Mathlib.Omega.{arith}
use voter_api.Prelude.Tests.{if◌then◌else◌, is_some, Bool-cases}
use voter_api.Prelude.Lists.{All}

module _ {ℓ} {A : Type ℓ} where
  -- the rows that pass the test, in order
  abbrev pub select : (A → Bool) → List A → List A
  select p [] = []
  select p (x ∷ xs) = let rest = select p xs in if p x then x ∷ rest else rest

  -- the row that a unique key selects
  abbrev pub find : (A → Bool) → List A → Option A
  find p [] = none
  find p (x ∷ xs) = let rest = find p xs in if p x then some x else rest

  abbrev pub count_where : (A → Bool) → List A → ℕ
  count_where p [] = 0
  count_where p (x ∷ xs) = let rest = count_where p xs in if p x then suc rest else rest

  abbrev pub exists_where : (A → Bool) → List A → Bool
  exists_where p [] = false
  exists_where p (x ∷ xs) = let rest = exists_where p xs in if p x then true else rest

  -- every row that passes the test is written
  abbrev pub modify : (A → Bool) → (A → A) → List A → List A
  modify p f [] = []
  modify p f (x ∷ xs) = (if p x then f x else x) ∷ modify p f xs

  -- the row that `find` returns is written: an assignment to the attributes of that object
  abbrev pub write : (A → Bool) → (A → A) → List A → List A
  write p f [] = []
  write p f (x ∷ xs) = let rest = write p f xs in if p x then f x ∷ xs else x ∷ rest

module _ {ℓ} {A : Type ℓ} where
  pub find-pass : (p : A → Bool) (xs : List A) {a : A} → find p xs ≡ some a → p a ≡ true
  find-pass p [] h = ground arith
  find-pass p (x ∷ xs) {a} h = ground (arith, find-pass p xs {a = a})

  -- `select` keeps rows that pass the test
  pub select-pass : (p : A → Bool) (xs : List A) → All (λ a. p a ≡ true) (select p xs)
  select-pass p [] = tt
  select-pass p (x ∷ xs) = elim (Bool-cases (p x)) [
    | inl e ↦ rw e (e, select-pass p xs)
    | inr e ↦ rw e (select-pass p xs)
  ]

  pub count_where-zero :
      (p : A → Bool) (xs : List A) → count_where p xs ≡ 0 → All (λ a. p a ≡ false) xs
  count_where-zero p [] h = tt
  count_where-zero p (x ∷ xs) h = elim (Bool-cases (p x)) [
    | inl e ↦ absurd (ground arith)
    | inr e ↦ (e, count_where-zero p xs (rw e at h))
  ]

  pub count_where-same :
      (p q : A → Bool) (xs : List A) → ((a : A) → p a ≡ q a) → count_where p xs ≡ count_where q xs
  count_where-same p q [] k = refl
  count_where-same p q (x ∷ xs) k = rw (k x, count_where-same p q xs k) refl

  pub find-exists : (p : A → Bool) (xs : List A) → is_some (find p xs) ≡ exists_where p xs
  find-exists p [] = refl
  find-exists p (x ∷ xs) = ground (arith, find-exists p xs)

  -- a write that keeps what the test reads keeps the answer
  pub exists_where-modify :
      (p q : A → Bool) (f : A → A) (xs : List A)
      → ((a : A) → q a ≡ true → p (f a) ≡ p a)
      → exists_where p (modify q f xs) ≡ exists_where p xs
  exists_where-modify p q f [] h = refl
  exists_where-modify p q f (x ∷ xs) h = ground (arith, h x, exists_where-modify p q f xs h)

  pub exists_where-append :
      (p : A → Bool) (xs ys : List A) → exists_where p xs ≡ true → exists_where p (xs ++ ys) ≡ true
  exists_where-append p [] ys h = cc
  exists_where-append p (x ∷ xs) ys h = ground (arith, exists_where-append p xs ys)

module _ {ℓ} {A : Type ℓ} where
  -- to keep a predicate of every row, keep it for the rows that are written
  pub All-modify :
      (P : A → Type 0) (q : A → Bool) (f : A → A) (xs : List A)
      → ((a : A) → q a ≡ true → P a → P (f a))
      → All P xs
      → All P (modify q f xs)
  All-modify P q f [] k h = tt
  All-modify P q f (x ∷ xs) k h = (head (Bool-cases (q x)), All-modify P q f xs k h.1)
    where
      head : (q x ≡ true) ⊎ (q x ≡ false) → P (if q x then f x else x)
      head (inl e) = rw e (k x e h.0)
      head (inr e) = rw e (h.0)

  -- a predicate that changes with the write, for the rows written and for the rest
  pub All-modify-rest :
      (P Q : A → Type 0) (q : A → Bool) (f : A → A) (xs : List A)
      → ((a : A) → q a ≡ true → P a → Q (f a))
      → ((a : A) → q a ≡ false → P a → Q a)
      → All P xs
      → All Q (modify q f xs)
  All-modify-rest P Q q f [] k l h = tt
  All-modify-rest P Q q f (x ∷ xs) k l h = elim (Bool-cases (q x)) [
    | inl e ↦ rw e (k x e h.0, All-modify-rest P Q q f xs k l h.1)
    | inr e ↦ rw e (l x e h.0, All-modify-rest P Q q f xs k l h.1)
  ]

  pub All-write :
      (P : A → Type 0) (q : A → Bool) (f : A → A) (xs : List A)
      → ((a : A) → find q xs ≡ some a → P a → P (f a))
      → All P xs
      → All P (write q f xs)
  All-write P q f [] k h = tt
  All-write P q f (x ∷ xs) k h = elim (Bool-cases (q x)) [
    | inl e ↦ rw e (k x (rw e) h.0, h.1)
    | inr e ↦ rw e (h.0, All-write P q f xs (rw e at k) h.1)
  ]

  pub exists_where-write :
      (p q : A → Bool) (f : A → A) (xs : List A)
      → ((a : A) → find q xs ≡ some a → p (f a) ≡ p a)
      → exists_where p (write q f xs) ≡ exists_where p xs
  exists_where-write p q f [] k = refl
  exists_where-write p q f (x ∷ xs) k = elim (Bool-cases (q x)) [
    | inl e ↦ rw (e, k x (rw e))
    | inr e ↦ rw (e, exists_where-write p q f xs (rw e at k))
  ]

  -- the row that was written is the one that the key selects afterwards
  pub find-write :
      (q : A → Bool) (f : A → A) (xs : List A)
      → ((a : A) → q a ≡ true → q (f a) ≡ true)
      → {a : A} → find q xs ≡ some a
      → find q (write q f xs) ≡ some (f a)
  find-write q f [] k h = cc
  find-write q f (x ∷ xs) k {a} h = elim (Bool-cases (q x)) [
    | inl e ↦ let same : x ≡ a = ground arith in rw (e, k x e) (ap (λ b. some (f b)) same)
    | inr e ↦ rw (e, e) (find-write q f xs k (rw e at h))
  ]

  -- two keys that select the same row: the one finds what was written under the other
  pub find-write_key :
      (p q : A → Bool) (f : A → A) (xs : List A) {a : A}
      → find p xs ≡ some a
      → find q xs ≡ some a
      → p (f a) ≡ true
      → find p (write q f xs) ≡ some (f a)
  find-write_key p q f [] h k l = cc
  find-write_key p q f (x ∷ xs) {a} h k l =
      ground
        (arith, find-pass p xs {a = a}, find-pass q xs {a = a}, find-write_key p q f xs {a = a})

  pub count_where-modify_none :
      (p : A → Bool) (f : A → A) (xs : List A)
      → ((a : A) → p a ≡ true → p (f a) ≡ false)
      → count_where p (modify p f xs) ≡ 0
  count_where-modify_none p f [] k = refl
  count_where-modify_none p f (x ∷ xs) k = elim (Bool-cases (p x)) [
    | inl e ↦ rw (e, k x e) (count_where-modify_none p f xs k)
    | inr e ↦ rw (e, e) (count_where-modify_none p f xs k)
  ]

  -- a row that the write does not concern is still the one that the key selects
  pub find-modify :
      (p q : A → Bool) (f : A → A) (xs : List A)
      → ((a : A) → p a ≡ false → p (f a) ≡ false)
      → {a : A} → find p xs ≡ some a
      → q a ≡ false
      → find p (modify q f xs) ≡ some a
  find-modify p q f [] k h other = cc
  find-modify p q f (x ∷ xs) k {a} h other = elim (Bool-cases (p x)) [
    | inl e ↦ let same : x ≡ a = ground arith in rw (same, other, ← same, e)
    | inr e ↦
        let rest = find-modify p q f xs k (rw e at h) other in
        elim (Bool-cases (q x)) [ inl d ↦ rw (d, k x e) rest | inr d ↦ rw (d, e) rest ]
  ]

  pub count_where-append :
      (p : A → Bool) (xs ys : List A)
      → count_where p (xs ++ ys) ≡ count_where p xs + count_where p ys
  count_where-append p [] ys = omega arith
  count_where-append p (x ∷ xs) ys = ground (arith, count_where-append p xs ys)

  pub count_where-exists :
      (p : A → Bool) (xs : List A)
      → (exists_where p xs ≡ false → count_where p xs ≡ 0)
        × (exists_where p xs ≡ true → 0 < count_where p xs)
  count_where-exists p [] = (λ h. refl, λ h. cc)
  count_where-exists p (x ∷ xs) = elim (Bool-cases (p x)) [
    | inl e ↦ rw e (λ h. cc, λ h. omega arith)
    | inr e ↦ rw e (count_where-exists p xs)
  ]

  -- a write changes a count by the row that it writes
  pub count_where-write :
      (p q : A → Bool) (f : A → A) (xs : List A) {a : A}
      → find q xs ≡ some a
      → count_where p (write q f xs) + (if p a then 1 else 0)
        ≡ count_where p xs + (if p (f a) then 1 else 0)
  count_where-write p q f [] h = cc
  count_where-write p q f (x ∷ xs) {a} h = elim (Bool-cases (q x)) [
    | inl e ↦ let same : x ≡ a = ground arith in rw (e, ← same) (ground arith)
    | inr e ↦ rw e (ground (arith, count_where-write p q f xs {a = a} (rw e at h)))
  ]

  pub write-none : (q : A → Bool) (f : A → A) (xs : List A) → find q xs ≡ none → write q f xs ≡ xs
  write-none q f [] h = refl
  write-none q f (x ∷ xs) h = ground (arith, write-none q f xs)

  pub All-select : (P : A → Type 0) (p : A → Bool) (xs : List A) → All P xs → All P (select p xs)
  All-select P p [] h = tt
  All-select P p (x ∷ xs) h = elim (Bool-cases (p x)) [
    | inl e ↦ rw e (h.0, All-select P p xs h.1)
    | inr e ↦ rw e (All-select P p xs h.1)
  ]
