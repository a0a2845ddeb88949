-- ===== src/Analysis/Comparator/Details.antt =====
-- The list of mismatches that `compare_boundaries` returns.
use voter_api.Prelude.{
  Bool, true, false, ◌&&◌, ◌≡◌, refl, sym, ap, ◌∙◌, ◌⊎◌, List, [], ◌∷◌, ◌++◌, Option, none, some,
  inl, inr, arith, ◌≢◌, Option-cases, find, exists_where, select, is_some, if◌then◌else◌,
  Bool-cases,
}
use voter_api.Text.{Text, same_text}
use voter_api.Text.Equal.{same_text→≡, same_text_iff}
use voter_api.Analysis.Comparator.{
  Assignment, Mismatch, Comparison, conflict, note, nothing, get, compare_types, types_of, text_leb,
  comparable_types, normalize_for_comparison, compare_boundaries,
}
use voter_api.Analysis.Comparator.Verdict.{exists_where-sort_by}

-- an entry for this type
abbrev pub is_for : Text → Mismatch → Bool
is_for t m = same_text m.boundary_type t

abbrev or_else : Option Mismatch → Option Mismatch → Option Mismatch
or_else none o = o
or_else (some m) o = some m

or_else_assoc : (a b c : Option Mismatch) → or_else (or_else a b) c ≡ or_else a (or_else b c)
or_else_assoc none b c = refl
or_else_assoc (some m) b c = refl

or_else-none : (a : Option Mismatch) → or_else a none ≡ a
or_else-none none = refl
or_else-none (some m) = refl

abbrev is_type : Text → Text → Bool
is_type t k = same_text k t

find-append :
    (t : Text) (xs : List Mismatch) (m : Mismatch)
    → find (is_for t) (xs ++ (m ∷ []))
      ≡ or_else (find (is_for t) xs) (if is_for t m then some m else none)
find-append t [] m = ground arith
find-append t (x ∷ xs) m = elim (Bool-cases (is_for t x)) [
  | inl e ↦ rw e refl
  | inr e ↦ rw e (find-append t xs m)
]

or_else-if_none : (b : Bool) (a : Option Mismatch) → a ≡ or_else a (if b then none else none)
or_else-if_none false a = sym (or_else-none a)
or_else-if_none true a = sym (or_else-none a)

find-note :
    (t k : Text) (found : Comparison) (c : Option Mismatch)
    → (c ≡ none) ⊎ ((m : Mismatch) × (c ≡ some m) × (m.boundary_type ≡ k))
    → find (is_for t) (note found k c).mismatches
      ≡ or_else (find (is_for t) found.mismatches) (if is_type t k then c else none)
find-note t k found c (inl e) =
    rw e (or_else-if_none (is_type t k) (find (is_for t) found.mismatches))
find-note t k found c (inr (m, e, same)) = rw (e, sym same) (find-append t found.mismatches m)

conflict-boundary_type :
    (k : Text) (d r : Option Text)
    → (conflict k d r ≡ none) ⊎ ((m : Mismatch) × (conflict k d r ≡ some m) × (m.boundary_type ≡ k))
conflict-boundary_type k none r = inl refl
conflict-boundary_type k (some d) none = inl refl
conflict-boundary_type k (some d) (some r) =
    let norm = normalize_for_comparison k d r in
    elim (Bool-cases (same_text norm.0 norm.1)) [
      | inl e ↦ inl (rw e refl)
      | inr e ↦ inr (record { boundary_type = k; registered = r; determined = d }, rw e refl, refl)
    ]

or_else_if :
    (here later : Bool) (a b c : Option Mismatch)
    → (here ≡ true → b ≡ c)
    → or_else (or_else a (if here then b else none)) (if later then c else none)
      ≡ or_else a (if (if here then true else later) then c else none)
or_else_if false later a b c h = rw (or_else-none a) refl
or_else_if true false a b c h = or_else-none (or_else a b) ∙ ap (or_else a) (h refl)
or_else_if true true a none c h = rw (or_else-none a) refl
or_else_if true true none (some m) c h = h refl
or_else_if true true (some x) (some m) c h = refl

module _ (determined registered : List Assignment) where
  -- the entry that a type gives
  abbrev entry : Text → Option Mismatch
  entry t = conflict t (get t determined) (get t registered)

  find-compare_types :
      (t : Text) (types : List Text) (found : Comparison)
      → find (is_for t) (compare_types determined registered types found).mismatches
        ≡ or_else
            (find (is_for t) found.mismatches)
            (if exists_where (is_type t) types then entry t else none)
  unfolding compare_types
  find-compare_types t [] found = sym (or_else-none (find (is_for t) found.mismatches))
  find-compare_types t (k ∷ types) found =
      let c = conflict k (get k determined) (get k registered) in
      find-compare_types t types (note found k c)
      ∙ ap (λ o. or_else o (if exists_where (is_type t) types then entry t else none))
          (find-note t k found c (conflict-boundary_type k (get k determined) (get k registered)))
      ∙ or_else_if (is_type t k) (exists_where (is_type t) types) (find (is_for t) found.mismatches)
          c (entry t) (λ e. ap entry (same_text→≡ k t e))

exists_where-types_of :
    (t : Text) (items : List Assignment)
    → exists_where (is_type t) (types_of items) ≡ is_some (get t items)
exists_where-types_of t [] = refl
exists_where-types_of t (a ∷ items) = ground (arith, exists_where-types_of t items)

exists_where-select_type :
    (t : Text) (q : Text → Bool) (types : List Text)
    → exists_where (is_type t) (select q types) ≡ (exists_where (is_type t) types && q t)
exists_where-select_type t q [] = refl
exists_where-select_type t q (k ∷ types) = elim (Bool-cases (is_type t k)) [
  | inl e ↦
      let same = same_text→≡ k t e in
      let kept : q k ≡ q t = ap q same in ground (arith, exists_where-select_type t q types)
  | inr e ↦ ground (arith, exists_where-select_type t q types)
]

conflict-shared :
    (t : Text) (d r : Option Text)
    → (if is_some d && is_some r then conflict t d r else none) ≡ conflict t d r
conflict-shared t none r = refl
conflict-shared t (some d) none = refl
conflict-shared t (some d) (some r) = refl

-- what the entry of a type is by `conflict`
compare_boundaries-entry :
    (determined registered : List Assignment) (t : Text)
    → find (is_for t) (compare_boundaries determined registered).mismatch_details
      ≡ conflict t (get t determined) (get t registered)
unfolding compare_boundaries
compare_boundaries-entry [] registered t = refl
compare_boundaries-entry (a ∷ items) registered t =
    let determined = a ∷ items in
    let shared = select (λ k. is_some (get k registered)) (types_of determined) in
    let looked_at =
      exists_where-sort_by (is_type t) text_leb shared
      ∙ exists_where-select_type t (λ k. is_some (get k registered)) (types_of determined)
      ∙ ap (λ b. b && is_some (get t registered)) (exists_where-types_of t determined) in
    find-compare_types determined registered t (comparable_types determined registered) nothing
    ∙ ap (λ b. if b then entry determined registered t else none) looked_at
    ∙ conflict-shared t (get t determined) (get t registered)

conflict-unshared : (t : Text) (d r : Option Text) → (d ≡ none) ⊎ (r ≡ none) → conflict t d r ≡ none
conflict-unshared t none r h = refl
conflict-unshared t (some d) none h = refl
conflict-unshared t (some d) (some r) (inl e) = ground arith
conflict-unshared t (some d) (some r) (inr e) = ground arith

module _ (determined registered : List Assignment) (t : Text) where
  -- the first entry of the type in the answer
  abbrev pub detail : Option Mismatch
  detail = find (is_for t) (compare_boundaries determined registered).mismatch_details

  -- the values of the type in both dicts, with what their normal forms make of them
  abbrev pub IsDetailed : Type 0
  IsDetailed =
      ((d : Text) × (r : Text) × (get t determined ≡ some d)
        × (get t registered ≡ some r)
        × ((((normalize_for_comparison t d r).0 ≡ (normalize_for_comparison t d r).1)
              × (detail ≡ none))
            ⊎ (((normalize_for_comparison t d r).0 ≢ (normalize_for_comparison t d r).1)
                × (detail ≡ some (record { boundary_type = t; registered = r; determined = d })))))
      ⊎ (((get t determined ≡ none) ⊎ (get t registered ≡ none)) × (detail ≡ none))

  detail-shared :
      (d r : Text)
      → get t determined ≡ some d
      → get t registered ≡ some r
      → detail ≡ conflict t (some d) (some r)
  detail-shared d r has_d has_r =
      compare_boundaries-entry determined registered t
      ∙ ap (λ o. conflict t o (get t registered)) has_d
      ∙ ap (conflict t (some d)) has_r

  -- A type that both dicts have has no entry among the mismatches if its values have the same normal
  -- form; if their normal forms differ it has one, which carries the two values as the dicts hold
  -- them. A type that either dict lacks has no entry.
  pub compare_boundaries-mismatch_details : IsDetailed
  compare_boundaries-mismatch_details = elim (Option-cases (get t determined)) [
    | inl no_d ↦ inr (
      inl no_d,
      compare_boundaries-entry determined registered t
          ∙ conflict-unshared t (get t determined) (get t registered) (inl no_d),
    )
    | inr (d, has_d) ↦ elim (Option-cases (get t registered)) [
      | inl no_r ↦ inr (
        inr no_r,
        compare_boundaries-entry determined registered t
            ∙ conflict-unshared t (get t determined) (get t registered) (inr no_r),
      )
      | inr (r, has_r) ↦
          let norm = normalize_for_comparison t d r in
          inl (
            d,
            r,
            has_d,
            has_r,
            elim (Bool-cases (same_text norm.0 norm.1)) [
              | inl e ↦ inl (same_text→≡ norm.0 norm.1 e, detail-shared d r has_d has_r ∙ rw e refl)
              | inr e ↦ inr (
                (λ same. absurd (ground (arith, (same_text_iff norm.0 norm.1).1 same))),
                detail-shared d r has_d has_r ∙ rw e refl,
              )
            ],
          )
    ]
  ]
