-- ===== src/Elections/Resolve/First.antt =====
-- Tier 2 against its description: each record goes to the first election that reaches it.
use voter_api.Prelude.{
  ℕ, ◌≡◌, refl, ◌∙◌, ap, sym, Bool, false, ◌&&◌, ◌+◌, Option, none, some, List, [], ◌∷◌, arith,
  count_where, is_none, is_some, if◌then◌else◌, modify, map, Bool-cases, inl, inr, select,
}
use voter_api.Elections.Db.{Election}
use voter_api.Elections.Resolve.Tables.{VoterHistory, Voter}
use voter_api.Elections.Resolve.Updates.{is_open, with_election}
use voter_api.Elections.Resolve.Single.{on_date}
use voter_api.Elections.Resolve.Multiple.{
  Resolved, rows_after, counted, resolve_elections, seen_elections, resolve_tier2_district_matching,
}
use voter_api.Elections.Resolve.Reach.{reach, test_of, turn_of, resolve_election-turn}

abbrev passes : Option (VoterHistory → Bool) → VoterHistory → Bool
passes none r = false
passes (some test) r = test r

-- an election reaches a record
abbrev pub reaches : List Voter → VoterHistory → Election → Bool
reaches voters r e = passes (test_of voters e (reach e)) r

-- the first election that reaches a record
abbrev pub first_match : List Voter → List Election → VoterHistory → Option ℕ
first_match voters [] r = none
first_match voters (e ∷ es) r =
    let rest = first_match voters es r in if reaches voters r e then some e.id else rest

abbrev given : Option ℕ → VoterHistory → VoterHistory
given none r = r
given (some i) r = with_election i r

-- a record of the date without an election goes to the first that reaches it
abbrev pub settled : List Voter → ℕ → List Election → VoterHistory → VoterHistory
settled voters date es r = if is_open false date r then given (first_match voters es r) r else r

abbrev pub is_nobody : List Voter → Election → Bool
is_nobody voters e = is_none (test_of voters e (reach e))

module _ {A B : Type 0} where
  map-modify :
      (f g : A → B) (q : A → Bool) (h : A → A) (xs : List A)
      → ((a : A) → f (if q a then h a else a) ≡ g a)
      → map f (modify q h xs) ≡ map g xs
  map-modify f g q h [] same = refl
  map-modify f g q h (x ∷ xs) same = rw (same x, map-modify f g q h xs same) refl

  map-cong : (f g : A → B) → ((a : A) → f a ≡ g a) → (xs : List A) → map f xs ≡ map g xs
  map-cong f g same [] = refl
  map-cong f g same (x ∷ xs) = rw (same x, map-cong f g same xs) refl

module _ {A : Type 0} where
  -- the rows that pass one test, and then those of the rest that pass another
  count_where-modify_split :
      (p q t : A → Bool) (h : A → A) (xs : List A)
      → ((a : A)
          → (if q a then 1 else 0) + (if p (if q a then h a else a) then 1 else 0)
            ≡ (if t a then 1 else 0))
      → count_where q xs + count_where p (modify q h xs) ≡ count_where t xs
  count_where-modify_split p q t h [] split = refl
  count_where-modify_split p q t h (x ∷ xs) split =
      ground (arith, split x, count_where-modify_split p q t h xs split)

  count_where-same :
      (p q : A → Bool) → ((a : A) → p a ≡ q a) → (xs : List A) → count_where p xs ≡ count_where q xs
  count_where-same p q same [] = refl
  count_where-same p q same (x ∷ xs) = rw (same x, count_where-same p q same xs) refl

  count_where-never :
      (p : A → Bool) → ((a : A) → p a ≡ false) → (xs : List A) → count_where p xs ≡ 0
  count_where-never p never [] = refl
  count_where-never p never (x ∷ xs) = rw (never x, count_where-never p never xs) refl

  map-same : (f : A → A) → ((a : A) → f a ≡ a) → (xs : List A) → map f xs ≡ xs
  map-same f same [] = refl
  map-same f same (x ∷ xs) = rw (same x, map-same f same xs) refl

module _ (voters : List Voter) (date : ℕ) where
  abbrev is_assigned : List Election → VoterHistory → Bool
  is_assigned es r = is_open false date r && is_some (first_match voters es r)

  -- the three results of the loop
  pub record IsFirst (es : List Election) (rows : List VoterHistory) (result : Resolved)
      : Type 0 where
    pub records : result.1 ≡ map (settled voters date es) rows
    pub updated : result.0.0 ≡ count_where (is_assigned es) rows
    pub unresolvable : result.0.1 ≡ count_where (is_nobody voters) es

  abbrev matched : (VoterHistory → Bool) → VoterHistory → Bool
  matched test r = is_open false date r && test r

  given-closed : (i : ℕ) (r : VoterHistory) → is_open false date (with_election i r) ≡ false
  given-closed i r = ground arith

  -- one turn, and the rest of the loop
  settled-turn :
      (e : Election) (es : List Election) (test : VoterHistory → Bool)
      → test_of voters e (reach e) ≡ some test
      → (r : VoterHistory)
      → settled voters date es (if matched test r then with_election e.id r else r)
        ≡ settled voters date (e ∷ es) r
  settled-turn e es test is_test r = elim (Bool-cases (is_open false date r)) [
    | inl is_free ↦ elim (Bool-cases (test r)) [
      | inl found ↦ rw (is_free, found, is_test, found, given-closed e.id r) refl
      | inr other ↦ rw (is_free, other, is_test, is_free, other) refl
    ]
    | inr closed ↦ rw (closed, closed) refl
  ]

  assigned-turn :
      (e : Election) (es : List Election) (test : VoterHistory → Bool)
      → test_of voters e (reach e) ≡ some test
      → (r : VoterHistory)
      → (if matched test r then 1 else 0)
          + (if is_assigned es (if matched test r then with_election e.id r else r) then 1 else 0)
        ≡ (if is_assigned (e ∷ es) r then 1 else 0)
  assigned-turn e es test is_test r = elim (Bool-cases (is_open false date r)) [
    | inl is_free ↦ elim (Bool-cases (test r)) [
      | inl found ↦ rw (is_free, found, is_test, found, given-closed e.id r) refl
      | inr other ↦ rw (is_free, other, is_test, is_free, other) (omega arith)
    ]
    | inr closed ↦ rw (closed, closed) refl
  ]

  no_match :
      (e : Election) (es : List Election)
      → test_of voters e (reach e) ≡ none
      → (r : VoterHistory) → first_match voters (e ∷ es) r ≡ first_match voters es r
  no_match e es nobody r = rw nobody refl

  loop-turn :
      (e : Election) (es : List Election) (rows : List VoterHistory)
      → (t : Option (VoterHistory → Bool)) → test_of voters e (reach e) ≡ t
      → IsFirst es (rows_after (turn_of false date e.id t rows) rows) (
          resolve_elections voters false date es (rows_after (turn_of false date e.id t rows) rows))
      → IsFirst (e ∷ es) rows (
          counted (turn_of false date e.id t rows) (
            resolve_elections voters false date es
              (rows_after (turn_of false date e.id t rows) rows)))
  loop-turn e es rows none is_test rest = record {
    records =
        rest.records
        ∙ map-cong (settled voters date es) (settled voters date (e ∷ es))
            (λ r.
              ap (λ m. if is_open false date r then given m r else r)
                (sym (no_match e es is_test r)))
            rows;
    updated =
        rest.updated
        ∙ count_where-same (is_assigned es) (is_assigned (e ∷ es))
            (λ r. ap (λ m. is_open false date r && is_some m) (sym (no_match e es is_test r))) rows;
    unresolvable = rw is_test (omega (arith, rest.unresolvable));
  }
  loop-turn e es rows (some test) is_test rest = record {
    records =
        rest.records
        ∙ map-modify (settled voters date es) (settled voters date (e ∷ es)) (matched test)
            (with_election e.id) rows (settled-turn e es test is_test);
    updated =
        ap (λ n. count_where (matched test) rows + n) rest.updated
        ∙ count_where-modify_split (is_assigned es) (matched test) (is_assigned (e ∷ es))
            (with_election e.id) rows (assigned-turn e es test is_test);
    unresolvable = rw is_test rest.unresolvable;
  }

  resolve_elections-IsFirst :
      (es : List Election) (rows : List VoterHistory)
      → IsFirst es rows (resolve_elections voters false date es rows)
  unfolding resolve_elections
  resolve_elections-IsFirst [] rows = record {
    records = sym (map-same (settled voters date []) (λ r. ground arith) rows);
    updated = sym (count_where-never (is_assigned []) (λ r. ground arith) rows);
    unresolvable = refl;
  }
  resolve_elections-IsFirst (e ∷ es) rows = rw (resolve_election-turn voters false date e rows) (
      loop-turn e es rows (test_of voters e (reach e)) refl (
        resolve_elections-IsFirst es
          (rows_after (turn_of false date e.id (test_of voters e (reach e)) rows) rows)))

-- Tier 2 without `force`: a record of the date that has no election gets the first of the elections
-- of that date, duplicates left out, that reaches it, and no other record is changed; it counts the
-- records that got one as updated, and the elections that reach nobody as unresolvable.
pub resolve_tier2_district_matching-IsFirst :
    (elections : List Election) (voters : List Voter) (date : ℕ) (rows : List VoterHistory)
    → IsFirst voters date
        (seen_elections (select (on_date date) elections))
        rows
        (resolve_tier2_district_matching elections voters date false rows)
unfolding resolve_tier2_district_matching
resolve_tier2_district_matching-IsFirst elections voters date rows =
    resolve_elections-IsFirst voters date (seen_elections (select (on_date date) elections)) rows
