-- ===== src/Elections/Resolve/Induct.antt =====
-- What every bulk update of the resolution keeps, tiers 1 and 2 keep.
use voter_api.Prelude.{
  ℕ, ◌≡◌, refl, Bool, true, false, Option, none, some, List, [], ◌∷◌, arith, All, All-select,
  All-find, All-imp₂, select, select-pass, find, find-pass, count_where, Bool-cases, inl, inr,
  Result, ok, ◌==◌, >>=-eq-ok,
}
use mathlib.Core.Path.{subst}
use voter_api.Elections.Db.{Election, one_or_none}
use voter_api.Elections.Resolve.Tables.{VoterHistory, Voter, Records, one}
use voter_api.Elections.Resolve.Updates.{assign}
use voter_api.Elections.Resolve.Single.{
  on_date, resolve_tier1_single_election, in_single, single_county,
}
use voter_api.Elections.Resolve.Multiple.{
  rows_after, counted, resolve_elections, seen_elections, see, see_all, same_key, is_better,
  resolve_tier2_district_matching,
}
use voter_api.Elections.Resolve.Run.{
  Progress, add_tier1, resolve_date, resolve_dates, resolve_by_count,
}
use voter_api.Elections.Resolve.Reach.{reach, test_of, turn_of, resolve_election-turn}

pub one-find :
    {A : Type 0} (p : A → Bool) (rows : List A) (a : A) → one p rows ≡ ok a → find p rows ≡ some a
unfolding one one_or_none
one-find p rows a h = ground arith

-- for a property that asks nothing of the elections
pub All-unit : (es : List Election) → All (λ e. Unit {0}) es
All-unit [] = tt
All-unit (e ∷ es) = (tt, All-unit es)

pub ok-injective : {E A : Type 0} {a b : A} → ◌≡◌ {A = Result E A} (ok a) (ok b) → a ≡ b
ok-injective h = ground arith

see-All :
    (P : Election → Type 0) (xs : List Election) (e : Election) → All P xs → P e → All P (see xs e)
see-All P [] e h k = (k, tt)
see-All P (x ∷ xs) e h k = elim (Bool-cases (same_key e x)) [
  | inl same ↦ elim (Bool-cases (is_better e x)) [
    | inl better ↦ rw (same, better) (k, h.1)
    | inr worse ↦ rw (same, worse) h
  ]
  | inr other ↦ rw other (h.0, see-All P xs e h.1 k)
]

see_all-All :
    (P : Election → Type 0) (es xs : List Election) → All P xs → All P es → All P (see_all xs es)
see_all-All P [] xs h k = h
see_all-All P (e ∷ es) xs h k = see_all-All P es (see xs e) (see-All P xs e h k.0) k.1

-- an update of records of the date, to an election of the date
abbrev pub IsKept : (List VoterHistory → Type 0) → (Election → Type 0) → Bool → Type 0
IsKept P Q force =
    (date : ℕ) (e : Election) (test : VoterHistory → Bool) (rows : List VoterHistory)
    → Q e
    → on_date date e ≡ true
    → P rows
    → P (assign force date e.id test rows).1

module _ (P : List VoterHistory → Type 0) (Q : Election → Type 0) (force : Bool)
    (keep : IsKept P Q force) where
  abbrev IsCandidate : ℕ → Election → Type 0
  IsCandidate date e = Q e × (on_date date e ≡ true)

  turn-keeps :
      (date : ℕ) (e : Election) (rows : List VoterHistory) (t : Option (VoterHistory → Bool))
      → IsCandidate date e
      → P rows
      → P (rows_after (turn_of force date e.id t rows) rows)
  turn-keeps date e rows none q p = p
  turn-keeps date e rows (some test) q p = keep date e test rows q.0 q.1 p

  rows_of_counted :
      (turn : Option (ℕ × List VoterHistory)) (r : (ℕ × ℕ) × List VoterHistory)
      → (counted turn r).1 ≡ r.1
  rows_of_counted none r = refl
  rows_of_counted (some t) r = refl

  resolve_elections-keeps :
      (voters : List Voter) (date : ℕ) (es : List Election) (rows : List VoterHistory)
      → All (IsCandidate date) es
      → P rows
      → P (resolve_elections voters force date es rows).1
  unfolding resolve_elections
  resolve_elections-keeps voters date [] rows all p = p
  resolve_elections-keeps voters date (e ∷ es) rows all p =
      rw
        (
          resolve_election-turn voters force date e rows,
          rows_of_counted (turn_of force date e.id (test_of voters e (reach e)) rows),
        )
        (resolve_elections-keeps voters date es
          (rows_after (turn_of force date e.id (test_of voters e (reach e)) rows) rows) all.1
          (turn-keeps date e rows (test_of voters e (reach e)) all.0 p))

  pub resolve_tier2_district_matching-keeps :
      (elections : List Election) (voters : List Voter) (date : ℕ) (rows : List VoterHistory)
      → All Q elections
      → P rows
      → P (resolve_tier2_district_matching elections voters date force rows).1
  unfolding resolve_tier2_district_matching seen_elections
  resolve_tier2_district_matching-keeps elections voters date rows all p =
      let candidates =
        All-imp₂ Q (λ e. on_date date e ≡ true) (IsCandidate date) (λ e q d. (q, d))
          (select (on_date date) elections) (All-select Q (on_date date) elections all)
          (select-pass (on_date date) elections) in
      resolve_elections-keeps voters date (see_all [] (select (on_date date) elections)) rows
        (see_all-All (IsCandidate date) (select (on_date date) elections) [] tt candidates) p

  pub resolve_tier1_single_election-keeps :
      (h : Records) (date : ℕ) (r : ℕ × List VoterHistory)
      → resolve_tier1_single_election h date force ≡ ok r
      → All Q h.db.elections
      → P h.voter_history
      → P r.1
  unfolding resolve_tier1_single_election
  resolve_tier1_single_election-keeps h date r returns all p =
      let (e, found, here) =
        >>=-eq-ok (one (on_date date) h.db.elections)
          (λ e.
            ok (
              assign force date e.id (in_single (single_county h.db.boundaries e)) h.voter_history))
          returns in
      let first = one-find (on_date date) h.db.elections e found in
      let kept =
        keep date e (in_single (single_county h.db.boundaries e)) h.voter_history
          (All-find Q (on_date date) h.db.elections all first)
          (find-pass (on_date date) h.db.elections first) p in
      subst (λ (x : ℕ × List VoterHistory). P x.1) (ok-injective here) kept

  resolve_by_count-keeps :
      (h : Records) (date : ℕ) (single : Bool) (progress after : Progress)
      → resolve_by_count h force date single progress ≡ ok after
      → All Q h.db.elections
      → P progress.1
      → P after.1
  unfolding resolve_by_count
  resolve_by_count-keeps h date true (result, rows) after returns all p =
      let (r, tier1, done) =
        >>=-eq-ok (resolve_tier1_single_election (record h { voter_history = rows }) date force)
          (λ found. ok (add_tier1 result found)) returns in
      subst (λ (x : Progress). P x.1) (ok-injective done)
        (resolve_tier1_single_election-keeps (record h { voter_history = rows }) date r tier1 all p)
  resolve_by_count-keeps h date false (result, rows) after returns all p =
      subst (λ (x : Progress). P x.1) (ok-injective returns)
        (resolve_tier2_district_matching-keeps h.db.elections h.voters date rows all p)

  resolve_date-keeps :
      (h : Records) (date : ℕ) (progress after : Progress)
      → resolve_date h force date progress ≡ ok after
      → All Q h.db.elections
      → P progress.1
      → P after.1
  unfolding resolve_date
  resolve_date-keeps h date progress after returns all p =
      resolve_by_count-keeps h date (count_where (on_date date) h.db.elections == 1) progress after
        returns all p

  pub resolve_dates-keeps :
      (h : Records) (ds : List ℕ) (progress after : Progress)
      → resolve_dates h force ds progress ≡ ok after
      → All Q h.db.elections
      → P progress.1
      → P after.1
  unfolding resolve_dates
  resolve_dates-keeps h [] progress after returns all p =
      subst (λ (x : Progress). P x.1) (ok-injective returns) p
  resolve_dates-keeps h (d ∷ ds) progress after returns all p =
      let (mid, first, rest) =
        >>=-eq-ok (resolve_date h force d progress) (λ next. resolve_dates h force ds next)
          returns in
      resolve_dates-keeps h ds mid after rest all (resolve_date-keeps h d progress mid first all p)
