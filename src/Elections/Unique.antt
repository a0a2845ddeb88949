-- ===== src/Elections/Unique.antt =====
-- The unique indexes of models/election.py, and the writes of services/election_service.py that keep
-- them.
pub mod Handlers
pub mod Stores
pub mod Columns
pub mod Create
use voter_api.Prelude.{
  ℕ, ◌≡◌, refl, sym, ap, ◌∙◌, ◌⊎◌, inl, inr, Bool, true, false, not, ◌&&◌, Option, none, some, List,
  [], ◌∷◌, ◌++◌, ◌≤◌, arith, find, select, write, exists_where, count_where, IsKey, IsKey-append,
  IsKey-write, count_where-found, count_where-imp_le, Bool-cases, count_where-exists, is_none,
  is_some, ==_iff, find-pass,
}
use voter_api.Text.{Text, same_text}
use voter_api.Text.Equal.{same_text→≡, same_text_refl}
use voter_api.Elections.Db.{
  Db, Election, ElectionResult, ElectionCountyResult, election_at, named_on, fed_by, result_of,
  county_result, has_text,
}
use voter_api.Elections.Service.{has_id, may_store, feed_clash, others}

pub record UniqueElections (rows : List Election) : Type 0 where
  pub ids : (i : ℕ) → IsKey (has_id i) rows
  pub names : (name : Text) (date : ℕ) → IsKey (named_on name date) rows
  pub feeds : (url item : Text) → IsKey (fed_by url item) rows

-- the unique indexes of the tables of elections and results
pub record HasUniqueRows (db : Db) : Type 0 where
  pub elections : UniqueElections db.elections
  pub results : (i : ℕ) → IsKey (result_of i) db.results
  pub counties : (i : ℕ) (name : Text) → IsKey (county_result i name) db.county_results

module _ {ℓ} {A : Type ℓ} where
  count_where-none_there :
      (p : A → Bool) (xs : List A) → exists_where p xs ≡ false → count_where p xs ≡ 0
  count_where-none_there p xs h = (count_where-exists p xs).0 h

  -- what a selection drops does not count
  count_where-rest :
      (p q : A → Bool) (xs : List A)
      → count_where q xs ≡ 0
      → count_where p (select (λ a. not (q a)) xs) ≡ count_where p xs
  count_where-rest p q [] h = refl
  count_where-rest p q (x ∷ xs) h = ground (arith, count_where-rest p q xs)

  -- the one row under the key is not counted
  count_where-only :
      (p q : A → Bool) (xs : List A) {a : A}
      → IsKey q xs
      → find q xs ≡ some a
      → p a ≡ false
      → count_where p (select (λ b. not (q b)) xs) ≡ count_where p xs
  count_where-only p q [] k h no_p = cc
  count_where-only p q (x ∷ xs) {a} k h no_p = elim (Bool-cases (q x)) [
    | inl e ↦
        let same : x ≡ a = ground arith in
        let uncounted : p x ≡ false = ground arith in
        rw (e, uncounted) (count_where-rest p q xs (ground arith))
    | inr e ↦ ground (arith, count_where-only p q xs {a = a})
  ]

  -- a narrower test selects the one row under the key
  find-narrow :
      (p q : A → Bool) (xs : List A) {a : A}
      → ((b : A) → p b ≡ true → q b ≡ true)
      → IsKey q xs
      → find p xs ≡ some a
      → find q xs ≡ some a
  find-narrow p q [] k u h = cc
  find-narrow p q (x ∷ xs) {a} k u h = elim (Bool-cases (p x)) [
    | inl e ↦ rw (k x e) (ground arith)
    | inr e ↦ elim (Bool-cases (q x)) [
      | inl d ↦
          absurd (
            ground (arith, count_where-found p xs {a = a} (rw e at h), count_where-imp_le p q xs k))
      | inr d ↦ rw d (find-narrow p q xs k (rw d at u) (rw e at h))
    ]
  ]

-- a row under the name and date of a row that is kept apart from the others
named_on_eq :
    (name : Text) (date : ℕ) (e : Election)
    → named_on name date e ≡ true
    → (e.name ≡ name) × (e.election_date ≡ date) × (e.deleted_at ≡ none)
named_on_eq name date e h = (same_text→≡ e.name name (ground arith), ground arith, ground arith)

has_text_eq : (o : Option Text) (t : Text) → has_text o t ≡ true → o ≡ some t
has_text_eq none t h = absurd (ground arith)
has_text_eq (some s) t h = ap some (same_text→≡ s t h)

module _ (e : Election) (rows : List Election) (stored : may_store e rows ≡ true) where
  may_store-named :
      (name : Text) (date : ℕ)
      → named_on name date e ≡ true
      → count_where (named_on name date) rows ≡ 0
  unfolding may_store
  may_store-named name date h =
      let (same_name, same_date, live) = named_on_eq name date e h in
      let free : exists_where (named_on e.name e.election_date) rows ≡ false = ground arith in
      count_where-none_there (named_on name date) rows (rw (← same_name, ← same_date) free)

  may_store-fed :
      (url item : Text) → fed_by url item e ≡ true → count_where (fed_by url item) rows ≡ 0
  unfolding may_store
  may_store-fed url item h =
      let same_url = has_text_eq e.data_source_url url (ground arith) in
      let same_item = has_text_eq e.ballot_item_id item (ground arith) in
      let free : feed_clash e.data_source_url e.ballot_item_id rows ≡ false = ground arith in
      count_where-none_there (fed_by url item) rows (rw (same_url, same_item) at free)

-- a new row
pub UniqueElections-append :
    (e : Election) (rows : List Election)
    → may_store e rows ≡ true
    → exists_where (has_id e.id) rows ≡ false
    → UniqueElections rows
    → UniqueElections (rows ++ e ∷ [])
UniqueElections-append e rows stored unused u = record {
  ids = λ i.
      IsKey-append (has_id i) rows e
        (λ h.
          let same : e.id ≡ i = ground arith in
          count_where-none_there (has_id i) rows (rw same at unused))
        (u.ids i);
  names = λ name date.
      IsKey-append (named_on name date) rows e (may_store-named e rows stored name date)
        (u.names name date);
  feeds = λ url item.
      IsKey-append (fed_by url item) rows e (may_store-fed e rows stored url item)
        (u.feeds url item);
}

-- the row with an id is written, and its new value passes the indexes
module _ (i : ℕ) (e e' : Election) (rows : List Election) (u : UniqueElections rows)
    (found : find (election_at i) rows ≡ some e) (same_id : e'.id ≡ e.id)
    (stored : may_store e' (others i rows) ≡ true) where
  other_key :
      (p : Election → Bool)
      → (p e' ≡ true → count_where p (others i rows) ≡ 0)
      → IsKey p rows
      → IsKey p (write (election_at i) (λ _. e') rows)
  other_key p k h =
      let by_id =
        find-narrow (election_at i) (has_id i) rows (λ b l. ground arith) (u.ids i) found in
      IsKey-write p (election_at i) (λ _. e') rows
        (λ a is_a now.
          let same : a ≡ e = ground arith in
          elim (Bool-cases (p e)) [
            | inl was ↦ inl (rw same was)
            | inr was_not ↦
                inr (sym (count_where-only p (has_id i) rows (u.ids i) by_id was_not) ∙ k now)
          ])
        h

  pub UniqueElections-write : UniqueElections (write (election_at i) (λ _. e') rows)
  UniqueElections-write = record {
    ids = λ j.
        IsKey-write (has_id j) (election_at i) (λ _. e') rows
          (λ a is_a now. let same : a ≡ e = ground arith in inl (ground arith)) (u.ids j);
    names = λ name date.
        other_key (named_on name date) (may_store-named e' (others i rows) stored name date)
          (u.names name date);
    feeds = λ url item.
        other_key (fed_by url item) (may_store-fed e' (others i rows) stored url item)
          (u.feeds url item);
  }

-- the first row under a key is written, and gets no key that it did not have
pub UniqueElections-keep :
    (q : Election → Bool) (f : Election → Election) (rows : List Election)
    → ((e : Election) → (f e).id ≡ e.id)
    → ((name : Text) (date : ℕ) (e : Election)
        → named_on name date (f e) ≡ true
        → named_on name date e ≡ true)
    → ((url item : Text) (e : Election) → fed_by url item (f e) ≡ true → fed_by url item e ≡ true)
    → UniqueElections rows
    → UniqueElections (write q f rows)
UniqueElections-keep q f rows id names feeds u = record {
  ids = λ i. IsKey-write (has_id i) q f rows (λ a is_a now. inl (ground (arith, id a))) (u.ids i);
  names = λ name date.
      IsKey-write (named_on name date) q f rows (λ a is_a now. inl (names name date a now))
        (u.names name date);
  feeds = λ url item.
      IsKey-write (fed_by url item) q f rows (λ a is_a now. inl (feeds url item a now))
        (u.feeds url item);
}

abbrev pub KeepsRows : Db → Db → Type 0
KeepsRows db db' = HasUniqueRows db → HasUniqueRows db'
