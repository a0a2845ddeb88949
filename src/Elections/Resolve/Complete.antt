-- ===== src/Elections/Resolve/Complete.antt =====
-- Every record in the scope of a resolution has an event afterwards.
use voter_api.Prelude.{
  ℕ, ◌≡◌, refl, Bool, true, false, ◌&&◌, Option, List, [], ◌∷◌, arith, ok, All, All-imp, All-modify,
  All-modify-rest, ==_refl, is_none, is_some, ◌==◌, Bool-cases, inl, inr, ◌⊎◌, map, select,
}
use voter_api.Text.{Text, same_text}
use voter_api.Text.Equal.{same_text→≡, same_text_refl}
use voter_api.Elections.Resolve.Tables.{VoterHistory, Records, is_on}
use voter_api.Elections.Resolve.Events.{
  of_event, with_event, date_types, lacks_event, has_pair, distinct,
}
use voter_api.Elections.Resolve.Updates.{is_open, with_election}
use voter_api.Elections.Resolve.Run.{ResolutionResult, resolve_voter_history_elections}
use voter_api.Elections.Resolve.Induct.{All-unit}
use voter_api.Elections.Resolve.Tier0.{IsStep}
use voter_api.Elections.Resolve.Outcome.{resolve_voter_history_elections-Outcome}

abbrev key : VoterHistory → ℕ × Text
key r = (r.election_date, r.normalized_election_type)

abbrev in_pairs : List (ℕ × Text) → VoterHistory → Bool
in_pairs pairs r = has_pair r.election_date r.normalized_election_type pairs

distinct-has_pair :
    (d : ℕ) (t : Text) (pairs : List (ℕ × Text))
    → has_pair d t pairs ≡ true
    → has_pair d t (distinct pairs) ≡ true
distinct-has_pair d t [] h = h
distinct-has_pair d t ((a, b) ∷ pairs) h = elim (Bool-cases (has_pair a b (distinct pairs))) [
  | inl again ↦ elim (Bool-cases (d == a && same_text t b)) [
    | inl here ↦
        let on : d ≡ a = ground arith in
        let typed = same_text→≡ t b (ground arith) in rw (again, on, typed) again
    | inr other ↦ rw again (distinct-has_pair d t pairs (ground arith))
  ]
  | inr first ↦ elim (Bool-cases (d == a && same_text t b)) [
    | inl here ↦ rw (first, here) refl
    | inr other ↦ rw (first, other) (distinct-has_pair d t pairs (ground arith))
  ]
]

-- the records of the date, which have an event or whose date and type are left
abbrev IsListed : Option ℕ → List (ℕ × Text) → VoterHistory → Type 0
IsListed date pairs r =
    is_on date r.election_date ≡ true
    → (is_some r.election_event_id ≡ true) ⊎ (in_pairs pairs r ≡ true)

in_pairs-more :
    (p : VoterHistory → Bool) (r x : VoterHistory) (rows : List VoterHistory)
    → in_pairs (map key (select p rows)) x ≡ true
    → in_pairs (map key (select p (r ∷ rows))) x ≡ true
in_pairs-more p r x rows there = elim (Bool-cases (p r)) [
  | inl taken ↦ rw taken (ground arith)
  | inr left ↦ rw left there
]

selected-in_pairs :
    (p : VoterHistory → Bool) (rows : List VoterHistory)
    → All (λ r. p r ≡ true → in_pairs (map key (select p rows)) r ≡ true) rows
selected-in_pairs p [] = tt
selected-in_pairs p (r ∷ rows) = (
  λ taken. rw (taken, ==_refl r.election_date, same_text_refl r.normalized_election_type) refl,
  All-imp (λ x. p x ≡ true → in_pairs (map key (select p rows)) x ≡ true)
      (λ x. p x ≡ true → in_pairs (map key (select p (r ∷ rows))) x ≡ true)
      (λ x old h. in_pairs-more p r x rows (old h)) rows (selected-in_pairs p rows),
)

listed-other :
    (force : Bool) (d : ℕ) (type : Text) (pairs : List (ℕ × Text)) (r : VoterHistory)
    → of_event force d type r ≡ false
    → (is_some r.election_event_id ≡ true) ⊎ (in_pairs ((d, type) ∷ pairs) r ≡ true)
    → (is_some r.election_event_id ≡ true) ⊎ (in_pairs pairs r ≡ true)
listed-other force d type pairs r other (inl has) = inl has
listed-other force d type pairs r other (inr listed) =
    elim (Bool-cases (is_none r.election_event_id)) [
      | inl lacks ↦ inr (ground arith)
      | inr has ↦ inl (ground arith)
    ]

module _ (date : Option ℕ) (force : Bool) (draw : ℕ → ℕ) where
  IsListed-IsStep : IsStep (λ pairs events rows. All (IsListed date pairs) rows) force draw
  IsListed-IsStep k d type pairs events rows found finds all =
      All-modify-rest (IsListed date ((d, type) ∷ pairs)) (IsListed date pairs)
        (of_event force d type) (with_event found.0) rows (λ r is_of old on. inl refl)
        (λ r other old on. listed-other force d type pairs r other (old on)) all

  abbrev HasEventOnDate : VoterHistory → Type 0
  HasEventOnDate r = is_on date r.election_date ≡ true → is_some r.election_event_id ≡ true

  nothing_left : (r : VoterHistory) → IsListed date [] r → HasEventOnDate r
  nothing_left r listed on = elim (listed on) [ inl has ↦ has | inr left ↦ cc ]

  date_types-IsListed :
      (rows : List VoterHistory) → All (IsListed date (date_types date force rows)) rows
  date_types-IsListed rows =
      All-imp
        (λ r.
          (is_on date r.election_date && lacks_event force r) ≡ true
          → in_pairs
              (map key (select (λ r. is_on date r.election_date && lacks_event force r) rows)) r
            ≡ true)
        (IsListed date (date_types date force rows))
        (λ r listed on. elim (Bool-cases (is_none r.election_event_id)) [
          | inl lacks ↦ inr (
              distinct-has_pair r.election_date r.normalized_election_type
                (map key (select (λ r. is_on date r.election_date && lacks_event force r) rows))
                (listed (ground arith)))
          | inr has ↦ inl (ground arith)
        ])
        rows (selected-in_pairs (λ r. is_on date r.election_date && lacks_event force r) rows)

  pub resolve_voter_history_elections-listed :
      (h : Records) (end : ResolutionResult × Records)
      → resolve_voter_history_elections h draw date force false ≡ ok end
      → All
          (λ r. is_on date r.election_date ≡ true → is_some r.election_event_id ≡ true)
          end.1.voter_history
  resolve_voter_history_elections-listed h end returns =
      let o =
        resolve_voter_history_elections-Outcome
          (λ pairs events rows. All (IsListed date pairs) rows)
          (λ tables rows. All HasEventOnDate rows) (λ tables e. Unit {0}) force draw IsListed-IsStep
          (λ tables d e test rows q here all.
            All-modify HasEventOnDate (λ r. is_open force d r && test r) (with_election e.id) rows
              (λ r is_of old. old) all)
          h date false end returns (date_types-IsListed h.voter_history)
          (λ tables kept. (
            All-unit tables.db.elections,
            All-imp (IsListed date []) HasEventOnDate nothing_left tables.voter_history kept.holds,
          )) in
      rw o.committed o.holds
