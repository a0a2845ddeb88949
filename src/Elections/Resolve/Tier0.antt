-- ===== src/Elections/Resolve/Tier0.antt =====
-- What tier 0 of the resolution keeps of the records, the events and the elections.
use voter_api.Prelude.{
  ℕ, suc, ◌≡◌, refl, ◌∙◌, ap, sym, Bool, ◌&&◌, Option, none, some, List, [], ◌∷◌, arith,
  count_where, exists_where, Bool-cases, inl, inr, ok, ◌==◌, >>=-eq-ok, ◌>>=◌, modify, is_none,
}
use mathlib.Core.Path.{subst}
use voter_api.Text.{Text}
use voter_api.Elections.Db.{Db, Boundary, Election, one_or_none}
use voter_api.Elections.Link.{
  link_election_to_boundary, backfill, backfill_election_district_fields, with_district,
}
use voter_api.Elections.Resolve.Tables.{VoterHistory, ElectionEvent, Records, is_on, event_on}
use voter_api.Elections.Resolve.Events.{
  Assigned, of_event, with_event, assign_events, add_updated, find_or_create_election_event,
  link_event, backfill_election_event_ids, assigned_tables, date_types, resolve_tier0_pairs,
  resolve_tier0_event_matching, event_of,
}
use voter_api.Elections.Resolve.Induct.{ok-injective}

-- a turn of the loop over the dates and types
abbrev pub IsStep :
    (List (ℕ × Text) → List ElectionEvent → List VoterHistory → Type 0) → Bool → (ℕ → ℕ) → Type 0
IsStep M force draw =
    (k date : ℕ) (type : Text) (pairs : List (ℕ × Text)) (events : List ElectionEvent)
    (rows : List VoterHistory) (found : ℕ × List ElectionEvent)
    → find_or_create_election_event (draw k) date type events ≡ ok found
    → M ((date, type) ∷ pairs) events rows
    → M pairs found.1 (modify (of_event force date type) (with_event found.0) rows)

module _ (M : List (ℕ × Text) → List ElectionEvent → List VoterHistory → Type 0) (force : Bool)
    (draw : ℕ → ℕ) (step : IsStep M force draw) where
  assign_events-keeps :
      (k : ℕ) (pairs : List (ℕ × Text)) (events : List ElectionEvent) (rows : List VoterHistory)
      (end : Assigned)
      → assign_events force draw k pairs events rows ≡ ok end
      → M pairs events rows
      → M [] end.1.0 end.1.1
  unfolding assign_events
  assign_events-keeps k [] events rows end returns m =
      subst (λ (x : Assigned). M [] x.1.0 x.1.1) (ok-injective returns) m
  assign_events-keeps k ((date, type) ∷ pairs) events rows end returns m =
      let (found, finds, next) =
        >>=-eq-ok (find_or_create_election_event (draw k) date type events)
          (λ f.
            assign_events force draw (suc k) pairs f.1
              (modify (of_event force date type) (with_event f.0) rows)
            >>= λ rest. ok (add_updated (count_where (of_event force date type) rows) rest))
          returns in
      let (rest, rests, done) =
        >>=-eq-ok
          (assign_events force draw (suc k) pairs found.1
            (modify (of_event force date type) (with_event found.0) rows))
          (λ r. ok (add_updated (count_where (of_event force date type) rows) r)) next in
      subst (λ (x : Assigned). M [] x.1.0 x.1.1) (ok-injective done)
        (assign_events-keeps (suc k) pairs found.1
          (modify (of_event force date type) (with_event found.0) rows) rest rests
          (step k date type pairs events rows found finds m))

-- the elections before and after
abbrev pub KeepsTests : List Election → List Election → Type 0
KeepsTests before after =
    (i date : ℕ)
    → exists_where (λ e. e.id == i && e.election_date == date) after
      ≡ exists_where (λ e. e.id == i && e.election_date == date) before

-- the columns that tell an election and its date
abbrev SameDate : Election → Election → Type 0
SameDate e e' = (e'.id ≡ e.id) × (e'.election_date ≡ e.election_date)

event_of-SameDate : (v : Option ElectionEvent) (e : Election) → SameDate e (event_of v e)
event_of-SameDate none e = (refl, refl)
event_of-SameDate (some v) e = (refl, refl)

link_event-SameDate :
    (events : List ElectionEvent) (date : Option ℕ) (e e' : Election)
    → link_event events date e ≡ ok e'
    → SameDate e e'
unfolding link_event
link_event-SameDate events date e e' returns =
    elim (Bool-cases (is_none e.election_event_id && is_on date e.election_date)) [
      | inl lacks ↦
          let (v, finds, done) =
            >>=-eq-ok (one_or_none (event_on e.election_date e.election_type) events)
              (λ v. ok (event_of v e)) (rw (link_event, lacks) at returns) in
          subst (λ x. SameDate e x) (ok-injective done) (event_of-SameDate v e)
      | inr has ↦
          subst (λ x. SameDate e x) (ok-injective (rw (link_event, has) at returns)) (refl, refl)
    ]

backfill_election_event_ids-KeepsTests :
    (events : List ElectionEvent) (date : Option ℕ) (es after : List Election)
    → backfill_election_event_ids events date es ≡ ok after
    → KeepsTests es after
unfolding backfill_election_event_ids
backfill_election_event_ids-KeepsTests events date [] after returns i d =
    sym (ap (exists_where (λ e. e.id == i && e.election_date == d)) (ok-injective returns))
backfill_election_event_ids-KeepsTests events date (e ∷ es) after returns i d =
    let (e', links, next) =
      >>=-eq-ok (link_event events date e)
        (λ e'. backfill_election_event_ids events date es >>= λ rest. ok (e' ∷ rest)) returns in
    let (rest, fills, done) =
      >>=-eq-ok (backfill_election_event_ids events date es) (λ rest. ok (e' ∷ rest)) next in
    let (same_id, same_date) = link_event-SameDate events date e e' links in
    let kept = backfill_election_event_ids-KeepsTests events date es rest fills i d in
    sym (ap (exists_where (λ e. e.id == i && e.election_date == d)) (ok-injective done))
    ∙ rw (same_id, same_date, kept) refl

link_election_to_boundary-SameDate :
    (boundaries : List Boundary) (e : Election)
    → SameDate e (link_election_to_boundary boundaries e).0
unfolding link_election_to_boundary with_district
link_election_to_boundary-SameDate boundaries e = ground arith

backfill-KeepsTests :
    (boundaries : List Boundary) (es : List Election) → KeepsTests es (backfill boundaries es).0
backfill-KeepsTests boundaries [] i d = refl
backfill-KeepsTests boundaries (e ∷ es) i d =
    let (same_id, same_date) = link_election_to_boundary-SameDate boundaries e in
    let rest = backfill-KeepsTests boundaries es i d in
    elim (Bool-cases (is_none e.district_type)) [
      | inl unparsed ↦ rw (unparsed, same_id, same_date, rest) refl
      | inr has ↦ rw (has, rest) refl
    ]

pub backfill_election_district_fields-KeepsTests :
    (db : Db) → KeepsTests db.elections (backfill_election_district_fields db).0.elections
unfolding backfill_election_district_fields
backfill_election_district_fields-KeepsTests db = backfill-KeepsTests db.boundaries db.elections

module _ (M : List (ℕ × Text) → List ElectionEvent → List VoterHistory → Type 0) (force : Bool)
    (draw : ℕ → ℕ) (step : IsStep M force draw) where
  -- the tables after tier 0
  pub record IsKeptBy (before : Records) (after : Records) : Type 0 where
    pub holds : M [] after.election_events after.voter_history
    pub elections : KeepsTests before.db.elections after.db.elections

  assigned_tables-IsKeptBy :
      (h : Records) (date : Option ℕ) (end : Assigned) (result : ℕ × Records)
      → assigned_tables h date end ≡ ok result
      → M [] end.1.0 end.1.1
      → IsKeptBy h result.1
  assigned_tables-IsKeptBy h date (n, (events, rows)) result returns m =
      let (es, fills, done) =
        >>=-eq-ok (backfill_election_event_ids events date h.db.elections)
          (λ es. ok (
            n,
            record h {
              db = record h.db { elections = es };
              election_events = events;
              voter_history = rows;
            },
          ))
          returns in
      subst (λ (x : ℕ × Records). IsKeptBy h x.1) (ok-injective done)
        (record {
          holds = m;
          elections = backfill_election_event_ids-KeepsTests events date h.db.elections es fills;
        })

  resolve_tier0_pairs-IsKeptBy :
      (h : Records) (date : Option ℕ) (pairs : List (ℕ × Text)) (result : ℕ × Records)
      → resolve_tier0_pairs h draw date force pairs ≡ ok result
      → M pairs h.election_events h.voter_history
      → IsKeptBy h result.1
  unfolding resolve_tier0_pairs
  resolve_tier0_pairs-IsKeptBy h date [] result returns m =
      subst (λ (x : ℕ × Records). IsKeptBy h x.1) (ok-injective returns)
        (record { holds = m; elections = λ i d. refl })
  resolve_tier0_pairs-IsKeptBy h date (pair ∷ pairs) result returns m =
      let (end, assigns, next) =
        >>=-eq-ok (assign_events force draw 0 (pair ∷ pairs) h.election_events h.voter_history)
          (λ end. assigned_tables h date end) returns in
      assigned_tables-IsKeptBy h date end result next (
        assign_events-keeps M force draw step 0 (pair ∷ pairs) h.election_events h.voter_history end
          assigns m)

  pub resolve_tier0_event_matching-IsKeptBy :
      (h : Records) (date : Option ℕ) (result : ℕ × Records)
      → resolve_tier0_event_matching h draw date force ≡ ok result
      → M (date_types date force h.voter_history) h.election_events h.voter_history
      → IsKeptBy h result.1
  unfolding resolve_tier0_event_matching
  resolve_tier0_event_matching-IsKeptBy h date =
      resolve_tier0_pairs-IsKeptBy h date (date_types date force h.voter_history)
