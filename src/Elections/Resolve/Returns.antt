-- ===== src/Elections/Resolve/Returns.antt =====
-- The resolution raises nothing where no two events have the same date and type.
use voter_api.Prelude.{
  ℕ, suc, ◌≡◌, refl, ◌≤◌, Bool, true, false, ◌&&◌, Option, List, [], ◌∷◌, arith, ok, modify,
  is_none, ◌==◌, ==_refl, exists_where, count_where, count_where-append, count_where-exists,
  exists_where-append_right, find, Bool-cases, Option-cases, inl, inr, ◌>>=◌, Result, find-exists,
}
use voter_api.Text.{Text}
use voter_api.Text.Equal.{same_text→≡, same_text_refl}
use voter_api.Elections.Db.{Election, Error, one_or_none}
use voter_api.Elections.Link.{backfill_election_district_fields}
use voter_api.Elections.Resolve.Tables.{VoterHistory, ElectionEvent, Records, one, event_on, is_on}
use voter_api.Elections.Resolve.Events.{
  Assigned, of_event, with_event, date_types, assign_events, add_updated,
  find_or_create_election_event, insert_event, link_event, event_of, backfill_election_event_ids,
  assigned_tables, resolve_tier0_pairs, resolve_tier0_event_matching,
}
use voter_api.Elections.Resolve.Single.{on_date, resolve_tier1_single_election}
use voter_api.Elections.Resolve.Run.{
  Progress, resolve_by_count, resolve_date, resolve_dates, started, finished, backfilled, dates,
  resolve_tiers, resolve_voter_history_elections,
}

-- the unique index of the events
abbrev pub HasUniqueEvents : List ElectionEvent → Type 0
HasUniqueEvents events = (date : ℕ) (type : Text) → count_where (event_on date type) events ≤ 1

-- a result that is returned
abbrev pub Returns : {A : Type 0} → Result Error A → Type 0
Returns {A} r = (a : A) × (r ≡ ok a)

>>=-Returns :
    {A B : Type 0} (r : Result Error A) (f : A → Result Error B)
    → Returns r
    → ((a : A) → r ≡ ok a → Returns (f a))
    → Returns (r >>= f)
>>=-Returns r f (a, is_a) k = rw is_a (k a is_a)

one_or_none-Returns :
    {A : Type 0} (p : A → Bool) (rows : List A)
    → count_where p rows ≤ 1
    → one_or_none p rows ≡ ok (find p rows)
unfolding one_or_none
one_or_none-Returns p rows h = ground arith

one-Returns :
    {A : Type 0} (p : A → Bool) (rows : List A)
    → count_where p rows ≤ 1
    → exists_where p rows ≡ true
    → Returns (one p rows)
unfolding one
one-Returns p rows h there = elim (Option-cases (find p rows)) [
  | inl missing ↦ absurd (ground (arith, find-exists p rows))
  | inr (a, found) ↦ (a, rw (one_or_none-Returns p rows h, found) refl)
]

abbrev new_event : ℕ → ℕ → Text → ElectionEvent
new_event fresh date type = record { id = fresh; event_date = date; event_type = type }

insert_event-exists :
    (fresh date : ℕ) (type : Text) (events : List ElectionEvent)
    → exists_where (event_on date type) (insert_event fresh date type events) ≡ true
insert_event-exists fresh date type events =
    elim (Bool-cases (exists_where (event_on date type) events)) [
      | inl there ↦ rw (there, there) refl
      | inr missing ↦ rw missing (
          exists_where-append_right (event_on date type) events (new_event fresh date type ∷ [])
            (rw (==_refl date, same_text_refl type) refl))
    ]

insert_event_unique :
    (fresh date : ℕ) (type : Text) (events : List ElectionEvent)
    → HasUniqueEvents events
    → HasUniqueEvents (insert_event fresh date type events)
insert_event_unique fresh date type events u d t =
    elim (Bool-cases (exists_where (event_on date type) events)) [
      | inl there ↦ rw there (u d t)
      | inr missing ↦
          rw (missing, count_where-append (event_on d t) events (new_event fresh date type ∷ []))
            (elim (Bool-cases (event_on d t (new_event fresh date type))) [
              | inl same ↦
                  let on : date ≡ d = ground arith in
                  let typed = same_text→≡ type t (ground arith) in
                  let none_there = (count_where-exists (event_on date type) events).0 missing in
                  rw (same, ← on, ← typed, none_there) (omega arith)
              | inr other ↦ rw other (omega (arith, u d t))
            ])
    ]

find_or_create-Returns :
    (fresh date : ℕ) (type : Text) (events : List ElectionEvent)
    → HasUniqueEvents events
    → (found : ℕ × List ElectionEvent) × (find_or_create_election_event fresh date type events
        ≡ ok found)
      × HasUniqueEvents found.1
unfolding find_or_create_election_event
find_or_create-Returns fresh date type events u =
    let unique = insert_event_unique fresh date type events u in
    let (v, found) =
      one-Returns (event_on date type) (insert_event fresh date type events) (unique date type)
        (insert_event-exists fresh date type events) in
    ((v.id, insert_event fresh date type events), rw found refl, unique)

assign_events-Returns :
    (force : Bool) (draw : ℕ → ℕ) (k : ℕ) (pairs : List (ℕ × Text)) (events : List ElectionEvent)
    (rows : List VoterHistory)
    → HasUniqueEvents events
    → (end : Assigned) × (assign_events force draw k pairs events rows ≡ ok end)
      × HasUniqueEvents end.1.0
unfolding assign_events
assign_events-Returns force draw k [] events rows u = ((0, (events, rows)), refl, u)
assign_events-Returns force draw k ((date, type) ∷ pairs) events rows u =
    let (found, finds, unique) = find_or_create-Returns (draw k) date type events u in
    let (rest, rests, later) =
      assign_events-Returns force draw (suc k) pairs found.1
        (modify (of_event force date type) (with_event found.0) rows) unique in
    (add_updated (count_where (of_event force date type) rows) rest, rw (finds, rests) refl, later)

link_event-Returns :
    (events : List ElectionEvent) (date : Option ℕ) (e : Election)
    → HasUniqueEvents events
    → Returns (link_event events date e)
unfolding link_event
link_event-Returns events date e u =
    elim (Bool-cases (is_none e.election_event_id && is_on date e.election_date)) [
      | inl lacks ↦ (
        event_of (find (event_on e.election_date e.election_type) events) e,
        rw
            (
              link_event,
              lacks,
              one_or_none-Returns (event_on e.election_date e.election_type) events
                  (u e.election_date e.election_type),
            )
            refl,
      )
      | inr has ↦ (e, rw (link_event, has) refl)
    ]

backfill_election_event_ids-Returns :
    (events : List ElectionEvent) (date : Option ℕ) (es : List Election)
    → HasUniqueEvents events
    → Returns (backfill_election_event_ids events date es)
unfolding backfill_election_event_ids
backfill_election_event_ids-Returns events date [] u = ([], refl)
backfill_election_event_ids-Returns events date (e ∷ es) u =
    let (e', links) = link_event-Returns events date e u in
    let (rest, fills) = backfill_election_event_ids-Returns events date es u in
    (e' ∷ rest, rw (links, fills) refl)

assigned_tables-Returns :
    (h : Records) (date : Option ℕ) (end : Assigned)
    → HasUniqueEvents end.1.0
    → Returns (assigned_tables h date end)
assigned_tables-Returns h date (n, (events, rows)) u =
    >>=-Returns (backfill_election_event_ids events date h.db.elections) _
      (backfill_election_event_ids-Returns events date h.db.elections u) (λ es fills. (_, refl))

tier0-Returns :
    (h : Records) (draw : ℕ → ℕ) (date : Option ℕ) (force : Bool) (pairs : List (ℕ × Text))
    → HasUniqueEvents h.election_events
    → Returns (resolve_tier0_pairs h draw date force pairs)
unfolding resolve_tier0_pairs
tier0-Returns h draw date force [] u = ((0, h), refl)
tier0-Returns h draw date force (pair ∷ pairs) u =
    let (end, assigns, unique) =
      assign_events-Returns force draw 0 (pair ∷ pairs) h.election_events h.voter_history u in
    rw assigns (assigned_tables-Returns h date end unique)

counted-exists :
    (p : Election → Bool) (es : List Election) → count_where p es ≡ 1 → exists_where p es ≡ true
counted-exists p es count = elim (Bool-cases (exists_where p es)) [
  | inl there ↦ there
  | inr missing ↦ absurd (ground (arith, (count_where-exists p es).0 missing, count))
]

resolve_by_count-Returns :
    (h : Records) (force : Bool) (date : ℕ) (single : Bool) (progress : Progress)
    → (single ≡ true → count_where (on_date date) h.db.elections ≡ 1)
    → Returns (resolve_by_count h force date single progress)
unfolding resolve_by_count resolve_tier1_single_election
resolve_by_count-Returns h force date true (result, rows) is_one =
    let count = is_one refl in
    let (e, found) =
      one-Returns (on_date date) h.db.elections (omega (arith, count))
        (counted-exists (on_date date) h.db.elections count) in
    rw found (_, refl)
resolve_by_count-Returns h force date false (result, rows) is_one = (_, refl)

resolve_dates-Returns :
    (h : Records) (force : Bool) (ds : List ℕ) (progress : Progress)
    → Returns (resolve_dates h force ds progress)
unfolding resolve_dates resolve_date
resolve_dates-Returns h force [] progress = (progress, refl)
resolve_dates-Returns h force (d ∷ ds) progress =
    let (next, resolves) =
      resolve_by_count-Returns h force d (count_where (on_date d) h.db.elections == 1) progress
        (λ same. ground arith) in
    let (end, rest) = resolve_dates-Returns h force ds next in (end, rw (resolves, rest) refl)

resolve_tiers-Returns :
    (h : Records) (date : Option ℕ) (force dry_run : Bool) (n : ℕ) (tier0 : ℕ × Records)
    → Returns (resolve_tiers h date force dry_run n tier0)
resolve_tiers-Returns h date force dry_run n (updated, h1) =
    let (progress, resolves) =
      resolve_dates-Returns h1 force (dates date h1.db.elections)
        (started n updated, h1.voter_history) in
    (finished dry_run h h1 progress, rw resolves refl)

pub resolve_voter_history_elections-Returns :
    (h : Records) (draw : ℕ → ℕ) (date : Option ℕ) (force dry_run : Bool)
    → HasUniqueEvents h.election_events
    → Returns (resolve_voter_history_elections h draw date force dry_run)
unfolding resolve_voter_history_elections resolve_tier0_event_matching
resolve_voter_history_elections-Returns h draw date force dry_run u =
    let (tier0, assigns) =
      tier0-Returns (backfilled h) draw date force (date_types date force h.voter_history) u in
    rw assigns
      (resolve_tiers-Returns h date force dry_run (backfill_election_district_fields h.db).1 tier0)
