-- ===== src/Elections/Resolve/Sound.antt =====
-- The elections and events that the resolution gives to the records.
use voter_api.Prelude.{
  exists_where-found, ℕ, ◌≡◌, refl, ◌∙◌, Bool, true, false, ◌&&◌, Option, some, List, [], ◌∷◌,
  arith, ok, All, All-imp, All-modify, ◌==◌, ==_refl, if◌then◌else◌, exists_where,
  exists_where-append, find-pass, Bool-cases, inl, inr, >>=-eq-ok,
}
use mathlib.Core.Path.{subst}
use voter_api.Text.{Text}
use voter_api.Text.Equal.{same_text→≡}
use voter_api.Elections.Db.{Election}
use voter_api.Elections.Resolve.Tables.{VoterHistory, ElectionEvent, Records, one, event_on}
use voter_api.Elections.Resolve.Events.{
  of_event, with_event, find_or_create_election_event, insert_event,
}
use voter_api.Elections.Resolve.Updates.{is_open, with_election}
use voter_api.Elections.Resolve.Single.{on_date}
use voter_api.Elections.Resolve.Run.{ResolutionResult, resolve_voter_history_elections, backfilled}
use voter_api.Elections.Resolve.Induct.{IsKept, one-find, ok-injective}
use voter_api.Elections.Resolve.Tier0.{
  IsStep, KeepsTests, backfill_election_district_fields-KeepsTests,
}
use voter_api.Elections.Resolve.Outcome.{resolve_voter_history_elections-Outcome}

abbrev pub held_on : ℕ → ℕ → Election → Bool
held_on i date e = e.id == i && e.election_date == date

abbrev pub is_event : ℕ → ℕ → Text → ElectionEvent → Bool
is_event i date type v = v.id == i && event_on date type v

abbrev pub HasElection : List Election → VoterHistory → Type 0
HasElection elections r =
    (i : ℕ) → r.election_id ≡ some i → exists_where (held_on i r.election_date) elections ≡ true

abbrev pub HasEvent : List ElectionEvent → VoterHistory → Type 0
HasEvent events r =
    (i : ℕ)
    → r.election_event_id ≡ some i
    → exists_where (is_event i r.election_date r.normalized_election_type) events ≡ true

-- The election of a record is held on its date, and the event is that of its date and type.
pub record IsSound (h : Records) : Type 0 where
  pub elections : All (HasElection h.db.elections) h.voter_history
  pub events : All (HasEvent h.election_events) h.voter_history

-- tier 0
find_or_create-exists :
    (fresh date : ℕ) (type : Text) (events : List ElectionEvent) (found : ℕ × List ElectionEvent)
    → find_or_create_election_event fresh date type events ≡ ok found
    → (found.1 ≡ insert_event fresh date type events)
      × (exists_where (is_event found.0 date type) found.1 ≡ true)
unfolding find_or_create_election_event
find_or_create-exists fresh date type events found returns =
    let (v, finds, done) =
      >>=-eq-ok (one (event_on date type) (insert_event fresh date type events))
        (λ v. ok (v.id, insert_event fresh date type events)) returns in
    let here =
      find-pass (event_on date type) (insert_event fresh date type events)
        (one-find (event_on date type) (insert_event fresh date type events) v finds) in
    subst
      (λ (x : ℕ × List ElectionEvent).
        (x.1 ≡ insert_event fresh date type events)
        × (exists_where (is_event x.0 date type) x.1 ≡ true))
      (ok-injective done)
      (
        refl,
        exists_where-found (is_event v.id date type) (event_on date type)
            (insert_event fresh date type events)
            (one-find (event_on date type) (insert_event fresh date type events) v finds)
            (rw (==_refl v.id, here) refl),
      )

insert_event-exists :
    (p : ElectionEvent → Bool) (fresh date : ℕ) (type : Text) (events : List ElectionEvent)
    → exists_where p events ≡ true
    → exists_where p (insert_event fresh date type events) ≡ true
insert_event-exists p fresh date type events h =
    elim (Bool-cases (exists_where (event_on date type) events)) [
      | inl there ↦ rw there h
      | inr missing ↦ rw missing (
          exists_where-append p events
            (record { id = fresh; event_date = date; event_type = type } ∷ []) h)
    ]

with_event-HasEvent :
    (force : Bool) (date : ℕ) (type : Text) (found : ℕ × List ElectionEvent)
    → exists_where (is_event found.0 date type) found.1 ≡ true
    → (r : VoterHistory) → of_event force date type r ≡ true
    → HasEvent found.1 r
    → HasEvent found.1 (with_event found.0 r)
with_event-HasEvent force date type found here r is_of has i is_i =
    let on : r.election_date ≡ date = ground arith in
    let typed = same_text→≡ r.normalized_election_type type (ground arith) in
    let given : found.0 ≡ i = ground arith in rw (on, typed, ← given) here

events-IsStep :
    (force : Bool) (draw : ℕ → ℕ)
    → IsStep (λ pairs events rows. All (HasEvent events) rows) force draw
events-IsStep force draw k date type pairs events rows found finds all =
    let (grows, here) = find_or_create-exists (draw k) date type events found finds in
    All-modify (HasEvent found.1) (of_event force date type) (with_event found.0) rows
      (with_event-HasEvent force date type found here)
      (All-imp (HasEvent events) (HasEvent found.1)
        (λ r has i is_i. rw grows (
          insert_event-exists (is_event i r.election_date r.normalized_election_type) (draw k) date
            type events (has i is_i)))
        rows all)

-- the bulk updates
with_event-HasElection :
    (elections : List Election) (i : ℕ) (r : VoterHistory)
    → HasElection elections r
    → HasElection elections (with_event i r)
with_event-HasElection elections i r has = has

with_election-HasElection :
    (elections : List Election) (force : Bool) (date : ℕ) (e : Election)
    (test : VoterHistory → Bool)
    → exists_where (held_on e.id e.election_date) elections ≡ true
    → on_date date e ≡ true
    → (r : VoterHistory) → (is_open force date r && test r) ≡ true
    → HasElection elections (with_election e.id r)
with_election-HasElection elections force date e test here on r is_of i is_i =
    let held : r.election_date ≡ e.election_date = ground arith in
    let given : e.id ≡ i = ground arith in rw (held, ← given) here

are_held :
    (es : List Election) → All (λ e. exists_where (held_on e.id e.election_date) es ≡ true) es
are_held [] = tt
are_held (e ∷ es) = (
  rw (==_refl e.id, ==_refl e.election_date) refl,
  All-imp (λ x. exists_where (held_on x.id x.election_date) es ≡ true)
      (λ x. exists_where (held_on x.id x.election_date) (e ∷ es) ≡ true) (λ x there. ground arith)
      es (are_held es),
)

abbrev AreSound : List Election → List ElectionEvent → List VoterHistory → Type 0
AreSound elections events rows = All (HasElection elections) rows × All (HasEvent events) rows

sound-IsStep :
    (elections : List Election) (force : Bool) (draw : ℕ → ℕ)
    → IsStep (λ pairs events rows. AreSound elections events rows) force draw
sound-IsStep elections force draw k date type pairs events rows found finds (held, has) = (
  All-modify (HasElection elections) (of_event force date type) (with_event found.0) rows
      (λ r is_of old. old) held,
  events-IsStep force draw k date type pairs events rows found finds has,
)

sound-IsKept :
    (h : Records) (force : Bool)
    → IsKept
        (AreSound h.db.elections h.election_events)
        (λ e. exists_where (held_on e.id e.election_date) h.db.elections ≡ true)
        force
sound-IsKept h force date e test rows here on (held, has) = (
  All-modify (HasElection h.db.elections) (λ r. is_open force date r && test r) (with_election e.id)
      rows
      (λ r is_of old. with_election-HasElection h.db.elections force date e test here on r is_of)
      held,
  All-modify (HasEvent h.election_events) (λ r. is_open force date r && test r) (with_election e.id)
      rows (λ r is_of old. old) has,
)

HasElection-imp :
    (before after : List Election) (rows : List VoterHistory)
    → KeepsTests before after
    → All (HasElection before) rows
    → All (HasElection after) rows
HasElection-imp before after rows same =
    All-imp (HasElection before) (HasElection after)
      (λ r has i is_i. same i r.election_date ∙ has i is_i) rows

IsSound-committed :
    (dry_run : Bool) (h tier0 : Records) (rows : List VoterHistory)
    → IsSound h
    → AreSound tier0.db.elections tier0.election_events rows
    → IsSound (if dry_run then h else record tier0 { voter_history = rows })
IsSound-committed true h tier0 rows old new = old
IsSound-committed false h tier0 rows old (held, has) = record { elections = held; events = has }

-- If every record that has an election has one of its date, and every record that has an event has
-- one of its date and type, then this is so after any resolution that returns.
pub resolve_voter_history_elections-IsSound :
    (h : Records) (draw : ℕ → ℕ) (date : Option ℕ) (force dry_run : Bool)
    (end : ResolutionResult × Records)
    → IsSound h
    → resolve_voter_history_elections h draw date force dry_run ≡ ok end
    → IsSound end.1
resolve_voter_history_elections-IsSound h draw date force dry_run end sound returns =
    let o =
      resolve_voter_history_elections-Outcome
        (λ pairs events rows. AreSound (backfilled h).db.elections events rows)
        (λ tables rows. AreSound tables.db.elections tables.election_events rows)
        (λ tables e. exists_where (held_on e.id e.election_date) tables.db.elections ≡ true) force
        draw (sound-IsStep (backfilled h).db.elections force draw)
        (λ tables. sound-IsKept tables force) h date dry_run end returns
        (
          HasElection-imp h.db.elections (backfilled h).db.elections h.voter_history
              (backfill_election_district_fields-KeepsTests h.db) sound.elections,
          sound.events,
        )
        (λ tables kept. (
          are_held tables.db.elections,
          (
            HasElection-imp (backfilled h).db.elections tables.db.elections tables.voter_history
                kept.elections kept.holds.0,
            kept.holds.1,
          ),
        )) in
    rw o.committed (IsSound-committed dry_run h o.tier0 o.rows sound o.holds)
