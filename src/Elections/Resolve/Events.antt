-- ===== src/Elections/Resolve/Events.antt =====
-- Tier 0 of the resolution: the event of each record, by its date and type.
use voter_api.Prelude.{
  ℕ, suc, Bool, true, false, ◌==◌, ◌&&◌, ◌||◌, ◌+◌, Option, none, some, List, [], ◌∷◌, ◌++◌, Result,
  ok, ◌>>=◌, count_where, exists_where, modify, is_none, select, map, if◌then◌else◌,
}
use voter_api.Text.{Text, same_text}
use voter_api.Elections.Db.{Election, Error, one_or_none}
use voter_api.Elections.Resolve.Tables.{ElectionEvent, VoterHistory, Records, event_on, one, is_on}

-- `INSERT … ON CONFLICT DO NOTHING`; the database draws `fresh`
abbrev pub insert_event : ℕ → ℕ → Text → List ElectionEvent → List ElectionEvent
insert_event fresh date type events =
    if exists_where (event_on date type) events
    then events
    else events ++ record { id = fresh; event_date = date; event_type = type } ∷ []

-- The id, and the table.
unfoldable pub find_or_create_election_event :
    ℕ → ℕ → Text → List ElectionEvent → Result Error (ℕ × List ElectionEvent)
find_or_create_election_event fresh date type events = do
  e ← one (event_on date type) (insert_event fresh date type events)
  ok (e.id, insert_event fresh date type events)

-- `DISTINCT`, in an order that the database leaves open and no theorem uses
abbrev pub has_pair : ℕ → Text → List (ℕ × Text) → Bool
has_pair date type [] = false
has_pair date type ((d, t) ∷ pairs) = date == d && same_text type t || has_pair date type pairs

abbrev pub distinct : List (ℕ × Text) → List (ℕ × Text)
distinct [] = []
distinct ((d, t) ∷ pairs) =
    let rest = distinct pairs in if has_pair d t rest then rest else (d, t) ∷ rest

-- what a record needs to be resolved again
abbrev pub lacks_event : Bool → VoterHistory → Bool
lacks_event force r = force || is_none r.election_event_id

abbrev pub date_types : Option ℕ → Bool → List VoterHistory → List (ℕ × Text)
date_types date force rows = distinct (
    map (λ r. (r.election_date, r.normalized_election_type))
      (select (λ r. is_on date r.election_date && lacks_event force r) rows))

-- the rows of the bulk update
abbrev pub of_event : Bool → ℕ → Text → VoterHistory → Bool
of_event force date type r =
    r.election_date == date && same_text r.normalized_election_type type && lacks_event force r

abbrev pub with_event : ℕ → VoterHistory → VoterHistory
with_event i r = record r { election_event_id = some i }

-- the number of records updated, the events and the records
abbrev pub Assigned : Type 0
Assigned = ℕ × (List ElectionEvent × List VoterHistory)

abbrev pub add_updated : ℕ → Assigned → Assigned
add_updated n (k, rest) = (n + k, rest)

unfoldable pub assign_events :
    Bool
    → (ℕ → ℕ)
    → ℕ
    → List (ℕ × Text)
    → List ElectionEvent
    → List VoterHistory
    → Result Error Assigned
assign_events force draw k [] events rows = ok (0, (events, rows))
assign_events force draw k ((date, type) ∷ pairs) events rows = do
  found ← find_or_create_election_event (draw k) date type events
  rest ←
      assign_events force draw (suc k) pairs found.1
        (modify (of_event force date type) (with_event found.0) rows)
  ok (add_updated (count_where (of_event force date type) rows) rest)

abbrev pub event_of : Option ElectionEvent → Election → Election
event_of none e = e
event_of (some v) e = record e { election_event_id = some v.id }

-- an election that has no event yet gets that of its date and type, if there is one
unfoldable pub link_event : List ElectionEvent → Option ℕ → Election → Result Error Election
link_event events date e = elim (is_none e.election_event_id && is_on date e.election_date) [
  | false ↦ ok e
  | true ↦ one_or_none (event_on e.election_date e.election_type) events >>= λ v. ok (event_of v e)
]

unfoldable pub backfill_election_event_ids :
    List ElectionEvent → Option ℕ → List Election → Result Error (List Election)
backfill_election_event_ids events date [] = ok []
backfill_election_event_ids events date (e ∷ es) = do
  e' ← link_event events date e
  rest ← backfill_election_event_ids events date es
  ok (e' ∷ rest)

abbrev pub assigned_tables : Records → Option ℕ → Assigned → Result Error (ℕ × Records)
assigned_tables h date (updated, (events, rows)) = do
  elections ← backfill_election_event_ids events date h.db.elections
  ok (
    updated,
    record h {
      db = record h.db { elections = elections };
      election_events = events;
      voter_history = rows;
    },
  )

-- Without a record to resolve, the elections are left as they are.
unfoldable pub resolve_tier0_pairs :
    Records → (ℕ → ℕ) → Option ℕ → Bool → List (ℕ × Text) → Result Error (ℕ × Records)
resolve_tier0_pairs h draw date force [] = ok (0, h)
resolve_tier0_pairs h draw date force (pair ∷ pairs) = do
  assigned ← assign_events force draw 0 (pair ∷ pairs) h.election_events h.voter_history
  assigned_tables h date assigned

unfoldable pub resolve_tier0_event_matching :
    Records → (ℕ → ℕ) → Option ℕ → Bool → Result Error (ℕ × Records)
resolve_tier0_event_matching h draw date force =
    resolve_tier0_pairs h draw date force (date_types date force h.voter_history)
