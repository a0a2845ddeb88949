-- ===== src/Elections/Resolve/Kept.antt =====
-- What the resolution never changes of a record.
use voter_api.Prelude.{
  ℕ, ◌≡◌, refl, ◌∙◌, ap, Bool, true, false, ◌&&◌, Option, some, List, [], ◌∷◌, arith, ok, length,
  Extends, Extends-refl, Extends-trans, Extends-modify, modify, if◌then◌else◌, suc,
}
use voter_api.Text.{Text}
use voter_api.Elections.Resolve.Tables.{VoterHistory, Records}
use voter_api.Elections.Resolve.Events.{of_event, with_event}
use voter_api.Elections.Resolve.Updates.{is_open, with_election}
use voter_api.Elections.Resolve.Run.{ResolutionResult, resolve_voter_history_elections}
use voter_api.Elections.Resolve.Induct.{All-unit}
use voter_api.Elections.Resolve.Outcome.{resolve_voter_history_elections-Outcome}

-- one record before and after
pub record SameRecord (force : Bool) (r r' : VoterHistory) : Type 0 where
  pub voter : r'.voter_registration_number ≡ r.voter_registration_number
  pub county : r'.county ≡ r.county
  pub date : r'.election_date ≡ r.election_date
  pub type : r'.normalized_election_type ≡ r.normalized_election_type
  pub election : force ≡ false → (i : ℕ) → r.election_id ≡ some i → r'.election_id ≡ some i
  pub event : force ≡ false → (i : ℕ) → r.election_event_id ≡ some i → r'.election_event_id ≡ some i

SameRecord-refl : (force : Bool) (r : VoterHistory) → SameRecord force r r
SameRecord-refl force r = record {
  voter = refl;
  county = refl;
  date = refl;
  type = refl;
  election = λ f i h. h;
  event = λ f i h. h;
}

SameRecord-trans :
    (force : Bool) (a b c : VoterHistory)
    → SameRecord force a b
    → SameRecord force b c
    → SameRecord force a c
SameRecord-trans force a b c h k = record {
  voter = k.voter ∙ h.voter;
  county = k.county ∙ h.county;
  date = k.date ∙ h.date;
  type = k.type ∙ h.type;
  election = λ f i e. k.election f i (h.election f i e);
  event = λ f i e. k.event f i (h.event f i e);
}

with_election-SameRecord :
    (force : Bool) (date i : ℕ) (test : VoterHistory → Bool) (r : VoterHistory)
    → (is_open force date r && test r) ≡ true
    → SameRecord force r (with_election i r)
with_election-SameRecord force date i test r h = record {
  voter = refl;
  county = refl;
  date = refl;
  type = refl;
  election = λ f j e. absurd (ground arith);
  event = λ f j e. e;
}

with_event-SameRecord :
    (force : Bool) (date : ℕ) (type : Text) (i : ℕ) (r : VoterHistory)
    → of_event force date type r ≡ true
    → SameRecord force r (with_event i r)
with_event-SameRecord force date type i r h = record {
  voter = refl;
  county = refl;
  date = refl;
  type = refl;
  election = λ f j e. e;
  event = λ f j e. absurd (ground arith);
}

-- every record has its successor at the same place, and none is added
abbrev pub SameRecords : Bool → List VoterHistory → List VoterHistory → Type 0
SameRecords force rows rows' = Extends (SameRecord force) rows rows' × (length rows' ≡ length rows)

length-modify :
    (p : VoterHistory → Bool) (f : VoterHistory → VoterHistory) (rows : List VoterHistory)
    → length (modify p f rows) ≡ length rows
length-modify p f [] = refl
length-modify p f (r ∷ rows) = ap suc (length-modify p f rows)

SameRecords-modify :
    (force : Bool) (p : VoterHistory → Bool) (f : VoterHistory → VoterHistory)
    (start rows : List VoterHistory)
    → ((r : VoterHistory) → p r ≡ true → SameRecord force r (f r))
    → SameRecords force start rows
    → SameRecords force start (modify p f rows)
SameRecords-modify force p f start rows one (same, size) = (
  Extends-trans (SameRecord force) (SameRecord-trans force) start rows (modify p f rows) same
      (Extends-modify (SameRecord force) (SameRecord-refl force) p f one rows),
  length-modify p f rows ∙ size,
)

-- a dry run leaves the tables, and any other run the new records
SameRecords-committed :
    (force dry_run : Bool) (h tier0 : Records) (rows : List VoterHistory)
    → SameRecords force h.voter_history rows
    → SameRecords force h.voter_history
        (if dry_run then h else record tier0 { voter_history = rows }).voter_history
SameRecords-committed force false h tier0 rows same = same
SameRecords-committed force true h tier0 rows same =
    (Extends-refl (SameRecord force) (SameRecord-refl force) h.voter_history, refl)

-- Whatever is resolved, with which options: no record is added or removed, and a record keeps its
-- voter, its county, its date and its type. Without `force` it also keeps the election and the event
-- that it has.
pub resolve_voter_history_elections-SameRecords :
    (h : Records) (draw : ℕ → ℕ) (date : Option ℕ) (force dry_run : Bool)
    (end : ResolutionResult × Records)
    → resolve_voter_history_elections h draw date force dry_run ≡ ok end
    → SameRecords force h.voter_history end.1.voter_history
resolve_voter_history_elections-SameRecords h draw date force dry_run end returns =
    let o =
      resolve_voter_history_elections-Outcome
        (λ pairs events rows. SameRecords force h.voter_history rows)
        (λ tables rows. SameRecords force h.voter_history rows) (λ tables e. Unit {0}) force draw
        (λ k d type pairs events rows found finds.
          SameRecords-modify force (of_event force d type) (with_event found.0) h.voter_history rows
            (with_event-SameRecord force d type found.0))
        (λ tables d e test rows q here.
          SameRecords-modify force (λ r. is_open force d r && test r) (with_election e.id)
            h.voter_history rows (with_election-SameRecord force d e.id test))
        h date dry_run end returns
        (Extends-refl (SameRecord force) (SameRecord-refl force) h.voter_history, refl)
        (λ tables kept. (All-unit tables.db.elections, kept.holds)) in
    rw o.committed (SameRecords-committed force dry_run h o.tier0 o.rows o.holds)
