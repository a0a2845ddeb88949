-- ===== src/Elections/Resolve/Run.antt =====
-- `resolve_voter_history_elections` of services/election_resolution_service.py.
use voter_api.Prelude.{
  ℕ, Bool, true, false, ◌==◌, ◌+◌, Option, List, [], ◌∷◌, Result, ok, ◌>>=◌, count_where, select,
  map, if◌then◌else◌, contains,
}
use voter_api.Elections.Db.{Election, Error}
use voter_api.Elections.Link.{backfill_election_district_fields}
use voter_api.Elections.Resolve.Tables.{VoterHistory, Records, is_on}
use voter_api.Elections.Resolve.Events.{resolve_tier0_event_matching}
use voter_api.Elections.Resolve.Single.{on_date, resolve_tier1_single_election}
use voter_api.Elections.Resolve.Multiple.{Resolved, resolve_tier2_district_matching}

pub record ResolutionResult : Type 0 where
  pub tier0_updated : ℕ
  pub tier1_updated : ℕ
  pub tier2_updated : ℕ
  pub unresolvable : ℕ
  pub elections_backfilled : ℕ

-- `GROUP BY election_date`, in an order that the database leaves open and no theorem uses
abbrev distinct_dates : List ℕ → List ℕ
distinct_dates [] = []
distinct_dates (d ∷ ds) = let rest = distinct_dates ds in if contains d rest then rest else d ∷ rest

abbrev pub dates : Option ℕ → List Election → List ℕ
dates date es =
    distinct_dates (map (λ e. e.election_date) (select (λ e. is_on date e.election_date) es))

-- what the tiers have counted, and the records
abbrev pub Progress : Type 0
Progress = ResolutionResult × List VoterHistory

abbrev pub add_tier1 : ResolutionResult → ℕ × List VoterHistory → Progress
add_tier1 result (n, rows) = (record result { tier1_updated = result.tier1_updated + n }, rows)

abbrev pub add_tier2 : ResolutionResult → Resolved → Progress
add_tier2 result ((n, k), rows) = (
  record result {
    tier2_updated = result.tier2_updated + n;
    unresolvable = result.unresolvable + k;
  },
  rows,
)

-- the elections and voters are those of `h`, the records those of the progress
unfoldable pub resolve_by_count : Records → Bool → ℕ → Bool → Progress → Result Error Progress
resolve_by_count h force date true (result, rows) =
    resolve_tier1_single_election (record h { voter_history = rows }) date force >>= λ r.
    ok (add_tier1 result r)
resolve_by_count h force date false (result, rows) =
    ok (add_tier2 result (resolve_tier2_district_matching h.db.elections h.voters date force rows))

unfoldable pub resolve_date : Records → Bool → ℕ → Progress → Result Error Progress
resolve_date h force date progress =
    resolve_by_count h force date (count_where (on_date date) h.db.elections == 1) progress

unfoldable pub resolve_dates : Records → Bool → List ℕ → Progress → Result Error Progress
resolve_dates h force [] progress = ok progress
resolve_dates h force (date ∷ rest) progress = do
  progress' ← resolve_date h force date progress
  resolve_dates h force rest progress'

abbrev pub started : ℕ → ℕ → ResolutionResult
started backfilled updated = record {
  tier0_updated = updated;
  tier1_updated = 0;
  tier2_updated = 0;
  unresolvable = 0;
  elections_backfilled = backfilled;
}

-- what is committed: a dry run is rolled back
abbrev pub finished : Bool → Records → Records → Progress → ResolutionResult × Records
finished dry_run before after (result, rows) =
    (result, if dry_run then before else record after { voter_history = rows })

abbrev pub backfilled : Records → Records
backfilled h = record h { db = (backfill_election_district_fields h.db).0 }

-- tiers 1 and 2 after tier 0
abbrev pub resolve_tiers :
    Records → Option ℕ → Bool → Bool → ℕ → ℕ × Records → Result Error (ResolutionResult × Records)
resolve_tiers before date force dry_run n (updated, h) = do
  progress ← resolve_dates h force (dates date h.db.elections) (started n updated, h.voter_history)
  ok (finished dry_run before h progress)

unfoldable pub resolve_voter_history_elections :
    Records → (ℕ → ℕ) → Option ℕ → Bool → Bool → Result Error (ResolutionResult × Records)
resolve_voter_history_elections h draw date force dry_run = do
  tier0 ← resolve_tier0_event_matching (backfilled h) draw date force
  resolve_tiers h date force dry_run (backfill_election_district_fields h.db).1 tier0
