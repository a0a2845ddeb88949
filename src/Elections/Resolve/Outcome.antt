-- ===== src/Elections/Resolve/Outcome.antt =====
-- What all tiers of the resolution keep: the induction over a whole run.
use voter_api.Prelude.{ℕ, ◌≡◌, refl, Bool, Option, List, All, ok, >>=-eq-ok, if◌then◌else◌}
use mathlib.Core.Path.{subst}
use voter_api.Text.{Text}
use voter_api.Elections.Db.{Election}
use voter_api.Elections.Link.{backfill_election_district_fields}
use voter_api.Elections.Resolve.Tables.{VoterHistory, ElectionEvent, Records}
use voter_api.Elections.Resolve.Events.{resolve_tier0_event_matching, date_types}
use voter_api.Elections.Resolve.Run.{
  ResolutionResult, started, finished, backfilled, dates, resolve_dates, resolve_tiers,
  resolve_voter_history_elections,
}
use voter_api.Elections.Resolve.Induct.{ok-injective, IsKept, resolve_dates-keeps}
use voter_api.Elections.Resolve.Tier0.{IsStep, IsKeptBy, resolve_tier0_event_matching-IsKeptBy}

-- `M` holds in tier 0, with the dates and types that are left; `P` of the tables after tier 0 and
-- the records holds from there on.
module _ (M : List (ℕ × Text) → List ElectionEvent → List VoterHistory → Type 0)
    (P : Records → List VoterHistory → Type 0) (Q : Records → Election → Type 0) (force : Bool)
    (draw : ℕ → ℕ) (step : IsStep M force draw)
    (keep : (h : Records) → IsKept (P h) (Q h) force) where
  -- the tables after tier 0, the records after all tiers, and what is committed
  pub record Outcome (before : Records) (dry_run : Bool) (end : ResolutionResult × Records)
      : Type 0 where
    pub tier0 : Records
    pub rows : List VoterHistory
    pub kept : IsKeptBy M force draw step (backfilled before) tier0
    pub holds : P tier0 rows
    pub committed : end.1 ≡ (if dry_run then before else record tier0 { voter_history = rows })

  abbrev Starts : Records → Type 0
  Starts h =
      (h1 : Records)
      → IsKeptBy M force draw step (backfilled h) h1
      → All (Q h1) h1.db.elections × P h1 h1.voter_history

  resolve_tiers-Outcome :
      (h : Records) (date : Option ℕ) (dry_run : Bool) (n : ℕ) (tier0 : ℕ × Records)
      (end : ResolutionResult × Records)
      → resolve_tiers h date force dry_run n tier0 ≡ ok end
      → IsKeptBy M force draw step (backfilled h) tier0.1
      → Starts h
      → Outcome h dry_run end
  resolve_tiers-Outcome h date dry_run n (updated, h1) end returns kept starts =
      let (progress, resolves, done) =
        >>=-eq-ok
          (resolve_dates h1 force (dates date h1.db.elections)
            (started n updated, h1.voter_history))
          (λ progress. ok (finished dry_run h h1 progress)) returns in
      let (candidates, p) = starts h1 kept in
      let after =
        resolve_dates-keeps (P h1) (Q h1) force (keep h1) h1 (dates date h1.db.elections)
          (started n updated, h1.voter_history) progress resolves candidates p in
      subst (λ (x : ResolutionResult × Records). Outcome h dry_run x) (ok-injective done)
        (record { tier0 = h1; rows = progress.1; kept = kept; holds = after; committed = refl })

  pub resolve_voter_history_elections-Outcome :
      (h : Records) (date : Option ℕ) (dry_run : Bool) (end : ResolutionResult × Records)
      → resolve_voter_history_elections h draw date force dry_run ≡ ok end
      → M (date_types date force h.voter_history) h.election_events h.voter_history
      → Starts h
      → Outcome h dry_run end
  unfolding resolve_voter_history_elections
  resolve_voter_history_elections-Outcome h date dry_run end returns m starts =
      let (tier0, assigns, next) =
        >>=-eq-ok (resolve_tier0_event_matching (backfilled h) draw date force)
          (λ tier0.
            resolve_tiers h date force dry_run (backfill_election_district_fields h.db).1 tier0)
          returns in
      resolve_tiers-Outcome h date dry_run (backfill_election_district_fields h.db).1 tier0 end next
        (resolve_tier0_event_matching-IsKeptBy M force draw step (backfilled h) date tier0 assigns
          m)
        starts
