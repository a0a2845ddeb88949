-- ===== src/Examples/ResolutionRuns.antt =====
-- A resolution of all dates.
use voter_api.Prelude.{ℕ, ◌≡◌, refl, none, ok, ◌+◌, false, ◌∷◌, []}
use voter_api.Text.{upper, strip, rstrip}
use voter_api.Elections.Db.{one_or_none}
use voter_api.Elections.Link.{backfill_election_district_fields}
use voter_api.Elections.Resolve.Tables.{one, trim}
use voter_api.Elections.Resolve.Events.{
  resolve_tier0_event_matching, resolve_tier0_pairs, assign_events, find_or_create_election_event,
  link_event, backfill_election_event_ids,
}
use voter_api.Elections.Resolve.Updates.{update_vh_statewide, update_vh_by_county}
use voter_api.Elections.Resolve.Single.{county_name, resolve_tier1_single_election}
use voter_api.Elections.Resolve.Multiple.{
  by_eligible_county, resolve_election, resolve_elections, seen_elections,
  resolve_tier2_district_matching,
}
use voter_api.Elections.Resolve.Run.{
  resolve_by_count, resolve_date, resolve_dates, resolve_voter_history_elections,
}
use voter_api.Elections.Resolve.First.{IsFirst, resolve_tier2_district_matching-IsFirst}
use voter_api.Elections.Resolve.Kept.{SameRecords, resolve_voter_history_elections-SameRecords}
use voter_api.Elections.Resolve.Sound.{IsSound, resolve_voter_history_elections-IsSound}
use voter_api.Examples.ResolutionTables.{records, resolved, counts, sheriff, governor}

-- the id of each event that is inserted
abbrev draw : ℕ → ℕ
draw k = 50 + k

resolves : resolve_voter_history_elections records draw none false false ≡ ok (counts, resolved)
unfolding resolve_voter_history_elections backfill_election_district_fields
    resolve_tier0_event_matching resolve_tier0_pairs assign_events find_or_create_election_event one
    one_or_none link_event backfill_election_event_ids resolve_dates resolve_date resolve_by_count
    resolve_tier1_single_election county_name resolve_tier2_district_matching seen_elections
    resolve_elections resolve_election by_eligible_county update_vh_statewide update_vh_by_county
    upper strip rstrip trim
resolves = refl

resolve_voter_history_elections-SameRecords_example :
    SameRecords false records.voter_history resolved.voter_history
resolve_voter_history_elections-SameRecords_example =
    resolve_voter_history_elections-SameRecords records draw none false false (counts, resolved)
      resolves

-- no record has an election or an event yet
records-IsSound : IsSound records
records-IsSound = record {
  elections = ((λ i h. cc), ((λ i h. cc), ((λ i h. cc), tt)));
  events = ((λ i h. cc), ((λ i h. cc), ((λ i h. cc), tt)));
}

resolve_voter_history_elections-IsSound_example : IsSound resolved
resolve_voter_history_elections-IsSound_example =
    resolve_voter_history_elections-IsSound records draw none false false (counts, resolved)
      records-IsSound resolves

resolve_tier2_district_matching-IsFirst_example :
    IsFirst records.voters 100 (seen_elections (sheriff ∷ governor ∷ [])) records.voter_history (
      resolve_tier2_district_matching records.db.elections records.voters 100 false
        records.voter_history)
resolve_tier2_district_matching-IsFirst_example =
    resolve_tier2_district_matching-IsFirst records.db.elections records.voters 100
      records.voter_history
