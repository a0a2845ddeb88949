-- ===== src/Examples/ElectionRuns.antt =====
-- The theorems on elections at concrete tables.
use voter_api.Prelude.{ℕ, ◌≡◌, refl, true, false, none, some, [], ◌∷◌, ◌++◌, ◌+◌, ok, arith, length}
use voter_api.Text.{Text, codes, lower, strip, rstrip}
use voter_api.Text.Search.{find_number, remove_suffix}
use voter_api.Text.Slug.{decimal, slug}
use voter_api.Districts.Parser.{
  parse_election_district, bare_district, classify_district, match_county_commission, find_party,
  pad_district_identifier, zfill,
}
use voter_api.Districts.Parser.RoundTrip.{Office, Party, parse_election_district-text}
use voter_api.Districts.Contest.{parse_contest_name, split_party, classify_contest}
use voter_api.Elections.Db.{Db, ElectionStatus, one_or_none}
use voter_api.Elections.Ingest.{
  detect_election_type, normalize_county_name, find_ballot_item, find_statewide_item, statewide_of,
  county_of, counties_of, ingest_election_results,
}
use voter_api.Elections.Link.{
  boundary_type_of, boundary_of, with_district, link_election_to_boundary,
}
use voter_api.Elections.Service.{
  create_election, check_feed, may_store, fits, place_election, get_election_by_id,
}
use voter_api.Elections.Results.{
  get_election_results, submitted_response, submitted_db, submit_manual_results,
}
use voter_api.Elections.Refresh.{
  upsert_county, upsert_counties, persist_ingestion_result, refresh_single_election,
}
use voter_api.Elections.Results.RoundTrip.{submit_manual_results-get}
use voter_api.Elections.Feed.{
  FeedImportResponse, FeedImportedElection, import_feed, import_items, import_item, first_refresh,
  resolve_feed_metadata,
}
use voter_api.Elections.Unique.{HasUniqueRows}
use voter_api.Elections.Unique.Create.{IsAnswered, create_election-IsAnswered}
use voter_api.Elections.Steps.{run}
use voter_api.Elections.Steps.Runs.{run-HasUniqueRows}
use voter_api.Elections.Steps.Reimport.{import_feed-again}
use voter_api.Examples.ElectionTables.{
  tables, bond, bond_request, feed, feed_request, served, tally, commands,
}

-- a table with one row
tables-HasUniqueRows : HasUniqueRows tables
tables-HasUniqueRows = record {
  elections = record {
    ids = λ i. ground arith;
    names = λ n d. ground arith;
    feeds = λ u t. ground arith;
  };
  results = λ i. ground arith;
  counties = λ i n. ground arith;
}

run-HasUniqueRows_example : HasUniqueRows (run commands tables)
run-HasUniqueRows_example = run-HasUniqueRows commands tables tables-HasUniqueRows

parse_election_district-text_example :
    parse_election_district (codes "Special PSC - District 3 - Dem") ≡ record {
      district_type = some (codes "psc");
      district_identifier = some (codes "3");
      party = some (codes "Dem");
      county = none;
      raw = codes "Special PSC - District 3 - Dem";
    }
parse_election_district-text_example =
    parse_election_district-text true Office.psc b'3' [] (some Party.dem) refl

commission_parsed :
    (parse_election_district (codes "Jeff  Davis County Commission District 5")).county
    ≡ some (codes "Jeff  Davis")
unfolding parse_election_district bare_district classify_district match_county_commission lower
commission_parsed = refl

contest_parsed :
    parse_contest_name (codes "Clerk of Superior Court, Post 2 (R)") (some (codes "Bibb")) none
    ≡ record {
      district_type = some (codes "county_office");
      district_identifier = some (codes "2");
      party = some (codes "Republican");
      county = some (codes "Bibb");
      raw = codes "Clerk of Superior Court, Post 2 (R)";
    }
unfolding parse_contest_name split_party classify_contest find_number lower strip rstrip
contest_parsed = refl

slug_made : slug (lower (codes "Yes, now!")) ++ b'-' ∷ decimal 12 ≡ codes "yes-now-12"
unfolding slug lower decimal
slug_made = refl

create_election-IsAnswered_example : IsAnswered tables 2 bond_request
create_election-IsAnswered_example =
    create_election-IsAnswered tables 2 bond_request tables-HasUniqueRows refl (omega arith)

submitted :
    submit_manual_results tables 1000 1 tally
    ≡ ok ((submitted_response 1000 tally bond, false), submitted_db tables 1000 1 tally)
unfolding submit_manual_results get_election_by_id
submitted = refl

submit_manual_results-get_example :
    (get_election_results (submitted_db tables 1000 1 tally) 1
      ≡ some (submitted_response 1000 tally bond))
    × (false ≡ false)
submit_manual_results-get_example =
    submit_manual_results-get tables 1000 1 tally (submitted_response 1000 tally bond) false
      (submitted_db tables 1000 1 tally) submitted

abbrev ids : ℕ → ℕ
ids k = 10 + k

abbrev at_4000 : ℕ → ℕ
at_4000 k = 4000

abbrev imported_race : ℕ → Text → Text → FeedImportedElection
imported_race i item name = record {
  election_id = i;
  ballot_item_id = item;
  name = name;
  election_date = 200;
  status = ElectionStatus.active;
  refreshed = true;
  precincts_reporting = some 3;
  precincts_participating = some 9;
}

abbrev first_import : FeedImportResponse
first_import = record {
  elections_skipped = 0;
  elections =
      imported_race 10 (codes "S18") (codes "Runoff - State Senate - District 18")
      ∷ imported_race 11 (codes "P3") (codes "Runoff - PSC - District 3 - Dem")
      ∷ [];
}

abbrev after_import : Db
after_import = (import_feed served tables 210 ids at_4000 feed_request).1

imports : import_feed served tables 210 ids at_4000 feed_request ≡ (ok first_import, after_import)
unfolding import_feed import_items import_item first_refresh resolve_feed_metadata create_election
    check_feed one_or_none fits may_store place_election link_election_to_boundary with_district
    boundary_of boundary_type_of parse_election_district bare_district classify_district
    match_county_commission find_party pad_district_identifier zfill find_number lower strip rstrip
    refresh_single_election get_election_by_id ingest_election_results find_statewide_item
    find_ballot_item statewide_of counties_of county_of normalize_county_name remove_suffix
    persist_ingestion_result upsert_counties upsert_county detect_election_type
imports = refl

import_feed-again_example :
    (2 ≡ length feed.ballot_items)
    × (import_feed served after_import 900 ids at_4000 feed_request
        ≡ (ok (record { elections_skipped = 2; elections = [] }), after_import))
import_feed-again_example =
    import_feed-again served served tables after_import 210 900 ids ids at_4000 at_4000 feed_request
      feed_request feed first_import tables-HasUniqueRows refl refl refl imports
