-- ===== src/Examples/ResolutionTables.antt =====
-- Three records of two voters, and the elections and events of two dates.
use voter_api.Prelude.{ℕ, none, some, [], ◌∷◌}
use voter_api.Text.{codes}
use voter_api.Elections.Db.{Election}
use voter_api.Elections.Service.{new_election}
use voter_api.Elections.Resolve.Tables.{ElectionEvent, Records, Voter, VoterHistory}
use voter_api.Elections.Resolve.Run.{ResolutionResult}
use voter_api.Examples.ElectionTables.{bond_request}

abbrev pub governor : Election
governor = record (new_election 1 bond_request) {
  district = codes "Governor";
  district_type = some (codes "statewide");
}

abbrev pub sheriff : Election
sheriff = record (new_election 2 bond_request) {
  name = codes "Sheriff";
  district_type = some (codes "county_office");
  eligible_county = some (codes "Bibb");
}

abbrev pub runoff : Election
runoff = record (new_election 3 bond_request) {
  election_date = 200;
  district_type = some (codes "statewide");
}

abbrev voter_1 : Voter
voter_1 = record {
  voter_registration_number = codes "1";
  congressional_district = none;
  state_senate_district = some (codes "018");
  state_house_district = none;
  judicial_district = none;
  county_commission_district = none;
  school_board_district = none;
  city_council_district = none;
  municipality = none;
}

abbrev pub voted : ℕ → VoterHistory
voted date = record {
  voter_registration_number = codes "1";
  county = codes "BIBB ";
  election_date = date;
  normalized_election_type = codes "special";
  election_id = none;
  election_event_id = none;
}

abbrev pub special : ElectionEvent
special = record { id = 7; event_date = 100; event_type = codes "special" }

abbrev pub records : Records
records = record {
  db = record {
    elections = sheriff ∷ governor ∷ runoff ∷ [];
    results = [];
    county_results = [];
    boundaries = [];
  };
  election_events = special ∷ [];
  voter_history = voted 100 ∷ record (voted 100) { county = codes "Cobb" } ∷ voted 200 ∷ [];
  voters = voter_1 ∷ [];
}

-- the tables after a resolution of all dates
abbrev pub resolved : Records
resolved = record records {
  db = record records.db {
    elections =
        record sheriff { election_event_id = some 7 }
        ∷ record governor { election_event_id = some 7 }
        ∷ record runoff { election_event_id = some 51 }
        ∷ [];
  };
  election_events =
      special ∷ record { id = 51; event_date = 200; event_type = codes "special" } ∷ [];
  voter_history =
      record (voted 100) { election_id = some 2; election_event_id = some 7 }
      ∷ record (voted 100) {
        county = codes "Cobb";
        election_id = some 1;
        election_event_id = some 7;
      }
      ∷ record (voted 200) { election_id = some 3; election_event_id = some 51 }
      ∷ [];
}

abbrev pub counts : ResolutionResult
counts = record {
  tier0_updated = 3;
  tier1_updated = 1;
  tier2_updated = 2;
  unresolvable = 0;
  elections_backfilled = 0;
}
