-- ===== src/Examples/ElectionTables.antt =====
-- A feed with two races, a request to import it, and tables with one manual election.
use voter_api.Prelude.{none, some, List, [], ◌∷◌, true, ok, err, ◌+◌}
use voter_api.Text.{Text, codes}
use voter_api.Elections.Db.{Db, Boundary, Election, ElectionSource, ElectionStatus, fetch_error}
use voter_api.Elections.Ingest.{BallotItem, BallotOption, SosFeed}
use voter_api.Elections.Service.{ElectionCreateRequest, ElectionField, new_election}
use voter_api.Elections.Results.{ManualResultSubmitRequest}
use voter_api.Elections.Refresh.{Fetch}
use voter_api.Elections.Feed.{FeedImportRequest}
use voter_api.Elections.Steps.{Command}

abbrev pub county : Boundary
county = record {
  id = 5;
  boundary_type = codes "county";
  boundary_identifier = codes "021";
  name = codes "Bibb County";
  county = none;
}

abbrev pub district_18 : Boundary
district_18 = record {
  id = 6;
  boundary_type = codes "state_senate";
  boundary_identifier = codes "018";
  name = codes "Senate 18";
  county = none;
}

abbrev pub bond_request : ElectionCreateRequest
bond_request = record {
  name = codes "Bond";
  election_date = 100;
  election_type = codes "special";
  district = codes "Bibb";
  source = ElectionSource.manual;
  data_source_url = none;
  boundary_id = some 5;
  refresh_interval_seconds = 120;
  ballot_item_id = none;
  status = ElectionStatus.active;
}

abbrev pub bond : Election
bond = record (new_election 1 bond_request) { boundary_id = some 5 }

abbrev pub tables : Db
tables = record {
  elections = bond ∷ [];
  results = [];
  county_results = [];
  boundaries = county ∷ district_18 ∷ [];
}

abbrev pub ada : BallotOption
ada = record {
  id = codes "c1";
  name = codes "Ada";
  ballot_order = 1;
  vote_count = 40;
  political_party = codes "Dem";
  group_results = record { group_name = codes "Advance"; vote_count = 40 } ∷ [];
  precinct_results = none;
}

abbrev pub race : Text → Text → BallotItem
race i name = record {
  id = i;
  name = name;
  precincts_participating = some 9;
  precincts_reporting = some 3;
  ballot_options = ada ∷ [];
}

abbrev pub races : List BallotItem
races =
    race (codes "S18") (codes "State Senate - District 18")
    ∷ race (codes "P3") (codes "PSC - District 3 - Dem")
    ∷ []

abbrev pub feed : SosFeed
feed = record {
  election_date = some 200;
  election_name = codes "Runoff";
  created_at = some 17300000;
  ballot_items = races;
  local_results = record { name = codes "Bibb County"; ballot_items = races } ∷ [];
}

abbrev pub served : Fetch
served url = ok feed

abbrev pub down : Fetch
down url = err fetch_error

abbrev pub feed_request : FeedImportRequest
feed_request = record {
  data_source_url = codes "https://feed";
  election_type = none;
  refresh_interval_seconds = 120;
  auto_refresh = true;
}

abbrev pub tally : ManualResultSubmitRequest
tally = record {
  precincts_participating = some 2;
  precincts_reporting = some 1;
  candidates =
      record {
        name = codes "Yes, now!";
        political_party = [];
        ballot_order = 12;
        vote_count = 7;
        group_results = [];
      }
      ∷ [];
}

-- one command of every kind, some of which raise
abbrev pub commands : List Command
commands =
    Command.create 1 bond_request
    ∷ Command.create 2 (record bond_request { name = codes "Tax" })
    ∷ Command.update 2 (ElectionField.name (some (codes "Bond")) ∷ [])
    ∷ Command.submit 1000 1 tally
    ∷ Command.link 2 (codes "https://feed") (some (codes "S18"))
    ∷ Command.refresh served 2000 2
    ∷ Command.soft_delete 3000 1
    ∷ Command.import served 210 (λ k. 10 + k) (λ k. 4000) feed_request
    ∷ Command.refresh_all down (λ i. 5000)
    ∷ Command.update 2 (ElectionField.status (some ElectionStatus.finalized) ∷ [])
    ∷ []
