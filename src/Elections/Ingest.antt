-- ===== src/Elections/Ingest.antt =====
-- lib/election_tracker: a feed of the Secretary of State as its parser returns it (parser.py), and
-- the results that ingester.py takes out of it.
use voter_api.Prelude.{
  ℕ, Bool, Option, none, some, List, [], ◌∷◌, map, if◌then◌else◌, Result, ok, err, ◌>>=◌, find,
}
use voter_api.Text.{Text, codes, same_text, lower, strip}
use voter_api.Text.Search.{is_within, remove_suffix}
use voter_api.Elections.Db.{Error, StoredGroup, StoredOption, StoredPrecinct, ballot_item_not_found}

pub record GroupResult : Type 0 where
  pub group_name : Text
  pub vote_count : ℕ

pub record BallotOption : Type 0 where
  pub id : Text
  pub name : Text
  pub ballot_order : ℕ
  pub vote_count : ℕ
  pub political_party : Text
  pub group_results : List GroupResult
  pub precinct_results : Option (List StoredPrecinct)

pub record BallotItem : Type 0 where
  pub id : Text
  pub name : Text
  pub precincts_participating : Option ℕ
  pub precincts_reporting : Option ℕ
  pub ballot_options : List BallotOption

pub record LocalResult : Type 0 where
  pub name : Text
  pub ballot_items : List BallotItem

-- `election_date` and `created_at` are the date and the instant that `fromisoformat` reads, if any.
pub record SosFeed : Type 0 where
  pub election_date : Option ℕ
  pub election_name : Text
  pub created_at : Option ℕ
  pub ballot_items : List BallotItem
  pub local_results : List LocalResult

pub record StatewideResultData : Type 0 where
  pub precincts_participating : Option ℕ
  pub precincts_reporting : Option ℕ
  pub results_data : List StoredOption
  pub source_created_at : Option ℕ

pub record CountyResultData : Type 0 where
  pub county_name : Text
  pub county_name_normalized : Text
  pub precincts_participating : Option ℕ
  pub precincts_reporting : Option ℕ
  pub results_data : List StoredOption

pub record IngestionResult : Type 0 where
  pub statewide : StatewideResultData
  pub counties : List CountyResultData

unfoldable pub detect_election_type : Text → Text
detect_election_type election_name =
    let name_lower = lower election_name in
    if is_within (codes "runoff") name_lower
    then codes "runoff"
    else if is_within (codes "primary") name_lower
    then codes "primary"
    else if is_within (codes "general") name_lower
    then codes "general"
    else codes "special"

unfoldable pub normalize_county_name : Text → Text
normalize_county_name sos_name = strip (remove_suffix (codes " County") (strip sos_name))

-- `model_dump`
abbrev pub dump_group : GroupResult → StoredGroup
dump_group g = record { group_name = some g.group_name; vote_count = some g.vote_count }

abbrev pub dump : BallotOption → StoredOption
dump o = record {
  id = some o.id;
  name = some o.name;
  political_party = some o.political_party;
  ballot_order = some o.ballot_order;
  vote_count = some o.vote_count;
  group_results = some (map dump_group o.group_results);
  precinct_results = o.precinct_results;
}

abbrev pub item_at : Text → BallotItem → Bool
item_at i item = same_text item.id i

-- the item with this id, or the first one: `_find_ballot_item` with `raise_on_missing=False`
unfoldable pub find_ballot_item : List BallotItem → Option Text → Option BallotItem
find_ballot_item [] ballot_item_id = none
find_ballot_item (item ∷ items) none = some item
find_ballot_item (item ∷ items) (some i) = find (item_at i) (item ∷ items)

-- with `raise_on_missing=True`
unfoldable pub find_statewide_item :
    List BallotItem → Option Text → Result Error (Option BallotItem)
find_statewide_item items none = ok (find_ballot_item items none)
find_statewide_item items (some i) = elim (find_ballot_item items (some i)) [
  | none ↦ err ballot_item_not_found
  | some item ↦ ok (some item)
]

unfoldable pub statewide_of : Option ℕ → Option BallotItem → StatewideResultData
statewide_of created_at none = record {
  precincts_participating = none;
  precincts_reporting = none;
  results_data = [];
  source_created_at = created_at;
}
statewide_of created_at (some item) = record {
  precincts_participating = item.precincts_participating;
  precincts_reporting = item.precincts_reporting;
  results_data = map dump item.ballot_options;
  source_created_at = created_at;
}

-- one turn of the loop over the counties: none for `continue`
unfoldable pub county_of : Option Text → LocalResult → Option CountyResultData
county_of ballot_item_id local = elim (normalize_county_name local.name) [
  | [] ↦ none
  | c ∷ name ↦ elim (find_ballot_item local.ballot_items ballot_item_id) [
    | none ↦ none
    | some item ↦ some (record {
      county_name = local.name;
      county_name_normalized = c ∷ name;
      precincts_participating = item.precincts_participating;
      precincts_reporting = item.precincts_reporting;
      results_data = map dump item.ballot_options;
    })
  ]
]

unfoldable pub counties_of : Option Text → List LocalResult → List CountyResultData
counties_of ballot_item_id [] = []
counties_of ballot_item_id (local ∷ locals) =
    let rest = counties_of ballot_item_id locals in
    elim (county_of ballot_item_id local) [ none ↦ rest | some county ↦ county ∷ rest ]

unfoldable pub ingest_election_results : SosFeed → Option Text → Result Error IngestionResult
ingest_election_results feed ballot_item_id = do
  item ← find_statewide_item feed.ballot_items ballot_item_id
  ok (record {
    statewide = statewide_of feed.created_at item;
    counties = counties_of ballot_item_id feed.local_results;
  })
