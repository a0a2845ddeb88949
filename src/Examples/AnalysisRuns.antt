-- ===== src/Examples/AnalysisRuns.antt =====
-- The theorems on the comparison of boundaries at concrete voters.
use voter_api.Prelude.{◌≡◌, refl, true, [], ◌∷◌, List, some, none}
use voter_api.Text.{codes, strip, rstrip}
use voter_api.Analysis.Comparator.{
  Assignment, Voter, MatchStatus, compare_boundaries, compare_types, status_of, int_text,
  is_district, is_precinct, is_numeric_district, normalize_for_comparison,
  extract_registered_boundaries,
}
use voter_api.Analysis.Comparator.Details.{IsDetailed, compare_boundaries-mismatch_details}
use voter_api.Analysis.Comparator.Verdict.{verdict, compare_boundaries-verdict}

-- the house district is the registered one but for its zeros, and the precinct is another
abbrev lives : List Assignment
lives =
    record { boundary_type = codes "state_house"; value = codes "008" }
    ∷ record { boundary_type = codes "county_precinct"; value = codes "021HO3" }
    ∷ []

abbrev voter : Voter
voter = record {
  congressional_district = none;
  state_senate_district = some (codes "  ");
  state_house_district = some (codes "8 ");
  county_precinct = some (codes "HO4");
  municipal_precinct = none;
  judicial_district = some (codes "ATL");
  county_commission_district = none;
  school_board_district = none;
  city_council_district = none;
  municipal_school_board_district = none;
  water_board_district = none;
  super_council_district = none;
  super_commissioner_district = none;
  super_school_board_district = none;
  fire_district = none;
}

abbrev registered : List Assignment
registered =
    record { boundary_type = codes "state_house"; value = codes "8" }
    ∷ record { boundary_type = codes "county_precinct"; value = codes "HO4" }
    ∷ record { boundary_type = codes "judicial"; value = codes "ATL" }
    ∷ []

voter_registered : extract_registered_boundaries voter ≡ registered
unfolding extract_registered_boundaries strip rstrip
voter_registered = refl

lives_elsewhere : (compare_boundaries lives registered).match_status ≡ MatchStatus.mismatch_precinct
unfolding compare_boundaries compare_types status_of normalize_for_comparison int_text is_district
    is_precinct is_numeric_district strip rstrip
lives_elsewhere = refl

precinct_prefix :
    normalize_for_comparison (codes "county_precinct") (codes "021HO3") (codes "HO3")
    ≡ (codes "HO3", codes "HO3")
unfolding normalize_for_comparison is_precinct is_numeric_district strip rstrip
precinct_prefix = refl

compare_boundaries-verdict_example :
    (compare_boundaries lives registered).match_status ≡ verdict lives registered
compare_boundaries-verdict_example = compare_boundaries-verdict lives registered

is_numeric_house : is_numeric_district (codes "state_house") ≡ true
unfolding is_numeric_district
is_numeric_house = refl

compare_boundaries-mismatch_details_example : IsDetailed lives registered (codes "county_precinct")
compare_boundaries-mismatch_details_example =
    compare_boundaries-mismatch_details lives registered (codes "county_precinct")
