-- ===== src/Elections/Resolve/Reach.antt =====
-- Whom an election reaches, as a description apart from the updates that assign the records.
use voter_api.Prelude.{
  ℕ, ◌≡◌, refl, Bool, true, ◌&&◌, ◌||◌, Option, none, some, List, [], ◌∷◌, is_none, if◌then◌else◌,
  Bool-cases, inl, inr,
}
use voter_api.Text.{Text, codes, same_text}
use voter_api.Districts.Psc.{psc_counties}
use voter_api.Elections.Db.{Election, has_text}
use voter_api.Elections.Link.{truthy}
use voter_api.Elections.Resolve.Tables.{VoterHistory, Voter}
use voter_api.Elections.Resolve.Updates.{
  VoterColumn, voter_column_of, assign, of_county, of_counties, of_municipality, of_district,
  update_vh_statewide, update_vh_by_county, update_vh_by_municipality, update_vh_by_district,
  update_vh_by_psc_county,
}
use voter_api.Elections.Resolve.Multiple.{
  Turn, by_eligible_county, by_municipality, by_psc, by_column, by_district, resolve_election,
  county_scope,
}

pub data Reach : Type 0 where
  nobody everyone : Reach
  county : Text → Reach
  counties : List Text → Reach
  municipality : Option VoterColumn → Option Text → Reach
  district : VoterColumn → Text → Option Text → Reach

abbrev reach_county : Option Text → Reach
reach_county none = Reach.nobody
reach_county (some []) = Reach.nobody
reach_county (some (c ∷ s)) = Reach.county (c ∷ s)

abbrev reach_counties : List Text → Reach
reach_counties [] = Reach.nobody
reach_counties (c ∷ cs) = Reach.counties (c ∷ cs)

abbrev reach_column : Election → Text → Text → Option VoterColumn → Reach
reach_column e dtype identifier none =
    if same_text dtype (codes "psc") then reach_counties (psc_counties identifier) else Reach.nobody
reach_column e dtype identifier (some c) =
    if same_text dtype (codes "city_council")
    then Reach.municipality (some c) (some identifier)
    else if same_text dtype (codes "municipal")
    then Reach.municipality none none
    else Reach.district c identifier (county_scope e dtype)

abbrev reach_district : Election → Option Text → Option Text → Reach
reach_district e none identifier = reach_county e.eligible_county
reach_district e (some dtype) none = reach_county e.eligible_county
reach_district e (some dtype) (some identifier) =
    reach_column e dtype identifier (voter_column_of dtype)

unfoldable pub reach : Election → Reach
reach e =
    if has_text e.district_type (codes "statewide") || has_text e.district_type (codes "us_senate")
    then Reach.everyone
    else if has_text e.district_type (codes "county_office")
    then reach_county e.eligible_county
    else if (has_text e.district_type (codes "municipal")
          || has_text e.district_type (codes "city_council"))
        && is_none e.district_identifier
    then (if truthy e.eligible_municipality || truthy e.eligible_county
        then Reach.municipality none none
        else Reach.nobody)
    else reach_district e e.district_type e.district_identifier

-- the test on a record, or none for nobody
abbrev pub test_of : List Voter → Election → Reach → Option (VoterHistory → Bool)
test_of voters e Reach.nobody = none
test_of voters e Reach.everyone = some (λ r. true)
test_of voters e (Reach.county c) = some (of_county c)
test_of voters e (Reach.counties cs) = some (of_counties cs)
test_of voters e (Reach.municipality c identifier) =
    some (of_municipality voters e.eligible_municipality e.eligible_county c identifier)
test_of voters e (Reach.district c identifier scope) = some (of_district voters c identifier scope)

abbrev pub turn_of : Bool → ℕ → ℕ → Option (VoterHistory → Bool) → List VoterHistory → Turn
turn_of force date i none rows = none
turn_of force date i (some test) rows = some (assign force date i test rows)

module _ (voters : List Voter) (force : Bool) (date : ℕ) (e : Election)
    (rows : List VoterHistory) where
  abbrev Turns : Reach → Turn → Type 0
  Turns to turn = turn ≡ turn_of force date e.id (test_of voters e to) rows

  by_eligible_county-turn :
      (c : Option Text) → Turns (reach_county c) (by_eligible_county voters force date e c rows)
  unfolding by_eligible_county update_vh_by_county
  by_eligible_county-turn none = refl
  by_eligible_county-turn (some []) = refl
  by_eligible_county-turn (some (c ∷ s)) = refl

  by_psc-turn : (cs : List Text) → Turns (reach_counties cs) (by_psc voters force date e cs rows)
  unfolding by_psc update_vh_by_psc_county
  by_psc-turn [] = refl
  by_psc-turn (c ∷ cs) = refl

  by_column-turn :
      (dtype identifier : Text) (c : Option VoterColumn)
      → Turns
          (reach_column e dtype identifier c)
          (by_column voters force date e dtype identifier c rows)
  unfolding by_column update_vh_by_municipality update_vh_by_district
  by_column-turn dtype identifier none = elim (Bool-cases (same_text dtype (codes "psc"))) [
    | inl is_psc ↦ rw is_psc (by_psc-turn (psc_counties identifier))
    | inr other ↦ rw other refl
  ]
  by_column-turn dtype identifier (some c) =
      elim (Bool-cases (same_text dtype (codes "city_council"))) [
        | inl is_council ↦ elim (Bool-cases (same_text dtype (codes "municipal"))) [
          | inl is_city ↦ rw (is_council, is_city) refl
          | inr other ↦ rw (is_council, other) refl
        ]
        | inr no_council ↦ elim (Bool-cases (same_text dtype (codes "municipal"))) [
          | inl is_city ↦ rw (no_council, is_city) refl
          | inr other ↦ rw (no_council, other) refl
        ]
      ]

  by_district-turn :
      (t identifier : Option Text)
      → Turns (reach_district e t identifier) (by_district voters force date e t identifier rows)
  unfolding by_district
  by_district-turn none identifier = by_eligible_county-turn e.eligible_county
  by_district-turn (some t) none = by_eligible_county-turn e.eligible_county
  by_district-turn (some t) (some identifier) = by_column-turn t identifier (voter_column_of t)

  by_municipality-turn :
      Turns
        (if truthy e.eligible_municipality || truthy e.eligible_county
          then Reach.municipality none none
          else Reach.nobody)
        (by_municipality voters force date e rows)
  unfolding by_municipality update_vh_by_municipality
  by_municipality-turn =
      elim (Bool-cases (truthy e.eligible_municipality || truthy e.eligible_county)) [
        | inl given ↦ rw given refl
        | inr missing ↦ rw missing refl
      ]

  pub resolve_election-turn : Turns (reach e) (resolve_election voters force date e rows)
  unfolding resolve_election reach update_vh_statewide
  resolve_election-turn =
      elim (Bool-cases (
        has_text e.district_type (codes "statewide")
        || has_text e.district_type (codes "us_senate"))) [
          | inl wide ↦ rw wide refl
          | inr narrow ↦ elim (Bool-cases (has_text e.district_type (codes "county_office"))) [
            | inl office ↦ rw (narrow, office) (by_eligible_county-turn e.eligible_county)
            | inr other ↦
                elim (Bool-cases (
                  (has_text e.district_type (codes "municipal")
                    || has_text e.district_type (codes "city_council"))
                  && is_none e.district_identifier)) [
                    | inl city ↦ rw (narrow, other, city) by_municipality-turn
                    | inr placed ↦
                        rw (narrow, other, placed)
                          (by_district-turn e.district_type e.district_identifier)
                  ]
          ]
        ]
