-- ===== src/Elections/Resolve/Multiple.antt =====
-- Tier 2 of services/election_resolution_service.py: the elections of a date with several.
use voter_api.Prelude.{
  ℕ, Bool, ◌&&◌, ◌||◌, ◌+◌, Option, none, some, List, [], ◌∷◌, is_none, is_some, select,
  if◌then◌else◌, ltb, length,
}
use voter_api.Text.{Text, codes, same_text, is_in}
use voter_api.Districts.Psc.{psc_counties}
use voter_api.Elections.Db.{Election, has_text}
use voter_api.Elections.Link.{truthy}
use voter_api.Elections.Resolve.Tables.{VoterHistory, Voter}
use voter_api.Elections.Resolve.Updates.{
  VoterColumn, voter_column_of, update_vh_statewide, update_vh_by_county, update_vh_by_municipality,
  update_vh_by_district, update_vh_by_psc_county,
}
use voter_api.Elections.Resolve.Single.{on_date}

-- the key of `seen_keys`
abbrev same_option : Option Text → Option Text → Bool
same_option none t = is_none t
same_option (some s) t = has_text t s

abbrev pub same_key : Election → Election → Bool
same_key e x =
    same_option e.district_type x.district_type
    && same_option e.district_identifier x.district_identifier
    && same_option e.district_party x.district_party

-- whether `e` takes the place of `x`
abbrev pub is_better : Election → Election → Bool
is_better e x =
    is_some e.boundary_id && is_none x.boundary_id
    || is_none x.boundary_id && is_none e.boundary_id && ltb (length e.name) (length x.name)

-- the values of `seen_keys` after one more election
abbrev pub see : List Election → Election → List Election
see [] e = e ∷ []
see (x ∷ xs) e =
    let rest = see xs e in if same_key e x then (if is_better e x then e else x) ∷ xs else x ∷ rest

abbrev pub see_all : List Election → List Election → List Election
see_all seen [] = seen
see_all seen (e ∷ es) = see_all (see seen e) es

unfoldable pub seen_elections : List Election → List Election
seen_elections es = see_all [] es

-- A turn of the loop: none if the election is unresolvable, else how many records it got.
abbrev pub Turn : Type 0
Turn = Option (ℕ × List VoterHistory)

-- the records updated, the elections that are unresolvable, and the records
abbrev pub Resolved : Type 0
Resolved = (ℕ × ℕ) × List VoterHistory

abbrev pub rows_after : Turn → List VoterHistory → List VoterHistory
rows_after none rows = rows
rows_after (some (n, rows')) rows = rows'

abbrev pub counted : Turn → Resolved → Resolved
counted none ((updated, unresolvable), rows) = ((updated, unresolvable + 1), rows)
counted (some (n, before)) ((updated, unresolvable), rows) = ((n + updated, unresolvable), rows)

abbrev is_municipal_type : Text → Bool
is_municipal_type t = same_text t (codes "municipal") || same_text t (codes "city_council")

-- `county_scope`
abbrev pub county_scope : Election → Text → Option Text
county_scope e dtype =
    if is_in dtype
      (codes "county_commission" ∷ codes "school_board" ∷ codes "board_of_education" ∷ [])
    then e.eligible_county
    else none

module _ (voters : List Voter) (force : Bool) (date : ℕ) where
  -- without a district: by the county, if there is one
  unfoldable pub by_eligible_county : Election → Option Text → List VoterHistory → Turn
  by_eligible_county e none rows = none
  by_eligible_county e (some []) rows = none
  by_eligible_county e (some (c ∷ s)) rows = some (update_vh_by_county force date e.id (c ∷ s) rows)

  -- without a district: by the municipality or the county
  unfoldable pub by_municipality : Election → List VoterHistory → Turn
  by_municipality e rows =
      if truthy e.eligible_municipality || truthy e.eligible_county
      then some (
          update_vh_by_municipality voters force date e.id e.eligible_municipality e.eligible_county
            none none rows)
      else none

  -- by the counties of a district of the Public Service Commission
  unfoldable pub by_psc : Election → List Text → List VoterHistory → Turn
  by_psc e [] rows = none
  by_psc e (c ∷ counties) rows = some (update_vh_by_psc_county force date e.id (c ∷ counties) rows)

  unfoldable pub by_column : Election → Text → Text → Option VoterColumn → List VoterHistory → Turn
  by_column e dtype identifier none rows =
      if same_text dtype (codes "psc") then by_psc e (psc_counties identifier) rows else none
  by_column e dtype identifier (some c) rows =
      let is_council = same_text dtype (codes "city_council") in
      if is_municipal_type dtype
      then some (
          update_vh_by_municipality voters force date e.id e.eligible_municipality e.eligible_county
            (if is_council then some c else none) (if is_council then some identifier else none)
            rows)
      else some
          (update_vh_by_district voters force date e.id c identifier (county_scope e dtype) rows)

  unfoldable pub by_district : Election → Option Text → Option Text → List VoterHistory → Turn
  by_district e none identifier rows = by_eligible_county e e.eligible_county rows
  by_district e (some dtype) none rows = by_eligible_county e e.eligible_county rows
  by_district e (some dtype) (some identifier) rows =
      by_column e dtype identifier (voter_column_of dtype) rows

  -- the body of the loop
  unfoldable pub resolve_election : Election → List VoterHistory → Turn
  resolve_election e rows =
      let is_type = has_text e.district_type in
      if is_type (codes "statewide") || is_type (codes "us_senate")
      then some (update_vh_statewide force date e.id rows)
      else if is_type (codes "county_office")
      then by_eligible_county e e.eligible_county rows
      else if (is_type (codes "municipal") || is_type (codes "city_council"))
          && is_none e.district_identifier
      then by_municipality e rows
      else by_district e e.district_type e.district_identifier rows

  unfoldable pub resolve_elections : List Election → List VoterHistory → Resolved
  resolve_elections [] rows = ((0, 0), rows)
  resolve_elections (e ∷ es) rows =
      let turn = resolve_election e rows in
      counted turn (resolve_elections es (rows_after turn rows))

unfoldable pub resolve_tier2_district_matching :
    List Election → List Voter → ℕ → Bool → List VoterHistory → Resolved
resolve_tier2_district_matching elections voters date force rows =
    resolve_elections voters force date (seen_elections (select (on_date date) elections)) rows
