-- ===== src/Elections/Link.antt =====
-- `link_election_to_boundary` and `backfill_election_district_fields` of
-- services/election_resolution_service.py.
use voter_api.Prelude.{
  ℕ, Bool, true, false, ◌&&◌, Option, none, some, List, [], ◌∷◌, ◌+◌, find, if◌then◌else◌, is_none,
}
use voter_api.Text.{Text, codes, same_text, is_in, upper, strip}
use voter_api.Districts.Parser.{ParsedDistrict, parse_election_district, pad_district_identifier}
use voter_api.Elections.Db.{Db, Election, Boundary}

-- `DISTRICT_TYPE_TO_BOUNDARY_TYPE.get`
unfoldable pub boundary_type_of : Text → Option Text
boundary_type_of t =
    if is_in t (
      codes "state_senate"
      ∷ codes "state_house"
      ∷ codes "congressional"
      ∷ codes "psc"
      ∷ codes "county_commission"
      ∷ codes "school_board"
      ∷ [])
    then some t
    else if same_text t (codes "board_of_education")
    then some (codes "school_board")
    else if same_text t (codes "county_office")
    then some (codes "county")
    else none

-- a text that is not empty
abbrev pub truthy : Option Text → Bool
truthy none = false
truthy (some []) = false
truthy (some (c ∷ s)) = true

-- the condition that a parsed county adds to the query
abbrev in_county : Option Text → Boundary → Bool
in_county none b = true
in_county (some []) b = true
in_county (some (c ∷ s)) b = elim b.county [
  | none ↦ false
  | some county ↦ same_text (upper county) (upper (strip (c ∷ s)))
]

-- the query for a boundary of this type
abbrev is_boundary : Text → Text → Option Text → Boundary → Bool
is_boundary boundary_type identifier county b =
    same_text b.boundary_type boundary_type
    && same_text b.boundary_identifier (pad_district_identifier identifier)
    && in_county county b

-- the id that the query for the district returns first, if it is made
unfoldable pub boundary_of : List Boundary → Text → Option Text → Option Text → Option ℕ
boundary_of boundaries district_type none county = none
boundary_of boundaries district_type (some identifier) county =
    elim (boundary_type_of district_type) [
      | none ↦ none
      | some boundary_type ↦ elim (find (is_boundary boundary_type identifier county) boundaries) [
        | none ↦ none
        | some b ↦ some b.id
      ]
    ]

-- `eligible_county`, if it is not set yet
abbrev county_or : Option Text → Option Text → Option Text
county_or old none = old
county_or old (some []) = old
county_or old (some (c ∷ s)) = if truthy old then old else some (upper (c ∷ s))

-- a boundary that is found replaces the old one
abbrev pub or_old {ℓ} : {A : Type ℓ} → Option A → Option A → Option A
or_old none old = old
or_old (some a) old = some a

-- the fields that a district of a known type sets
unfoldable pub with_district : List Boundary → ParsedDistrict → Text → Election → Election
with_district boundaries parsed district_type e = record e {
  district_type = some district_type;
  district_identifier = parsed.district_identifier;
  district_party = parsed.party;
  eligible_county = county_or e.eligible_county parsed.county;
  boundary_id =
      or_old (boundary_of boundaries district_type parsed.district_identifier parsed.county)
        e.boundary_id;
}

-- The election, and whether fields were set.
unfoldable pub link_election_to_boundary : List Boundary → Election → Election × Bool
link_election_to_boundary boundaries e =
    let parsed = parse_election_district e.district in
    elim parsed.district_type [
      | none ↦ (e, false)
      | some district_type ↦ (with_district boundaries parsed district_type e, true)
    ]

abbrev pub backfill : List Boundary → List Election → List Election × ℕ
backfill boundaries [] = ([], 0)
backfill boundaries (e ∷ es) =
    let (rest, updated) = backfill boundaries es in
    let (e', was_set) = link_election_to_boundary boundaries e in
    if is_none e.district_type
    then (e' ∷ rest, updated + (if was_set then 1 else 0))
    else (e ∷ rest, updated)

unfoldable pub backfill_election_district_fields : Db → Db × ℕ
backfill_election_district_fields db =
    let (elections, updated) = backfill db.boundaries db.elections in
    (record db { elections = elections }, updated)
