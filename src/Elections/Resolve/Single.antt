-- ===== src/Elections/Resolve/Single.antt =====
-- Tier 1 of services/election_resolution_service.py: the only election of a date.
use voter_api.Prelude.{
  ℕ, Bool, true, false, ◌==◌, ◌&&◌, ◌||◌, ◌-◌, Option, none, some, List, [], ◌∷◌, Result, ok, ◌>>=◌,
  find, if◌then◌else◌, length, take,
}
use voter_api.Text.{Text, codes, same_text, upper, lower, strip}
use voter_api.Elections.Db.{Election, Boundary, Error, has_text, boundary_at}
use voter_api.Elections.Link.{truthy}
use voter_api.Elections.Resolve.Tables.{VoterHistory, Records, one, trim}
use voter_api.Elections.Resolve.Updates.{assign}

abbrev pub on_date : ℕ → Election → Bool
on_date date e = e.election_date == date

-- the outer join
abbrev boundary_row : List Boundary → Option ℕ → Option Boundary
boundary_row boundaries none = none
boundary_row boundaries (some i) = find (boundary_at i) boundaries

abbrev ends_with : Text → Text → Bool
ends_with suffix [] = same_text suffix []
ends_with suffix (c ∷ s) = same_text suffix (c ∷ s) || ends_with suffix s

-- "Bibb" for "Bibb County"
abbrev without_county : Text → Text
without_county name =
    if ends_with (codes " county") (lower name) then take (length name - 7) name else name

abbrev has_type : Text → Option Boundary → Bool
has_type t none = false
has_type t (some b) = same_text b.boundary_type t

abbrev county_of : Option Boundary → Option Text
county_of none = none
county_of (some b) = b.county

abbrev name_of : Option Boundary → Option Text
name_of none = none
name_of (some b) = some b.name

abbrev pub map_text : (Text → Text) → Option Text → Option Text
map_text f none = none
map_text f (some t) = some (f t)

-- the county that tier 1 limits an election to
unfoldable pub county_name : Election → Option Boundary → Option Text
county_name e b =
    if truthy e.eligible_county
    then map_text strip e.eligible_county
    else if truthy (county_of b)
    then map_text strip (county_of b)
    else if (has_type (codes "county") b || has_text e.district_type (codes "county"))
        && truthy (name_of b)
    then map_text (λ n. without_county (strip n)) (name_of b)
    else none

abbrev pub single_county : List Boundary → Election → Option Text
single_county boundaries e = county_name e (boundary_row boundaries e.boundary_id)

-- `upper(trim(county)) == county_name.upper()`, if the name is not empty
abbrev pub in_single : Option Text → VoterHistory → Bool
in_single none r = true
in_single (some []) r = true
in_single (some (c ∷ s)) r = same_text (upper (trim r.county)) (upper (c ∷ s))

unfoldable pub resolve_tier1_single_election :
    Records → ℕ → Bool → Result Error (ℕ × List VoterHistory)
resolve_tier1_single_election h date force = do
  e ← one (on_date date) h.db.elections
  ok (assign force date e.id (in_single (single_county h.db.boundaries e)) h.voter_history)
