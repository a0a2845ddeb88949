-- ===== src/Elections/Unique/Columns.antt =====
-- The widths of the columns of models/election.py, and the test on them.
use voter_api.Prelude.{ℕ, ◌≡◌, ◌≤◌, ◌↔◌, refl, true, Option, none, some, length, leb_iff, &&_iff}
use voter_api.Text.{Text}
use voter_api.Elections.Db.{Election}
use voter_api.Elections.Service.{is_within, fits}

-- A value of the column has at most n characters.
abbrev pub IsWithin : ℕ → Option Text → Type 0
IsWithin n none = Unit
IsWithin n (some t) = length t ≤ n

-- Every column holds its value.
abbrev pub IsFitting : Election → Type 0
IsFitting e =
    (e.refresh_interval_seconds ≤ 2147483647)
    × (length e.name ≤ 500)
    × (length e.election_type ≤ 50)
    × (length e.district ≤ 200)
    × IsWithin 50 e.ballot_item_id
    × IsWithin 50 e.district_type
    × IsWithin 50 e.district_identifier
    × IsWithin 10 e.district_party
    × IsWithin 100 e.eligible_county
    × IsWithin 100 e.eligible_municipality

width_iff : (n : ℕ) (o : Option Text) → (is_within n o ≡ true) ↔ IsWithin n o
width_iff n none = (λ h. tt, λ h. refl)
width_iff n (some t) = leb_iff (length t) n

pub fits_iff : (e : Election) → (fits e ≡ true) ↔ IsFitting e
unfolding fits
fits_iff e =
    let texts =
      &&_iff
        (&&_iff
          (&&_iff (leb_iff e.refresh_interval_seconds 2147483647) (leb_iff (length e.name) 500))
          (leb_iff (length e.election_type) 50))
        (leb_iff (length e.district) 200) in
    let districts =
      &&_iff
        (&&_iff
          (&&_iff (&&_iff texts (width_iff 50 e.ballot_item_id)) (width_iff 50 e.district_type))
          (width_iff 50 e.district_identifier))
        (width_iff 10 e.district_party) in
    let all =
      &&_iff (&&_iff districts (width_iff 100 e.eligible_county))
        (width_iff 100 e.eligible_municipality) in
    (
      λ h.
          let (((((((((a, b), c), d), i), j), k), l), m), n) = all.0 h in
          (a, b, c, d, i, j, k, l, m, n),
      λ (a, b, c, d, i, j, k, l, m, n). all.1 (((((((((a, b), c), d), i), j), k), l), m), n),
    )
