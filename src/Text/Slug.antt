-- ===== src/Text/Slug.antt =====
-- `str` of a number, and the texts that `re.sub(r"[^a-z0-9]+", "-", s).strip("-")` makes.
use voter_api.Prelude.{ℕ, zero, suc, Bool, false, not, ◌||◌, [], ◌∷◌, ◌+◌, ◌==◌, if◌then◌else◌}
use mathlib.Core.List.{reverse}
use voter_api.Text.{Text, is_digit, is_lower, from}

-- one more, the last digit first
abbrev increment : Text → Text
increment [] = b'1' ∷ []
increment (c ∷ s) = let rest = increment s in if c == b'9' then b'0' ∷ rest else (c + 1) ∷ s

abbrev units_first : ℕ → Text
units_first zero = b'0' ∷ []
units_first (suc n) = increment (units_first n)

unfoldable pub decimal : ℕ → Text
decimal n = reverse (units_first n)

abbrev is_plain : ℕ → Bool
is_plain c = is_lower c || is_digit c

-- a dash for each run of other characters; the flag says that one is being read
abbrev dashed : Bool → Text → Text
dashed run [] = []
dashed run (c ∷ s) =
    let rest = dashed (not (is_plain c)) s in
    if is_plain c then c ∷ rest else if run then rest else b'-' ∷ rest

abbrev without_dashes : Text → Text
without_dashes s = from (λ c. not (c == b'-')) s

unfoldable pub slug : Text → Text
slug s = reverse (without_dashes (reverse (without_dashes (dashed false s))))
