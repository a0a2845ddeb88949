-- ===== src/Text/Search.antt =====
-- Searches in a text: `startswith`, `in`, and the pieces of the regular expressions that several
-- parsers share.
use voter_api.Prelude.{
  ℕ, Bool, true, false, ◌&&◌, ◌||◌, Option, none, some, List, [], ◌∷◌, ◌==◌, if◌then◌else◌, not,
}
use voter_api.Text.{
  Text, same_text, is_digit, is_lower, is_upper, is_space, lower_char, before, from,
}

abbrev pub starts_with : Text → Text → Bool
starts_with [] s = true
starts_with (c ∷ p) [] = false
starts_with (c ∷ p) (d ∷ s) = c == d && starts_with p s

-- `needle in s`
abbrev pub is_within : Text → Text → Bool
is_within needle [] = starts_with needle []
is_within needle (c ∷ s) = starts_with needle (c ∷ s) || is_within needle s

-- `any(kw in s for kw in …)`, and the same with `startswith`
abbrev pub any_within : List Text → Text → Bool
any_within [] s = false
any_within (kw ∷ kws) s = is_within kw s || any_within kws s

abbrev pub any_starts : List Text → Text → Bool
any_starts [] s = false
any_starts (kw ∷ kws) s = starts_with kw s || any_starts kws s

-- `s.removesuffix(suffix)`, of a suffix that is not empty
unfoldable pub remove_suffix : Text → Text → Text
remove_suffix suffix [] = []
remove_suffix suffix (c ∷ s) =
    let rest = remove_suffix suffix s in if same_text suffix (c ∷ s) then [] else c ∷ rest

abbrev pub is_letter : ℕ → Bool
is_letter c = is_lower c || is_upper c

-- the text behind a word in any case, if the text starts with it
abbrev pub after_word : Text → Text → Option Text
after_word [] s = some s
after_word (c ∷ w) [] = none
after_word (c ∷ w) (d ∷ s) = let rest = after_word w s in if c == lower_char d then rest else none

-- `\s+`: the text behind at least one space
abbrev pub after_spaces : Text → Option Text
after_spaces [] = none
after_spaces (c ∷ s) = if is_space c then some (from (λ d. not (is_space d)) s) else none

-- `(\d+)`
abbrev pub leading_digits : Text → Option Text
leading_digits [] = none
leading_digits (c ∷ s) = if is_digit c then some (c ∷ before (λ d. not (is_digit d)) s) else none

abbrev pub and_then {ℓ} : {A B : Type ℓ} → Option A → (A → Option B) → Option B
and_then none f = none
and_then (some a) f = f a

-- `word\s+(\d+)` at the start, in any case
abbrev pub number_after : Text → Text → Option Text
number_after word s = and_then (after_word word s) (λ r. and_then (after_spaces r) leading_digits)

abbrev pub number_after_any : List Text → Text → Option Text
number_after_any [] s = none
number_after_any (w ∷ ws) s = elim (number_after w s) [
  | none ↦ number_after_any ws s
  | some n ↦ some n
]

-- the same anywhere: `re.search`
unfoldable pub find_number : List Text → Text → Option Text
find_number ws [] = none
find_number ws (c ∷ s) =
    let rest = find_number ws s in
    elim (number_after_any ws (c ∷ s)) [ none ↦ rest | some n ↦ some n ]
