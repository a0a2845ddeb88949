-- ===== src/Text.antt =====
-- Python's `str` as the list of its code points. The methods are those of ASCII text: beyond it
-- `lower`, `upper` and `strip` follow tables of Unicode that no component relies on.
pub mod Search
pub mod Equal
pub mod Slug
use Prim.Native.Char.{code}
use voter_api.Prelude.{
  ℕ, String, Bool, true, false, ◌&&◌, ◌||◌, List, [], ◌∷◌, map, ◌+◌, ◌-◌, ◌==◌, leb, if◌then◌else◌,
}

abbrev pub Text : Type 0
Text = List ℕ

abbrev pub codes : String → Text
codes String.[] = []
codes (String.◌∷◌ c s) = code c ∷ codes s

-- `==` of texts
abbrev pub same_text : Text → Text → Bool
same_text [] [] = true
same_text [] (d ∷ t) = false
same_text (c ∷ s) [] = false
same_text (c ∷ s) (d ∷ t) = c == d && same_text s t

-- `text in (…)`
abbrev pub is_in : Text → List Text → Bool
is_in s [] = false
is_in s (t ∷ ts) = same_text s t || is_in s ts

-- `str.isspace` of one character
abbrev pub is_space : ℕ → Bool
is_space c = leb 9 c && leb c 13 || leb 28 c && leb c 32

abbrev pub is_digit : ℕ → Bool
is_digit c = leb b'0' c && leb c b'9'

abbrev pub is_upper : ℕ → Bool
is_upper c = leb b'A' c && leb c b'Z'

abbrev pub is_lower : ℕ → Bool
is_lower c = leb b'a' c && leb c b'z'

abbrev pub lower_char : ℕ → ℕ
lower_char c = if is_upper c then c + 32 else c

abbrev pub upper_char : ℕ → ℕ
upper_char c = if is_lower c then c - 32 else c

unfoldable pub lower : Text → Text
lower s = map lower_char s

unfoldable pub upper : Text → Text
upper s = map upper_char s

-- The characters before the first that the test stops at, and the text from there on.
abbrev pub before : (ℕ → Bool) → Text → Text
before stop [] = []
before stop (c ∷ s) = let rest = before stop s in if stop c then [] else c ∷ rest

abbrev pub from : (ℕ → Bool) → Text → Text
from stop [] = []
from stop (c ∷ s) = let rest = from stop s in if stop c then c ∷ s else rest

abbrev pub lstrip : Text → Text
lstrip [] = []
lstrip (c ∷ s) = let rest = lstrip s in if is_space c then rest else c ∷ s

abbrev pub is_blank : Text → Bool
is_blank [] = true
is_blank (c ∷ s) = is_space c && is_blank s

unfoldable pub rstrip : Text → Text
rstrip [] = []
rstrip (c ∷ s) = let rest = rstrip s in if is_space c && is_blank s then [] else c ∷ rest

unfoldable pub strip : Text → Text
unfolding rstrip
strip s = rstrip (lstrip s)

-- the text after the last `sep`, or all of it: `s.rpartition(sep)[2]`
abbrev pub has_char : ℕ → Text → Bool
has_char sep [] = false
has_char sep (c ∷ s) = c == sep || has_char sep s

unfoldable pub after_last : ℕ → Text → Text
after_last sep [] = []
after_last sep (c ∷ s) =
    let rest = after_last sep s in if has_char sep s then rest else if c == sep then s else c ∷ s
