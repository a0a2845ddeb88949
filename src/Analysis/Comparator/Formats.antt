-- ===== src/Analysis/Comparator/Formats.antt =====
-- The two differences of format that `normalize_for_comparison` allows for.
use voter_api.Prelude.{
  ℕ, zero, suc, Bool, true, false, ◌&&◌, ◌≡◌, refl, sym, ap, ◌∙◌, [], ◌∷◌, ◌+◌, ◌≤◌, Option, none,
  some, arith, select, length, leb, ◌==◌,
}
use voter_api.Text.{Text, is_digit, is_space, rstrip, strip}
use voter_api.Analysis.Comparator.{
  follows, is_numeral, drop_zeros, signed, int_text, renumber, is_numeric_district,
  normalize_for_comparison,
}

abbrev pub all_digits : Text → Bool
all_digits [] = true
all_digits (c ∷ s) = is_digit c && all_digits s

rstrip-digits : (s : Text) → all_digits s ≡ true → rstrip s ≡ s
unfolding rstrip
rstrip-digits [] h = refl
rstrip-digits (c ∷ s) h =
    let solid : is_space c ≡ false = ground arith in
    rw solid (ap (λ t. c ∷ t) (rstrip-digits s (ground arith)))

strip-digits : (s : Text) → all_digits s ≡ true → strip s ≡ s
unfolding strip
strip-digits [] h = rstrip-digits [] refl
strip-digits (c ∷ s) h =
    let solid : is_space c ≡ false = ground arith in rw solid (rstrip-digits (c ∷ s) h)

follows-digits : (s : Text) → all_digits s ≡ true → follows s ≡ true
follows-digits [] h = refl
follows-digits (c ∷ []) h = ground arith
follows-digits (c ∷ d ∷ s) h = ground (arith, follows-digits (d ∷ s))

select-digits : (s : Text) → all_digits s ≡ true → select is_digit s ≡ s
select-digits [] h = refl
select-digits (c ∷ s) h =
    let here : is_digit c ≡ true = ground arith in
    rw here (ap (λ t. c ∷ t) (select-digits s (ground arith)))

le→leb : (a b : ℕ) → a ≤ b → leb a b ≡ true
le→leb a b h = ground arith

-- what `str(int(text))` is for a text of digits
abbrev canonical : Text → Option Text
canonical s = signed false (some (drop_zeros s))

int_text-digits :
    (c : ℕ) (s : Text)
    → all_digits (c ∷ s) ≡ true
    → length (c ∷ s) ≤ 4300
    → int_text (c ∷ s) ≡ canonical (c ∷ s)
unfolding int_text
int_text-digits c s h short =
    let plain : (c == b'-') ≡ false = ground arith in
    let bare : (c == b'+') ≡ false = ground arith in
    let reads : is_numeral (c ∷ s) ≡ true = ground (arith, follows-digits s) in
    rw (plain, bare, reads, select-digits (c ∷ s) h, le→leb (length (c ∷ s)) 4300 short) refl

-- a text behind so many zeros
abbrev pub padded : ℕ → Text → Text
padded zero s = s
padded (suc n) s = b'0' ∷ padded n s

padded-digits : (n : ℕ) (s : Text) → all_digits s ≡ true → all_digits (padded n s) ≡ true
padded-digits zero s h = h
padded-digits (suc n) s h = padded-digits n s h

length-padded : (n : ℕ) (s : Text) → length (padded n s) ≡ n + length s
length-padded zero s = omega arith
length-padded (suc n) s = omega (arith, length-padded n s)

drop_zeros-padded : (n : ℕ) (s : Text) → drop_zeros (padded n s) ≡ drop_zeros s
drop_zeros-padded zero s = refl
drop_zeros-padded (suc n) s = drop_zeros-padded n s

int_text-padded :
    (n c : ℕ) (s : Text)
    → all_digits (c ∷ s) ≡ true
    → n + length (c ∷ s) ≤ 4300
    → int_text (padded n (c ∷ s)) ≡ canonical (c ∷ s)
int_text-padded zero c s h short = int_text-digits c s h (omega arith)
int_text-padded (suc n) c s h short =
    int_text-digits b'0' (padded n (c ∷ s)) (padded-digits n (c ∷ s) h)
      (omega (arith, length-padded n (c ∷ s)))
    ∙ ap (λ t. signed false (some t)) (drop_zeros-padded n (c ∷ s))

-- digits without leading zeros, of which none are a zero
abbrev or_zero : Text → Text
or_zero [] = b'0' ∷ []
or_zero (c ∷ s) = c ∷ s

signed-or_zero : (s : Text) → signed false (some s) ≡ some (or_zero s)
signed-or_zero [] = refl
signed-or_zero (c ∷ s) = refl

renumber-padded :
    (n c : ℕ) (s : Text)
    → all_digits (c ∷ s) ≡ true
    → n + length (c ∷ s) ≤ 4300
    → renumber (padded n (c ∷ s)) ≡ or_zero (drop_zeros (c ∷ s))
renumber-padded n c s h short =
    ap (λ o. elim o [ none ↦ padded n (c ∷ s) | some t ↦ t ])
      (int_text-padded n c s h short ∙ signed-or_zero (drop_zeros (c ∷ s)))

-- Two identifiers of a numeric district that differ in leading zeros only are equal in normal form,
-- whatever their digits, if neither is longer than `int` reads.
pub normalize_for_comparison-padded :
    (boundary_type : Text) (m n c : ℕ) (s : Text)
    → is_numeric_district boundary_type ≡ true
    → all_digits (c ∷ s) ≡ true
    → m + length (c ∷ s) ≤ 4300
    → n + length (c ∷ s) ≤ 4300
    → (normalize_for_comparison boundary_type (padded m (c ∷ s)) (padded n (c ∷ s))).0
      ≡ (normalize_for_comparison boundary_type (padded m (c ∷ s)) (padded n (c ∷ s))).1
unfolding normalize_for_comparison
normalize_for_comparison-padded boundary_type m n c s numeric h left right =
    rw
      (
        numeric,
        strip-digits (padded m (c ∷ s)) (padded-digits m (c ∷ s) h),
        strip-digits (padded n (c ∷ s)) (padded-digits n (c ∷ s) h),
      )
      (renumber-padded m c s h left ∙ sym (renumber-padded n c s h right))
