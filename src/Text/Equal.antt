-- ===== src/Text/Equal.antt =====
-- The test of equality of two texts decides their equality.
use voter_api.Prelude.{true, ◌≡◌, ◌↔◌, refl, ap, [], ◌∷◌, arith, ==_refl}
use voter_api.Text.{Text, same_text}

pub same_text→≡ : (s t : Text) → same_text s t ≡ true → s ≡ t
same_text→≡ [] [] h = refl
same_text→≡ [] (d ∷ t) h = absurd (ground arith)
same_text→≡ (c ∷ s) [] h = absurd (ground arith)
same_text→≡ (c ∷ s) (d ∷ t) h =
    let head : c ≡ d = ground arith in rw head (ap (λ r. d ∷ r) (same_text→≡ s t (ground arith)))

pub same_text_refl : (s : Text) → same_text s s ≡ true
same_text_refl [] = refl
same_text_refl (c ∷ s) = rw (==_refl c) (same_text_refl s)

pub same_text_iff : (s t : Text) → (same_text s t ≡ true) ↔ (s ≡ t)
same_text_iff s t = (same_text→≡ s t, λ e. rw e (same_text_refl t))
