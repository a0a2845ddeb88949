-- ===== src/Examples/AccessRuns.antt =====
-- The theorems on tokens, roles and sensitive fields at concrete requests.
use voter_api.Prelude.{
  ℕ, String, ◌≡◌, ◌↔◌, ◌⊎◌, inl, inr, sym, ap, ◌≢◌, ◌∙◌, refl, true, false, none, some, [],
  is_true_iff, ◌∷◌, Option, arith, ltb, ok, if◌then◌else◌,
}
use mathlib.Core.List.{Memᴰ}
use mathlib.Core.List.Memᴰ
use text.Mathlib.TextEquality.{eq_iff}
use text.Mathlib.Text.{◌==◌ as str_eq}
use voter_api.Users.{User, Role, Role-discrete}
use voter_api.Examples.AccountTables.{ann, bob}
use voter_api.Access.{
  Payload, Field, Entry, SensitivityTier, authorize, get, filter_by_sensitivity, has_role,
}
use voter_api.Access.Guards.{
  IsCurrent, HasOpenField, has_entry, authorize_iff, filter_by_sensitivity-open,
}
use voter_api.Access.Tokens.{
  Jwt, RoundTrips, challenge_claims, decode_token, get_passkey_login_options,
  create_passkey_challenge_token, get_passkey_login_options-authorizes,
}

-- what the token of an admin decodes to, and any other does not
abbrev ann_only : String → Option Payload
ann_only token =
    if str_eq token "ann's token"
    then some (record {
      sub = some "ann";
      type = "access";
      role = some Role.admin;
      challenge_b64 = none;
      exp = 1800;
    })
    else none

abbrev username_of : User → String
username_of u = u.username

bob-not-ann : bob.username ≢ ann.username
bob-not-ann e = ground (arith, (eq_iff bob.username ann.username).1 e)

names_differ :
    (a b : User)
    → Memᴰ a (bob ∷ ann ∷ [])
    → Memᴰ b (bob ∷ ann ∷ [])
    → a.username ≡ b.username
    → a ≡ b
names_differ a b m n same = elim (Memᴰ.cases_cons m) [
  | inl p ↦ elim (Memᴰ.cases_cons n) [
    | inl q ↦ p ∙ sym q
    | inr q ↦
        absurd
          (bob-not-ann (sym (ap username_of p) ∙ same ∙ ap username_of (Memᴰ.eq_of_singleton q)))
  ]
  | inr p ↦ elim (Memᴰ.cases_cons n) [
    | inl q ↦
        absurd (
          bob-not-ann (sym (ap username_of q) ∙ sym same ∙ ap username_of (Memᴰ.eq_of_singleton p)))
    | inr q ↦ Memᴰ.eq_of_singleton p ∙ sym (Memᴰ.eq_of_singleton q)
  ]
]

authorize_iff_example :
    (authorize ann_only (bob ∷ ann ∷ []) "ann's token" (Role.admin ∷ []) ≡ ok ann)
    ↔ (IsCurrent ann_only (bob ∷ ann ∷ []) "ann's token" ann × Memᴰ Role.admin (Role.admin ∷ []))
authorize_iff_example =
    authorize_iff ann_only (bob ∷ ann ∷ []) "ann's token" (Role.admin ∷ []) ann names_differ

ann-has_role : has_role (Role.admin ∷ []) ann ≡ true
ann-has_role = rw ((is_true_iff (Role-discrete Role.admin Role.admin)).1 refl) refl

-- a voter's city, and a score that the application computes
abbrev city : Field
city = record { name = "city"; tier = some SensitivityTier.government_sourced }

abbrev score : Field
score = record { name = "score"; tier = some SensitivityTier.system_generated }

abbrev city_value : Entry ℕ
city_value = record { key = "city"; value = some 7 }

abbrev score_value : Entry ℕ
score_value = record { key = "score"; value = some 9 }

filter_by_sensitivity-open_example :
    (HasOpenField "score" (city ∷ score ∷ [])
      × (has_entry "score"
            (filter_by_sensitivity (city_value ∷ score_value ∷ []) Role.viewer (city ∷ score ∷ []))
          ≡ true)
      × (get
            (filter_by_sensitivity (city_value ∷ score_value ∷ []) Role.viewer (city ∷ score ∷ []))
            "score"
          ≡ some 9))
    ⊎ ((¬ HasOpenField "score" (city ∷ score ∷ []))
        × (has_entry "score" (
              filter_by_sensitivity (city_value ∷ score_value ∷ []) Role.viewer (city ∷ score ∷ []))
            ≡ false)
        × (get
              (filter_by_sensitivity
                (city_value ∷ score_value ∷ [])
                Role.viewer
                (city ∷ score ∷ []))
              "score"
            ≡ none))
filter_by_sensitivity-open_example =
    filter_by_sensitivity-open (city_value ∷ score_value ∷ []) Role.viewer (city ∷ score ∷ [])
      "score" (λ e. cc) (λ e. cc)

-- PyJWT as far as this one challenge: made at 1000, expired at 1300
abbrev one_challenge : Jwt
one_challenge = record {
  encode = λ p key. "challenge";
  decode = λ token key now.
      if ltb now 1300
      then (if str_eq token "challenge" then some (challenge_claims 1000 "ann" "abcd" 5) else none)
      else none;
}

one_challenge-RoundTrips : RoundTrips one_challenge (challenge_claims 1000 "ann" "abcd" 5)
one_challenge-RoundTrips key now soon =
    let before : ltb now 1300 ≡ true = ground arith in rw before refl

ann_asked :
    get_passkey_login_options one_challenge "key"
      (bob ∷ ann ∷ [])
      (record { user_id = 1 } ∷ [])
      1000
      "abcd"
      "ann"
    ≡ ok "challenge"
unfolding get_passkey_login_options create_passkey_challenge_token
ann_asked = refl

get_passkey_login_options-authorizes_example :
    authorize (decode_token one_challenge "key" 1200) (bob ∷ ann ∷ []) "challenge" (Role.admin ∷ [])
    ≡ ok ann
get_passkey_login_options-authorizes_example =
    get_passkey_login_options-authorizes one_challenge "key" (bob ∷ ann ∷ [])
      (record { user_id = 1 } ∷ []) 1000 "abcd" "ann" "challenge" ann one_challenge-RoundTrips
      ann_asked refl refl 1200 (ground arith) (Role.admin ∷ []) ann-has_role
