-- ===== src/Auth/Totp/Codes.antt =====
-- How many recovery codes a user has.
use voter_api.Prelude.{
  ℕ, String, ◌≡◌, refl, ◌+◌, not, List, [], ◌∷◌, ◌++◌, map, arith, length, count_where,
  count_where-append, count_where-dropped, ok, ◌==◌,
}
use voter_api.Auth.Db.{Db, TotpRecoveryCode, Crypto, unused_of}
use voter_api.Auth.Totp.{enroll_totp, confirm_totp, disable_totp, get_recovery_code_count, new_code}

confirm_totp-ok :
    (crypto : Crypto) (db : Db) (now i : ℕ) (code : String) (raw_codes shown : List String)
    (db' : Db)
    → confirm_totp crypto db now i code raw_codes ≡ ok (shown, db')
    → (shown ≡ raw_codes)
      × (db'.recovery_codes ≡ db.recovery_codes ++ map (new_code crypto i) raw_codes)
unfolding confirm_totp
confirm_totp-ok crypto db now i code raw_codes shown db' h = ground arith

count_new :
    (crypto : Crypto) (i : ℕ) (raw_codes : List String)
    → count_where (unused_of i) (map (new_code crypto i) raw_codes) ≡ length raw_codes
count_new crypto i [] = refl
count_new crypto i (r ∷ rs) = ground (arith, count_new crypto i rs)

-- Enrolling and disabling leave a user without recovery codes. Each confirmation with a valid code
-- adds all the codes that it shows to those that the user has, so that a second confirmation leaves
-- both sets in use.
pub recovery_codes-counted :
    (crypto : Crypto) (db : Db) (i : ℕ)
    → ((secret : String) → get_recovery_code_count (enroll_totp db i secret) i ≡ 0)
      × (get_recovery_code_count (disable_totp db i) i ≡ 0)
      × ((now : ℕ) (code : String) (raw_codes shown : List String) (db' : Db)
          → confirm_totp crypto db now i code raw_codes ≡ ok (shown, db')
          → get_recovery_code_count db' i ≡ get_recovery_code_count db i + length shown)
unfolding get_recovery_code_count enroll_totp disable_totp
recovery_codes-counted crypto db i =
    let none_left =
      count_where-dropped (unused_of i) (λ (c : TotpRecoveryCode). not (c.user_id == i))
        db.recovery_codes (λ c p. ground arith) in
    (
      λ secret. none_left,
      none_left,
      λ now code raw_codes shown db' h.
          let (same, codes) = confirm_totp-ok crypto db now i code raw_codes shown db' h in
          let sum =
            count_where-append (unused_of i) db.recovery_codes
              (map (new_code crypto i) raw_codes) in
          let new = count_new crypto i raw_codes in rw (codes, same) (omega (arith, sum, new)),
    )
