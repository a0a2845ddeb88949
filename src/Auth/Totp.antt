-- ===== src/Auth/Totp.antt =====
-- The enrolment of a second factor in services/auth_service.py: `enroll_totp` to
-- `get_recovery_code_count`. The secret and the recovery codes that the TOTP manager draws are
-- arguments.
pub mod Codes
use voter_api.Prelude.{
  ℕ, String, Bool, true, false, not, ◌&&◌, Option, none, some, List, [], ◌∷◌, ◌++◌, map, ◌==◌,
  select, find, write, count_where, if◌then◌else◌, Result, ok, err, ◌>>=◌, ◌>>◌, guard, or_raise,
}
use voter_api.Auth.Db.{
  Db, TotpCredential, TotpRecoveryCode, Crypto, Error, credential_of, unused_of, no_enrollment,
  invalid_code,
}

-- `delete(...).where(...user_id == user_id)` of both tables
abbrev pub without_totp : ℕ → Db → Db
without_totp i db = record db {
  credentials = select (λ (c : TotpCredential). not (credential_of i c)) db.credentials;
  recovery_codes = select (λ (c : TotpRecoveryCode). not (c.user_id == i)) db.recovery_codes;
}

abbrev pub new_credential : ℕ → String → TotpCredential
new_credential i secret = record {
  user_id = i;
  encrypted_secret = secret;
  is_verified = false;
  enrolled_at = none;
  failed_attempts = 0;
  locked_until = none;
  last_used_otp = none;
  last_used_otp_at = none;
}

unfoldable pub enroll_totp : Db → ℕ → String → Db
enroll_totp db i secret =
    let cleared = without_totp i db in
    record cleared { credentials = cleared.credentials ++ new_credential i secret ∷ [] }

abbrev pub verified_at : ℕ → TotpCredential → TotpCredential
verified_at now c = record c { is_verified = true; enrolled_at = some now }

abbrev pub new_code : Crypto → ℕ → String → TotpRecoveryCode
new_code crypto i raw = record { user_id = i; code_hash = crypto.sha256 raw; used_at = none }

unfoldable pub confirm_totp :
    Crypto → Db → ℕ → ℕ → String → List String → Result Error (List String × Db)
confirm_totp crypto db now i code raw_codes = do
  cred ← or_raise (find (credential_of i) db.credentials) no_enrollment
  guard (crypto.verify_code cred.encrypted_secret code now) invalid_code
  ok (
    raw_codes,
    record db {
      credentials = write (credential_of i) (verified_at now) db.credentials;
      recovery_codes = db.recovery_codes ++ map (new_code crypto i) raw_codes;
    },
  )

unfoldable pub disable_totp : Db → ℕ → Db
disable_totp db i = without_totp i db

abbrev pub cleared_lock : TotpCredential → TotpCredential
cleared_lock c = record c { locked_until = none; failed_attempts = 0 }

unfoldable pub unlock_totp : Db → ℕ → Db
unlock_totp db i = record db { credentials = write (credential_of i) cleared_lock db.credentials }

unfoldable pub get_recovery_code_count : Db → ℕ → ℕ
get_recovery_code_count db i = count_where (unused_of i) db.recovery_codes
