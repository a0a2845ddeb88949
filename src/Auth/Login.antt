-- ===== src/Auth/Login.antt =====
-- `authenticate_user` of services/auth_service.py, with the TOTP manager's test of recovery codes
-- (lib/totp/manager.py). A request reads the clock once.
pub mod Factors
pub mod Replay
pub mod Lockout
pub mod Recovery
use voter_api.Prelude.{
  ℕ, String, Bool, true, false, not, ◌&&◌, ◌||◌, Option, none, some, List, [], ◌∷◌, ◌+◌, ltb, leb,
  length, if◌then◌else◌, find, write, exists_where,
}
use text.Mathlib.Text.{◌==◌ as str_eq}
use voter_api.Text.{codes}
use voter_api.Users.{User}
use voter_api.Auth.Db.{
  Db, TotpCredential, TotpRecoveryCode, Crypto, Settings, named, user_at, credential_of, unused_of,
  seconds, minutes,
}

-- What a login ends with: None, the user, MFARequiredException with its error code,
-- TOTPLockedException with its instant, or the RuntimeError of a missing key.
pub data Outcome : Type 0 where
  refused mfa_required mfa_invalid no_key : Outcome
  logged_in : User → Outcome
  totp_locked : ℕ → Outcome

-- `not settings.totp_secret_encryption_key`
abbrev pub is_missing : Option String → Bool
is_missing none = true
is_missing (some key) = str_eq key ""

-- `len(totp_code) > 6`
abbrev pub is_recovery : String → Bool
is_recovery code = ltb 6 (length (codes code))

-- `user.last_login_at = …`
abbrev pub stamp : ℕ → User → User
stamp now u = record u { last_login_at = some now }

unfoldable pub log_in : Db → ℕ → User → Outcome × Db
log_in db now user =
    (logged_in (stamp now user), record db { users = write (user_at user.id) (stamp now) db.users })

abbrev pub use_code : ℕ → TotpRecoveryCode → TotpRecoveryCode
use_code now c = record c { used_at = some now }

abbrev pub unlock : TotpCredential → TotpCredential
unlock cred = record cred { failed_attempts = 0; locked_until = none }

-- the instant of a lock that still holds
abbrev pub lock_of : ℕ → TotpCredential → Option ℕ
lock_of now cred = elim cred.locked_until [
  | none ↦ none
  | some t ↦ if ltb now t then some t else none
]

abbrev pub is_last_otp : TotpCredential → String → Bool
is_last_otp cred code = elim cred.last_used_otp [ none ↦ false | some last ↦ str_eq last code ]

-- the code of the last login, within 30 seconds of it
unfoldable pub is_replay : ℕ → TotpCredential → String → Bool
is_replay now cred code =
    is_last_otp cred code
    && (elim cred.last_used_otp_at [ none ↦ false | some at ↦ leb now (at + seconds 30) ])

abbrev pub accept_code : ℕ → String → TotpCredential → TotpCredential
accept_code now code cred = record cred {
  last_used_otp = some code;
  last_used_otp_at = some now;
  failed_attempts = 0;
  locked_until = none;
}

abbrev pub lock_out : ℕ → TotpCredential → TotpCredential
lock_out until cred = record cred { locked_until = some until; failed_attempts = 0 }

abbrev pub count_failure : TotpCredential → TotpCredential
count_failure cred = record cred { failed_attempts = cred.failed_attempts + 1 }

abbrev pub write_credential : ℕ → (TotpCredential → TotpCredential) → Db → Db
write_credential i f db = record db { credentials = write (credential_of i) f db.credentials }

-- a wrong code, which is counted, and committed before the exception is raised
unfoldable pub fail_code : Settings → Db → ℕ → User → TotpCredential → Outcome × Db
fail_code settings db now user cred =
    let until = now + minutes settings.totp_lockout_minutes in
    if leb settings.totp_max_attempts (cred.failed_attempts + 1)
    then (totp_locked until, write_credential user.id (lock_out until) db)
    else (mfa_invalid, write_credential user.id count_failure db)

module _ (crypto : Crypto) where
  -- a row of `unused_codes` whose hash is that of the code
  abbrev pub matches : ℕ → String → TotpRecoveryCode → Bool
  matches i code c = unused_of i c && str_eq (crypto.sha256 code) c.code_hash

  unfoldable pub check_recovery : Db → ℕ → User → String → Outcome × Db
  check_recovery db now user code =
      if exists_where (matches user.id code) db.recovery_codes
      then log_in
          (write_credential user.id unlock (record db {
            recovery_codes = write (matches user.id code) (use_code now) db.recovery_codes;
          }))
          now user
      else (mfa_invalid, db)

  unfoldable pub check_code : Settings → Db → ℕ → User → TotpCredential → String → Outcome × Db
  check_code settings db now user cred code =
      if is_replay now cred code
      then (mfa_invalid, db)
      else if crypto.verify_code cred.encrypted_secret code now
      then log_in (write_credential user.id (accept_code now code) db) now user
      else fail_code settings db now user cred

  unfoldable pub check_totp :
      Settings → Db → ℕ → User → TotpCredential → Option String → Outcome × Db
  check_totp settings db now user cred none = (mfa_required, db)
  check_totp settings db now user cred (some code) =
      if is_missing settings.totp_secret_encryption_key
      then (no_key, db)
      else if is_recovery code
      then check_recovery db now user code
      else elim (lock_of now cred) [
        | some until ↦ (totp_locked until, db)
        | none ↦ check_code settings db now user cred code
      ]

  unfoldable pub check_user : Settings → Db → ℕ → User → Option String → Outcome × Db
  check_user settings db now user totp_code = elim (find (credential_of user.id) db.credentials) [
    | none ↦ log_in db now user
    | some cred ↦
        if cred.is_verified
        then check_totp settings db now user cred totp_code
        else log_in db now user
  ]

  unfoldable pub authenticate_user :
      Settings → Db → ℕ → String → String → Option String → Outcome × Db
  authenticate_user settings db now username password totp_code =
      elim (find (named username) db.users) [
        | none ↦ (refused, db)
        | some user ↦
            if crypto.verify_password password user.hashed_password && user.is_active
            then check_user settings db now user totp_code
            else (refused, db)
      ]
