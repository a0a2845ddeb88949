-- ===== src/Auth/Db.antt =====
-- The tables behind the accounts: models/user.py, models/totp.py and models/auth_tokens.py. An
-- instant is a number of microseconds.
use voter_api.Prelude.{ℕ, String, Bool, Option, List, ◌*◌, ◌==◌, ◌&&◌, is_none}
use text.Mathlib.Text.{◌==◌ as str_eq}
use voter_api.Users.{User, Role}

pub record TotpCredential : Type 0 where
  pub user_id : ℕ
  pub encrypted_secret : String
  pub is_verified : Bool
  pub enrolled_at : Option ℕ
  pub failed_attempts : ℕ
  pub locked_until : Option ℕ
  pub last_used_otp : Option String
  pub last_used_otp_at : Option ℕ

pub record TotpRecoveryCode : Type 0 where
  pub user_id : ℕ
  pub code_hash : String
  pub used_at : Option ℕ

pub record PasswordResetToken : Type 0 where
  pub user_id : ℕ
  pub token_hash : String
  pub expires_at : ℕ
  pub used_at : Option ℕ
  pub created_at : ℕ

pub record UserInvite : Type 0 where
  pub id : ℕ
  pub email : String
  pub role : Role
  pub invited_by_id : Option ℕ
  pub token_hash : String
  pub expires_at : ℕ
  pub accepted_at : Option ℕ
  pub created_at : ℕ

pub record Db : Type 0 where
  pub users : List User
  pub credentials : List TotpCredential
  pub recovery_codes : List TotpRecoveryCode
  pub reset_tokens : List PasswordResetToken
  pub invites : List UserInvite

abbrev pub seconds : ℕ → ℕ
seconds n = n * 1000000

abbrev pub minutes : ℕ → ℕ
minutes n = n * 60000000

abbrev pub hours : ℕ → ℕ
hours n = n * 3600000000

-- The rows that a query selects by a key.
abbrev pub named : String → User → Bool
named username u = str_eq u.username username

abbrev pub mailed : String → User → Bool
mailed email u = str_eq u.email email

abbrev pub user_at : ℕ → User → Bool
user_at i u = u.id == i

abbrev pub credential_of : ℕ → TotpCredential → Bool
credential_of i c = c.user_id == i

abbrev pub unused_of : ℕ → TotpRecoveryCode → Bool
unused_of i c = c.user_id == i && is_none c.used_at

-- What the services call of other packages: bcrypt, pyotp with Fernet, and SHA-256. A salt is the
-- random part of a hash of a password; a code is verified at an instant.
pub record Crypto : Type 0 where
  pub verify_password : String → String → Bool
  pub hash_password : ℕ → String → String
  pub verify_code : String → String → ℕ → Bool
  pub sha256 : String → String

pub record Settings : Type 0 where
  pub totp_secret_encryption_key : Option String
  pub totp_max_attempts : ℕ
  pub totp_lockout_minutes : ℕ
  pub reset_rate_limit_minutes : ℕ

-- What the services raise: ValueError with what its message says, MailDeliveryError, and the
-- errors of SQLAlchemy.
pub data Error : Type 0 where
  user_exists email_in_use username_taken email_registered user_not_found : Error
  invalid_token token_expired invite_not_found invite_accepted : Error
  no_enrollment invalid_code delivery_failed : Error
  multiple_results integrity_error : Error
