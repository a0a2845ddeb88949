-- ===== src/Examples/AccountTables.antt =====
-- A small database of accounts, with stand-ins for the hashes: a text is its own hash, and the
-- secret is the code that verifies.
use voter_api.Prelude.{none, some, List, [], ◌∷◌, true}
use text.Mathlib.Text.{◌==◌ as str_eq}
use voter_api.Users.{User, Role}
use voter_api.Auth.Db.{
  Db, TotpCredential, TotpRecoveryCode, PasswordResetToken, UserInvite, Crypto, Settings,
}
use voter_api.Auth.Accounts.{UserCreateRequest}
use voter_api.Auth.Login.Lockout.{Attempt}
use voter_api.Auth.Steps.{Command}

abbrev pub plain : Crypto
plain = record {
  verify_password = λ password hash. str_eq password hash;
  hash_password = λ salt password. password;
  verify_code = λ secret code now. str_eq secret code;
  sha256 = λ text. text;
}

abbrev pub settings : Settings
settings = record {
  totp_secret_encryption_key = some "key";
  totp_max_attempts = 3;
  totp_lockout_minutes = 15;
  reset_rate_limit_minutes = 5;
}

abbrev pub ann : User
ann = record {
  id = 1;
  username = "ann";
  email = "ann@example.org";
  hashed_password = "secret";
  role = Role.admin;
  is_active = true;
  last_login_at = none;
}

abbrev pub bob : User
bob = record ann { id = 2; username = "bob"; email = "bob@example.org"; role = Role.viewer }

abbrev pub ann_totp : TotpCredential
ann_totp = record {
  user_id = 1;
  encrypted_secret = "123456";
  is_verified = true;
  enrolled_at = some 5;
  failed_attempts = 1;
  locked_until = none;
  last_used_otp = none;
  last_used_otp_at = none;
}

abbrev pub ann_code : TotpRecoveryCode
ann_code = record { user_id = 1; code_hash = "RECOVERY1"; used_at = none }

abbrev pub bob_reset : PasswordResetToken
bob_reset = record {
  user_id = 2;
  token_hash = "forgot";
  expires_at = 1000000000000;
  used_at = none;
  created_at = 0;
}

abbrev pub cat_invite : UserInvite
cat_invite = record {
  id = 50;
  email = "cat@example.org";
  role = Role.contributor;
  invited_by_id = some 1;
  token_hash = "welcome";
  expires_at = 1000000000000;
  accepted_at = none;
  created_at = 0;
}

abbrev pub accounts : Db
accounts = record {
  users = ann ∷ bob ∷ [];
  credentials = ann_totp ∷ [];
  recovery_codes = ann_code ∷ record ann_code { code_hash = "RECOVERY2" } ∷ [];
  reset_tokens = bob_reset ∷ [];
  invites = cat_invite ∷ [];
}

-- the email of one account with the name of another
abbrev pub mixed : UserCreateRequest
mixed = record { username = "ann"; email = "bob@example.org"; password = "p"; role = Role.viewer }

abbrev pub first_try : Attempt
first_try = record { at = 100; code = "000000" }

abbrev pub second_try : Attempt
second_try = record { at = 200; code = "111111" }

-- one request of every kind, some of which raise
abbrev pub requests : List Command
requests =
    Command.login 100 "ann" "secret" (some "123456")
    ∷ Command.login 101 "bob" "wrong" none
    ∷ Command.create_user 3 7 (record mixed { username = "dan"; email = "dan@example.org" })
    ∷ Command.create_user 4 7 mixed
    ∷ Command.update_user 2
        (record { email = some "ann@example.org"; role = none; is_active = none })
    ∷ Command.request_password_reset 300000000 "again" true "bob@example.org"
    ∷ Command.confirm_password_reset 310000000 9 "again" "new"
    ∷ Command.create_invite 310 51 "hello" true 1 "eve@example.org" Role.analyst
    ∷ Command.resend_invite 320 "hello2" true 51
    ∷ Command.accept_invite 330 5 9 "welcome" "cat" "pw"
    ∷ Command.cancel_invite 51
    ∷ Command.enroll_totp 2 "222222"
    ∷ Command.confirm_totp 340 2 "222222" ("AAAAAAAA" ∷ "BBBBBBBB" ∷ [])
    ∷ Command.unlock_totp 1
    ∷ Command.disable_totp 2
    ∷ []
