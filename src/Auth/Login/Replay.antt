-- ===== src/Auth/Login/Replay.antt =====
-- A TOTP code that was used: within 30 seconds of the login, and after.
use voter_api.Prelude.{
  ℕ, String, ◌≡◌, refl, ◌∙◌, ◌+◌, leb, true, false, none, some, arith, find, find-write,
  find-write_key, write, find-pass,
}
use text.Mathlib.TextPositions.{eq_refl}
use voter_api.Users.{User}
use voter_api.Auth.Db.{Db, TotpCredential, Crypto, Settings, named, user_at, credential_of, seconds}
use voter_api.Auth.Login.{
  logged_in, mfa_invalid, authenticate_user, check_user, check_totp, check_code, fail_code, log_in,
  is_recovery, is_replay, lock_of, stamp, accept_code, is_missing,
}

-- the tables after a login by a code
abbrev pub after_code : Db → ℕ → User → String → Db
after_code db now user code = record db {
  users = write (user_at user.id) (stamp now) db.users;
  credentials = write (credential_of user.id) (accept_code now code) db.credentials;
}

module _ (crypto : Crypto) (settings : Settings) (db : Db) (username password code : String)
    (user : User) (cred : TotpCredential) (is_user : find (named username) db.users ≡ some user)
    (is_row : find (user_at user.id) db.users ≡ some user)
    (has_cred : find (credential_of user.id) db.credentials ≡ some cred)
    (verified : cred.is_verified ≡ true) (is_otp : is_recovery code ≡ false) where
  code_login :
      (now : ℕ) (v : User) (db' : Db)
      → authenticate_user crypto settings db now username password (some code) ≡ (logged_in v, db')
      → db' ≡ after_code db now user code
  unfolding authenticate_user check_user check_totp check_code fail_code log_in
  code_login now v db' h = ground arith

  -- what a request comes down to, once the rows are found
  asks_code :
      (d : Db) (at : ℕ) (u : User) (c : TotpCredential)
      → find (named username) d.users ≡ some u
      → crypto.verify_password password u.hashed_password ≡ true
      → u.is_active ≡ true
      → find (credential_of u.id) d.credentials ≡ some c
      → c.is_verified ≡ true
      → is_missing settings.totp_secret_encryption_key ≡ false
      → lock_of at c ≡ none
      → authenticate_user crypto settings d at username password (some code)
        ≡ check_code crypto settings d at u c code
  unfolding authenticate_user check_user check_totp
  asks_code d at u c name right active held proven keyed free = ground arith

  refuses_replay :
      (d : Db) (now later : ℕ) (u : User)
      → leb later (now + seconds 30) ≡ true
      → check_code crypto settings d later u (accept_code now code cred) code ≡ (mfa_invalid, d)
  unfolding check_code is_replay
  refuses_replay d now later u soon = rw (eq_refl code, soon)

  accepts_later :
      (d : Db) (now later : ℕ) (u : User)
      → leb later (now + seconds 30) ≡ false
      → crypto.verify_code cred.encrypted_secret code later ≡ true
      → check_code crypto settings d later u (accept_code now code cred) code
        ≡ (logged_in (stamp later u), after_code d later u code)
  unfolding check_code is_replay log_in
  accepts_later d now later u late again = rw (eq_refl code, late, again)

  -- A user with a verified TOTP credential has logged in with a code that is no recovery code. Until
  -- 30 seconds later the same request raises that the code is invalid and changes nothing. Later it
  -- logs in again, if the code still verifies.
  pub authenticate_user-replay :
      (now later : ℕ) (v : User) (db' : Db)
      → authenticate_user crypto settings db now username password (some code) ≡ (logged_in v, db')
      → (leb later (now + seconds 30) ≡ true
          → authenticate_user crypto settings db' later username password (some code)
            ≡ (mfa_invalid, db'))
        × (leb later (now + seconds 30) ≡ false
            → crypto.verify_code cred.encrypted_secret code later ≡ true
            → (w : User) × (db'' : Db) × (authenticate_user crypto settings db' later username
                  password
                  (some code)
                ≡ (logged_in w, db'')))
  unfolding authenticate_user check_user check_totp check_code fail_code log_in
  authenticate_user-replay now later v db' h =
      let same = code_login now v db' h in
      let right : crypto.verify_password password user.hashed_password ≡ true = ground arith in
      let active : user.is_active ≡ true = ground arith in
      let keyed : is_missing settings.totp_secret_encryption_key ≡ false = ground arith in
      let name = find-pass (named username) db.users is_user in
      let next =
        find-write_key (named username) (user_at user.id) (stamp now) db.users is_user is_row
          name in
      let held =
        find-write (credential_of user.id) (accept_code now code) db.credentials (λ a p. p)
          has_cred in
      let ask =
        asks_code db' later (stamp now user) (accept_code now code cred) (rw same next) right active
          (rw same held) verified keyed refl in
      (
        λ soon. ask ∙ refuses_replay db' now later (stamp now user) soon,
        λ late again. (
          stamp later (stamp now user),
          after_code db' later (stamp now user) code,
          ask ∙ accepts_later db' now later (stamp now user) late again,
        ),
      )
