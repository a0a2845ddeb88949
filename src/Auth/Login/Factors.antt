-- ===== src/Auth/Login/Factors.antt =====
-- What `authenticate_user` of services/auth_service.py asks for.
use voter_api.Prelude.{
  ℕ, String, ◌≡◌, refl, ◌⊎◌, inl, inr, true, false, Option, none, some, arith, find, exists_where,
  Bool-cases, Option-cases,
}
use voter_api.Users.{User}
use voter_api.Auth.Db.{Db, TotpCredential, Crypto, Settings, named, credential_of}
use voter_api.Auth.Login.{
  logged_in, authenticate_user, check_user, check_totp, check_recovery, check_code, fail_code,
  log_in, matches, is_recovery, is_replay, lock_of, stamp,
}

module _ (crypto : Crypto) (settings : Settings) (db : Db) (now : ℕ) where
  -- a recovery code whose hash is stored and not used yet
  abbrev pub IsRecovery : User → String → Type 0
  IsRecovery user code =
      (is_recovery code ≡ true)
      × (exists_where (matches crypto user.id code) db.recovery_codes ≡ true)

  -- a code that verifies at this instant, under no lock, and is not that of a login just before
  abbrev pub IsOtp : TotpCredential → String → Type 0
  IsOtp cred code =
      (is_recovery code ≡ false)
      × (lock_of now cred ≡ none)
      × (is_replay now cred code ≡ false)
      × (crypto.verify_code cred.encrypted_secret code now ≡ true)

  abbrev pub HasSecondFactor : User → Option String → Type 0
  HasSecondFactor user totp_code =
      (cred : TotpCredential)
      → find (credential_of user.id) db.credentials ≡ some cred
      → cred.is_verified ≡ true
      → (code : String) × (totp_code ≡ some code) × (IsRecovery user code ⊎ IsOtp cred code)

  log_in-ok : (d : Db) (u v : User) (d' : Db) → log_in d now u ≡ (logged_in v, d') → v ≡ stamp now u
  unfolding log_in
  log_in-ok d u v d' h = cc

  check_totp-ok :
      (user : User) (cred : TotpCredential) (totp_code : Option String) (v : User) (db' : Db)
      → check_totp crypto settings db now user cred totp_code ≡ (logged_in v, db')
      → (v ≡ stamp now user)
        × ((code : String) × (totp_code ≡ some code) × (IsRecovery user code ⊎ IsOtp cred code))
  unfolding check_totp check_recovery check_code fail_code log_in
  check_totp-ok user cred none v db' h = absurd (ground arith)
  check_totp-ok user cred (some code) v db' h = (
    ground arith,
    (
      code,
      refl,
      elim (Bool-cases (is_recovery code)) [
        | inl e ↦ inl (e, ground arith)
        | inr e ↦ inr (e, ground arith, ground arith, ground arith)
      ],
    ),
  )

  check_user-ok :
      (user : User) (totp_code : Option String) (v : User) (db' : Db)
      → check_user crypto settings db now user totp_code ≡ (logged_in v, db')
      → (v ≡ stamp now user) × HasSecondFactor user totp_code
  unfolding check_user log_in
  check_user-ok user totp_code v db' h =
      elim (Option-cases (find (credential_of user.id) db.credentials)) [
        | inl e ↦ (ground arith, λ cred found verified. absurd (ground arith))
        | inr (c, e) ↦ elim (Bool-cases c.is_verified) [
          | inl d ↦
              let run : check_totp crypto settings db now user c totp_code ≡ (logged_in v, db') =
                ground arith in
              let (same, shown) = check_totp-ok user c totp_code v db' run in
              (same, λ cred found verified. let is_c : c ≡ cred = ground arith in rw (← is_c) shown)
          | inr d ↦ (ground arith, λ cred found verified. absurd (ground arith))
        ]
      ]

  -- A login succeeds only for an active user with this username whose password is right, and where
  -- the user has a verified TOTP credential, only with a code: an unused recovery code of the user,
  -- or a code that verifies now, under no lock, that is not the code of a login of the last 30
  -- seconds. It returns that user, with the instant of the login.
  pub authenticate_user-factors :
      (username password : String) (totp_code : Option String) (v : User) (db' : Db)
      → authenticate_user crypto settings db now username password totp_code ≡ (logged_in v, db')
      → (user : User) × (find (named username) db.users ≡ some user)
        × (crypto.verify_password password user.hashed_password ≡ true)
        × (user.is_active ≡ true)
        × (v ≡ stamp now user)
        × HasSecondFactor user totp_code
  unfolding authenticate_user
  authenticate_user-factors username password totp_code v db' h =
      elim (Option-cases (find (named username) db.users)) [
        | inl e ↦ absurd (ground arith)
        | inr (user, e) ↦
            let run : check_user crypto settings db now user totp_code ≡ (logged_in v, db') =
              ground arith in
            let (same, shown) = check_user-ok user totp_code v db' run in
            (user, e, ground arith, ground arith, same, shown)
      ]
