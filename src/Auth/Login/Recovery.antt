-- ===== src/Auth/Login/Recovery.antt =====
-- A login with a recovery code under `authenticate_user` of services/auth_service.py.
use voter_api.Prelude.{
  ℕ, String, ◌≡◌, ◌+◌, Bool, true, some, List, arith, find, find-write, find-exists, write,
  count_where, count_where-write, Option-cases, inl, inr, exists_where, find-pass,
}
use voter_api.Users.{User}
use voter_api.Auth.Db.{
  Db, TotpCredential, TotpRecoveryCode, Crypto, Settings, credential_of, unused_of,
}
use voter_api.Auth.Login.{
  logged_in, authenticate_user, check_user, check_totp, check_recovery, log_in, is_recovery,
  matches, use_code, unlock,
}
use voter_api.Auth.Login.Lockout.{IsReady}

found_row :
    (p : TotpRecoveryCode → Bool) (rows : List TotpRecoveryCode)
    → exists_where p rows ≡ true
    → (c : TotpRecoveryCode) × (find p rows ≡ some c)
found_row p rows h = elim (Option-cases (find p rows)) [
  | inl e ↦ absurd (ground (arith, find-exists p rows))
  | inr found ↦ found
]

module _ (crypto : Crypto) (settings : Settings) (username password : String) where
  recovery_login :
      (db : Db) (now : ℕ) (user v : User) (cred : TotpCredential) (code : String) (db' : Db)
      → IsReady crypto settings username password db user cred
      → is_recovery code ≡ true
      → authenticate_user crypto settings db now username password (some code) ≡ (logged_in v, db')
      → (exists_where (matches crypto user.id code) db.recovery_codes ≡ true)
        × (db'.recovery_codes
            ≡ write (matches crypto user.id code) (use_code now) db.recovery_codes)
        × (db'.credentials ≡ write (credential_of user.id) unlock db.credentials)
  unfolding authenticate_user check_user check_totp check_recovery log_in
  recovery_login db now user v cred code db' ready long h = ground arith

  -- A login with a recovery code marks exactly one unused recovery code of the user as used, and
  -- clears the lock and the count of failures.
  pub authenticate_user-recovery :
      (db : Db) (now : ℕ) (user v : User) (cred : TotpCredential) (code : String) (db' : Db)
      → IsReady crypto settings username password db user cred
      → is_recovery code ≡ true
      → authenticate_user crypto settings db now username password (some code) ≡ (logged_in v, db')
      → (count_where (unused_of user.id) db'.recovery_codes + 1
          ≡ count_where (unused_of user.id) db.recovery_codes)
        × (find (credential_of user.id) db'.credentials ≡ some (unlock cred))
  authenticate_user-recovery db now user v cred code db' ready long h =
      let (there, codes, creds) = recovery_login db now user v cred code db' ready long h in
      let (c, found) = found_row (matches crypto user.id code) db.recovery_codes there in
      let count =
        count_where-write (unused_of user.id) (matches crypto user.id code) (use_code now)
          db.recovery_codes found in
      let was = find-pass (matches crypto user.id code) db.recovery_codes found in
      (
        rw codes (ground arith),
        rw creds (find-write (credential_of user.id) unlock db.credentials (λ a p. p) ready.held),
      )
