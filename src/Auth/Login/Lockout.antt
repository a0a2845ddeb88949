-- ===== src/Auth/Login/Lockout.antt =====
-- Wrong TOTP codes in a row under `authenticate_user` of services/auth_service.py.
use voter_api.Prelude.{
  ℕ, suc, String, ◌≡◌, refl, sym, ap, ◌∙◌, ◌+◌, ltb, leb, true, false, none, some, List, [], ◌∷◌,
  arith, length, All, find, find-write,
}
use mathlib.Core.Path.{subst}
use voter_api.Users.{User}
use voter_api.Auth.Db.{Db, TotpCredential, Crypto, Settings, named, credential_of, minutes}
use voter_api.Auth.Login.{
  Outcome, totp_locked, mfa_invalid, authenticate_user, check_user, check_totp, check_code,
  fail_code, is_recovery, is_replay, lock_of, is_missing, write_credential, count_failure, lock_out,
}

-- An attempt to log in: the instant and the code.
pub record Attempt : Type 0 where
  pub at : ℕ
  pub code : String

module _ (crypto : Crypto) (settings : Settings) (username password : String) where
  -- the tables after a number of attempts
  unfoldable pub after_attempts : Db → List Attempt → Db
  after_attempts db [] = db
  after_attempts db (t ∷ ts) =
      after_attempts (authenticate_user crypto settings db t.at username password (some t.code)).1
        ts

  -- a code that does not verify, and is neither a recovery code nor that of a login just before
  abbrev pub IsWrong : TotpCredential → Attempt → Type 0
  IsWrong cred t =
      (is_recovery t.code ≡ false)
      × (crypto.verify_code cred.encrypted_secret t.code t.at ≡ false)
      × (is_replay t.at cred t.code ≡ false)

  -- the request reaches the codes of this credential
  pub record IsReady (db : Db) (user : User) (cred : TotpCredential) : Type 0 where
    pub is_user : find (named username) db.users ≡ some user
    pub right : crypto.verify_password password user.hashed_password ≡ true
    pub active : user.is_active ≡ true
    pub held : find (credential_of user.id) db.credentials ≡ some cred
    pub proven : cred.is_verified ≡ true
    pub keyed : is_missing settings.totp_secret_encryption_key ≡ false

  tries_code :
      (db : Db) (user : User) (cred : TotpCredential) (now : ℕ) (code : String)
      → IsReady db user cred
      → is_recovery code ≡ false
      → lock_of now cred ≡ none
      → authenticate_user crypto settings db now username password (some code)
        ≡ check_code crypto settings db now user cred code
  unfolding authenticate_user check_user check_totp
  tries_code db user cred now code ready otp free = ground arith

  locked_refuses :
      (db : Db) (user : User) (cred : TotpCredential) (now until : ℕ) (code : String)
      → IsReady db user cred
      → is_recovery code ≡ false
      → lock_of now cred ≡ some until
      → authenticate_user crypto settings db now username password (some code)
        ≡ (totp_locked until, db)
  unfolding authenticate_user check_user check_totp
  locked_refuses db user cred now until code ready otp held = ground arith

  fails_once :
      (db : Db) (user : User) (cred : TotpCredential) (t : Attempt)
      → IsReady db user cred
      → cred.locked_until ≡ none
      → IsWrong cred t
      → authenticate_user crypto settings db t.at username password (some t.code)
        ≡ fail_code settings db t.at user cred
  unfolding check_code
  fails_once db user cred t ready free (otp, wrong, fresh) =
      tries_code db user cred t.at t.code ready otp (rw free refl) ∙ rw (fresh, wrong) refl

  IsReady-write :
      (db : Db) (user : User) (cred : TotpCredential) (f : TotpCredential → TotpCredential)
      → ((c : TotpCredential) → (f c).user_id ≡ c.user_id)
      → (f cred).is_verified ≡ cred.is_verified
      → IsReady db user cred
      → IsReady (write_credential user.id f db) user (f cred)
  IsReady-write db user cred f k v ready = record {
    is_user = ready.is_user;
    right = ready.right;
    active = ready.active;
    held = find-write (credential_of user.id) f db.credentials (λ a p. rw (k a) p) ready.held;
    proven = v ∙ ready.proven;
    keyed = ready.keyed;
  }

  -- the instant of the last attempt
  abbrev pub last_at : Attempt → List Attempt → ℕ
  last_at t [] = t.at
  last_at t (u ∷ ts) = last_at u ts

  abbrev lock_end : Attempt → List Attempt → ℕ
  lock_end t ts = last_at t ts + minutes settings.totp_lockout_minutes

  record IsLocked (db : Db) (user : User) (until : ℕ) : Type 0 where
    cred : TotpCredential
    ready : IsReady db user cred
    locked : cred.locked_until ≡ some until

  -- an attempt that fails leaves the next ones a credential with one more failure, or a locked one
  counts_failure :
      (db : Db) (user : User) (cred : TotpCredential) (t : Attempt) (ts : List Attempt)
      → IsReady db user cred
      → cred.locked_until ≡ none
      → IsWrong cred t
      → leb settings.totp_max_attempts (cred.failed_attempts + 1) ≡ false
      → after_attempts db (t ∷ ts) ≡ after_attempts (write_credential user.id count_failure db) ts
  unfolding after_attempts fail_code
  counts_failure db user cred t ts ready free wrong more =
      let failed : fail_code settings db t.at user cred
          ≡ (mfa_invalid, write_credential user.id count_failure db) =
        rw more refl in
      ap (λ (o : Outcome × Db). after_attempts o.1 ts)
        (fails_once db user cred t ready free wrong ∙ failed)

  locks :
      (db : Db) (user : User) (cred : TotpCredential) (t : Attempt) (ts : List Attempt)
      → IsReady db user cred
      → cred.locked_until ≡ none
      → IsWrong cred t
      → leb settings.totp_max_attempts (cred.failed_attempts + 1) ≡ true
      → after_attempts db (t ∷ ts)
        ≡ after_attempts
            (write_credential user.id (lock_out (t.at + minutes settings.totp_lockout_minutes)) db)
            ts
  unfolding after_attempts fail_code
  locks db user cred t ts ready free wrong full =
      let until = t.at + minutes settings.totp_lockout_minutes in
      let failed : fail_code settings db t.at user cred
          ≡ (totp_locked until, write_credential user.id (lock_out until) db) =
        rw full refl in
      ap (λ (o : Outcome × Db). after_attempts o.1 ts)
        (fails_once db user cred t ready free wrong ∙ failed)

  wrong_codes_lock :
      (db : Db) (user : User) (cred : TotpCredential) (t : Attempt) (ts : List Attempt)
      → IsReady db user cred
      → cred.locked_until ≡ none
      → All (IsWrong cred) (t ∷ ts)
      → cred.failed_attempts + suc (length ts) ≡ settings.totp_max_attempts
      → IsLocked (after_attempts db (t ∷ ts)) user (lock_end t ts)
  unfolding after_attempts is_replay
  wrong_codes_lock db user cred t [] ready free wrong count =
      let full : leb settings.totp_max_attempts (cred.failed_attempts + 1) ≡ true = ground arith in
      let until = t.at + minutes settings.totp_lockout_minutes in
      subst (λ d. IsLocked d user until) (sym (locks db user cred t [] ready free wrong.0 full))
        (record {
          cred = lock_out until cred;
          ready = IsReady-write db user cred (lock_out until) (λ c. refl) refl ready;
          locked = refl;
        })
  wrong_codes_lock db user cred t (u ∷ ts) ready free wrong count =
      let more : leb settings.totp_max_attempts (cred.failed_attempts + 1) ≡ false = ground arith in
      subst (λ d. IsLocked d user (lock_end u ts))
        (sym (counts_failure db user cred t (u ∷ ts) ready free wrong.0 more))
        (wrong_codes_lock (write_credential user.id count_failure db) user (count_failure cred) u ts
          (IsReady-write db user cred count_failure (λ c. refl) refl ready) free wrong.1
          (omega (arith, count)))

  lock_of-locked :
      (c : TotpCredential) (now until : ℕ)
      → c.locked_until ≡ some until
      → ltb now until ≡ true
      → lock_of now c ≡ some until
  lock_of-locked c now until h k = ground arith

  -- With the right password of an active user with a verified TOTP credential that is not locked:
  -- wrong codes in a row, one for each attempt that is left, lock the credential, and until the
  -- lockout minutes after the last of them have passed, every further code that is no recovery code,
  -- right or wrong, raises that it is locked and changes nothing.
  pub authenticate_user-lockout :
      (db : Db) (user : User) (cred : TotpCredential) (t : Attempt) (ts : List Attempt)
      → IsReady db user cred
      → cred.locked_until ≡ none
      → All (IsWrong cred) (t ∷ ts)
      → cred.failed_attempts + suc (length ts) ≡ settings.totp_max_attempts
      → (now : ℕ) (code : String) → is_recovery code ≡ false
      → ltb now (last_at t ts + minutes settings.totp_lockout_minutes) ≡ true
      → authenticate_user crypto settings
          (after_attempts db (t ∷ ts))
          now
          username
          password
          (some code)
        ≡ (
          totp_locked (last_at t ts + minutes settings.totp_lockout_minutes),
          after_attempts db (t ∷ ts),
        )
  authenticate_user-lockout db user cred t ts ready free wrong count now code otp soon =
      let end = wrong_codes_lock db user cred t ts ready free wrong count in
      locked_refuses (after_attempts db (t ∷ ts)) user end.cred now (lock_end t ts) code end.ready
        otp (lock_of-locked end.cred now (lock_end t ts) end.locked soon)
