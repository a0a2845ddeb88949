-- ===== src/Auth/Steps/Users.antt =====
-- The usernames and emails of accounts under the requests of Auth/Steps: what each handler does to
-- the table users of services/auth_service.py.
pub mod Runs
use voter_api.Prelude.{
  ℕ, String, ◌≡◌, refl, ◌⊎◌, inl, inr, Bool, true, false, ◌||◌, Option, none, some, List, [], ◌∷◌,
  ◌++◌, arith, find, write, count_where, committed, if_committed, ok, IsKey, IsKey-write,
  IsKey-append, count_where-none, count_where-write_same, is_none, Option-cases, Bool-cases,
  find-pass, find-none_imp, ◌&&◌,
}
use text.Mathlib.Text.{◌==◌ as str_eq}
use text.Mathlib.TextEquality.{eq_iff}
use text.Mathlib.TextPositions.{eq_refl}
use voter_api.Users.{User, Role}
use voter_api.Auth.Db.{
  Db, Crypto, Settings, TotpCredential, PasswordResetToken, named, mailed, user_at, credential_of,
}
use voter_api.Auth.Login.{
  Outcome, authenticate_user, check_user, check_totp, check_recovery, check_code, fail_code, log_in,
  stamp,
}
use voter_api.Auth.Accounts.{
  UserCreateRequest, UserUpdate, create_user, update_user, get_user, new_user, updated, one_or_none,
  is_same_user, is_taken, add_user,
}
use voter_api.Auth.Tokens.{
  reset_with, confirm_password_reset, request_password_reset, create_invite, cancel_invite,
  resend_invite, accept_invite, set_password,
}
use voter_api.Auth.Totp.{enroll_totp, confirm_totp, disable_totp, unlock_totp}
use voter_api.Auth.Steps.{Command, step, run, run_induction}

pub record UniqueUsers (users : List User) : Type 0 where
  pub names : (n : String) → IsKey (named n) users
  pub emails : (e : String) → IsKey (mailed e) users

abbrev pub HasUniqueUsers : Db → Type 0
HasUniqueUsers db = UniqueUsers db.users

-- a write of other columns
UniqueUsers-write :
    (q : User → Bool) (f : User → User) (users : List User)
    → ((u : User) → ((f u).username ≡ u.username) × ((f u).email ≡ u.email))
    → UniqueUsers users
    → UniqueUsers (write q f users)
UniqueUsers-write q f users k h = record {
  names = λ n. rw (count_where-write_same (named n) q f users (λ u. rw ((k u).0) refl)) (h.names n);
  emails =
      λ e. rw (count_where-write_same (mailed e) q f users (λ u. rw ((k u).1) refl)) (h.emails e);
}

-- a new account under a name and an email that no account has
pub UniqueUsers-append :
    (users : List User) (u : User)
    → find (named u.username) users ≡ none
    → find (mailed u.email) users ≡ none
    → UniqueUsers users
    → UniqueUsers (users ++ u ∷ [])
UniqueUsers-append users u no_name no_email h = record {
  names = λ n.
      IsKey-append (named n) users u
        (λ same.
          count_where-none (named u.username) (named n) users
            (λ a p. ground (arith, (eq_iff u.username n).0, same)) no_name)
        (h.names n);
  emails = λ e.
      IsKey-append (mailed e) users u
        (λ same.
          count_where-none (mailed u.email) (mailed e) users
            (λ a p. ground (arith, (eq_iff u.email e).0, same)) no_email)
        (h.emails e);
}

-- a request writes no user, or stamps this one
abbrev Stamps : Db → ℕ → User → Outcome × Db → Type 0
Stamps db now user r =
    (r.1.users ≡ db.users) ⊎ (r.1.users ≡ write (user_at user.id) (stamp now) db.users)

module _ (crypto : Crypto) (settings : Settings) (db : Db) (now : ℕ) where
  check_totp-Stamps :
      (user : User) (cred : TotpCredential) (code : Option String)
      → Stamps db now user (check_totp crypto settings db now user cred code)
  unfolding check_totp check_recovery check_code fail_code log_in
  check_totp-Stamps user cred none = inl refl
  check_totp-Stamps user cred (some code) = ground arith

  check_user-Stamps :
      (user : User) (code : Option String)
      → Stamps db now user (check_user crypto settings db now user code)
  unfolding check_user log_in
  check_user-Stamps user code = elim (Option-cases (find (credential_of user.id) db.credentials)) [
    | inl e ↦ inr (ground arith)
    | inr (cred, e) ↦ ground (arith, check_totp-Stamps user cred code)
  ]

  authenticate_user-users :
      (username password : String) (code : Option String)
      → ((authenticate_user crypto settings db now username password code).1.users ≡ db.users)
        ⊎ ((user : User) × ((authenticate_user crypto settings db now username password
                code).1.users
              ≡ write (user_at user.id) (stamp now) db.users))
  unfolding authenticate_user
  authenticate_user-users username password code =
      elim (Option-cases (find (named username) db.users)) [
        | inl e ↦ inl (ground arith)
        | inr (user, e) ↦
            elim (Bool-cases
              (crypto.verify_password password user.hashed_password && user.is_active)) [
                | inl d ↦ elim (check_user-Stamps user code) [
                  | inl s ↦ inl (ground arith)
                  | inr s ↦ inr (user, ground arith)
                ]
                | inr d ↦ inl (ground arith)
              ]
      ]

  pub login-HasUniqueUsers :
      (username password : String) (code : Option String)
      → HasUniqueUsers db
      → HasUniqueUsers (authenticate_user crypto settings db now username password code).1
  login-HasUniqueUsers username password code h =
      elim (authenticate_user-users username password code) [
        | inl e ↦ rw e h
        | inr (user, e) ↦
            rw e (UniqueUsers-write (user_at user.id) (stamp now) db.users (λ u. (refl, refl)) h)
      ]

create_user-ok :
    (crypto : Crypto) (db : Db) (fresh salt : ℕ) (request : UserCreateRequest) (u : User) (db' : Db)
    → create_user crypto db fresh salt request ≡ ok (u, db')
    → (find (is_same_user request.username request.email) db.users ≡ none)
      × (u.username ≡ request.username)
      × (u.email ≡ request.email)
      × (db'.users ≡ db.users ++ u ∷ [])
unfolding create_user one_or_none
create_user-ok crypto db fresh salt request u db' h = ground arith

accept_invite-users :
    (crypto : Crypto) (db : Db) (now fresh salt : ℕ) (token username password : String) (u : User)
    (db' : Db)
    → accept_invite crypto db now fresh salt token username password ≡ ok (u, db')
    → (find (named u.username) db.users ≡ none)
      × (find (mailed u.email) db.users ≡ none)
      × (db'.users ≡ db.users ++ u ∷ [])
unfolding accept_invite
accept_invite-users crypto db now fresh salt token username password u db' h = ground arith

confirm_password_reset-users :
    (crypto : Crypto) (db : Db) (now salt : ℕ) (token password : String) (u : Unit {0}) (db' : Db)
    → confirm_password_reset crypto db now salt token password ≡ ok (u, db')
    → (row : PasswordResetToken) × (find (reset_with (crypto.sha256 token)) db.reset_tokens
        ≡ some row)
      × (db'.users
          ≡ write
              (user_at row.user_id)
              (set_password (crypto.hash_password salt password))
              db.users)
unfolding confirm_password_reset
confirm_password_reset-users crypto db now salt token password u db' h = ground arith

update_user-ok :
    (db : Db) (user : User) (values : UserUpdate) (u : User) (db' : Db)
    → update_user db user values ≡ ok (u, db')
    → (is_taken db user values.email ≡ false)
      × (u ≡ updated values user)
      × (db'.users ≡ write (user_at user.id) (λ _. updated values user) db.users)
unfolding update_user
update_user-ok db user values u db' h = ground arith

pub create_user-HasUniqueUsers :
    (crypto : Crypto) (db : Db) (fresh salt : ℕ) (request : UserCreateRequest)
    → HasUniqueUsers db
    → HasUniqueUsers (committed db (create_user crypto db fresh salt request))
create_user-HasUniqueUsers crypto db fresh salt request h =
    if_committed HasUniqueUsers db (create_user crypto db fresh salt request) h λ u db' run.
      let (free, name, email, e) = create_user-ok crypto db fresh salt request u db' run in
      let clash = is_same_user request.username request.email in
      rw e (
        UniqueUsers-append db.users u
          (find-none_imp clash (named u.username) db.users (λ a p. ground arith) free)
          (find-none_imp clash (mailed u.email) db.users (λ a p. ground arith) free) h)

pub accept_invite-HasUniqueUsers :
    (crypto : Crypto) (db : Db) (now fresh salt : ℕ) (token username password : String)
    → HasUniqueUsers db
    → HasUniqueUsers (committed db (accept_invite crypto db now fresh salt token username password))
accept_invite-HasUniqueUsers crypto db now fresh salt token username password h =
    if_committed HasUniqueUsers db (accept_invite crypto db now fresh salt token username password)
      h
      λ u db' run.
        let (name, email, e) =
          accept_invite-users crypto db now fresh salt token username password u db' run in
        rw e (UniqueUsers-append db.users u name email h)

pub confirm_password_reset-HasUniqueUsers :
    (crypto : Crypto) (db : Db) (now salt : ℕ) (token password : String)
    → HasUniqueUsers db
    → HasUniqueUsers (committed db (confirm_password_reset crypto db now salt token password))
confirm_password_reset-HasUniqueUsers crypto db now salt token password h =
    if_committed HasUniqueUsers db (confirm_password_reset crypto db now salt token password) h
      λ u db' run.
        let (row, _, e) =
          confirm_password_reset-users crypto db now salt token password u db' run in
        rw e (
          UniqueUsers-write (user_at row.user_id)
            (set_password (crypto.hash_password salt password)) db.users (λ a. (refl, refl)) h)

-- an email that the update sets is the old one, or is no other's
free_email :
    (db : Db) (user : User) (values : UserUpdate) (e : String)
    → is_taken db user values.email ≡ false
    → mailed e (updated values user) ≡ true
    → (mailed e user ≡ true) ⊎ (count_where (mailed e) db.users ≡ 0)
free_email db user values e free same = elim (Option-cases values.email) [
  | inl none_given ↦ inl (ground arith)
  | inr (new, given_new) ↦
      let changed : str_eq new e ≡ true = ground arith in
      let is_e = (eq_iff new e).0 changed in
      elim (Bool-cases (str_eq new user.email)) [
        | inl kept ↦ let old = (eq_iff new user.email).0 kept in inl (rw (← old, is_e) (eq_refl e))
        | inr moved ↦
            let none_has : find (mailed new) db.users ≡ none = ground arith in
            inr (count_where-none (mailed new) (mailed e) db.users (λ a p. rw is_e p) none_has)
      ]
]

pub update_user-HasUniqueUsers :
    (db : Db) (user : User) (values : UserUpdate)
    → find (user_at user.id) db.users ≡ some user
    → HasUniqueUsers db
    → HasUniqueUsers (committed db (update_user db user values))
update_user-HasUniqueUsers db user values found h =
    if_committed HasUniqueUsers db (update_user db user values) h λ u db' run.
      let (free, _, e) = update_user-ok db user values u db' run in
      rw e (record {
        names = λ n.
            IsKey-write (named n) (user_at user.id) (λ _. updated values user) db.users
              (λ a is_a p. inl (ground arith)) (h.names n);
        emails = λ m.
            IsKey-write (mailed m) (user_at user.id) (λ _. updated values user) db.users
              (λ a is_a p.
                let same : a ≡ user = ground arith in rw same (free_email db user values m free p))
              (h.emails m);
      })
