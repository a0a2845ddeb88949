-- ===== src/Auth/Steps/Users/Runs.antt =====
-- The usernames and emails of accounts over a run of the requests of Auth/Steps.
use voter_api.Prelude.{ℕ, ◌≡◌, inl, inr, some, List, arith, find, Option-cases, find-pass}
use mathlib.Core.Path.{subst, sym}
use voter_api.Auth.Db.{Db, Crypto, Settings, user_at}
use voter_api.Auth.Accounts.{UserUpdate, get_user, one_or_none}
use voter_api.Auth.Tokens.{request_password_reset, create_invite, cancel_invite, resend_invite}
use voter_api.Auth.Totp.{enroll_totp, confirm_totp, disable_totp, unlock_totp}
use voter_api.Auth.Steps.{Command, step, run, run_induction}
use voter_api.Auth.Steps.Users.{
  HasUniqueUsers, login-HasUniqueUsers, create_user-HasUniqueUsers, accept_invite-HasUniqueUsers,
  confirm_password_reset-HasUniqueUsers, update_user-HasUniqueUsers,
}

-- a command that writes no account
abbrev IsElsewhere : Command → Type 0
IsElsewhere (Command.login now username password code) = ⊥
IsElsewhere (Command.create_user fresh salt request) = ⊥
IsElsewhere (Command.update_user i values) = ⊥
IsElsewhere (Command.confirm_password_reset now salt token password) = ⊥
IsElsewhere (Command.accept_invite now fresh salt token username password) = ⊥
IsElsewhere _ = Unit

module _ (crypto : Crypto) (settings : Settings) where
  users-step :
      (c : Command) (db : Db) → IsElsewhere c → (step crypto settings c db).users ≡ db.users
  unfolding step enroll_totp confirm_totp disable_totp unlock_totp request_password_reset
      one_or_none create_invite cancel_invite resend_invite
  users-step (Command.login now username password code) db h = absurd h
  users-step (Command.update_user i values) db h = absurd h
  users-step _ db h = ground arith

HasUniqueUsers-of_same :
    (db db' : Db) → db'.users ≡ db.users → HasUniqueUsers db → HasUniqueUsers db'
HasUniqueUsers-of_same db db' e h = rw e h

module _ (crypto : Crypto) (settings : Settings) where
  update-HasUniqueUsers :
      (i : ℕ) (values : UserUpdate) (db : Db)
      → HasUniqueUsers db
      → HasUniqueUsers (step crypto settings (Command.update_user i values) db)
  unfolding step get_user
  update-HasUniqueUsers i values db h = elim (Option-cases (find (user_at i) db.users)) [
    | inl e ↦ rw (step, e) h
    | inr (user, e) ↦
        let is_i : user.id ≡ i = ground (arith, find-pass (user_at i) db.users e) in
        let found = subst (λ k. find (user_at k) db.users ≡ some user) (sym is_i) e in
        rw (step, e) (update_user-HasUniqueUsers db user values found h)
  ]

  step-HasUniqueUsers :
      (c : Command) (db : Db) → HasUniqueUsers db → HasUniqueUsers (step crypto settings c db)
  unfolding step
  step-HasUniqueUsers (Command.login now username password code) db h =
      login-HasUniqueUsers crypto settings db now username password code h
  step-HasUniqueUsers (Command.create_user fresh salt request) db h =
      create_user-HasUniqueUsers crypto db fresh salt request h
  step-HasUniqueUsers (Command.update_user i values) db h = update-HasUniqueUsers i values db h
  step-HasUniqueUsers (Command.confirm_password_reset now salt token password) db h =
      confirm_password_reset-HasUniqueUsers crypto db now salt token password h
  step-HasUniqueUsers (Command.accept_invite now fresh salt token username password) db h =
      accept_invite-HasUniqueUsers crypto db now fresh salt token username password h
  step-HasUniqueUsers c db h =
      HasUniqueUsers-of_same db (step crypto settings c db) (users-step crypto settings c db tt) h

  -- From tables in which no two accounts share a username or an email, any sequence of requests on
  -- accounts, valid or not, leads to tables in which this still holds.
  pub run-HasUniqueUsers :
      (cs : List Command) (db : Db) → HasUniqueUsers db → HasUniqueUsers (run crypto settings cs db)
  run-HasUniqueUsers = run_induction crypto settings HasUniqueUsers step-HasUniqueUsers
