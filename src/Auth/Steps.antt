-- ===== src/Auth/Steps.antt =====
-- The requests on accounts as one system: each command is a call of a handler with its arguments,
-- the clock and what it draws. `update_user` is called for the row that `get_user` returns.
pub mod Users
pub mod Resets
use voter_api.Prelude.{ℕ, String, Bool, Option, none, some, List, [], ◌∷◌, committed}
use voter_api.Users.{Role}
use voter_api.Auth.Db.{Db, Crypto, Settings}
use voter_api.Auth.Login
use voter_api.Auth.Accounts
use voter_api.Auth.Accounts.{UserCreateRequest, UserUpdate}
use voter_api.Auth.Totp
use voter_api.Auth.Tokens

pub data Command : Type 0 where
  login : ℕ → String → String → Option String → Command
  create_user : ℕ → ℕ → UserCreateRequest → Command
  update_user : ℕ → UserUpdate → Command
  enroll_totp : ℕ → String → Command
  confirm_totp : ℕ → ℕ → String → List String → Command
  disable_totp : ℕ → Command
  unlock_totp : ℕ → Command
  request_password_reset : ℕ → String → Bool → String → Command
  confirm_password_reset : ℕ → ℕ → String → String → Command
  create_invite : ℕ → ℕ → String → Bool → ℕ → String → Role → Command
  cancel_invite : ℕ → Command
  resend_invite : ℕ → String → Bool → ℕ → Command
  accept_invite : ℕ → ℕ → ℕ → String → String → String → Command

module _ (crypto : Crypto) (settings : Settings) where
  unfoldable pub step : Command → Db → Db
  step (login now username password code) db =
      (Login.authenticate_user crypto settings db now username password code).1
  step (create_user fresh salt request) db =
      committed db (Accounts.create_user crypto db fresh salt request)
  step (update_user i values) db = elim (Accounts.get_user db i) [
    | none ↦ db
    | some user ↦ committed db (Accounts.update_user db user values)
  ]
  step (enroll_totp i secret) db = Totp.enroll_totp db i secret
  step (confirm_totp now i code raw_codes) db =
      committed db (Totp.confirm_totp crypto db now i code raw_codes)
  step (disable_totp i) db = Totp.disable_totp db i
  step (unlock_totp i) db = Totp.unlock_totp db i
  step (request_password_reset now raw delivered email) db =
      committed db (Tokens.request_password_reset crypto settings db now raw delivered email)
  step (confirm_password_reset now salt token password) db =
      committed db (Tokens.confirm_password_reset crypto db now salt token password)
  step (create_invite now fresh raw delivered admin_id email role) db =
      committed db (Tokens.create_invite crypto db now fresh raw delivered admin_id email role)
  step (cancel_invite i) db = committed db (Tokens.cancel_invite db i)
  step (resend_invite now raw delivered i) db =
      committed db (Tokens.resend_invite crypto db now raw delivered i)
  step (accept_invite now fresh salt token username password) db =
      committed db (Tokens.accept_invite crypto db now fresh salt token username password)

  unfoldable pub run : List Command → Db → Db
  run [] db = db
  run (c ∷ cs) db = run cs (step c db)

-- To keep a property over a run, keep it over each request.
module _ (crypto : Crypto) (settings : Settings) where
  pub run_induction :
      (P : Db → Type 0)
      → ((c : Command) (db : Db) → P db → P (step crypto settings c db))
      → (cs : List Command) (db : Db) → P db
      → P (run crypto settings cs db)
  unfolding run
  run_induction P keep [] db h = h
  run_induction P keep (c ∷ cs) db h =
      run_induction P keep cs (step crypto settings c db) (keep c db h)
