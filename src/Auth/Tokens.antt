-- ===== src/Auth/Tokens.antt =====
-- Password resets and invites of services/auth_service.py. The raw token that a handler draws and
-- whether the mail is delivered are arguments.
pub mod Once
use voter_api.Prelude.{
  ℕ, String, Bool, true, false, not, ◌&&◌, Option, none, some, List, [], ◌∷◌, ◌++◌, ◌+◌, ◌==◌, ltb,
  is_none, is_some, select, find, write, exists_where, if◌then◌else◌, Result, ok, err, ◌>>=◌, ◌>>◌,
  guard, or_raise,
}
use text.Mathlib.Text.{◌==◌ as str_eq}
use voter_api.Users.{User, Role}
use voter_api.Auth.Db.{
  Db, PasswordResetToken, UserInvite, Crypto, Settings, Error, named, mailed, user_at, minutes,
  hours, invalid_token, token_expired, user_not_found, email_registered, username_taken,
  delivery_failed, invite_not_found, invite_accepted, integrity_error,
}
use voter_api.Auth.Accounts.{one_or_none, new_user, add_user}

abbrev pub token_of : ℕ → PasswordResetToken → Bool
token_of i t = t.user_id == i

-- `created_at > now - timedelta(minutes=…)`
abbrev pub is_recent : ℕ → ℕ → ℕ → PasswordResetToken → Bool
is_recent now limit i t = token_of i t && ltb now (t.created_at + minutes limit)

abbrev pub reset_with : String → PasswordResetToken → Bool
reset_with hash t = str_eq t.token_hash hash

abbrev pub new_reset : ℕ → ℕ → String → PasswordResetToken
new_reset now i hash = record {
  user_id = i;
  token_hash = hash;
  expires_at = now + hours 24;
  used_at = none;
  created_at = now;
}

-- the tokens of the user are deleted, and the new one is added under the unique index of its hash
abbrev pub store_reset : Db → ℕ → ℕ → String → Result Error (Unit {0} × Db)
store_reset db now i hash =
    let others = select (λ t. not (token_of i t)) db.reset_tokens in
    do
      guard (not (exists_where (reset_with hash) others)) integrity_error
      ok (tt, record db { reset_tokens = others ++ new_reset now i hash ∷ [] })

abbrev pub reset_of :
    Crypto → Settings → Db → ℕ → String → Bool → User → Result Error (Unit {0} × Db)
reset_of crypto settings db now raw_token delivered user = do
  existing ← one_or_none (is_recent now settings.reset_rate_limit_minutes user.id) db.reset_tokens
  if is_some existing
      then ok (tt, db)
      else if delivered
      then store_reset db now user.id (crypto.sha256 raw_token)
      else ok (tt, db)

unfoldable pub request_password_reset :
    Crypto → Settings → Db → ℕ → String → Bool → String → Result Error (Unit {0} × Db)
request_password_reset crypto settings db now raw_token delivered email =
    elim (find (mailed email) db.users) [
      | none ↦ ok (tt, db)
      | some user ↦ reset_of crypto settings db now raw_token delivered user
    ]

abbrev pub set_password : String → User → User
set_password hash u = record u { hashed_password = hash }

abbrev pub use_reset : ℕ → PasswordResetToken → PasswordResetToken
use_reset now t = record t { used_at = some now }

unfoldable pub confirm_password_reset :
    Crypto → Db → ℕ → ℕ → String → String → Result Error (Unit {0} × Db)
confirm_password_reset crypto db now salt token new_password = do
  row ← or_raise (find (reset_with (crypto.sha256 token)) db.reset_tokens) invalid_token
  guard (is_none row.used_at) invalid_token
  guard (ltb now row.expires_at) token_expired
  user ← or_raise (find (user_at row.user_id) db.users) user_not_found
  ok (
    tt,
    record db {
      users =
          write (user_at row.user_id) (set_password (crypto.hash_password salt new_password))
            db.users;
      reset_tokens = write (reset_with (crypto.sha256 token)) (use_reset now) db.reset_tokens;
    },
  )

abbrev pub invited_with : String → UserInvite → Bool
invited_with hash v = str_eq v.token_hash hash

abbrev pub invite_at : ℕ → UserInvite → Bool
invite_at i v = v.id == i

abbrev pub new_invite : ℕ → ℕ → ℕ → String → Role → String → UserInvite
new_invite now fresh admin_id email role hash = record {
  id = fresh;
  email = email;
  role = role;
  invited_by_id = some admin_id;
  token_hash = hash;
  expires_at = now + hours 168;
  accepted_at = none;
  created_at = now;
}

unfoldable pub create_invite :
    Crypto → Db → ℕ → ℕ → String → Bool → ℕ → String → Role → Result Error (UserInvite × Db)
create_invite crypto db now fresh raw_token delivered admin_id email role = do
  guard (is_none (find (mailed email) db.users)) email_registered
  guard delivered delivery_failed
  let invite = new_invite now fresh admin_id email role (crypto.sha256 raw_token)
  guard (not (exists_where (invited_with invite.token_hash) db.invites)) integrity_error
  ok (invite, record db { invites = db.invites ++ invite ∷ [] })

unfoldable pub cancel_invite : Db → ℕ → Result Error (Unit {0} × Db)
cancel_invite db i = do
  row ← or_raise (find (invite_at i) db.invites) invite_not_found
  ok (tt, record db { invites = select (λ v. not (invite_at i v)) db.invites })

abbrev pub renew : ℕ → String → UserInvite → UserInvite
renew now hash v = record v { token_hash = hash; expires_at = now + hours 168 }

unfoldable pub resend_invite : Crypto → Db → ℕ → String → Bool → ℕ → Result Error (UserInvite × Db)
resend_invite crypto db now raw_token delivered i = do
  row ← or_raise (find (invite_at i) db.invites) invite_not_found
  guard (is_none row.accepted_at) invite_accepted
  guard delivered delivery_failed
  let hash = crypto.sha256 raw_token
  guard (not (exists_where (λ v. invited_with hash v && not (invite_at i v)) db.invites))
      integrity_error
  ok (renew now hash row, record db { invites = write (invite_at i) (renew now hash) db.invites })

abbrev pub accept : ℕ → UserInvite → UserInvite
accept now v = record v { accepted_at = some now }

unfoldable pub accept_invite :
    Crypto → Db → ℕ → ℕ → ℕ → String → String → String → Result Error (User × Db)
accept_invite crypto db now fresh salt token username password = do
  row ← or_raise (find (invited_with (crypto.sha256 token)) db.invites) invalid_token
  guard (is_none row.accepted_at) invalid_token
  guard (ltb now row.expires_at) token_expired
  guard (is_none (find (named username) db.users)) username_taken
  guard (is_none (find (mailed row.email) db.users)) email_registered
  let user = new_user fresh username row.email (crypto.hash_password salt password) row.role
  let added = add_user user db
  ok (
    user,
    record added { invites = write (invited_with (crypto.sha256 token)) (accept now) db.invites },
  )
