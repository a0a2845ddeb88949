-- ===== src/Auth/Tokens/Once.antt =====
-- `confirm_password_reset` and `accept_invite` of services/auth_service.py and their tokens.
use voter_api.Prelude.{
  ℕ, String, ◌≡◌, refl, ◌<◌, none, some, [], ◌∷◌, ◌++◌, arith, find, find-write, write, ok, err,
}
use voter_api.Users.{User}
use voter_api.Auth.Db.{Db, PasswordResetToken, UserInvite, Crypto, user_at, invalid_token}
use voter_api.Auth.Accounts.{new_user}
use voter_api.Auth.Tokens.{
  confirm_password_reset, accept_invite, reset_with, use_reset, set_password, invited_with, accept,
}

module _ (crypto : Crypto) (db : Db) (now salt : ℕ) (token : String) where
  confirm_password_reset-ok :
      (password : String) (u : Unit {0}) (db' : Db)
      → confirm_password_reset crypto db now salt token password ≡ ok (u, db')
      → (row : PasswordResetToken) × (find (reset_with (crypto.sha256 token)) db.reset_tokens
          ≡ some row)
        × (row.used_at ≡ none)
        × (now < row.expires_at)
        × (user : User) × (find (user_at row.user_id) db.users ≡ some user)
        × (db'.users
            ≡ write
                (user_at row.user_id)
                (set_password (crypto.hash_password salt password))
                db.users)
        × (db'.reset_tokens
            ≡ write (reset_with (crypto.sha256 token)) (use_reset now) db.reset_tokens)
  unfolding confirm_password_reset
  confirm_password_reset-ok password u db' h = ground arith

  reset_used :
      (d : Db) (t : PasswordResetToken) (at : ℕ)
      → find (reset_with (crypto.sha256 token)) d.reset_tokens ≡ some t
      → t.used_at ≡ some at
      → (later salt' : ℕ) (password : String)
      → confirm_password_reset crypto d later salt' token password ≡ err invalid_token
  unfolding confirm_password_reset
  reset_used d t at found used later salt' password = ground arith

  -- A reset of a password succeeds only with a token that is stored, unused and not expired. It
  -- writes the new hash to the account of the token, and every further reset with that token, at any
  -- time and for any password, raises that the token is invalid.
  pub confirm_password_reset-once :
      (password : String) (u : Unit {0}) (db' : Db)
      → confirm_password_reset crypto db now salt token password ≡ ok (u, db')
      → (row : PasswordResetToken) × (find (reset_with (crypto.sha256 token)) db.reset_tokens
          ≡ some row)
        × (row.used_at ≡ none)
        × (now < row.expires_at)
        × (user : User) × (find (user_at row.user_id) db'.users
            ≡ some (set_password (crypto.hash_password salt password) user))
        × ((later salt' : ℕ) (other : String)
            → confirm_password_reset crypto db' later salt' token other ≡ err invalid_token)
  confirm_password_reset-once password u db' h =
      let (row, found, unused, in_time, user, has_user, users, tokens) =
        confirm_password_reset-ok password u db' h in
      let used =
        find-write (reset_with (crypto.sha256 token)) (use_reset now) db.reset_tokens (λ t p. p)
          found in
      (
        row,
        found,
        unused,
        in_time,
        user,
        rw users (
            find-write (user_at row.user_id) (set_password (crypto.hash_password salt password))
              db.users (λ v p. p) has_user),
        reset_used db' (use_reset now row) now (rw tokens used) refl,
      )

  accept_invite-ok :
      (fresh : ℕ) (username password : String) (u : User) (db' : Db)
      → accept_invite crypto db now fresh salt token username password ≡ ok (u, db')
      → (row : UserInvite) × (find (invited_with (crypto.sha256 token)) db.invites ≡ some row)
        × (row.accepted_at ≡ none)
        × (now < row.expires_at)
        × (u ≡ new_user fresh username row.email (crypto.hash_password salt password) row.role)
        × (db'.users ≡ db.users ++ u ∷ [])
        × (db'.invites ≡ write (invited_with (crypto.sha256 token)) (accept now) db.invites)
  unfolding accept_invite
  accept_invite-ok fresh username password u db' h = ground arith

  invite_used :
      (d : Db) (v : UserInvite) (at : ℕ)
      → find (invited_with (crypto.sha256 token)) d.invites ≡ some v
      → v.accepted_at ≡ some at
      → (later fresh salt' : ℕ) (username password : String)
      → accept_invite crypto d later fresh salt' token username password ≡ err invalid_token
  unfolding accept_invite
  invite_used d v at found used later fresh salt' username password = ground arith

  -- An invite is accepted only with a token that is stored, not accepted and not expired. The new
  -- account has the email and the role that the invite was made out for, whatever the request says,
  -- and every further attempt with that token raises that it is invalid.
  pub accept_invite-once :
      (fresh : ℕ) (username password : String) (u : User) (db' : Db)
      → accept_invite crypto db now fresh salt token username password ≡ ok (u, db')
      → (row : UserInvite) × (find (invited_with (crypto.sha256 token)) db.invites ≡ some row)
        × (row.accepted_at ≡ none)
        × (now < row.expires_at)
        × (u.email ≡ row.email)
        × (u.role ≡ row.role)
        × (db'.users ≡ db.users ++ u ∷ [])
        × ((later fresh' salt' : ℕ) (name other : String)
            → accept_invite crypto db' later fresh' salt' token name other ≡ err invalid_token)
  accept_invite-once fresh username password u db' h =
      let (row, found, unused, in_time, is_u, users, invites) =
        accept_invite-ok fresh username password u db' h in
      let used =
        find-write (invited_with (crypto.sha256 token)) (accept now) db.invites (λ v p. p) found in
      (
        row,
        found,
        unused,
        in_time,
        rw is_u refl,
        rw is_u refl,
        users,
        invite_used db' (accept now row) now (rw invites used) refl,
      )
