-- ===== src/Access/Tokens.antt =====
-- The tokens of core/security.py, and the login options of a passkey in services/auth_service.py that
-- carry one. PyJWT is a parameter; an instant is a number of seconds.
use voter_api.Prelude.{
  ℕ, String, ◌≡◌, ◌+◌, ◌*◌, ◌<◌, true, Option, none, some, List, arith, ◌==◌, find, exists_where,
  Result, ok, ◌>>=◌, ◌>>◌, guard, or_raise,
}
use voter_api.Users.{User, Role}
use voter_api.Access.{Payload, named, get_current_user, require_role, authorize, has_role}

-- `jwt.encode(payload, secret_key)` and `jwt.decode(token, secret_key)` at an instant
pub record Jwt : Type 0 where
  pub encode : Payload → String → String
  pub decode : String → String → ℕ → Option Payload

-- PyJWT decodes these claims as they were encoded, under the same key and until they expire.
abbrev pub RoundTrips : Jwt → Payload → Type 0
RoundTrips jwt p =
    (key : String) (now : ℕ) → now < p.exp → jwt.decode (jwt.encode p key) key now ≡ some p

abbrev pub challenge_claims : ℕ → String → String → ℕ → Payload
challenge_claims now username challenge expires_minutes = record {
  sub = some username;
  type = "passkey_challenge";
  role = none;
  challenge_b64 = some challenge;
  exp = now + expires_minutes * 60;
}

module _ (jwt : Jwt) (secret_key : String) where
  unfoldable pub create_access_token : ℕ → String → Role → ℕ → String
  create_access_token now subject role expires_minutes =
      jwt.encode
        (record {
          sub = some subject;
          type = "access";
          role = some role;
          challenge_b64 = none;
          exp = now + expires_minutes * 60;
        })
        secret_key

  unfoldable pub create_refresh_token : ℕ → String → ℕ → String
  create_refresh_token now subject expires_days =
      jwt.encode
        (record {
          sub = some subject;
          type = "refresh";
          role = none;
          challenge_b64 = none;
          exp = now + expires_days * 86400;
        })
        secret_key

  unfoldable pub create_passkey_challenge_token : ℕ → String → String → ℕ → String
  create_passkey_challenge_token now username challenge expires_minutes =
      jwt.encode (challenge_claims now username challenge expires_minutes) secret_key

  unfoldable pub decode_token : ℕ → String → Option Payload
  decode_token now token = jwt.decode token secret_key now

-- ValueError with what its message says
pub data OptionsError : Type 0 where
  user_not_found no_passkeys : OptionsError

-- a row of `passkeys`, of which the owner is read
pub record Passkey : Type 0 where
  pub user_id : ℕ

module _ (jwt : Jwt) (secret_key : String) where
  -- The challenge token of the answer; the options beside it come from the package webauthn, with the
  -- challenge.
  unfoldable pub get_passkey_login_options :
      List User → List Passkey → ℕ → String → String → Result OptionsError String
  get_passkey_login_options users passkeys now challenge username = do
    user ← or_raise (find (named username) users) OptionsError.user_not_found
    guard (exists_where (λ p. p.user_id == user.id) passkeys) OptionsError.no_passkeys
    ok (create_passkey_challenge_token jwt secret_key now username challenge 5)

  -- The challenge token that anybody can ask for under the username of an active account with a
  -- passkey, without a password or a signature, opens for five minutes every route that the role of
  -- that account may use, if PyJWT decodes what it encoded: `get_current_user` does not look at the
  -- type of a token.
  pub get_passkey_login_options-authorizes :
      (users : List User) (passkeys : List Passkey) (now : ℕ) (challenge username token : String)
      (user : User)
      → RoundTrips jwt (challenge_claims now username challenge 5)
      → get_passkey_login_options users passkeys now challenge username ≡ ok token
      → find (named username) users ≡ some user
      → user.is_active ≡ true
      → (later : ℕ) → later < now + 300
      → (roles : List Role) → has_role roles user ≡ true
      → authorize (decode_token jwt secret_key later) users token roles ≡ ok user
  unfolding get_passkey_login_options create_passkey_challenge_token decode_token authorize
      get_current_user require_role
  get_passkey_login_options-authorizes users passkeys now challenge username token user trips asked
        is_user active later soon roles allowed =
      let claims = challenge_claims now username challenge 5 in
      let is_token : token ≡ jwt.encode claims secret_key = ground arith in
      let decoded = trips secret_key later soon in rw is_token (ground arith)
