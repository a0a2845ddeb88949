-- ===== src/Auth/Steps/Resets.antt =====
-- The reset tokens of an account over a run of the requests of Auth/Steps, and what
-- `request_password_reset` of services/auth_service.py answers then.
use voter_api.Prelude.{ℕ, IsKey}
use voter_api.Auth.Db.{Db}
use voter_api.Auth.Tokens.{request_password_reset, confirm_password_reset, token_of}
use voter_api.Auth.Steps.{Command}

unfoldable pub HasOneToken : Db → Type 0
HasOneToken db = (i : ℕ) → IsKey (token_of i) db.reset_tokens

-- a command that writes no reset token
abbrev IsElsewhere : Command → Type 0
IsElsewhere (Command.request_password_reset now raw delivered email) = ⊥
IsElsewhere (Command.confirm_password_reset now salt token password) = ⊥
IsElsewhere _ = Unit
