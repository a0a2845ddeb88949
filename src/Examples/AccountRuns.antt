-- ===== src/Examples/AccountRuns.antt =====
-- The theorems on the accounts at concrete tables and requests.
use voter_api.Prelude.{
  ℕ, String, ◌≡◌, refl, ap, true, false, none, some, List, [], ◌∷◌, ◌++◌, ◌+◌, ◌<◌, leb, length,
  arith, find, write, count_where, ok, err,
}
use voter_api.Users.{User, Role}
use voter_api.Auth.Db.{
  UserInvite, Db, PasswordResetToken, named, user_at, credential_of, unused_of, seconds, minutes,
  invalid_token, multiple_results,
}
use voter_api.Auth.Accounts.{create_user}
use voter_api.Auth.Accounts.Clash.{create_user-two}
use voter_api.Auth.Login.{
  logged_in, totp_locked, mfa_invalid, authenticate_user, check_user, check_totp, check_code,
  check_recovery, log_in, is_replay, stamp, unlock, use_code, matches,
}
use voter_api.Auth.Login.Factors.{HasSecondFactor, authenticate_user-factors}
use voter_api.Auth.Login.Replay.{after_code, authenticate_user-replay}
use voter_api.Auth.Login.Lockout.{IsReady, after_attempts, authenticate_user-lockout}
use voter_api.Auth.Login.Recovery.{authenticate_user-recovery}
use voter_api.Auth.Tokens.{
  confirm_password_reset, accept_invite, reset_with, invited_with, use_reset, set_password, accept,
}
use voter_api.Auth.Tokens.Once.{confirm_password_reset-once, accept_invite-once}
use voter_api.Auth.Accounts.{new_user}
use voter_api.Auth.Totp.{enroll_totp, disable_totp, confirm_totp, get_recovery_code_count}
use voter_api.Auth.Totp.Codes.{recovery_codes-counted}
use voter_api.Auth.Steps.{run}
use voter_api.Auth.Steps.Users.{UniqueUsers, HasUniqueUsers, UniqueUsers-append}
use voter_api.Auth.Steps.Users.Runs.{run-HasUniqueUsers}
use voter_api.Examples.AccountTables.{
  plain, settings, ann, bob, ann_totp, accounts, mixed, first_try, second_try, requests,
}

abbrev ann_logged : Db
ann_logged = after_code accounts 100 ann "123456"

logs_in :
    authenticate_user plain settings accounts 100 "ann" "secret" (some "123456")
    ≡ (logged_in (stamp 100 ann), ann_logged)
unfolding authenticate_user check_user check_totp check_code is_replay log_in
logs_in = refl

authenticate_user-factors_example :
    (user : User) × (find (named "ann") accounts.users ≡ some user)
    × (plain.verify_password "secret" user.hashed_password ≡ true)
    × (user.is_active ≡ true)
    × (stamp 100 ann ≡ stamp 100 user)
    × HasSecondFactor plain settings accounts 100 user (some "123456")
authenticate_user-factors_example =
    authenticate_user-factors plain settings accounts 100 "ann" "secret" (some "123456")
      (stamp 100 ann) ann_logged logs_in

authenticate_user-replay_example :
    (leb 60000000 (100 + seconds 30) ≡ true
      → authenticate_user plain settings ann_logged 60000000 "ann" "secret" (some "123456")
        ≡ (mfa_invalid, ann_logged))
    × (leb 60000000 (100 + seconds 30) ≡ false
        → plain.verify_code ann_totp.encrypted_secret "123456" 60000000 ≡ true
        → (w : User) × (db'' : Db) × (authenticate_user plain settings ann_logged 60000000 "ann"
              "secret"
              (some "123456")
            ≡ (logged_in w, db'')))
authenticate_user-replay_example =
    authenticate_user-replay plain settings accounts "ann" "secret" "123456" ann ann_totp refl refl
      refl refl refl 100 60000000 (stamp 100 ann) ann_logged logs_in

ann-IsReady : IsReady plain settings "ann" "secret" accounts ann ann_totp
ann-IsReady = record {
  is_user = refl;
  right = refl;
  active = refl;
  held = refl;
  proven = refl;
  keyed = refl;
}

-- two wrong codes after the one failure that is counted, then the right one
abbrev ann_locked : Db
ann_locked = after_attempts plain settings "ann" "secret" accounts (first_try ∷ second_try ∷ [])

authenticate_user-lockout_example :
    authenticate_user plain settings ann_locked 500000000 "ann" "secret" (some "123456")
    ≡ (totp_locked (200 + minutes 15), ann_locked)
unfolding is_replay
authenticate_user-lockout_example =
    authenticate_user-lockout plain settings "ann" "secret" accounts ann ann_totp first_try
      (second_try ∷ []) ann-IsReady refl ((refl, refl, refl), ((refl, refl, refl), tt)) refl
      500000000 "123456" refl refl

abbrev ann_recovered : Db
ann_recovered = record accounts {
  users = write (user_at 1) (stamp 100) accounts.users;
  credentials = write (credential_of 1) unlock accounts.credentials;
  recovery_codes = write (matches plain 1 "RECOVERY1") (use_code 100) accounts.recovery_codes;
}

recovers :
    authenticate_user plain settings accounts 100 "ann" "secret" (some "RECOVERY1")
    ≡ (logged_in (stamp 100 ann), ann_recovered)
unfolding authenticate_user check_user check_totp check_recovery log_in
recovers = refl

authenticate_user-recovery_example :
    (count_where (unused_of 1) ann_recovered.recovery_codes + 1
      ≡ count_where (unused_of 1) accounts.recovery_codes)
    × (find (credential_of 1) ann_recovered.credentials ≡ some (unlock ann_totp))
authenticate_user-recovery_example =
    authenticate_user-recovery plain settings "ann" "secret" accounts 100 ann (stamp 100 ann)
      ann_totp "RECOVERY1" ann_recovered ann-IsReady refl recovers

create_user-two_example : create_user plain accounts 9 1 mixed ≡ err multiple_results
create_user-two_example =
    create_user-two plain accounts 9 1 mixed ann bob refl refl
      (λ e. omega (arith, ap (λ (u : User). u.id) e))

accounts-HasUniqueUsers : HasUniqueUsers accounts
accounts-HasUniqueUsers =
    let none_yet : UniqueUsers [] = record {
      names = λ n. omega arith;
      emails = λ e. omega arith;
    } in
    UniqueUsers-append (ann ∷ []) bob refl refl (UniqueUsers-append [] ann refl refl none_yet)

run-HasUniqueUsers_example : HasUniqueUsers (run plain settings requests accounts)
run-HasUniqueUsers_example =
    run-HasUniqueUsers plain settings requests accounts accounts-HasUniqueUsers

abbrev bob_changed : Db
bob_changed = record accounts {
  users = write (user_at 2) (set_password "new") accounts.users;
  reset_tokens = write (reset_with "forgot") (use_reset 100) accounts.reset_tokens;
}

resets_bob : confirm_password_reset plain accounts 100 9 "forgot" "new" ≡ ok (tt, bob_changed)
unfolding confirm_password_reset
resets_bob = refl

confirm_password_reset-once_example :
    (row : PasswordResetToken) × (find (reset_with "forgot") accounts.reset_tokens ≡ some row)
    × (row.used_at ≡ none)
    × (100 < row.expires_at)
    × (user : User) × (find (user_at row.user_id) bob_changed.users
        ≡ some (set_password "new" user))
    × ((later salt' : ℕ) (other : String)
        → confirm_password_reset plain bob_changed later salt' "forgot" other ≡ err invalid_token)
confirm_password_reset-once_example =
    confirm_password_reset-once plain accounts 100 9 "forgot" "new" tt bob_changed resets_bob

abbrev cat : User
cat = new_user 5 "cat" "cat@example.org" "pw" Role.contributor

abbrev cat_joined : Db
cat_joined = record accounts {
  users = accounts.users ++ cat ∷ [];
  invites = write (invited_with "welcome") (accept 100) accounts.invites;
}

joins : accept_invite plain accounts 100 5 9 "welcome" "cat" "pw" ≡ ok (cat, cat_joined)
unfolding accept_invite
joins = refl

accept_invite-once_example :
    (row : UserInvite) × (find (invited_with "welcome") accounts.invites ≡ some row)
    × (row.accepted_at ≡ none)
    × (100 < row.expires_at)
    × (cat.email ≡ row.email)
    × (cat.role ≡ row.role)
    × (cat_joined.users ≡ accounts.users ++ cat ∷ [])
    × ((later fresh' salt' : ℕ) (name other : String)
        → accept_invite plain cat_joined later fresh' salt' "welcome" name other
          ≡ err invalid_token)
accept_invite-once_example =
    accept_invite-once plain accounts 100 9 "welcome" 5 "cat" "pw" cat cat_joined joins

recovery_codes-counted_example :
    ((secret : String) → get_recovery_code_count (enroll_totp accounts 1 secret) 1 ≡ 0)
    × (get_recovery_code_count (disable_totp accounts 1) 1 ≡ 0)
    × ((now : ℕ) (code : String) (raw_codes shown : List String) (db' : Db)
        → confirm_totp plain accounts now 1 code raw_codes ≡ ok (shown, db')
        → get_recovery_code_count db' 1 ≡ get_recovery_code_count accounts 1 + length shown)
recovery_codes-counted_example = recovery_codes-counted plain accounts 1
