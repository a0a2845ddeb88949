-- ===== src/Auth/Accounts.antt =====
-- The accounts of services/auth_service.py: creation, listing and update.
pub mod Clash
use voter_api.Prelude.{
  ℕ, String, Bool, true, false, not, ◌&&◌, ◌||◌, Option, none, some, List, [], ◌∷◌, ◌++◌, ◌-◌, ◌*◌,
  ◌==◌, ltb, leb, length, is_none, is_some, if◌then◌else◌, find, write, count_where, exists_where,
  take, drop, sort_by, Result, ok, err, ◌>>=◌, ◌>>◌, guard, or_raise,
}
use text.Mathlib.Text.{◌==◌ as str_eq}
use voter_api.Users.{User, Role}
use voter_api.Auth.Db.{
  Db, Crypto, Error, named, mailed, user_at, user_exists, email_in_use, multiple_results,
}

-- `scalar_one_or_none` of a query that no unique key answers
unfoldable pub one_or_none : {A : Type 0} → (A → Bool) → List A → Result Error (Option A)
one_or_none p rows = if ltb 1 (count_where p rows) then err multiple_results else ok (find p rows)

pub record UserCreateRequest : Type 0 where
  pub username : String
  pub email : String
  pub password : String
  pub role : Role

abbrev pub add_user : User → Db → Db
add_user user db = record db { users = db.users ++ user ∷ [] }

-- a new row of `users`, with the defaults of its columns
abbrev pub new_user : ℕ → String → String → String → Role → User
new_user fresh username email hashed_password role = record {
  id = fresh;
  username = username;
  email = email;
  hashed_password = hashed_password;
  role = role;
  is_active = true;
  last_login_at = none;
}

abbrev pub is_same_user : String → String → User → Bool
is_same_user username email u = named username u || mailed email u

unfoldable pub create_user : Crypto → Db → ℕ → ℕ → UserCreateRequest → Result Error (User × Db)
create_user crypto db fresh salt request = do
  existing ← one_or_none (is_same_user request.username request.email) db.users
  guard (is_none existing) user_exists
  let user =
      new_user fresh request.username request.email (crypto.hash_password salt request.password)
        request.role
  ok (user, add_user user db)

unfoldable pub get_user : Db → ℕ → Option User
get_user db i = find (user_at i) db.users

-- The dict of new values. A key that is not there and a value None are both `none`: the query for
-- None finds no row of a NOT NULL column, and the loop skips it.
pub record UserUpdate : Type 0 where
  pub email : Option String
  pub role : Option Role
  pub is_active : Option Bool

-- `"email" in updates and updates["email"] != user.email`, and another row has it
abbrev pub is_taken : Db → User → Option String → Bool
is_taken db user none = false
is_taken db user (some email) =
    not (str_eq email user.email) && is_some (find (mailed email) db.users)

abbrev pub given {ℓ} : {A : Type ℓ} → Option A → A → A
given none old = old
given (some a) old = a

abbrev pub updated : UserUpdate → User → User
updated values u = record u {
  email = given values.email u.email;
  role = given values.role u.role;
  is_active = given values.is_active u.is_active;
}

-- `user` is the row that `get_user` returned.
unfoldable pub update_user : Db → User → UserUpdate → Result Error (User × Db)
update_user db user values = do
  guard (not (is_taken db user values.email)) email_in_use
  let user' = updated values user
  ok (user', record db { users = write (user_at user.id) (λ _. user') db.users })
