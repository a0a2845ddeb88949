-- ===== src/Users.antt =====
-- models/user.py: the accounts that every service authorises against.
use voter_api.Prelude.{ℕ, String, Bool, Option, true, false}

-- The role column holds one of these words.
pub data Role : Type 0 where
  admin analyst viewer contributor : Role

pub Role-discrete : Discrete Role
Role-discrete = hlevel

-- `user.role == "admin"`
abbrev pub is_admin : Role → Bool
is_admin admin = true
is_admin _ = false

pub record User : Type 0 where
  pub id : ℕ
  pub username : String
  pub email : String
  pub hashed_password : String
  pub role : Role
  pub is_active : Bool
  pub last_login_at : Option ℕ
