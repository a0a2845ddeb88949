-- ===== src/Access.antt =====
-- core/dependencies.py: who makes a request, whether the role may make it, and which fields of a
-- response the role may see (with core/sensitivity.py). The decoding of a token is a parameter.
pub mod Guards
pub mod Tokens
use voter_api.Prelude.{
  ℕ, String, Bool, true, false, not, ◌||◌, ◌&&◌, Option, none, some, List, [], ◌∷◌, find,
  exists_where, if◌then◌else◌, is_true, Result, ok, err, ◌>>=◌, ◌>>◌, guard, or_raise,
}
use text.Mathlib.Text.{◌==◌ as str_eq}
use voter_api.Users.{User, Role, Role-discrete}

-- HTTPException with its status code: 401 or 403
pub data HttpError : Type 0 where
  unauthorized forbidden : HttpError

-- The claims of a token, as `decode_token` returns them.
pub record Payload : Type 0 where
  pub sub : Option String
  pub type : String
  pub role : Option Role
  pub challenge_b64 : Option String
  pub exp : ℕ

abbrev pub named : String → User → Bool
named username u = str_eq u.username username

module _ (decode_token : String → Option Payload) where
  unfoldable pub get_current_user : List User → String → Result HttpError User
  get_current_user users token = do
    payload ← or_raise (decode_token token) HttpError.unauthorized
    username ← or_raise payload.sub HttpError.unauthorized
    user ← or_raise (find (named username) users) HttpError.unauthorized
    guard user.is_active HttpError.unauthorized
    ok user

abbrev pub has_role : List Role → User → Bool
has_role roles u = exists_where (λ r. is_true (Role-discrete u.role r)) roles

unfoldable pub require_role : List Role → User → Result HttpError User
require_role roles user = do guard (has_role roles user) HttpError.forbidden; ok user

module _ (decode_token : String → Option Payload) where
  -- a route that depends on `require_role(*roles)`
  unfoldable pub authorize : List User → String → List Role → Result HttpError User
  authorize users token roles = do
    user ← get_current_user decode_token users token
    require_role roles user

pub data SensitivityTier : Type 0 where
  government_sourced system_generated : SensitivityTier

-- A field of a schema, with the tier of its metadata.
pub record Field : Type 0 where
  pub name : String
  pub tier : Option SensitivityTier

abbrev pub is_open : Field → Bool
is_open f = elim f.tier [
  | none ↦ true
  | some t ↦ elim t [
    | SensitivityTier.government_sourced ↦ true
    | SensitivityTier.system_generated ↦ false
  ]
]

-- A dict with its keys in order; a value may be None.
pub record Entry {ℓ} (A : Type ℓ) : Type ℓ where
  pub key : String
  pub value : Option A

abbrev pub sees_all : Role → Bool
sees_all Role.admin = true
sees_all Role.analyst = true
sees_all _ = false

module _ {ℓ} {A : Type ℓ} where
  -- `data.get(key)`
  abbrev pub get : List (Entry A) → String → Option A
  get [] key = none
  get (e ∷ values) key = let rest = get values key in if str_eq e.key key then e.value else rest

  -- the loop over `schema_class.model_fields`
  unfoldable pub open_fields : List (Entry A) → List Field → List (Entry A)
  open_fields values [] = []
  open_fields values (f ∷ fields) =
      let rest = open_fields values fields in
      if is_open f then record { key = f.name; value = get values f.name } ∷ rest else rest

  unfoldable pub filter_by_sensitivity : List (Entry A) → Role → List Field → List (Entry A)
  filter_by_sensitivity values user_role fields =
      if sees_all user_role then values else open_fields values fields
