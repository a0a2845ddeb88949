-- ===== src/Access/Guards.antt =====
-- The checks of core/dependencies.py, and what a response shows.
use mathlib.Core.List.{Memᴰ}
use mathlib.Core.List.Memᴰ
use text.Mathlib.TextEquality.{eq_iff}
use voter_api.Prelude.{
  String, ◌≡◌, ◌↔◌, ◌⊎◌, refl, ap, inl, inr, Bool, true, false, ◌&&◌, Option, none, some, List, [],
  ◌∷◌, arith, find, exists_where, if◌then◌else◌, ok, Bool-cases, ◌≢◌, sym, ◌∙◌, is_true,
  is_true_iff, find-pass, exists_where-Memᴰ, Memᴰ-exists_where, find-Memᴰ, Memᴰ-find,
}
use text.Mathlib.Text.{◌==◌ as str_eq}
use voter_api.Users.{User, Role, Role-discrete}
use voter_api.Access.{
  Payload, get_current_user, require_role, authorize, has_role, named, Field, Entry, is_open,
  sees_all, get, open_fields, filter_by_sensitivity, SensitivityTier,
}

-- The token decodes to the username of this account, which is one of the accounts and active.
abbrev pub IsCurrent : (String → Option Payload) → List User → String → User → Type 0
IsCurrent decode_token users token user =
    (payload : Payload) × (decode_token token ≡ some payload)
    × (payload.sub ≡ some user.username)
    × Memᴰ user users
    × (user.is_active ≡ true)

is_one_of_iff :
    (roles : List Role) (user : User) → (has_role roles user ≡ true) ↔ Memᴰ user.role roles
is_one_of_iff roles user =
    let p = λ (r : Role). is_true (Role-discrete user.role r) in
    (
      λ h.
          let (r, m, same) = exists_where-Memᴰ p roles h in
          Memᴰ.cast ((is_true_iff (Role-discrete user.role r)).0 same) m,
      λ m.
          Memᴰ-exists_where p user.role roles m
            ((is_true_iff (Role-discrete user.role user.role)).1 refl),
    )

module _ (decode_token : String → Option Payload) (users : List User) (token : String) where
  get_current_user-named :
      (user : User)
      → get_current_user decode_token users token ≡ ok user
      → (payload : Payload) × (decode_token token ≡ some payload)
        × (username : String) × (payload.sub ≡ some username)
        × (find (named username) users ≡ some user)
        × (user.is_active ≡ true)
  unfolding get_current_user
  get_current_user-named user h = ground arith

  get_current_user-IsCurrent :
      (user : User)
      → get_current_user decode_token users token ≡ ok user
      → IsCurrent decode_token users token user
  get_current_user-IsCurrent user h =
      let (payload, decoded, username, claimed, found, active) = get_current_user-named user h in
      let same = (eq_iff user.username username).0 (find-pass (named username) users found) in
      (
        payload,
        decoded,
        claimed ∙ ap some (sym same),
        find-Memᴰ (named username) user users found,
        active,
      )

  IsCurrent-get_current_user :
      (user : User)
      → ((a b : User) → Memᴰ a users → Memᴰ b users → a.username ≡ b.username → a ≡ b)
      → IsCurrent decode_token users token user
      → get_current_user decode_token users token ≡ ok user
  unfolding get_current_user
  IsCurrent-get_current_user user names (payload, decoded, claimed, here, active) =
      let found : find (named user.username) users ≡ some user =
        Memᴰ-find (named user.username) user users
          (λ b m same. names b user m here ((eq_iff b.username user.username).0 same)) here
          ((eq_iff user.username user.username).1 refl) in
      rw (decoded, claimed, found, active) refl

-- Where no two accounts have the same username, a route with `require_role` is reached exactly by the
-- requests whose token decodes to the username of an account that is active and whose role is one of
-- the roles, and it is handed that account.
pub authorize_iff :
    (decode_token : String → Option Payload) (users : List User) (token : String)
    (roles : List Role) (user : User)
    → ((a b : User) → Memᴰ a users → Memᴰ b users → a.username ≡ b.username → a ≡ b)
    → (authorize decode_token users token roles ≡ ok user)
      ↔ (IsCurrent decode_token users token user × Memᴰ user.role roles)
unfolding authorize require_role
authorize_iff decode_token users token roles user names = (
  λ h.
      let (is_user, may) : (get_current_user decode_token users token ≡ ok user)
          × (has_role roles user ≡ true) =
        ground arith in
      (
        get_current_user-IsCurrent decode_token users token user is_user,
        (is_one_of_iff roles user).0 may,
      ),
  λ (current, may).
      let is_user = IsCurrent-get_current_user decode_token users token user names current in
      rw (is_user, (is_one_of_iff roles user).1 may) refl,
)

-- whether a response has a key
abbrev pub has_entry {ℓ} : {A : Type ℓ} → String → List (Entry A) → Bool
has_entry key values = exists_where (λ e. str_eq e.key key) values

-- a field of the schema that is open, under this name
abbrev pub is_open_at : String → Field → Bool
is_open_at key f = str_eq f.name key && is_open f

-- The schema has a field of this name that is not of the tier system_generated.
abbrev pub HasOpenField : String → List Field → Type 0
HasOpenField key fields =
    (f : Field) × Memᴰ f fields × (f.name ≡ key) × (f.tier ≢ some SensitivityTier.system_generated)

tier-cases :
    (t : Option SensitivityTier)
    → (t ≡ some SensitivityTier.system_generated)
      ⊎ (t ≡ none)
      ⊎ (t ≡ some SensitivityTier.government_sourced)
tier-cases none = inr (inl refl)
tier-cases (some SensitivityTier.government_sourced) = inr (inr refl)
tier-cases (some SensitivityTier.system_generated) = inl refl

is_open_iff : (f : Field) → (is_open f ≡ true) ↔ (f.tier ≢ some SensitivityTier.system_generated)
is_open_iff f = (
  λ h e. ground arith,
  λ n. elim (tier-cases f.tier) [
    | inl e ↦ absurd (n e)
    | inr (inl e) ↦ ground arith
    | inr (inr e) ↦ ground arith
  ],
)

is_open_at_iff :
    (key : String) (fields : List Field)
    → (exists_where (is_open_at key) fields ≡ true) ↔ HasOpenField key fields
is_open_at_iff key fields = (
  λ h.
      let (f, m, both) = exists_where-Memᴰ (is_open_at key) fields h in
      let (named_so, shown) : (str_eq f.name key ≡ true) × (is_open f ≡ true) = ground arith in
      (f, m, (eq_iff f.name key).0 named_so, (is_open_iff f).0 shown),
  λ (f, m, same, shown).
      let named_so = (eq_iff f.name key).1 same in
      let is_shown = (is_open_iff f).1 shown in
      Memᴰ-exists_where (is_open_at key) f fields m (ground arith),
)

sees_all-false : (r : Role) → r ≢ Role.admin → r ≢ Role.analyst → sees_all r ≡ false
sees_all-false Role.admin a b = absurd (a refl)
sees_all-false Role.analyst a b = absurd (b refl)
sees_all-false _ a b = refl

module _ {ℓ} {A : Type ℓ} where
  open_fields-has :
      (values : List (Entry A)) (key : String) (fields : List Field)
      → has_entry key (open_fields values fields) ≡ exists_where (is_open_at key) fields
  unfolding open_fields
  open_fields-has values key [] = refl
  open_fields-has values key (f ∷ fields) = ground (arith, open_fields-has values key fields)

  open_fields-get :
      (values : List (Entry A)) (key : String) (fields : List Field)
      → get (open_fields values fields) key
        ≡ (if exists_where (is_open_at key) fields then get values key else none)
  unfolding open_fields
  open_fields-get values key [] = refl
  open_fields-get values key (f ∷ fields) = elim (Bool-cases (is_open_at key f)) [
    | inl e ↦
        let same = (eq_iff f.name key).0 (ground arith) in
        let shown : is_open f ≡ true = ground arith in
        let here : str_eq f.name key ≡ true = ground arith in
        rw (shown, here) (ap (get values) same)
    | inr e ↦ ground (arith, open_fields-get values key fields)
  ]

  -- For a role other than admin and analyst a response has a key exactly if the schema has a field of
  -- that name whose tier is not system_generated. It has the value that the data has under that key,
  -- and a key without such a field has no value.
  pub filter_by_sensitivity-open :
      (values : List (Entry A)) (user_role : Role) (fields : List Field) (key : String)
      → user_role ≢ Role.admin
      → user_role ≢ Role.analyst
      → (HasOpenField key fields
          × (has_entry key (filter_by_sensitivity values user_role fields) ≡ true)
          × (get (filter_by_sensitivity values user_role fields) key ≡ get values key))
        ⊎ ((¬ HasOpenField key fields)
            × (has_entry key (filter_by_sensitivity values user_role fields) ≡ false)
            × (get (filter_by_sensitivity values user_role fields) key ≡ none))
  unfolding filter_by_sensitivity
  filter_by_sensitivity-open values user_role fields key not_admin not_analyst =
      let e : sees_all user_role ≡ false = sees_all-false user_role not_admin not_analyst in
      rw e (elim (Bool-cases (exists_where (is_open_at key) fields)) [
        | inl k ↦ inl (
          (is_open_at_iff key fields).0 k,
          open_fields-has values key fields ∙ k,
          open_fields-get values key fields ∙ rw k refl,
        )
        | inr k ↦ inr (
          (λ h. absurd (ground (arith, (is_open_at_iff key fields).1 h))),
          open_fields-has values key fields ∙ k,
          open_fields-get values key fields ∙ rw k refl,
        )
      ])
