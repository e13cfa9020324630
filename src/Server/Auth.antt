-- ===== src/Server/Auth.antt =====
-- internal/server/auth.go, with `withAuth` and `getUserPool` of handler.go and `userPool` of
-- user_api.go.
use qoderwork2api.Common.{
  ◌++◌, ℕ, ◌≡◌, ◌≢◌, ◌↔◌, ◌⊎◌, refl, inl, inr, Bool, true, false, ◌&&◌, not, [], ◌∷◌, Option, none,
  some, arith, if◌then◌else◌, Bool-cases, Option-cases,
}
use qoderwork2api.Common.Eq.{Text, codes, text_instance, ◌==◌, is_empty}
use qoderwork2api.Common.Strings.{has_prefix, trim_prefix}
use qoderwork2api.User.{User, Store, role_admin, get_by_key}

abbrev pub bearer : Text
bearer = codes "Bearer "

-- The argument is the header Authorization, empty if it is missing.
pub extract_key : Text → Text
unfolding has_prefix trim_prefix
extract_key authz = if has_prefix authz bearer then trim_prefix authz bearer else []

pub extract_key-bearer : (key : Text) → extract_key (bearer ++ key) ≡ key
unfolding extract_key
extract_key-bearer key = refl

abbrev admin_id : Text
admin_id = codes "admin"

pub admin_user : Text → User
admin_user key = record {
  id = admin_id;
  name = codes "Administrator";
  api_key = key;
  password_hash = [];
  role = role_admin;
  created_at = 0;
}

-- A middleware refuses with a status and a message, or calls the next handler as a user.
pub data Gate : Type 0 where
  refuse : ℕ → Text → Gate
  pass : User → Gate

abbrev pass_or : Text → Option User → Gate
pass_or message none = refuse 401 message
pass_or message (some u) = pass u

pub auth_middleware : Store → Text → Text → Gate
unfolding extract_key admin_user
auth_middleware store admin_key authz =
    let key = extract_key authz in
    if is_empty key
    then refuse 401 (codes "missing API key")
    else if key == admin_key && not (is_empty admin_key)
    then pass (admin_user admin_key)
    else pass_or (codes "invalid API key") (get_by_key key store)

pub with_auth : Store → Text → Text → Gate
unfolding extract_key admin_user
with_auth store admin_key authz =
    let key = extract_key authz in
    if is_empty key
    then refuse 401 (codes "missing or invalid API key")
    else if key == admin_key && not (is_empty admin_key)
    then pass (admin_user admin_key)
    else pass_or (codes "missing or invalid API key") (get_by_key key store)

-- `require_admin` behind `auth_middleware`: the routes under /api/admin/.
pub require_admin : Option User → Gate
require_admin none = refuse 401 (codes "unauthorized")
require_admin (some u) =
    if u.role == role_admin then pass u else refuse 403 (codes "admin access required")

abbrev user_of : Gate → Option User
user_of (refuse status message) = none
user_of (pass u) = some u

abbrev then_admin : Gate → Gate
then_admin (refuse status message) = refuse status message
then_admin (pass u) = require_admin (some u)

pub admin_route : Store → Text → Text → Gate
admin_route store admin_key authz = then_admin (auth_middleware store admin_key authz)

-- Whose accounts: the global pool, or that of a user.
pub data PoolRef : Type 0 where
  global : PoolRef
  own : Text → PoolRef

abbrev is_global_admin : User → Bool
is_global_admin u = u.role == role_admin && u.id == admin_id

-- `registered` tells for which ids the pool manager has a pool.
pub get_user_pool : (Text → Bool) → Option User → PoolRef
get_user_pool registered none = global
get_user_pool registered (some u) =
    if is_global_admin u then global else if registered u.id then own u.id else global

pub user_pool : (Text → Bool) → Option User → Option PoolRef
user_pool registered none = none
user_pool registered (some u) =
    if is_global_admin u then some global else if registered u.id then some (own u.id) else none

-- A caller with this key is admitted as this user.
abbrev pub IsAdmitted : Store → Text → Text → User → Type 0
IsAdmitted store admin_key key u =
    (key ≢ [])
    × (((key ≡ admin_key) × (u ≡ admin_user admin_key))
        ⊎ ((key ≢ admin_key) × (get_by_key key store ≡ some u)))

-- The tests of both gates, over the key that was extracted.
abbrev gate : Text → Text → Store → Text → Text → Gate
gate missing unknown store admin_key key =
    if is_empty key
    then refuse 401 missing
    else if key == admin_key && not (is_empty admin_key)
    then pass (admin_user admin_key)
    else pass_or unknown (get_by_key key store)

gate_admits :
    (missing unknown : Text) (store : Store) (admin_key key : Text) (u : User)
    → gate missing unknown store admin_key key ≡ pass u
    → IsAdmitted store admin_key key u
gate_admits missing unknown store admin_key [] u h = cc
gate_admits missing unknown store admin_key (c ∷ key) u h =
    elim (Bool-cases ((c ∷ key) == admin_key && not (is_empty admin_key))) [
      | inl e ↦ (
        (λ q. ground arith),
        inl (ground (arith, text_instance.agrees_iff (c ∷ key) admin_key), ground arith),
      )
      | inr e ↦ (
        (λ q. ground arith),
        inr (
          (λ q. ground (arith, text_instance.agrees_iff (c ∷ key) admin_key)),
          ground (arith, Option-cases (get_by_key (c ∷ key) store)),
        ),
      )
    ]

admits_gate :
    (missing unknown : Text) (store : Store) (admin_key key : Text) (u : User)
    → IsAdmitted store admin_key key u
    → gate missing unknown store admin_key key ≡ pass u
admits_gate missing unknown store admin_key [] u h = absurd (h.0 refl)
admits_gate missing unknown store admin_key (c ∷ key) u (set, inl (same, it)) =
    ground (arith, text_instance.agrees_iff (c ∷ key) admin_key)
admits_gate missing unknown store admin_key (c ∷ key) u (set, inr (other, found)) =
    elim (Bool-cases ((c ∷ key) == admin_key)) [
      | inl e ↦ absurd (other ((text_instance.agrees_iff (c ∷ key) admin_key).0 e))
      | inr e ↦ rw (e, found) refl
    ]

pub auth_middleware-IsAdmitted :
    (store : Store) (admin_key authz : Text) (u : User)
    → ((auth_middleware store admin_key authz ≡ pass u)
        ↔ IsAdmitted store admin_key (extract_key authz) u)
      × ((with_auth store admin_key authz ≡ pass u)
          ↔ IsAdmitted store admin_key (extract_key authz) u)
unfolding auth_middleware with_auth
auth_middleware-IsAdmitted store admin_key authz u =
    let key = extract_key authz in
    (
      (gate_admits _ _ store admin_key key u, admits_gate _ _ store admin_key key u),
      (gate_admits _ _ store admin_key key u, admits_gate _ _ store admin_key key u),
    )

then_admin-pass :
    (g : Gate) (u : User) → (then_admin g ≡ pass u) ↔ ((g ≡ pass u) × (u.role ≡ role_admin))
unfolding require_admin
then_admin-pass (refuse status message) u = (λ h. cc, λ h. cc (h.0))
then_admin-pass (pass v) u = (
  λ h. ground (arith, text_instance.agrees_iff v.role role_admin),
  λ h. ground (arith, text_instance.agrees_iff v.role role_admin),
)

-- The routes of the administration are reached exactly by those who are admitted and have the
-- role of an administrator.
pub admin_route-IsAdmitted :
    (store : Store) (admin_key authz : Text) (u : User)
    → (admin_route store admin_key authz ≡ pass u)
      ↔ (IsAdmitted store admin_key (extract_key authz) u × (u.role ≡ role_admin))
unfolding admin_route
admin_route-IsAdmitted store admin_key authz u =
    let (sound, complete) = (auth_middleware-IsAdmitted store admin_key authz u).0 in
    let (came, let_in) = then_admin-pass (auth_middleware store admin_key authz) u in
    (λ h. let (passed, role) = came h in (sound passed, role), λ h. let_in (complete h.0, h.1))

-- A user with another id is not the global administrator.
pub is_global_admin-id : (u : User) → u.id ≢ codes "admin" → is_global_admin u ≡ false
is_global_admin-id u other = elim (Bool-cases (u.id == codes "admin")) [
  | inl e ↦ absurd (other ((text_instance.agrees_iff u.id (codes "admin")).0 e))
  | inr e ↦ ground (arith, e)
]

-- Where the manager has a pool for a user who is not the global administrator, both choices are
-- that pool; where it has none, a chat falls back to the global pool, and the account pages show
-- nothing.
pub get_user_pool-user_pool :
    (registered : Text → Bool) (u : User)
    → is_global_admin u ≡ false
    → ((registered u.id ≡ true)
        → (get_user_pool registered (some u) ≡ own u.id)
          × (user_pool registered (some u) ≡ some (own u.id)))
      × ((registered u.id ≡ false)
          → (get_user_pool registered (some u) ≡ global) × (user_pool registered (some u) ≡ none))
unfolding get_user_pool user_pool
get_user_pool-user_pool registered u h = ground arith
