-- ===== src/Server/Admin.antt =====
-- The administration of internal/server/user_api.go: users with their pools.
pub mod Access
mod Tests
use qoderwork2api.Common.{
  ℕ, suc, ◌+◌, Bool, true, false, ◌||◌, List, [], ◌∷◌, Option, none, some, if◌then◌else◌, length,
}
use qoderwork2api.Common.Int.{ℤ, pos, ◌+ℤ◌, wrap64}
use qoderwork2api.Common.Eq.{Text, codes, text_instance, ◌==◌, is_empty}
use qoderwork2api.Common.Dict.{Dict, lookup}
use qoderwork2api.Common.Strings.{trim_prefix}
use qoderwork2api.Pool.{Pool, Env}
use qoderwork2api.Pool.Listing.{Status, list}
use qoderwork2api.User.{
  User, Store, StoreError, Draws, Created, created, refused, create, delete_user, auth_by_password,
  all_users, role_admin, role_user,
}
use qoderwork2api.User.Pools.{
  PoolManager, Directory, register_user, remove_user, get_pool, all_pools,
}

-- What the administration changes.
pub record Office : Type 0 where
  pub store : Store
  pub manager : PoolManager

pub record CreateRequest : Type 0 where
  pub name : Text
  pub password : Text
  pub role : Text

pub record UserRow : Type 0 where
  pub user : User
  pub acc_count : ℕ

pub record UserStats : Type 0 where
  pub id : Text
  pub name : Text
  pub acc_count : ℕ
  pub credits : ℤ

pub record Stats : Type 0 where
  pub total_users : ℕ
  pub total_accounts : ℕ
  pub total_credits : ℤ
  pub users : List UserStats

-- The answers: an error with its status, the fields id, name, api_key and role of a user with
-- the status, or that a user was deleted.
pub data Answer : Type 0 where
  failure : ℕ → Text → Answer
  account : ℕ → User → Answer
  deleted : Answer

abbrev found_or_401 : Option User → Answer
found_or_401 none = failure 401 (codes "invalid username or password")
found_or_401 (some u) = account 200 u

abbrev count_of : Env → Option Pool → ℕ
count_of env none = 0
count_of env (some p) = length (list env p)

pub user_rows : Env → PoolManager → List User → List UserRow
user_rows env pm [] = []
user_rows env pm (u ∷ us) =
    record { user = u; acc_count = count_of env (get_pool u.id pm) } ∷ user_rows env pm us

-- The list is in the order of the map of users.
pub handle_list_users : Env → Office → List UserRow
unfolding user_rows
handle_list_users env o = user_rows env o.manager (all_users o.store.users)

-- `+=` on int64.
pub sum_credits : List Status → ℤ → ℤ
sum_credits [] total = total
sum_credits (acc ∷ accs) total = sum_credits accs (wrap64 (total +ℤ acc.credits))

abbrev credits_of : Env → Option Pool → ℤ
credits_of env none = pos 0
credits_of env (some p) = sum_credits (list env p) (pos 0)

pub stats_loop : Env → Dict Text Pool → List User → Stats → Stats
unfolding sum_credits lookup
stats_loop env pools [] s = s
stats_loop env pools (u ∷ us) s =
    let p = lookup u.id pools in
    let row : UserStats = record {
      id = u.id;
      name = u.name;
      acc_count = count_of env p;
      credits = credits_of env p;
    } in
    let rest = stats_loop env pools us (record s {
      total_accounts = s.total_accounts + count_of env p;
      total_credits = wrap64 (s.total_credits +ℤ credits_of env p);
    }) in
    record rest { users = row ∷ rest.users }

pub handle_stats : Env → Office → Stats
unfolding stats_loop
handle_stats env o =
    let users = all_users o.store.users in
    stats_loop env (all_pools o.manager) users
      (record { total_users = length users; total_accounts = 0; total_credits = pos 0; users = [] })

-- The path behind /users/. `message` is the text of an error of the store.
module _ (message : StoreError → Text) where
  abbrev finish_delete : Text → Office → Store × Option StoreError → Office × Answer
  finish_delete id o (s, some e) = (record o { store = s }, failure 404 (message e))
  finish_delete id o (s, none) = (record { store = s; manager = remove_user id o.manager }, deleted)

  pub handle_delete_user : Bool → Text → Office → Office × Answer
  unfolding trim_prefix remove_user
  handle_delete_user writes path o =
      let id = trim_prefix path (codes "/users/") in
      if is_empty id
      then (o, failure 400 (codes "id required"))
      else finish_delete id o (delete_user writes id o.store)

  -- `sha` is sha256.Sum256, and `join` filepath.Join.
  module _ (sha : Text → Text) (join : List Text → Text) where
    -- `none` is a body that is not decoded.
    pub handle_user_login : Option (Text × Text) → Office → Answer
    handle_user_login none o = failure 400 (codes "invalid request")
    handle_user_login (some (name, password)) o =
        found_or_401 (auth_by_password sha name password o.store)

    abbrev role_of : Text → Text
    role_of wanted = if wanted == role_admin then role_admin else role_user

    abbrev finish_create : Env → Directory → Office → Store × Created → Office × Answer
    finish_create env dir o (s, refused e) = (record o { store = s }, failure 400 (message e))
    finish_create env dir o (s, created u) = (
      record { store = s; manager = (register_user join env dir u.id o.manager).0 },
      account 201 u,
    )

    pub handle_create_user :
        Draws → Env → Directory → Option CreateRequest → Office → Office × Answer
    unfolding register_user
    handle_create_user d env dir none o = (o, failure 400 (codes "invalid request"))
    handle_create_user d env dir (some req) o =
        if is_empty req.name || is_empty req.password
        then (o, failure 400 (codes "name and password required"))
        else finish_create env dir o (create sha d req.name req.password (role_of req.role) o.store)
