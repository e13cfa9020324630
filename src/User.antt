-- ===== src/User.antt =====
-- internal/user/store.go: the users of the proxy, found by id and by API key.
pub mod Password
pub mod Creation
pub mod Index
pub mod Pools
mod Tests
use qoderwork2api.Common.{
  ℕ, Bool, true, false, List, [], ◌∷◌, ◌++◌, Option, none, some, if◌then◌else◌, take,
}
use qoderwork2api.Common.Eq.{Text, codes, text_instance, ◌==◌}
use qoderwork2api.Common.Dict.{Dict, lookup, insert, delete}
use qoderwork2api.Common.Strings.{hex}
use Password.{hash_password, verify_password}

abbrev pub role_admin : Text
role_admin = codes "admin"

abbrev pub role_user : Text
role_user = codes "user"

pub record User : Type 0 where
  pub id : Text
  pub name : Text
  pub api_key : Text
  pub password_hash : Text
  pub role : Text
  pub created_at : ℕ

-- `disk` is the list of users that the file holds. A user never changes once it is made, so the
-- two maps need not share it.
pub record Store : Type 0 where
  pub users : Dict Text User
  pub by_key : Dict Text User
  pub disk : Option (List User)

pub data StoreError : Type 0 where
  name_taken not_found save_failed : StoreError

-- The file as `load` meets it.
pub data UsersFile : Type 0 where
  missing unreadable unparsable : UsersFile
  parsed : List User → UsersFile

abbrev empty_store : Store
empty_store = record { users = []; by_key = []; disk = none }

load_all : List User → Store → Store
unfolding insert
load_all [] s = s
load_all (u ∷ us) s =
    load_all us (record s { users = insert u.id u s.users; by_key = insert u.api_key u s.by_key })

unfoldable pub new_store : UsersFile → Option Store
unfolding load_all
new_store missing = some empty_store
new_store unreadable = none
new_store unparsable = none
new_store (parsed us) = some (load_all us (record empty_store { disk = some us }))

unfoldable pub all_users : Dict Text User → List User
all_users [] = []
all_users ((id, u) ∷ m) = u ∷ all_users m

-- `save`, where `writes` says whether the file can be written and renamed.
pub save : Bool → Store → Store × Bool
unfolding all_users
save writes s = if writes then (record s { disk = some (all_users s.users) }, true) else (s, false)

unfoldable pub has_name : Text → Dict Text User → Bool
has_name name [] = false
has_name name ((id, u) ∷ m) = let rest = has_name name m in if u.name == name then true else rest

-- What a creation draws and meets: the random bytes, the clock, and the file system.
pub record Draws : Type 0 where
  pub id_bytes : Text
  pub key_bytes : Text
  pub salt_bytes : Text
  pub now : ℕ
  pub writes : Bool

pub random_hex : ℕ → Text → Text
unfolding hex
random_hex n bytes = take n (hex bytes)

pub generate_id : Draws → Text
generate_id d = codes "u_" ++ random_hex 12 d.id_bytes

pub generate_key : Draws → Text
generate_key d = codes "usr_" ++ random_hex 32 d.key_bytes

pub data Created : Type 0 where
  created : User → Created
  refused : StoreError → Created

-- `sha` is sha256.Sum256.
module _ (sha : Text → Text) where
  pub new_user : Draws → Text → Text → Text → User
  new_user d name password role = record {
    id = generate_id d;
    name = name;
    api_key = generate_key d;
    password_hash = hash_password sha (random_hex 16 d.salt_bytes) password;
    role = role;
    created_at = d.now;
  }

  abbrev pub with_user : User → Store → Store
  with_user u s = record s { users = insert u.id u s.users; by_key = insert u.api_key u s.by_key }

  abbrev pub without_user : Text → Text → Store → Store
  without_user id key s = record s { users = delete id s.users; by_key = delete key s.by_key }

  -- The end of `Create`: what failed to be saved is taken back.
  abbrev finish_create : User → Store × Bool → Store × Created
  finish_create u (s, true) = (s, created u)
  finish_create u (s, false) = (without_user u.id u.api_key s, refused save_failed)

  unfoldable pub create : Draws → Text → Text → Text → Store → Store × Created
  unfolding has_name save insert delete
  create d name password role s =
      if has_name name s.users
      then (s, refused name_taken)
      else let u = new_user d name password role in finish_create u (save d.writes (with_user u s))

  pub auth_in : Text → Text → Dict Text User → Option User
  unfolding verify_password
  auth_in name password [] = none
  auth_in name password ((id, u) ∷ m) =
      let rest = auth_in name password m in
      if u.name == name
      then (if verify_password sha u.password_hash password then some u else none)
      else rest

  unfoldable pub auth_by_password : Text → Text → Store → Option User
  unfolding auth_in
  auth_by_password name password s = auth_in name password s.users

abbrev finish_delete : Store × Bool → Store × Option StoreError
finish_delete (s, true) = (s, none)
finish_delete (s, false) = (s, some save_failed)

abbrev delete_found : Bool → Text → Store → Option User → Store × Option StoreError
delete_found writes id s none = (s, some not_found)
delete_found writes id s (some u) =
    finish_delete
      (save writes (record s { users = delete id s.users; by_key = delete u.api_key s.by_key }))

unfoldable pub delete_user : Bool → Text → Store → Store × Option StoreError
unfolding save lookup delete
delete_user writes id s = delete_found writes id s (lookup id s.users)

unfoldable pub get_by_id : Text → Store → Option User
unfolding lookup
get_by_id id s = lookup id s.users

pub get_by_key : Text → Store → Option User
unfolding lookup
get_by_key key s = lookup key s.by_key
