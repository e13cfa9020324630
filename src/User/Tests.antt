-- ===== src/User/Tests.antt =====
-- The theorems about users at concrete values.
use qoderwork2api.Common.{◌≡◌, refl, true, List, [], ◌∷◌, ◌++◌, none, arith}
use qoderwork2api.Common.Eq.{Text, codes, text_instance, text_eq}
use qoderwork2api.Common.Dict.{lookup}
use qoderwork2api.Common.Strings.{hex}
use qoderwork2api.Pool.{Env}
use qoderwork2api.User.{
  User, Store, Draws, create, generate_id, generate_key, has_name, role_user, name_taken,
  random_hex,
}
use qoderwork2api.User.Creation.{IsFresh, IsFound, fresh_user, create_created, create_refused}
use qoderwork2api.User.Index.{IsIndexed, create-IsIndexed}
use qoderwork2api.User.Pools.{
  PoolManager, Directory, register_user, IsRegistered, register_user-IsRegistered,
}

-- A digest for the tests.
abbrev digest : Text → Text
digest s = s

abbrev draws : Draws
draws = record {
  id_bytes = 1 ∷ 2 ∷ [];
  key_bytes = 3 ∷ [];
  salt_bytes = 4 ∷ [];
  now = 7;
  writes = true;
}

abbrev ann : User
ann = record {
  id = codes "u_1";
  name = codes "ann";
  api_key = codes "usr_1";
  password_hash = codes "a:b";
  role = role_user;
  created_at = 1;
}

abbrev store : Store
store = record { users = (codes "u_1", ann) ∷ []; by_key = (codes "usr_1", ann) ∷ []; disk = none }

abbrev bob : User
bob = fresh_user digest draws (codes "bob") (codes "pw") role_user store

create_created_example :
    IsFound digest draws
      (codes "bob")
      (codes "pw")
      role_user
      store
      bob
      (create digest draws (codes "bob") (codes "pw") role_user store).0
unfolding create has_name text_eq
create_created_example =
    create_created digest draws (codes "bob") (codes "pw") role_user store bob refl

IsFresh-draws : IsFresh draws store
unfolding generate_id generate_key random_hex hex lookup text_eq
IsFresh-draws = (refl, refl)

create_refused_example :
    (lookup (codes "u_1") (create digest draws (codes "ann") (codes "pw") role_user store).0.users
      ≡ lookup (codes "u_1") store.users)
    × (lookup
          (codes "u_1")
          (create digest draws (codes "ann") (codes "pw") role_user store).0.by_key
        ≡ lookup (codes "u_1") store.by_key)
unfolding create has_name text_eq
create_refused_example =
    create_refused digest draws (codes "ann") (codes "pw") role_user store name_taken (codes "u_1")
      IsFresh-draws refl

store-IsIndexed : IsIndexed store
unfolding lookup text_eq
store-IsIndexed = record {
  from_id = λ id u h. ground (arith, text_instance.agrees_iff (codes "u_1") id);
  from_key = λ key u h. ground (arith, text_instance.agrees_iff (codes "usr_1") key);
}

create-IsIndexed_example :
    IsIndexed (create digest draws (codes "bob") (codes "pw") role_user store).0
create-IsIndexed_example =
    create-IsIndexed digest draws (codes "bob") (codes "pw") role_user store IsFresh-draws
      store-IsIndexed

abbrev joined : List Text → Text
joined [] = []
joined (s ∷ ss) = s ++ codes "/" ++ joined ss

abbrev nothing_there : Directory
nothing_there = record {
  state = none;
  files = none;
  draws = λ i. record { id = λ j. 0; seed_left = λ j. 0; seed_right = λ j. 0; kind = λ j. 0 };
}

abbrev at_noon : Env
at_noon = record { now = 12; writes = true }

abbrev manager : PoolManager
manager = record { pools = []; auth_dirs = []; state_dirs = []; base_dir = codes "data" }

registers_ann :
    let after = register_user joined at_noon nothing_there (codes "u_1") manager in
    IsRegistered (codes "u_1") manager after
    × (register_user joined at_noon nothing_there (codes "u_1") after.0 ≡ after)
registers_ann =
    register_user-IsRegistered joined at_noon at_noon nothing_there nothing_there (codes "u_1")
      manager
