-- ===== src/Server/Admin/Tests.antt =====
-- The theorems about the administration at concrete values.
use qoderwork2api.Common.{◌≡◌, refl, true, List, [], ◌∷◌, ◌++◌, none, some, arith}
use qoderwork2api.Common.Eq.{Text, codes, text_instance, text_eq}
use qoderwork2api.Common.Dict.{lookup}
use qoderwork2api.Common.Strings.{trim_prefix}
use qoderwork2api.Pool.{Env}
use qoderwork2api.User.{
  User, StoreError, Draws, role_user, create, has_name, delete_user, all_users, auth_by_password,
  get_by_id,
}
use qoderwork2api.User.Creation.{fresh_user}
use qoderwork2api.User.Index.{IsIndexed}
use qoderwork2api.User.Pools.{Directory, get_pool}
use qoderwork2api.Server.Admin.{
  Office, CreateRequest, account, deleted, failure, handle_list_users, user_rows, handle_stats,
  stats_loop, handle_user_login, handle_create_user, handle_delete_user,
}
use qoderwork2api.Server.Admin.Access.{
  IsWelcome, IsGone, handle_create_user-IsWelcome, handle_delete_user-IsGone,
}

abbrev digest : Text → Text
digest s = s

abbrev told : StoreError → Text
told e = codes "error"

abbrev joined : List Text → Text
joined [] = []
joined (s ∷ ss) = s ++ codes "/" ++ joined ss

abbrev draws : Draws
draws = record {
  id_bytes = 1 ∷ 2 ∷ [];
  key_bytes = 3 ∷ [];
  salt_bytes = 4 ∷ [];
  now = 7;
  writes = true;
}

abbrev nothing_there : Directory
nothing_there = record {
  state = none;
  files = none;
  draws = λ i. record { id = λ j. 0; seed_left = λ j. 0; seed_right = λ j. 0; kind = λ j. 0 };
}

abbrev at_noon : Env
at_noon = record { now = 12; writes = true }

abbrev ann : User
ann = record {
  id = codes "u_1";
  name = codes "ann";
  api_key = codes "usr_1";
  password_hash = codes "a:b";
  role = role_user;
  created_at = 1;
}

abbrev office : Office
office = record {
  store = record {
    users = (codes "u_1", ann) ∷ [];
    by_key = (codes "usr_1", ann) ∷ [];
    disk = none;
  };
  manager = record { pools = []; auth_dirs = []; state_dirs = []; base_dir = codes "data" };
}

abbrev wanted : CreateRequest
wanted = record { name = codes "bob"; password = codes "pw"; role = codes "boss" }

abbrev bob : User
bob = fresh_user digest draws (codes "bob") (codes "pw") role_user office.store

answers_bob :
    (handle_create_user told digest joined draws at_noon nothing_there (some wanted) office).1
    ≡ account 201 bob
unfolding handle_create_user text_eq create has_name
answers_bob = refl

handle_create_user-IsWelcome_example :
    IsWelcome told digest joined
      (codes "k")
      wanted
      bob
      (handle_create_user told digest joined draws at_noon nothing_there (some wanted) office).0
handle_create_user-IsWelcome_example =
    handle_create_user-IsWelcome told digest joined draws at_noon nothing_there wanted (codes "k")
      office bob answers_bob

office-IsIndexed : IsIndexed office.store
unfolding lookup text_eq
office-IsIndexed = record {
  from_id = λ id u h. ground (arith, text_instance.agrees_iff (codes "u_1") id);
  from_key = λ key u h. ground (arith, text_instance.agrees_iff (codes "usr_1") key);
}

deletes_ann : (handle_delete_user told true (codes "/users/u_1") office).1 ≡ deleted
unfolding handle_delete_user text_eq delete_user trim_prefix lookup
deletes_ann = refl

handle_delete_user-IsGone_example :
    IsGone told digest joined
      (codes "k")
      ann
      office
      (handle_delete_user told true (codes "/users/u_1") office).0
unfolding get_by_id lookup text_eq
handle_delete_user-IsGone_example =
    handle_delete_user-IsGone told digest joined true (codes "k") office ann office-IsIndexed refl
      deletes_ann

lists_ann : handle_list_users at_noon office ≡ record { user = ann; acc_count = 0 } ∷ []
unfolding handle_list_users user_rows get_pool lookup all_users
lists_ann = refl

counts_ann : (handle_stats at_noon office).total_users ≡ 1
unfolding handle_stats stats_loop all_users lookup
counts_ann = refl

refuses_a_wrong_password :
    handle_user_login told digest joined (some (codes "bob", codes "x")) office
    ≡ failure 401 (codes "invalid username or password")
unfolding handle_user_login auth_by_password text_eq
refuses_a_wrong_password = refl
