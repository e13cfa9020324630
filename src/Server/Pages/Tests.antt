-- ===== src/Server/Pages/Tests.antt =====
-- The account pages at concrete values.
use qoderwork2api.Common.{ℕ, ◌≡◌, refl, Bool, length, true, false, List, [], ◌∷◌, ◌++◌, none}
use qoderwork2api.Common.Int.{ℤ, pos}
use qoderwork2api.Common.Eq.{Text, codes, text_instance, text_eq}
use qoderwork2api.Common.Dict.{lookup}
use qoderwork2api.Common.Strings.{trim_prefix}
use qoderwork2api.Cred.{blank}
use qoderwork2api.Pool.{Pool, Env, new_entry}
use qoderwork2api.Pool.Shape.{IsWellFormed}
use qoderwork2api.Pool.Listing.{list}
use qoderwork2api.Upstream.Client.{Result, success}
use qoderwork2api.User.{User, role_user}
use qoderwork2api.User.Pools.{get_user_auth_dir}
use qoderwork2api.Server.Login.{Site}
use qoderwork2api.Server.Pages.Kept.{IsTallied, handle_quota_refresh-IsTallied}
use qoderwork2api.Server.Pages.{
  handle_status, handle_quota, handle_quota_refresh, handle_delete_account, refused,
}

abbrev at : Env
at = record { now = 5; writes = true }

shows_nothing : handle_status at none ≡ ([], 0)
unfolding handle_status
shows_nothing = refl

asks_nothing : handle_quota at (λ i. success (pos 1, false)) none ≡ []
unfolding handle_quota
asks_nothing = refl

abbrev ann : User
ann = record {
  id = codes "u_1";
  name = codes "ann";
  api_key = codes "usr_1";
  password_hash = [];
  role = role_user;
  created_at = 1;
}

abbrev empty_pool : Pool
empty_pool = record { by_uid = []; stored = false; disk = none }

abbrev site : Site
site = record {
  sessions = [];
  manager = record { pools = []; auth_dirs = []; state_dirs = []; base_dir = [] };
  admin_pool = empty_pool;
  admin_dir = [];
  files = [];
}

abbrev joined : List Text → Text
joined [] = []
joined (s ∷ ss) = s ++ codes "/" ++ joined ss

needs_a_directory :
    (handle_delete_account joined none ann (codes "/accounts/x") site).1
    ≡ refused 500 (codes "user pool not found")
unfolding handle_delete_account trim_prefix text_eq lookup get_user_auth_dir
needs_a_directory = refl

abbrev tired : Pool
tired = record {
  by_uid = (codes "a", new_entry (record blank { uid = codes "a"; dt = codes "dt" })) ∷ [];
  stored = false;
  disk = none;
}

tired-IsWellFormed : IsWellFormed tired
unfolding lookup
tired-IsWellFormed = record { unique = (refl, tt); keyed = (refl, tt) }

abbrev answers : ℕ → Env × Result (ℤ × Bool)
answers i = (at, success (pos 1, false))

tallies_one : IsTallied (length (list at tired)) (handle_quota_refresh at answers (λ i. []) tired)
tallies_one = handle_quota_refresh-IsTallied at answers (λ i. []) tired tired-IsWellFormed
