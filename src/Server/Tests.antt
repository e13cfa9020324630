-- ===== src/Server/Tests.antt =====
-- The theorems about the server at concrete values.
use qoderwork2api.Common.{
  ℕ, ◌≤◌, ◌≡◌, ◌↔◌, refl, Bool, true, false, List, [], ◌∷◌, Option, none, some, length,
}
use qoderwork2api.Common.Int.{ℤ, pos, wrap64, ◌-ℤ◌}
use qoderwork2api.Common.Eq.{Text, codes, text_instance, text_eq}
use qoderwork2api.Common.Dict.{lookup}
use qoderwork2api.Cred.{Cred, blank}
use qoderwork2api.Cred.Refresh.{
  failed, ensure_dt, is_fresh, refresh_locked, is_auth_invalid, message,
}
use qoderwork2api.Pool.{Pool, Env, new_entry, pick_excluding, update, cooldown, change_cred}
use qoderwork2api.Pool.Shape.{IsWellFormed, Call, run}
use qoderwork2api.User.{User, Store, role_user}
use qoderwork2api.Server.Auth.{
  auth_middleware, with_auth, admin_route, pass, IsAdmitted, extract_key,
  auth_middleware-IsAdmitted, admin_route-IsAdmitted, admin_user,
}
use qoderwork2api.Server.Chat.{
  Config, new_handler, rotations, Round, broken, Outcome, rotate, try_account, punish_ensure,
}
use qoderwork2api.Server.Chat.Rotation.{IsDistinct, GaveUp, rotate-IsDistinct, rotate_unavailable}
use qoderwork2api.Server.Chat.Punish.{Leaves, try_account-Leaves}

abbrev empty_store : Store
empty_store = record { users = []; by_key = []; disk = none }

abbrev key : Text
key = codes "k"

abbrev header : Text
header = codes "Bearer k"

auth_middleware-IsAdmitted_example :
    ((auth_middleware empty_store key header ≡ pass (admin_user key))
      ↔ IsAdmitted empty_store key (extract_key header) (admin_user key))
    × ((with_auth empty_store key header ≡ pass (admin_user key))
        ↔ IsAdmitted empty_store key (extract_key header) (admin_user key))
auth_middleware-IsAdmitted_example =
    auth_middleware-IsAdmitted empty_store key header (admin_user key)

admin_route-IsAdmitted_example : (admin_route empty_store key header ≡ pass (admin_user key)) ↔ (
    IsAdmitted empty_store key (extract_key header) (admin_user key)
    × ((admin_user key).role ≡ codes "admin"))
admin_route-IsAdmitted_example = admin_route-IsAdmitted empty_store key header (admin_user key)

abbrev ann : User
ann = record {
  id = codes "u_1";
  name = codes "ann";
  api_key = codes "usr_1";
  password_hash = [];
  role = role_user;
  created_at = 1;
}

abbrev everybody : Text → Bool
everybody id = true

abbrev no_time : Text → Option ℤ
no_time text = none

abbrev same_letter : ℕ → ℕ
same_letter c = c

abbrev whole : Text → Text
whole s = s

abbrev zeros : ℕ → ℕ
zeros i = 0

-- A round in which the network fails.
abbrev bad_round : Round
bad_round = record {
  at_pick = record { now = 5; writes = true };
  ensure_now = 5;
  ensure_later = 6;
  refresh = λ uid. failed (codes "no route");
  draws = record { id = zeros; seed_left = zeros; seed_right = zeros; kind = zeros };
  wire = λ uid. broken (codes "no route");
  at_end = record { now = 7; writes = true };
}

abbrev bad_rounds : ℕ → Round
bad_rounds i = bad_round

abbrev nobody : ℕ → List (Env × Call)
nobody i = []

abbrev raw : Config
raw = record {
  max_rotate = pos 0;
  hard_cooldown = pos 0;
  soft_cooldown = pos 0;
  err_threshold = pos 0;
  err_cooldown = pos 0;
}

abbrev settings : Config
settings = record {
  max_rotate = pos 3;
  hard_cooldown = pos 100;
  soft_cooldown = pos 10;
  err_threshold = pos 3;
  err_cooldown = pos 10;
}

abbrev cred_a : Cred
cred_a = record blank { uid = codes "a"; dt = codes "dt-a"; drt = codes "drt-a" }

abbrev one : Pool
one = record { by_uid = (codes "a", new_entry cred_a) ∷ []; stored = false; disk = none }

one-IsWellFormed : IsWellFormed one
unfolding lookup
one-IsWellFormed = record { unique = (refl, tt); keyed = (refl, tt) }

abbrev outcome : Outcome
outcome =
    rotate no_time same_letter whole settings bad_rounds nobody (rotations settings) 0 [] none one

-- The only account is asked, and then nobody is left.
asks_once : outcome.asked ≡ codes "a" ∷ []
unfolding rotate pick_excluding run update cooldown change_cred try_account punish_ensure ensure_dt
    is_fresh wrap64 ◌-ℤ◌ refresh_locked is_auth_invalid text_eq
asks_once = refl

rotate-IsDistinct_example :
    IsDistinct outcome.asked
    × (length outcome.asked ≤ rotations settings)
    × IsWellFormed outcome.pool
rotate-IsDistinct_example =
    rotate-IsDistinct no_time same_letter whole settings bad_rounds nobody one one-IsWellFormed

rotate_unavailable_example : GaveUp no_time same_letter whole settings bad_rounds nobody 3 outcome
unfolding rotate pick_excluding run update cooldown change_cred try_account punish_ensure ensure_dt
    is_fresh wrap64 ◌-ℤ◌ refresh_locked is_auth_invalid text_eq message
rotate_unavailable_example =
    rotate_unavailable no_time same_letter whole settings bad_rounds nobody one
      (some (codes "no route")) refl

try_account-Leaves_example :
    Leaves no_time same_letter whole raw
      (codes "a")
      7
      one
      (try_account no_time same_letter whole (new_handler raw) bad_round cred_a one)
try_account-Leaves_example = try_account-Leaves no_time same_letter whole raw bad_round cred_a one
