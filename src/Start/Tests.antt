-- ===== src/Start/Tests.antt =====
-- The start of the server at concrete values.
use qoderwork2api.Common.{ℕ, ◌≡◌, refl, true, false, Bool, List, [], ◌∷◌, ◌++◌, Option, none, some}
use qoderwork2api.Common.Int.{ℤ, pos}
use qoderwork2api.Common.Eq.{Text, codes, text_eq}
use qoderwork2api.Config.{ConfigError, no_path, load, default, Config}
use qoderwork2api.User.{Store, User, role_user, parsed, new_store}
use qoderwork2api.User.Pools.{Directory}
use qoderwork2api.Start.{World, Server, running, main, serving}
use qoderwork2api.Start.Sound.{IsRunning, main-IsRunning}

abbrev a_minute : Text → Option ℤ
a_minute s = some (pos 60_000_000_000)

abbrev unset : Text → Text
unset s = []

abbrev same_letter : ℕ → ℕ
same_letter c = c

abbrev never : ConfigError → Bool
never e = false

abbrev whole : Text → Text
whole s = s

abbrev joined : List Text → Text
joined [] = []
joined (s ∷ ss) = s ++ codes "/" ++ joined ss

abbrev nothing_there : Directory
nothing_there = record {
  state = none;
  files = some [];
  draws = λ i. record { id = λ j. 0; seed_left = λ j. 0; seed_right = λ j. 0; kind = λ j. 0 };
}

abbrev ann : User
ann = record {
  id = codes "u_1";
  name = codes "ann";
  api_key = codes "usr_1";
  password_hash = [];
  role = role_user;
  created_at = 1;
}

abbrev world : World
world = record {
  config = no_path;
  admin = nothing_there;
  users = parsed (ann ∷ []);
  directories = λ id. nothing_there;
  env = record { now = 5; writes = true };
}

abbrev settings : Config
settings = record default {
  hard_credit_dur = pos 60_000_000_000;
  soft_rate_dur = pos 60_000_000_000;
  err_cooldown_dur = pos 60_000_000_000;
}

abbrev store : Store
store = record {
  users = (codes "u_1", ann) ∷ [];
  by_key = (codes "usr_1", ann) ∷ [];
  disk = some (ann ∷ []);
}

abbrev server : Server
server = serving a_minute a_minute unset same_letter never whole joined world settings [] store

starts : main a_minute a_minute unset same_letter never whole joined world ≡ running server
unfolding main load new_store text_eq
starts = refl

main-IsRunning_example : IsRunning same_letter server
main-IsRunning_example =
    main-IsRunning a_minute a_minute unset same_letter never whole joined world server
      (tt, λ id. tt) starts
