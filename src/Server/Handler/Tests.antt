-- ===== src/Server/Handler/Tests.antt =====
-- The theorems about the handler at concrete values.
use qoderwork2api.Common.{ℕ, ◌≡◌, ◌≢◌, refl, true, false, List, [], ◌∷◌, Option, none, some, length}
use qoderwork2api.Common.Int.{ℤ, pos}
use qoderwork2api.Common.Eq.{Text, codes, text_instance, text_eq}
use qoderwork2api.Common.Dict.{Dict, lookup}
use qoderwork2api.Common.Sort.{text_leb, IsSorted}
use qoderwork2api.Cred.{blank}
use qoderwork2api.Cred.Refresh.{failed}
use qoderwork2api.Pool.{Pool, new_entry, Env}
use qoderwork2api.Upstream.Body.{text, end, field}
use qoderwork2api.Upstream.Models.{chat_missing, resolve_model_map}
use qoderwork2api.Upstream.Sse.{Chunk}
use qoderwork2api.User.{User, role_user}
use qoderwork2api.User.Pools.{get_pool}
use qoderwork2api.Server.Auth.{own}
use qoderwork2api.Server.Chat.{Config, Round, response}
use qoderwork2api.Server.Handler.{
  Gateway, Lookup, listed_names, list_models, effective_model_map, is_cached, exchange_sort,
  dynamic_models_ttl,
}
use qoderwork2api.Server.Handler.Names.{times, once, listed_names-IsSorted}
use qoderwork2api.Server.Handler.Completions.{ChatRequest, parsed, Meets, whose, chat_completions}
use qoderwork2api.Server.Handler.Completions.Kept.{IsSound, IsKept, chat_completions-IsKept}

abbrev names : Dict Text Text
names = (codes "b", codes "k2") ∷ (codes "a", codes "k1") ∷ []

listed_names-IsSorted_example :
    IsSorted (listed_names names)
    × ((name : Text) → times name (listed_names names) ≡ once (lookup name names))
unfolding lookup text_eq
listed_names-IsSorted_example = listed_names-IsSorted names (refl, (refl, tt))

-- The exchange sort puts the names in order.
lists_in_order : listed_names names ≡ codes "a" ∷ codes "b" ∷ []
unfolding listed_names text_leb
lists_in_order = refl

abbrev no_time : Text → Option ℤ
no_time s = none

abbrev same_letter : ℕ → ℕ
same_letter c = c

abbrev whole : Text → Text
whole s = s

abbrev no_body : Text → Option Text
no_body s = none

abbrev no_chunk : Text → Option Chunk
no_chunk s = none

abbrev one_line : Text → List Text × Option Text
one_line s = (s ∷ [], none)

abbrev at : ℕ → Env
at t = record { now = t; writes = true }

abbrev asks : Lookup
asks = record {
  at_pick = at 5;
  ensure_now = 5;
  ensure_later = 6;
  refresh = failed (codes "no route");
  at_end = at 7;
  models = chat_missing;
  stored_at = 7;
}

abbrev round : Round
round = record {
  at_pick = at 8;
  ensure_now = 8;
  ensure_later = 9;
  refresh = λ uid. failed (codes "no route");
  draws = record { id = λ j. 0; seed_left = λ j. 0; seed_right = λ j. 0; kind = λ j. 0 };
  wire = λ uid. response 200 (codes "data");
  at_end = at 9;
}

abbrev meets : Meets
meets = record {
  at_look = at 4;
  asks = asks;
  rounds = λ i. round;
  others = λ i. [];
  fresh_id = codes "id";
  created = pos 9;
}

abbrev settings : Config
settings = record {
  max_rotate = pos 3;
  hard_cooldown = pos 100;
  soft_cooldown = pos 10;
  err_threshold = pos 3;
  err_cooldown = pos 10;
}

abbrev hello : ChatRequest
hello = record {
  model = codes "auto";
  messages = field (codes "role") (text (codes "user")) end ∷ [];
  stream = true;
}

abbrev ready : Pool
ready = record {
  by_uid =
      (
        codes "b",
        new_entry (record blank { uid = codes "b"; dt = codes "dt"; dt_expires_at = pos 100_000 }),
      )
      ∷ [];
  stored = false;
  disk = none;
}

abbrev ann : User
ann = record {
  id = codes "u_1";
  name = codes "ann";
  api_key = codes "usr_1";
  password_hash = [];
  role = role_user;
  created_at = 1;
}

abbrev gateway : Gateway
gateway = record {
  shared = ready;
  manager = record { pools = []; auth_dirs = []; state_dirs = []; base_dir = [] };
  cache = record { models = []; names = []; at = 0 };
}

gateway-IsSound : IsSound same_letter gateway
unfolding lookup text_eq get_pool resolve_model_map
gateway-IsSound = record {
  shared = record { unique = (refl, tt); keyed = (refl, tt) };
  pools = λ id p h. cc;
  cache = refl;
}

chat_completions-IsKept_example :
    IsKept same_letter
      (effective_model_map no_time same_letter meets.asks gateway.shared gateway.cache).0
      (whose (some ann) gateway)
      gateway
      (chat_completions no_time same_letter whole whole no_body no_chunk one_line settings meets
        (parsed hello)
        (some ann)
        gateway).0
    × ((u : User) (p : Pool)
        → get_pool u.id gateway.manager ≡ some p
        → u.id ≢ codes "admin"
        → whose (some u) gateway ≡ own u.id)
chat_completions-IsKept_example =
    chat_completions-IsKept no_time same_letter whole whole no_body no_chunk one_line settings meets
      (parsed hello) (some ann) gateway gateway-IsSound

-- A cache that is not an hour old is listed.
lists_the_cache :
    length
      (list_models no_time same_letter asks
        (record gateway { cache = record { models = []; names = names; at = 4 } })).1
    ≡ 2
unfolding list_models effective_model_map is_cached exchange_sort listed_names text_leb
    dynamic_models_ttl
lists_the_cache = refl
