-- ===== src/Server/Handler.antt =====
-- internal/server/handler.go: the list of models with its cache.
pub mod Completions
pub mod Names
mod Tests
use qoderwork2api.Common.{
  ℕ, zero, suc, ◌+◌, ◌*◌, ◌≡◌, Bool, true, false, ◌&&◌, not, List, [], ◌∷◌, ◌++◌, Option, none,
  some, if◌then◌else◌, ltb, map, length,
}
use qoderwork2api.Common.Int.{ℤ}
use qoderwork2api.Common.Eq.{Text, codes, text_instance, is_empty}
use qoderwork2api.Common.Dict.{Dict, lookup}
use qoderwork2api.Common.Sort.{text_leb}
use qoderwork2api.Cred.{Cred}
use qoderwork2api.Cred.Refresh.{Reply, EnsureError, ensure_dt, is_auth_invalid}
use qoderwork2api.Pool.{Pool, Env, pick, disable, change_cred}
use qoderwork2api.Pool.Shape.{Call}
use qoderwork2api.Upstream.Models.{
  DynamicModel, ModelsReply, Fetched, fetched, failed_by, fetch_models, resolve_model_map,
}
use qoderwork2api.Upstream.Models.Resolve.{dynamic_models_meta}
use qoderwork2api.Upstream.Body.{Message}
use qoderwork2api.Upstream.Sse.{
  Chunk, Response, Event, parse_nested_sse, aggregate_nested, stream_as_openai,
}
use qoderwork2api.User.{User}
use qoderwork2api.User.Pools.{PoolManager, get_pool, set_pool}
use qoderwork2api.Server.Auth.{PoolRef, global, own, get_user_pool}
use qoderwork2api.Server.Chat.{
  Config, Round, Outcome, Answer, streamed, unavailable, has_fingerprint, rotations, rotate,
}

-- The fields `dynamicModels`, `dynamicMap` and `dynamicFetched`; the time is in nanoseconds.
pub record ModelCache : Type 0 where
  pub models : List DynamicModel
  pub names : Dict Text Text
  pub at : ℕ

-- What a request can change: the global pool, the pools of the users, and the cache.
pub record Gateway : Type 0 where
  pub shared : Pool
  pub manager : PoolManager
  pub cache : ModelCache

pub dynamic_models_ttl : ℕ
dynamic_models_ttl = 3600 * 1_000_000_000

pub fallback_model_map : Dict Text Text
fallback_model_map =
    (codes "auto", codes "auto")
    ∷ (codes "qwen3.8-max-preview", codes "qmodel_preview")
    ∷ (codes "qwen3.7-max", codes "qmodel_latest")
    ∷ (codes "qwen3.7-plus", codes "qmodel")
    ∷ (codes "qwen3.6-flash", codes "q36fmodel")
    ∷ (codes "deepseek-v4-pro", codes "dmodel")
    ∷ (codes "deepseek-v4-flash", codes "dfmodel")
    ∷ (codes "glm-5.2", codes "gm51model")
    ∷ (codes "kimi-k2.7-code", codes "kmodel")
    ∷ (codes "minimax-m2.7", codes "mmodel")
    ∷ []

-- What the question for the models meets: the clock when the cache is read, around the refresh, at
-- the change of the pool and when the answer is stored, and the answers of the servers.
pub record Lookup : Type 0 where
  pub at_pick : Env
  pub ensure_now : ℕ
  pub ensure_later : ℕ
  pub refresh : Reply
  pub at_end : Env
  pub models : ModelsReply
  pub stored_at : ℕ

abbrev pub is_nil : Dict Text Text → Bool
is_nil [] = true
is_nil (entry ∷ rest) = false

pub is_cached : ℕ → ModelCache → Bool
unfolding dynamic_models_ttl
is_cached now c = not (is_nil c.names) && ltb now (c.at + dynamic_models_ttl)

abbrev pub after_failure : Env → Text → EnsureError → Pool → Pool
after_failure env uid e p =
    if is_auth_invalid e then disable env uid (codes "auth invalid (re-login required)") p else p

module _ (parse_time : Text → Option ℤ) (lower : ℕ → ℕ) where
  abbrev pub after_fetch : ℕ → Fetched → ModelCache → ModelCache × Dict Text Text
  after_fetch now (failed_by e) c = (c, fallback_model_map)
  after_fetch now (fetched ms) c =
      let names = resolve_model_map lower ms in
      (record { models = ms; names = names; at = now }, names)

  abbrev pub after_refresh :
      Lookup
      → Text
      → Cred × Option EnsureError
      → Pool
      → ModelCache
      → Pool × ModelCache × Dict Text Text
  after_refresh l uid (acct, some e) p c =
      (after_failure l.at_end uid e (change_cred uid (λ old. acct) p), c, fallback_model_map)
  after_refresh l uid (acct, none) p c =
      let (c', names) =
        after_fetch l.stored_at (fetch_models acct.dt (has_fingerprint acct) l.models) c in
      (change_cred uid (λ old. acct) p, c', names)

  -- The global pool and the cache, and the names with their keys.
  pub effective_model_map : Lookup → Pool → ModelCache → Pool × ModelCache × Dict Text Text
  effective_model_map l p c =
      if is_cached l.at_pick.now c then (p, c, c.names) else elim (pick l.at_pick p) [
        | none ↦ (p, c, fallback_model_map)
        | some acct ↦
            after_refresh l acct.uid
              (ensure_dt parse_time l.ensure_now l.ensure_later l.refresh acct) p c
      ]

abbrev pub keys : Dict Text Text → List Text
keys [] = []
keys ((k, v) ∷ rest) = k ∷ keys rest

abbrev pub below : Text → Text → Bool
below s t = not (text_leb t s)

-- The inner loop of the sort at one place: the text that comes to stand there, and the rest.
pub exchange_pass : Text → List Text → Text × List Text
exchange_pass x [] = (x, [])
exchange_pass x (y ∷ ys) =
    let (first, rest) = exchange_pass (if below y x then y else x) ys in
    (first, (if below y x then x else y) ∷ rest)

-- The outer loop; the number is that of the texts, and bounds it.
pub exchange_sort : ℕ → List Text → List Text
unfolding exchange_pass
exchange_sort zero xs = xs
exchange_sort (suc n) [] = []
exchange_sort (suc n) (x ∷ xs) =
    let (first, rest) = exchange_pass x xs in first ∷ exchange_sort n rest

-- One entry of the list of models: the name, and what is known of the model or only its key.
pub data ModelEntry : Type 0 where
  detailed : Text → DynamicModel → ModelEntry
  keyed : Text → Option Text → ModelEntry

abbrev entry_of_model : Dict Text DynamicModel → Dict Text Text → Text → ModelEntry
entry_of_model meta names name = elim (lookup name meta) [
  | some m ↦ detailed name m
  | none ↦ keyed name (lookup name names)
]

-- The names of the list of models, in its order.
pub listed_names : Dict Text Text → List Text
unfolding exchange_sort
listed_names names = let ns = keys names in exchange_sort (length ns) ns

-- `GET /v1/models`.
pub list_models : (Text → Option ℤ) → (ℕ → ℕ) → Lookup → Gateway → Gateway × List ModelEntry
unfolding effective_model_map listed_names lookup
list_models parse_time lower l g =
    let (p, c, names) = effective_model_map parse_time lower l g.shared g.cache in
    let meta = dynamic_models_meta lower c.models in
    (record g { shared = p; cache = c }, map (entry_of_model meta names) (listed_names names))
