-- ===== src/Server/Handler/Completions/Kept.antt =====
-- What every request for a completion keeps.
use qoderwork2api.Common.{
  ℕ, ap, subst, ◌≡◌, ◌≢◌, refl, sym, ◌∙◌, ◌⊎◌, inl, inr, true, false, List, [], ◌∷◌, Option, none,
  some, arith, if◌then◌else◌, Bool-cases, Option-cases, map,
}
use qoderwork2api.Common.Int.{ℤ}
use qoderwork2api.Common.Eq.{Text, codes, text_instance, ◌==◌, is_empty}
use qoderwork2api.Common.Dict.{Dict, lookup}
use qoderwork2api.Cred.{Cred}
use qoderwork2api.Cred.Refresh.{EnsureError}
use qoderwork2api.Cred.Refresh.Outcomes.{ensure_dt-uid}
use qoderwork2api.Pool.{Pool, Env, pick}
use qoderwork2api.Pool.Shape.{
  IsWellFormed, step, step-IsWellFormed, change_cred-IsWellFormed, disables,
}
use qoderwork2api.Upstream.Models.{Fetched, fetched, failed_by, resolve_model_map}
use qoderwork2api.Upstream.Body.{Message}
use qoderwork2api.Upstream.Sse.{Chunk}
use qoderwork2api.User.{User}
use qoderwork2api.User.Pools.{get_pool, get_pool-set_pool}
use qoderwork2api.Server.Auth.{PoolRef, global, own, get_user_pool-user_pool, is_global_admin-id}
use qoderwork2api.Server.Chat.{Config}
use qoderwork2api.Server.Chat.Rotation.{rotate-IsDistinct}
use qoderwork2api.Server.Handler.{
  ModelCache, Gateway, Lookup, is_cached, fallback_model_map, after_failure, after_fetch,
  after_refresh, effective_model_map,
}
use qoderwork2api.Server.Handler.Completions.{
  ChatRequest, Incoming, unread, unparsable, parsed, Meets, pool_at, put_pool, is_registered, whose,
  with_key, if_healthy, with_messages, chat_completions,
}

-- The names of the cache are those of its models.
abbrev pub IsCoherent : (ℕ → ℕ) → ModelCache → Type 0
IsCoherent lower c = c.names ≡ resolve_model_map lower c.models

-- Every pool is in shape, and the cache is coherent.
pub record IsSound (lower : ℕ → ℕ) (g : Gateway) : Type 0 where
  pub shared : IsWellFormed g.shared
  pub pools : (id : Text) (p : Pool) → get_pool id g.manager ≡ some p → IsWellFormed p
  pub cache : IsCoherent lower g.cache

after_failure-IsWellFormed :
    (env : Env) (uid : Text) (e : EnsureError) (p : Pool)
    → IsWellFormed p
    → IsWellFormed (after_failure env uid e p)
unfolding step
after_failure-IsWellFormed env uid e p w =
    ground
      (arith, step-IsWellFormed env (disables uid (codes "auth invalid (re-login required)")) p w)

module _ (parse_time : Text → Option ℤ) (lower : ℕ → ℕ) where
  -- The pool is in shape, the cache coherent, and the names are the built-in ones or the cache's.
  abbrev pub IsAnswer : Pool × ModelCache × Dict Text Text → Type 0
  IsAnswer (p, c, names) =
      IsWellFormed p × IsCoherent lower c × ((names ≡ fallback_model_map) ⊎ (names ≡ c.names))

  after_fetch-IsCoherent :
      (now : ℕ) (f : Fetched) (c : ModelCache)
      → IsCoherent lower c
      → let (c', names) = after_fetch parse_time lower now f c in
        IsCoherent lower c' × ((names ≡ fallback_model_map) ⊎ (names ≡ c'.names))
  after_fetch-IsCoherent now (failed_by e) c h = (h, inl refl)
  after_fetch-IsCoherent now (fetched ms) c h = (refl, inr refl)

  after_refresh-IsAnswer :
      (l : Lookup) (uid : Text) (acct : Cred) (e : Option EnsureError) (p : Pool) (c : ModelCache)
      → acct.uid ≡ uid
      → IsWellFormed p
      → IsCoherent lower c
      → IsAnswer (after_refresh parse_time lower l uid (acct, e) p c)
  after_refresh-IsAnswer l uid acct (some e) p c same w h = (
    after_failure-IsWellFormed l.at_end uid e _
        (change_cred-IsWellFormed uid (λ old. acct) p (λ old k. same) w),
    h,
    inl refl,
  )
  after_refresh-IsAnswer l uid acct none p c same w h =
      let (coherent, names) = after_fetch-IsCoherent l.stored_at _ c h in
      (change_cred-IsWellFormed uid (λ old. acct) p (λ old k. same) w, coherent, names)

  pub effective_model_map-IsAnswer :
      (l : Lookup) (p : Pool) (c : ModelCache)
      → IsWellFormed p
      → IsCoherent lower c
      → IsAnswer (effective_model_map parse_time lower l p c)
  unfolding effective_model_map
  effective_model_map-IsAnswer l p c w h = elim (Bool-cases (is_cached l.at_pick.now c)) [
    | inl cached ↦ rw (cached, effective_model_map) (w, h, inr refl)
    | inr old ↦ elim (Option-cases (pick l.at_pick p)) [
      | inl e ↦ rw (old, e, effective_model_map) (w, h, inl refl)
      | inr (acct, e) ↦
          rw (old, e, effective_model_map)
            (after_refresh-IsAnswer l acct.uid _ _ p c
              (ensure_dt-uid parse_time l.ensure_now l.ensure_later l.refresh acct) w h)
    ]
  ]

pool_at-IsWellFormed :
    (lower : ℕ → ℕ) (ref : PoolRef) (g : Gateway) → IsSound lower g → IsWellFormed (pool_at ref g)
pool_at-IsWellFormed lower global g sound = sound.shared
pool_at-IsWellFormed lower (own id) g sound = elim (Option-cases (get_pool id g.manager)) [
  | inl e ↦ rw (e, pool_at) sound.shared
  | inr (p, e) ↦ rw (e, pool_at) (sound.pools id p e)
]

-- A request that is served from `ref` keeps every pool in shape and the cache coherent, and leaves
-- all the other users' pools alone. Where it is not served from the shared pool, this stays as it
-- was or as the question for the models left it, which is `asked`.
pub record IsKept (lower : ℕ → ℕ) (asked : Pool) (ref : PoolRef) (before after : Gateway)
    : Type 0 where
  pub sound : IsSound lower after
  pub shared : (id : Text) → ref ≡ own id → (after.shared ≡ before.shared) ⊎ (after.shared ≡ asked)
  pub others : (j : Text) → ref ≢ own j → get_pool j after.manager ≡ get_pool j before.manager

unchanged :
    (lower : ℕ → ℕ) (asked : Pool) (ref : PoolRef) (g : Gateway)
    → IsSound lower g
    → IsKept lower asked ref g g
unchanged lower asked ref g sound = record {
  sound = sound;
  shared = λ id is. inl refl;
  others = λ j ne. refl;
}

put_pool-IsKept :
    (lower : ℕ → ℕ) (asked : Pool) (ref : PoolRef) (p : Pool) (g : Gateway)
    → IsSound lower g
    → IsWellFormed p
    → IsKept lower asked ref g (put_pool ref p g)
put_pool-IsKept lower asked global p g sound w = record {
  sound = record { shared = w; pools = sound.pools; cache = sound.cache };
  shared = λ id is. cc (is);
  others = λ j ne. refl;
}
put_pool-IsKept lower asked (own id) p g sound w = record {
  shared = λ id' is. inl refl;
  sound = record {
    shared = sound.shared;
    pools = λ j q at.
        changed j q (Bool-cases (id == j)) (sym (get_pool-set_pool id j p g.manager) ∙ at);
    cache = sound.cache;
  };
  others = λ j ne. ground (
    arith,
    get_pool-set_pool id j p g.manager,
    text_instance.agrees_iff id j,
    λ (e : id ≡ j). ne (ap own e),
  );
}
  where
    changed :
        (j : Text) (q : Pool)
        → ((id == j) ≡ true) ⊎ ((id == j) ≡ false)
        → (if id == j then some p else get_pool j g.manager) ≡ some q
        → IsWellFormed q
    changed j q (inl e) h = subst IsWellFormed (ground (arith, e, h)) w
    changed j q (inr e) h = sound.pools j q (ground (arith, e, h))

module _ (parse_time : Text → Option ℤ) (lower : ℕ → ℕ) (cut quote : Text → Text)
    (body_of : Text → Option Text) (chunk_of : Text → Option Chunk)
    (read : Text → List Text × Option Text) (cfg : Config) where
  with_key-IsKept :
      (m : Meets) (req : ChatRequest) (asked : Pool) (ref : PoolRef) (g : Gateway)
      (key : Option Text)
      → IsSound lower g
      → IsKept lower asked ref g
          (with_key parse_time lower cut quote body_of chunk_of read cfg m req ref g key).0
  with_key-IsKept m req asked ref g none sound = unchanged lower _ _ g sound
  with_key-IsKept m req asked ref g (some key) sound =
      let (distinct, bound, w) =
        rotate-IsDistinct parse_time lower cut cfg m.rounds m.others (pool_at ref g)
          (pool_at-IsWellFormed lower ref g sound) in
      put_pool-IsKept lower asked ref _ g sound w

  if_healthy-IsKept :
      (m : Meets) (req : ChatRequest) (ref : PoolRef) (g : Gateway) (acct : Option Cred)
      → IsSound lower g
      → IsKept lower
          (effective_model_map parse_time lower m.asks g.shared g.cache).0
          ref
          g
          (if_healthy parse_time lower cut quote body_of chunk_of read cfg m req ref g acct).0
  if_healthy-IsKept m req ref g none sound = unchanged lower _ _ g sound
  if_healthy-IsKept m req ref g (some acct) sound =
      let asked = effective_model_map parse_time lower m.asks g.shared g.cache in
      let (w, coherent, names) =
        effective_model_map-IsAnswer parse_time lower m.asks g.shared g.cache sound.shared
          sound.cache in
      let g' : Gateway = record g { shared = asked.0; cache = asked.1 } in
      let sound' : IsSound lower g' = record {
        shared = w;
        pools = sound.pools;
        cache = coherent;
      } in
      let kept =
        with_key-IsKept m req asked.0 ref g' (lookup (map lower req.model) asked.2) sound' in
      record {
        sound = kept.sound;
        shared = λ id is. inr (joined (kept.shared id is));
        others = kept.others;
      }
    where
      joined : {p q : Pool} → (p ≡ q) ⊎ (p ≡ q) → p ≡ q
      joined (inl e) = e
      joined (inr e) = e

  with_messages-IsKept :
      (m : Meets) (req : ChatRequest) (ref : PoolRef) (g : Gateway) (messages : List Message)
      → IsSound lower g
      → IsKept lower
          (effective_model_map parse_time lower m.asks g.shared g.cache).0
          ref
          g
          (with_messages parse_time lower cut quote body_of chunk_of read cfg m req ref g
            messages).0
  with_messages-IsKept m req ref g [] sound = unchanged lower _ _ g sound
  with_messages-IsKept m req ref g (first ∷ rest) sound =
      if_healthy-IsKept m req ref g (pick m.at_look (pool_at ref g)) sound

  every_request :
      (m : Meets) (body : Incoming) (caller : Option User) (g : Gateway)
      → IsSound lower g
      → IsKept lower
          (effective_model_map parse_time lower m.asks g.shared g.cache).0
          (whose caller g)
          g
          (chat_completions parse_time lower cut quote body_of chunk_of read cfg m body caller g).0
  unfolding chat_completions
  every_request m (unread text) caller g sound = unchanged lower _ _ g sound
  every_request m (unparsable text) caller g sound = unchanged lower _ _ g sound
  every_request m (parsed req) caller g sound = elim (Bool-cases (is_empty req.model)) [
    | inl e ↦ rw (e, chat_completions) (unchanged lower _ _ g sound)
    | inr e ↦
        rw (e, chat_completions) (with_messages-IsKept m req (whose caller g) g req.messages sound)
  ]

  -- A user with a pool is served from it.
  served_from :
      (u : User) (g : Gateway) (p : Pool)
      → get_pool u.id g.manager ≡ some p
      → u.id ≢ codes "admin"
      → whose (some u) g ≡ own u.id
  served_from u g p at other =
      let registered : is_registered g.manager u.id ≡ true = rw (at, is_registered) refl in
      ((get_user_pool-user_pool (is_registered g.manager) u (is_global_admin-id u other)).0
        registered).0

  -- Whatever a request for a completion asks, and whatever it meets, every pool stays in shape, the
  -- cache holds the names of the models that it lists, and of the users' pools none changes but that
  -- of the caller. A caller whose id is not that of the administrator and who has a pool is served
  -- from it: then the
  -- administrator's shared pool stays as it was, or as the question for the models left it, which
  -- asks with an account of that pool whoever calls.
  pub chat_completions-IsKept :
      (m : Meets) (body : Incoming) (caller : Option User) (g : Gateway)
      → IsSound lower g
      → IsKept lower
          (effective_model_map parse_time lower m.asks g.shared g.cache).0
          (whose caller g)
          g
          (chat_completions parse_time lower cut quote body_of chunk_of read cfg m body caller g).0
        × ((u : User) (p : Pool)
            → get_pool u.id g.manager ≡ some p
            → u.id ≢ codes "admin"
            → whose (some u) g ≡ own u.id)
  chat_completions-IsKept m body caller g sound =
      (every_request m body caller g sound, λ u p at other. served_from u g p at other)
