-- ===== src/Server/Handler/Completions.antt =====
-- `chatCompletions` of internal/server/handler.go, around the rotation of Server.Chat.
pub mod Kept
use qoderwork2api.Common.{
  ℕ, zero, suc, ◌+◌, ◌*◌, ◌≡◌, Bool, true, false, ◌&&◌, not, List, [], ◌∷◌, ◌++◌, Option, none,
  some, if◌then◌else◌, map,
}
use qoderwork2api.Common.Int.{ℤ}
use qoderwork2api.Common.Eq.{Text, codes, text_instance, is_empty}
use qoderwork2api.Common.Dict.{Dict, lookup}
use qoderwork2api.Cred.{Cred}
use qoderwork2api.Pool.{Pool, Env, pick}
use qoderwork2api.Pool.Shape.{Call}
use qoderwork2api.Upstream.Body.{Message}
use qoderwork2api.Upstream.Sse.{
  Chunk, Response, Event, parse_nested_sse, aggregate_nested, stream_as_openai,
}
use qoderwork2api.User.{User}
use qoderwork2api.User.Pools.{PoolManager, get_pool, set_pool}
use qoderwork2api.Server.Auth.{PoolRef, global, own, get_user_pool}
use qoderwork2api.Server.Chat.{
  Config, Round, Outcome, Answer, streamed, unavailable, rotations, rotate,
}
use qoderwork2api.Server.Handler.{ModelCache, Gateway, Lookup, effective_model_map}

-- The fields that the loop around `ChatForward` reads itself.
pub record ChatRequest : Type 0 where
  pub model : Text
  pub messages : List Message
  pub stream : Bool

-- The body is not read, is no request, or is one; the errors come with their texts.
pub data Incoming : Type 0 where
  unread : Text → Incoming
  unparsable : Text → Incoming
  parsed : ChatRequest → Incoming

-- An error with its status, code and message; the events of a stream; or a complete response.
pub data Reply : Type 0 where
  error : ℕ → Text → Text → Reply
  events : List Event → Reply
  complete : Response → Reply

-- What `chatCompletions` meets: the clock of the first look at the pool, what the question for the
-- models meets, the rounds of the rotation, what others do to the pool before each of them, and the
-- id and the time for a response that has none.
pub record Meets : Type 0 where
  pub at_look : Env
  pub asks : Lookup
  pub rounds : ℕ → Round
  pub others : ℕ → List (Env × Call)
  pub fresh_id : Text
  pub created : ℤ

abbrev pub is_registered : PoolManager → Text → Bool
is_registered pm id = elim (get_pool id pm) [ none ↦ false | some p ↦ true ]

-- The pool of the manager or, where it has none, the global one.
abbrev pub pool_at : PoolRef → Gateway → Pool
pool_at global g = g.shared
pool_at (own id) g = elim (get_pool id g.manager) [ none ↦ g.shared | some p ↦ p ]

-- The pool behind the pointer is changed.
abbrev pub put_pool : PoolRef → Pool → Gateway → Gateway
put_pool global p g = record g { shared = p }
put_pool (own id) p g = record g { manager = set_pool id p g.manager }

abbrev pub whose : Option User → Gateway → PoolRef
whose caller g = get_user_pool (is_registered g.manager) caller

abbrev all_unavailable : Text
all_unavailable = codes "all accounts unavailable (cooling/disabled)"

abbrev told : Option Text → Text
told none = all_unavailable
told (some text) = all_unavailable ++ codes ": " ++ text

abbrev text_of : Option Text → Text
text_of none = []
text_of (some text) = text

-- `read` cuts the body of a response into lines, with the error of the reader if it ends with one;
-- `quote` is the verb %q; `cut` the first 300 bytes; `lower` unicode.ToLower; `body_of` and
-- `chunk_of` decode JSON.
module _ (parse_time : Text → Option ℤ) (lower : ℕ → ℕ) (cut quote : Text → Text)
    (body_of : Text → Option Text) (chunk_of : Text → Option Chunk)
    (read : Text → List Text × Option Text) (cfg : Config) where
  abbrev complete_or_502 : Option Response → Text → Reply
  complete_or_502 (some r) text = complete r
  complete_or_502 none text = error 502 (codes "upstream_parse") text

  pub reply_with : Meets → ChatRequest → Answer → Reply
  unfolding lookup
  reply_with m req (unavailable last) = error 503 (codes "no_healthy_account") (told last)
  reply_with m req (streamed uid body) =
      let (lines, ends) = read body in
      if req.stream
      then events (stream_as_openai body_of chunk_of ends lines req.model)
      else complete_or_502
          (aggregate_nested body_of chunk_of m.fresh_id m.created ends lines req.model)
          (text_of (parse_nested_sse body_of chunk_of ends lines).1)

  -- The loop, on the pool of the caller.
  abbrev pub forward : Meets → ChatRequest → PoolRef → Gateway → Gateway × Reply
  forward m req ref g =
      let o =
        rotate parse_time lower cut cfg m.rounds m.others (rotations cfg) 0 [] none
          (pool_at ref g) in
      (put_pool ref o.pool g, reply_with m req o.answer)

  abbrev pub with_key : Meets → ChatRequest → PoolRef → Gateway → Option Text → Gateway × Reply
  with_key m req ref g none = (
    g,
    error 400 (codes "invalid_model")
        (codes "unknown model " ++ quote req.model ++ codes " (see /v1/models)"),
  )
  with_key m req ref g (some key) = forward m req ref g

  -- The question for the models, and what follows it.
  abbrev pub choose_model : Meets → ChatRequest → PoolRef → Gateway → Gateway × Reply
  choose_model m req ref g =
      let (p, c, names) = effective_model_map parse_time lower m.asks g.shared g.cache in
      with_key m req ref (record g { shared = p; cache = c }) (lookup (map lower req.model) names)

  abbrev pub if_healthy : Meets → ChatRequest → PoolRef → Gateway → Option Cred → Gateway × Reply
  if_healthy m req ref g none = (g, error 503 (codes "no_healthy_account") all_unavailable)
  if_healthy m req ref g (some acct) = choose_model m req ref g

  abbrev pub with_messages :
      Meets → ChatRequest → PoolRef → Gateway → List Message → Gateway × Reply
  with_messages m req ref g [] =
      (g, error 400 (codes "invalid_request") (codes "messages is required"))
  with_messages m req ref g (first ∷ rest) = if_healthy m req ref g (pick m.at_look (pool_at ref g))

  pub chat_completions : Meets → Incoming → Option User → Gateway → Gateway × Reply
  unfolding reply_with rotate effective_model_map
  chat_completions m (unread text) caller g =
      (g, error 400 (codes "invalid_request") (codes "read body: " ++ text))
  chat_completions m (unparsable text) caller g =
      (g, error 400 (codes "invalid_request") (codes "parse json: " ++ text))
  chat_completions m (parsed req) caller g =
      let ref = whose caller g in
      if is_empty req.model
      then (g, error 400 (codes "invalid_request") (codes "model is required"))
      else with_messages m req ref g req.messages
