-- ===== src/Upstream/Tests.antt =====
-- The theorems about the gateway's errors and models at concrete values.
use qoderwork2api.Common.{
  refl, Option, none, some, ℕ, ◌+◌, ◌<◌, ◌≡◌, ◌≢◌, ◌↔◌, true, false, ◌&&◌, List, [], ◌∷◌, All, leb,
  if◌then◌else◌,
}
use qoderwork2api.Common.Int.{pos}
use qoderwork2api.Common.Int.{ℤ, pos, negsuc}
use qoderwork2api.Common.Eq.{Text, codes, text_instance, text_eq, ◌==◌}
use qoderwork2api.Upstream.Body.{
  Message, text, field, end, member, user_text, prompt_of, BodyDraws, build_agent_body, nil,
}
use qoderwork2api.Upstream.Body.Prompt.{IsPrompt, IsNamed, prompt_of-IsPrompt}
use qoderwork2api.Upstream.Classify.{
  none_kind, hard_credit, session_dead, classify, OutOfCredit, classify_kinds,
}
use qoderwork2api.Upstream.Models.{DynamicModel, client_name}
use qoderwork2api.Upstream.Models.Names.{IsNameChar, IsSpaced, NotDash, EndsWell, client_name_form}
use qoderwork2api.Upstream.Sse.{Chunk, Delta, stream_as_openai, aggregate_nested, parse_nested_sse}
use qoderwork2api.Upstream.Sse.Transparency.{
  put_together, received, IsCleanEvent, has_nil, unless, stream_as_openai-aggregate_nested,
}
use qoderwork2api.Upstream.Sse.Writer.{IsStream, stream_to, stream_to-IsStream}

abbrev numbers : List ℤ
numbers = pos 2 ∷ negsuc 0 ∷ pos 1 ∷ []

abbrev body_itself : Text → Option Text
body_itself s = some s

abbrev one_delta : Delta
one_delta = record {
  role = none;
  content = some (codes "hi");
  reasoning = some [];
  tool_calls = [];
}

abbrev one_chunk : Text → Option Chunk
one_chunk s = some (record {
  is_nil = s == codes "null";
  id = some (codes "c");
  created = some (pos 5);
  usage = none;
  choices = some (record { finish_reason = none; delta = some one_delta }) ∷ [];
})

abbrev stream : List Text
stream = codes "data:x" ∷ codes "event:finish" ∷ codes "data:[DONE]" ∷ codes "data:y" ∷ []

stream_as_openai-aggregate_nested_example :
    (put_together []
        (pos 1)
        (codes "m")
        (received (stream_as_openai body_itself one_chunk none stream (codes "m")))
      ≡ unless
          (has_nil (parse_nested_sse body_itself one_chunk none stream).0)
          (aggregate_nested body_itself one_chunk [] (pos 1) none stream (codes "m")))
    × All IsCleanEvent (stream_as_openai body_itself one_chunk none stream (codes "m"))
stream_as_openai-aggregate_nested_example =
    stream_as_openai-aggregate_nested body_itself one_chunk [] (pos 1) none stream (codes "m")

abbrev broken_pipe : ℕ → Option Text
broken_pipe i = if leb 1 i then some (codes "broken pipe") else none

stream_to-IsStream_example :
    IsStream body_itself one_chunk broken_pipe
      (codes "m")
      0
      (stream_to body_itself one_chunk broken_pipe (codes "m") 0 none stream)
      (stream_as_openai body_itself one_chunk none stream (codes "m"))
      (parse_nested_sse body_itself one_chunk none stream).1
stream_to-IsStream_example =
    stream_to-IsStream body_itself one_chunk broken_pipe (codes "m") 0 none stream

abbrev ascii_lower : ℕ → ℕ
ascii_lower c = if leb 65 c && leb c 90 then c + 32 else c

classify_kinds_example :
    ((classify ascii_lower 429 (codes "no credit") ≡ hard_credit)
      ↔ OutOfCredit ascii_lower 429 (codes "no credit"))
    × ((classify ascii_lower 429 (codes "no credit") ≡ none_kind)
        ↔ ((429 < 400) × (¬ OutOfCredit ascii_lower 429 (codes "no credit"))))
    × (classify ascii_lower 429 (codes "no credit") ≢ session_dead)
classify_kinds_example = classify_kinds ascii_lower 429 (codes "no credit")

abbrev model : Text → Text → DynamicModel
model key name = record {
  key = key;
  display_name = name;
  enable = true;
  is_reasoning = false;
  is_vl = false;
  max_input_tokens = pos 0;
  price = 0;
}

client_name_form_example :
    (codes " Qwen3.7 - Max " ≢ []
      → let name = client_name ascii_lower (model (codes "k") (codes " Qwen3.7 - Max ")) in
        All IsNameChar name × IsSpaced name × NotDash name × EndsWell name)
    × (codes " Qwen3.7 - Max " ≡ []
        → client_name ascii_lower (model (codes "k") (codes " Qwen3.7 - Max ")) ≡ codes "k")
client_name_form_example =
    client_name_form ascii_lower (model (codes "k") (codes " Qwen3.7 - Max "))

abbrev models : List DynamicModel
models = model (codes "k1") (codes "Max") ∷ model (codes "k2") (codes "max") ∷ []

abbrev said : Text → Message
said s = field (codes "role") (text (codes "user")) (field (codes "content") (text s) end)

abbrev body_draws : BodyDraws
body_draws = record {
  request = codes "r";
  request_set = codes "s";
  session = codes "t";
  business = codes "b";
  now = 7;
}

prompt_of-IsPrompt_example :
    IsPrompt (said (codes "a") ∷ said [] ∷ []) (prompt_of (said (codes "a") ∷ said [] ∷ []))
    × IsNamed
        (build_agent_body body_draws (said (codes "a") ∷ said [] ∷ []) (codes "k") nil [])
        (prompt_of (said (codes "a") ∷ said [] ∷ []))
prompt_of-IsPrompt_example =
    prompt_of-IsPrompt body_draws (said (codes "a") ∷ said [] ∷ []) (codes "k") nil []

-- The text of the user before the empty one is taken.
takes_the_last_text : prompt_of (said (codes "a") ∷ said [] ∷ []) ≡ codes "a"
unfolding prompt_of member user_text text_eq
takes_the_last_text = refl
