-- ===== src/Upstream/Sse.antt =====
-- internal/upstream/sse.go: the stream of an answer, passed on or put together. A chunk is given
-- by what the type assertions of the code read of it: `none` where a key is missing or its value
-- has another type.
pub mod SortInts
pub mod Transparency
pub mod Writer
use qoderwork2api.Common.{
  ℕ, zero, suc, ◌≡◌, Bool, true, false, ◌&&◌, ◌||◌, not, List, [], ◌∷◌, ◌++◌, Option, none, some,
  if◌then◌else◌, nat_eq, map, length,
}
use qoderwork2api.Common.Int.{ℤ, pos, ltb_ℤ}
use qoderwork2api.Common.Eq.{Text, codes, text_instance, int_instance, ◌==◌, is_empty}
use qoderwork2api.Common.Dict.{Dict, lookup, insert, modify}
use qoderwork2api.Common.Strings.{has_prefix, trim_prefix, trim_right}
use SortInts.{sort_ints}

-- A fragment of a tool call, and what has been put together of one.
pub record FunctionPart : Type 0 where
  pub name : Option Text
  pub arguments : Option Text

pub record CallDelta : Type 0 where
  pub index : Option ℤ
  pub id : Option Text
  pub type : Option Text
  pub function : Option FunctionPart

pub record Merged : Type 0 where
  pub index : ℤ
  pub id : Option Text
  pub type : Option Text
  pub function : Option FunctionPart

-- In `tool_calls`, an element that is no object is `none`; so are a list that is none and an
-- empty one the same.
pub record Delta : Type 0 where
  pub role : Option Text
  pub content : Option Text
  pub reasoning : Option Text
  pub tool_calls : List (Option CallDelta)

pub record Choice : Type 0 where
  pub finish_reason : Option Text
  pub delta : Option Delta

-- `created` is a whole number; `usage` is passed on as it is. `is_nil` is the nil map that the body
-- `null` is decoded to.
pub record Chunk : Type 0 where
  pub is_nil : Bool
  pub id : Option Text
  pub created : Option ℤ
  pub usage : Option Text
  pub choices : List (Option Choice)

-- A value that is a text and not empty replaces the old one.
abbrev pub replace : Option Text → Option Text → Option Text
replace none old = old
replace (some []) old = old
replace (some (c ∷ s)) old = some (c ∷ s)

abbrev pub text_of : Option Text → Text
text_of none = []
text_of (some s) = s

abbrev pub extend : Option Text → Option Text → Option Text
extend none old = old
extend (some []) old = old
extend (some (c ∷ s)) old = some (text_of old ++ c ∷ s)

abbrev pub function_of : Option FunctionPart → FunctionPart
function_of none = record { name = none; arguments = none }
function_of (some f) = f

abbrev merge_function : Option FunctionPart → Option FunctionPart → Option FunctionPart
merge_function none old = old
merge_function (some d) old =
    let f = function_of old in
    some (record { name = replace d.name f.name; arguments = extend d.arguments f.arguments })

pub merge_tool_call_delta : Merged → CallDelta → Merged
merge_tool_call_delta m d = record m {
  id = replace d.id m.id;
  type = replace d.type m.type;
  function = merge_function d.function m.function;
}

-- The variables of `AggregateNested`.
pub record Acc : Type 0 where
  pub id : Text
  pub created : ℤ
  pub content : Text
  pub reasoning : Text
  pub role : Text
  pub finish_reason : Text
  pub usage : Option Text
  pub tool_calls : Dict ℤ Merged
  pub tool_order : List ℤ

abbrev pub start : Acc
start = record {
  id = [];
  created = pos 0;
  content = [];
  reasoning = [];
  role = codes "assistant";
  finish_reason = codes "stop";
  usage = none;
  tool_calls = [];
  tool_order = [];
}

abbrev index_of : Option ℤ → ℤ
index_of none = pos 0
index_of (some i) = i

abbrev new_call : ℤ → Merged
new_call i = record { index = i; id = none; type = none; function = none }

pub add_call : CallDelta → Acc → Acc
unfolding merge_tool_call_delta lookup insert modify
add_call d a =
    let i = index_of d.index in
    elim (lookup i a.tool_calls) [
      | some m ↦ record a { tool_calls = modify i (λ m'. merge_tool_call_delta m' d) a.tool_calls }
      | none ↦ record a {
        tool_calls = insert i (merge_tool_call_delta (new_call i) d) a.tool_calls;
        tool_order = a.tool_order ++ i ∷ [];
      }
    ]

abbrev pub add_calls : List (Option CallDelta) → Acc → Acc
add_calls [] a = a
add_calls (none ∷ ds) a = add_calls ds a
add_calls (some d ∷ ds) a = add_calls ds (add_call d a)

pub add_delta : Option Delta → Acc → Acc
unfolding add_call
add_delta none a = a
add_delta (some d) a = add_calls d.tool_calls (record a {
  role = text_of (replace d.role (some a.role));
  content = a.content ++ text_of d.content;
  reasoning = a.reasoning ++ text_of d.reasoning;
})

abbrev pub add_choices : List (Option Choice) → Acc → Acc
add_choices [] a = a
add_choices (none ∷ cs) a = add_choices cs a
add_choices (some c ∷ cs) a = add_choices cs (
    add_delta c.delta
      (record a { finish_reason = text_of (replace c.finish_reason (some a.finish_reason)) }))

abbrev first_text : Text → Option Text → Text
first_text [] new = text_of new
first_text (c ∷ s) new = c ∷ s

abbrev first_number : ℤ → Option ℤ → ℤ
first_number old none = old
first_number old (some n) = if old == pos 0 then n else old

abbrev last_some : Option Text → Option Text → Option Text
last_some old none = old
last_some old (some u) = some u

pub add_chunk : Chunk → Acc → Acc
unfolding add_delta
add_chunk k a = add_choices k.choices (record a {
  id = first_text a.id k.id;
  created = first_number a.created k.created;
  usage = last_some a.usage k.usage;
})

pub add_chunks : List Chunk → Acc → Acc
unfolding add_chunk
add_chunks [] a = a
add_chunks (k ∷ ks) a = add_chunks ks (add_chunk k a)

-- The answer that is put together; `none` where the key is left out.
pub record Response : Type 0 where
  pub id : Text
  pub created : ℤ
  pub model : Text
  pub role : Text
  pub content : Text
  pub reasoning : Option Text
  pub tool_calls : List (Option Merged)
  pub finish_reason : Text
  pub usage : Option Text

-- `fresh_id` and `now` come from the clock.
pub respond : Text → ℤ → Text → Acc → Response
unfolding sort_ints lookup
respond fresh_id now model a = record {
  id = first_text a.id (some fresh_id);
  created = if a.created == pos 0 then now else a.created;
  model = model;
  role = a.role;
  content = a.content;
  reasoning = if is_empty a.reasoning then none else some a.reasoning;
  tool_calls = map (λ i. lookup i a.tool_calls) (sort_ints a.tool_order);
  finish_reason = a.finish_reason;
  usage = a.usage;
}

abbrev data_prefix : Text
data_prefix = codes "data:"

abbrev done_body : Text
done_body = codes "[DONE]"

abbrev is_line_end : ℕ → Bool
is_line_end c = nat_eq c 10 || nat_eq c 13

-- `body_of` decodes the field body of an envelope, and `chunk_of` a chunk.
module _ (body_of : Text → Option Text) (chunk_of : Text → Option Chunk) where
  -- What a line leads to.
  pub data Line : Type 0 where
    ignored : Line
    finished : Line
    carries : Chunk → Line

  abbrev line_of_chunk : Option Chunk → Line
  line_of_chunk none = ignored
  line_of_chunk (some k) = carries k

  abbrev line_of_body : Option Text → Line
  line_of_body none = ignored
  line_of_body (some body) =
      if is_empty body
      then ignored
      else if body == done_body
      then finished
      else line_of_chunk (chunk_of body)

  pub read_line : Text → Line
  unfolding has_prefix trim_prefix trim_right
  read_line raw =
      let line = trim_right is_line_end raw in
      if has_prefix line data_prefix
      then line_of_body (body_of (trim_prefix line data_prefix))
      else ignored

  -- The chunks of a stream, and the error of the reader that ends it, if there is one.
  pub parse_nested_sse : Option Text → List Text → List Chunk × Option Text
  unfolding read_line
  parse_nested_sse ends [] = ([], ends)
  parse_nested_sse ends (raw ∷ lines) =
      let (chunks, error) = parse_nested_sse ends lines in
      elim (read_line raw) [
        | ignored ↦ (chunks, error)
        | finished ↦ ([], none)
        | carries k ↦ (k ∷ chunks, error)
      ]

abbrev pub result : Text → ℤ → Text → List Chunk × Option Text → Option Response
result fresh_id now model (chunks, none) =
    some (respond fresh_id now model (add_chunks chunks start))
result fresh_id now model (chunks, some error) = none

-- `none` is the error of the reader.
pub aggregate_nested :
    (Text → Option Text)
    → (Text → Option Chunk)
    → Text
    → ℤ
    → Option Text
    → List Text
    → Text
    → Option Response
unfolding parse_nested_sse respond add_chunks
aggregate_nested body_of chunk_of fresh_id now ends lines model =
    result fresh_id now model (parse_nested_sse body_of chunk_of ends lines)

-- An empty text is taken out.
abbrev pub drop_empty : Option Text → Option Text
drop_empty none = none
drop_empty (some []) = none
drop_empty (some (c ∷ s)) = some (c ∷ s)

abbrev pub normalize_delta : Option Delta → Option Delta
normalize_delta none = none
normalize_delta (some d) =
    some (record d { content = drop_empty d.content; reasoning = drop_empty d.reasoning })

abbrev pub normalize_choice : Option Choice → Option Choice
normalize_choice none = none
normalize_choice (some c) = some (record c { delta = normalize_delta c.delta })

pub normalize_delta_keys : Chunk → Chunk
normalize_delta_keys k = record k { choices = map normalize_choice k.choices }

-- What the client receives: chunks with the name of its model, and the mark of the end; `panicked`
-- is the end of the connection when the handler panics, since it writes to a nil map.
pub data Event : Type 0 where
  event : Text → Chunk → Event
  done : Event
  panicked : Event

abbrev finish_events : Option Text → List Event
finish_events none = done ∷ []
finish_events (some error) = []

-- The callback for one chunk, and what follows it.
abbrev pub chunk_events : Text → Chunk → List Event → List Event
chunk_events model k rest =
    if k.is_nil then panicked ∷ [] else event model (normalize_delta_keys k) ∷ rest

abbrev pub events : Text → List Chunk × Option Text → List Event
events model ([], error) = finish_events error
events model (k ∷ chunks, error) = chunk_events model k (events model (chunks, error))

-- `StreamAsOpenAI` to a client that takes everything.
pub stream_as_openai :
    (Text → Option Text) → (Text → Option Chunk) → Option Text → List Text → Text → List Event
unfolding parse_nested_sse normalize_delta_keys
stream_as_openai body_of chunk_of ends lines model =
    events model (parse_nested_sse body_of chunk_of ends lines)
