-- ===== src/Upstream/Sse/Transparency.antt =====
-- What a client receives adds up to the answer that `AggregateNested` gives.
use qoderwork2api.Common.{
  ◌≡◌, refl, sym, ◌∙◌, ap, inl, inr, Bool, true, false, ◌||◌, Bool-cases, List, [], ◌∷◌, Option,
  none, some, map, All,
}
use qoderwork2api.Common.Int.{ℤ}
use qoderwork2api.Common.Eq.{Text, is_empty}
use qoderwork2api.Upstream.Sse.{
  Chunk, Choice, Delta, Acc, Event, event, done, panicked, Response, start, text_of, add_delta,
  add_choices, add_chunk, add_chunks, drop_empty, normalize_delta, normalize_choice,
  normalize_delta_keys, chunk_events, events, result, parse_nested_sse, aggregate_nested,
  stream_as_openai, respond,
}

text_of-drop_empty : (o : Option Text) → text_of (drop_empty o) ≡ text_of o
text_of-drop_empty none = refl
text_of-drop_empty (some []) = refl
text_of-drop_empty (some (c ∷ s)) = refl

add_delta-normalize_delta :
    (o : Option Delta) (a : Acc) → add_delta (normalize_delta o) a ≡ add_delta o a
unfolding add_delta
add_delta-normalize_delta none a = refl
add_delta-normalize_delta (some d) a =
    rw (text_of-drop_empty d.content, text_of-drop_empty d.reasoning) refl

add_choices-normalize_choice :
    (cs : List (Option Choice)) (a : Acc)
    → add_choices (map normalize_choice cs) a ≡ add_choices cs a
add_choices-normalize_choice [] a = refl
add_choices-normalize_choice (none ∷ cs) a = add_choices-normalize_choice cs a
add_choices-normalize_choice (some c ∷ cs) a =
    rw (add_delta-normalize_delta c.delta _) (add_choices-normalize_choice cs _)

add_chunk-normalize_delta_keys :
    (k : Chunk) (a : Acc) → add_chunk (normalize_delta_keys k) a ≡ add_chunk k a
unfolding add_chunk normalize_delta_keys
add_chunk-normalize_delta_keys k a = add_choices-normalize_choice k.choices _

-- The chunks that a client reads up to the mark of the end; `none` if there is no mark.
abbrev pub push_chunk : Chunk → Option (List Chunk) → Option (List Chunk)
push_chunk k none = none
push_chunk k (some ks) = some (k ∷ ks)

abbrev pub received : List Event → Option (List Chunk)
received [] = none
received (done ∷ es) = some []
received (panicked ∷ es) = none
received (event model k ∷ es) = push_chunk k (received es)

-- The client puts the chunks together as `AggregateNested` does.
abbrev pub put_together : Text → ℤ → Text → Option (List Chunk) → Option Response
put_together fresh_id now model none = none
put_together fresh_id now model (some ks) = some (respond fresh_id now model (add_chunks ks start))

-- A chunk of the stream is nil, since its body is null.
abbrev pub has_nil : List Chunk → Bool
has_nil [] = false
has_nil (k ∷ ks) = k.is_nil || has_nil ks

-- A stream with such a chunk is not received.
abbrev pub unless {ℓ} : {A : Type ℓ} → Bool → Option A → Option A
unless true o = none
unless false o = o

received-chunk_events :
    (model : Text) (k : Chunk) (es : List Event)
    → received (chunk_events model k es)
      ≡ unless k.is_nil (push_chunk (normalize_delta_keys k) (received es))
received-chunk_events model k es = elim (Bool-cases k.is_nil) [
  | inl nil ↦ rw nil refl
  | inr there ↦ rw there refl
]

unless-push_chunk :
    (b c : Bool) (k : Chunk) (o : Option (List Chunk))
    → unless b (push_chunk k (unless c o)) ≡ unless (b || c) (push_chunk k o)
unless-push_chunk true c k o = refl
unless-push_chunk false true k o = refl
unless-push_chunk false false k o = refl

received-events :
    (model : Text) (ks : List Chunk)
    → received (events model (ks, none)) ≡ unless (has_nil ks) (some (map normalize_delta_keys ks))
received-events model [] = refl
received-events model (k ∷ ks) =
    received-chunk_events model k (events model (ks, none))
    ∙ rw (received-events model ks) (
        unless-push_chunk k.is_nil (has_nil ks) (normalize_delta_keys k)
          (some (map normalize_delta_keys ks)))

unless-none {ℓ} : {A : Type ℓ} (b : Bool) → ◌≡◌ {A = Option A} (unless b none) none
unless-none true = refl
unless-none false = refl

received-events_broken :
    (model : Text) (ks : List Chunk) (error : Text)
    → received (events model (ks, some error)) ≡ none
received-events_broken model [] error = refl
received-events_broken model (k ∷ ks) error =
    received-chunk_events model k (events model (ks, some error))
    ∙ rw (received-events_broken model ks error) (unless-none k.is_nil)

add_chunks-normalize_delta_keys :
    (ks : List Chunk) (a : Acc) → add_chunks (map normalize_delta_keys ks) a ≡ add_chunks ks a
unfolding add_chunks
add_chunks-normalize_delta_keys [] a = refl
add_chunks-normalize_delta_keys (k ∷ ks) a =
    ap (add_chunks (map normalize_delta_keys ks)) (add_chunk-normalize_delta_keys k a)
    ∙ add_chunks-normalize_delta_keys ks (add_chunk k a)

put_together-events :
    (fresh_id : Text) (now : ℤ) (model : Text) (r : List Chunk × Option Text)
    → put_together fresh_id now model (received (events model r))
      ≡ unless (has_nil r.0) (result fresh_id now model r)
put_together-events fresh_id now model (ks, none) = elim (Bool-cases (has_nil ks)) [
  | inl nil ↦ rw (received-events model ks, nil) refl
  | inr there ↦ rw (received-events model ks, there, add_chunks-normalize_delta_keys ks start) refl
]
put_together-events fresh_id now model (ks, some error) =
    rw (received-events_broken model ks error) (sym (unless-none (has_nil ks)))

-- A content key of a delta that is there is not empty.
abbrev pub IsFilled : Option Text → Type 0
IsFilled none = Unit
IsFilled (some s) = is_empty s ≡ false

abbrev pub IsCleanDelta : Option Delta → Type 0
IsCleanDelta none = Unit
IsCleanDelta (some d) = IsFilled d.content × IsFilled d.reasoning

abbrev pub IsCleanChoice : Option Choice → Type 0
IsCleanChoice none = Unit
IsCleanChoice (some c) = IsCleanDelta c.delta

abbrev pub IsCleanEvent : Event → Type 0
IsCleanEvent (event model k) = All IsCleanChoice k.choices
IsCleanEvent done = Unit
IsCleanEvent panicked = Unit

drop_empty-IsFilled : (o : Option Text) → IsFilled (drop_empty o)
drop_empty-IsFilled none = tt
drop_empty-IsFilled (some []) = tt
drop_empty-IsFilled (some (c ∷ s)) = refl

normalize_delta-IsCleanDelta : (o : Option Delta) → IsCleanDelta (normalize_delta o)
normalize_delta-IsCleanDelta none = tt
normalize_delta-IsCleanDelta (some d) =
    (drop_empty-IsFilled d.content, drop_empty-IsFilled d.reasoning)

normalize_choice-IsCleanChoice :
    (cs : List (Option Choice)) → All IsCleanChoice (map normalize_choice cs)
normalize_choice-IsCleanChoice [] = tt
normalize_choice-IsCleanChoice (none ∷ cs) = (tt, normalize_choice-IsCleanChoice cs)
normalize_choice-IsCleanChoice (some c ∷ cs) =
    (normalize_delta-IsCleanDelta c.delta, normalize_choice-IsCleanChoice cs)

events-IsCleanEvent :
    (model : Text) (ks : List Chunk) (error : Option Text)
    → All IsCleanEvent (events model (ks, error))
unfolding normalize_delta_keys
events-IsCleanEvent model [] none = (tt, tt)
events-IsCleanEvent model [] (some error) = tt
events-IsCleanEvent model (k ∷ ks) error = elim (Bool-cases k.is_nil) [
  | inl nil ↦ rw nil (tt, tt)
  | inr there ↦
      rw there (normalize_choice-IsCleanChoice k.choices, events-IsCleanEvent model ks error)
]

-- For every stream of the service in which no body is null, what the client receives adds up to the
-- answer that is given without streaming: where that is an error, the mark of the end is missing.
-- Where a body is null the mark is missing as well, though the answer without streaming may be
-- whole. And no delta that the client receives has an empty content or an empty reasoning.
pub stream_as_openai-aggregate_nested :
    (body_of : Text → Option Text) (chunk_of : Text → Option Chunk) (fresh_id : Text) (now : ℤ)
    (ends : Option Text) (lines : List Text) (model : Text)
    → (put_together fresh_id now model
          (received (stream_as_openai body_of chunk_of ends lines model))
        ≡ unless
            (has_nil (parse_nested_sse body_of chunk_of ends lines).0)
            (aggregate_nested body_of chunk_of fresh_id now ends lines model))
      × All IsCleanEvent (stream_as_openai body_of chunk_of ends lines model)
unfolding stream_as_openai aggregate_nested
stream_as_openai-aggregate_nested body_of chunk_of fresh_id now ends lines model =
    let read = parse_nested_sse body_of chunk_of ends lines in
    (put_together-events fresh_id now model read, events-IsCleanEvent model read.0 read.1)
