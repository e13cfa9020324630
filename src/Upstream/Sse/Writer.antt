-- ===== src/Upstream/Sse/Writer.antt =====
-- StreamAsOpenAI of internal/upstream/sse.go, to a client that may stop reading.
use qoderwork2api.Common.{
  ℕ, suc, ◌≡◌, ◌⊎◌, refl, ap, ◌∙◌, sym, inl, inr, List, [], ◌∷◌, ◌++◌, Option, none, some, arith,
  length, ◌+◌, Option-cases, Bool, In, if◌then◌else◌, true, false,
}
use qoderwork2api.Common.Eq.{Text}
use qoderwork2api.Upstream.Sse.{
  Chunk, Event, event, done, panicked, Line, ignored, finished, carries, read_line,
  parse_nested_sse, normalize_delta_keys, events, stream_as_openai,
}

-- The events that were written whole, and the error that is returned.
abbrev pub Sent : Type 0
Sent = List Event × Option Text

abbrev then_sent : Event → Sent → Sent
then_sent e (es, error) = (e ∷ es, error)

-- `fails` tells with which error a write fails, by its number.
module _ (body_of : Text → Option Text) (chunk_of : Text → Option Chunk) (fails : ℕ → Option Text)
    (model : Text) where
  abbrev write_done : ℕ → Sent
  write_done i = elim (fails i) [ none ↦ (done ∷ [], none) | some e ↦ ([], some e) ]

  abbrev at_end : ℕ → Option Text → Sent
  at_end i none = write_done i
  at_end i (some e) = ([], some e)

  abbrev on_chunk : ℕ → Chunk → Sent → Sent
  on_chunk i k after = elim (fails i) [
    | none ↦ then_sent (event model (normalize_delta_keys k)) after
    | some e ↦ ([], some e)
  ]

  -- A chunk that is nil panics before anything is written; nothing is returned then.
  abbrev on_line : ℕ → Line body_of chunk_of → Sent → Sent → Sent
  on_line i ignored skipped after = skipped
  on_line i finished skipped after = write_done i
  on_line i (carries k) skipped after =
      if k.is_nil then (panicked ∷ [], none) else on_chunk i k after

  -- The loop over the lines of the service, after `i` writes. An error of the reader is `ends`.
  pub stream_to : ℕ → Option Text → List Text → Sent
  unfolding read_line normalize_delta_keys
  stream_to i ends [] = at_end i ends
  stream_to i ends (raw ∷ lines) =
      let skipped = stream_to i ends lines in
      let after = stream_to (suc i) ends lines in
      on_line i (read_line body_of chunk_of raw) skipped after

  -- What a client that stops has received: the beginning of the stream.
  abbrev pub IsPrefix : List Event → List Event → Type 0
  IsPrefix es all = (rest : List Event) × (all ≡ es ++ rest)

  -- All is sent, with the error of the reader, or up to a panic; or the write after those that are
  -- sent failed.
  abbrev pub IsStream : ℕ → Sent → List Event → Option Text → Type 0
  IsStream i sent all read_error =
      ((sent.0 ≡ all) × ((sent.1 ≡ read_error) ⊎ In panicked all))
      ⊎ (IsPrefix sent.0 all
          × (sent.1 ≡ fails (i + length sent.0))
          × (e : Text) × (sent.1 ≡ some e))

  abbrev next : Line body_of chunk_of → List Chunk × Option Text → List Chunk × Option Text
  next l (chunks, error) = elim l [
    | ignored ↦ (chunks, error)
    | finished ↦ ([], none)
    | carries k ↦ (k ∷ chunks, error)
  ]

  abbrev Streams : ℕ → Sent → List Chunk × Option Text → Type 0
  Streams i sent read = IsStream i sent (events model read) read.1

  one_later : (i n : ℕ) → suc i + n ≡ i + suc n
  one_later i n = omega arith

  none_later : (i : ℕ) → i ≡ i + 0
  none_later i = omega arith

  told_first : (i : ℕ) (text : Text) → fails i ≡ some text → some text ≡ fails (i + 0)
  told_first i text e = sym e ∙ ap fails (none_later i)

  write_done-IsStream : (i : ℕ) → Streams i (write_done i) ([], none)
  write_done-IsStream i = elim (Option-cases (fails i)) [
    | inl e ↦ rw (e, write_done) (inl (refl, inl refl))
    | inr (text, e) ↦ rw (e, write_done) (inr ((done ∷ [], refl), told_first i text e, text, refl))
  ]

  then_sent-IsStream :
      (i : ℕ) (k : Chunk) (sent : Sent) (chunks : List Chunk) (error : Option Text)
      → Streams (suc i) sent (chunks, error)
      → IsStream i
          (then_sent (event model (normalize_delta_keys k)) sent)
          (event model (normalize_delta_keys k) ∷ events model (chunks, error))
          error
  then_sent-IsStream i k (es, error') chunks error (inl (same, told)) =
      inl (ap (λ (l : List Event). event model (normalize_delta_keys k) ∷ l) same, later told)
    where
      later :
          (error' ≡ error) ⊎ In panicked (events model (chunks, error))
          → (error' ≡ error)
            ⊎ In panicked (event model (normalize_delta_keys k) ∷ events model (chunks, error))
      later (inl told) = inl told
      later (inr i) = inr (inr i)
  then_sent-IsStream i k (es, error') chunks error (inr ((rest, same), told, text, is)) = inr (
    (rest, ap (λ (l : List Event). event model (normalize_delta_keys k) ∷ l) same),
    told ∙ ap fails (one_later i (length es)),
    text,
    is,
  )

  on_chunk-IsStream :
      (i : ℕ) (k : Chunk) (after : Sent) (chunks : List Chunk) (error : Option Text)
      → Streams (suc i) after (chunks, error)
      → IsStream i
          (on_chunk i k after)
          (event model (normalize_delta_keys k) ∷ events model (chunks, error))
          error
  on_chunk-IsStream i k after chunks error a = elim (Option-cases (fails i)) [
    | inl e ↦ rw (e, on_chunk) (then_sent-IsStream i k after chunks error a)
    | inr (text, e) ↦ rw (e, on_chunk) (inr ((_, refl), told_first i text e, text, refl))
  ]

  panic-IsStream :
      (b : Bool) (i : ℕ) (sent : Sent) (all : List Event) (error : Option Text)
      → IsStream i sent all error
      → IsStream i
          (if b then (panicked ∷ [], none) else sent)
          (if b then panicked ∷ [] else all)
          error
  panic-IsStream true i sent all error s = inl (refl, inr (inl refl))
  panic-IsStream false i sent all error s = s

  on_line-IsStream :
      (i : ℕ) (l : Line body_of chunk_of) (skipped after : Sent) (read : List Chunk × Option Text)
      → Streams i skipped read
      → Streams (suc i) after read
      → Streams i (on_line i l skipped after) (next l read)
  on_line-IsStream i ignored skipped after (chunks, error) s a = s
  on_line-IsStream i finished skipped after (chunks, error) s a = write_done-IsStream i
  on_line-IsStream i (carries k) skipped after (chunks, error) s a =
      panic-IsStream k.is_nil i (on_chunk i k after) _ error
        (on_chunk-IsStream i k after chunks error a)

  at_end-IsStream : (i : ℕ) (ends : Option Text) → Streams i (at_end i ends) ([], ends)
  at_end-IsStream i none = write_done-IsStream i
  at_end-IsStream i (some e) = inl (refl, inl refl)

  pub stream_to-IsStream :
      (i : ℕ) (ends : Option Text) (lines : List Text)
      → IsStream i
          (stream_to i ends lines)
          (stream_as_openai body_of chunk_of ends lines model)
          (parse_nested_sse body_of chunk_of ends lines).1
  unfolding stream_to stream_as_openai parse_nested_sse
  stream_to-IsStream i ends [] = at_end-IsStream i ends
  stream_to-IsStream i ends (raw ∷ lines) =
      on_line-IsStream i (read_line body_of chunk_of raw) _ _
        (parse_nested_sse body_of chunk_of ends lines) (stream_to-IsStream i ends lines)
        (stream_to-IsStream (suc i) ends lines)
