-- ===== src/Upstream/Body/Prompt.antt =====
-- The prompt of a request, and its name.
use qoderwork2api.Common.{
  subst, ℕ, ◌≤◌, ap, ◌≡◌, refl, sym, ◌∙◌, inl, inr, true, false, not, ◌&&◌, List, [], ◌∷◌, ◌++◌,
  Option, none, some, arith, append_assoc, append-nil, Bool-cases, length, length-take, leb, drop,
  take-append-drop, All, ◌⊎◌,
}
use qoderwork2api.Common.Eq.{Text, codes, text_instance, text_eq, is_empty}
use qoderwork2api.Upstream.Body.{
  Json, null, truth, number, text, array, object, Items, nil, cons, Fields, end, field, member,
  Message, is_text, text_in, user_text, reversed, prompt_loop, prompt_of, truncate_runes,
  append_field, with_tools, with_effort, is_reasoning_model, BodyDraws, base_fields,
  build_agent_body,
}

-- A message of the user with this text, which is not empty.
abbrev pub Says : Message → Text → Type 0
Says m s =
    (member (codes "role") m ≡ some (text (codes "user")))
    × (member (codes "content") m ≡ some (text s))
    × (is_empty s ≡ false)

-- No message of the list is one of the user with a text.
abbrev pub Silent : List Message → Type 0
Silent ms = All (λ m. (s : Text) → ¬ Says m s) ms

-- The prompt is the text of the last message of the user that has one, or empty if none has.
abbrev pub IsPrompt : List Message → Text → Type 0
IsPrompt ms prompt =
    (Silent ms × (prompt ≡ []))
    ⊎ ((before : List Message) × (m : Message) × (after : List Message) × (ms ≡ before ++ m ∷ after)
        × Silent after
        × Says m prompt)

is_text-eq : (o : Option Json) (t : Text) → is_text o t ≡ true → o ≡ some (text t)
is_text-eq (some (text s)) t h = ground (arith, text_instance.agrees_iff s t, h)
is_text-eq (some null) t h = cc
is_text-eq (some (truth b)) t h = cc
is_text-eq (some (number n)) t h = cc
is_text-eq (some (array xs)) t h = cc
is_text-eq (some (object fs)) t h = cc
is_text-eq none t h = cc

text_in-eq : (o : Option Json) → is_empty (text_in o) ≡ false → o ≡ some (text (text_in o))
text_in-eq (some (text s)) h = refl
text_in-eq (some null) h = cc
text_in-eq (some (truth b)) h = cc
text_in-eq (some (number n)) h = cc
text_in-eq (some (array xs)) h = cc
text_in-eq (some (object fs)) h = cc
text_in-eq none h = cc

user_text-Says : (m : Message) → is_empty (user_text m) ≡ false → Says m (user_text m)
unfolding user_text
user_text-Says m h = elim (Bool-cases (is_text (member (codes "role") m) (codes "user"))) [
  | inl e ↦
      let full : is_empty (text_in (member (codes "content") m)) ≡ false = ground (arith, h, e) in
      rw e (
        is_text-eq (member (codes "role") m) (codes "user") e,
        text_in-eq (member (codes "content") m) full,
        full,
      )
  | inr e ↦ absurd (ground (arith, h, e))
]

Says-user_text : (m : Message) (s : Text) → Says m s → user_text m ≡ s
unfolding user_text
Says-user_text m s (role, content, full) =
    rw (role, content, (text_instance.agrees_iff (codes "user") (codes "user")).1 refl) refl

silent_one : (m : Message) → user_text m ≡ [] → (s : Text) → ¬ Says m s
silent_one m quiet s says =
    let same : s ≡ [] = sym (Says-user_text m s says) ∙ quiet in
    cc (ap (λ (t : Text). is_empty t) same, says.2)

empty_nil : (s : Text) → is_empty s ≡ true → s ≡ []
empty_nil [] h = refl
empty_nil (c ∷ s) h = cc

-- The loop over the reversed list `ms`, when `out` has been gone through in vain.
prompt_loop-IsPrompt :
    (ms out : List Message) → Silent out → IsPrompt (reversed ms out) (prompt_loop ms)
unfolding prompt_loop
prompt_loop-IsPrompt [] out silent = inl (silent, refl)
prompt_loop-IsPrompt (m ∷ ms) out silent = elim (Bool-cases (is_empty (user_text m))) [
  | inl e ↦
      rw (e, prompt_loop)
        (prompt_loop-IsPrompt ms (m ∷ out) (silent_one m (empty_nil (user_text m) e), silent))
  | inr e ↦
      rw (e, prompt_loop)
        (inr (reversed ms [], m, out, reversed_onto ms (m ∷ out), silent, user_text-Says m e))
]
  where
    reversed_onto : (xs ys : List Message) → reversed xs ys ≡ reversed xs [] ++ ys
    reversed_onto [] ys = refl
    reversed_onto (x ∷ xs) ys =
        reversed_onto xs (x ∷ ys)
        ∙ sym (append_assoc (reversed xs []) (x ∷ []) ys)
        ∙ ap (λ (l : List Message). l ++ ys) (sym (reversed_onto xs (x ∷ [])))

reversed_twice : (ms out : List Message) → reversed (reversed ms out) [] ≡ reversed out ms
reversed_twice [] out = refl
reversed_twice (m ∷ ms) out = reversed_twice ms (m ∷ out)

at_reversed : (ms : List Message) → IsPrompt ms (prompt_loop (reversed ms []))
at_reversed ms =
    subst (λ (l : List Message). IsPrompt l (prompt_loop (reversed ms []))) (reversed_twice ms [])
      (prompt_loop-IsPrompt (reversed ms []) [] tt)

truncate_runes-length : (s : Text) (n : ℕ) → length (truncate_runes s n) ≤ n
unfolding truncate_runes
truncate_runes-length s n = ground (arith, length-take n s)

truncate_runes-begins : (s : Text) (n : ℕ) → (rest : Text) × (s ≡ truncate_runes s n ++ rest)
unfolding truncate_runes
truncate_runes-begins s n = elim (Bool-cases (leb (length s) n)) [
  | inl e ↦ ([], rw e (sym (append-nil s)))
  | inr e ↦ (drop n s, rw e (sym (take-append-drop n s)))
]

member-append_field :
    (k j : Text) (v w : Json) (fs : Fields)
    → member k fs ≡ some v
    → member k (append_field fs j w) ≡ some v
unfolding member
member-append_field k j v w end h = cc
member-append_field k j v w (field i x fs) h = ground (arith, h, member-append_field k j v w fs)

with_tools-member :
    (k : Text) (v : Json) (tools : Items) (fs : Fields)
    → member k fs ≡ some v
    → member k (with_tools tools fs) ≡ some v
with_tools-member k v nil fs h = h
with_tools-member k v (cons t ts) fs h = member-append_field k (codes "tools") v _ fs h

with_effort-member :
    (k : Text) (v : Json) (key effort : Text) (fs : Fields)
    → member k fs ≡ some v
    → member k (with_effort key effort fs) ≡ some v
with_effort-member k v key effort fs h =
    elim (Bool-cases (is_reasoning_model key && not (is_empty effort))) [
      | inl e ↦ rw e (member-append_field k (codes "parameters") v _ fs h)
      | inr e ↦ rw e h
    ]

-- The body names the request by the beginning of the prompt, of 30 characters at most.
abbrev pub IsNamed : Json → Text → Type 0
IsNamed body prompt =
    (fs business : Fields) × (name rest : Text) × (body ≡ object fs)
    × (member (codes "business") fs ≡ some (object business))
    × (member (codes "name") business ≡ some (text name))
    × (length name ≤ 30)
    × (prompt ≡ name ++ rest)

base_fields-business :
    (d : BodyDraws) (ms : List Message) (key prompt : Text)
    → (business : Fields) × (member (codes "business") (base_fields d ms key prompt)
        ≡ some (object business))
      × (member (codes "name") business ≡ some (text (truncate_runes prompt 30)))
unfolding base_fields member text_eq
base_fields-business d ms key prompt = (_, refl, refl)

-- The prompt of a request is the text of the last message of the user that has one, no message
-- after it being of the user with a text, or empty if no message is. And the body that is built
-- names the request by the beginning of the prompt, of 30 characters at most.
pub prompt_of-IsPrompt :
    (d : BodyDraws) (ms : List Message) (key : Text) (tools : Items) (effort : Text)
    → IsPrompt ms (prompt_of ms) × IsNamed (build_agent_body d ms key tools effort) (prompt_of ms)
unfolding prompt_of build_agent_body
prompt_of-IsPrompt d ms key tools effort =
    let prompt = prompt_of ms in
    let (business, there, named) = base_fields-business d ms key prompt in
    let (rest, begins) = truncate_runes-begins prompt 30 in
    (
      at_reversed ms,
      (
        with_effort key effort (with_tools tools (base_fields d ms key prompt)),
        business,
        truncate_runes prompt 30,
        rest,
        refl,
        with_effort-member (codes "business") (object business) key effort _
            (with_tools-member (codes "business") (object business) tools _ there),
        named,
        truncate_runes-length prompt 30,
        begins,
      ),
    )
