-- ===== src/Upstream/Body/Tests.antt =====
-- The request body at concrete values.
use qoderwork2api.Common.{ℕ, ◌≡◌, refl, true, [], Option, none, some}
use qoderwork2api.Common.Eq.{Text, codes, text_eq}
use qoderwork2api.Upstream.Body.{
  Json, object, text, truth, field, end, nil, member, BodyDraws, build_agent_body, base_fields,
  is_reasoning_model, normalize_reasoning_effort,
}

abbrev draws : BodyDraws
draws = record {
  request = codes "r";
  request_set = codes "s";
  session = codes "t";
  business = codes "b";
  now = 9;
}

abbrev in_object : Text → Json → Option Json
in_object key (object fs) = member key fs
in_object key (text s) = none
in_object key (truth b) = none
in_object key Json.null = none
in_object key (Json.number n) = none
in_object key (Json.array xs) = none

-- The effort is passed on for a model with a key.
passes_the_effort :
    in_object (codes "parameters") (build_agent_body draws [] (codes "qmodel") nil (codes "low"))
    ≡ some (
        object (
          field
            (codes "enable_thinking")
            (truth true)
            (field (codes "reasoning_effort") (text (codes "low")) end)))
unfolding build_agent_body base_fields member is_reasoning_model text_eq
passes_the_effort = refl

abbrev same_letter : ℕ → ℕ
same_letter c = c

trims_the_effort : normalize_reasoning_effort same_letter (codes " low ") ≡ codes "low"
unfolding normalize_reasoning_effort text_eq
trims_the_effort = refl

drops_another_effort : normalize_reasoning_effort same_letter (codes "high") ≡ []
unfolding normalize_reasoning_effort text_eq
drops_another_effort = refl
