-- ===== src/Upstream/Body.antt =====
-- internal/upstream/body.go: the body of a request to the gateway, as the value that is encoded.
pub mod Prompt
mod Tests
use qoderwork2api.Common.{
  ℕ, Bool, true, false, ◌&&◌, not, List, [], ◌∷◌, Option, none, some, if◌then◌else◌, map, leb,
  length, take,
}
use qoderwork2api.Common.Eq.{Text, codes, text_instance, ◌==◌, is_empty}
use qoderwork2api.Common.Strings.{trim_space}

-- What json.Unmarshal gives for a value of type any; a number is the bits of a float64, or an
-- integer that the program puts there.
mutual
  pub data Json : Type 0 where
    null : Json
    truth : Bool → Json
    number : ℕ → Json
    text : Text → Json
    array : Items → Json
    object : Fields → Json

  pub data Items : Type 0 where
    nil : Items
    cons : Json → Items → Items

  pub data Fields : Type 0 where
    end : Fields
    field : Text → Json → Fields → Fields

-- The value of a key of a map.
unfoldable pub member : Text → Fields → Option Json
member k end = none
member k (field j v fs) = let rest = member k fs in if j == k then some v else rest

-- A message is an object.
abbrev pub Message : Type 0
Message = Fields

pub is_reasoning_model : Text → Bool
is_reasoning_model key = not (is_empty key)

abbrev is_text : Option Json → Text → Bool
is_text (some (text s)) t = s == t
is_text (some null) t = false
is_text (some (truth b)) t = false
is_text (some (number n)) t = false
is_text (some (array xs)) t = false
is_text (some (object fs)) t = false
is_text none t = false

abbrev text_in : Option Json → Text
text_in (some (text s)) = s
text_in (some null) = []
text_in (some (truth b)) = []
text_in (some (number n)) = []
text_in (some (array xs)) = []
text_in (some (object fs)) = []
text_in none = []

-- The text of a message of the user; empty where there is none.
unfoldable pub user_text : Message → Text
unfolding member
user_text m =
    if is_text (member (codes "role") m) (codes "user")
    then text_in (member (codes "content") m)
    else []

abbrev reversed : List Message → List Message → List Message
reversed [] out = out
reversed (m ∷ ms) out = reversed ms (m ∷ out)

-- The loop from the last message to the first.
pub prompt_loop : List Message → Text
prompt_loop [] = []
prompt_loop (m ∷ ms) =
    let earlier = prompt_loop ms in if is_empty (user_text m) then earlier else user_text m

unfoldable pub prompt_of : List Message → Text
unfolding prompt_loop
prompt_of ms = prompt_loop (reversed ms [])

pub truncate_runes : Text → ℕ → Text
truncate_runes s n = if leb (length s) n then s else take n s

abbrev messages_of : List Message → Items
messages_of [] = nil
messages_of (m ∷ ms) = cons (object m) (messages_of ms)

abbrev text_object : Text → Json
text_object s =
    object (field (codes "type") (text (codes "text")) (field (codes "text") (text s) end))

-- The four identifiers, and the time in milliseconds.
pub record BodyDraws : Type 0 where
  pub request : Text
  pub request_set : Text
  pub session : Text
  pub business : Text
  pub now : ℕ

abbrev append_field : Fields → Text → Json → Fields
append_field end k v = field k v end
append_field (field j w fs) k v = field j w (append_field fs k v)

abbrev model_config : Text → Fields
model_config key =
    field (codes "key") (text key)
      (field (codes "is_reasoning") (truth (is_reasoning_model key)) end)

abbrev with_source : Text → Fields → Fields
with_source key fs =
    if is_reasoning_model key then append_field fs (codes "source") (text (codes "system")) else fs

abbrev with_tools : Items → Fields → Fields
with_tools nil fs = fs
with_tools (cons t ts) fs = append_field fs (codes "tools") (array (cons t ts))

abbrev with_effort : Text → Text → Fields → Fields
with_effort key effort fs =
    if is_reasoning_model key && not (is_empty effort)
    then append_field fs (codes "parameters") (
        object (
          field (codes "enable_thinking") (truth true)
            (field (codes "reasoning_effort") (text effort) end)))
    else fs

pub base_fields : BodyDraws → List Message → Text → Text → Fields
unfolding is_reasoning_model truncate_runes
base_fields d messages key prompt = field (codes "request_id") (text d.request) (
    field (codes "chat_record_id") (text d.request) (
      field (codes "request_set_id") (text d.request_set) (
        field (codes "session_id") (text d.session) (
          field (codes "stream") (truth true) (
            field (codes "aliyun_user_type") (text (codes "personal_professional_trial")) (
              field (codes "agent_id") (text (codes "agent_common")) (
                field (codes "chat_task") (text (codes "FREE_INPUT")) (
                  field (codes "is_reply") (truth true) (
                    field (codes "image_urls") null (
                      field (codes "session_type") (text (codes "qodercli")) (
                        field (codes "model_config") (object (with_source key (model_config key))) (
                          field (codes "chat_context") (object context) (
                            field (codes "messages") (array (messages_of messages))
                              (field (codes "business") (object business) end))))))))))))))
  where
    extra : Fields
    extra = field (codes "context") (array nil) (
        field (codes "modelConfig") (object (model_config key))
          (field (codes "originalContent") (text_object prompt) end))

    context : Fields
    context = field (codes "chatPrompt") (text []) (
        field (codes "text") (text_object prompt) (
          field (codes "extra") (object extra)
            (field (codes "features") (array nil) (field (codes "imageUrls") null end))))

    business : Fields
    business = field (codes "id") (text d.business) (
        field (codes "begin_at") (number d.now)
          (field (codes "name") (text (truncate_runes prompt 30)) end))

pub build_agent_body : BodyDraws → List Message → Text → Items → Text → Json
unfolding prompt_of base_fields
build_agent_body d messages key tools effort =
    object
      (with_effort key effort (with_tools tools (base_fields d messages key (prompt_of messages))))

-- `lower` is unicode.ToLower.
pub normalize_reasoning_effort : (ℕ → ℕ) → Text → Text
unfolding trim_space
normalize_reasoning_effort lower s =
    let e = map lower (trim_space s) in
    if e == codes "low"
    then codes "low"
    else if e == codes "medium"
    then codes "medium"
    else if e == codes "xhigh"
    then codes "xhigh"
    else []
