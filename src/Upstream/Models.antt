-- ===== src/Upstream/Models.antt =====
-- internal/upstream/models.go: the models of the gateway and their names for clients.
pub mod Names
pub mod Resolve
use qoderwork2api.Common.{
  ℕ, ◌≡◌, Bool, true, false, ◌&&◌, ◌||◌, not, List, [], ◌∷◌, ◌++◌, Option, none, some,
  if◌then◌else◌, nat_eq, leb, map,
}
use qoderwork2api.Common.Int.{ℤ}
use qoderwork2api.Common.Eq.{Text, codes, text_instance, is_empty}
use qoderwork2api.Common.Dict.{Dict, insert}
use qoderwork2api.Common.Strings.{trim_space, trim_left, trim_right}

-- `price` is the bit pattern of the float64, which the program only passes on.
pub record DynamicModel : Type 0 where
  pub key : Text
  pub display_name : Text
  pub enable : Bool
  pub is_reasoning : Bool
  pub is_vl : Bool
  pub max_input_tokens : ℤ
  pub price : ℕ

abbrev pub dash : ℕ
dash = b'-'

-- The characters that a name keeps as they are.
pub is_plain : ℕ → Bool
is_plain r = (leb b'a' r && leb r b'z') || (leb b'0' r && leb r b'9') || nat_eq r b'.'

pub is_separator : ℕ → Bool
is_separator r = nat_eq r b' ' || nat_eq r b'_' || nat_eq r b'-'

-- The loop over the runes. `out` is the text of the builder backwards, so that its emptiness is
-- read off and the last rune is at hand.
pub name_loop : Bool → Text → Text → Text
unfolding is_plain is_separator
name_loop prev_dash out [] = out
name_loop prev_dash out (r ∷ s) =
    let kept = name_loop false (r ∷ out) s in
    let dashed = name_loop true (dash ∷ out) s in
    let skipped = name_loop prev_dash out s in
    if is_plain r
    then kept
    else if is_separator r
    then (if not prev_dash && not (is_empty out) then dashed else skipped)
    else kept

pub reverse_onto : Text → Text → Text
reverse_onto [] out = out
reverse_onto (c ∷ s) out = reverse_onto s (c ∷ out)

abbrev is_dash : ℕ → Bool
is_dash c = nat_eq c dash

-- `strings.Trim(s, "-")`
pub trim_dashes : Text → Text
unfolding trim_left trim_right
trim_dashes s = trim_right is_dash (trim_left is_dash s)

-- `lower` is unicode.ToLower.
module _ (lower : ℕ → ℕ) where
  pub normalize_model_name : Text → Text
  unfolding name_loop reverse_onto trim_dashes trim_space
  normalize_model_name s =
      trim_dashes (reverse_onto (name_loop false [] (map lower (trim_space s))) [])

  pub client_name : DynamicModel → Text
  unfolding normalize_model_name
  client_name m = if is_empty m.display_name then m.key else normalize_model_name m.display_name

  pub resolve_loop : List DynamicModel → Dict Text Text → Dict Text Text
  unfolding client_name insert
  resolve_loop [] out = out
  resolve_loop (m ∷ ms) out = resolve_loop ms (insert (client_name m) m.key out)

  unfoldable pub resolve_model_map : List DynamicModel → Dict Text Text
  unfolding resolve_loop
  resolve_model_map ms = resolve_loop ms []

-- The models that `FetchModels` keeps.
pub enabled_models : List DynamicModel → List DynamicModel
enabled_models [] = []
enabled_models (m ∷ ms) =
    let rest = enabled_models ms in if m.enable && not (is_empty m.key) then m ∷ rest else rest

pub data FetchError : Type 0 where
  no_dt session_failed transport bad_status parse_failed no_chat no_models : FetchError

-- What the gateway answers: no response; a status other than 200; a body that is no JSON object,
-- lacks the scene "chat" or has it in another form; the models of that scene.
pub data ModelsReply : Type 0 where
  failed : ModelsReply
  other_status unparsable chat_missing chat_unparsable : ModelsReply
  chat : List DynamicModel → ModelsReply

pub data Fetched : Type 0 where
  fetched : List DynamicModel → Fetched
  failed_by : FetchError → Fetched

abbrev some_models : List DynamicModel → Fetched
some_models [] = failed_by no_models
some_models (m ∷ ms) = fetched (m ∷ ms)

-- `has_fingerprint` says that the signing session can be made.
pub fetch_models : Text → Bool → ModelsReply → Fetched
unfolding enabled_models
fetch_models [] has_fingerprint reply = failed_by no_dt
fetch_models (c ∷ dt) false reply = failed_by session_failed
fetch_models (c ∷ dt) true failed = failed_by transport
fetch_models (c ∷ dt) true other_status = failed_by bad_status
fetch_models (c ∷ dt) true unparsable = failed_by parse_failed
fetch_models (c ∷ dt) true chat_missing = failed_by no_chat
fetch_models (c ∷ dt) true chat_unparsable = failed_by parse_failed
fetch_models (c ∷ dt) true (chat ms) = some_models (enabled_models ms)
