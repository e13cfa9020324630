-- ===== src/Config.antt =====
-- cmd/server/config.go: the settings, by default, from the file and from the environment.
pub mod Validity
mod Tests
use qoderwork2api.Common.{
  ℕ, Bool, true, false, ◌&&◌, not, List, [], ◌∷◌, ◌++◌, Option, none, some, map, if◌then◌else◌,
}
use qoderwork2api.Common.Int.{ℤ, pos, leb_ℤ}
use qoderwork2api.Common.Eq.{Text, codes, text_instance, ◌==◌, is_empty}
use qoderwork2api.Common.Strings.{has_prefix, contains_text}

pub record Config : Type 0 where
  pub listen : Text
  pub api_key : Text
  pub auth_dir : Text
  pub state_file : Text
  pub region : Text
  pub hard_credit : Text
  pub soft_rate : Text
  pub err_thresh : ℤ
  pub err_cooldown : Text
  pub checkin_hours : List ℤ
  pub keepalive_hours : List ℤ
  pub timeout_seconds : ℤ
  pub hard_credit_dur : ℤ
  pub soft_rate_dur : ℤ
  pub err_cooldown_dur : ℤ

abbrev pub default : Config
default = record {
  listen = codes ":7864";
  api_key = [];
  auth_dir = codes "./auths";
  state_file = codes "./data/state.json";
  region = codes "cn";
  hard_credit = codes "12h";
  soft_rate = codes "60s";
  err_thresh = pos 3;
  err_cooldown = codes "10m";
  checkin_hours = pos 9 ∷ pos 21 ∷ [];
  keepalive_hours = pos 0 ∷ pos 12 ∷ [];
  timeout_seconds = pos 180;
  hard_credit_dur = pos 0;
  soft_rate_dur = pos 0;
  err_cooldown_dur = pos 0;
}

pub data ConfigError : Type 0 where
  unread unparsed bad_hard_credit bad_soft_rate bad_err_cooldown bad_region : ConfigError

pub data Loaded : Type 0 where
  loaded : Config → Loaded
  refused : ConfigError → Loaded

-- The file: no path, an error, or what its JSON writes over a configuration.
pub data ConfigFile : Type 0 where
  no_path unreadable unparsable : ConfigFile
  writes : (Config → Config) → ConfigFile

-- A value of the environment, if it is set and not empty.
abbrev pub set_or : Text → Text → Text
set_or [] old = old
set_or (c ∷ v) old = c ∷ v

abbrev number_or : Option ℤ → ℤ → ℤ
number_or none old = old
number_or (some n) old = n

-- `atoi` is strconv.Atoi, `getenv` os.Getenv, `lower` unicode.ToLower, and `parse_duration`
-- time.ParseDuration.
module _ (atoi parse_duration : Text → Option ℤ) (getenv : Text → Text) (lower : ℕ → ℕ) where
  abbrev set_number : Text → ℤ → ℤ
  set_number [] old = old
  set_number (c ∷ v) old = number_or (atoi (c ∷ v)) old

  pub apply_env : Config → Config
  apply_env c = record c {
    listen = set_or (getenv (codes "QW2A_LISTEN")) c.listen;
    api_key = set_or (getenv (codes "QW2A_API_KEY")) c.api_key;
    auth_dir = set_or (getenv (codes "QW2A_AUTH_DIR")) c.auth_dir;
    state_file = set_or (getenv (codes "QW2A_STATE_FILE")) c.state_file;
    hard_credit = set_or (getenv (codes "QW2A_HARD_CREDIT")) c.hard_credit;
    soft_rate = set_or (getenv (codes "QW2A_SOFT_RATE")) c.soft_rate;
    err_thresh = set_number (getenv (codes "QW2A_ERR_THRESHOLD")) c.err_thresh;
    err_cooldown = set_or (getenv (codes "QW2A_ERR_COOLDOWN")) c.err_cooldown;
    timeout_seconds = set_number (getenv (codes "QW2A_TIMEOUT_SECONDS")) c.timeout_seconds;
  }

  -- The part of `normalize` behind the three durations.
  pub normalize_rest : Config → Loaded
  unfolding has_prefix contains_text
  normalize_rest c =
      let region = map lower (if is_empty c.region then codes "cn" else c.region) in
      let listen =
        if not (has_prefix c.listen (codes ":")) && not (contains_text c.listen (codes ":"))
        then b':' ∷ c.listen
        else c.listen in
      if region == codes "cn"
      then loaded (record c {
        err_thresh = if leb_ℤ c.err_thresh (pos 0) then pos 3 else c.err_thresh;
        timeout_seconds = if leb_ℤ c.timeout_seconds (pos 0) then pos 180 else c.timeout_seconds;
        region = region;
        listen = listen;
      })
      else refused bad_region

  pub normalize : Config → Loaded
  unfolding normalize_rest
  normalize c = elim (parse_duration c.hard_credit) [
    | none ↦ refused bad_hard_credit
    | some hard ↦ elim (parse_duration c.soft_rate) [
      | none ↦ refused bad_soft_rate
      | some soft ↦ elim (parse_duration c.err_cooldown) [
        | none ↦ refused bad_err_cooldown
        | some cool ↦
            normalize_rest
              (record c { hard_credit_dur = hard; soft_rate_dur = soft; err_cooldown_dur = cool })
      ]
    ]
  ]

  unfoldable pub load : ConfigFile → Loaded
  unfolding apply_env normalize
  load no_path = normalize (apply_env default)
  load unreadable = refused unread
  load unparsable = refused unparsed
  load (writes over) = normalize (apply_env (over default))
