-- ===== src/Server/Chat.antt =====
-- The loop of `chatCompletions` of internal/server/handler.go with `ChatForward` of
-- internal/upstream/chat.go: the rotation over the accounts of a pool.
pub mod Shape
pub mod Rotation
pub mod Punish
pub mod Liveness
mod Tests
use qoderwork2api.Common.{
  ℕ, zero, suc, ◌+◌, ◌*◌, Bool, true, false, ◌&&◌, ◌||◌, not, List, [], ◌∷◌, ◌++◌, Option, none,
  some, if◌then◌else◌, nat_eq, leb, ltb,
}
use qoderwork2api.Common.Int.{ℤ, pos, pos_part, leb_ℤ}
use qoderwork2api.Common.Eq.{Text, codes, text_instance, ◌==◌, is_empty}
use qoderwork2api.Common.Dict.{Dict, lookup}
use qoderwork2api.Cred.{Cred}
use qoderwork2api.Cred.Refresh.{Reply, EnsureError, ensure_dt, message, is_auth_invalid}
use qoderwork2api.Cred.Fingerprint.{Draws, ensure_machine_fingerprint}
use qoderwork2api.Pool.{
  Pool, Env, hard, soft, errors, pick, pick_excluding, cooldown, disable, note_error, note_success,
  change_cred,
}
use qoderwork2api.Pool.Shape.{Call, run}
use qoderwork2api.Upstream.Classify.{
  ErrKind, none_kind, hard_credit, soft_rate, token_expired, session_dead, not_found, server,
  client, UpstreamError, error_string, classify,
}

-- The settings of the rotation; durations are in nanoseconds.
pub record Config : Type 0 where
  pub max_rotate : ℤ
  pub hard_cooldown : ℤ
  pub soft_cooldown : ℤ
  pub err_threshold : ℤ
  pub err_cooldown : ℤ

abbrev seconds : ℕ → ℤ
seconds n = pos (n * 1_000_000_000)

abbrev or_default : ℤ → ℤ → ℤ
or_default d x = if leb_ℤ x (pos 0) then d else x

-- The settings that `NewHandler` leaves in place.
unfoldable pub new_handler : Config → Config
new_handler cfg = record {
  max_rotate = or_default (pos 3) cfg.max_rotate;
  hard_cooldown = or_default (seconds (12 * 3600)) cfg.hard_cooldown;
  soft_cooldown = or_default (seconds 60) cfg.soft_cooldown;
  err_threshold = or_default (pos 3) cfg.err_threshold;
  err_cooldown = or_default (seconds (10 * 60)) cfg.err_cooldown;
}

-- How often the loop `i < MaxRotate` runs.
abbrev pub rotations : Config → ℕ
rotations cfg = pos_part cfg.max_rotate

-- What the network does with the request: an error before there is a response, or a status and the
-- body that was read, cut to a text for the message by `truncate`.
pub data Wire : Type 0 where
  broken : Text → Wire
  response : ℕ → Text → Wire

-- `ChatForward` returns the stream, an *Error, or another error.
pub data Forward : Type 0 where
  streams : Text → Forward
  upstream_error : UpstreamError → Forward
  other_error : Text → Forward

pub has_fingerprint : Cred → Bool
has_fingerprint c =
    not (is_empty c.machine_id || is_empty c.machine_token || is_empty c.machine_type)

-- `lower` is unicode.ToLower, and `cut` the first 300 bytes of a body.
module _ (lower : ℕ → ℕ) (cut : Text → Text) where
  pub chat_forward : Cred → Wire → Forward
  unfolding has_fingerprint
  chat_forward c wire =
      if is_empty c.dt
      then upstream_error
          (record { kind = token_expired; status = 0; msg = codes "no dt- available" })
      else if not (has_fingerprint c)
      then other_error
          (codes "cosy session: missing machine fingerprint (need MachineID/Token/Type)")
      else elim wire [
        | broken text ↦ other_error text
        | response status body ↦
            if leb 400 status
            then upstream_error
                (record { kind = classify lower status body; status = status; msg = cut body })
            else streams body
      ]

-- What one round of the rotation meets: the clock at the choice, around the refresh, and at the
-- change of the pool, the answers of the servers to the account that asks, by its uid, and the
-- bytes drawn.
pub record Round : Type 0 where
  pub at_pick : Env
  pub ensure_now : ℕ
  pub ensure_later : ℕ
  pub refresh : Text → Reply
  pub draws : Draws
  pub wire : Text → Wire
  pub at_end : Env

-- What the switch over the kind of an error does to the pool.
pub punish : Config → Env → Text → ErrKind → Pool → Pool
punish cfg env uid hard_credit p = cooldown env uid hard cfg.hard_cooldown (codes "余额不足") p
punish cfg env uid soft_rate p = cooldown env uid soft cfg.soft_cooldown (codes "429 rate limit") p
punish cfg env uid token_expired p =
    note_error env uid cfg.err_threshold cfg.err_cooldown
      (change_cred uid (λ c. record c { dt_expires_at = pos 0 }) p)
punish cfg env uid session_dead p = disable env uid (codes "session dead") p
punish cfg env uid not_found p = cooldown env uid soft cfg.soft_cooldown (codes "upstream 404") p
punish cfg env uid server p = note_error env uid cfg.err_threshold cfg.err_cooldown p
punish cfg env uid client p = note_error env uid cfg.err_threshold cfg.err_cooldown p
punish cfg env uid none_kind p = note_error env uid cfg.err_threshold cfg.err_cooldown p

-- The branch for a failed `EnsureDT`.
unfoldable pub punish_ensure : Config → Env → Text → EnsureError → Pool → Pool
punish_ensure cfg env uid e p =
    if is_auth_invalid e
    then disable env uid (codes "auth invalid (re-login required)") p
    else cooldown env uid errors cfg.err_cooldown (codes "dt ensure: " ++ message e) p

-- A round ends with a stream of the account, or with the text of an error.
pub data Attempt : Type 0 where
  served : Text → Attempt
  failed : Text → Attempt

-- What the loop leaves: the pool, the uids in the map `tried`, the last of them first, the accounts
-- that the rounds asked, in their order, which the code does not record, and the answer, a stream of
-- an account or the text of the last error.
pub data Answer : Type 0 where
  streamed : Text → Text → Answer
  unavailable : Option Text → Answer

pub record Outcome : Type 0 where
  pub pool : Pool
  pub tried : List Text
  pub asked : List Text
  pub answer : Answer

-- A round asked this account before the rest of the loop.
abbrev pub asks : Text → Outcome → Outcome
asks uid o = record o { asked = uid ∷ o.asked }

module _ (parse_time : Text → Option ℤ) (lower : ℕ → ℕ) (cut : Text → Text) (cfg : Config) where
  abbrev pub after_forward : Env → Text → Forward → Pool → Pool × Attempt
  after_forward env uid (streams body) p = (note_success uid p, served body)
  after_forward env uid (upstream_error e) p =
      (punish cfg env uid e.kind p, failed (error_string e))
  after_forward env uid (other_error text) p =
      (note_error env uid cfg.err_threshold cfg.err_cooldown p, failed text)

  abbrev pub after_ensure : Round → Text → Cred × Option EnsureError → Pool → Pool × Attempt
  after_ensure r uid (c, some e) p =
      (punish_ensure cfg r.at_end uid e (change_cred uid (λ old. c) p), failed (message e))
  after_ensure r uid (c, none) p =
      let c' = ensure_machine_fingerprint r.draws c in
      after_forward r.at_end uid (chat_forward lower cut c' (r.wire uid))
        (change_cred uid (λ old. c') p)

  -- The body of the loop for the account that was chosen.
  unfoldable pub try_account : Round → Cred → Pool → Pool × Attempt
  unfolding chat_forward
  try_account r acct p =
      after_ensure r acct.uid
        (ensure_dt parse_time r.ensure_now r.ensure_later (r.refresh acct.uid) acct) p

  -- The rounds that are left, the number of this round, the uids tried, and the last error. What
  -- the other requests and the scheduler do to the pool before a round is `others`.
  module _ (rounds : ℕ → Round) (others : ℕ → List (Env × Call)) where
    unfoldable pub rotate : ℕ → ℕ → List Text → Option Text → Pool → Outcome
    unfolding try_account
    rotate zero i tried last p = record {
      pool = p;
      tried = tried;
      asked = [];
      answer = unavailable last;
    }
    rotate (suc n) i tried last p =
        let p' = run p (others i) in
        elim (pick_excluding (rounds i).at_pick tried p') [
          | none ↦ record { pool = p'; tried = tried; asked = []; answer = unavailable last }
          | some acct ↦
              let (q, attempt) = try_account (rounds i) acct p' in
              let again = acct.uid ∷ tried in
              elim attempt [
                | served body ↦ record {
                  pool = q;
                  tried = again;
                  asked = acct.uid ∷ [];
                  answer = streamed acct.uid body;
                }
                | failed text ↦ asks acct.uid (rotate n (suc i) again (some text) q)
              ]
        ]
