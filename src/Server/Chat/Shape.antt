-- ===== src/Server/Chat/Shape.antt =====
-- A round of the rotation keeps the pool in shape.
use qoderwork2api.Common.{ℕ, ◌++◌, ◌≡◌, ◌∙◌, Option, none, some, arith}
use qoderwork2api.Common.Int.{ℤ}
use qoderwork2api.Common.Eq.{Text, codes}
use qoderwork2api.Cred.{Cred}
use qoderwork2api.Cred.Refresh.{EnsureError, message}
use qoderwork2api.Cred.Refresh.Outcomes.{ensure_dt-uid}
use qoderwork2api.Cred.Fingerprint.{ensure_machine_fingerprint-uid}
use qoderwork2api.Pool.{Pool, Env, hard, soft, errors}
use qoderwork2api.Pool.Shape.{
  IsWellFormed, step, step-IsWellFormed, change_cred-IsWellFormed, cools, disables, notes, succeeds,
}
use qoderwork2api.Upstream.Classify.{
  ErrKind, none_kind, hard_credit, soft_rate, token_expired, session_dead, not_found, server,
  client,
}
use qoderwork2api.Server.Chat.{
  Config, Forward, streams, upstream_error, other_error, Round, punish, punish_ensure,
  after_forward, after_ensure, try_account,
}

punish-IsWellFormed :
    (cfg : Config) (env : Env) (uid : Text) (kind : ErrKind) (p : Pool)
    → IsWellFormed p
    → IsWellFormed (punish cfg env uid kind p)
unfolding punish step
punish-IsWellFormed cfg env uid hard_credit p w =
    step-IsWellFormed env (cools uid hard cfg.hard_cooldown (codes "余额不足")) p w
punish-IsWellFormed cfg env uid soft_rate p w =
    step-IsWellFormed env (cools uid soft cfg.soft_cooldown (codes "429 rate limit")) p w
punish-IsWellFormed cfg env uid token_expired p w =
    step-IsWellFormed env (notes uid cfg.err_threshold cfg.err_cooldown) _
      (change_cred-IsWellFormed uid _ p (λ c k. k) w)
punish-IsWellFormed cfg env uid session_dead p w =
    step-IsWellFormed env (disables uid (codes "session dead")) p w
punish-IsWellFormed cfg env uid not_found p w =
    step-IsWellFormed env (cools uid soft cfg.soft_cooldown (codes "upstream 404")) p w
punish-IsWellFormed cfg env uid server p w =
    step-IsWellFormed env (notes uid cfg.err_threshold cfg.err_cooldown) p w
punish-IsWellFormed cfg env uid client p w =
    step-IsWellFormed env (notes uid cfg.err_threshold cfg.err_cooldown) p w
punish-IsWellFormed cfg env uid none_kind p w =
    step-IsWellFormed env (notes uid cfg.err_threshold cfg.err_cooldown) p w

punish_ensure-IsWellFormed :
    (cfg : Config) (env : Env) (uid : Text) (e : EnsureError) (p : Pool)
    → IsWellFormed p
    → IsWellFormed (punish_ensure cfg env uid e p)
unfolding punish_ensure step
punish_ensure-IsWellFormed cfg env uid e p w = ground (
  arith,
  step-IsWellFormed env (disables uid (codes "auth invalid (re-login required)")) p w,
  step-IsWellFormed env (cools uid errors cfg.err_cooldown (codes "dt ensure: " ++ message e)) p w,
)

module _ (parse_time : Text → Option ℤ) (lower : ℕ → ℕ) (cut : Text → Text) (cfg : Config) where
  after_forward-IsWellFormed :
      (env : Env) (uid : Text) (f : Forward) (p : Pool)
      → IsWellFormed p
      → IsWellFormed (after_forward parse_time lower cut cfg env uid f p).0
  unfolding step
  after_forward-IsWellFormed env uid (streams body) p w = step-IsWellFormed env (succeeds uid) p w
  after_forward-IsWellFormed env uid (upstream_error e) p w =
      punish-IsWellFormed cfg env uid e.kind p w
  after_forward-IsWellFormed env uid (other_error text) p w =
      step-IsWellFormed env (notes uid cfg.err_threshold cfg.err_cooldown) p w

  after_ensure-IsWellFormed :
      (r : Round) (uid : Text) (c : Cred) (e : Option EnsureError) (p : Pool)
      → c.uid ≡ uid
      → IsWellFormed p
      → IsWellFormed (after_ensure parse_time lower cut cfg r uid (c, e) p).0
  after_ensure-IsWellFormed r uid c (some e) p same w =
      punish_ensure-IsWellFormed cfg r.at_end uid e _
        (change_cred-IsWellFormed uid _ p (λ old k. same) w)
  after_ensure-IsWellFormed r uid c none p same w = after_forward-IsWellFormed r.at_end uid _ _ (
      change_cred-IsWellFormed uid _ p (λ old k. ensure_machine_fingerprint-uid r.draws c ∙ same) w)

  pub try_account-IsWellFormed :
      (r : Round) (acct : Cred) (p : Pool)
      → IsWellFormed p
      → IsWellFormed (try_account parse_time lower cut cfg r acct p).0
  unfolding try_account
  try_account-IsWellFormed r acct p w =
      after_ensure-IsWellFormed r acct.uid _ _ p
        (ensure_dt-uid parse_time r.ensure_now r.ensure_later (r.refresh acct.uid) acct) w
