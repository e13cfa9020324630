-- ===== src/Server/Chat/Punish.antt =====
-- What a round of the rotation does to the accounts of the pool.
use qoderwork2api.Common.{
  ℕ, ◌+◌, ◌≡◌, ◌≢◌, refl, ◌∙◌, ◌⊎◌, inl, inr, true, false, Option, none, some, arith, Bool-cases,
  if◌then◌else◌,
}
use qoderwork2api.Common.Int.{ℤ, pos, leb_ℤ, ◌<ℤ◌}
use qoderwork2api.Common.Eq.{Text, text_instance, ◌==◌}
use qoderwork2api.Common.Dict.{lookup, on_some}
use qoderwork2api.Cred.{Cred}
use qoderwork2api.Cred.Refresh.{EnsureError, ensure_dt, is_auth_invalid}
use qoderwork2api.Cred.Fingerprint.{ensure_machine_fingerprint}
use qoderwork2api.Pool.{
  Pool, Env, Entry, cooldown, disable, note_error, note_success, change_cred, healthy, add_time,
  noted, update,
}
use qoderwork2api.Pool.Cooling.{lookup-update, lookup-change_cred, lookup-note_success}
use qoderwork2api.Upstream.Classify.{
  ErrKind, none_kind, hard_credit, soft_rate, token_expired, session_dead, not_found, server,
  client,
}
use qoderwork2api.Server.Chat.{
  Config, new_handler, Forward, streams, upstream_error, other_error, Round, punish, punish_ensure,
  Attempt, served, failed, after_forward, after_ensure, try_account, chat_forward,
}

-- A method changes the entry of one account and no other.
abbrev Changes : Text → (Entry → Entry) → Pool → Pool → Type 0
Changes uid f p q =
    (j : Text)
    → lookup j q.by_uid ≡ (if uid == j then on_some f (lookup j p.by_uid) else lookup j p.by_uid)

on_some-on_some :
    (f g : Entry → Entry) (o : Option Entry) → on_some g (on_some f o) ≡ on_some (λ e. g (f e)) o
on_some-on_some f g none = refl
on_some-on_some f g (some e) = refl

join :
    (uid : Text) (f g : Entry → Entry) (p q r : Pool)
    → Changes uid f p q
    → Changes uid g q r
    → Changes uid (λ e. g (f e)) p r
join uid f g p q r first second j =
    ground (arith, first j, second j, on_some-on_some f g (lookup j p.by_uid))

abbrev rests : ℕ → ℤ → Text → Entry → Entry
rests now d reason e = record e { until = add_time now d; reason = reason; err_count = 0 }

abbrev off : Text → Entry → Entry
off reason e = record e { disabled = true; reason = reason }

-- The account cannot be chosen, or one more error was counted.
abbrev pub IsPunished : ℕ → Entry → Entry → Type 0
IsPunished now e e' = (healthy e' now ≡ false) ⊎ (e'.err_count ≡ e.err_count + 1)

rests-IsPunished :
    (now : ℕ) (d : ℤ) (reason : Text) (e e0 : Entry)
    → pos 0 <ℤ d
    → IsPunished now e0 (rests now d reason e)
unfolding healthy
rests-IsPunished now d reason e e0 h = inl (ground arith)

noted-IsPunished :
    (now : ℕ) (threshold d : ℤ) (c : Cred) (e : Entry)
    → pos 0 <ℤ d
    → IsPunished now e (noted now threshold d (record e { cred = c }))
unfolding healthy noted
noted-IsPunished now threshold d c e h =
    elim (Bool-cases (leb_ℤ threshold (pos (e.err_count + 1)))) [
      | inl l ↦ rw (l, noted) (inl (ground arith))
      | inr l ↦ rw (l, noted) (inr refl)
    ]

-- The account is punished, and no other account changes.
abbrev pub Punishes : Text → ℕ → Pool → Pool → Type 0
Punishes uid now p q =
    (f : Entry → Entry) × Changes uid f p q × ((e : Entry) → IsPunished now e (f e))

module _ (cfg0 : Config) (env : Env) (uid : Text) (p : Pool) where
  abbrev cfg : Config
  cfg = new_handler cfg0

  cools_by :
      (d : ℤ) (reason : Text)
      → pos 0 <ℤ d
      → Punishes uid env.now p (update env uid (rests env.now d reason) p)
  cools_by d reason h = (
    rests env.now d reason,
    λ j. lookup-update env uid j (rests env.now d reason) p,
    λ e. rests-IsPunished env.now d reason e e h,
  )

  disables_by : (reason : Text) → Punishes uid env.now p (update env uid (off reason) p)
  unfolding healthy
  disables_by reason = (off reason, λ j. lookup-update env uid j (off reason) p, λ e. inl refl)

  counts : (d : ℤ) → pos 0 <ℤ d → Punishes uid env.now p (note_error env uid cfg.err_threshold d p)
  unfolding note_error
  counts d h = (
    noted env.now cfg.err_threshold d,
    λ j. lookup-update env uid j (noted env.now cfg.err_threshold d) p,
    λ e. noted-IsPunished env.now cfg.err_threshold d e.cred e h,
  )

  positive :
      (pos 0 <ℤ cfg.hard_cooldown) × (pos 0 <ℤ cfg.soft_cooldown) × (pos 0 <ℤ cfg.err_cooldown)
  unfolding new_handler
  positive = ground arith

after_change :
    (uid : Text) (now : ℕ) (g : Cred → Cred) (p q : Pool)
    → Punishes uid now (change_cred uid g p) q
    → Punishes uid now p q
after_change uid now g p q (f, changes, punished) = (
  (λ e. f (record e { cred = g e.cred })),
  join uid (λ e. record e { cred = g e.cred }) f p (change_cred uid g p) q
      (λ j. lookup-change_cred uid j g p) changes,
  (λ e. punished (record e { cred = g e.cred })),
)

module _ (cfg0 : Config) (env : Env) (uid : Text) where
  punish-Punishes :
      (kind : ErrKind) (p : Pool)
      → Punishes uid env.now p (punish (new_handler cfg0) env uid kind p)
  unfolding punish cooldown disable
  punish-Punishes hard_credit p = (cools_by cfg0 env uid p _ _ (positive cfg0 env uid p).0)
  punish-Punishes soft_rate p = (cools_by cfg0 env uid p _ _ (positive cfg0 env uid p).1)
  punish-Punishes token_expired p =
      let q = change_cred uid (λ c. record c { dt_expires_at = pos 0 }) p in
      after_change uid env.now (λ c. record c { dt_expires_at = pos 0 }) p
        (note_error env uid (new_handler cfg0).err_threshold (new_handler cfg0).err_cooldown q)
        (counts cfg0 env uid q (new_handler cfg0).err_cooldown (positive cfg0 env uid p).2)
  punish-Punishes session_dead p = (disables_by cfg0 env uid p _)
  punish-Punishes not_found p = (cools_by cfg0 env uid p _ _ (positive cfg0 env uid p).1)
  punish-Punishes server p = (counts cfg0 env uid p _ (positive cfg0 env uid p).2)
  punish-Punishes client p = (counts cfg0 env uid p _ (positive cfg0 env uid p).2)
  punish-Punishes none_kind p = (counts cfg0 env uid p _ (positive cfg0 env uid p).2)

  punish_ensure-Punishes :
      (e : EnsureError) (p : Pool)
      → Punishes uid env.now p (punish_ensure (new_handler cfg0) env uid e p)
  unfolding punish_ensure cooldown disable
  punish_ensure-Punishes e p = elim (Bool-cases (is_auth_invalid e)) [
    | inl i ↦ rw (i, punish_ensure) (disables_by cfg0 env uid p _)
    | inr i ↦ rw (i, punish_ensure) (cools_by cfg0 env uid p _ _ (positive cfg0 env uid p).2)
  ]

module _ (parse_time : Text → Option ℤ) (lower : ℕ → ℕ) (cut : Text → Text) (cfg0 : Config) where
  abbrev Attempts : Text → ℕ → Pool → Pool × Attempt → Type 0
  Attempts uid now p (q, failed text) = Punishes uid now p q
  Attempts uid now p (q, served body) =
      (f : Entry → Entry) × Changes uid f p q × ((e : Entry) → (f e).err_count ≡ 0)

  after_forward-Attempts :
      (env : Env) (uid : Text) (g : Cred → Cred) (w : Forward) (p : Pool)
      → Attempts uid env.now p
          (after_forward parse_time lower cut (new_handler cfg0) env uid w (change_cred uid g p))
  after_forward-Attempts env uid g (streams body) p = (
    (λ e. record e { cred = g e.cred; err_count = 0 }),
    join uid (λ e. record e { cred = g e.cred }) (λ e. record e { err_count = 0 }) p
        (change_cred uid g p) (note_success uid (change_cred uid g p))
        (λ j. lookup-change_cred uid j g p) (λ j. lookup-note_success uid j (change_cred uid g p)),
    (λ e. refl),
  )
  after_forward-Attempts env uid g (upstream_error e) p =
      let q = change_cred uid g p in
      after_change uid env.now g p (punish (new_handler cfg0) env uid e.kind q)
        (punish-Punishes cfg0 env uid e.kind q)
  after_forward-Attempts env uid g (other_error text) p =
      let q = change_cred uid g p in
      after_change uid env.now g p
        (note_error env uid (new_handler cfg0).err_threshold (new_handler cfg0).err_cooldown q)
        (counts cfg0 env uid q (new_handler cfg0).err_cooldown (positive cfg0 env uid p).2)

  after_ensure-Attempts :
      (r : Round) (uid : Text) (c : Cred) (e : Option EnsureError) (p : Pool)
      → Attempts uid r.at_end.now p
          (after_ensure parse_time lower cut (new_handler cfg0) r uid (c, e) p)
  after_ensure-Attempts r uid c (some e) p =
      after_change uid r.at_end.now (λ old. c) p
        (punish_ensure (new_handler cfg0) r.at_end uid e (change_cred uid (λ old. c) p))
        (punish_ensure-Punishes cfg0 r.at_end uid e (change_cred uid (λ old. c) p))
  after_ensure-Attempts r uid c none p =
      after_forward-Attempts r.at_end uid (λ old. ensure_machine_fingerprint r.draws c)
        (chat_forward lower cut (ensure_machine_fingerprint r.draws c) (r.wire uid)) p

  -- What the two outcomes mean for the account and for the others.
  abbrev pub Leaves : Text → ℕ → Pool → Pool × Attempt → Type 0
  Leaves uid now p (q, failed text) =
      ((e : Entry)
        → lookup uid p.by_uid ≡ some e
        → (e' : Entry) × (lookup uid q.by_uid ≡ some e') × IsPunished now e e')
      × ((j : Text) → j ≢ uid → lookup j q.by_uid ≡ lookup j p.by_uid)
  Leaves uid now p (q, served body) =
      ((e : Entry)
        → lookup uid p.by_uid ≡ some e
        → (e' : Entry) × (lookup uid q.by_uid ≡ some e') × (e'.err_count ≡ 0))
      × ((j : Text) → j ≢ uid → lookup j q.by_uid ≡ lookup j p.by_uid)

  at_self :
      (uid : Text) (f : Entry → Entry) (p q : Pool) (e : Entry)
      → Changes uid f p q
      → lookup uid p.by_uid ≡ some e
      → lookup uid q.by_uid ≡ some (f e)
  at_self uid f p q e changes at =
      changes uid ∙ rw ((text_instance.agrees_iff uid uid).1 refl, at) refl

  at_others :
      (uid : Text) (f : Entry → Entry) (p q : Pool) (j : Text)
      → Changes uid f p q
      → j ≢ uid
      → lookup j q.by_uid ≡ lookup j p.by_uid
  at_others uid f p q j changes other = ground (arith, changes j, text_instance.agrees_iff uid j)

  Attempts-Leaves :
      (uid : Text) (now : ℕ) (p : Pool) (r : Pool × Attempt)
      → Attempts uid now p r
      → Leaves uid now p r
  Attempts-Leaves uid now p (q, failed text) (f, changes, punished) = (
    (λ e at. (f e, at_self uid f p q e changes at, punished e)),
    (λ j other. at_others uid f p q j changes other),
  )
  Attempts-Leaves uid now p (q, served body) (f, changes, clear) = (
    (λ e at. (f e, at_self uid f p q e changes at, clear e)),
    (λ j other. at_others uid f p q j changes other),
  )

  -- A round changes no account but the one it asks. If the round fails, whatever the error,
  -- this account can no longer be chosen at that instant or has one more error counted; if it
  -- serves the request, its count of errors is zero.
  pub try_account-Leaves :
      (r : Round) (acct : Cred) (p : Pool)
      → Leaves acct.uid r.at_end.now p
          (try_account parse_time lower cut (new_handler cfg0) r acct p)
  unfolding try_account
  try_account-Leaves r acct p =
      let done = ensure_dt parse_time r.ensure_now r.ensure_later (r.refresh acct.uid) acct in
      Attempts-Leaves acct.uid r.at_end.now p
        (after_ensure parse_time lower cut (new_handler cfg0) r acct.uid done p)
        (after_ensure-Attempts r acct.uid done.0 done.1 p)
