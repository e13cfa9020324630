-- ===== src/Scheduler/Jobs.antt =====
-- What the two jobs do to the pool.
use qoderwork2api.Common.{
  ℕ, suc, ◌≡◌, refl, ◌∙◌, ap, inl, inr, Bool, true, false, List, [], ◌∷◌, Option, none, some, arith,
  Bool-cases, Option-cases,
}
use qoderwork2api.Common.Int.{ℤ, pos, ◌<ℤ◌}
use qoderwork2api.Common.Eq.{Text, codes, text_instance}
use qoderwork2api.Common.Dict.{lookup, All-lookup}
use qoderwork2api.Cred.{Cred}
use qoderwork2api.Cred.Refresh.{EnsureError, ensure_dt}
use qoderwork2api.Cred.Refresh.Outcomes.{ensure_dt-uid}
use qoderwork2api.Cred.Fingerprint.{ensure_machine_fingerprint-uid}
use qoderwork2api.Pool.{
  Pool, Env, Entry, hard, auth_by_uid, cooldown, reenable_if_credits, reenabled, change_cred,
  healthy, add_time,
}
use qoderwork2api.Pool.Shape.{
  IsWellFormed, Keyed, Call, run, run-IsWellFormed, step, step-IsWellFormed,
  change_cred-IsWellFormed, cools, disables, reenables, saves,
}
use qoderwork2api.Pool.Cooling.{lookup-update_self, lookup-change_cred}
use qoderwork2api.Pool.Listing.{Status, list}
use qoderwork2api.Scheduler.{
  Visit, has_token, half_day, settle, give_up, checkin_after, keepalive_after, visit, visits,
  run_checkin_now, run_keepalive_now,
}

settle-IsWellFormed :
    (env : Env) (uid : Text) (quota : Option (ℤ × Bool)) (p : Pool)
    → IsWellFormed p
    → IsWellFormed (settle env uid quota p)
unfolding step
settle-IsWellFormed env uid none p w = w
settle-IsWellFormed env uid (some (remain, true)) p w =
    step-IsWellFormed env (cools uid hard half_day (codes "isQuotaExceeded")) p w
settle-IsWellFormed env uid (some (remain, false)) p w =
    step-IsWellFormed env (reenables uid remain) p w

give_up-IsWellFormed :
    (env : Env) (uid : Text) (e : EnsureError) (p : Pool)
    → IsWellFormed p
    → IsWellFormed (give_up env uid e p)
unfolding step
give_up-IsWellFormed env uid e p w =
    ground
      (arith, step-IsWellFormed env (disables uid (codes "auth invalid (re-login required)")) p w)

-- A reaction that keeps the pool in shape if the credential is of the account.
abbrev KeepsShape : (Visit → Text → Cred × Option EnsureError → Pool → Pool) → Type 0
KeepsShape after =
    (v : Visit) (uid : Text) (c : Cred) (e : Option EnsureError) (p : Pool)
    → c.uid ≡ uid
    → IsWellFormed p
    → IsWellFormed (after v uid (c, e) p)

checkin_after-KeepsShape : KeepsShape checkin_after
checkin_after-KeepsShape v uid c (some e) p same w =
    give_up-IsWellFormed v.env uid e _ (change_cred-IsWellFormed uid _ p (λ old k. same) w)
checkin_after-KeepsShape v uid c none p same w =
    settle-IsWellFormed v.env uid v.quota _ (change_cred-IsWellFormed uid _ p (λ old k. same) w)

keepalive_after-KeepsShape : KeepsShape keepalive_after
keepalive_after-KeepsShape v uid c (some e) p same w =
    give_up-IsWellFormed v.env uid e _ (change_cred-IsWellFormed uid _ p (λ old k. same) w)
keepalive_after-KeepsShape v uid c none p same w =
    change_cred-IsWellFormed uid _ p (λ old k. ensure_machine_fingerprint-uid v.draws c ∙ same) w

keyed_entry :
    (uid : Text) (p : Pool) (e : Entry)
    → IsWellFormed p
    → lookup uid p.by_uid ≡ some e
    → e.cred.uid ≡ uid
keyed_entry uid p e w at = All-lookup Keyed uid p.by_uid w.keyed at

module _ (parse_time : Text → Option ℤ) where
  -- What the body of a loop does to an account that is listed as enabled and has a token.
  visit_lem :
      (after : Visit → Text → Cred × Option EnsureError → Pool → Pool) (v : Visit) (st : Status)
      (p : Pool) (e : Entry)
      → st.disabled ≡ false
      → lookup st.uid p.by_uid ≡ some e
      → has_token e.cred ≡ true
      → visit parse_time after v st p
        ≡ after v st.uid (ensure_dt parse_time v.ensure_now v.ensure_later v.refresh e.cred) p
  unfolding visit auth_by_uid
  visit_lem after v st p e on at token = rw (on, at, token) refl

  visit-IsWellFormed :
      (after : Visit → Text → Cred × Option EnsureError → Pool → Pool) (v : Visit) (st : Status)
      (p : Pool)
      → KeepsShape after
      → IsWellFormed p
      → IsWellFormed (visit parse_time after v st p)
  unfolding visit auth_by_uid
  visit-IsWellFormed after v st p keeps w = elim (Bool-cases st.disabled) [
    | inl off ↦ rw (off, visit) w
    | inr on ↦ elim (Option-cases (lookup st.uid p.by_uid)) [
      | inl gone ↦ rw (on, gone, visit) w
      | inr (e, at) ↦ elim (Bool-cases (has_token e.cred)) [
        | inr bare ↦ rw (on, at, bare, visit) w
        | inl token ↦ rw (visit_lem after v st p e on at token) (
            keeps v st.uid _ _ p
              (ensure_dt-uid parse_time v.ensure_now v.ensure_later v.refresh e.cred
                ∙ keyed_entry st.uid p e w at)
              w)
      ]
    ]
  ]

  visits-IsWellFormed :
      (after : Visit → Text → Cred × Option EnsureError → Pool → Pool) (world : ℕ → Visit)
      (others : ℕ → List (Env × Call)) (i : ℕ) (sts : List Status) (p : Pool)
      → KeepsShape after
      → IsWellFormed p
      → IsWellFormed (visits parse_time after world others i sts p)
  unfolding visits
  visits-IsWellFormed after world others i [] p keeps w = w
  visits-IsWellFormed after world others i (st ∷ sts) p keeps w =
      visits-IsWellFormed after world others (suc i) sts
        (visit parse_time after (world i) st (run p (others i))) keeps
        (visit-IsWellFormed after (world i) st (run p (others i)) keeps
          (run-IsWellFormed p (others i) w))

  -- Both jobs keep the pool in shape, whatever the requests do to it meanwhile.
  pub run_checkin_now-IsWellFormed :
      (env last : Env) (world : ℕ → Visit) (others : ℕ → List (Env × Call)) (p : Pool)
      → IsWellFormed p
      → IsWellFormed (run_checkin_now parse_time env world others p)
        × IsWellFormed (run_keepalive_now parse_time env last world others p)
  unfolding run_checkin_now run_keepalive_now step
  run_checkin_now-IsWellFormed env last world others p w = (
    visits-IsWellFormed checkin_after world others 0 (list env p) p checkin_after-KeepsShape w,
    step-IsWellFormed last saves _ (
        visits-IsWellFormed keepalive_after world others 0 (list env p) p keepalive_after-KeepsShape
          w),
  )

  -- What the answer about the quota leaves of an entry.
  abbrev pub IsSettled : ℕ → ℤ → Bool → Entry → Entry → Type 0
  IsSettled now remain exceeded e e' =
      (e'.disabled ≡ e.disabled)
      × (exceeded ≡ true → healthy e' now ≡ false)
      × (exceeded ≡ false → e'.credits ≡ remain)
      × (exceeded ≡ false
          → e.disabled ≡ false
          → pos 0 <ℤ remain
          → (healthy e' now ≡ true) × (e'.err_count ≡ 0))

  abbrev rested : ℕ → Entry → Entry
  rested now e = record e {
    until = add_time now half_day;
    reason = codes "isQuotaExceeded";
    err_count = 0;
  }

  rested-IsSettled :
      (now : ℕ) (remain : ℤ) (c : Cred) (e : Entry)
      → IsSettled now remain true e (rested now (record e { cred = c }))
  unfolding healthy
  rested-IsSettled now remain c e = (refl, (λ h. ground arith), (λ h. cc), (λ h. cc))

  reenabled-IsSettled :
      (now : ℕ) (remain : ℤ) (c : Cred) (e : Entry)
      → IsSettled now remain false e (reenabled remain (record e { cred = c }))
  unfolding healthy reenabled
  reenabled-IsSettled now remain c e =
      (ground arith, (λ h. cc), (λ h. ground arith), (λ h on some_left. ground arith))

  changed_entry :
      (uid : Text) (c : Cred) (p : Pool) (e : Entry)
      → lookup uid p.by_uid ≡ some e
      → lookup uid (change_cred uid (λ old. c) p).by_uid ≡ some (record e { cred = c })
  changed_entry uid c p e at =
      lookup-change_cred uid uid (λ old. c) p
      ∙ rw ((text_instance.agrees_iff uid uid).1 refl, at) refl

  quota_entry :
      (env : Env) (uid : Text) (remain : ℤ) (exceeded : Bool) (c : Cred) (p : Pool) (e : Entry)
      → lookup uid p.by_uid ≡ some e
      → (e' : Entry) × (lookup uid
            (settle env uid (some (remain, exceeded)) (change_cred uid (λ old. c) p)).by_uid
          ≡ some e')
        × IsSettled env.now remain exceeded e e'
  unfolding cooldown reenable_if_credits
  quota_entry env uid remain true c p e at = (
    rested env.now (record e { cred = c }),
    lookup-update_self env uid (rested env.now) (change_cred uid (λ old. c) p)
        ∙ rw (changed_entry uid c p e at) refl,
    rested-IsSettled env.now remain c e,
  )
  quota_entry env uid remain false c p e at = (
    reenabled remain (record e { cred = c }),
    lookup-update_self env uid (reenabled remain) (change_cred uid (λ old. c) p)
        ∙ rw (changed_entry uid c p e at) refl,
    reenabled-IsSettled env.now remain c e,
  )

  -- The check-in of an account that is listed as enabled, has a token and is refreshed: if the
  -- service says that the quota is exceeded, the account can no longer be chosen; if not, it has
  -- the credits that are left, and if these are positive and it is not disabled, it can be chosen
  -- and has no errors. It is never disabled or enabled by this.
  pub visit_settles :
      (v : Visit) (st : Status) (p : Pool) (e : Entry) (c : Cred) (remain : ℤ) (exceeded : Bool)
      → st.disabled ≡ false
      → lookup st.uid p.by_uid ≡ some e
      → has_token e.cred ≡ true
      → ensure_dt parse_time v.ensure_now v.ensure_later v.refresh e.cred ≡ (c, none)
      → v.quota ≡ some (remain, exceeded)
      → (e' : Entry) × (lookup st.uid (visit parse_time checkin_after v st p).by_uid ≡ some e')
        × IsSettled v.env.now remain exceeded e e'
  visit_settles v st p e c remain exceeded on at token ensured quota =
      let (e', found, settled) = quota_entry v.env st.uid remain exceeded c p e at in
      let same : visit parse_time checkin_after v st p
          ≡ settle v.env st.uid (some (remain, exceeded)) (change_cred st.uid (λ old. c) p) =
        visit_lem checkin_after v st p e on at token
        ∙ ap (λ (r : Cred × Option EnsureError). checkin_after v st.uid r p) ensured
        ∙ ap (λ (o : Option (ℤ × Bool)). settle v.env st.uid o (change_cred st.uid (λ old. c) p))
            quota in
      (e', ap (λ (q : Pool). lookup st.uid q.by_uid) same ∙ found, settled)
