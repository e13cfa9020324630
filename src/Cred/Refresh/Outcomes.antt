-- ===== src/Cred/Refresh/Outcomes.antt =====
-- What `EnsureDT` does to a credential on each of its paths.
use qoderwork2api.Common.{
  ℕ, ◌≡◌, refl, ◌≢◌, ◌⊎◌, inl, inr, Bool, true, false, ◌||◌, [], Option, none, some, arith, nat_eq,
  Bool-cases, Option-cases, ap, ◌<◌, ◌∙◌, sym, subst, List, ◌∷◌, All,
}
use qoderwork2api.Common.Int.{ℤ, pos, ◌-ℤ◌, ltb_ℤ, wrap64}
use qoderwork2api.Common.Eq.{Text, is_empty}
use qoderwork2api.Cred.{Cred}
use qoderwork2api.Cred.Load.{or_else}
use qoderwork2api.Cred.Refresh.{
  EnsureError, is_auth_invalid, TokenPair, Reply, failed, replied, paired, ensure_dt,
  refresh_locked, is_fresh, stated_expiry, unix,
}

-- The server refuses the refresh token.
abbrev pub refuses : Reply → Bool
refuses (failed text) = false
refuses (replied status text) = nat_eq status 401 || nat_eq status 403
refuses (paired status out) = nat_eq status 401 || nat_eq status 403

-- The parts that no refresh touches.
abbrev pub SameAccount : Cred → Cred → Type 0
SameAccount c d =
    (d.uid ≡ c.uid)
    × (d.nickname ≡ c.nickname)
    × (d.machine_id ≡ c.machine_id)
    × (d.machine_token ≡ c.machine_token)
    × (d.machine_type ≡ c.machine_type)

-- The tokens are those of an accepted reply.
abbrev pub FromReply : Reply → Cred → Type 0
FromReply reply d =
    (status : ℕ) × (out : TokenPair) × (reply ≡ paired status out)
    × (status < 400)
    × (d.dt ≡ or_else out.token out.device_token)
    × (d.drt ≡ out.refresh_token)
    × (is_empty d.drt ≡ false)

module _ (parse_time : Text → Option ℤ) (now later : ℕ) where
  refresh_locked_fails :
      (reply : Reply) (c : Cred) (e : EnsureError)
      → (refresh_locked parse_time later reply c).1 ≡ some e
      → ((refresh_locked parse_time later reply c).0 ≡ c) × (is_auth_invalid e ≡ refuses reply)
  unfolding refresh_locked is_auth_invalid
  refresh_locked_fails (failed text) c e h = ground arith
  refresh_locked_fails (replied status text) c e h = ground arith
  refresh_locked_fails (paired status out) c e h = ground arith

  -- A failure leaves the credential as it was, and it is the failure that disables an account
  -- exactly if there is no refresh token or the server answers 401 or 403.
  pub ensure_dt_fails :
      (reply : Reply) (c : Cred) (e : EnsureError)
      → (ensure_dt parse_time now later reply c).1 ≡ some e
      → ((ensure_dt parse_time now later reply c).0 ≡ c)
        × (is_auth_invalid e ≡ (is_empty c.drt || refuses reply))
  unfolding ensure_dt is_auth_invalid
  ensure_dt_fails reply c e h = ground (arith, refresh_locked_fails reply c e)

  refresh_locked_succeeds :
      (reply : Reply) (c : Cred)
      → (refresh_locked parse_time later reply c).1 ≡ none
      → let d = (refresh_locked parse_time later reply c).0 in
        (is_empty d.dt ≡ false) × SameAccount c d × FromReply reply d
  unfolding refresh_locked
  refresh_locked_succeeds (failed text) c h = cc
  refresh_locked_succeeds (replied status text) c h = ground arith
  refresh_locked_succeeds (paired status out) c h = (
    ground arith,
    ground arith,
    (status, out, refl, ground arith, ground arith, ground arith, ground arith),
  )

  fresh_has_token : (c : Cred) → is_fresh parse_time now c ≡ true → is_empty c.dt ≡ false
  unfolding is_fresh
  fresh_has_token c h = ground arith

  -- After a success there is a token to send. Either it was good for two more hours and nothing
  -- changed, or both tokens are those of the reply. Account and fingerprint stay.
  pub ensure_dt_succeeds :
      (reply : Reply) (c : Cred)
      → (ensure_dt parse_time now later reply c).1 ≡ none
      → let d = (ensure_dt parse_time now later reply c).0 in
        (is_empty d.dt ≡ false)
        × SameAccount c d
        × (((is_fresh parse_time now c ≡ true) × (d ≡ c)) ⊎ FromReply reply d)
  unfolding ensure_dt
  ensure_dt_succeeds reply c h = elim (Bool-cases (is_fresh parse_time now c)) [
    | inl e ↦
        rw (e, ensure_dt) (fresh_has_token c e, (refl, refl, refl, refl, refl), inl (refl, refl))
    | inr e ↦ elim (Bool-cases (is_empty c.drt)) [
      | inl m ↦ absurd (ground arith)
      | inr m ↦
          let (token, same, new) = refresh_locked_succeeds reply c (ground arith) in
          rw (e, m, ensure_dt) (token, same, inr new)
    ]
  ]

  pub ensure_dt-uid :
      (reply : Reply) (c : Cred) → (ensure_dt parse_time now later reply c).0.uid ≡ c.uid
  ensure_dt-uid reply c = elim (Option-cases (ensure_dt parse_time now later reply c).1) [
    | inl e ↦ let (token, same, source) = ensure_dt_succeeds reply c e in same.0
    | inr (x, e) ↦ let (kept, why) = ensure_dt_fails reply c x e in ap (λ (d : Cred). d.uid) kept
  ]

-- A call of `EnsureDT`: the clock before and after the request, and the reply with its status.
pub record Turn : Type 0 where
  pub now : ℕ
  pub later : ℕ
  pub status : ℕ
  pub pair : TokenPair

-- The reply is accepted, has both tokens and states no expiry, and at its time the expiry `t` is
-- less than two hours ahead or has passed.
pub record IsSilent (t : ℤ) (r : Turn) : Type 0 where
  pub accepted : r.status < 400
  pub token : is_empty (or_else r.pair.token r.pair.device_token) ≡ false
  pub refresh_token : is_empty r.pair.refresh_token ≡ false
  pub no_lifetime : r.pair.expires_in ≡ pos 0
  pub no_expiry : r.pair.expires_at ≡ []
  pub stale : ltb_ℤ (pos 7200) (wrap64 (t -ℤ unix (pos r.now))) ≡ false

module _ (parse_time : Text → Option ℤ) where
  -- Each of the calls, one after the other, sends its request and takes the tokens of its reply.
  abbrev pub AllRefresh : List Turn → Cred → Type 0
  AllRefresh [] c = Unit
  AllRefresh (r ∷ rs) c =
      let d = (ensure_dt parse_time r.now r.later (paired r.status r.pair) c).0 in
      (d.dt ≡ or_else r.pair.token r.pair.device_token)
      × (d.drt ≡ r.pair.refresh_token)
      × AllRefresh rs d

  one_refresh :
      (r : Turn) (c : Cred)
      → is_empty c.drt ≡ false
      → c.dt_expires_at ≢ pos 0
      → IsSilent c.dt_expires_at r
      → let d = (ensure_dt parse_time r.now r.later (paired r.status r.pair) c).0 in
        (d.dt ≡ or_else r.pair.token r.pair.device_token)
        × (d.drt ≡ r.pair.refresh_token)
        × (d.dt_expires_at ≡ c.dt_expires_at)
  unfolding ensure_dt refresh_locked is_fresh stated_expiry
  one_refresh r c drt old silent = ground (
    arith, silent.accepted, silent.token, silent.refresh_token, silent.no_lifetime,
    silent.no_expiry, silent.stale,
  )

  -- The defect: if the expiry of a credential has passed, or is less than two hours ahead, at every
  -- one of a list of calls, and every reply is accepted but states no expiry, then every one of them
  -- refreshes the token again and takes the two tokens of its reply, since the old expiry is kept.
  pub refresh_keeps_stale_expiry :
      (rs : List Turn) (c : Cred)
      → is_empty c.drt ≡ false
      → c.dt_expires_at ≢ pos 0
      → All (IsSilent c.dt_expires_at) rs
      → AllRefresh rs c
  refresh_keeps_stale_expiry [] c drt old silent = tt
  refresh_keeps_stale_expiry (r ∷ rs) c drt old (now, silent) =
      let d = (ensure_dt parse_time r.now r.later (paired r.status r.pair) c).0 in
      let (token, refresh, kept) = one_refresh r c drt old now in
      (
        token,
        refresh,
        refresh_keeps_stale_expiry rs d (ap (λ (s : Text). is_empty s) refresh ∙ now.refresh_token)
            (λ zero. old (sym kept ∙ zero))
            (subst (λ (t : ℤ). All (IsSilent t) rs) (sym kept) silent),
      )
