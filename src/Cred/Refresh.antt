-- ===== src/Cred/Refresh.antt =====
-- `EnsureDT` and `refreshLocked`. The reply of the server and the readings of the clock, in
-- nanoseconds since 1970, are arguments.
pub mod Outcomes
use qoderwork2api.Common.{
  ℕ, zero, suc, ◌+◌, ◌*◌, ◌/◌, ◌≡◌, refl, Bool, true, false, ◌&&◌, ◌||◌, not, List, [], ◌∷◌, ◌++◌,
  Option, none, some, arith, if◌then◌else◌, nat_eq, leb,
}
use qoderwork2api.Common.Int.{ℤ, pos, negsuc, ◌+ℤ◌, ◌-ℤ◌, ltb_ℤ, wrap64}
use qoderwork2api.Common.Eq.{Text, codes, is_empty}
use qoderwork2api.Common.Strings.{decimal}
use qoderwork2api.Cred.{Cred}
use qoderwork2api.Cred.Load.{or_else}

pub data EnsureError : Type 0 where
  no_drt : EnsureError
  rejected : ℕ → EnsureError
  http : ℕ → EnsureError
  transport unparsable : Text → EnsureError
  incomplete : EnsureError

unfoldable pub message : EnsureError → Text
message no_drt = codes "auth_invalid: no drt available"
message (rejected status) = codes "auth_invalid: deviceToken refresh http " ++ decimal status
message (http status) = codes "deviceToken refresh http " ++ decimal status
message (transport text) = text
message (unparsable text) = codes "deviceToken refresh parse: " ++ text
message incomplete = codes "deviceToken refresh: incomplete token pair"

-- `errors.As` with *AuthInvalidError as target.
unfoldable pub is_auth_invalid : EnsureError → Bool
is_auth_invalid no_drt = true
is_auth_invalid (rejected status) = true
is_auth_invalid (http status) = false
is_auth_invalid (transport text) = false
is_auth_invalid (unparsable text) = false
is_auth_invalid incomplete = false

pub record TokenPair : Type 0 where
  pub token : Text
  pub device_token : Text
  pub refresh_token : Text
  pub expires_at : Text
  pub expires_in : ℤ

-- No request or no response, with the error's text; or a status with what the body decodes to.
pub data Reply : Type 0 where
  failed : Text → Reply
  replied : ℕ → Text → Reply
  paired : ℕ → TokenPair → Reply

abbrev pub second : ℕ
second = 1_000_000_000

-- Seconds since 1970 of an instant given in nanoseconds, rounded down.
abbrev pub unix : ℤ → ℤ
unix (pos n) = pos (n / second)
unix (negsuc n) = negsuc (n / second)

abbrev pub millis : ℤ → ℤ
millis (pos k) = wrap64 (pos (k * 1_000_000))
millis (negsuc k) = wrap64 (negsuc (k * 1_000_000 + 999_999))

abbrev pub month : ℕ
month = 30 * 24 * 3600 * second

-- `parse_time` is time.Parse with the layout RFC3339, followed by `Unix`.
module _ (parse_time : Text → Option ℤ) where
  -- The expiry that a reply states, or the one from before.
  pub stated_expiry : ℕ → TokenPair → ℤ → ℤ
  stated_expiry now out old =
      if ltb_ℤ (pos 0) out.expires_in
      then unix (pos now +ℤ millis out.expires_in)
      else if is_empty out.expires_at
      then old
      else elim (parse_time out.expires_at) [ none ↦ old | some t ↦ t ]

  -- A reply of zero takes the lifetime that was observed.
  abbrev pub or_month : ℕ → ℤ → ℤ
  or_month now (pos zero) = unix (pos (now + month))
  or_month now (pos (suc n)) = pos (suc n)
  or_month now (negsuc n) = negsuc n

  unfoldable pub refresh_locked : ℕ → Reply → Cred → Cred × Option EnsureError
  refresh_locked now (failed text) c = (c, some (transport text))
  refresh_locked now (replied status text) c =
      if nat_eq status 401 || nat_eq status 403
      then (c, some (rejected status))
      else if leb 400 status
      then (c, some (http status))
      else (c, some (unparsable text))
  refresh_locked now (paired status out) c =
      if nat_eq status 401 || nat_eq status 403
      then (c, some (rejected status))
      else if leb 400 status
      then (c, some (http status))
      else let dt = or_else out.token out.device_token in
        if is_empty dt || is_empty out.refresh_token then (c, some incomplete) else (
          record c {
            dt = dt;
            drt = out.refresh_token;
            dt_expires_at = or_month now (stated_expiry now out c.dt_expires_at);
          },
          none,
        )

  -- The token is good for more than two hours.
  unfoldable pub is_fresh : ℕ → Cred → Bool
  is_fresh now c =
      not (is_empty c.dt) && ltb_ℤ (pos 7200) (wrap64 (c.dt_expires_at -ℤ unix (pos now)))

  -- `now` is read before the request is sent, `later` after the reply.
  unfoldable pub ensure_dt : ℕ → ℕ → Reply → Cred → Cred × Option EnsureError
  ensure_dt now later reply c =
      if is_fresh now c
      then (c, none)
      else if is_empty c.drt
      then (c, some no_drt)
      else refresh_locked later reply c
