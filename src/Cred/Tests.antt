-- ===== src/Cred/Tests.antt =====
-- The theorems about credentials at concrete values.
use qoderwork2api.Common.{ℕ, ◌*◌, ◌≡◌, ◌⊎◌, refl, true, false, ◌||◌, [], ◌∷◌, Option, none, arith}
use qoderwork2api.Common.Int.{ℤ, pos, wrap64, ◌-ℤ◌, ltb_ℤ}
use qoderwork2api.Common.Eq.{Text, codes, is_empty}
use qoderwork2api.Cred.{Cred, blank}
use qoderwork2api.Cred.Load.{Flat}
use qoderwork2api.Cred.Refresh.{
  refresh_locked, second, unix, ensure_dt, is_auth_invalid, rejected, replied, paired, TokenPair,
  is_fresh,
}
use qoderwork2api.Cred.Refresh.Outcomes.{
  ensure_dt_fails, ensure_dt_succeeds, refresh_keeps_stale_expiry, refuses, SameAccount, FromReply,
  Turn, IsSilent, AllRefresh,
}
use qoderwork2api.Cred.Fingerprint.{Draws}

abbrev no_time : Text → Option ℤ
no_time text = none

abbrev flat_file : Flat
flat_file = record {
  token = codes "dt-1";
  access_token = [];
  refresh_token = codes "drt-1";
  expires_at = pos 0;
  uid = [];
  user_id = [];
  nickname = codes "n";
}

abbrev expired_cred : Cred
expired_cred = record blank {
  uid = codes "u";
  dt = codes "dt-1";
  drt = codes "drt-1";
  dt_expires_at = pos 100;
}

abbrev new_pair : TokenPair
new_pair = record {
  token = codes "dt-2";
  device_token = [];
  refresh_token = codes "drt-2";
  expires_at = [];
  expires_in = pos 0;
}

ensure_dt_fails_example :
    ((ensure_dt no_time 0 0 (replied 401 []) expired_cred).0 ≡ expired_cred)
    × (is_auth_invalid (rejected 401) ≡ (is_empty expired_cred.drt || refuses (replied 401 [])))
unfolding ensure_dt refresh_locked is_fresh wrap64 ◌-ℤ◌
ensure_dt_fails_example =
    ensure_dt_fails no_time 0 0 (replied 401 []) expired_cred (rejected 401) refl

ensure_dt_succeeds_example :
    let d = (ensure_dt no_time 0 0 (paired 200 new_pair) expired_cred).0 in
    (is_empty d.dt ≡ false)
    × SameAccount expired_cred d
    × (((is_fresh no_time 0 expired_cred ≡ true) × (d ≡ expired_cred))
        ⊎ FromReply (paired 200 new_pair) d)
unfolding ensure_dt refresh_locked is_fresh wrap64 ◌-ℤ◌
ensure_dt_succeeds_example = ensure_dt_succeeds no_time 0 0 (paired 200 new_pair) expired_cred refl

abbrev turn_at : ℕ → Turn
turn_at n = record { now = n * second; later = n * second; status = 200; pair = new_pair }

-- Two calls, at 1000 and 2000 seconds, for a token that was good until 100.
refresh_keeps_stale_expiry_example :
    AllRefresh no_time (turn_at 1000 ∷ turn_at 2000 ∷ []) expired_cred
unfolding wrap64 ◌-ℤ◌
refresh_keeps_stale_expiry_example =
    refresh_keeps_stale_expiry no_time (turn_at 1000 ∷ turn_at 2000 ∷ []) expired_cred refl
      (λ e. ground arith) (silent 1000 refl, (silent 2000 refl, tt))
  where
    silent :
        (n : ℕ)
        → ltb_ℤ (pos 7200) (wrap64 (pos 100 -ℤ unix (pos (n * second)))) ≡ false
        → IsSilent (pos 100) (turn_at n)
    silent n h = record {
      accepted = omega arith;
      token = refl;
      refresh_token = refl;
      no_lifetime = refl;
      no_expiry = refl;
      stale = h;
    }

abbrev zero_draws : Draws
zero_draws = record { id = λ i. 0; seed_left = λ i. 1; seed_right = λ i. 2; kind = λ i. 3 }
