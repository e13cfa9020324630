-- ===== src/Scheduler.antt =====
-- internal/scheduler/scheduler.go: when the jobs run, and what they do to the pool.
pub mod NextFire
pub mod Jobs
pub mod MainLoop
mod Tests
use qoderwork2api.Common.{
  ℕ, suc, zero, ◌+◌, ◌-◌, ◌*◌, Bool, true, false, ◌&&◌, ◌||◌, not, List, [], ◌∷◌, ◌++◌, Option,
  none, some, if◌then◌else◌,
}
use qoderwork2api.Common.Int.{ℤ, pos, negsuc, ◌+ℤ◌, ltb_ℤ, leb_ℤ, pos_part, neg_part}
use qoderwork2api.Common.Eq.{Text, codes, is_empty, int_instance, ◌==◌}
use qoderwork2api.Cred.{Cred}
use qoderwork2api.Cred.Refresh.{Reply, EnsureError, ensure_dt, is_auth_invalid}
use qoderwork2api.Cred.Fingerprint.{Draws, ensure_machine_fingerprint}
use qoderwork2api.Pool.{
  Pool, Env, hard, auth_by_uid, disable, cooldown, reenable_if_credits, change_cred, save_state,
}
use qoderwork2api.Pool.Shape.{Call, run}
use qoderwork2api.Pool.Listing.{Status, list}

abbrev pub hour : ℕ
hour = 3_600_000_000_000

abbrev pub day : ℕ
day = 86_400_000_000_000

-- The hours of the two jobs.
pub record Hours : Type 0 where
  pub checkin : List ℤ
  pub keepalive : List ℤ

abbrev or_hours : List ℤ → List ℤ → List ℤ
or_hours [] default = default
or_hours (h ∷ hours) default = h ∷ hours

-- The hours that `New` leaves in place.
pub new_hours : Hours → Hours
new_hours cfg = record {
  checkin = or_hours cfg.checkin (pos 9 ∷ pos 21 ∷ []);
  keepalive = or_hours cfg.keepalive (pos 0 ∷ pos 12 ∷ []);
}

-- `h` hours in nanoseconds.
abbrev pub hours_long : ℤ → ℤ
hours_long (pos h) = pos (h * hour)
hours_long (negsuc h) = negsuc (h * hour + (hour - 1))

-- `date` is time.Date for the day and the place of `now`, which gives the instant of an hour; if
-- that is not ahead, 24 hours are added.
pub moment : (ℤ → ℤ) → ℤ → ℤ → ℤ
moment date now h = let t = date h in if ltb_ℤ now t then t else t +ℤ pos day

abbrev pub earlier : Option ℤ → ℤ → Option ℤ
earlier none t = some t
earlier (some e) t = if ltb_ℤ t e then some t else some e

pub fire_loop : (ℤ → ℤ) → ℤ → Option ℤ → List ℤ → Option ℤ
unfolding moment
fire_loop date now earliest [] = earliest
fire_loop date now earliest (h ∷ hours) =
    fire_loop date now (earlier earliest (moment date now h)) hours

-- `none` is the zero time, which an empty list of hours leaves.
pub next_fire : (ℤ → ℤ) → ℤ → List ℤ → Option ℤ
unfolding fire_loop
next_fire date now hours = fire_loop date now none hours

-- What a job meets at an account: the clock and the file, the replies of the refresh, the bytes
-- drawn, and the answer about the quota, `none` if there is an error.
pub record Visit : Type 0 where
  pub env : Env
  pub ensure_now : ℕ
  pub ensure_later : ℕ
  pub refresh : Reply
  pub draws : Draws
  pub quota : Option (ℤ × Bool)

-- An account without tokens is passed over.
abbrev pub has_token : Cred → Bool
has_token a = not (is_empty a.dt && is_empty a.drt)

abbrev pub half_day : ℤ
half_day = pos (12 * hour)

abbrev pub settle : Env → Text → Option (ℤ × Bool) → Pool → Pool
settle env uid none p = p
settle env uid (some (remain, true)) p = cooldown env uid hard half_day (codes "isQuotaExceeded") p
settle env uid (some (remain, false)) p = reenable_if_credits env uid remain p

-- The reaction to a failed refresh.
abbrev pub give_up : Env → Text → EnsureError → Pool → Pool
give_up env uid e p =
    if is_auth_invalid e then disable env uid (codes "auth invalid (re-login required)") p else p

abbrev pub checkin_after : Visit → Text → Cred × Option EnsureError → Pool → Pool
checkin_after v uid (c, some e) p = give_up v.env uid e (change_cred uid (λ old. c) p)
checkin_after v uid (c, none) p = settle v.env uid v.quota (change_cred uid (λ old. c) p)

abbrev pub keepalive_after : Visit → Text → Cred × Option EnsureError → Pool → Pool
keepalive_after v uid (c, some e) p = give_up v.env uid e (change_cred uid (λ old. c) p)
keepalive_after v uid (c, none) p = change_cred uid (λ old. ensure_machine_fingerprint v.draws c) p

module _ (parse_time : Text → Option ℤ) where
  -- The body of either loop, with what follows the refresh as `after`. The claim of the daily
  -- reward changes nothing here, whatever it answers.
  pub visit :
      (Visit → Text → Cred × Option EnsureError → Pool → Pool) → Visit → Status → Pool → Pool
  visit after v st p = if st.disabled then p else elim (auth_by_uid st.uid p) [
    | none ↦ p
    | some a ↦
        if has_token a
        then after v st.uid (ensure_dt parse_time v.ensure_now v.ensure_later v.refresh a) p
        else p
  ]

  -- The loop over the list. What requests do to the pool before each account is `others`.
  pub visits :
      (Visit → Text → Cred × Option EnsureError → Pool → Pool)
      → (ℕ → Visit)
      → (ℕ → List (Env × Call))
      → ℕ
      → List Status
      → Pool
      → Pool
  unfolding visit
  visits after world others i [] p = p
  visits after world others i (st ∷ sts) p =
      visits after world others (suc i) sts (visit after (world i) st (run p (others i)))

  pub run_checkin_now : Env → (ℕ → Visit) → (ℕ → List (Env × Call)) → Pool → Pool
  unfolding visits
  run_checkin_now env world others p = visits checkin_after world others 0 (list env p) p

  pub run_keepalive_now : Env → Env → (ℕ → Visit) → (ℕ → List (Env × Call)) → Pool → Pool
  unfolding visits
  run_keepalive_now env last world others p =
      save_state last (visits keepalive_after world others 0 (list env p) p)

pub contains : List ℤ → ℤ → Bool
contains [] h = false
contains (v ∷ hours) h = v == h || contains hours h

-- The hours for the timer.
abbrev pub all_hours : Hours → List ℤ
all_hours hours = hours.checkin ++ hours.keepalive

-- What one round of `Run` meets: what requests do before the timer fires, the hour of the clock
-- then, what each of the two jobs meets, and the file system of the save that ends the second.
pub record Wake : Type 0 where
  pub before : List (Env × Call)
  pub hour_now : ℤ
  pub at_checkin : Env
  pub checkins : ℕ → Visit
  pub beside_checkins : ℕ → List (Env × Call)
  pub at_keepalive : Env
  pub keepalives : ℕ → Visit
  pub beside_keepalives : ℕ → List (Env × Call)
  pub at_save : Env

module _ (parse_time : Text → Option ℤ) (hours : Hours) where
  abbrev checkin_if_due : Wake → Pool → Pool
  checkin_if_due w p =
      if contains hours.checkin w.hour_now
      then run_checkin_now parse_time w.at_checkin w.checkins w.beside_checkins p
      else p

  abbrev keepalive_if_due : Wake → Pool → Pool
  keepalive_if_due w p =
      if contains hours.keepalive w.hour_now
      then run_keepalive_now parse_time w.at_keepalive w.at_save w.keepalives w.beside_keepalives p
      else p

  -- The branch of the timer.
  pub wake_up : Wake → Pool → Pool
  unfolding run_checkin_now run_keepalive_now contains
  wake_up w p = keepalive_if_due w (checkin_if_due w p)

  -- The loop, up to the end of the context.
  pub run_loop : List Wake → Pool → Pool
  unfolding wake_up run
  run_loop [] p = p
  run_loop (w ∷ wakes) p = run_loop wakes (wake_up w (run p w.before))
