-- ===== src/Scheduler/Tests.antt =====
-- The theorems about the scheduler at concrete values.
use qoderwork2api.Common.{
  ℕ, ◌+◌, ◌*◌, ◌≡◌, ◌⊎◌, inl, refl, true, false, List, [], ◌∷◌, Option, none, some, arith,
}
use qoderwork2api.Common.Int.{ℤ, pos, ◌+ℤ◌, wrap64, ◌-ℤ◌}
use qoderwork2api.Common.Eq.{Text, codes, text_instance, text_eq}
use qoderwork2api.Common.Dict.{lookup}
use qoderwork2api.Cred.{Cred, blank}
use qoderwork2api.Cred.Refresh.{failed, ensure_dt, is_fresh}
use qoderwork2api.Pool.{Pool, Env, Entry, new_entry}
use qoderwork2api.Pool.Shape.{IsWellFormed, Call}
use qoderwork2api.Pool.Listing.{Status}
use qoderwork2api.Scheduler.{
  hour, day, hours_long, Hours, new_hours, contains, next_fire, Visit, visit, checkin_after,
}
use qoderwork2api.Scheduler.NextFire.{IsFire, next_fire-IsFire}
use qoderwork2api.Scheduler.MainLoop.{next_fire_due}
use qoderwork2api.Scheduler.Jobs.{IsSettled, visit_settles}

abbrev hours : List ℤ
hours = pos 9 ∷ pos 21 ∷ pos 0 ∷ pos 12 ∷ []

abbrev ten : ℤ
ten = pos (day + 10 * hour)

abbrev from_day_one : ℤ → ℤ
from_day_one h = pos day +ℤ hours_long h

-- At ten o'clock the next job is at noon.
noon : next_fire from_day_one ten hours ≡ some (pos (day + 12 * hour))
unfolding next_fire ◌+ℤ◌
noon = refl

next_fire-IsFire_example : IsFire from_day_one ten hours (next_fire from_day_one ten hours)
unfolding ◌+ℤ◌
next_fire-IsFire_example = next_fire-IsFire from_day_one ten hours (
  (omega arith, omega arith),
  ((omega arith, omega arith), ((omega arith, omega arith), ((omega arith, omega arith), tt))),
)

abbrev no_time : Text → Option ℤ
no_time text = none

abbrev zeros : ℕ → ℕ
zeros i = 0

abbrev cred_a : Cred
cred_a = record blank { uid = codes "a"; dt = codes "dt-a"; dt_expires_at = pos 100000 }

abbrev entry_a : Entry
entry_a = new_entry cred_a

abbrev one : Pool
one = record { by_uid = (codes "a", entry_a) ∷ []; stored = false; disk = none }

abbrev now : Env
now = record { now = 5; writes = true }

abbrev world : Visit
world = record {
  env = now;
  ensure_now = 5;
  ensure_later = 6;
  refresh = failed (codes "no route");
  draws = record { id = zeros; seed_left = zeros; seed_right = zeros; kind = zeros };
  quota = some (pos 30, false);
}

abbrev worlds : ℕ → Visit
worlds i = world

abbrev nobody : ℕ → List (Env × Call)
nobody i = []

abbrev status_a : Status
status_a = record {
  uid = codes "a";
  nickname = [];
  credits = pos 0;
  cooling = false;
  until = 0;
  reason = [];
  disabled = false;
  err_count = 0;
}

one-IsWellFormed : IsWellFormed one
unfolding lookup
one-IsWellFormed = record { unique = (refl, tt); keyed = (refl, tt) }

visit_settles_example :
    (e : Entry) × (lookup (codes "a") (visit no_time checkin_after world status_a one).by_uid
      ≡ some e)
    × IsSettled no_time 5 (pos 30) false entry_a e
unfolding lookup text_eq ensure_dt is_fresh wrap64 ◌-ℤ◌
visit_settles_example =
    visit_settles no_time world status_a one entry_a cred_a (pos 30) false refl refl refl refl refl

abbrev jobs : Hours
jobs = record { checkin = pos 9 ∷ pos 21 ∷ []; keepalive = pos 0 ∷ pos 12 ∷ [] }

next_fire_due_example :
    (contains jobs.checkin (pos 12) ≡ true) ⊎ (contains jobs.keepalive (pos 12) ≡ true)
unfolding next_fire ◌+ℤ◌
next_fire_due_example =
    next_fire_due jobs from_day_one (pos day) ten (pos (day + 12 * hour))
      (pos (day + 12 * hour + 60_000_000_000)) (pos 12) (omega arith) (omega arith)
      (
        (omega arith, omega arith),
        (
          (omega arith, omega arith),
          ((omega arith, omega arith), ((omega arith, omega arith), tt)),
        ),
      )
      refl refl (omega arith) (omega arith)
      ((omega arith, omega arith), (pos (day + 12 * hour), inl refl, omega arith, omega arith))

-- Without hours the hours of `New` are taken.
takes_the_default_hours : new_hours (record { checkin = []; keepalive = [] }) ≡ jobs
unfolding new_hours
takes_the_default_hours = refl
