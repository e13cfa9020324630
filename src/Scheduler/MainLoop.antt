-- ===== src/Scheduler/MainLoop.antt =====
-- The main loop of the scheduler.
use qoderwork2api.Common.{
  ℕ, ◌+◌, ◌*◌, ◌≤◌, ◌<◌, ap, ◌≡◌, subst, ◌∙◌, ◌⊎◌, inl, inr, Bool, true, false, List, [], ◌∷◌, ◌++◌,
  Option, some, arith, All, All-In, In, if◌then◌else◌,
}
use qoderwork2api.Common.Int.{ℤ, pos, negsuc, pos_part, neg_part, ◌+ℤ◌, ◌≤ℤ◌, ◌<ℤ◌}
use qoderwork2api.Common.Eq.{Text, int_instance}
use qoderwork2api.Pool.{Pool}
use qoderwork2api.Pool.Shape.{IsWellFormed, run-IsWellFormed}
use qoderwork2api.Scheduler.{
  Hours, Wake, hour, day, hours_long, contains, all_hours, next_fire, checkin_if_due, wake_up,
  run_loop,
}
use qoderwork2api.Scheduler.NextFire.{IsMoment, IsNear, IsFire, next_fire-IsFire}
use qoderwork2api.Scheduler.Jobs.{run_checkin_now-IsWellFormed}

-- A time of the day.
abbrev pub IsHour : ℤ → Type 0
IsHour h = (pos 0 ≤ℤ h) × (h <ℤ pos 24)

-- The instants of the hours where the clock is not changed: they count from midnight on.
abbrev pub from_midnight : ℤ → ℤ → ℤ
from_midnight midnight h = midnight +ℤ hours_long h

-- The clock shows the hour `h` at the time `t`, on this day or the next.
abbrev pub Shows : ℤ → ℤ → ℤ → Type 0
Shows midnight t h =
    IsHour h × ((s : ℤ) × IsMoment (from_midnight midnight) h s × (s ≤ℤ t) × (t <ℤ s +ℤ pos hour))

In-contains : (h : ℤ) (hours : List ℤ) → In h hours → contains hours h ≡ true
unfolding contains
In-contains h [] i = elim i [ ]
In-contains h (v ∷ hours) (inl e) = ground (arith, int_instance.agrees_iff v h, e)
In-contains h (v ∷ hours) (inr i) = ground (arith, In-contains h hours i)

In-append-cases : (h : ℤ) (xs ys : List ℤ) → In h (xs ++ ys) → In h xs ⊎ In h ys
In-append-cases h [] ys i = inr i
In-append-cases h (x ∷ xs) ys (inl e) = inl (inl e)
In-append-cases h (x ∷ xs) ys (inr i) = elim (In-append-cases h xs ys i) [
  | inl j ↦ inl (inr j)
  | inr j ↦ inr j
]

-- What a sum is, over the parts of the integers.
+ℤ-parts :
    (a b : ℤ)
    → pos_part (a +ℤ b) + (neg_part a + neg_part b) ≡ pos_part a + pos_part b + neg_part (a +ℤ b)
unfolding ◌+ℤ◌
+ℤ-parts a b = ground arith

-- The same of a moment: `n` days and `h` hours after midnight, with `n` at most one.
AfterMidnight : ℤ → ℕ → ℤ → Type 0
AfterMidnight midnight h t =
    (n : ℕ) × (n ≤ 1)
    × (pos_part t + neg_part midnight ≡ pos_part midnight + h * hour + n * day + neg_part t)

IsMoment-AfterMidnight :
    (midnight t : ℤ) (h : ℕ)
    → IsMoment (from_midnight midnight) (pos h) t
    → AfterMidnight midnight h t
unfolding AfterMidnight
IsMoment-AfterMidnight midnight t h (inl m) =
    rw m (0, omega arith, omega (arith, +ℤ-parts midnight (hours_long (pos h))))
IsMoment-AfterMidnight midnight t h (inr m) =
    let start = midnight +ℤ hours_long (pos h) in
    rw m (
      1,
      omega arith,
      omega (arith, +ℤ-parts midnight (hours_long (pos h)), +ℤ-parts start (pos day)),
    )

-- Two hours of the clock within an hour of each other are the same.
same_hour :
    (midnight t s now : ℤ) (h k : ℕ)
    → h < 24
    → k < 24
    → AfterMidnight midnight h t
    → AfterMidnight midnight k s
    → t ≤ℤ now
    → now <ℤ t +ℤ pos hour
    → s ≤ℤ now
    → now <ℤ s +ℤ pos hour
    → h ≡ k
unfolding AfterMidnight
same_hour midnight t s now h k below below' (n, one, at) (n', one', at') a b c d =
    omega (arith, +ℤ-parts t (pos hour), +ℤ-parts s (pos hour))

same_shown_hour :
    (midnight t s now h k : ℤ)
    → IsHour h
    → IsHour k
    → IsMoment (from_midnight midnight) h t
    → IsMoment (from_midnight midnight) k s
    → t ≤ℤ now
    → now <ℤ t +ℤ pos hour
    → s ≤ℤ now
    → now <ℤ s +ℤ pos hour
    → h ≡ k
same_shown_hour midnight t s now (negsuc h) k range r m m' a b c d = absurd (omega (arith, range))
same_shown_hour midnight t s now (pos h) (negsuc k) r range m m' a b c d =
    absurd (omega (arith, range))
same_shown_hour midnight t s now (pos h) (pos k) r r' m m' a b c d = ap pos (
    same_hour midnight t s now h k (omega (arith, r)) (omega (arith, r'))
      (IsMoment-AfterMidnight midnight t h m) (IsMoment-AfterMidnight midnight s k m') a b c d)

hour-IsNear :
    (midnight now : ℤ) (h : ℕ)
    → midnight ≤ℤ now
    → now <ℤ midnight +ℤ pos day
    → h < 24
    → IsNear (from_midnight midnight) now (pos h)
hour-IsNear midnight now h after before below = (
  omega (
    arith,
    +ℤ-parts midnight (hours_long (pos h)),
    +ℤ-parts (from_midnight midnight (pos h)) (pos day),
    +ℤ-parts midnight (pos day),
  ),
  omega (arith, +ℤ-parts midnight (hours_long (pos h)), +ℤ-parts now (pos day)),
)

hours-IsNear :
    (midnight now : ℤ) (hours : List ℤ)
    → midnight ≤ℤ now
    → now <ℤ midnight +ℤ pos day
    → All IsHour hours
    → All (IsNear (from_midnight midnight) now) hours
hours-IsNear midnight now [] after before range = tt
hours-IsNear midnight now (negsuc h ∷ hours) after before range = absurd (omega (arith, range.0))
hours-IsNear midnight now (pos h ∷ hours) after before range = (
  hour-IsNear midnight now h after before (omega (arith, range.0)),
  hours-IsNear midnight now hours after before range.1,
)

pub next_fire_due :
    (hours : Hours) (date : ℤ → ℤ) (midnight now t later h : ℤ)
    → midnight ≤ℤ now
    → now <ℤ midnight +ℤ pos day
    → All IsHour (all_hours hours)
    → from_midnight midnight ≡ date
    → next_fire date now (all_hours hours) ≡ some t
    → t ≤ℤ later
    → later <ℤ t +ℤ pos hour
    → Shows midnight later h
    → (contains hours.checkin h ≡ true) ⊎ (contains hours.keepalive h ≡ true)
next_fire_due hours date midnight now t later h after before range zone chosen from til
      (is, (s, m, c, d)) =
    let steady : next_fire (from_midnight midnight) now (all_hours hours) ≡ some t =
      ap (λ (f : ℤ → ℤ). next_fire f now (all_hours hours)) zone ∙ chosen in
    let ((k, i, (moment, ahead, soon, first)), leads) =
      subst (IsFire (from_midnight midnight) now (all_hours hours)) steady (
        next_fire-IsFire (from_midnight midnight) now (all_hours hours)
          (hours-IsNear midnight now (all_hours hours) after before range)) in
    let same =
      same_shown_hour midnight t s later k h (All-In IsHour k (all_hours hours) range i) is moment m
        from til c d in
    let mine = subst (λ (j : ℤ). In j (all_hours hours)) same i in
    elim (In-append-cases h hours.checkin hours.keepalive mine) [
      | inl j ↦ inl (In-contains h hours.checkin j)
      | inr j ↦ inr (In-contains h hours.keepalive j)
    ]

module _ (parse_time : Text → Option ℤ) (hours : Hours) where
  wake_up-IsWellFormed :
      (w : Wake) (p : Pool) → IsWellFormed p → IsWellFormed (wake_up parse_time hours w p)
  unfolding wake_up
  wake_up-IsWellFormed w p wf =
      let q = checkin_if_due parse_time hours w p in
      let shape : IsWellFormed q =
        if_kept (contains hours.checkin w.hour_now) p _ wf
          (run_checkin_now-IsWellFormed parse_time w.at_checkin w.at_save w.checkins
            w.beside_checkins p wf).0 in
      if_kept (contains hours.keepalive w.hour_now) q _ shape
        (run_checkin_now-IsWellFormed parse_time w.at_keepalive w.at_save w.keepalives
          w.beside_keepalives q shape).1
    where
      if_kept :
          (b : Bool) (p q : Pool)
          → IsWellFormed p
          → IsWellFormed q
          → IsWellFormed (if b then q else p)
      if_kept true p q w v = v
      if_kept false p q w v = w

  -- However often the scheduler wakes, the pool stays in shape.
  pub run_loop-IsWellFormed :
      (wakes : List Wake) (p : Pool)
      → IsWellFormed p
      → IsWellFormed (run_loop parse_time hours wakes p)
  unfolding run_loop
  run_loop-IsWellFormed [] p w = w
  run_loop-IsWellFormed (wake ∷ wakes) p w =
      run_loop-IsWellFormed wakes _ (wake_up-IsWellFormed wake _ (run-IsWellFormed p wake.before w))
