-- ===== src/Scheduler/NextFire.antt =====
-- The time that `nextFire` chooses.
use qoderwork2api.Common.{
  ◌≡◌, refl, sym, subst, ◌∙◌, ◌⊎◌, inl, inr, List, [], ◌∷◌, Option, none, some, arith, Bool-cases,
  All, In,
}
use qoderwork2api.Common.Int.{ℤ, pos, ◌+ℤ◌, ◌≤ℤ◌, ◌<ℤ◌, ltb_ℤ, ≤ℤ_trans}
use qoderwork2api.Scheduler.{day, moment, earlier, fire_loop, next_fire}

-- The moments of an hour: that of the day of `now`, and the one 24 hours later.
abbrev pub IsMoment : (ℤ → ℤ) → ℤ → ℤ → Type 0
IsMoment date h t = (t ≡ date h) ⊎ (t ≡ date h +ℤ pos day)

-- The hour of this day lies less than 24 hours back, and at most 24 hours ahead.
abbrev pub IsNear : (ℤ → ℤ) → ℤ → ℤ → Type 0
IsNear date now h = (now <ℤ date h +ℤ pos day) × (date h ≤ℤ now +ℤ pos day)

-- The first moment of an hour after `now`, and within a day.
abbrev pub IsNext : (ℤ → ℤ) → ℤ → ℤ → ℤ → Type 0
IsNext date now h t =
    IsMoment date h t
    × (now <ℤ t)
    × (t ≤ℤ now +ℤ pos day)
    × ((t' : ℤ) → IsMoment date h t' → now <ℤ t' → t ≤ℤ t')

moment-IsNext :
    (date : ℤ → ℤ) (now h : ℤ) → IsNear date now h → IsNext date now h (moment date now h)
unfolding moment ◌+ℤ◌
moment-IsNext date now h near =
    (ground arith, ground arith, ground arith, λ t' is_moment ahead. ground arith)

module _ (date : ℤ → ℤ) (now : ℤ) where
  -- No moment of these hours lies between `now` and `t`.
  abbrev pub Leads : List ℤ → ℤ → Type 0
  Leads hours t = (h : ℤ) → In h hours → (t' : ℤ) → IsMoment date h t' → now <ℤ t' → t ≤ℤ t'

  Leads-cons :
      (h t : ℤ) (hours : List ℤ)
      → ((t' : ℤ) → IsMoment date h t' → now <ℤ t' → t ≤ℤ t')
      → Leads hours t
      → Leads (h ∷ hours) t
  Leads-cons h t hours here there h' (inl e) t' m ahead = here t' (rw e m) ahead
  Leads-cons h t hours here there h' (inr i) t' m ahead = there h' i t' m ahead

  -- The earlier of two.
  earlier_lem :
      (e t : ℤ)
      → (c : ℤ) × (earlier (some e) t ≡ some c) × (c ≤ℤ e) × (c ≤ℤ t) × ((c ≡ e) ⊎ (c ≡ t))
  earlier_lem e t = elim (Bool-cases (ltb_ℤ t e)) [
    | inl l ↦ (t, rw l refl, ground arith, ground arith, inr refl)
    | inr l ↦ (e, rw l refl, ground arith, ground arith, inl refl)
  ]

  abbrev FromList : List ℤ → ℤ → Type 0
  FromList hours t = (h : ℤ) × In h hours × IsNext date now h t

  fire_loop-some :
      (hours : List ℤ) (e : ℤ)
      → All (IsNear date now) hours
      → (t : ℤ) × (fire_loop date now (some e) hours ≡ some t)
        × (t ≤ℤ e)
        × Leads hours t
        × ((t ≡ e) ⊎ FromList hours t)
  unfolding fire_loop
  fire_loop-some [] e range = (e, refl, ground arith, λ h i. elim i [ ], inl refl)
  fire_loop-some (h ∷ hours) e range =
      let next = moment-IsNext date now h range.0 in
      let (c, eq, below, below', which) = earlier_lem e (moment date now h) in
      let (t, eq', under, leads, from) = fire_loop-some hours c range.1 in
      (
        t,
        rw eq eq',
        ≤ℤ_trans t c e under below,
        Leads-cons h t hours
            (λ t' m ahead.
              ≤ℤ_trans t (moment date now h) t' (≤ℤ_trans t c (moment date now h) under below')
                (next.3 t' m ahead))
            leads,
        source c t which from next,
      )
    where
      source :
          (c t : ℤ)
          → (c ≡ e) ⊎ (c ≡ moment date now h)
          → (t ≡ c) ⊎ FromList hours t
          → IsNext date now h (moment date now h)
          → (t ≡ e) ⊎ FromList (h ∷ hours) t
      source c t which (inr (j, i, next)) n = inr (j, inr i, next)
      source c t (inl p) (inl q) n = inl (q ∙ p)
      source c t (inr p) (inl q) n = inr (h, inl refl, subst (IsNext date now h) (sym (q ∙ p)) n)

  -- What the next time is.
  abbrev pub IsFire : List ℤ → Option ℤ → Type 0
  IsFire hours none = hours ≡ []
  IsFire hours (some t) = FromList hours t × Leads hours t

  -- If at `now` the hours of the day lie less than 24 hours back and at most 24 hours ahead, as
  -- hours from 0 to 23 do unless the day is longer, the time that is chosen is a moment of one of the
  -- hours, today's or 24 hours later, after `now` and at most 24 hours later, and no moment of any
  -- of the hours comes before it; without hours there is none.
  pub next_fire-IsFire :
      (hours : List ℤ) → All (IsNear date now) hours → IsFire hours (next_fire date now hours)
  unfolding next_fire fire_loop
  next_fire-IsFire [] range = refl
  next_fire-IsFire (h ∷ hours) range =
      let next = moment-IsNext date now h range.0 in
      let (t, eq, under, leads, from) = fire_loop-some hours (moment date now h) range.1 in
      rw eq (
        first t from next,
        Leads-cons h t hours
            (λ t' m ahead. ≤ℤ_trans t (moment date now h) t' under (next.3 t' m ahead)) leads,
      )
    where
      first :
          (t : ℤ)
          → (t ≡ moment date now h) ⊎ FromList hours t
          → IsNext date now h (moment date now h)
          → FromList (h ∷ hours) t
      first t (inr (j, i, next)) n = (j, inr i, next)
      first t (inl q) n = (h, inl refl, subst (IsNext date now h) (sym q) n)
