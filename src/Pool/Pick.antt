-- ===== src/Pool/Pick.antt =====
-- What `PickExcluding` chooses, for every order in which the map is walked.
use qoderwork2api.Common.{
  ℕ, ap, subst, ◌≡◌, refl, sym, ◌∙◌, inl, inr, ◌⊎◌, true, false, List, [], ◌∷◌, Option, none, some,
  arith, In, Bool-cases,
}
use qoderwork2api.Common.Int.{≤ℤ_trans, ◌≤ℤ◌, ltb_ℤ}
use qoderwork2api.Common.Eq.{Text}
use qoderwork2api.Common.Dict.{Dict}
use qoderwork2api.Pool.{
  Pool, Env, Entry, healthy, is_tried, better, pick_loop, pick_excluding, cred_of,
}

-- An account that may be chosen.
abbrev pub IsEligible : List Text → ℕ → Text → Entry → Type 0
IsEligible tried now uid e = (is_tried uid tried ≡ false) × (healthy e now ≡ true)

-- Of the eligible accounts in the map, none has more credits than `b`.
abbrev pub IsBound : List Text → ℕ → Entry → Dict Text Entry → Type 0
IsBound tried now b m =
    (uid : Text) (e : Entry) → In (uid, e) m → IsEligible tried now uid e → e.credits ≤ℤ b.credits

abbrev pub NoneEligible : List Text → ℕ → Dict Text Entry → Type 0
NoneEligible tried now m = (uid : Text) (e : Entry) → In (uid, e) m → ¬ IsEligible tried now uid e

-- What one round leaves, with an account in hand.
BetterThan : List Text → ℕ → Entry → Text → Entry → Entry → Type 0
BetterThan tried now b uid e c =
    (better tried now (some b) uid e ≡ some c)
    × (b.credits ≤ℤ c.credits)
    × (IsEligible tried now uid e → e.credits ≤ℤ c.credits)
    × ((c ≡ b) ⊎ ((c ≡ e) × IsEligible tried now uid e))

better-some :
    (tried : List Text) (now : ℕ) (b : Entry) (uid : Text) (e : Entry)
    → (c : Entry) × BetterThan tried now b uid e c
unfolding BetterThan better
better-some tried now b uid e = elim (Bool-cases (is_tried uid tried)) [
  | inl t ↦ (b, (rw t, omega arith, (λ h. absurd (cc (h.0, t))), inl refl))
  | inr t ↦ elim (Bool-cases (healthy e now)) [
    | inr h ↦ (b, (rw (t, h), omega arith, (λ k. absurd (cc (k.1, h))), inl refl))
    | inl h ↦ elim (Bool-cases (ltb_ℤ b.credits e.credits)) [
      | inl l ↦ (e, (rw (t, h, l), ground arith, (λ k. omega arith), inr (refl, (t, h))))
      | inr l ↦ (b, (rw (t, h, l), omega arith, (λ k. ground arith), inl refl))
    ]
  ]
]

-- The two cases of a member of a longer map.
module _ (uid j : Text) (e w : Entry) (m : Dict Text Entry) where
  In-cases :
      (P : Text → Entry → Type 0)
      → P j w
      → (In (uid, e) m → P uid e)
      → In (uid, e) ((j, w) ∷ m)
      → P uid e
  In-cases P here there (inl p) = subst (λ (kv : Text × Entry). P kv.0 kv.1) p here
  In-cases P here there (inr i) = there i

-- The chosen account is the one in hand, or an eligible one of the map.
abbrev Source : List Text → ℕ → Entry → Dict Text Entry → Entry → Type 0
Source tried now b m c = (c ≡ b) ⊎ ((uid : Text) × In (uid, c) m × IsEligible tried now uid c)

join-Source :
    (tried : List Text) (now : ℕ) (b a c : Entry) (j : Text) (w : Entry) (m : Dict Text Entry)
    → (a ≡ b) ⊎ ((a ≡ w) × IsEligible tried now j w)
    → Source tried now a m c
    → Source tried now b ((j, w) ∷ m) c
join-Source tried now b a c j w m (inl p) (inl q) = inl (q ∙ p)
join-Source tried now b a c j w m (inr (p, h)) (inl q) =
    let same : w ≡ c = sym (q ∙ p) in
    inr (j, inl (ap (λ (e : Entry). (j, e)) same), subst (IsEligible tried now j) same h)
join-Source tried now b a c j w m p (inr (uid, i, h)) = inr (uid, inr i, h)

join-IsBound :
    (tried : List Text) (now : ℕ) (c : Entry) (j : Text) (w : Entry) (m : Dict Text Entry)
    → (IsEligible tried now j w → w.credits ≤ℤ c.credits)
    → IsBound tried now c m
    → IsBound tried now c ((j, w) ∷ m)
join-IsBound tried now c j w m here there uid e i =
    In-cases uid j e w m (λ u f. IsEligible tried now u f → f.credits ≤ℤ c.credits) here
      (λ i'. there uid e i') i

pick_loop-some :
    (tried : List Text) (now : ℕ) (b : Entry) (m : Dict Text Entry)
    → (c : Entry) × (pick_loop tried now (some b) m ≡ some c)
      × (b.credits ≤ℤ c.credits)
      × IsBound tried now c m
      × Source tried now b m c
unfolding pick_loop BetterThan
pick_loop-some tried now b [] = (b, refl, omega arith, (λ uid e i. elim i [ ]), inl refl)
pick_loop-some tried now b ((j, w) ∷ m) =
    let (a, (eq, up, beats, from)) = better-some tried now b j w in
    let (c, eq', up', bound, from') = pick_loop-some tried now a m in
    (
      c,
      rw eq eq',
      ≤ℤ_trans b.credits a.credits c.credits up up',
      join-IsBound tried now c j w m (λ h. ≤ℤ_trans w.credits a.credits c.credits (beats h) up')
          bound,
      join-Source tried now b a c j w m from from',
    )

-- What the choice from a map is: nothing if no account is eligible, and else one of the eligible
-- accounts with the most credits.
abbrev pub Chooses : List Text → ℕ → Dict Text Entry → Option Entry → Type 0
Chooses tried now m none = NoneEligible tried now m
Chooses tried now m (some c) =
    (uid : Text) × In (uid, c) m × IsEligible tried now uid c × IsBound tried now c m

better-none :
    (tried : List Text) (now : ℕ) (uid : Text) (e : Entry)
    → ((better tried now none uid e ≡ some e) × IsEligible tried now uid e)
      ⊎ ((better tried now none uid e ≡ none) × (¬ IsEligible tried now uid e))
unfolding better
better-none tried now uid e = elim (Bool-cases (is_tried uid tried)) [
  | inl t ↦ inr (rw t, λ h. absurd (cc (h.0, t)))
  | inr t ↦ elim (Bool-cases (healthy e now)) [
    | inr h ↦ inr (rw (t, h), λ k. absurd (cc (k.1, h)))
    | inl h ↦ inl (rw (t, h), (t, h))
  ]
]

choose_here :
    (tried : List Text) (now : ℕ) (j : Text) (w : Entry) (m : Dict Text Entry)
    → IsEligible tried now j w
    → Chooses tried now ((j, w) ∷ m) (pick_loop tried now (some w) m)
choose_here tried now j w m h =
    let (c, eq, up, bound, from) = pick_loop-some tried now w m in
    let bound' = join-IsBound tried now c j w m (λ k. up) bound in
    rw eq (elim (join-Source tried now w w c j w m (inr (refl, h)) from) [
      | inl same ↦ (
        j,
        inl (ap (λ (e : Entry). (j, e)) (sym same)),
        subst (IsEligible tried now j) (sym same) h,
        bound',
      )
      | inr (uid, i, k) ↦ (uid, i, k, bound')
    ])

choose_there :
    (tried : List Text) (now : ℕ) (j : Text) (w : Entry) (m : Dict Text Entry) (r : Option Entry)
    → ¬ IsEligible tried now j w
    → Chooses tried now m r
    → Chooses tried now ((j, w) ∷ m) r
choose_there tried now j w m none bad h =
    λ uid e i. In-cases uid j e w m (λ u f. ¬ IsEligible tried now u f) bad (λ i'. h uid e i') i
choose_there tried now j w m (some c) bad (uid, i, k, bound) =
    (uid, inr i, k, join-IsBound tried now c j w m (λ k'. absurd (bad k')) bound)

pick_loop-Chooses :
    (tried : List Text) (now : ℕ) (m : Dict Text Entry)
    → Chooses tried now m (pick_loop tried now none m)
unfolding pick_loop
pick_loop-Chooses tried now [] = λ uid e i. elim i [ ]
pick_loop-Chooses tried now ((j, w) ∷ m) = elim (better-none tried now j w) [
  | inl (eq, h) ↦ rw eq (choose_here tried now j w m h)
  | inr (eq, bad) ↦ rw eq (choose_there tried now j w m _ bad (pick_loop-Chooses tried now m))
]

-- The credential that is given out belongs to an account that is healthy, was not tried, and has
-- at least the credits of every other such account; none is given out only if there is no such
-- account.
pub pick_excluding_best :
    (env : Env) (tried : List Text) (p : Pool)
    → (best : Option Entry) × (pick_excluding env tried p ≡ cred_of best)
      × Chooses tried env.now p.by_uid best
unfolding pick_excluding
pick_excluding_best env tried p =
    let best = pick_loop tried env.now none p.by_uid in
    (best, refl, pick_loop-Chooses tried env.now p.by_uid)

Chooses-none :
    (tried : List Text) (now : ℕ) (m : Dict Text Entry) (best : Option Entry)
    → cred_of best ≡ none
    → Chooses tried now m best
    → NoneEligible tried now m
Chooses-none tried now m none h chosen = chosen
Chooses-none tried now m (some e) h chosen = cc

-- Nothing is given out only if nobody is eligible.
pub pick_excluding-none :
    (env : Env) (tried : List Text) (p : Pool)
    → pick_excluding env tried p ≡ none
    → NoneEligible tried env.now p.by_uid
pick_excluding-none env tried p h =
    let (best, eq, chosen) = pick_excluding_best env tried p in
    Chooses-none tried env.now p.by_uid best (sym eq ∙ h) chosen
