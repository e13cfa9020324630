-- ===== src/Server/Chat/Rotation.antt =====
-- The rotation over the accounts: it ends, it asks no account twice, and it keeps the pool in shape.
use qoderwork2api.Common.{
  ℕ, zero, suc, ◌+◌, ◌≤◌, ◌<◌, ap, subst, ◌≡◌, refl, sym, ◌∙◌, ◌⊎◌, inl, inr, false, List, [], ◌∷◌,
  Option, none, some, arith, Option-cases, length,
}
use qoderwork2api.Common.Int.{ℤ}
use qoderwork2api.Common.Eq.{Text, text_instance}
use qoderwork2api.Cred.{Cred}
use qoderwork2api.Pool.{Pool, Env, is_tried, pick_excluding}
use qoderwork2api.Pool.Shape.{IsWellFormed, Call, run, run-IsWellFormed}
use qoderwork2api.Pool.Pick.{NoneEligible, pick_excluding-none}
use qoderwork2api.Pool.Cooling.{pick_excluding_entry}
use qoderwork2api.Server.Chat.{
  Config, rotations, Round, Attempt, served, failed, streamed, unavailable, Outcome, asks,
  try_account, rotate,
}
use qoderwork2api.Server.Chat.Shape.{try_account-IsWellFormed}

-- No uid stands twice.
abbrev pub IsDistinct : List Text → Type 0
IsDistinct [] = Unit
IsDistinct (uid ∷ uids) = (is_tried uid uids ≡ false) × IsDistinct uids

-- None of the uids of the second list is tried.
abbrev AllNew : List Text → List Text → Type 0
AllNew tried [] = Unit
AllNew tried (uid ∷ uids) = (is_tried uid tried ≡ false) × AllNew tried uids

AllNew-cons :
    (g : Text) (tried uids : List Text)
    → AllNew (g ∷ tried) uids
    → AllNew tried uids × (is_tried g uids ≡ false)
unfolding is_tried
AllNew-cons g tried [] a = (tt, refl)
AllNew-cons g tried (u ∷ us) (new, a) =
    let (rest, not_there) = AllNew-cons g tried us a in
    (
      (ground (arith, new), rest),
      ground (arith, new, not_there, text_instance.agrees_iff g u, text_instance.agrees_iff u g),
    )

module _ (parse_time : Text → Option ℤ) (lower : ℕ → ℕ) (cut : Text → Text) (cfg : Config)
    (rounds : ℕ → Round) (others : ℕ → List (Env × Call)) where
  -- One round of the loop, as the three ways in which it can go on.
  pub data Turn (n i : ℕ) (tried : List Text) (last : Option Text) (p : Pool) (o : Outcome)
      : Type 0 where
    stops :
        pick_excluding (rounds i).at_pick tried (run p (others i)) ≡ none
        → o
          ≡ record { pool = run p (others i); tried = tried; asked = []; answer = unavailable last }
        → Turn n i tried last p o
    streams :
        (acct : Cred)
        → (body : Text) → (q : Pool)
        → pick_excluding (rounds i).at_pick tried (run p (others i)) ≡ some acct
        → try_account parse_time lower cut cfg (rounds i) acct (run p (others i)) ≡ (q, served body)
        → o ≡ record {
          pool = q;
          tried = acct.uid ∷ tried;
          asked = acct.uid ∷ [];
          answer = streamed acct.uid body;
        }
        → Turn n i tried last p o
    goes_on :
        (acct : Cred)
        → (text : Text) → (q : Pool)
        → pick_excluding (rounds i).at_pick tried (run p (others i)) ≡ some acct
        → try_account parse_time lower cut cfg (rounds i) acct (run p (others i)) ≡ (q, failed text)
        → o
          ≡ asks acct.uid (
              rotate parse_time lower cut cfg rounds others n
                (suc i)
                (acct.uid ∷ tried)
                (some text)
                q)
        → Turn n i tried last p o

  Attempt-cases :
      (r : Pool × Attempt)
      → ((q : Pool) × (body : Text) × (r ≡ (q, served body)))
        ⊎ ((q : Pool) × (text : Text) × (r ≡ (q, failed text)))
  Attempt-cases (q, served body) = inl (q, body, refl)
  Attempt-cases (q, failed text) = inr (q, text, refl)

  pub turn :
      (n i : ℕ) (tried : List Text) (last : Option Text) (p : Pool)
      → Turn n i tried last p (rotate parse_time lower cut cfg rounds others (suc n) i tried last p)
  unfolding rotate
  turn n i tried last p =
      elim (Option-cases (pick_excluding (rounds i).at_pick tried (run p (others i)))) [
        | inl e ↦ stops e (rw (e, rotate) refl)
        | inr (acct, e) ↦
            elim (Attempt-cases
              (try_account parse_time lower cut cfg (rounds i) acct (run p (others i)))) [
                | inl (q, body, f) ↦ streams acct body q e f (
                    rw
                      (
                        e,
                        rotate,
                        ap (λ (r : Pool × Attempt). r.1) f,
                        ap (λ (r : Pool × Attempt). r.0) f,
                      )
                      refl)
                | inr (q, text, f) ↦ goes_on acct text q e f (
                    rw
                      (
                        e,
                        rotate,
                        ap (λ (r : Pool × Attempt). r.1) f,
                        ap (λ (r : Pool × Attempt). r.0) f,
                      )
                      refl)
              ]
      ]

  -- After a round the uid is new and the pool in shape.
  after_round :
      (i : ℕ) (tried : List Text) (p q : Pool) (acct : Cred) (a : Attempt)
      → IsWellFormed p
      → pick_excluding (rounds i).at_pick tried (run p (others i)) ≡ some acct
      → try_account parse_time lower cut cfg (rounds i) acct (run p (others i)) ≡ (q, a)
      → (is_tried acct.uid tried ≡ false) × IsWellFormed q
  after_round i tried p q acct a w e f =
      let w' = run-IsWellFormed p (others i) w in
      let (entry, found, ok, new) =
        pick_excluding_entry (rounds i).at_pick tried (run p (others i)) acct w' e in
      (
        new,
        subst (λ (r : Pool × Attempt). IsWellFormed r.0) f
            (try_account-IsWellFormed parse_time lower cut cfg (rounds i) acct (run p (others i))
              w'),
      )

  -- What holds of the accounts asked in `n` rounds that begin with `tried`.
  abbrev Bounded : ℕ → List Text → Outcome → Type 0
  Bounded n tried o =
      IsDistinct o.asked × AllNew tried o.asked × (length o.asked ≤ n) × IsWellFormed o.pool

  rotate-Bounded :
      (n i : ℕ) (tried : List Text) (last : Option Text) (p : Pool)
      → IsWellFormed p
      → Bounded n tried (rotate parse_time lower cut cfg rounds others n i tried last p)
  rotate-Bounded zero i tried last p w = unfold rotate in (tt, tt, omega arith, w)
  rotate-Bounded (suc n) i tried last p w = elim (turn n i tried last p) [
    | stops e o ↦ rw o (tt, tt, omega arith, run-IsWellFormed p (others i) w)
    | streams acct body q e f o ↦
        let (new, w') = after_round i tried p q acct (served body) w e f in
        unfold is_tried in rw o ((refl, tt), (new, tt), omega arith, w')
    | goes_on acct text q e f o ↦
        let (new, w') = after_round i tried p q acct (failed text) w e f in
        let (distinct, fresh, size, shape) =
          rotate-Bounded n (suc i) (acct.uid ∷ tried) (some text) q w' in
        let (others_new, not_again) = AllNew-cons acct.uid tried _ fresh in
        rw o ((not_again, distinct), (new, others_new), omega arith, shape)
  ]

  -- However the other requests and the scheduler change the pool in between, no account is asked
  -- in two rounds of a request, and `max_rotate` rounds at most ask one; the pool stays in shape.
  pub rotate-IsDistinct :
      (p : Pool)
      → IsWellFormed p
      → let o = rotate parse_time lower cut cfg rounds others (rotations cfg) 0 [] none p in
        IsDistinct o.asked × (length o.asked ≤ rotations cfg) × IsWellFormed o.pool
  rotate-IsDistinct p w =
      let (distinct, fresh, size, shape) = rotate-Bounded (rotations cfg) 0 [] none p w in
      (distinct, size, shape)

  -- The two reasons for the answer that no account is available.
  abbrev pub GaveUp : ℕ → Outcome → Type 0
  GaveUp n o =
      (length o.tried ≡ n)
      ⊎ ((j : ℕ) × (j < n) × NoneEligible o.tried (rounds j).at_pick.now o.pool.by_uid)

  rotate-GaveUp :
      (n i : ℕ) (tried : List Text) (last told : Option Text) (p : Pool)
      → length tried ≡ i
      → (rotate parse_time lower cut cfg rounds others n i tried last p).answer ≡ unavailable told
      → GaveUp (i + n) (rotate parse_time lower cut cfg rounds others n i tried last p)
  rotate-GaveUp zero i tried last told p size h = unfold rotate in inl (omega arith)
  rotate-GaveUp (suc n) i tried last told p size h = elim (turn n i tried last p) [
    | stops e o ↦
        rw o
          (inr (i, omega arith, pick_excluding-none (rounds i).at_pick tried (run p (others i)) e))
    | streams acct body q e f o ↦ cc
    | goes_on acct text q e f o ↦
        let same : suc i + n ≡ i + suc n = omega arith in
        rw (o, ← same)
          (rotate-GaveUp n (suc i) (acct.uid ∷ tried) (some text) told q (omega arith)
            (ap (λ (r : Outcome). r.answer) (sym o) ∙ h))
  ]

  -- A request is answered that no account is available only after `max_rotate` accounts failed,
  -- or in a round in which no account was healthy and not tried yet.
  pub rotate_unavailable :
      (p : Pool) (told : Option Text)
      → (rotate parse_time lower cut cfg rounds others (rotations cfg) 0 [] none p).answer
        ≡ unavailable told
      → GaveUp
          (rotations cfg)
          (rotate parse_time lower cut cfg rounds others (rotations cfg) 0 [] none p)
  rotate_unavailable p told h =
      let same : 0 + rotations cfg ≡ rotations cfg = omega arith in
      subst
        (λ n. GaveUp n (rotate parse_time lower cut cfg rounds others (rotations cfg) 0 [] none p))
        same (rotate-GaveUp (rotations cfg) 0 [] none told p refl h)
