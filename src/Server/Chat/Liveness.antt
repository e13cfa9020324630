-- ===== src/Server/Chat/Liveness.antt =====
-- A request is served if one account of the pool can serve it.
use qoderwork2api.Common.{
  ℕ, zero, suc, ◌≤◌, ◌<◌, ap, subst, ◌≡◌, ◌≢◌, refl, sym, ◌∙◌, inl, inr, true, false, List, [], ◌∷◌,
  Option, none, some, arith, Bool-cases, In, length, if◌then◌else◌,
}
use qoderwork2api.Common.Int.{ℤ}
use qoderwork2api.Common.Eq.{Text, text_instance, ◌==◌}
use qoderwork2api.Common.Dict.{lookup, In-lookup}
use qoderwork2api.Cred.{Cred}
use qoderwork2api.Pool.{Pool, Env, Entry, is_tried, healthy, pick_excluding}
use qoderwork2api.Pool.Shape.{IsWellFormed, Call, run, run-IsWellFormed}
use qoderwork2api.Pool.Pick.{pick_excluding-none}
use qoderwork2api.Pool.Cooling.{pick_excluding_entry, pick_excluding_cred}
use qoderwork2api.Server.Chat.{
  Config, new_handler, rotations, Round, Attempt, served, failed, streamed, Outcome, try_account,
  rotate,
}
use qoderwork2api.Server.Chat.Shape.{try_account-IsWellFormed}
use qoderwork2api.Server.Chat.Punish.{Leaves, try_account-Leaves}
use qoderwork2api.Server.Chat.Rotation.{stops, streams, goes_on, turn}

-- How many uids of a list are not tried yet.
untried : List Text → List Text → ℕ
untried tried [] = 0
untried tried (u ∷ us) = let rest = untried tried us in if is_tried u tried then rest else suc rest

untried-length : (us : List Text) → untried [] us ≤ length us
unfolding untried is_tried
untried-length [] = omega arith
untried-length (u ∷ us) = omega (arith, untried-length us)

untried_some :
    (g : Text) (tried us : List Text) → is_tried g tried ≡ false → In g us → 0 < untried tried us
unfolding untried
untried_some g tried [] new i = elim i [ ]
untried_some g tried (u ∷ us) new (inl same) =
    ground (arith, ap (λ (v : Text). is_tried v tried) same)
untried_some g tried (u ∷ us) new (inr i) = ground (arith, untried_some g tried us new i)

untried_less : (g : Text) (tried us : List Text) → untried (g ∷ tried) us ≤ untried tried us
unfolding untried is_tried
untried_less g tried [] = omega arith
untried_less g tried (u ∷ us) = ground (arith, untried_less g tried us)

untried-cons :
    (g : Text) (tried us : List Text)
    → is_tried g tried ≡ false
    → In g us
    → untried (g ∷ tried) us < untried tried us
unfolding untried is_tried
untried-cons g tried [] new i = elim i [ ]
untried-cons g tried (u ∷ us) new (inl same) = ground (
  arith,
  untried_less g tried us,
  ap (λ (v : Text). is_tried v tried) same,
  text_instance.agrees_iff g u,
  same,
)
untried-cons g tried (u ∷ us) new (inr i) =
    ground (arith, untried-cons g tried us new i, untried_less g tried us)

still_new :
    (g uid : Text) (tried : List Text)
    → uid ≢ g
    → is_tried g tried ≡ false
    → is_tried g (uid ∷ tried) ≡ false
unfolding is_tried
still_new g uid tried other new = ground (arith, text_instance.agrees_iff uid g)

-- All accounts of the pool are in the list.
abbrev pub Covers : List Text → Pool → Type 0
Covers us p = (j : Text) (e : Entry) → lookup j p.by_uid ≡ some e → In j us

module _ (parse_time : Text → Option ℤ) (lower : ℕ → ℕ) (cut : Text → Text) (cfg0 : Config)
    (rounds : ℕ → Round) (others : ℕ → List (Env × Call)) (g : Text) (e : Entry)
    (us : List Text) where
  -- The account `g` is healthy in every round, with the credential of the entry `e` it serves the
  -- request, and what the others do meanwhile neither changes this entry nor adds an account.
  pub record IsServing : Type 0 where
    pub healthy : (i : ℕ) → healthy e (rounds i).at_pick.now ≡ true
    pub serves :
        (i : ℕ) (p : Pool)
        → (body : Text) × ((try_account parse_time lower cut
              (new_handler cfg0)
              (rounds i)
              e.cred
              p).1
            ≡ served body)
    pub keeps : (i : ℕ) (p : Pool) → lookup g (run p (others i)).by_uid ≡ lookup g p.by_uid
    pub adds_none : (i : ℕ) (p : Pool) → Covers us p → Covers us (run p (others i))

  -- The account stands in the pool, and the list covers the pool.
  abbrev Has : Pool → Type 0
  Has p = IsWellFormed p × (lookup g p.by_uid ≡ some e) × Covers us p

  Has-run : (i : ℕ) (p : Pool) → IsServing → Has p → Has (run p (others i))
  Has-run i p serving (w, at, covers) =
      (run-IsWellFormed p (others i) w, serving.keeps i p ∙ at, serving.adds_none i p covers)

  -- With the account's own credential no round fails.
  serves_own :
      (i : ℕ) (p q : Pool) (acct : Cred) (text : Text)
      → IsServing
      → e.cred ≡ acct
      → try_account parse_time lower cut (new_handler cfg0) (rounds i) acct p ≢ (q, failed text)
  serves_own i p q acct text serving its fails =
      let (body, serves) = serving.serves i p in
      let same : served body ≡ failed text =
        sym serves
        ∙ ap (λ (c : Cred). (try_account parse_time lower cut (new_handler cfg0) (rounds i) c p).1)
            its
        ∙ ap (λ (r : Pool × Attempt). r.1) fails in
      cc same

  -- A failed round was not the account's, and leaves it where it is.
  after_failure :
      (i : ℕ) (p q : Pool) (acct : Cred) (text : Text) (tried : List Text)
      → IsServing
      → Has p
      → pick_excluding (rounds i).at_pick tried p ≡ some acct
      → try_account parse_time lower cut (new_handler cfg0) (rounds i) acct p ≡ (q, failed text)
      → Has q × (acct.uid ≢ g) × (is_tried acct.uid tried ≡ false) × In acct.uid us
  after_failure i p q acct text tried serving (w, at, covers) picked fails =
      let (there, found, its) = pick_excluding_cred (rounds i).at_pick tried p acct w picked in
      let (entry, found', ok, new) =
        pick_excluding_entry (rounds i).at_pick tried p acct w picked in
      let (self, rest) =
        subst (Leaves parse_time lower cut cfg0 acct.uid (rounds i).at_end.now p) fails
          (try_account-Leaves parse_time lower cut cfg0 (rounds i) acct p) in
      let other : acct.uid ≢ g = λ same.
        serves_own i p q acct text serving
          (cc (its, ap (λ (u : Text). lookup u p.by_uid) same, at, found)) fails in
      (
        (
          subst (λ (r : Pool × Attempt). IsWellFormed r.0) fails
              (try_account-IsWellFormed parse_time lower cut (new_handler cfg0) (rounds i) acct p
                w),
          rest g (λ h. other (sym h)) ∙ at,
          λ j entry' h. elim (Bool-cases (j == acct.uid)) [
            | inl same ↦
                subst (λ (u : Text). In u us) (sym ((text_instance.agrees_iff j acct.uid).0 same))
                  (covers acct.uid there found)
            | inr differs ↦
                covers j entry' (
                  sym (rest j (λ h'. cc ((text_instance.agrees_iff j acct.uid).1 h', differs))) ∙ h)
          ],
        ),
        other,
        new,
        covers acct.uid there found,
      )

  Served : Outcome → Type 0
  Served o = (uid : Text) × (body : Text) × (o.answer ≡ streamed uid body)

  rotate_serves :
      (n i : ℕ) (tried : List Text) (last : Option Text) (p : Pool)
      → IsServing
      → Has p
      → is_tried g tried ≡ false
      → untried tried us ≤ n
      → Served (rotate parse_time lower cut (new_handler cfg0) rounds others n i tried last p)
  unfolding Served
  rotate_serves zero i tried last p serving (w, at, covers) new enough =
      absurd (omega (arith, enough, untried_some g tried us new (covers g e at)))
  rotate_serves (suc n) i tried last p serving has new enough =
      let (w, at, covers) = Has-run i p serving has in
      elim (turn parse_time lower cut (new_handler cfg0) rounds others n i tried last p) [
        | stops none_left o ↦ absurd (
            pick_excluding-none (rounds i).at_pick tried (run p (others i)) none_left g e
              (In-lookup g e (run p (others i)).by_uid at) (new, serving.healthy i))
        | streams acct body q picked does o ↦ rw o (acct.uid, body, refl)
        | goes_on acct text q picked does o ↦
            let (has', other, fresh, known) =
              after_failure i (run p (others i)) q acct text tried serving (w, at, covers) picked
                does in
            let left = untried-cons acct.uid tried us fresh known in
            rw o (
              rotate_serves n (suc i) (acct.uid ∷ tried) (some text) q serving has'
                (still_new g acct.uid tried other new) (omega (arith, left, enough)))
      ]

  -- If the pool holds a healthy account that would serve the request in whichever round it is asked,
  -- and the rotation is allowed as many rounds as the pool has accounts, then the client gets the
  -- stream of an account, whatever the services answer to the other accounts, as long as meanwhile
  -- nobody changes that account or adds one.
  pub rotate-IsServing :
      (p : Pool)
      → IsWellFormed p
      → lookup g p.by_uid ≡ some e
      → Covers us p
      → length us ≤ rotations (new_handler cfg0)
      → IsServing
      → (uid : Text) × (body : Text) × ((rotate parse_time lower cut
            (new_handler cfg0)
            rounds
            others
            (rotations (new_handler cfg0))
            0
            []
            none
            p).answer
          ≡ streamed uid body)
  unfolding Served is_tried
  rotate-IsServing p w at covers enough serving =
      rotate_serves (rotations (new_handler cfg0)) 0 [] none p serving (w, at, covers) refl
        (omega (arith, enough, untried-length us))
