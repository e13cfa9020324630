-- ===== src/Pool/Resting.antt =====
-- internal/pool/pool.go: what is given out after any calls, and who rests meanwhile.
use qoderwork2api.Common.{
  ℕ, ◌+◌, ◌-◌, ◌<◌, ap, subst, ◌≡◌, refl, sym, ◌∙◌, ◌≢◌, ◌⊎◌, zero, suc, inl, inr, Bool, true,
  false, List, [], ◌∷◌, Option, none, some, arith, if◌then◌else◌, Bool-cases,
}
use qoderwork2api.Common.Int.{ℤ, pos, negsuc, pos_part, neg_part, ◌≤ℤ◌}
use qoderwork2api.Common.Eq.{Text, text_instance, ◌==◌}
use qoderwork2api.Common.Dict.{Dict, lookup, on_some, Unique}
use qoderwork2api.Cred.{Cred}
use qoderwork2api.Pool.{
  Pool, Env, Entry, Account, CoolKind, new, healthy, add_time, cooldown, pick_excluding,
  auth_by_uid, cred_of,
}
use qoderwork2api.Pool.Shape.{
  IsWellFormed, Call, adds, syncs, sets, cools, disables, reenables, notes, succeeds, saves, step,
  step-IsWellFormed, run, run-IsWellFormed, run-new-IsWellFormed,
}
use qoderwork2api.Pool.Cooling.{Rests, resting_not_picked, pick_excluding_cred}
use qoderwork2api.Pool.View.{
  View, view, added, change, change_view, listed, credited, replay, view-step, view-run, with_cred,
  with_creds,
}

-- A call that does not end the rest of the account: no other rest, no error that is counted, no
-- check-in that finds credits, and no synchronisation that takes the account out.
abbrev pub LeavesResting : Text → Call → Type 0
LeavesResting uid (adds c) = Unit
LeavesResting uid (syncs cs) = listed uid cs ≡ true
LeavesResting uid (sets u credits) = Unit
LeavesResting uid (cools u kind d reason) = u ≢ uid
LeavesResting uid (disables u reason) = Unit
LeavesResting uid (reenables u remain) = (u ≢ uid) ⊎ (remain ≤ℤ pos 0)
LeavesResting uid (notes u threshold d) = u ≢ uid
LeavesResting uid (succeeds u) = Unit
LeavesResting uid saves = Unit

abbrev pub AllLeaveResting : Text → List (Env × Call) → Type 0
AllLeaveResting uid [] = Unit
AllLeaveResting uid ((env, call) ∷ calls) = LeavesResting uid call × AllLeaveResting uid calls

-- The entry is there and rests until `t`.
abbrev RestsUntil : ℕ → Option Entry → Type 0
RestsUntil t none = ⊥
RestsUntil t (some e) = e.until ≡ t

keeps_until :
    (b : Bool) (f : Entry → Entry) (t : ℕ) (o : Option Entry)
    → ((e : Entry) → (f e).until ≡ e.until)
    → RestsUntil t o
    → RestsUntil t (if b then on_some f o else o)
keeps_until true f t none keep r = r
keeps_until true f t (some e) keep r = keep e ∙ r
keeps_until false f t o keep r = r

other_entry :
    (u uid : Text) (f : Entry → Entry) (t : ℕ) (v : View)
    → u ≢ uid
    → RestsUntil t (v uid)
    → RestsUntil t (change u f v uid)
other_entry u uid f t v other r = elim (Bool-cases (u == uid)) [
  | inl e ↦ absurd (other ((text_instance.agrees_iff u uid).0 e))
  | inr e ↦ rw e r
]

credited-until : (remain : ℤ) (e : Entry) → remain ≤ℤ pos 0 → (credited remain e).until ≡ e.until
credited-until (pos zero) e h = refl
credited-until (pos (suc n)) e h = absurd (omega (arith, h))
credited-until (negsuc n) e h = refl

with_cred-RestsUntil :
    (c : Cred) (uid : Text) (t : ℕ) (v : View)
    → RestsUntil t (v uid)
    → RestsUntil t (with_cred c v uid)
with_cred-RestsUntil c uid t v r = choose (c.uid == uid) (v uid) r
  where
    choose :
        (b : Bool) (o : Option Entry)
        → RestsUntil t o
        → RestsUntil t (if b then some (added c o) else o)
    choose true none r = absurd r
    choose true (some e) r = r
    choose false o r = r

with_creds-RestsUntil :
    (cs : List Cred) (uid : Text) (t : ℕ) (v : View)
    → RestsUntil t (v uid)
    → RestsUntil t (with_creds cs v uid)
with_creds-RestsUntil [] uid t v r = r
with_creds-RestsUntil (c ∷ cs) uid t v r =
    with_creds-RestsUntil cs uid t (with_cred c v) (with_cred-RestsUntil c uid t v r)

change_view-RestsUntil :
    (env : Env) (call : Call) (uid : Text) (t : ℕ) (v : View)
    → LeavesResting uid call
    → RestsUntil t (v uid)
    → RestsUntil t (change_view env call v uid)
unfolding change_view
change_view-RestsUntil env (adds c) uid t v h r = with_cred-RestsUntil c uid t v r
change_view-RestsUntil env (syncs cs) uid t v h r = rw h (with_creds-RestsUntil cs uid t v r)
change_view-RestsUntil env (sets u credits) uid t v h r =
    keeps_until (u == uid) _ t (v uid) (λ e. refl) r
change_view-RestsUntil env (cools u kind d reason) uid t v h r = other_entry u uid _ t v h r
change_view-RestsUntil env (disables u reason) uid t v h r =
    keeps_until (u == uid) _ t (v uid) (λ e. refl) r
change_view-RestsUntil env (reenables u remain) uid t v (inl h) r =
    other_entry u uid (credited remain) t v h r
change_view-RestsUntil env (reenables u remain) uid t v (inr h) r =
    keeps_until (u == uid) (credited remain) t (v uid) (λ e. credited-until remain e h) r
change_view-RestsUntil env (notes u threshold d) uid t v h r = other_entry u uid _ t v h r
change_view-RestsUntil env (succeeds u) uid t v h r =
    keeps_until (u == uid) _ t (v uid) (λ e. refl) r
change_view-RestsUntil env saves uid t v h r = r

replay-RestsUntil :
    (calls : List (Env × Call)) (uid : Text) (t : ℕ) (v : View)
    → AllLeaveResting uid calls
    → RestsUntil t (v uid)
    → RestsUntil t (replay calls v uid)
unfolding replay
replay-RestsUntil [] uid t v h r = r
replay-RestsUntil ((env, call) ∷ calls) uid t v h r =
    replay-RestsUntil calls uid t (change_view env call v) h.1
      (change_view-RestsUntil env call uid t v h.0 r)

RestsUntil-Rests : (t now : ℕ) (o : Option Entry) → now < t → RestsUntil t o → Rests now o
unfolding healthy
RestsUntil-Rests t now none h r = tt
RestsUntil-Rests t now (some e) h r = ground (arith, h, r)

cooled :
    (env : Env) (uid : Text) (kind : CoolKind) (d : ℤ) (reason : Text) (p : Pool) {e : Entry}
    → lookup uid p.by_uid ≡ some e
    → RestsUntil (add_time env.now d) (view (cooldown env uid kind d reason p) uid)
unfolding step change_view
cooled env uid kind d reason p at =
    rw
      (
        ap (λ (v : View). v uid) (view-step env (cools uid kind d reason) p),
        (text_instance.agrees_iff uid uid).1 refl,
      )
      (unfold view in rw at refl)

-- An account that was cooled is not given out before its time is over, whoever asks, and whatever
-- calls come in between, as long as none of these rests it anew or counts an error of it, no check-in
-- finds credits for it, and no synchronisation takes it out of the map.
pub cooldown_not_picked :
    (env later : Env) (tried : List Text) (p : Pool) (uid : Text) (kind : CoolKind) (d : ℤ)
    (reason : Text) (between : List (Env × Call)) {e : Entry} {c : Cred}
    → IsWellFormed p
    → lookup uid p.by_uid ≡ some e
    → AllLeaveResting uid between
    → later.now < env.now + pos_part d - neg_part d
    → pick_excluding later tried (run (cooldown env uid kind d reason p) between) ≡ some c
    → c.uid ≢ uid
unfolding step view
cooldown_not_picked env later tried p uid kind d reason between w at quiet soon =
    let q = cooldown env uid kind d reason p in
    let rests : RestsUntil (add_time env.now d) (view (run q between) uid) =
      subst (λ (v : View). RestsUntil (add_time env.now d) (v uid)) (sym (view-run between q))
        (replay-RestsUntil between uid (add_time env.now d) (view q) quiet
          (cooled env uid kind d reason p at)) in
    resting_not_picked later tried _ uid
      (run-IsWellFormed q between (step-IsWellFormed env (cools uid kind d reason) p w))
      (RestsUntil-Rests (add_time env.now d) later.now _ soon rests)

-- The account that a choice gives out, of a pool that starts from a state file and after any history
-- of calls, is the one that the pool has for its uid, so that what is reported of it by that uid
-- reaches it.
pub picked_found :
    (stored : Bool) (accounts : Dict Text Account) (calls : List (Env × Call)) (env : Env)
    (tried : List Text) (c : Cred)
    → Unique accounts
    → pick_excluding env tried (run (new stored (some accounts)) calls) ≡ some c
    → auth_by_uid c.uid (run (new stored (some accounts)) calls) ≡ some c
unfolding auth_by_uid
picked_found stored accounts calls env tried c u h =
    let p = run (new stored (some accounts)) calls in
    let (e, found, its) =
      pick_excluding_cred env tried p c (run-new-IsWellFormed stored accounts calls u) h in
    ap cred_of found ∙ ap some its
