-- ===== src/Pool/View.antt =====
-- The pool without its order: a function from uids to entries, and each call as a change of it.
use qoderwork2api.Common.{
  ℕ, ap, subst, ◌≡◌, refl, sym, ◌∙◌, inl, inr, zero, suc, Bool, ◌+◌, ◌-◌, true, false, ◌⊎◌, List,
  [], ◌∷◌, Option, none, some, arith, if◌then◌else◌, Option-cases, All-In, fun_ext,
}
use qoderwork2api.Common.Int.{ℤ, pos, negsuc, pos_part, neg_part, ltb_ℤ, ◌-ℤ◌, ◌≤ℤ◌}
use qoderwork2api.Common.Eq.{Text, codes, text_instance, ◌==◌, is_empty}
use qoderwork2api.Common.Dict.{
  Dict, lookup, on_some, lookup-insert, lookup-modify, In-lookup, lookup-In,
}
use qoderwork2api.Cred.{Cred}
use qoderwork2api.Pool.{
  Pool, Env, Entry, new_entry, replace_cred, put, put_all, is_seen, reenabled, noted, add,
  sync_to_dir, set_credits, cooldown, disable, reenable_if_credits, note_error, save_state,
  keep_fingerprint, pick_excluding, cred_of,
}
use qoderwork2api.Pool.Shape.{
  IsWellFormed, Keyed, Call, adds, syncs, sets, cools, disables, reenables, notes, succeeds, saves,
  step, run, run-IsWellFormed, lookup-keep_seen, save_locked-by_uid,
}
use qoderwork2api.Pool.Pick.{IsEligible, Chooses, pick_excluding_best}
use qoderwork2api.Pool.Cooling.{lookup-update, lookup-note_success}

abbrev pub View : Type 0
View = Text → Option Entry

unfoldable pub view : Pool → View
view p uid = lookup uid p.by_uid

-- The entry of an account that is added: a new one without credits that is healthy, or the one that
-- is there, with the new credential but the fingerprint that it had, if it had one.
abbrev pub fingerprint_from : Text → Cred → Cred → Cred
fingerprint_from [] old c = c
fingerprint_from (x ∷ id) old c = record c {
  machine_id = old.machine_id;
  machine_token = old.machine_token;
  machine_type = old.machine_type;
}

abbrev pub added : Cred → Option Entry → Entry
added c none = record {
  cred = c;
  credits = pos 0;
  disabled = false;
  reason = [];
  until = 0;
  err_count = 0;
}
added c (some e) = record e { cred = fingerprint_from e.cred.machine_id e.cred c }

-- Credits end the rest of an account that is not disabled, if there are any.
abbrev pub credited : ℤ → Entry → Entry
credited (pos zero) e = record e { credits = pos 0 }
credited (negsuc n) e = record e { credits = negsuc n }
credited (pos (suc n)) e = elim e.disabled [
  | true ↦ record e { credits = pos (suc n) }
  | false ↦ record e { credits = pos (suc n); until = 0; reason = []; err_count = 0 }
]

-- One more error; at the threshold a rest of `d` begins, and the count with it.
abbrev pub counted : ℕ → ℤ → ℤ → Entry → Entry
counted now threshold d e = elim (ltb_ℤ (pos e.err_count) (threshold -ℤ pos 1)) [
  | true ↦ record e { err_count = suc e.err_count }
  | false ↦ record e {
    until = now + pos_part d - neg_part d;
    reason = codes "consecutive errors";
    err_count = 0;
  }
]

-- A credential of the list has the uid.
unfoldable pub listed : Text → List Cred → Bool
listed uid [] = false
listed uid (c ∷ cs) = elim (c.uid == uid) [ true ↦ true | false ↦ listed uid cs ]

is_seen-listed : (uid : Text) (cs : List Cred) → is_seen uid cs ≡ listed uid cs
unfolding is_seen listed
is_seen-listed uid [] = refl
is_seen-listed uid (c ∷ cs) = ground (arith, is_seen-listed uid cs)

added-replace_cred : (c : Cred) (e : Entry) → replace_cred c e ≡ added c (some e)
unfolding keep_fingerprint
added-replace_cred c e = ground (arith, nil_or e.cred.machine_id)
  where
    nil_or : (s : Text) → (s ≡ []) ⊎ (is_empty s ≡ false)
    nil_or [] = inl refl
    nil_or (x ∷ s) = inr refl

credited-reenabled : (remain : ℤ) (e : Entry) → reenabled remain e ≡ credited remain e
unfolding reenabled
credited-reenabled (pos zero) e = ground arith
credited-reenabled (pos (suc n)) e = ground arith
credited-reenabled (negsuc n) e = ground arith

counted-noted :
    (now : ℕ) (threshold d : ℤ) (e : Entry) → noted now threshold d e ≡ counted now threshold d e
unfolding noted ◌-ℤ◌
counted-noted now threshold d e = ground arith

abbrev pub with_cred : Cred → View → View
with_cred c v uid = if c.uid == uid then some (added c (v uid)) else v uid

abbrev pub with_creds : List Cred → View → View
with_creds [] v = v
with_creds (c ∷ cs) v = with_creds cs (with_cred c v)

abbrev pub change : Text → (Entry → Entry) → View → View
change uid f v j = if uid == j then on_some f (v j) else v j

-- What a call means.
unfoldable pub change_view : Env → Call → View → View
change_view env (adds c) v = with_cred c v
change_view env (syncs cs) v = λ uid. if listed uid cs then with_creds cs v uid else none
change_view env (sets uid credits) v = change uid (λ e. record e { credits = credits }) v
change_view env (cools uid kind d reason) v =
    change uid
      (λ e. record e { until = env.now + pos_part d - neg_part d; reason = reason; err_count = 0 })
      v
change_view env (disables uid reason) v =
    change uid (λ e. record e { disabled = true; reason = reason }) v
change_view env (reenables uid remain) v = change uid (credited remain) v
change_view env (notes uid threshold d) v = change uid (counted env.now threshold d) v
change_view env (succeeds uid) v = change uid (λ e. record e { err_count = 0 }) v
change_view env saves v = v

unfoldable pub replay : List (Env × Call) → View → View
replay [] v = v
replay ((env, c) ∷ cs) v = replay cs (change_view env c v)

-- The answers that a choice may give: an eligible account with the most credits, any of them, or
-- none if nobody is eligible.
abbrev pub Allows : ℕ → List Text → View → Option Cred → Type 0
Allows now tried v none = (uid : Text) (e : Entry) → v uid ≡ some e → ¬ IsEligible tried now uid e
Allows now tried v (some c) =
    (e : Entry) × (v c.uid ≡ some e)
    × (e.cred ≡ c)
    × IsEligible tried now c.uid e
    × ((uid : Text) (f : Entry)
        → v uid ≡ some f
        → IsEligible tried now uid f
        → f.credits ≤ℤ e.credits)

pub lookup-put :
    (c : Cred) (j : Text) (m : Dict Text Entry)
    → lookup j (put c m) ≡ (if c.uid == j then some (added c (lookup j m)) else lookup j m)
unfolding put
lookup-put c j m = elim (Option-cases (lookup c.uid m)) [
  | inl new ↦
      rw (new, put)
        (ground (arith, lookup-insert c.uid j (new_entry c) m, text_instance.agrees_iff c.uid j))
  | inr (e, there) ↦
      rw (there, put)
        (ground (
          arith,
          lookup-modify c.uid j (replace_cred c) m,
          text_instance.agrees_iff c.uid j,
          added-replace_cred c e,
          there,
        ))
]

lookup-put_all :
    (cs : List Cred) (m : Dict Text Entry)
    → (λ j. lookup j (put_all cs m)) ≡ with_creds cs (λ j. lookup j m)
unfolding put_all
lookup-put_all [] m = refl
lookup-put_all (c ∷ cs) m =
    lookup-put_all cs (put c m) ∙ ap (with_creds cs) (fun_ext (λ j. lookup-put c j m))

-- A call changes the view as it is meant to.
pub view-step : (env : Env) (c : Call) (p : Pool) → view (step env c p) ≡ change_view env c (view p)
unfolding view change_view step add sync_to_dir set_credits cooldown disable reenable_if_credits
    note_error save_state
view-step env (adds c) p = fun_ext (λ j. lookup-put c j p.by_uid)
view-step env (syncs cs) p = fun_ext (λ j.
    lookup-keep_seen j cs (put_all cs p.by_uid)
    ∙ ap (λ (o : Option Entry). if is_seen j cs then o else none)
        (ap (λ (v : View). v j) (lookup-put_all cs p.by_uid))
    ∙ ap (λ (b : Bool). if b then with_creds cs (view p) j else none) (is_seen-listed j cs))
view-step env (sets uid credits) p = fun_ext (λ j. lookup-update env uid j _ p)
view-step env (cools uid kind d reason) p = fun_ext (λ j. lookup-update env uid j _ p)
view-step env (disables uid reason) p = fun_ext (λ j. lookup-update env uid j _ p)
view-step env (reenables uid remain) p = fun_ext (λ j.
    lookup-update env uid j (reenabled remain) p
    ∙ ap (λ (f : Entry → Entry). change uid f (view p) j) (fun_ext (credited-reenabled remain)))
view-step env (notes uid threshold d) p = fun_ext (λ j.
    lookup-update env uid j (noted env.now threshold d) p
    ∙ ap (λ (f : Entry → Entry). change uid f (view p) j)
        (fun_ext (counted-noted env.now threshold d)))
view-step env (succeeds uid) p = fun_ext (λ j. lookup-note_success uid j p)
view-step env saves p = fun_ext (λ j. ap (lookup j) (save_locked-by_uid env p))

pub view-run : (cs : List (Env × Call)) (p : Pool) → view (run p cs) ≡ replay cs (view p)
unfolding run replay
view-run [] p = refl
view-run ((env, c) ∷ cs) p = view-run cs (step env c p) ∙ ap (replay cs) (view-step env c p)

Chooses-Allows :
    (now : ℕ) (tried : List Text) (p : Pool) (best : Option Entry)
    → IsWellFormed p
    → Chooses tried now p.by_uid best
    → Allows now tried (view p) (cred_of best)
unfolding view
Chooses-Allows now tried p none w nobody = λ uid e at. nobody uid e (In-lookup uid e p.by_uid at)
Chooses-Allows now tried p (some e) w (j, i, eligible, bound) =
    let key : j ≡ e.cred.uid =
      sym (All-In (λ (entry : Text × Entry). Keyed entry.0 entry.1) (j, e) p.by_uid w.keyed i) in
    (
      e,
      ap (λ (u : Text). lookup u p.by_uid) (sym key) ∙ lookup-In j e p.by_uid w.unique i,
      refl,
      subst (λ (u : Text). IsEligible tried now u e) key eligible,
      λ uid f at. bound uid f (In-lookup uid f p.by_uid at),
    )

-- After any history of calls the pool is what the calls mean for a function from uids to entries,
-- written out in `change_view`, in whatever order the map is walked, and a choice gives an answer
-- that this function allows.
pub run_refines :
    (p : Pool) (cs : List (Env × Call)) (env : Env) (tried : List Text)
    → IsWellFormed p
    → (view (run p cs) ≡ replay cs (view p))
      × Allows env.now tried (replay cs (view p)) (pick_excluding env tried (run p cs))
run_refines p cs env tried w =
    let q = run p cs in
    let (best, eq, chosen) = pick_excluding_best env tried q in
    let same = view-run cs p in
    let allowed = Chooses-Allows env.now tried q best (run-IsWellFormed p cs w) chosen in
    (same, rw eq (subst (λ (v : View). Allows env.now tried v (cred_of best)) same allowed))
