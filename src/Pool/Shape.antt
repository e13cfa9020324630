-- ===== src/Pool/Shape.antt =====
-- The shape that every method keeps: a map holds a key once, and an account stands under the uid
-- of its credential.
use qoderwork2api.Common.{
  ℕ, some, none, Bool, true, false, ◌≡◌, refl, ◌∙◌, inl, inr, List, [], ◌∷◌, none, arith,
  if◌then◌else◌, All, Option-cases,
}
use qoderwork2api.Common.Int.{ℤ}
use qoderwork2api.Common.Eq.{Text, text_instance}
use qoderwork2api.Common.Dict.{
  Dict, lookup, modify, Unique, insert-Unique, modify-Unique, All-modify, All-insert,
}
use qoderwork2api.Cred.{Cred}
use qoderwork2api.Pool.{
  Account, new, load_accounts, entry_of, Pool, Env, Entry, CoolKind, change_cred, add, sync_to_dir,
  set_credits, cooldown, disable, reenable_if_credits, note_error, note_success, save_state,
  save_locked, update, put, put_all, keep_seen, is_seen, keep_fingerprint, replace_cred, reenabled,
  noted, new_entry,
}

abbrev pub Keyed : Text → Entry → Type 0
Keyed uid e = e.cred.uid ≡ uid

abbrev AllKeyed : Dict Text Entry → Type 0
AllKeyed m = All (λ (entry : Text × Entry). Keyed entry.0 entry.1) m

pub record IsWellFormed (p : Pool) : Type 0 where
  pub unique : Unique p.by_uid
  pub keyed : AllKeyed p.by_uid

-- The calls that change a pool.
pub data Call : Type 0 where
  adds : Cred → Call
  syncs : List Cred → Call
  sets : Text → ℤ → Call
  cools : Text → CoolKind → ℤ → Text → Call
  disables : Text → Text → Call
  reenables : Text → ℤ → Call
  notes : Text → ℤ → ℤ → Call
  succeeds : Text → Call
  saves : Call

unfoldable pub step : Env → Call → Pool → Pool
step env (adds c) p = add c p
step env (syncs cs) p = sync_to_dir cs p
step env (sets uid credits) p = set_credits env uid credits p
step env (cools uid kind d reason) p = cooldown env uid kind d reason p
step env (disables uid reason) p = disable env uid reason p
step env (reenables uid remain) p = reenable_if_credits env uid remain p
step env (notes uid threshold d) p = note_error env uid threshold d p
step env (succeeds uid) p = note_success uid p
step env saves p = save_state env p

unfoldable pub run : Pool → List (Env × Call) → Pool
run p [] = p
run p ((env, c) ∷ cs) = run (step env c p) cs

pub save_locked-by_uid : (env : Env) (p : Pool) → (save_locked env p).by_uid ≡ p.by_uid
unfolding save_locked
save_locked-by_uid env p = ground arith

modify-wf :
    (uid : Text) (f : Entry → Entry) (m : Dict Text Entry)
    → ((e : Entry) → (f e).cred.uid ≡ e.cred.uid)
    → Unique m × AllKeyed m
    → Unique (modify uid f m) × AllKeyed (modify uid f m)
modify-wf uid f m keep h =
    (modify-Unique uid f m h.0, All-modify Keyed uid f m (λ e k. keep e ∙ k) h.1)

update-IsWellFormed :
    (env : Env) (uid : Text) (f : Entry → Entry) (p : Pool)
    → ((e : Entry) → (f e).cred.uid ≡ e.cred.uid)
    → IsWellFormed p
    → IsWellFormed (update env uid f p)
unfolding update
update-IsWellFormed env uid f p keep w =
    let (u, k) = modify-wf uid f p.by_uid keep (w.unique, w.keyed) in
    let same = save_locked-by_uid env (record p { by_uid = modify uid f p.by_uid }) in
    record { unique = rw same u; keyed = rw same k }

keep_fingerprint-uid : (old c : Cred) → (keep_fingerprint old c).uid ≡ c.uid
unfolding keep_fingerprint
keep_fingerprint-uid old c = ground arith

put-wf :
    (c : Cred) (m : Dict Text Entry) → Unique m × AllKeyed m → Unique (put c m) × AllKeyed (put c m)
unfolding put
put-wf c m h = elim (Option-cases (lookup c.uid m)) [
  | inl e ↦
      rw (e, put)
        (insert-Unique c.uid (new_entry c) m h.0, All-insert Keyed c.uid (new_entry c) m refl h.1)
  | inr (old, e) ↦
      rw (e, put)
        (
          modify-Unique c.uid (replace_cred c) m h.0,
          All-modify Keyed c.uid (replace_cred c) m (λ old' k. keep_fingerprint-uid old'.cred c)
              h.1,
        )
]

put_all-wf :
    (cs : List Cred) (m : Dict Text Entry)
    → Unique m × AllKeyed m
    → Unique (put_all cs m) × AllKeyed (put_all cs m)
unfolding put_all
put_all-wf [] m h = h
put_all-wf (c ∷ cs) m h = put_all-wf cs (put c m) (put-wf c m h)

-- A lookup among the accounts that were seen.
pub lookup-keep_seen :
    (uid : Text) (cs : List Cred) (m : Dict Text Entry)
    → lookup uid (keep_seen cs m) ≡ (if is_seen uid cs then lookup uid m else none)
unfolding lookup keep_seen
lookup-keep_seen uid cs [] = ground arith
lookup-keep_seen uid cs ((j, e) ∷ m) =
    ground (arith, text_instance.agrees_iff j uid, lookup-keep_seen uid cs m)

keep_seen-wf :
    (cs : List Cred) (m : Dict Text Entry)
    → Unique m × AllKeyed m
    → Unique (keep_seen cs m) × AllKeyed (keep_seen cs m)
unfolding keep_seen
keep_seen-wf cs [] h = h
keep_seen-wf cs ((j, e) ∷ m) h =
    ground (arith, lookup-keep_seen j cs m, keep_seen-wf cs m (h.0.1, h.1.1))

reenabled-uid : (remain : ℤ) (e : Entry) → (reenabled remain e).cred.uid ≡ e.cred.uid
unfolding reenabled
reenabled-uid remain e = ground arith

noted-uid :
    (now : ℕ) (threshold d : ℤ) (e : Entry) → (noted now threshold d e).cred.uid ≡ e.cred.uid
unfolding noted
noted-uid now threshold d e = ground arith

-- A change through the pointer that was given out keeps it if the account is the same.
pub change_cred-IsWellFormed :
    (uid : Text) (f : Cred → Cred) (p : Pool)
    → ((c : Cred) → c.uid ≡ uid → (f c).uid ≡ uid)
    → IsWellFormed p
    → IsWellFormed (change_cred uid f p)
unfolding change_cred
change_cred-IsWellFormed uid f p keep w = record {
  unique = modify-Unique uid _ p.by_uid w.unique;
  keyed = All-modify Keyed uid _ p.by_uid (λ e k. keep e.cred k) w.keyed;
}

-- Every call keeps the shape.
pub step-IsWellFormed :
    (env : Env) (c : Call) (p : Pool) → IsWellFormed p → IsWellFormed (step env c p)
unfolding step add sync_to_dir set_credits cooldown disable reenable_if_credits note_error
    note_success save_state
step-IsWellFormed env (adds c) p w =
    let (u, k) = put-wf c p.by_uid (w.unique, w.keyed) in record { unique = u; keyed = k }
step-IsWellFormed env (syncs cs) p w =
    let (u, k) = keep_seen-wf cs _ (put_all-wf cs p.by_uid (w.unique, w.keyed)) in
    record { unique = u; keyed = k }
step-IsWellFormed env (sets uid credits) p w = update-IsWellFormed env uid _ p (λ e. refl) w
step-IsWellFormed env (cools uid kind d reason) p w = update-IsWellFormed env uid _ p (λ e. refl) w
step-IsWellFormed env (disables uid reason) p w = update-IsWellFormed env uid _ p (λ e. refl) w
step-IsWellFormed env (reenables uid remain) p w =
    update-IsWellFormed env uid _ p (reenabled-uid remain) w
step-IsWellFormed env (notes uid threshold d) p w =
    update-IsWellFormed env uid _ p (noted-uid env.now threshold d) w
step-IsWellFormed env (succeeds uid) p w =
    let (u, k) = modify-wf uid _ p.by_uid (λ e. refl) (w.unique, w.keyed) in
    record { unique = u; keyed = k }
step-IsWellFormed env saves p w =
    let same = save_locked-by_uid env p in
    record { unique = rw same w.unique; keyed = rw same w.keyed }

-- So any history of calls keeps it.
pub run-IsWellFormed :
    (p : Pool) (cs : List (Env × Call)) → IsWellFormed p → IsWellFormed (run p cs)
unfolding run
run-IsWellFormed p [] w = w
run-IsWellFormed p ((env, c) ∷ cs) w =
    run-IsWellFormed (step env c p) cs (step-IsWellFormed env c p w)

lookup-load_accounts :
    (uid : Text) (m : Dict Text Account) → lookup uid m ≡ none → lookup uid (load_accounts m) ≡ none
unfolding lookup load_accounts
lookup-load_accounts uid [] h = refl
lookup-load_accounts uid ((j, s) ∷ m) h = ground (arith, lookup-load_accounts uid m)

load_accounts-wf :
    (m : Dict Text Account) → Unique m → Unique (load_accounts m) × AllKeyed (load_accounts m)
unfolding load_accounts entry_of
load_accounts-wf [] u = (tt, tt)
load_accounts-wf ((j, s) ∷ m) u =
    let (unique, keyed) = load_accounts-wf m u.1 in
    ((lookup-load_accounts j m u.0, unique), (refl, keyed))

-- A pool that starts from a state file, in which each uid stands once, is in that shape after any
-- history of calls.
pub run-new-IsWellFormed :
    (stored : Bool) (accounts : Dict Text Account) (cs : List (Env × Call))
    → Unique accounts
    → IsWellFormed (run (new stored (some accounts)) cs)
unfolding new
run-new-IsWellFormed true accounts cs u =
    let (unique, keyed) = load_accounts-wf accounts u in
    run-IsWellFormed _ cs (record { unique = unique; keyed = keyed })
run-new-IsWellFormed false accounts cs u =
    run-IsWellFormed _ cs (record { unique = tt; keyed = tt })
