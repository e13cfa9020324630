-- ===== src/Pool/Disabling.antt =====
-- A disabled account stays disabled.
use qoderwork2api.Common.{
  ℕ, ◌≡◌, ◌≢◌, refl, ◌||◌, ◌⊎◌, All, inl, inr, Bool, true, false, List, [], ◌∷◌, Option, none, some,
  arith, if◌then◌else◌, Bool-cases, Option-cases,
}
use qoderwork2api.Common.Int.{ℤ}
use qoderwork2api.Common.Eq.{Text, text_instance, ◌==◌}
use qoderwork2api.Common.Dict.{Dict, lookup, on_some, lookup-modify, lookup-insert}
use qoderwork2api.Cred.{Cred}
use qoderwork2api.Pool.{
  Pool, Env, Entry, update, cooldown, disable, set_credits, reenable_if_credits, reenabled,
  note_error, noted, note_success, save_state, sync_to_dir, put, put_all, is_seen, replace_cred,
  add, new_entry,
}
use qoderwork2api.Pool.Shape.{
  save_locked-by_uid, lookup-keep_seen, Call, adds, syncs, sets, cools, disables, reenables, notes,
  succeeds, saves, step,
}
use qoderwork2api.Pool.Cooling.{lookup-update}

-- The account is in the map and disabled.
abbrev pub IsOff : Option Entry → Type 0
IsOff none = ⊥
IsOff (some e) = e.disabled ≡ true

IsOff-on_some :
    (f : Entry → Entry) (o : Option Entry)
    → ((e : Entry) → e.disabled ≡ true → (f e).disabled ≡ true)
    → IsOff o
    → IsOff (on_some f o)
IsOff-on_some f none keep h = h
IsOff-on_some f (some e) keep h = keep e h

IsOff-if : (b : Bool) (o q : Option Entry) → IsOff o → IsOff q → IsOff (if b then o else q)
IsOff-if true o q h k = h
IsOff-if false o q h k = k

IsOff-update :
    (env : Env) (uid j : Text) (f : Entry → Entry) (p : Pool)
    → ((e : Entry) → e.disabled ≡ true → (f e).disabled ≡ true)
    → IsOff (lookup j p.by_uid)
    → IsOff (lookup j (update env uid f p).by_uid)
IsOff-update env uid j f p keep h =
    rw (lookup-update env uid j f p)
      (IsOff-if (uid == j) _ _ (IsOff-on_some f (lookup j p.by_uid) keep h) h)

IsOff-put :
    (c : Cred) (j : Text) (m : Dict Text Entry) {e : Entry}
    → lookup j m ≡ some e
    → e.disabled ≡ true
    → (f : Entry) × (lookup j (put c m) ≡ some f) × (f.disabled ≡ true)
unfolding put
IsOff-put c j m {e} at off = elim (Option-cases (lookup c.uid m)) [
  | inl new ↦ (
    e,
    rw (new, put)
        (ground (arith, lookup-insert c.uid j (new_entry c) m, text_instance.agrees_iff c.uid j)),
    off,
  )
  | inr (old, there) ↦ elim (Bool-cases (c.uid == j)) [
    | inl same ↦ (
      replace_cred c e,
      rw (there, put) (ground (arith, lookup-modify c.uid j (replace_cred c) m)),
      off,
    )
    | inr other ↦
        (e, rw (there, put) (ground (arith, lookup-modify c.uid j (replace_cred c) m)), off)
  ]
]

IsOff-put_all :
    (cs : List Cred) (j : Text) (m : Dict Text Entry) {e : Entry}
    → lookup j m ≡ some e
    → e.disabled ≡ true
    → (f : Entry) × (lookup j (put_all cs m) ≡ some f) × (f.disabled ≡ true)
unfolding put_all
IsOff-put_all [] j m {e} at off = (e, at, off)
IsOff-put_all (c ∷ cs) j m at off =
    let (f, at', off') = IsOff-put c j m at off in IsOff-put_all cs j (put c m) at' off'

reenabled-disabled :
    (remain : ℤ) (e : Entry) → e.disabled ≡ true → (reenabled remain e).disabled ≡ true
unfolding reenabled
reenabled-disabled remain e h = ground arith

noted-disabled :
    (now : ℕ) (threshold d : ℤ) (e : Entry)
    → e.disabled ≡ true
    → (noted now threshold d e).disabled ≡ true
unfolding noted
noted-disabled now threshold d e h = ground arith

-- What a call leaves of a disabled account: only a synchronisation without a file of the account may
-- take it out of the map.
abbrev pub After : Text → Call → Option Entry → Type 0
After uid (adds c) o = IsOff o
After uid (syncs cs) o = IsOff o ⊎ ((o ≡ none) × All (λ (c : Cred). c.uid ≢ uid) cs)
After uid (sets u credits) o = IsOff o
After uid (cools u kind d reason) o = IsOff o
After uid (disables u reason) o = IsOff o
After uid (reenables u remain) o = IsOff o
After uid (notes u threshold d) o = IsOff o
After uid (succeeds u) o = IsOff o
After uid saves o = IsOff o

not_seen :
    (uid : Text) (cs : List Cred) → is_seen uid cs ≡ false → All (λ (c : Cred). c.uid ≢ uid) cs
unfolding is_seen
not_seen uid [] h = tt
not_seen uid (c ∷ cs) h = (
  λ same. cc ((text_instance.agrees_iff c.uid uid).1 same, first (c.uid == uid) (is_seen uid cs) h),
  not_seen uid cs (ground (arith, h)),
)
  where
    first : (a b : Bool) → (a || b) ≡ false → a ≡ false
    first true b h = h
    first false b h = refl

-- No call enables an account again: not credits from a check-in, not a success, not a new login.
-- It stays in the map and disabled, until a synchronisation with the directory finds no file of
-- it and takes it out.
pub step-IsOff :
    (env : Env) (call : Call) (p : Pool) (uid : Text) {e : Entry}
    → lookup uid p.by_uid ≡ some e
    → e.disabled ≡ true
    → After uid call (lookup uid (step env call p).by_uid)
unfolding step add sync_to_dir set_credits cooldown disable reenable_if_credits note_error
    note_success save_state
step-IsOff env (adds c) p uid at off =
    let (f, at', off') = IsOff-put c uid p.by_uid at off in rw at' off'
step-IsOff env (syncs cs) p uid at off =
    let (f, at', off') = IsOff-put_all cs uid p.by_uid at off in
    elim (Bool-cases (is_seen uid cs)) [
      | inl seen ↦ rw (lookup-keep_seen uid cs (put_all cs p.by_uid), seen, at') (inl off')
      | inr gone ↦
          rw (lookup-keep_seen uid cs (put_all cs p.by_uid), gone)
            (inr (refl, not_seen uid cs gone))
    ]
step-IsOff env (sets u credits) p uid at off = IsOff-update env u uid _ p (λ e k. k) (rw at off)
step-IsOff env (cools u kind d reason) p uid at off =
    IsOff-update env u uid _ p (λ e k. k) (rw at off)
step-IsOff env (disables u reason) p uid at off =
    IsOff-update env u uid _ p (λ e k. refl) (rw at off)
step-IsOff env (reenables u remain) p uid at off =
    IsOff-update env u uid _ p (reenabled-disabled remain) (rw at off)
step-IsOff env (notes u threshold d) p uid at off =
    IsOff-update env u uid _ p (noted-disabled env.now threshold d) (rw at off)
step-IsOff env (succeeds u) p uid {e} at off =
    rw (lookup-modify u uid (λ (e' : Entry). record e' { err_count = 0 }) p.by_uid, at)
      (IsOff-if (u == uid) (some (record e { err_count = 0 })) (some e) off off)
step-IsOff env saves p uid at off = rw (save_locked-by_uid env p, at) off
