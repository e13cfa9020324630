-- ===== src/Pool/Cooling.antt =====
-- What the calls change in an entry, and whom a choice gives out.
use qoderwork2api.Common.{
  ℕ, ap, subst, ◌≡◌, refl, sym, ◌∙◌, ◌≢◌, true, false, List, Option, none, some, if◌then◌else◌,
  All-In,
}
use qoderwork2api.Common.Eq.{Text, text_instance, ◌==◌}
use qoderwork2api.Common.Dict.{lookup, on_some, lookup-modify, lookup-In, modify}
use qoderwork2api.Cred.{Cred}
use qoderwork2api.Pool.{
  Pool, Env, Entry, change_cred, healthy, is_tried, update, note_success, pick_excluding, cred_of,
}
use qoderwork2api.Pool.Shape.{IsWellFormed, Keyed, save_locked-by_uid}
use qoderwork2api.Pool.Pick.{pick_excluding_best, Chooses}

pub lookup-update :
    (env : Env) (uid j : Text) (f : Entry → Entry) (p : Pool)
    → lookup j (update env uid f p).by_uid
      ≡ (if uid == j then on_some f (lookup j p.by_uid) else lookup j p.by_uid)
unfolding update
lookup-update env uid j f p =
    ap (lookup j) (save_locked-by_uid env (record p { by_uid = modify uid f p.by_uid }))
    ∙ lookup-modify uid j f p.by_uid

pub lookup-update_self :
    (env : Env) (uid : Text) (f : Entry → Entry) (p : Pool)
    → lookup uid (update env uid f p).by_uid ≡ on_some f (lookup uid p.by_uid)
lookup-update_self env uid f p =
    lookup-update env uid uid f p ∙ rw ((text_instance.agrees_iff uid uid).1 refl) refl

pub lookup-change_cred :
    (uid j : Text) (f : Cred → Cred) (p : Pool)
    → lookup j (change_cred uid f p).by_uid ≡ (
        if uid == j
        then on_some (λ e. record e { cred = f e.cred }) (lookup j p.by_uid)
        else lookup j p.by_uid)
unfolding change_cred
lookup-change_cred uid j f p = lookup-modify uid j _ p.by_uid

pub lookup-note_success :
    (uid j : Text) (p : Pool)
    → lookup j (note_success uid p).by_uid ≡ (
        if uid == j
        then on_some (λ e. record e { err_count = 0 }) (lookup j p.by_uid)
        else lookup j p.by_uid)
unfolding note_success
lookup-note_success uid j p = lookup-modify uid j _ p.by_uid

-- No account is given out under whose uid the map has an entry that is not healthy.
abbrev pub Rests : ℕ → Option Entry → Type 0
Rests now none = Unit
Rests now (some e) = healthy e now ≡ false

chosen_entry :
    (now : ℕ) (tried : List Text) (p : Pool) (best : Option Entry) {c : Cred}
    → IsWellFormed p
    → cred_of best ≡ some c
    → Chooses tried now p.by_uid best
    → (e : Entry) × (lookup c.uid p.by_uid ≡ some e)
      × (healthy e now ≡ true)
      × (is_tried c.uid tried ≡ false)
chosen_entry now tried p none w h chosen = cc
chosen_entry now tried p (some e) {c} w h (j, i, (new, ok), bound) =
    let same : e.cred ≡ c = cc in
    let key : j ≡ c.uid =
      sym (All-In (λ (entry : Text × Entry). Keyed entry.0 entry.1) (j, e) p.by_uid w.keyed i)
      ∙ ap (λ (d : Cred). d.uid) same in
    (e, rw (← key) (lookup-In j e p.by_uid w.unique i), ok, rw (← key) new)

-- A credential that is given out stands in the map under its uid, healthy and not tried before.
pub pick_excluding_entry :
    (env : Env) (tried : List Text) (p : Pool) (c : Cred)
    → IsWellFormed p
    → pick_excluding env tried p ≡ some c
    → (e : Entry) × (lookup c.uid p.by_uid ≡ some e)
      × (healthy e env.now ≡ true)
      × (is_tried c.uid tried ≡ false)
pick_excluding_entry env tried p c w h =
    let (best, eq, chosen) = pick_excluding_best env tried p in
    chosen_entry env.now tried p best w (sym eq ∙ h) chosen

chosen_cred :
    (tried : List Text) (now : ℕ) (p : Pool) (best : Option Entry) {c : Cred}
    → IsWellFormed p
    → cred_of best ≡ some c
    → Chooses tried now p.by_uid best
    → (e : Entry) × (lookup c.uid p.by_uid ≡ some e) × (e.cred ≡ c)
chosen_cred tried now p none w h chosen = cc
chosen_cred tried now p (some e) {c} w h (j, i, (new, ok), bound) =
    let same : e.cred ≡ c = cc in
    let key : j ≡ c.uid =
      sym (All-In (λ (entry : Text × Entry). Keyed entry.0 entry.1) (j, e) p.by_uid w.keyed i)
      ∙ ap (λ (d : Cred). d.uid) same in
    (e, rw (← key) (lookup-In j e p.by_uid w.unique i), same)

-- A credential that is given out is that of the entry under its uid.
pub pick_excluding_cred :
    (env : Env) (tried : List Text) (p : Pool) (c : Cred)
    → IsWellFormed p
    → pick_excluding env tried p ≡ some c
    → (e : Entry) × (lookup c.uid p.by_uid ≡ some e) × (e.cred ≡ c)
pick_excluding_cred env tried p c w h =
    let (best, eq, chosen) = pick_excluding_best env tried p in
    chosen_cred tried env.now p best w (sym eq ∙ h) chosen

-- An account whose entry is not healthy is not given out.
pub resting_not_picked :
    (env : Env) (tried : List Text) (p : Pool) (uid : Text) {c : Cred}
    → IsWellFormed p
    → Rests env.now (lookup uid p.by_uid)
    → pick_excluding env tried p ≡ some c
    → c.uid ≢ uid
resting_not_picked env tried p uid {c} w rests h same =
    let (best, eq, chosen) = pick_excluding_best env tried p in
    let (e, found, ok, fresh) = chosen_entry env.now tried p best w (sym eq ∙ h) chosen in
    let at : lookup uid p.by_uid ≡ some e =
      ap (λ (u : Text). lookup u p.by_uid) (sym same) ∙ found in
    let tired : healthy e env.now ≡ false = subst (Rests env.now) at rests in cc (tired, ok)
