-- ===== src/Pool/Disk.antt =====
-- What a restart brings back from the state file.
use qoderwork2api.Common.{
  ◌≡◌, refl, inl, inr, true, false, List, [], ◌∷◌, Option, none, some, arith, Bool-cases,
}
use qoderwork2api.Common.Eq.{Text, text_instance, ◌==◌}
use qoderwork2api.Common.Dict.{Dict, lookup}
use qoderwork2api.Cred.{Cred, blank}
use qoderwork2api.Pool.{
  Pool, Env, Entry, Account, snapshot, account_of, save_locked, save_state, load_accounts, entry_of,
  new, sync_to_dir, keep_seen, is_seen, put_all,
}
use qoderwork2api.Pool.Shape.{lookup-keep_seen}

abbrev pub after : {A B : Type 0} → (A → B) → Option A → Option B
after f none = none
after f (some a) = some (f a)

pub lookup-snapshot :
    (uid : Text) (m : Dict Text Entry) → lookup uid (snapshot m) ≡ after account_of (lookup uid m)
unfolding lookup snapshot
lookup-snapshot uid [] = refl
lookup-snapshot uid ((j, e) ∷ m) = ground (arith, lookup-snapshot uid m)

pub lookup-load_accounts-snapshot :
    (uid : Text) (m : Dict Text Entry)
    → lookup uid (load_accounts (snapshot m))
      ≡ after (λ e. entry_of uid (account_of e)) (lookup uid m)
unfolding lookup snapshot load_accounts
lookup-load_accounts-snapshot uid [] = refl
lookup-load_accounts-snapshot uid ((j, e) ∷ m) = elim (Bool-cases (j == uid)) [
  | inl hit ↦ rw (hit, (text_instance.agrees_iff j uid).0 hit) refl
  | inr miss ↦ rw miss (lookup-load_accounts-snapshot uid m)
]

-- What is left of an account by a restart: its tokens, its nickname and its count of errors are
-- gone, and the rest is there.
abbrev pub Survives : Text → Entry → Entry → Type 0
Survives uid e f =
    (f.credits ≡ e.credits)
    × (f.disabled ≡ e.disabled)
    × (f.reason ≡ e.reason)
    × (f.until ≡ e.until)
    × (f.err_count ≡ 0)
    × (f.cred ≡ record blank {
      uid = uid;
      machine_id = e.cred.machine_id;
      machine_token = e.cred.machine_token;
      machine_type = e.cred.machine_type;
    })

abbrev pub SurvivesOption : Text → Option Entry → Option Entry → Type 0
SurvivesOption uid none f = f ≡ none
SurvivesOption uid (some e) f = (g : Entry) × (f ≡ some g) × Survives uid e g

restart_lem :
    (uid : Text) (o : Option Entry)
    → SurvivesOption uid o (after (λ e. entry_of uid (account_of e)) o)
unfolding entry_of account_of
restart_lem uid none = refl
restart_lem uid (some e) = (_, refl, (refl, refl, refl, refl, refl, refl))

-- After a save that the file system takes, a new pool on the same file has the same accounts with
-- their credits, cooling, disabling and fingerprint.
pub new-save_state :
    (env : Env) (p : Pool) (uid : Text)
    → p.stored ≡ true
    → env.writes ≡ true
    → SurvivesOption uid
        (lookup uid p.by_uid)
        (lookup uid (new true (save_state env p).disk).by_uid)
unfolding new save_state save_locked
new-save_state env p uid s w =
    rw (s, w, lookup-load_accounts-snapshot uid p.by_uid) (restart_lem uid (lookup uid p.by_uid))

-- The state of an account whose file is gone does not stay in the state file: the save that
-- follows the synchronisation writes the file without it.
pub sync_to_dir_erases :
    (env : Env) (cs : List Cred) (p : Pool) (uid : Text)
    → p.stored ≡ true
    → env.writes ≡ true
    → is_seen uid cs ≡ false
    → (accounts : Dict Text Account) × ((save_state env (sync_to_dir cs p)).disk ≡ some accounts)
      × (lookup uid accounts ≡ none)
unfolding save_state save_locked sync_to_dir
sync_to_dir_erases env cs p uid s w gone =
    let m = keep_seen cs (put_all cs p.by_uid) in
    (
      snapshot m,
      rw (s, w),
      rw (lookup-snapshot uid m, lookup-keep_seen uid cs (put_all cs p.by_uid), gone),
    )
