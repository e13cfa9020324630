-- ===== src/User/Pools.antt =====
-- PoolManager of internal/user/store.go: one pool of accounts for each user.
use qoderwork2api.Common.{
  ℕ, suc, ◌≡◌, ◌≢◌, refl, ◌∙◌, inl, inr, Bool, true, false, not, List, [], ◌∷◌, Option, none, some,
  arith, if◌then◌else◌, Option-cases,
}
use qoderwork2api.Common.Eq.{Text, codes, text_instance, ◌==◌, is_empty}
use qoderwork2api.Common.Dict.{Dict, lookup, insert, delete, lookup-insert, lookup-delete, Unique}
use qoderwork2api.Cred.{Cred}
use qoderwork2api.Cred.Load.{AuthFile, load_dir}
use qoderwork2api.Cred.Fingerprint.{Draws, ensure_machine_fingerprint}
use qoderwork2api.Pool.{Pool, Env, Account, new, add, save_state}
use qoderwork2api.Pool.Shape.{
  IsWellFormed, run, run-new-IsWellFormed, step, step-IsWellFormed, adds, saves,
}

pub record PoolManager : Type 0 where
  pub pools : Dict Text Pool
  pub auth_dirs : Dict Text Text
  pub state_dirs : Dict Text Text
  pub base_dir : Text

unfoldable pub new_pool_manager : Text → PoolManager
new_pool_manager base_dir = record {
  pools = [];
  auth_dirs = [];
  state_dirs = [];
  base_dir = base_dir;
}

-- What a directory holds: what the state file decodes to, and the files that `LoadDir` finds,
-- `none` if it fails; with the bytes that are drawn for each account.
pub record Directory : Type 0 where
  pub state : Option (Dict Text Account)
  pub files : Option (List (Text × AuthFile))
  pub draws : ℕ → Draws

-- The loop that adds the credentials that were loaded.
pub add_all : (ℕ → Draws) → ℕ → List Cred → Pool → Pool
add_all draws i [] p = p
add_all draws i (c ∷ cs) p =
    add_all draws (suc i) cs (add (ensure_machine_fingerprint (draws i) c) p)

abbrev save_if_any : Env → List Cred → Pool → Pool
save_if_any env [] p = p
save_if_any env (c ∷ cs) p = save_state env p

abbrev load_into : Env → (ℕ → Draws) → Option (List (Text × AuthFile)) → Pool → Pool
load_into env draws none p = p
load_into env draws (some files) p =
    let cs = load_dir files in save_if_any env cs (add_all draws 0 cs p)

-- The pool that a directory leads to.
pub open_pool : Env → Text → Directory → Pool
unfolding add_all new
open_pool env state_file dir =
    load_into env dir.draws dir.files (new (not (is_empty state_file)) dir.state)

unfoldable pub get_pool : Text → PoolManager → Option Pool
unfolding lookup
get_pool id pm = lookup id pm.pools

abbrev text_or_empty : Option Text → Text
text_or_empty none = []
text_or_empty (some t) = t

unfoldable pub get_user_auth_dir : Text → PoolManager → Text
unfolding lookup
get_user_auth_dir id pm = text_or_empty (lookup id pm.auth_dirs)

unfoldable pub remove_user : Text → PoolManager → PoolManager
unfolding delete
remove_user id pm = record pm {
  pools = delete id pm.pools;
  auth_dirs = delete id pm.auth_dirs;
  state_dirs = delete id pm.state_dirs;
}

-- `AllPools` hands out a copy of the map.
abbrev pub all_pools : PoolManager → Dict Text Pool
all_pools pm = pm.pools

-- A pool behind the pointer that `GetPool` gave out is changed.
unfoldable pub set_pool : Text → Pool → PoolManager → PoolManager
unfolding insert
set_pool id p pm = record pm { pools = insert id p pm.pools }

-- `join` is filepath.Join.
module _ (join : List Text → Text) where
  unfoldable pub register_user : Env → Directory → Text → PoolManager → PoolManager × Pool
  unfolding lookup insert open_pool
  register_user env dir id pm = elim (lookup id pm.pools) [
    | some p ↦ (pm, p)
    | none ↦
        let auth_dir = join (pm.base_dir ∷ codes "pools" ∷ id ∷ []) in
        let state_file = join (auth_dir ∷ codes "state.json" ∷ []) in
        let p = open_pool env state_file dir in
        (
          record pm {
            pools = insert id p pm.pools;
            auth_dirs = insert id auth_dir pm.auth_dirs;
            state_dirs = insert id state_file pm.state_dirs;
          },
          p,
        )
  ]

pub add_all-IsWellFormed :
    (draws : ℕ → Draws) (i : ℕ) (cs : List Cred) (p : Pool)
    → IsWellFormed p
    → IsWellFormed (add_all draws i cs p)
unfolding add_all step
add_all-IsWellFormed draws i [] p w = w
add_all-IsWellFormed draws i (c ∷ cs) p w =
    add_all-IsWellFormed draws (suc i) cs (add (ensure_machine_fingerprint (draws i) c) p) (
      step-IsWellFormed (record { now = 0; writes = true })
        (adds (ensure_machine_fingerprint (draws i) c)) p w)

abbrev pub IsReadable : Option (Dict Text Account) → Type 0
IsReadable none = Unit
IsReadable (some accounts) = Unique accounts

pub new-IsWellFormed :
    (stored : Bool) (state : Option (Dict Text Account))
    → IsReadable state
    → IsWellFormed (new stored state)
unfolding new run
new-IsWellFormed stored (some accounts) u = run-new-IsWellFormed stored accounts [] u
new-IsWellFormed true none u = record { unique = tt; keyed = tt }
new-IsWellFormed false none u = record { unique = tt; keyed = tt }

save_if_any-IsWellFormed :
    (env : Env) (cs : List Cred) (p : Pool) → IsWellFormed p → IsWellFormed (save_if_any env cs p)
unfolding step
save_if_any-IsWellFormed env [] p w = w
save_if_any-IsWellFormed env (c ∷ cs) p w = step-IsWellFormed env saves p w

load_into-IsWellFormed :
    (env : Env) (draws : ℕ → Draws) (files : Option (List (Text × AuthFile))) (p : Pool)
    → IsWellFormed p
    → IsWellFormed (load_into env draws files p)
load_into-IsWellFormed env draws none p w = w
load_into-IsWellFormed env draws (some files) p w =
    save_if_any-IsWellFormed env (load_dir files) _
      (add_all-IsWellFormed draws 0 (load_dir files) p w)

pub open_pool-IsWellFormed :
    (env : Env) (state_file : Text) (dir : Directory)
    → IsReadable dir.state
    → IsWellFormed (open_pool env state_file dir)
unfolding open_pool
open_pool-IsWellFormed env state_file dir u =
    load_into-IsWellFormed env dir.draws dir.files _
      (new-IsWellFormed (not (is_empty state_file)) dir.state u)

-- What registration leaves: the user has this pool, others have the pools that they had, and a
-- directory is known for each user with a pool.
pub record IsRegistered (id : Text) (before : PoolManager) (after : PoolManager × Pool)
    : Type 0 where
  pub mine : get_pool id after.0 ≡ some after.1
  pub others : (j : Text) → j ≢ id → get_pool j after.0 ≡ get_pool j before

-- A user with a pool keeps it.
pub register_user_again :
    (join : List Text → Text) (env : Env) (dir : Directory) (id : Text) (pm : PoolManager)
    {p : Pool}
    → get_pool id pm ≡ some p
    → register_user join env dir id pm ≡ (pm, p)
unfolding get_pool register_user
register_user_again join env dir id pm h = rw (h, register_user) refl

-- A user without a pool gets the one that its directory holds.
pub register_user_new :
    (join : List Text → Text) (env : Env) (dir : Directory) (id : Text) (pm : PoolManager)
    → get_pool id pm ≡ none
    → (qm : PoolManager) × (state_file : Text) × (register_user join env dir id pm
        ≡ (qm, open_pool env state_file dir))
      × (qm.pools ≡ insert id (open_pool env state_file dir) pm.pools)
unfolding get_pool register_user
register_user_new join env dir id pm h =
    let auth_dir = join (pm.base_dir ∷ codes "pools" ∷ id ∷ []) in
    let state_file = join (auth_dir ∷ codes "state.json" ∷ []) in
    let p = open_pool env state_file dir in
    (
      record pm {
        pools = insert id p pm.pools;
        auth_dirs = insert id auth_dir pm.auth_dirs;
        state_dirs = insert id state_file pm.state_dirs;
      },
      state_file,
      rw (h, register_user) refl,
      refl,
    )

pub get_pool-insert :
    (id j : Text) (p : Pool) (pm qm : PoolManager)
    → qm.pools ≡ insert id p pm.pools
    → get_pool j qm ≡ (if id == j then some p else get_pool j pm)
unfolding get_pool
get_pool-insert id j p pm qm h = rw h (lookup-insert id j p pm.pools)

-- Registration gives the user the pool that is returned, leaves all others theirs, and gives the
-- same pool, and changes nothing, when it is called again, whatever the directory then holds.
pub register_user-IsRegistered :
    (join : List Text → Text) (env later : Env) (dir other : Directory) (id : Text)
    (pm : PoolManager)
    → let after = register_user join env dir id pm in
      IsRegistered id pm after × (register_user join later other id after.0 ≡ after)
register_user-IsRegistered join env later dir other id pm = elim (Option-cases (get_pool id pm)) [
  | inr (p, e) ↦
      rw (register_user_again join env dir id pm e)
        (record { mine = e; others = λ j ne. refl }, register_user_again join later other id pm e)
  | inl e ↦
      let (qm, file, eq, pools) = register_user_new join env dir id pm e in
      let p = open_pool env file dir in
      let mine : get_pool id qm ≡ some p =
        get_pool-insert id id p pm qm pools ∙ rw ((text_instance.agrees_iff id id).1 refl) refl in
      rw eq (
        record {
          mine = mine;
          others = λ j ne.
              ground (arith, get_pool-insert id j p pm qm pools, text_instance.agrees_iff id j);
        },
        register_user_again join later other id qm mine,
      )
]

-- A removed user has neither a pool nor a directory, and all others keep theirs.
pub get_pool-remove_user :
    (id j : Text) (pm : PoolManager)
    → get_pool j (remove_user id pm) ≡ (if id == j then none else get_pool j pm)
unfolding get_pool remove_user
get_pool-remove_user id j pm = lookup-delete id j pm.pools

pub get_pool-set_pool :
    (id j : Text) (p : Pool) (pm : PoolManager)
    → get_pool j (set_pool id p pm) ≡ (if id == j then some p else get_pool j pm)
unfolding get_pool set_pool
get_pool-set_pool id j p pm = lookup-insert id j p pm.pools
