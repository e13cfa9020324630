-- ===== src/Start/Sound.antt =====
-- What holds when the server runs.
use qoderwork2api.Common.{
  ℕ, ap, subst, ◌≡◌, refl, ◌∙◌, ◌⊎◌, inl, inr, Bool, true, false, not, List, [], ◌∷◌, Option, none,
  some, arith, Bool-cases, Option-cases, In,
}
use qoderwork2api.Common.Int.{ℤ}
use qoderwork2api.Common.Eq.{Text, text_instance, ◌==◌, is_empty}
use qoderwork2api.Common.Dict.{insert}
use qoderwork2api.Config.{Config, ConfigError, Loaded, loaded, refused}
use qoderwork2api.Cred.Load.{AuthFile, load_dir}
use qoderwork2api.Cred.Fingerprint.{Draws}
use qoderwork2api.Pool.{Pool, Env}
use qoderwork2api.Pool.Shape.{IsWellFormed, step, step-IsWellFormed, saves, syncs}
use qoderwork2api.User.{User, Store, all_users, new_store}
use qoderwork2api.User.Pools.{
  PoolManager, Directory, get_pool, open_pool, register_user, IsReadable, open_pool-IsWellFormed,
  new-IsWellFormed, add_all-IsWellFormed, get_pool-insert, register_user_again, register_user_new,
  register_user-IsRegistered, new_pool_manager,
}
use qoderwork2api.Upstream.Models.{resolve_model_map}
use qoderwork2api.Server.Chat.{new_handler, rotations}
use qoderwork2api.Server.Handler.Completions.Kept.{IsSound}
use qoderwork2api.Start.{
  World, Server, running, register_all, admin_pool, on_reload, with_users, serving, with_files,
  with_config, main, fingerprinted,
}

-- Every pool of the manager is in shape.
abbrev PoolsSound : PoolManager → Type 0
PoolsSound pm = (id : Text) (p : Pool) → get_pool id pm ≡ some p → IsWellFormed p

abbrev HasPool : Text → PoolManager → Type 0
HasPool id pm = (p : Pool) × (get_pool id pm ≡ some p)

module _ (join : List Text → Text) (env : Env) where
  register_user-PoolsSound :
      (dir : Directory) (id : Text) (pm : PoolManager)
      → IsReadable dir.state
      → PoolsSound pm
      → PoolsSound (register_user join env dir id pm).0
  register_user-PoolsSound dir id pm readable sound = elim (Option-cases (get_pool id pm)) [
    | inr (p, e) ↦ rw (register_user_again join env dir id pm e) sound
    | inl e ↦
        let (qm, file, eq, pools) = register_user_new join env dir id pm e in
        rw eq
          (λ j q at. in_insert dir id pm qm file readable sound pools j q (Bool-cases (id == j)) at)
  ]
    where
      in_insert :
          (dir : Directory) (id : Text) (pm qm : PoolManager) (file : Text)
          → IsReadable dir.state
          → PoolsSound pm
          → qm.pools ≡ insert id (open_pool env file dir) pm.pools
          → (j : Text) (q : Pool) → ((id == j) ≡ true) ⊎ ((id == j) ≡ false)
          → get_pool j qm ≡ some q
          → IsWellFormed q
      in_insert dir id pm qm file readable sound pools j q (inl e) at =
          let put = get_pool-insert id j (open_pool env file dir) pm qm pools in
          let same : open_pool env file dir ≡ q = ground (arith, e, at, put) in
          subst IsWellFormed same (open_pool-IsWellFormed env file dir readable)
      in_insert dir id pm qm file readable sound pools j q (inr e) at =
          let put = get_pool-insert id j (open_pool env file dir) pm qm pools in
          sound j q (ground (arith, e, at, put))

  register_user-HasPool :
      (dir : Directory) (id j : Text) (pm : PoolManager)
      → (id ≡ j) ⊎ HasPool j pm
      → HasPool j (register_user join env dir id pm).0
  register_user-HasPool dir id j pm either =
      let (registered, again) = register_user-IsRegistered join env env dir dir id pm in
      let p = (register_user join env dir id pm).1 in
      elim (Bool-cases (j == id)) [
        | inl e ↦
            let same = (text_instance.agrees_iff j id).0 e in
            (
              p,
              ap (λ (i : Text). get_pool i (register_user join env dir id pm).0) same
                  ∙ registered.mine,
            )
        | inr e ↦ elim either [
          | inl same ↦ absurd (ground (arith, text_instance.agrees_iff j id, same, e))
          | inr (q, at) ↦
              (q, registered.others j (λ h. cc ((text_instance.agrees_iff j id).1 h, e)) ∙ at)
        ]
      ]

  -- After the loop every pool is in shape, and all users have one.
  register_all-PoolsSound :
      (directories : Text → Directory) (us : List User) (pm : PoolManager)
      → ((id : Text) → IsReadable (directories id).state)
      → PoolsSound pm
      → PoolsSound (register_all join env directories us pm)
  unfolding register_all
  register_all-PoolsSound directories [] pm readable sound = sound
  register_all-PoolsSound directories (u ∷ us) pm readable sound =
      register_all-PoolsSound directories us _ readable
        (register_user-PoolsSound (directories u.id) u.id pm (readable u.id) sound)

  register_all-HasPool :
      (directories : Text → Directory) (us : List User) (j : Text) (pm : PoolManager)
      → HasPool j pm ⊎ ((u : User) × In u us × (u.id ≡ j))
      → HasPool j (register_all join env directories us pm)
  unfolding register_all
  register_all-HasPool directories [] j pm (inl has) = has
  register_all-HasPool directories [] j pm (inr (u, i, same)) = elim i [ ]
  register_all-HasPool directories (u ∷ us) j pm (inl has) =
      register_all-HasPool directories us j _
        (inl (register_user-HasPool (directories u.id) u.id j pm (inr has)))
  register_all-HasPool directories (u ∷ us) j pm (inr (v, inl e, same)) =
      register_all-HasPool directories us j _ (
        inl (
          register_user-HasPool (directories u.id) u.id j pm
            (inl (ap (λ (w : User). w.id) e ∙ same))))
  register_all-HasPool directories (u ∷ us) j pm (inr (v, inr i, same)) =
      register_all-HasPool directories us j _ (inr (v, i, same))

admin_pool-IsWellFormed :
    (env : Env) (stored : Bool) (dir : Directory) (files : List (Text × AuthFile))
    → IsReadable dir.state
    → IsWellFormed (admin_pool env stored dir files)
unfolding admin_pool step
admin_pool-IsWellFormed env stored dir files readable = step-IsWellFormed env saves _ (
    add_all-IsWellFormed dir.draws 0 (load_dir files) _
      (new-IsWellFormed stored dir.state readable))

on_reload-IsWellFormed :
    (env : Env) (draws : ℕ → Draws) (files : Option (List (Text × AuthFile))) (p : Pool)
    → IsWellFormed p
    → IsWellFormed (on_reload env draws files p)
unfolding on_reload step
on_reload-IsWellFormed env draws none p w = w
on_reload-IsWellFormed env draws (some files) p w =
    step-IsWellFormed env saves _
      (step-IsWellFormed env (syncs (fingerprinted draws 0 (load_dir files))) p w)

-- The server is in order: the pools and the cache are sound, also after a reload, all users have a
-- pool, and a request may try three accounts.
pub record IsRunning (lower : ℕ → ℕ) (s : Server) : Type 0 where
  pub sound : IsSound lower s.gateway
  pub reload :
      (env : Env) (draws : ℕ → Draws) (files : Option (List (Text × AuthFile)))
      → IsSound lower (record s.gateway { shared = on_reload env draws files s.gateway.shared })
  pub pools :
      (u : User)
      → In u (all_users s.store.users)
      → (p : Pool) × (get_pool u.id s.gateway.manager ≡ some p)
  pub tries : rotations s.settings ≡ 3

module _ (atoi parse_duration : Text → Option ℤ) (getenv : Text → Text) (lower : ℕ → ℕ)
    (is_not_exist : ConfigError → Bool) (abs_dir : Text → Text) (join : List Text → Text) where
  -- The state files are maps, in which each key stands once.
  abbrev pub IsReadableWorld : World → Type 0
  IsReadableWorld w = IsReadable w.admin.state × ((id : Text) → IsReadable (w.directories id).state)

  with_users-IsRunning :
      (w : World) (c : Config) (files : List (Text × AuthFile)) (store : Option Store) (s : Server)
      → IsReadableWorld w
      → with_users atoi parse_duration getenv lower is_not_exist abs_dir join w c files store
        ≡ running s
      → IsRunning lower s
  unfolding new_pool_manager get_pool resolve_model_map new_handler
  with_users-IsRunning w c files none s readable h = absurd (cc h)
  with_users-IsRunning w c files (some store) s (admin, users) h =
      let manager = new_pool_manager (abs_dir c.state_file) in
      let shape = admin_pool-IsWellFormed w.env (not (is_empty c.state_file)) w.admin files admin in
      let pools =
        register_all-PoolsSound join w.env w.directories (all_users store.users) manager users
          (λ id p at. absurd (cc at)) in
      let same : serving atoi parse_duration getenv lower is_not_exist abs_dir join w c files store
          ≡ s =
        cc h in
      subst (IsRunning lower) same (record {
        sound = record { shared = shape; pools = pools; cache = refl };
        reload = λ env draws found. record {
          shared = on_reload-IsWellFormed env draws found _ shape;
          pools = pools;
          cache = refl;
        };
        pools = λ u i.
            register_all-HasPool join w.env w.directories (all_users store.users) u.id manager
              (inr (u, i, refl));
        tries = refl;
      })

  with_files-IsRunning :
      (w : World) (c : Config) (files : Option (List (Text × AuthFile))) (s : Server)
      → IsReadableWorld w
      → with_files atoi parse_duration getenv lower is_not_exist abs_dir join w c files ≡ running s
      → IsRunning lower s
  with_files-IsRunning w c none s readable h = absurd (cc h)
  with_files-IsRunning w c (some files) s readable h =
      with_users-IsRunning w c files (new_store w.users) s readable h

  with_config-IsRunning :
      (w : World) (c : Loaded) (s : Server)
      → IsReadableWorld w
      → with_config atoi parse_duration getenv lower is_not_exist abs_dir join w c ≡ running s
      → IsRunning lower s
  with_config-IsRunning w (refused e) s readable h = absurd (cc h)
  with_config-IsRunning w (loaded c) s readable h =
      with_files-IsRunning w c w.admin.files s readable h

  -- If the server starts, then whatever it was configured with and found on the disk, all pools are
  -- in shape and the cache is coherent, every user of the store has a pool, a request tries up to
  -- three accounts, and a reload of the administrator's accounts leaves it so.
  pub main-IsRunning :
      (w : World) (s : Server)
      → IsReadableWorld w
      → main atoi parse_duration getenv lower is_not_exist abs_dir join w ≡ running s
      → IsRunning lower s
  unfolding main
  main-IsRunning w s readable h = with_config-IsRunning w _ s readable h
