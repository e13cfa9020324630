-- ===== src/Server/Admin/Access.antt =====
-- Who is let in, and with which pool, after the administration made or deleted a user.
use qoderwork2api.Common.{
  ap, subst, ◌≡◌, ◌≢◌, refl, sym, ◌∙◌, inl, inr, Bool, false, ◌||◌, List, ◌++◌, Option, none, some,
  arith, Bool-cases,
}
use qoderwork2api.Common.Eq.{Text, codes, text_instance, ◌==◌, is_empty}
use qoderwork2api.Common.Strings.{trim_prefix-append}
use qoderwork2api.Pool.{Pool, Env}
use qoderwork2api.User.{
  User, Store, StoreError, Draws, Created, created, refused, create, delete_user, get_by_id,
  get_by_key,
}
use qoderwork2api.User.Creation.{IsFound, create_created, create_fresh, api_key_set}
use qoderwork2api.User.Index.{IsIndexed, delete_user_revokes}
use qoderwork2api.User.Pools.{Directory, get_pool, register_user-IsRegistered, get_pool-remove_user}
use qoderwork2api.Server.Auth.{
  pass, bearer, extract_key-bearer, auth_middleware, IsAdmitted, auth_middleware-IsAdmitted,
}
use qoderwork2api.Server.Admin.{
  Office, CreateRequest, account, deleted, role_of, finish_create, handle_create_user,
  finish_delete, handle_delete_user,
}

-- The header with a key.
abbrev pub with_key : Text → Text
with_key key = bearer ++ key

-- A user who is in the store is let in by its key, if that is not the administrator's.
admits_key :
    (s : Store) (admin_key : Text) (u : User)
    → get_by_key u.api_key s ≡ some u
    → is_empty u.api_key ≡ false
    → u.api_key ≢ admin_key
    → auth_middleware s admin_key (with_key u.api_key) ≡ pass u
admits_key s admin_key u found set other =
    let ((sound, complete), both) = auth_middleware-IsAdmitted s admin_key (with_key u.api_key) u in
    let key = extract_key-bearer u.api_key in
    complete (
      subst (λ (k : Text). IsAdmitted s admin_key k u) (sym key)
        ((λ none_set. cc (ap (λ (k : Text). is_empty k) none_set, set)), inr (other, found)))

-- Nobody is let in by a key that the store does not know and that is not the administrator's.
refuses_key :
    (s : Store) (admin_key key : Text) (v : User)
    → get_by_key key s ≡ none
    → key ≢ admin_key
    → auth_middleware s admin_key (with_key key) ≢ pass v
refuses_key s admin_key key v unknown other h =
    let ((sound, complete), both) = auth_middleware-IsAdmitted s admin_key (with_key key) v in
    let admitted =
      subst (λ (k : Text). IsAdmitted s admin_key k v) (extract_key-bearer key) (sound h) in
    elim admitted.1 [ inl (same, it) ↦ other same | inr (differs, found) ↦ cc (unknown, found) ]

module _ (message : StoreError → Text) (sha : Text → Text) (join : List Text → Text) where
  -- What the creation of a user promises.
  pub record IsWelcome (admin_key : Text) (req : CreateRequest) (u : User) (o : Office)
      : Type 0 where
    pub role :
        (req.role ≡ codes "admin" → u.role ≡ codes "admin")
        × (req.role ≢ codes "admin" → u.role ≡ codes "user")
    pub name : u.name ≡ req.name
    pub let_in :
        u.api_key ≢ admin_key → auth_middleware o.store admin_key (with_key u.api_key) ≡ pass u
    pub pool : (p : Pool) × (get_pool u.id o.manager ≡ some p)

  role_asked :
      (wanted role : Text)
      → role ≡ role_of message sha join wanted
      → (wanted ≡ codes "admin" → role ≡ codes "admin")
        × (wanted ≢ codes "admin" → role ≡ codes "user")
  role_asked wanted role h = (
    λ is. ground (arith, h, is, text_instance.agrees_iff wanted (codes "admin")),
    λ is_not. elim (Bool-cases (wanted == codes "admin")) [
      | inl e ↦ absurd (is_not ((text_instance.agrees_iff wanted (codes "admin")).0 e))
      | inr e ↦ ground (arith, h, e)
    ],
  )

  finish_create-IsWelcome :
      (d : Draws) (env : Env) (dir : Directory) (req : CreateRequest) (admin_key : Text)
      (o : Office) (r : Store × Created) (u : User)
      → create sha d req.name req.password (role_of message sha join req.role) o.store ≡ r
      → (finish_create message sha join env dir o r).1 ≡ account 201 u
      → IsWelcome admin_key req u (finish_create message sha join env dir o r).0
  finish_create-IsWelcome d env dir req admin_key o (s, refused e) u made h = absurd (cc h)
  finish_create-IsWelcome d env dir req admin_key o (s, created v) u made h =
      let role = role_of message sha join req.role in
      let same : v ≡ u = ground arith in
      let is : (create sha d req.name req.password role o.store).1 ≡ created v = rw made refl in
      let fresh = create_fresh sha d req.name req.password role o.store v is in
      let (named, has_role, by_id, by_key, by_password, other_ids, other_keys) =
        subst (λ (t : Store). IsFound sha d req.name req.password role o.store v t)
          (ap (λ (q : Store × Created). q.0) made)
          (create_created sha d req.name req.password role o.store v is) in
      let set : is_empty v.api_key ≡ false =
        subst (λ (w : User). is_empty w.api_key ≡ false) fresh
          (api_key_set sha d req.name req.password role o.store) in
      let (registered, again) = register_user-IsRegistered join env env dir dir v.id o.manager in
      subst
        (λ (w : User).
          IsWelcome admin_key req w (finish_create message sha join env dir o (s, created v)).0)
        same
        (record {
          role = role_asked req.role v.role has_role;
          name = named;
          let_in = λ other. admits_key s admin_key v by_key set other;
          pool = (_, registered.mine);
        })

  -- If the administration answers that a user was created, the user has the name that was asked
  -- for, and the role admin if that was asked for and else the role user; the key that is returned,
  -- if it is not the administrator's, lets this user in, and there is a pool for the user.
  pub handle_create_user-IsWelcome :
      (d : Draws) (env : Env) (dir : Directory) (req : CreateRequest) (admin_key : Text)
      (o : Office) (u : User)
      → (handle_create_user message sha join d env dir (some req) o).1 ≡ account 201 u
      → IsWelcome admin_key req u (handle_create_user message sha join d env dir (some req) o).0
  unfolding handle_create_user
  handle_create_user-IsWelcome d env dir req admin_key o u h =
      elim (Bool-cases (is_empty req.name || is_empty req.password)) [
        | inl bad ↦ absurd (ground (arith, bad))
        | inr good ↦
            rw (good, handle_create_user)
              (finish_create-IsWelcome d env dir req admin_key o _ u refl (ground (arith, good)))
      ]

  -- What the deletion of a user promises.
  pub record IsGone (admin_key : Text) (u : User) (before after : Office) : Type 0 where
    pub shut_out :
        (v : User)
        → u.api_key ≢ admin_key
        → auth_middleware after.store admin_key (with_key u.api_key) ≢ pass v
    pub no_pool : get_pool u.id after.manager ≡ none
    pub others :
        (j : Text)
        → j ≢ u.id
        → (get_pool j after.manager ≡ get_pool j before.manager)
          × (get_by_id j after.store ≡ get_by_id j before.store)

  finish_delete-IsGone :
      (writes : Bool) (admin_key : Text) (o : Office) (u : User) (r : Store × Option StoreError)
      → IsIndexed o.store
      → get_by_id u.id o.store ≡ some u
      → delete_user writes u.id o.store ≡ r
      → (finish_delete message u.id o r).1 ≡ deleted
      → IsGone admin_key u o (finish_delete message u.id o r).0
  finish_delete-IsGone writes admin_key o u (s, some e) ix at did h = absurd (cc h)
  finish_delete-IsGone writes admin_key o u (s, none) ix at did h =
      let store : (delete_user writes u.id o.store).0 ≡ s =
        ap (λ (q : Store × Option StoreError). q.0) did in
      let (by_id, by_key, ids, keys, indexed) = delete_user_revokes writes o.store u ix at in
      record {
        shut_out = λ v other.
            refuses_key s admin_key u.api_key v (ap (get_by_key u.api_key) (sym store) ∙ by_key)
              other;
        no_pool =
            get_pool-remove_user u.id u.id o.manager
            ∙ rw ((text_instance.agrees_iff u.id u.id).1 refl) refl;
        others = λ j ne. (
          ground (arith, get_pool-remove_user u.id j o.manager, text_instance.agrees_iff u.id j),
          ap (get_by_id j) (sym store) ∙ ids j ne,
        );
      }

  -- If the administration answers that a user was deleted, the user's key lets nobody in any more,
  -- unless it is the administrator's, the user's pool is gone, and all other users keep theirs.
  pub handle_delete_user-IsGone :
      (writes : Bool) (admin_key : Text) (o : Office) (u : User)
      → IsIndexed o.store
      → get_by_id u.id o.store ≡ some u
      → (handle_delete_user message writes (codes "/users/" ++ u.id) o).1 ≡ deleted
      → IsGone admin_key u o (handle_delete_user message writes (codes "/users/" ++ u.id) o).0
  unfolding handle_delete_user
  handle_delete_user-IsGone writes admin_key o u ix at h =
      let id = trim_prefix-append (codes "/users/") u.id in
      elim (Bool-cases (is_empty u.id)) [
        | inl bad ↦ absurd (ground (arith, id, bad))
        | inr good ↦
            rw (id, good)
              (finish_delete-IsGone writes admin_key o u _ ix at refl (ground (arith, id, good)))
      ]
