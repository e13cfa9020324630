-- ===== src/User/Creation.antt =====
-- What `Create` does when it succeeds and when it fails.
use qoderwork2api.Common.{
  ◌≡◌, ◌≢◌, refl, sym, ap, subst, inl, inr, true, false, [], ◌∷◌, none, some, arith, Bool-cases,
}
use qoderwork2api.Common.Eq.{is_empty, Text, text_instance}
use qoderwork2api.Common.Dict.{Dict, lookup, insert, delete, lookup-insert, lookup-delete}
use qoderwork2api.User.Password.{verify_password, verify-hash, salt-NoColon}
use qoderwork2api.User.{
  User, Store, StoreError, Draws, Created, created, refused, create, new_user, save, has_name,
  random_hex, generate_id, generate_key, auth_in, auth_by_password, get_by_id, get_by_key,
  name_taken, save_failed, with_user, without_user,
}

-- The id and the key that are drawn are not in use.
abbrev pub IsFresh : Draws → Store → Type 0
IsFresh d s = (lookup (generate_id d) s.users ≡ none) × (lookup (generate_key d) s.by_key ≡ none)

module _ (sha : Text → Text) where
  auth_in-insert :
      (name password id : Text) (u : User) (m : Dict Text User)
      → u.name ≡ name
      → verify_password sha u.password_hash password ≡ true
      → has_name name m ≡ false
      → auth_in sha name password (insert id u m) ≡ some u
  unfolding auth_in has_name insert
  auth_in-insert name password id u [] at ok new =
      rw ((text_instance.agrees_iff u.name name).1 at, ok) refl
  auth_in-insert name password id u ((j, w) ∷ m) at ok new = ground (
    arith,
    text_instance.agrees_iff u.name name,
    text_instance.agrees_iff j id,
    auth_in-insert name password id u m,
  )

  module _ (d : Draws) (name password role : Text) (s : Store) where
    abbrev pub fresh_user : User
    fresh_user = new_user sha d name password role

    lookup-insert_self :
        (k : Text) (u : User) (m : Dict Text User) → lookup k (insert k u m) ≡ some u
    lookup-insert_self k u m =
        rw (lookup-insert k k u m, (text_instance.agrees_iff k k).1 refl) refl

    -- Taking a new key back leaves every lookup as it was.
    lookup-delete-insert :
        (k j : Text) (u : User) (m : Dict Text User)
        → lookup k m ≡ none
        → lookup j (delete k (insert k u m)) ≡ lookup j m
    lookup-delete-insert k j u m free = ground (
      arith,
      lookup-delete k j (insert k u m),
      lookup-insert k j u m,
      text_instance.agrees_iff k j,
    )

    -- The two outcomes of the call that a free name has.
    pub create_written :
        has_name name s.users ≡ false
        → d.writes ≡ true
        → (t : Store) × (create sha d name password role s ≡ (t, created fresh_user))
          × (t.users ≡ insert fresh_user.id fresh_user s.users)
          × (t.by_key ≡ insert fresh_user.api_key fresh_user s.by_key)
    unfolding create
    create_written free w =
        ((save true (with_user sha fresh_user s)).0, rw (free, w) refl, refl, refl)

    pub create_unwritten :
        has_name name s.users ≡ false
        → d.writes ≡ false
        → create sha d name password role s ≡ (
          without_user sha fresh_user.id fresh_user.api_key (with_user sha fresh_user s),
          refused save_failed,
        )
    unfolding create
    create_unwritten free w = rw (free, w) refl

    pub create_taken :
        has_name name s.users ≡ true → create sha d name password role s ≡ (s, refused name_taken)
    unfolding create
    create_taken taken = rw taken refl

    -- The user is found in every way that there is.
    abbrev pub IsFound : User → Store → Type 0
    IsFound u t =
        (u.name ≡ name)
        × (u.role ≡ role)
        × (get_by_id u.id t ≡ some u)
        × (get_by_key u.api_key t ≡ some u)
        × (auth_by_password sha name password t ≡ some u)
        × ((id : Text) → id ≢ u.id → get_by_id id t ≡ get_by_id id s)
        × ((key : Text) → key ≢ u.api_key → get_by_key key t ≡ get_by_key key s)

    own_password : verify_password sha fresh_user.password_hash password ≡ true
    unfolding new_user random_hex
    own_password =
        (verify-hash sha (random_hex 16 d.salt_bytes) password password
          (salt-NoColon 16 d.salt_bytes)).1

    fresh_user-IsFound :
        (t : Store)
        → has_name name s.users ≡ false
        → t.users ≡ insert fresh_user.id fresh_user s.users
        → t.by_key ≡ insert fresh_user.api_key fresh_user s.by_key
        → IsFound fresh_user t
    unfolding get_by_id get_by_key auth_by_password
    fresh_user-IsFound t free us ks = (
      unfold new_user in refl,
      unfold new_user in refl,
      rw us (lookup-insert_self fresh_user.id fresh_user s.users),
      rw ks (lookup-insert_self fresh_user.api_key fresh_user s.by_key),
      rw us (
          auth_in-insert name password fresh_user.id fresh_user s.users (unfold new_user in refl)
            own_password free),
      λ id other. rw us (
          ground (
            arith,
            lookup-insert fresh_user.id id fresh_user s.users,
            text_instance.agrees_iff fresh_user.id id,
          )),
      λ key other. rw ks (
          ground (
            arith,
            lookup-insert fresh_user.api_key key fresh_user s.by_key,
            text_instance.agrees_iff fresh_user.api_key key,
          )),
    )

    -- After a creation that succeeds the user has the name and the role that were asked for, and is
    -- found by its id, by its key, and by its name with the password; and every other id and every
    -- other key finds whom it found before.
    pub create_created :
        (u : User)
        → (create sha d name password role s).1 ≡ created u
        → IsFound u (create sha d name password role s).0
    create_created u h = elim (Bool-cases (has_name name s.users)) [
      | inl taken ↦ absurd (cc (create_taken taken))
      | inr free ↦ elim (Bool-cases d.writes) [
        | inr w ↦ absurd (cc (create_unwritten free w))
        | inl w ↦
            let (t, eq, us, ks) = create_written free w in
            let same : fresh_user ≡ u = ground (arith, eq) in
            let store : t ≡ (create sha d name password role s).0 =
              ap (λ (r : Store × Created). r.0) (sym eq) in
            subst (λ (v : User). IsFound v (create sha d name password role s).0) same
              (subst (IsFound fresh_user) store (fresh_user-IsFound t free us ks))
      ]
    ]

    -- The user that is returned is the one that was made.
    pub create_fresh :
        (u : User) → (create sha d name password role s).1 ≡ created u → fresh_user ≡ u
    create_fresh u h = elim (Bool-cases (has_name name s.users)) [
      | inl taken ↦ absurd (cc (create_taken taken))
      | inr free ↦ elim (Bool-cases d.writes) [
        | inr w ↦ absurd (cc (create_unwritten free w))
        | inl w ↦ let (t, eq, us, ks) = create_written free w in ground (arith, eq)
      ]
    ]

    pub api_key_set : is_empty fresh_user.api_key ≡ false
    unfolding new_user generate_key
    api_key_set = refl

    -- A creation that fails, because the name is taken or the file cannot be written, leaves both
    -- indexes as they were, if what was drawn is not in use.
    pub create_refused :
        (e : StoreError) (k : Text)
        → IsFresh d s
        → (create sha d name password role s).1 ≡ refused e
        → let t = (create sha d name password role s).0 in
          (lookup k t.users ≡ lookup k s.users) × (lookup k t.by_key ≡ lookup k s.by_key)
    create_refused e k fresh h = elim (Bool-cases (has_name name s.users)) [
      | inl taken ↦ rw (create_taken taken) (refl, refl)
      | inr free ↦ elim (Bool-cases d.writes) [
        | inl w ↦ let (t, eq, us, ks) = create_written free w in absurd (cc eq)
        | inr w ↦ rw (create_unwritten free w) (
          lookup-delete-insert fresh_user.id k fresh_user s.users (unfold new_user in fresh.0),
          lookup-delete-insert fresh_user.api_key k fresh_user s.by_key
              (unfold new_user in fresh.1),
        )
      ]
    ]
