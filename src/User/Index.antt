-- ===== src/User/Index.antt =====
-- The two indexes of the store agree, through `Create` and `Delete`.
use qoderwork2api.Common.{
  ◌≡◌, ◌≢◌, refl, ap, inl, inr, Bool, true, false, none, some, arith, Bool-cases,
}
use qoderwork2api.Common.Eq.{Text, text_instance}
use qoderwork2api.Common.Dict.{lookup, insert, delete, lookup-insert, lookup-delete}
use qoderwork2api.User.{
  User, Store, Draws, Created, create, new_user, save, has_name, delete_user, get_by_id, get_by_key,
  save_failed,
}
use qoderwork2api.User.Creation.{
  IsFresh, create_written, create_unwritten, create_taken, create_refused,
}

-- A user stands under its id and under its API key, and nothing else does.
pub record IsIndexed (s : Store) : Type 0 where
  pub from_id :
      (id : Text) (u : User)
      → lookup id s.users ≡ some u
      → (u.id ≡ id) × (lookup u.api_key s.by_key ≡ some u)
  pub from_key :
      (key : Text) (u : User)
      → lookup key s.by_key ≡ some u
      → (u.api_key ≡ key) × (lookup u.id s.users ≡ some u)

delete-IsIndexed :
    (u : User) (s t : Store)
    → lookup u.id s.users ≡ some u
    → t.users ≡ delete u.id s.users
    → t.by_key ≡ delete u.api_key s.by_key
    → IsIndexed s
    → IsIndexed t
delete-IsIndexed u s t at us ks ix = record {
  from_id = λ id v h. ground (
    arith,
    lookup-delete u.id id s.users,
    lookup-delete u.api_key v.api_key s.by_key,
    text_instance.agrees_iff u.id id,
    text_instance.agrees_iff u.api_key v.api_key,
    us,
    ks,
    ix.from_id id v,
    ix.from_id u.id u,
    ix.from_key v.api_key v,
    ix.from_key u.api_key u,
  );
  from_key = λ key v h. ground (
    arith,
    lookup-delete u.api_key key s.by_key,
    lookup-delete u.id v.id s.users,
    text_instance.agrees_iff u.api_key key,
    text_instance.agrees_iff u.id v.id,
    us,
    ks,
    ix.from_key key v,
    ix.from_key u.api_key u,
    ix.from_id v.id v,
    ix.from_id u.id u,
  );
}

insert-IsIndexed :
    (u : User) (s t : Store)
    → lookup u.id s.users ≡ none
    → lookup u.api_key s.by_key ≡ none
    → t.users ≡ insert u.id u s.users
    → t.by_key ≡ insert u.api_key u s.by_key
    → IsIndexed s
    → IsIndexed t
insert-IsIndexed u s t new_id new_key us ks ix = record {
  from_id = λ id v h. ground (
    arith,
    lookup-insert u.id id u s.users,
    lookup-insert u.api_key v.api_key u s.by_key,
    text_instance.agrees_iff u.id id,
    text_instance.agrees_iff u.api_key v.api_key,
    us,
    ks,
    ix.from_id id v,
  );
  from_key = λ key v h. ground (
    arith,
    lookup-insert u.api_key key u s.by_key,
    lookup-insert u.id v.id u s.users,
    text_instance.agrees_iff u.api_key key,
    text_instance.agrees_iff u.id v.id,
    us,
    ks,
    ix.from_key key v,
  );
}

same-IsIndexed :
    (s t : Store)
    → ((k : Text) → (lookup k t.users ≡ lookup k s.users) × (lookup k t.by_key ≡ lookup k s.by_key))
    → IsIndexed s
    → IsIndexed t
same-IsIndexed s t same ix = record {
  from_id = λ id v h. ground (arith, (same id).0, (same v.api_key).1, ix.from_id id v);
  from_key = λ key v h. ground (arith, (same key).1, (same v.id).0, ix.from_key key v);
}

-- A creation keeps the two indexes in agreement, whatever its outcome, if what was drawn is not in
-- use.
pub create-IsIndexed :
    (sha : Text → Text) (d : Draws) (name password role : Text) (s : Store)
    → IsFresh d s
    → IsIndexed s
    → IsIndexed (create sha d name password role s).0
create-IsIndexed sha d name password role s fresh ix = elim (Bool-cases (has_name name s.users)) [
  | inl taken ↦ rw (create_taken sha d name password role s taken) ix
  | inr free ↦ elim (Bool-cases d.writes) [
    | inl w ↦
        let (t, eq, us, ks) = create_written sha d name password role s free w in
        rw eq (
          insert-IsIndexed (new_user sha d name password role) s t (unfold new_user in fresh.0)
            (unfold new_user in fresh.1) us ks ix)
    | inr w ↦
        let failed =
          ap (λ (r : Store × Created). r.1) (create_unwritten sha d name password role s free w) in
        same-IsIndexed s _
          (λ k. create_refused sha d name password role s save_failed k fresh failed) ix
  ]
]

delete_user_found :
    (writes : Bool) (id : Text) (s : Store) (u : User)
    → lookup id s.users ≡ some u
    → let t = (delete_user writes id s).0 in
      (t.users ≡ delete id s.users) × (t.by_key ≡ delete u.api_key s.by_key)
unfolding delete_user save
delete_user_found true id s u h = rw (h, delete_user) (refl, refl)
delete_user_found false id s u h = rw (h, delete_user) (refl, refl)

-- Once a user is deleted neither the id nor the API key finds it, also where the file could not
-- be written and the call reports an error, every other id and key finds what it found before,
-- and the indexes agree.
pub delete_user_revokes :
    (writes : Bool) (s : Store) (u : User)
    → IsIndexed s
    → get_by_id u.id s ≡ some u
    → let t = (delete_user writes u.id s).0 in
      (get_by_id u.id t ≡ none)
      × (get_by_key u.api_key t ≡ none)
      × ((k : Text) → k ≢ u.id → get_by_id k t ≡ get_by_id k s)
      × ((k : Text) → k ≢ u.api_key → get_by_key k t ≡ get_by_key k s)
      × IsIndexed t
unfolding get_by_id get_by_key
delete_user_revokes writes s u ix at =
    let (us, ks) = delete_user_found writes u.id s u at in
    (
      rw (us, lookup-delete u.id u.id s.users, (text_instance.agrees_iff u.id u.id).1 refl) refl,
      rw
          (
            ks,
            lookup-delete u.api_key u.api_key s.by_key,
            (text_instance.agrees_iff u.api_key u.api_key).1 refl,
          )
          refl,
      λ k other.
          rw us (ground (arith, lookup-delete u.id k s.users, text_instance.agrees_iff u.id k)),
      λ k other. rw ks (
          ground (arith, lookup-delete u.api_key k s.by_key, text_instance.agrees_iff u.api_key k)),
      delete-IsIndexed u s _ at us ks ix,
    )
