-- ===== src/Common/Dict.antt =====
-- Go's maps as association lists. The order of the list is the order in which a `range` over the
-- map happens to run, so a theorem for every list is a theorem for every such order.
use qoderwork2api.Common.{
  ap, subst, ◌≡◌, refl, sym, inl, inr, List, [], ◌∷◌, Option, none, some, arith, In, All, All-In,
  if◌then◌else◌, Bool-cases,
}
use qoderwork2api.Common.Eq.{Eq, ◌==◌}

abbrev pub Dict : Type 0 → Type 0 → Type 0
Dict K V = List (K × V)

abbrev pub on_some : {V : Type 0} → (V → V) → Option V → Option V
on_some f none = none
on_some f (some v) = some (f v)

module _ {K V : Type 0} ⦃e : Eq K⦄ where
  unfoldable pub lookup : K → Dict K V → Option V
  lookup want [] = none
  lookup want ((have, v) ∷ rest) = if have == want then some v else lookup want rest

  unfoldable pub insert : K → V → Dict K V → Dict K V
  insert key v [] = (key, v) ∷ []
  insert key v ((have, old) ∷ rest) =
      if have == key then (key, v) ∷ rest else (have, old) ∷ insert key v rest

  unfoldable pub delete : K → Dict K V → Dict K V
  delete k [] = []
  delete k ((j, w) ∷ m) = let rest = delete k m in if j == k then rest else (j, w) ∷ rest

  -- A change of the value at a key that is there; through a pointer in Go.
  unfoldable pub modify : K → (V → V) → Dict K V → Dict K V
  modify k f [] = []
  modify k f ((j, w) ∷ m) =
      let rest = modify k f m in if j == k then (j, f w) ∷ m else (j, w) ∷ rest

  pub lookup-insert :
      (key want : K) (v : V) (m : Dict K V)
      → lookup want (insert key v m) ≡ (if key == want then some v else lookup want m)
  unfolding lookup insert
  lookup-insert key want v [] = refl
  lookup-insert key want v ((have, old) ∷ rest) =
      let before = lookup-insert key want v rest in
      ground (arith, before, e.agrees_iff have key, e.agrees_iff have want, e.agrees_iff key want)

  pub lookup-delete :
      (k j : K) (m : Dict K V) → lookup j (delete k m) ≡ (if k == j then none else lookup j m)
  unfolding lookup delete
  lookup-delete k j [] = ground arith
  lookup-delete k j ((i, w) ∷ m) =
      ground (arith, e.agrees_iff k j, e.agrees_iff i k, e.agrees_iff i j, lookup-delete k j m)

  pub lookup-modify :
      (k j : K) (f : V → V) (m : Dict K V)
      → lookup j (modify k f m) ≡ (if k == j then on_some f (lookup j m) else lookup j m)
  unfolding lookup modify
  lookup-modify k j f [] = ground arith
  lookup-modify k j f ((i, w) ∷ m) =
      ground (arith, e.agrees_iff k j, e.agrees_iff i k, e.agrees_iff i j, lookup-modify k j f m)

  -- Each key stands once, as in a map.
  abbrev pub Unique : Dict K V → Type 0
  Unique [] = Unit
  Unique ((k, v) ∷ m) = (lookup k m ≡ none) × Unique m

  pub insert-Unique : (k : K) (v : V) (m : Dict K V) → Unique m → Unique (insert k v m)
  unfolding insert
  insert-Unique k v [] u = (unfold lookup in refl, tt)
  insert-Unique k v ((j, w) ∷ m) u =
      ground
        (arith, e.agrees_iff j k, e.agrees_iff k j, lookup-insert k j v m, insert-Unique k v m u.1)

  pub delete-Unique : (k : K) (m : Dict K V) → Unique m → Unique (delete k m)
  unfolding delete
  delete-Unique k [] u = tt
  delete-Unique k ((j, w) ∷ m) u = ground (arith, lookup-delete k j m, delete-Unique k m u.1)

  pub modify-Unique : (k : K) (f : V → V) (m : Dict K V) → Unique m → Unique (modify k f m)
  unfolding modify
  modify-Unique k f [] u = tt
  modify-Unique k f ((j, w) ∷ m) u = ground (arith, lookup-modify k j f m, modify-Unique k f m u.1)

  pub In-lookup : (k : K) (v : V) (m : Dict K V) → lookup k m ≡ some v → In (k, v) m
  unfolding lookup
  In-lookup k v [] h = cc
  In-lookup k v ((j, w) ∷ m) h = elim (Bool-cases (j == k)) [
    | inl hit ↦ inl (ground (arith, e.agrees_iff j k))
    | inr miss ↦ inr (In-lookup k v m (ground arith))
  ]

  pub All-lookup :
      (P : K → V → Type 0) (k : K) {v : V} (m : Dict K V)
      → All (λ (entry : K × V). P entry.0 entry.1) m
      → lookup k m ≡ some v
      → P k v
  All-lookup P k {v} m h e =
      All-In (λ (entry : K × V). P entry.0 entry.1) (k, v) m h (In-lookup k v m e)

  pub All-modify :
      (P : K → V → Type 0) (k : K) (f : V → V) (m : Dict K V)
      → ((v : V) → P k v → P k (f v))
      → All (λ (entry : K × V). P entry.0 entry.1) m
      → All (λ (entry : K × V). P entry.0 entry.1) (modify k f m)
  unfolding modify
  All-modify P k f [] keep h = tt
  All-modify P k f ((j, w) ∷ m) keep h = elim (Bool-cases (j == k)) [
    | inl e' ↦
        let same : k ≡ j = sym ((e.agrees_iff j k).0 e') in
        rw e' (subst (λ i. P i (f w)) same (keep w (subst (λ i. P i w) (sym same) h.0)), h.1)
    | inr e' ↦ rw e' (h.0, All-modify P k f m keep h.1)
  ]

  pub All-insert :
      (P : K → V → Type 0) (k : K) (v : V) (m : Dict K V)
      → P k v
      → All (λ (entry : K × V). P entry.0 entry.1) m
      → All (λ (entry : K × V). P entry.0 entry.1) (insert k v m)
  unfolding insert
  All-insert P k v [] p h = (p, tt)
  All-insert P k v ((j, w) ∷ m) p h = elim (Bool-cases (j == k)) [
    | inl e' ↦ rw e' (p, h.1)
    | inr e' ↦ rw e' (h.0, All-insert P k v m p h.1)
  ]

  pub lookup-In : (k : K) (v : V) (m : Dict K V) → Unique m → In (k, v) m → lookup k m ≡ some v
  unfolding lookup
  lookup-In k v [] u i = elim i [ ]
  lookup-In k v ((j, w) ∷ m) u (inl p) =
      let key : j ≡ k = ap (λ (entry : K × V). entry.0) p in
      let value : w ≡ v = ap (λ (entry : K × V). entry.1) p in
      rw ((e.agrees_iff j k).1 key, value) refl
  lookup-In k v ((j, w) ∷ m) u (inr i) =
      let found = lookup-In k v m u.1 i in ground (arith, e.agrees_iff j k)
