-- ===== src/Server/Handler/Names.antt =====
-- The order of the list of models.
use qoderwork2api.Common.{
  ℕ, zero, suc, ◌≤◌, ap, ◌≡◌, refl, ◌∙◌, inl, inr, true, false, List, [], ◌∷◌, Option, none, some,
  arith, if◌then◌else◌, Bool-cases, All, length,
}
use qoderwork2api.Common.Eq.{Text, text_instance, ◌==◌}
use qoderwork2api.Common.Dict.{Dict, lookup, Unique}
use qoderwork2api.Common.Sort.{text_leb, text_leb_total, Starts, IsSorted}
use qoderwork2api.Server.Handler.{keys, below, exchange_pass, exchange_sort, listed_names}

text_leb_trans : (s t u : Text) → text_leb s t ≡ true → text_leb t u ≡ true → text_leb s u ≡ true
unfolding text_leb
text_leb_trans [] t u h k = refl
text_leb_trans (c ∷ s) [] u h k = cc
text_leb_trans (c ∷ s) (d ∷ t) [] h k = cc
text_leb_trans (c ∷ s) (d ∷ t) (e ∷ u) h k = ground (arith, text_leb_trans s t u)

text_leb_refl : (s : Text) → text_leb s s ≡ true
unfolding text_leb
text_leb_refl [] = refl
text_leb_refl (c ∷ s) = ground (arith, text_leb_refl s)

-- How often a text stands in a list.
pub times : Text → List Text → ℕ
times a [] = 0
times a (x ∷ xs) = let rest = times a xs in if x == a then suc rest else rest

-- The text is at most each of the list.
abbrev IsBelow : Text → List Text → Type 0
IsBelow x xs = All (λ y. text_leb x y ≡ true) xs

exchange_pass_kept :
    (x y : Text) (ys : List Text)
    → text_leb x y ≡ true
    → exchange_pass x (y ∷ ys) ≡ ((exchange_pass x ys).0, y ∷ (exchange_pass x ys).1)
unfolding exchange_pass
exchange_pass_kept x y ys e = rw (e, exchange_pass) refl

exchange_pass_taken :
    (x y : Text) (ys : List Text)
    → text_leb x y ≡ false
    → exchange_pass x (y ∷ ys) ≡ ((exchange_pass y ys).0, x ∷ (exchange_pass y ys).1)
unfolding exchange_pass
exchange_pass_taken x y ys e = rw (e, exchange_pass) refl

-- The text that the inner loop takes is at most that which stood there, and at most all the others.
exchange_pass-IsBelow :
    (x : Text) (ys : List Text)
    → let (first, rest) = exchange_pass x ys in (text_leb first x ≡ true) × IsBelow first rest
exchange_pass-IsBelow x [] = unfold exchange_pass in (text_leb_refl x, tt)
exchange_pass-IsBelow x (y ∷ ys) = elim (Bool-cases (text_leb x y)) [
  | inl e ↦
      let (least, all) = exchange_pass-IsBelow x ys in
      rw (exchange_pass_kept x y ys e)
        (least, (text_leb_trans (exchange_pass x ys).0 x y least e, all))
  | inr e ↦
      let (least, all) = exchange_pass-IsBelow y ys in
      let at_x = text_leb_trans (exchange_pass y ys).0 y x least (text_leb_total x y e) in
      rw (exchange_pass_taken x y ys e) (at_x, (at_x, all))
]

times-exchange_pass :
    (a x : Text) (ys : List Text)
    → let (first, rest) = exchange_pass x ys in times a (first ∷ rest) ≡ times a (x ∷ ys)
unfolding exchange_pass times
times-exchange_pass a x [] = refl
times-exchange_pass a x (y ∷ ys) = elim (Bool-cases (text_leb x y)) [
  | inl e ↦ rw (e, exchange_pass) (ground (arith, times-exchange_pass a x ys))
  | inr e ↦ rw (e, exchange_pass) (ground (arith, times-exchange_pass a y ys))
]

length-exchange_pass : (x : Text) (ys : List Text) → length (exchange_pass x ys).1 ≡ length ys
unfolding exchange_pass
length-exchange_pass x [] = refl
length-exchange_pass x (y ∷ ys) = ap suc (length-exchange_pass (if below y x then y else x) ys)

exchange_pass-All :
    (P : Text → Type 0) (x : Text) (ys : List Text)
    → P x
    → All P ys
    → let (first, rest) = exchange_pass x ys in P first × All P rest
unfolding exchange_pass
exchange_pass-All P x [] at all = (at, tt)
exchange_pass-All P x (y ∷ ys) at (at_y, all) = elim (Bool-cases (text_leb x y)) [
  | inl e ↦
      let (first, rest) = exchange_pass-All P x ys at all in
      rw (e, exchange_pass) (first, (at_y, rest))
  | inr e ↦
      let (first, rest) = exchange_pass-All P y ys at_y all in
      rw (e, exchange_pass) (first, (at, rest))
]

exchange_sort-All :
    (P : Text → Type 0) (n : ℕ) (xs : List Text) → All P xs → All P (exchange_sort n xs)
unfolding exchange_sort
exchange_sort-All P zero xs all = all
exchange_sort-All P (suc n) [] all = tt
exchange_sort-All P (suc n) (x ∷ xs) (at, all) =
    let (first, rest) = exchange_pass-All P x xs at all in
    (first, exchange_sort-All P n (exchange_pass x xs).1 rest)

IsBelow-Starts : (x : Text) (xs : List Text) → IsBelow x xs → Starts x xs
IsBelow-Starts x [] all = tt
IsBelow-Starts x (y ∷ ys) (at, all) = at

exchange_sort-IsSorted : (n : ℕ) (xs : List Text) → length xs ≤ n → IsSorted (exchange_sort n xs)
unfolding exchange_sort
exchange_sort-IsSorted zero [] fits = tt
exchange_sort-IsSorted zero (x ∷ xs) fits = absurd (omega (arith, fits))
exchange_sort-IsSorted (suc n) [] fits = tt
exchange_sort-IsSorted (suc n) (x ∷ xs) fits =
    let (least, all) = exchange_pass-IsBelow x xs in
    let rest = (exchange_pass x xs).1 in
    (
      IsBelow-Starts _ (exchange_sort n rest) (exchange_sort-All _ n rest all),
      exchange_sort-IsSorted n rest (omega (arith, fits, length-exchange_pass x xs)),
    )

times-exchange_sort :
    (a : Text) (n : ℕ) (xs : List Text) → times a (exchange_sort n xs) ≡ times a xs
unfolding exchange_sort times
times-exchange_sort a zero xs = refl
times-exchange_sort a (suc n) [] = refl
times-exchange_sort a (suc n) (x ∷ xs) =
    let (first, rest) = exchange_pass x xs in
    ground (arith, times-exchange_sort a n rest, times-exchange_pass a x xs)

abbrev pub once : Option Text → ℕ
once none = 0
once (some key) = 1

times-keys : (a : Text) (m : Dict Text Text) → Unique m → times a (keys m) ≡ once (lookup a m)
unfolding times lookup
times-keys a [] u = refl
times-keys a ((k, v) ∷ m) u = ground (arith, times-keys a m u.1, text_instance.agrees_iff k a)

-- The list of models is in order, and it has each key of the map of names that it is made from
-- once, and no other name.
pub listed_names-IsSorted :
    (names : Dict Text Text)
    → Unique names
    → IsSorted (listed_names names)
      × ((name : Text) → times name (listed_names names) ≡ once (lookup name names))
unfolding listed_names
listed_names-IsSorted names u = (
  exchange_sort-IsSorted (length (keys names)) (keys names) (omega arith),
  λ name. times-exchange_sort name (length (keys names)) (keys names) ∙ times-keys name names u,
)
