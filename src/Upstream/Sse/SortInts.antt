-- ===== src/Upstream/Sse/SortInts.antt =====
-- `sortInts`: an exchange sort, and that it sorts.
use qoderwork2api.Common.{
  ℕ, zero, suc, ◌+◌, ◌≡◌, refl, ap, ◌∙◌, Bool, true, false, List, [], ◌∷◌, arith, if◌then◌else◌,
  Bool-cases, length, All, inl, inr,
}
use qoderwork2api.Common.Int.{ℤ, ltb_ℤ, ◌≤ℤ◌}
use qoderwork2api.Common.Eq.{int_instance, ◌==◌}

-- The inner loop: `x` stands at i, and the list behind it is gone through once.
pub exchange : ℤ → List ℤ → ℤ × List ℤ
exchange x [] = (x, [])
exchange x (y ∷ ys) =
    let (low, rest) = exchange y ys in
    let (low', rest') = exchange x ys in if ltb_ℤ y x then (low, x ∷ rest) else (low', y ∷ rest')

-- The outer loop, once for each place.
sort_loop : ℕ → List ℤ → List ℤ
unfolding exchange
sort_loop zero xs = xs
sort_loop (suc n) [] = []
sort_loop (suc n) (x ∷ xs) = let (low, rest) = exchange x xs in low ∷ sort_loop n rest

unfoldable pub sort_ints : List ℤ → List ℤ
unfolding sort_loop
sort_ints xs = sort_loop (length xs) xs

abbrev pub IsAscending : List ℤ → Type 0
IsAscending [] = Unit
IsAscending (x ∷ xs) = All (λ y. x ≤ℤ y) xs × IsAscending xs

abbrev pub bit : Bool → ℕ
bit true = 1
bit false = 0

abbrev pub occurrences : ℤ → List ℤ → ℕ
occurrences z [] = 0
occurrences z (x ∷ xs) = bit (x == z) + occurrences z xs

length-exchange : (x : ℤ) (ys : List ℤ) → length (exchange x ys).1 ≡ length ys
unfolding exchange
length-exchange x [] = refl
length-exchange x (y ∷ ys) = ground (arith, length-exchange y ys, length-exchange x ys)

occurrences-exchange :
    (z x : ℤ) (ys : List ℤ)
    → occurrences z ((exchange x ys).0 ∷ (exchange x ys).1) ≡ occurrences z (x ∷ ys)
unfolding exchange
occurrences-exchange z x [] = refl
occurrences-exchange z x (y ∷ ys) = elim (Bool-cases (ltb_ℤ y x)) [
  | inl l ↦ rw (l, exchange) (omega (arith, occurrences-exchange z y ys))
  | inr l ↦ rw (l, exchange) (omega (arith, occurrences-exchange z x ys))
]

module _ (P : ℤ → Type 0) where
  exchange-All :
      (x : ℤ) (ys : List ℤ) → P x → All P ys → P (exchange x ys).0 × All P (exchange x ys).1
  unfolding exchange
  exchange-All x [] here all = (here, tt)
  exchange-All x (y ∷ ys) here all = elim (Bool-cases (ltb_ℤ y x)) [
    | inl l ↦
        let (low, rest) = exchange-All y ys all.0 all.1 in rw (l, exchange) (low, (here, rest))
    | inr l ↦
        let (low, rest) = exchange-All x ys here all.1 in rw (l, exchange) (low, (all.0, rest))
  ]

  sort_loop-All : (n : ℕ) (xs : List ℤ) → All P xs → All P (sort_loop n xs)
  unfolding sort_loop
  sort_loop-All zero xs all = all
  sort_loop-All (suc n) [] all = tt
  sort_loop-All (suc n) (x ∷ xs) all =
      let (low, rest) = exchange-All x xs all.0 all.1 in
      (low, sort_loop-All n (exchange x xs).1 rest)

-- The least stands in front.
exchange-least :
    (x : ℤ) (ys : List ℤ)
    → ((exchange x ys).0 ≤ℤ x) × All (λ y. (exchange x ys).0 ≤ℤ y) (exchange x ys).1
unfolding exchange
exchange-least x [] = (ground arith, tt)
exchange-least x (y ∷ ys) = elim (Bool-cases (ltb_ℤ y x)) [
  | inl l ↦
      let (below, rest) = exchange-least y ys in
      rw (l, exchange) (ground arith, (ground arith, rest))
  | inr l ↦
      let (below, rest) = exchange-least x ys in rw (l, exchange) (below, (ground arith, rest))
]

sort_loop-IsAscending : (n : ℕ) (xs : List ℤ) → n ≡ length xs → IsAscending (sort_loop n xs)
unfolding sort_loop
sort_loop-IsAscending zero [] size = tt
sort_loop-IsAscending zero (x ∷ xs) size = absurd (omega arith)
sort_loop-IsAscending (suc n) [] size = absurd (omega arith)
sort_loop-IsAscending (suc n) (x ∷ xs) size = (
  sort_loop-All (λ y. (exchange x xs).0 ≤ℤ y) n (exchange x xs).1 (exchange-least x xs).1,
  sort_loop-IsAscending n (exchange x xs).1 (omega (arith, length-exchange x xs)),
)

occurrences-sort_loop :
    (z : ℤ) (n : ℕ) (xs : List ℤ) → occurrences z (sort_loop n xs) ≡ occurrences z xs
unfolding sort_loop
occurrences-sort_loop z zero xs = refl
occurrences-sort_loop z (suc n) [] = refl
occurrences-sort_loop z (suc n) (x ∷ xs) =
    let rest = occurrences-sort_loop z n (exchange x xs).1 in
    ap (λ (k : ℕ). bit ((exchange x xs).0 == z) + k) rest ∙ occurrences-exchange z x xs

-- The result is in ascending order and has every number as often as the list.
pub sort_ints-IsAscending :
    (xs : List ℤ)
    → IsAscending (sort_ints xs) × ((z : ℤ) → occurrences z (sort_ints xs) ≡ occurrences z xs)
unfolding sort_ints
sort_ints-IsAscending xs =
    (sort_loop-IsAscending (length xs) xs refl, λ z. occurrences-sort_loop z (length xs) xs)
