-- ===== src/Encoding/Segments.antt =====
-- The exchange of the outer segments.
use qoderwork2api.Common.{
  ℕ, zero, suc, ◌∷◌, All, All-append, ◌+◌, ◌-◌, ◌/◌, ◌≤◌, ◌≡◌, refl, sym, ap, ◌∙◌, ◌++◌, [], arith,
  length, take, drop, length-append, length-take, length-drop, take_prefix, drop_prefix,
  append_assoc, take_all, drop-drop, take-append-drop, append-nil,
}
use qoderwork2api.Common.Eq.{Text}
use qoderwork2api.Encoding.{swap_segments, slice}

slice_middle :
    (i j : ℕ) (x y z : Text)
    → i ≡ length x
    → j ≡ length x + length y
    → slice i j (x ++ (y ++ z)) ≡ y
unfolding slice
slice_middle i j x y z hi hj =
    let e : j - i ≡ length y = omega arith in rw (e, hi, drop_prefix x (y ++ z)) (take_prefix y z)

slice_first : (j : ℕ) (x y : Text) → j ≡ length x → slice 0 j (x ++ y) ≡ x
slice_first j x y h = slice_middle 0 j [] x y (omega arith) (omega arith)

slice_last :
    (i j : ℕ) (x y : Text) → i ≡ length x → j ≡ length x + length y → slice i j (x ++ y) ≡ y
slice_last i j x y hi hj =
    ap (λ t. slice i j (x ++ t)) (sym (append-nil y)) ∙ slice_middle i j x y [] hi hj

-- A text cut in three where the outer parts are of the length that the code computes.
swap_parts :
    (x y z : Text)
    → length x ≡ length (x ++ (y ++ z)) / 3
    → length z ≡ length x
    → swap_segments (x ++ (y ++ z)) ≡ z ++ (y ++ x)
unfolding swap_segments
swap_parts x y z hx hz =
    let n : length (x ++ (y ++ z)) ≡ length x + (length y + length z) =
      omega (arith, length-append x (y ++ z), length-append y z) in
    let last : slice (length (x ++ (y ++ z)) - length (x ++ (y ++ z)) / 3) (length (x ++ (y ++ z)))
          (x ++ (y ++ z))
        ≡ z =
      ap (slice (length (x ++ (y ++ z)) - length (x ++ (y ++ z)) / 3) (length (x ++ (y ++ z))))
        (sym (append_assoc x y z))
      ∙ slice_last _ _ (x ++ y) z (omega (arith, length-append x y))
          (omega (arith, length-append x y)) in
    let middle =
      slice_middle (length (x ++ (y ++ z)) / 3)
        (length (x ++ (y ++ z)) - length (x ++ (y ++ z)) / 3) x y z (omega arith) (omega arith) in
    let first = slice_first (length (x ++ (y ++ z)) / 3) x (y ++ z) (omega arith) in
    rw (last, middle, first) refl

length-slice : (i j : ℕ) (s : Text) → i ≤ j → j ≤ length s → length (slice i j s) ≡ j - i
unfolding slice
length-slice i j s h k = omega (arith, length-take (j - i) (drop i s), length-drop i s)

-- A text is its three segments.
cut :
    (i j : ℕ) (s : Text)
    → i ≤ j
    → j ≤ length s
    → s ≡ slice 0 i s ++ (slice i j s ++ slice j (length s) s)
unfolding slice
cut i j s h k =
    let rest : take (length s - j) (drop j s) ≡ drop (j - i) (drop i s) =
      take_all _ (drop j s) (omega (arith, length-drop j s))
      ∙ sym (drop-drop (j - i) i s ∙ ap (λ (m : ℕ). drop m s) (omega arith)) in
    let start : i - 0 ≡ i = omega arith in
    rw (rest, take-append-drop (j - i) (drop i s), start) (sym (take-append-drop i s))

-- The segments of a text have the lengths that let the exchange be undone.
swap_cut :
    (a n : ℕ) (s : Text)
    → a ≡ length s / 3
    → n ≡ length s
    → swap_segments (slice (n - a) n s ++ (slice a (n - a) s ++ slice 0 a s)) ≡ s
swap_cut a n s ha hn =
    let lx = length-slice 0 a s (omega arith) (omega arith) in
    let ly = length-slice a (n - a) s (omega arith) (omega arith) in
    let lz = length-slice (n - a) n s (omega arith) (omega arith) in
    let whole = length-append (slice (n - a) n s) (slice a (n - a) s ++ slice 0 a s) in
    let tail = length-append (slice a (n - a) s) (slice 0 a s) in
    swap_parts (slice (n - a) n s) (slice a (n - a) s) (slice 0 a s) (omega arith) (omega arith)
    ∙ sym (rw hn (cut a (length s - a) s (omega arith) (omega arith)))

swap_lem :
    (s : Text)
    → let a = length s / 3 in
      let n = length s in swap_segments s ≡ slice (n - a) n s ++ (slice a (n - a) s ++ slice 0 a s)
unfolding swap_segments
swap_lem s = refl

-- The exchange undoes itself.
pub swap-swap : (s : Text) → swap_segments (swap_segments s) ≡ s
swap-swap s = ap swap_segments (swap_lem s) ∙ swap_cut (length s / 3) (length s) s refl refl

pub length-swap : (s : Text) → length (swap_segments s) ≡ length s
unfolding swap_segments
length-swap s =
    let a = length s / 3 in
    let n = length s in
    omega (
      arith,
      length-append (slice (n - a) n s) (slice a (n - a) s ++ slice 0 a s),
      length-append (slice a (n - a) s) (slice 0 a s),
      length-slice 0 a s (omega arith) (omega arith),
      length-slice a (n - a) s (omega arith) (omega arith),
      length-slice (n - a) n s (omega arith) (omega arith),
    )

All-take : (P : ℕ → Type 0) (n : ℕ) (s : Text) → All P s → All P (take n s)
All-take P zero s h = tt
All-take P (suc n) [] h = tt
All-take P (suc n) (c ∷ s) h = (h.0, All-take P n s h.1)

All-drop : (P : ℕ → Type 0) (n : ℕ) (s : Text) → All P s → All P (drop n s)
All-drop P zero s h = h
All-drop P (suc n) [] h = tt
All-drop P (suc n) (c ∷ s) h = All-drop P n s h.1

All-slice : (P : ℕ → Type 0) (i j : ℕ) (s : Text) → All P s → All P (slice i j s)
unfolding slice
All-slice P i j s h = All-take P (j - i) (drop i s) (All-drop P i s h)

pub All-swap : (P : ℕ → Type 0) (s : Text) → All P s → All P (swap_segments s)
unfolding swap_segments
All-swap P s h =
    let n = length s in
    let a = n / 3 in
    All-append P (slice (n - a) n s) (slice a (n - a) s ++ slice 0 a s) (All-slice P (n - a) n s h)
      (All-append P (slice a (n - a) s) (slice 0 a s) (All-slice P a (n - a) s h)
        (All-slice P 0 a s h))
