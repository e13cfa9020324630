-- ===== src/Common/Strings.antt =====
-- The functions of Go's packages strings, strconv and encoding/hex that the program calls.
use qoderwork2api.Common.{
  ℕ, zero, suc, ◌+◌, ◌-◌, ◌/◌, ◌%◌, ◌≡◌, ◌↔◌, ◌∙◌, ap, inl, inr, refl, Bool, Bool-cases, true,
  false, ◌&&◌, ◌||◌, [], ◌∷◌, ◌++◌, arith, if◌then◌else◌, nat_eq, ltb, leb, length, drop, take,
  contains, drop_prefix,
}
use qoderwork2api.Common.Eq.{Text, text_eq}

unfoldable pub has_prefix : Text → Text → Bool
has_prefix s [] = true
has_prefix [] (p ∷ ps) = false
has_prefix (c ∷ s) (p ∷ ps) = nat_eq c p && has_prefix s ps

-- `TrimPrefix` gives a text without the prefix back as it is.
unfoldable pub trim_prefix : Text → Text → Text
unfolding has_prefix
trim_prefix s p = if has_prefix s p then drop (length p) s else s

unfoldable pub has_suffix : Text → Text → Bool
unfolding has_prefix
has_suffix s p = leb (length p) (length s) && text_eq (drop (length s - length p) s) p

unfoldable pub trim_suffix : Text → Text → Text
unfolding has_suffix
trim_suffix s p = if has_suffix s p then take (length s - length p) s else s

-- `strings.Contains`: some position has the text as a prefix.
unfoldable pub contains_text : Text → Text → Bool
unfolding has_prefix
contains_text [] p = has_prefix [] p
contains_text (c ∷ s) p = has_prefix (c ∷ s) p || contains_text s p

pub has_prefix-append : (p s : Text) → has_prefix (p ++ s) p ≡ true
unfolding has_prefix
has_prefix-append [] s = unfold has_prefix in refl
has_prefix-append (c ∷ p) s = ground (arith, has_prefix-append p s)

-- A text with the prefix begins with it.
has_prefix-eq : (s p : Text) → has_prefix s p ≡ true → (rest : Text) × (s ≡ p ++ rest)
unfolding has_prefix
has_prefix-eq s [] h = (s, refl)
has_prefix-eq [] (c ∷ p) h = cc
has_prefix-eq (d ∷ s) (c ∷ p) h =
    let (rest, e) = has_prefix-eq s p (ground (arith, h)) in (rest, ground (arith, h, e))

-- A text stands somewhere in another.
abbrev pub Occurs : Text → Text → Type 0
Occurs p s = (before : Text) × (after : Text) × (s ≡ before ++ (p ++ after))

contains_text-Occurs : (s p : Text) → contains_text s p ≡ true → Occurs p s
unfolding contains_text
contains_text-Occurs [] p h = let (rest, e) = has_prefix-eq [] p h in ([], rest, e)
contains_text-Occurs (c ∷ s) p h = elim (Bool-cases (has_prefix (c ∷ s) p)) [
  | inl e ↦ let (rest, begins) = has_prefix-eq (c ∷ s) p e in ([], rest, begins)
  | inr e ↦
      let (before, after, inside) = contains_text-Occurs s p (ground (arith, h, e)) in
      (c ∷ before, after, ap (λ (t : Text). c ∷ t) inside)
]

contains_text-prefix : (s p : Text) → has_prefix s p ≡ true → contains_text s p ≡ true
unfolding contains_text
contains_text-prefix [] p h = h
contains_text-prefix (c ∷ s) p h = ground (arith, h)

contains_text-append : (before p after : Text) → contains_text (before ++ (p ++ after)) p ≡ true
unfolding contains_text
contains_text-append [] p after = contains_text-prefix (p ++ after) p (has_prefix-append p after)
contains_text-append (c ∷ before) p after = ground (arith, contains_text-append before p after)

pub contains_text_iff : (s p : Text) → (contains_text s p ≡ true) ↔ Occurs p s
contains_text_iff s p = (
  contains_text-Occurs s p,
  λ o. ap (λ (t : Text). contains_text t p) o.2 ∙ contains_text-append o.0 p o.1,
)

pub trim_prefix-append : (p s : Text) → trim_prefix (p ++ s) p ≡ s
unfolding trim_prefix
trim_prefix-append p s = rw (has_prefix-append p s) (drop_prefix p s)

pub digits_from : ℕ → ℕ → Text → Text
digits_from zero n out = out
digits_from (suc fuel) n out =
    let more = digits_from fuel (n / 10) ((b'0' + n % 10) ∷ out) in
    if ltb n 10 then (b'0' + n) ∷ out else more

-- `%d`; a number has fewer digits than its value plus one.
unfoldable pub decimal : ℕ → Text
unfolding digits_from
decimal n = digits_from (n + 1) n []

unfoldable pub hex_digit : ℕ → ℕ
hex_digit n = if ltb n 10 then b'0' + n else b'a' + (n - 10)

-- `hex.EncodeToString`
unfoldable pub hex : Text → Text
unfolding hex_digit
hex [] = []
hex (x ∷ xs) = hex_digit (x / 16) ∷ hex_digit (x % 16) ∷ hex xs

-- unicode.White_Space, by which `TrimSpace` goes.
pub is_space : ℕ → Bool
unfolding contains
is_space c =
    (leb 9 c && leb c 13)
    || (leb 0x2000 c && leb c 0x200a)
    || contains c (0x20 ∷ 0x85 ∷ 0xa0 ∷ 0x1680 ∷ 0x2028 ∷ 0x2029 ∷ 0x202f ∷ 0x205f ∷ 0x3000 ∷ [])

unfoldable pub trim_left : (ℕ → Bool) → Text → Text
trim_left cut [] = []
trim_left cut (c ∷ s) = let rest = trim_left cut s in if cut c then rest else c ∷ s

-- Without the last characters that are cut.
unfoldable pub trim_right : (ℕ → Bool) → Text → Text
trim_right cut [] = []
trim_right cut (c ∷ s) =
    let rest = trim_right cut s in
    elim rest [ [] ↦ if cut c then [] else c ∷ [] | d ∷ r ↦ c ∷ d ∷ r ]

unfoldable pub trim_space : Text → Text
unfolding trim_left trim_right is_space
trim_space s = trim_right is_space (trim_left is_space s)
