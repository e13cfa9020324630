-- ===== src/Encoding/Base64.antt =====
-- Go's base64.StdEncoding on bytes: `EncodeToString`, and `DecodeString` on a text with no line
-- breaks (the caller's texts have none), where `none` is an error.
use qoderwork2api.Common.{
  ℕ, zero, suc, ◌+◌, ◌*◌, ◌/◌, ◌%◌, ◌<◌, ◌≡◌, ◌≢◌, refl, Bool, true, false, [], ◌∷◌, ◌++◌, Option,
  none, some, arith, length, ◌⊎◌, inl, inr, if◌then◌else◌, nat_eq, All, all_hold, all_hold_at,
}
use qoderwork2api.Common.Eq.{Text, codes, is_empty}

abbrev pub std_alphabet : Text
std_alphabet = codes "ABCDEFGHIJKLMNOPQRSTUVWXYZabcdefghijklmnopqrstuvwxyz0123456789+/"

abbrev pub pad : ℕ
pad = b'='

char_from : Text → ℕ → ℕ
char_from [] i = 0
char_from (c ∷ s) zero = c
char_from (c ∷ s) (suc i) = char_from s i

index_from : Text → ℕ → ℕ → Option ℕ
index_from [] i c = none
index_from (d ∷ s) i c = if nat_eq d c then some i else index_from s (i + 1) c

-- The character of a value below 64, and the value of a character.
unfoldable pub std_char : ℕ → ℕ
unfolding char_from
std_char i = char_from std_alphabet i

pub std_index : ℕ → Option ℕ
unfolding index_from
std_index c = index_from std_alphabet 0 c

unfoldable pub encode64 : Text → Text
encode64 [] = []
encode64 (a ∷ []) = std_char (a / 4) ∷ std_char (a % 4 * 16) ∷ pad ∷ pad ∷ []
encode64 (a ∷ b ∷ []) =
    std_char (a / 4) ∷ std_char (a % 4 * 16 + b / 16) ∷ std_char (b % 16 * 4) ∷ pad ∷ []
encode64 (a ∷ b ∷ c ∷ rest) =
    std_char (a / 4)
    ∷ std_char (a % 4 * 16 + b / 16)
    ∷ std_char (b % 16 * 4 + c / 64)
    ∷ std_char (c % 64)
    ∷ encode64 rest

infixl 5 ◌>>=◌
abbrev pub ◌>>=◌ : {A B : Type 0} → Option A → (A → Option B) → Option B
none >>= f = none
some a >>= f = f a

-- The last four characters where they end in padding.
pub decode_tail : ℕ → ℕ → ℕ → Option Text
decode_tail a b c = do
  i ← std_index a
  j ← std_index b
  if nat_eq c pad
      then some ((i * 4 + j / 16) ∷ [])
      else (do k ← std_index c; some ((i * 4 + j / 16) ∷ (j % 16 * 16 + k / 4) ∷ []))

pub decode_four : ℕ → ℕ → ℕ → ℕ → Option Text
decode_four a b c d = do
  i ← std_index a
  j ← std_index b
  k ← std_index c
  l ← std_index d
  some ((i * 4 + j / 16) ∷ (j % 16 * 16 + k / 4) ∷ (k % 4 * 64 + l) ∷ [])

unfoldable pub decode64 : Text → Option Text
decode64 [] = some []
decode64 (a ∷ []) = none
decode64 (a ∷ b ∷ []) = none
decode64 (a ∷ b ∷ c ∷ []) = none
decode64 (a ∷ b ∷ c ∷ d ∷ rest) =
    let more = decode64 rest in
    if nat_eq d pad
    then (if is_empty rest then decode_tail a b c else none)
    else (do bytes ← decode_four a b c d; bs ← more; some (bytes ++ bs))

abbrev is_index : ℕ → Option ℕ → Bool
is_index i none = false
is_index i (some j) = nat_eq j i

index_table : all_hold 64 (λ i. is_index i (std_index (std_char i))) ≡ true
unfolding all_hold std_char std_index
index_table = refl

std_index-std_char : (i : ℕ) → i < 64 → std_index (std_char i) ≡ some i
std_index-std_char i h = ground (arith, all_hold_at 64 _ i index_table h)

abbrev pub IsByte : ℕ → Type 0
IsByte c = c < 256

-- No character of a value is the padding, which ends a text.
char_from-ne-pad : (s : Text) (i : ℕ) → All (λ c. c ≢ pad) s → nat_eq (char_from s i) pad ≡ false
unfolding char_from
char_from-ne-pad [] i h = refl
char_from-ne-pad (c ∷ s) zero h = ground arith
char_from-ne-pad (c ∷ s) (suc i) h = char_from-ne-pad s i h.1

pub std_char-ne-pad : (i : ℕ) → nat_eq (std_char i) pad ≡ false
unfolding std_char
std_char-ne-pad i = char_from-ne-pad std_alphabet i (omega arith)

decode_tail_one :
    (a : ℕ) → a < 256 → decode_tail (std_char (a / 4)) (std_char (a % 4 * 16)) pad ≡ some (a ∷ [])
unfolding decode_tail
decode_tail_one a h =
    rw (std_index-std_char (a / 4) (omega arith), std_index-std_char (a % 4 * 16) (omega arith))
      (ground arith)

decode_tail_two :
    (a b : ℕ)
    → a < 256
    → b < 256
    → decode_tail (std_char (a / 4)) (std_char (a % 4 * 16 + b / 16)) (std_char (b % 16 * 4))
      ≡ some (a ∷ b ∷ [])
unfolding decode_tail
decode_tail_two a b ha hb =
    rw
      (
        std_index-std_char (a / 4) (omega arith),
        std_index-std_char (a % 4 * 16 + b / 16) (omega arith),
        std_char-ne-pad (b % 16 * 4),
        std_index-std_char (b % 16 * 4) (omega arith),
      )
      (ground arith)

decode_four_lem :
    (a b c : ℕ)
    → a < 256
    → b < 256
    → c < 256
    → decode_four
        (std_char (a / 4))
        (std_char (a % 4 * 16 + b / 16))
        (std_char (b % 16 * 4 + c / 64))
        (std_char (c % 64))
      ≡ some (a ∷ b ∷ c ∷ [])
unfolding decode_four
decode_four_lem a b c ha hb hc =
    rw
      (
        std_index-std_char (a / 4) (omega arith),
        std_index-std_char (a % 4 * 16 + b / 16) (omega arith),
        std_index-std_char (b % 16 * 4 + c / 64) (omega arith),
        std_index-std_char (c % 64) (omega arith),
      )
      (ground arith)

-- Decoding an encoding gives the bytes back.
pub decode64-encode64 : (bs : Text) → All IsByte bs → decode64 (encode64 bs) ≡ some bs
unfolding decode64 encode64
decode64-encode64 [] h = refl
decode64-encode64 (a ∷ []) h = decode_tail_one a h.0
decode64-encode64 (a ∷ b ∷ []) h = decode_tail_two a b h.0 (h.1).0
decode64-encode64 (a ∷ b ∷ c ∷ rest) h =
    rw
      (
        std_char-ne-pad (c % 64),
        decode_four_lem a b c h.0 (h.1).0 ((h.1).1).0,
        decode64-encode64 rest ((h.1).1).1,
      )
      refl

-- A character of an encoding: the padding, or the character of a value below 64.
abbrev pub IsStd : ℕ → Type 0
IsStd c = (c ≡ pad) ⊎ ((i : ℕ) × (i < 64) × (c ≡ std_char i))

std : (i : ℕ) → i < 64 → IsStd (std_char i)
std i h = inr (i, h, refl)

pub encode64-IsStd : (bs : Text) → All IsByte bs → All IsStd (encode64 bs)
unfolding encode64
encode64-IsStd [] h = tt
encode64-IsStd (a ∷ []) h =
    (std (a / 4) (omega arith), (std (a % 4 * 16) (omega arith), (inl refl, (inl refl, tt))))
encode64-IsStd (a ∷ b ∷ []) h = (
  std (a / 4) (omega arith),
  (std (a % 4 * 16 + b / 16) (omega arith), (std (b % 16 * 4) (omega arith), (inl refl, tt))),
)
encode64-IsStd (a ∷ b ∷ c ∷ rest) h = (
  std (a / 4) (omega arith),
  (
    std (a % 4 * 16 + b / 16) (omega arith),
    (
      std (b % 16 * 4 + c / 64) (omega arith),
      (std (c % 64) (omega arith), encode64-IsStd rest ((h.1).1).1),
    ),
  ),
)

-- Four characters for each three bytes, the last three filled up.
pub length-encode64 : (bs : Text) → length (encode64 bs) ≡ (length bs + 2) / 3 * 4
unfolding encode64
length-encode64 [] = refl
length-encode64 (a ∷ []) = refl
length-encode64 (a ∷ b ∷ []) = refl
length-encode64 (a ∷ b ∷ c ∷ rest) = omega (arith, length-encode64 rest)
