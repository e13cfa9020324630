-- ===== src/Encoding.antt =====
-- internal/upstream/encoding.go: base64 with another alphabet, and three segments that change
-- places. `Base64` is the part of Go's encoding/base64 that the file uses.
pub mod Base64
pub mod Segments
pub mod RoundTrip
mod Tests
use qoderwork2api.Common.{
  ℕ, zero, suc, ◌-◌, ◌/◌, ◌≡◌, Bool, List, [], ◌∷◌, ◌++◌, Option, none, some, length, take, drop,
  if◌then◌else◌, nat_eq, map,
}
use qoderwork2api.Common.Eq.{Text, codes, nat_instance}
use qoderwork2api.Common.Dict.{Dict, lookup, insert}
use Base64.{std_alphabet, pad, encode64, decode64}

abbrev pub custom_alphabet : Text
custom_alphabet = codes "_doRTgHZBKcGVjlvpC,@aFSx#DPuNJme&i*MzLOEn)sUrthbf%Y^w.(kIQyXqWA!"

abbrev pub custom_pad : ℕ
custom_pad = b'$'

-- The value of a table at a byte that the initialisation did not set.
abbrev pub unset : ℕ
unset = 0xff

abbrev pub or_unset : Option ℕ → ℕ
or_unset none = unset
or_unset (some c) = c

-- The loop of `init` for one table.
fill_table : Text → Text → Dict ℕ ℕ
fill_table [] ys = []
fill_table (x ∷ xs) [] = []
fill_table (x ∷ xs) (y ∷ ys) = insert x y (fill_table xs ys)

std_to_custom : ℕ → ℕ
unfolding fill_table lookup insert
std_to_custom c = or_unset (lookup c (fill_table std_alphabet custom_alphabet))

custom_to_std : ℕ → ℕ
unfolding fill_table lookup insert
custom_to_std c =
    or_unset (lookup c (insert custom_pad pad (fill_table custom_alphabet std_alphabet)))

-- `s[i:j]`
pub slice : ℕ → ℕ → Text → Text
slice i j s = take (j - i) (drop i s)

-- Both directions cut the text alike and write the segments in the opposite order.
pub swap_segments : Text → Text
swap_segments s =
    let n = length s in let a = n / 3 in slice (n - a) n s ++ (slice a (n - a) s ++ slice 0 a s)

-- The byte that the loop of `QoderEncode` writes.
map_char : ℕ → ℕ
map_char c = if nat_eq c pad then custom_pad else std_to_custom c

-- What `QoderEncode` makes of the base64 text; the empty one stays empty.
encode_std : Text → Text
encode_std [] = []
encode_std (c ∷ s) = map map_char (swap_segments (c ∷ s))

pub qoder_encode : Text → Text
qoder_encode plain = encode_std (encode64 plain)

-- The loop of `QoderDecode`; `none` is the error for a character outside of the alphabet.
unmap_chars : Text → Option Text
unmap_chars [] = some []
unmap_chars (c ∷ s) =
    let rest = unmap_chars s in
    if nat_eq (custom_to_std c) unset
    then none
    else elim rest [ none ↦ none | some t ↦ some (custom_to_std c ∷ t) ]

pub qoder_decode : Text → Option Text
qoder_decode [] = some []
qoder_decode (c ∷ s) = elim (unmap_chars (c ∷ s)) [
  | none ↦ none
  | some mapped ↦ decode64 (swap_segments mapped)
]
