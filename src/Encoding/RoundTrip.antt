-- ===== src/Encoding/RoundTrip.antt =====
-- The two directions of the encoding.
use qoderwork2api.Common.{
  ℕ, ◌+◌, ◌*◌, ◌/◌, ◌≡◌, refl, ap, ◌∙◌, Bool, true, false, [], ◌∷◌, none, some, arith, length, All,
  if◌then◌else◌, nat_eq, map, all_hold, all_hold_at, length-map, ◌⊎◌, inl, inr, In, ◌||◌, contains,
  contains-In, All-map, Bool-cases, nat_eq_iff,
}
use qoderwork2api.Common.Eq.{Text}
use qoderwork2api.Encoding.Base64.{
  IsByte, encode64, decode64, decode64-encode64, std_char, pad, IsStd, encode64-IsStd,
  length-encode64,
}
use qoderwork2api.Encoding.Segments.{swap-swap, length-swap, All-swap}
use qoderwork2api.Encoding.{
  map_char, custom_to_std, std_to_custom, unmap_chars, unset, qoder_encode, qoder_decode,
  swap_segments, slice, encode_std, custom_pad, custom_alphabet,
}

-- A character of a base64 text is mapped to one that is mapped back.
abbrev maps_back : ℕ → Bool
maps_back c = if nat_eq (custom_to_std (map_char c)) c then not_unset else false
  where
    not_unset : Bool
    not_unset = if nat_eq c unset then false else true

alphabet_table : all_hold 64 (λ i. maps_back (std_char i)) ≡ true
unfolding all_hold std_char custom_to_std map_char std_to_custom
alphabet_table = refl

pad-maps_back : maps_back pad ≡ true
unfolding custom_to_std map_char std_to_custom
pad-maps_back = refl

IsStd-maps_back : (c : ℕ) → IsStd c → maps_back c ≡ true
IsStd-maps_back c (inl e) = rw e pad-maps_back
IsStd-maps_back c (inr (i, h, e)) = rw e (all_hold_at 64 _ i alphabet_table h)

unmap-map : (s : Text) → All IsStd s → unmap_chars (map map_char s) ≡ some s
unfolding unmap_chars
unmap-map [] h = refl
unmap-map (c ∷ s) h = ground (arith, IsStd-maps_back c h.0, unmap-map s h.1)

qoder_decode_lem :
    (t : Text)
    → qoder_decode t
      ≡ (elim (unmap_chars t) [ none ↦ none | some mapped ↦ decode64 (swap_segments mapped) ])
unfolding qoder_decode unmap_chars swap_segments slice decode64
qoder_decode_lem [] = refl
qoder_decode_lem (c ∷ t) = refl

qoder_decode-encode_std : (s : Text) → All IsStd s → qoder_decode (encode_std s) ≡ decode64 s
unfolding encode_std
qoder_decode-encode_std [] h = unfold qoder_decode decode64 in refl
qoder_decode-encode_std (c ∷ s) h =
    rw (qoder_decode_lem, unmap-map _ (All-swap IsStd (c ∷ s) h)) (ap decode64 (swap-swap (c ∷ s)))

-- Whatever bytes are encoded, decoding the result gives them back.
pub qoder_decode-qoder_encode :
    (plain : Text) → All IsByte plain → qoder_decode (qoder_encode plain) ≡ some plain
unfolding qoder_encode
qoder_decode-qoder_encode plain h =
    qoder_decode-encode_std (encode64 plain) (encode64-IsStd plain h) ∙ decode64-encode64 plain h

-- The alphabet of the encoding.
abbrev pub IsCustom : ℕ → Type 0
IsCustom c = (c ≡ custom_pad) ⊎ In c custom_alphabet

abbrev is_custom : ℕ → Bool
is_custom c = nat_eq c custom_pad || contains c custom_alphabet

custom_table : all_hold 64 (λ i. is_custom (map_char (std_char i))) ≡ true
unfolding all_hold std_char map_char std_to_custom contains
custom_table = refl

pad_is_custom : map_char pad ≡ custom_pad
unfolding map_char
pad_is_custom = refl

map_char-IsCustom : (c : ℕ) → IsStd c → IsCustom (map_char c)
map_char-IsCustom c (inl e) = inl (rw e pad_is_custom)
map_char-IsCustom c (inr (i, h, e)) =
    let t = all_hold_at 64 (λ i. is_custom (map_char (std_char i))) i custom_table h in
    rw e (elim (Bool-cases (nat_eq (map_char (std_char i)) custom_pad)) [
      | inl y ↦ inl ((nat_eq_iff _ _).0 y)
      | inr n ↦ inr (contains-In (map_char (std_char i)) custom_alphabet (ground arith))
    ])

encode_std_shape :
    (s : Text) → All IsStd s → All IsCustom (encode_std s) × (length (encode_std s) ≡ length s)
unfolding encode_std
encode_std_shape [] h = (tt, refl)
encode_std_shape (c ∷ s) h = (
  All-map IsStd IsCustom map_char map_char-IsCustom _ (All-swap IsStd (c ∷ s) h),
  length-map map_char (swap_segments (c ∷ s)) ∙ length-swap (c ∷ s),
)

-- An encoding of bytes has four characters for each three bytes begun, all of the custom alphabet
-- or its padding.
pub qoder_encode_shape :
    (plain : Text)
    → All IsByte plain
    → All IsCustom (qoder_encode plain) × (length (qoder_encode plain) ≡ (length plain + 2) / 3 * 4)
unfolding qoder_encode
qoder_encode_shape plain h =
    let (letters, size) = encode_std_shape (encode64 plain) (encode64-IsStd plain h) in
    (letters, size ∙ length-encode64 plain)
