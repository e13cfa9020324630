-- ===== src/Upstream/Cosy/Tests.antt =====
-- The signing session at concrete values.
use qoderwork2api.Common.{
  ◌≡◌, refl, subst, inl, inr, Bool, true, ◌&&◌, [], ◌∷◌, ◌++◌, Option, none, some, arith,
  if◌then◌else◌, Bool-cases, ltb, All,
}
use qoderwork2api.Common.Eq.{Text, codes, text_eq}
use qoderwork2api.Common.Dict.{Dict, lookup}
use qoderwork2api.Common.Sort.{sort_texts}
use qoderwork2api.Cred.{Cred, blank}
use qoderwork2api.Encoding.Base64.{IsByte, encode64}
use qoderwork2api.Upstream.Cosy.{
  CosySession, opened, padded, hex_short, json_sorted_compact, entries, aes_cbc_encrypt,
  new_cosy_session, apply_headers, identity,
}
use qoderwork2api.Upstream.Cosy.Info.{IsReadable, new_cosy_session-IsReadable}
use qoderwork2api.Upstream.Cosy.Signature.{IsSigned, apply_headers-IsSigned}

abbrev quoted : Text → Text
quoted s = b'"' ∷ s ++ codes "\""

abbrev itself : Text → Option Text
itself s = some s

abbrev digest : Text → Text
digest s = s

-- Keys are put in order.
sorts_the_keys :
    json_sorted_compact quoted ((codes "b", codes "2") ∷ (codes "a", codes "1") ∷ [])
    ≡ codes "{\"a\":\"1\",\"b\":\"2\"}"
unfolding json_sorted_compact entries sort_texts lookup text_eq
sorts_the_keys = refl

all_bytes : Text → Bool
all_bytes [] = true
all_bytes (c ∷ s) = ltb c 256 && all_bytes s

-- A cipher for the tests, which takes bytes only.
abbrev cbc : Text → Text → Option Text
cbc key s = if all_bytes s then some s else none

abbrev uncbc : Text → Text → Option Text
uncbc key s = some s

all_bytes-IsByte : (s : Text) → all_bytes s ≡ true → All IsByte s
unfolding all_bytes
all_bytes-IsByte [] h = tt
all_bytes-IsByte (c ∷ s) h = (ground arith, all_bytes-IsByte s (ground arith))

cbc_inverts : (key x y : Text) → cbc key x ≡ some y → uncbc key y ≡ some x
cbc_inverts key x y h = elim (Bool-cases (all_bytes x)) [
  | inl e ↦ ground (arith, h, e)
  | inr e ↦ absurd (ground (arith, h, e))
]

cbc_bytes : (key x y : Text) → cbc key x ≡ some y → All IsByte y
cbc_bytes key x y h = elim (Bool-cases (all_bytes x)) [
  | inl e ↦
      let same : x ≡ y = ground (arith, h, e) in
      subst (λ (s : Text). All IsByte s) same (all_bytes-IsByte x e)
  | inr e ↦ absurd (ground (arith, h, e))
]

abbrev cred : Cred
cred = record blank {
  uid = codes "u";
  machine_id = codes "m";
  machine_token = codes "t";
  machine_type = codes "x";
}

abbrev drawn : Text
drawn = 1 ∷ 2 ∷ 3 ∷ 4 ∷ 5 ∷ 6 ∷ 7 ∷ 8 ∷ []

abbrev session : CosySession
session = record {
  machine_id = codes "m";
  machine_token = codes "t";
  machine_type = codes "x";
  temp_key = codes "0102030405060708";
  cosy_key = encode64 (codes "0102030405060708");
  info =
      encode64
        (padded (json_sorted_compact quoted (identity quoted cred (codes "dt") (codes "drt"))));
}

opens : new_cosy_session quoted itself cbc drawn cred (codes "dt") (codes "drt") ≡ opened session
unfolding new_cosy_session aes_cbc_encrypt padded hex_short json_sorted_compact entries sort_texts
    all_bytes lookup text_eq encode64
opens = refl

new_cosy_session-IsReadable_example :
    IsReadable quoted itself cbc uncbc cred (codes "dt") (codes "drt") session
new_cosy_session-IsReadable_example =
    new_cosy_session-IsReadable quoted itself cbc uncbc drawn cred (codes "dt") (codes "drt")
      session cbc_inverts cbc_bytes refl opens

apply_headers-IsSigned_example :
    ((path : Text)
      → itself (codes "/algo/x") ≡ some path
      → (h : Dict Text Text) × (apply_headers quoted itself digest session
            (codes "body")
            (codes "/algo/x")
            (codes "u")
            true
            (codes "qmodel")
            (codes "id")
            7
            8
            []
          ≡ some h)
        × IsSigned quoted itself digest session (codes "body") path (codes "u") (codes "id") 7 8 h)
    × (itself (codes "/algo/x") ≡ none
        → apply_headers quoted itself digest session
            (codes "body")
            (codes "/algo/x")
            (codes "u")
            true
            (codes "qmodel")
            (codes "id")
            7
            8
            []
          ≡ none)
apply_headers-IsSigned_example =
    apply_headers-IsSigned quoted itself digest session (codes "body") (codes "/algo/x") (codes "u")
      (codes "qmodel") (codes "id") true 7 8
