-- ===== src/Cred/Fingerprint.antt =====
-- `EnsureMachineFingerprint`, `uuid4` and `hexShort`. What crypto/rand returns is an argument.
use Prim.Native.Nat.{bit_and, bit_or}
use qoderwork2api.Common.{
  ℕ, ◌≡◌, refl, ◌/◌, false, List, [], ◌∷◌, ◌++◌, arith, if◌then◌else◌, nat_eq, take,
}
use qoderwork2api.Common.Eq.{Text, is_empty}
use qoderwork2api.Common.Strings.{hex, hex_digit}
use qoderwork2api.Encoding.Base64.{encode64, pad, std_char-ne-pad}
use qoderwork2api.Cred.{Cred}

-- The array of sixteen bytes that was drawn, with the bits of version and variant set.
pub uuid_byte : (ℕ → ℕ) → ℕ → ℕ
uuid_byte b i =
    if nat_eq i 6
    then bit_or (bit_and (b 6) 0x0f) 0x40
    else if nat_eq i 8
    then bit_or (bit_and (b 8) 0x3f) 0x80
    else b i

-- The hexadecimal digits of `b[i:j]`.
abbrev bytes_at : (ℕ → ℕ) → List ℕ → Text
bytes_at b [] = []
bytes_at b (i ∷ is) = b i ∷ bytes_at b is

pub uuid4 : (ℕ → ℕ) → Text
unfolding uuid_byte hex
uuid4 drawn =
    let b = uuid_byte drawn in
    hex (bytes_at b (0 ∷ 1 ∷ 2 ∷ 3 ∷ []))
    ++ b'-'
      ∷ (hex (bytes_at b (4 ∷ 5 ∷ []))
          ++ b'-'
            ∷ (hex (bytes_at b (6 ∷ 7 ∷ []))
                ++ b'-'
                  ∷ (hex (bytes_at b (8 ∷ 9 ∷ []))
                      ++ b'-' ∷ hex (bytes_at b (10 ∷ 11 ∷ 12 ∷ 13 ∷ 14 ∷ 15 ∷ [])))))

-- base64.RawURLEncoding: the alphabet's last two letters differ, and nothing is filled up.
url_char : ℕ → ℕ
url_char c = if nat_eq c b'+' then b'-' else if nat_eq c b'/' then b'_' else c

without_pad : Text → Text
without_pad [] = []
without_pad (c ∷ t) = let rest = without_pad t in if nat_eq c pad then rest else url_char c ∷ rest

pub encode_raw_url : Text → Text
unfolding url_char without_pad
encode_raw_url s = without_pad (encode64 s)

drop_dashes : Text → Text
drop_dashes [] = []
drop_dashes (c ∷ s) = let rest = drop_dashes s in if nat_eq c b'-' then rest else c ∷ rest

-- The four draws of `uuid4`, in the order in which the function makes them.
pub record Draws : Type 0 where
  pub id : ℕ → ℕ
  pub seed_left : ℕ → ℕ
  pub seed_right : ℕ → ℕ
  pub kind : ℕ → ℕ

fresh_token : Draws → Text
fresh_token d = encode_raw_url (take 50 (uuid4 d.seed_left ++ uuid4 d.seed_right))

fresh_type : Draws → Text
fresh_type d = take 18 (drop_dashes (uuid4 d.kind))

unfoldable pub ensure_machine_fingerprint : Draws → Cred → Cred
unfolding fresh_token fresh_type drop_dashes
ensure_machine_fingerprint d c = record c {
  machine_id = if is_empty c.machine_id then uuid4 d.id else c.machine_id;
  machine_token = if is_empty c.machine_token then fresh_token d else c.machine_token;
  machine_type = if is_empty c.machine_type then fresh_type d else c.machine_type;
}

-- All three parts of the fingerprint are set.
pub HasFingerprint : Cred → Type 0
HasFingerprint c =
    (is_empty c.machine_id ≡ false)
    × (is_empty c.machine_token ≡ false)
    × (is_empty c.machine_type ≡ false)

pub ensure_machine_fingerprint-uid :
    (d : Draws) (c : Cred) → (ensure_machine_fingerprint d c).uid ≡ c.uid
unfolding ensure_machine_fingerprint
ensure_machine_fingerprint-uid d c = refl

uuid4-ne-nil : (b : ℕ → ℕ) → is_empty (uuid4 b) ≡ false
unfolding uuid4
uuid4-ne-nil b = refl

encode_raw_url-ne-nil : (s : Text) → is_empty s ≡ false → is_empty (encode_raw_url s) ≡ false
unfolding encode_raw_url without_pad encode64
encode_raw_url-ne-nil [] h = cc
encode_raw_url-ne-nil (a ∷ []) h = ground (arith, std_char-ne-pad (a / 4))
encode_raw_url-ne-nil (a ∷ b ∷ []) h = ground (arith, std_char-ne-pad (a / 4))
encode_raw_url-ne-nil (a ∷ b ∷ c ∷ s) h = ground (arith, std_char-ne-pad (a / 4))

fresh_token-ne-nil : (d : Draws) → is_empty (fresh_token d) ≡ false
unfolding fresh_token
fresh_token-ne-nil d = encode_raw_url-ne-nil _ (unfold uuid4 in refl)

hex_digit-ne-dash : (n : ℕ) → nat_eq (hex_digit n) b'-' ≡ false
unfolding hex_digit
hex_digit-ne-dash n = ground arith

fresh_type-ne-nil : (d : Draws) → is_empty (fresh_type d) ≡ false
unfolding fresh_type uuid4 drop_dashes
fresh_type-ne-nil d = rw (hex_digit-ne-dash _) refl

-- Afterwards the fingerprint is complete, each part that was there is kept, and a second call
-- changes nothing, whatever it draws: the machine of an account stays the same.
pub ensure_machine_fingerprint-HasFingerprint :
    (d e : Draws) (c : Cred)
    → let c' = ensure_machine_fingerprint d c in
      HasFingerprint c' × (HasFingerprint c → c' ≡ c) × (ensure_machine_fingerprint e c' ≡ c')
unfolding ensure_machine_fingerprint HasFingerprint
ensure_machine_fingerprint-HasFingerprint d e c =
    ground (arith, uuid4-ne-nil d.id, fresh_token-ne-nil d, fresh_type-ne-nil d)
