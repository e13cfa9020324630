-- ===== src/Upstream/Cosy/Info.antt =====
-- What the gateway can read in a session.
use qoderwork2api.Common.{
  ℕ, zero, suc, ◌+◌, ◌*◌, ◌-◌, ◌%◌, ◌<◌, ◌≡◌, ◌≢◌, refl, ap, ◌∙◌, inl, inr, ◌||◌, [], ◌∷◌, ◌++◌,
  Option, none, some, arith, Bool-cases, length, replicate, take, take_prefix, length-append,
  length-replicate, length-take, All, subst,
}
use qoderwork2api.Common.Eq.{Text, is_empty}
use qoderwork2api.Common.Strings.{hex}
use qoderwork2api.Cred.{Cred}
use qoderwork2api.Upstream.Cosy.Written.{told, told_lem}
use qoderwork2api.Encoding.Base64.{encode64, decode64, IsByte, decode64-encode64}
use qoderwork2api.Upstream.Cosy.{
  CosySession, block_size, padded, hex_short, json_sorted_compact, identity, aes_cbc_encrypt,
  SessionError, no_fingerprint, opened, refused, with_info, with_wrapped, new_cosy_session,
}

last_byte : Text → ℕ
last_byte [] = 0
last_byte (c ∷ []) = c
last_byte (c ∷ d ∷ s) = last_byte (d ∷ s)

-- The reading of the padding PKCS #7: the last byte says how many bytes to drop.
pub unpad : Text → Text
unfolding last_byte
unpad s = take (length s - last_byte s) s

last_byte-replicate : (n b : ℕ) → last_byte (replicate (suc n) b) ≡ b
unfolding last_byte
last_byte-replicate zero b = refl
last_byte-replicate (suc n) b = last_byte-replicate n b

last_byte-append : (s : Text) (n b : ℕ) → last_byte (s ++ replicate (suc n) b) ≡ b
unfolding last_byte
last_byte-append [] n b = last_byte-replicate n b
last_byte-append (c ∷ []) n b = last_byte-replicate n b
last_byte-append (c ∷ d ∷ s) n b = last_byte-append (d ∷ s) n b

-- A text with `n + 1` bytes of padding.
unpad-append : (s : Text) (n : ℕ) → unpad (s ++ replicate (suc n) (suc n)) ≡ s
unfolding unpad
unpad-append s n =
    let drop : length (s ++ replicate (suc n) (suc n)) - last_byte (s ++ replicate (suc n) (suc n))
        ≡ length s =
      omega (
        arith,
        last_byte-append s n (suc n),
        length-append s (replicate (suc n) (suc n)),
        length-replicate (suc n) (suc n),
      ) in
    rw drop (take_prefix s (replicate (suc n) (suc n)))

-- The padding of a text: at least one byte, at most a block, up to a whole number of blocks.
padded_form :
    (s : Text)
    → (n : ℕ) × (n < 16)
      × (padded s ≡ s ++ replicate (suc n) (suc n))
      × ((length s + suc n) % 16 ≡ 0)
unfolding padded
padded_form s =
    let n = 15 - length s % 16 in
    let whole : block_size - length s % block_size ≡ suc n = omega arith in
    let small : suc n % 256 ≡ suc n = omega arith in
    (
      n,
      omega arith,
      ap (λ (k : ℕ). s ++ replicate k (k % 256)) whole
          ∙ ap (λ (b : ℕ). s ++ replicate (suc n) b) small,
      omega arith,
    )

length-hex : (s : Text) → length (hex s) ≡ length s * 2
unfolding hex
length-hex [] = omega arith
length-hex (c ∷ s) = omega (arith, length-hex s)

length-hex_short : (bytes : Text) → length bytes ≡ 8 → length (hex_short 16 bytes) ≡ 16
unfolding hex_short
length-hex_short bytes h = omega (arith, h, length-hex bytes, length-take 16 (hex bytes))

refused_not : (e : SessionError) (s : CosySession) → refused e ≢ opened s
refused_not e s h = cc h

module _ (marshal : Text → Text) (wrap : Text → Option Text)
    (cbc uncbc : Text → Text → Option Text) where
  -- What `uncbc` and `decode64` make of the field `info` is what a session tells of the account, with
  -- its uid, its name and both tokens, padded to whole blocks,
  -- and the key of the session has the length that AES-128 asks for.
  pub record IsReadable (c : Cred) (dt drt : Text) (s : CosySession) : Type 0 where
    pub key : length s.temp_key ≡ 16
    pub wrapped : (w : Text) × (wrap s.temp_key ≡ some w) × (s.cosy_key ≡ encode64 w)
    pub info :
        (cipher : Text) × (plain : Text) × (decode64 s.info ≡ some cipher)
        × (uncbc s.temp_key cipher ≡ some plain)
        × (length plain % 16 ≡ 0)
        × (unpad plain ≡ told marshal c dt drt)
    pub machine :
        (s.machine_id ≡ c.machine_id)
        × (s.machine_token ≡ c.machine_token)
        × (s.machine_type ≡ c.machine_type)

  -- The cipher of the padded text, read back.
  read_back :
      (key plain cipher : Text)
      → ((k x y : Text) → cbc k x ≡ some y → uncbc k y ≡ some x)
      → ((k x y : Text) → cbc k x ≡ some y → All IsByte y)
      → cbc key (padded plain) ≡ some cipher
      → (decode64 (encode64 cipher) ≡ some cipher)
        × (uncbc key cipher ≡ some (padded plain))
        × (length (padded plain) % 16 ≡ 0)
        × (unpad (padded plain) ≡ plain)
  read_back key plain cipher inverts bytes h =
      let (n, small, form, blocks) = padded_form plain in
      (
        decode64-encode64 cipher (bytes key (padded plain) cipher h),
        inverts key (padded plain) cipher h,
        ap (λ (x : Text). length x % 16) form
            ∙ omega (
              arith,
              blocks,
              length-append plain (replicate (suc n) (suc n)),
              length-replicate (suc n) (suc n),
            ),
        ap unpad form ∙ unpad-append plain n,
      )

  with_info-IsReadable :
      (c : Cred) (dt drt key w : Text) (o : Option Text) (s : CosySession)
      → ((k x y : Text) → cbc k x ≡ some y → uncbc k y ≡ some x)
      → ((k x y : Text) → cbc k x ≡ some y → All IsByte y)
      → length key ≡ 16
      → wrap key ≡ some w
      → aes_cbc_encrypt marshal wrap cbc
          (json_sorted_compact marshal (identity marshal c dt drt))
          key
        ≡ o
      → with_info marshal wrap cbc c key w o ≡ opened s
      → IsReadable c dt drt s
  unfolding aes_cbc_encrypt
  with_info-IsReadable c dt drt key w none s inverts bytes long wraps is h = absurd (cc h)
  with_info-IsReadable c dt drt key w (some cipher) s inverts bytes long wraps is h =
      let plain = json_sorted_compact marshal (identity marshal c dt drt) in
      let (decodes, deciphers, blocks, reads) = read_back key plain cipher inverts bytes is in
      let session : CosySession = record {
        machine_id = c.machine_id;
        machine_token = c.machine_token;
        machine_type = c.machine_type;
        temp_key = key;
        cosy_key = encode64 w;
        info = encode64 cipher;
      } in
      let same : session ≡ s = cc h in
      subst (IsReadable c dt drt) same (record {
        key = long;
        wrapped = (w, wraps, refl);
        info =
            (cipher, padded plain, decodes, deciphers, blocks, reads ∙ told_lem marshal c dt drt);
        machine = (refl, refl, refl);
      })

  with_wrapped-IsReadable :
      (c : Cred) (dt drt key : Text) (o : Option Text) (s : CosySession)
      → ((k x y : Text) → cbc k x ≡ some y → uncbc k y ≡ some x)
      → ((k x y : Text) → cbc k x ≡ some y → All IsByte y)
      → length key ≡ 16
      → wrap key ≡ o
      → with_wrapped marshal wrap cbc c dt drt key o ≡ opened s
      → IsReadable c dt drt s
  with_wrapped-IsReadable c dt drt key none s inverts bytes long is h = absurd (cc h)
  with_wrapped-IsReadable c dt drt key (some w) s inverts bytes long is h =
      with_info-IsReadable c dt drt key w _ s inverts bytes long is refl h

  -- If the cipher can be undone and gives bytes, then the gateway, which has the key of a session,
  -- reads in it an object with the uid of the account, its name and both tokens; the text that was enciphered is a
  -- whole number of blocks, and its padding is taken off without loss.
  pub new_cosy_session-IsReadable :
      (bytes : Text) (c : Cred) (dt drt : Text) (s : CosySession)
      → ((k x y : Text) → cbc k x ≡ some y → uncbc k y ≡ some x)
      → ((k x y : Text) → cbc k x ≡ some y → All IsByte y)
      → length bytes ≡ 8
      → new_cosy_session marshal wrap cbc bytes c dt drt ≡ opened s
      → IsReadable c dt drt s
  unfolding new_cosy_session
  new_cosy_session-IsReadable bytes c dt drt s inverts gives_bytes long h =
      elim (Bool-cases
        (is_empty c.machine_id || (is_empty c.machine_token || is_empty c.machine_type))) [
          | inl e ↦ absurd (refused_not no_fingerprint s (ground (arith, h, e)))
          | inr e ↦
              with_wrapped-IsReadable c dt drt (hex_short 16 bytes) _ s inverts gives_bytes
                (length-hex_short bytes long) refl (ground (arith, h, e))
        ]
