-- ===== src/User/Password.antt =====
-- `hashPassword` and `verifyPassword`: a salted SHA-256, kept as salt, colon and digest.
use qoderwork2api.Common.{
  ℕ, ◌≡◌, ◌≢◌, refl, Bool, true, false, [], ◌∷◌, ◌++◌, Option, none, some, arith, if◌then◌else◌,
  nat_eq, All, take, zero, suc, ◌/◌, ◌%◌,
}
use qoderwork2api.Common.Eq.{Text, text_instance, ◌==◌}
use qoderwork2api.Common.Strings.{hex, hex_digit}

abbrev pub colon : ℕ
colon = b':'

abbrev push_front : ℕ → Option (Text × Text) → Option (Text × Text)
push_front c none = none
push_front c (some (a, b)) = some (c ∷ a, b)

-- `strings.SplitN(s, ":", 2)`: `none` if there is only one part.
split_colon : Text → Option (Text × Text)
split_colon [] = none
split_colon (c ∷ s) =
    let rest = split_colon s in if nat_eq c colon then some ([], s) else push_front c rest

abbrev pub NoColon : Text → Type 0
NoColon s = All (λ c. c ≢ colon) s

module _ (sha : Text → Text) where
  pub hash_password : Text → Text → Text
  hash_password salt password = salt ++ colon ∷ hex (sha (salt ++ password))

  abbrev check_parts : Text → Option (Text × Text) → Bool
  check_parts password none = false
  check_parts password (some (salt, expected)) = expected == hex (sha (salt ++ password))

  unfoldable pub verify_password : Text → Text → Bool
  unfolding split_colon
  verify_password hash password = check_parts password (split_colon hash)

  split_colon_lem :
      (salt rest : Text) → NoColon salt → split_colon (salt ++ colon ∷ rest) ≡ some (salt, rest)
  unfolding split_colon
  split_colon_lem [] rest h = refl
  split_colon_lem (c ∷ salt) rest h = ground (arith, split_colon_lem salt rest h.1)

  -- A password is accepted against the hash of another exactly if the salted digests agree, so
  -- above all against its own hash.
  pub verify-hash :
      (salt p q : Text)
      → NoColon salt
      → (verify_password (hash_password salt p) q
          ≡ (hex (sha (salt ++ p)) == hex (sha (salt ++ q))))
        × (verify_password (hash_password salt p) p ≡ true)
  unfolding verify_password hash_password
  verify-hash salt p q h =
      let parts = split_colon_lem salt (hex (sha (salt ++ p))) h in
      (rw parts refl, rw parts ((text_instance.agrees_iff _ _).1 refl))

hex_digit-ne-colon : (n : ℕ) → hex_digit n ≢ colon
unfolding hex_digit
hex_digit-ne-colon n h = ground arith

hex-NoColon : (s : Text) → NoColon (hex s)
unfolding hex
hex-NoColon [] = tt
hex-NoColon (x ∷ xs) = (hex_digit-ne-colon (x / 16), (hex_digit-ne-colon (x % 16), hex-NoColon xs))

take-NoColon : (n : ℕ) (s : Text) → NoColon s → NoColon (take n s)
take-NoColon zero s h = tt
take-NoColon (suc n) [] h = tt
take-NoColon (suc n) (c ∷ s) h = (h.0, take-NoColon n s h.1)

-- A salt is hexadecimal, so it ends before the first colon.
pub salt-NoColon : (n : ℕ) (bytes : Text) → NoColon (take n (hex bytes))
salt-NoColon n bytes = take-NoColon n (hex bytes) (hex-NoColon bytes)
