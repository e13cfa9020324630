-- ===== src/Upstream/Cosy/Signature.antt =====
-- What the signature of a request covers.
use qoderwork2api.Common.{
  ℕ, ◌≡◌, refl, sym, ap, Bool, true, false, List, [], ◌∷◌, ◌++◌, Option, none, some,
}
use qoderwork2api.Common.Eq.{Text, codes, text_instance, text_eq}
use qoderwork2api.Common.Dict.{Dict, lookup, insert}
use qoderwork2api.Common.Strings.{decimal, hex, trim_prefix}
use qoderwork2api.Encoding.Base64.{encode64}
use qoderwork2api.Upstream.Cosy.Written.{offered, offered_lem}
use qoderwork2api.Upstream.Cosy.{CosySession, header_with, auth_header, set_all, apply_headers}

-- The value of a header.
abbrev pub HasHeader : Text → Text → Dict Text Text → Type 0
HasHeader name value h = lookup name h ≡ some value

-- Texts with an end of line between each two.
abbrev pub lines : List Text → Text
lines [] = []
lines (s ∷ []) = s
lines (s ∷ t ∷ rest) = s ++ (codes "\n" ++ lines (t ∷ rest))

module _ (marshal : Text → Text) (url_path : Text → Option Text) (md5 : Text → Text) where
  -- The headers as the gateway checks them: the signature in the header authorization is that of
  -- the payload beside it, the header cosy-key, a date, the body and the path.
  pub record IsSigned (s : CosySession) (body path uid request_id : Text) (now later : ℕ)
      (h : Dict Text Text) : Type 0 where
    pub key : HasHeader (codes "cosy-key") s.cosy_key h
    pub user : HasHeader (codes "cosy-user") uid h
    pub machine :
        HasHeader (codes "cosy-machineid") s.machine_id h
        × HasHeader (codes "cosy-machinetoken") s.machine_token h
        × HasHeader (codes "cosy-machinetype") s.machine_type h
    pub date : HasHeader (codes "cosy-date") (decimal later) h
    pub signed :
        let p = encode64 (offered marshal s.info request_id) in
        HasHeader
          (codes "authorization")
          (codes "Bearer COSY."
            ++ (p
                ++ (codes "."
                    ++ hex (
                        md5 (
                          lines (
                            p
                            ∷ s.cosy_key
                            ∷ decimal now
                            ∷ body
                            ∷ trim_prefix path (codes "/algo")
                            ∷ []))))))
          h

  set_all-IsSigned :
      (s : CosySession) (body path uid request_id model_key auth : Text) (sse : Bool)
      (now later : ℕ)
      → header_with marshal url_path md5 s body
          (encode64 (offered marshal s.info request_id))
          now
          (some path)
        ≡ some auth
      → IsSigned s body path uid request_id now later
          (set_all marshal url_path md5 s uid sse model_key later auth [])
  unfolding lookup insert text_eq
  set_all-IsSigned s body path uid request_id [] auth true now later h = record {
    key = refl;
    user = refl;
    machine = (refl, refl, refl);
    date = refl;
    signed = ap some (cc h);
  }
  set_all-IsSigned s body path uid request_id [] auth false now later h = record {
    key = refl;
    user = refl;
    machine = (refl, refl, refl);
    date = refl;
    signed = ap some (cc h);
  }
  set_all-IsSigned s body path uid request_id (c ∷ key) auth true now later h = record {
    key = refl;
    user = refl;
    machine = (refl, refl, refl);
    date = refl;
    signed = ap some (cc h);
  }
  set_all-IsSigned s body path uid request_id (c ∷ key) auth false now later h = record {
    key = refl;
    user = refl;
    machine = (refl, refl, refl);
    date = refl;
    signed = ap some (cc h);
  }

  -- A request whose address is parsed gets headers that name the account, its machine and the key,
  -- and a signature that the gateway can compute again: the MD5 sum of the payload beside it, the
  -- key, a date, the body as it is sent and the path without the prefix /algo, in five lines. The
  -- date that is signed is read from the clock before the one that is sent, so that the signature
  -- is that of the header cosy-date if both fall in the same second. A request whose address is not
  -- parsed gets none.
  pub apply_headers-IsSigned :
      (s : CosySession) (body raw_url uid model_key request_id : Text) (sse : Bool) (now later : ℕ)
      → ((path : Text)
          → url_path raw_url ≡ some path
          → (h : Dict Text Text) × (apply_headers marshal url_path md5 s body raw_url uid sse
                model_key request_id now later []
              ≡ some h)
            × IsSigned s body path uid request_id now later h)
        × (url_path raw_url ≡ none
            → apply_headers marshal url_path md5 s body raw_url uid sse model_key request_id now
                later []
              ≡ none)
  unfolding apply_headers auth_header
  apply_headers-IsSigned s body raw_url uid model_key request_id sse now later = (
    λ path parsed. (
      _,
      rw parsed refl,
      set_all-IsSigned s body path uid request_id model_key _ sse now later (
          ap (λ (t : Text). header_with marshal url_path md5 s body (encode64 t) now (some path))
            (sym (offered_lem marshal url_path md5 s request_id))),
    ),
    λ fails. rw fails refl,
  )
