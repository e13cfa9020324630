-- ===== src/Upstream/Cosy.antt =====
-- internal/upstream/cosy.go: the session that signs the requests to the gateway. A text is the list
-- of its bytes.
pub mod Info
pub mod Signature
pub mod Written
mod Tests
use qoderwork2api.Common.{
  ℕ, ◌+◌, ◌-◌, ◌%◌, Bool, true, false, ◌||◌, List, [], ◌∷◌, ◌++◌, Option, none, some, if◌then◌else◌,
  length, replicate, take,
}
use qoderwork2api.Common.Eq.{Text, codes, text_instance, is_empty}
use qoderwork2api.Common.Dict.{Dict, lookup, insert}
use qoderwork2api.Common.Sort.{sort_texts}
use qoderwork2api.Common.Strings.{hex, decimal, trim_prefix}
use qoderwork2api.Cred.{Cred}
use qoderwork2api.Encoding.Base64.{encode64}

pub record CosySession : Type 0 where
  pub machine_id : Text
  pub machine_token : Text
  pub machine_type : Text
  pub temp_key : Text
  pub cosy_key : Text
  pub info : Text

abbrev pub newline : Text
newline = 10 ∷ []

abbrev keys : Dict Text Text → List Text
keys [] = []
keys ((k, v) ∷ m) = k ∷ keys m

abbrev text_of : Option Text → Text
text_of none = []
text_of (some s) = s

-- `hexShort`, where `bytes` are the bytes drawn.
pub hex_short : ℕ → Text → Text
unfolding hex
hex_short n bytes = take n (hex bytes)

-- aes.BlockSize
abbrev pub block_size : ℕ
block_size = 16

-- The padding of `aesCBCEncrypt`.
pub padded : Text → Text
padded plain =
    let pad_len = block_size - length plain % block_size in
    plain ++ replicate pad_len (pad_len % 256)

pub data SessionError : Type 0 where
  no_fingerprint no_wrap no_cipher : SessionError

pub data Opened : Type 0 where
  opened : CosySession → Opened
  refused : SessionError → Opened

-- `marshal` is json.Marshal of a string.
module _ (marshal : Text → Text) where
  pub entries : Bool → Dict Text Text → List Text → Text
  unfolding lookup
  entries first m [] = []
  entries first m (k ∷ ks) =
      (if first then [] else codes ",")
      ++ (marshal k ++ (codes ":" ++ (marshal (text_of (lookup k m)) ++ entries false m ks)))

  pub json_sorted_compact : Dict Text Text → Text
  unfolding entries sort_texts
  json_sorted_compact m = codes "{" ++ (entries true m (sort_texts (keys m)) ++ codes "}")

  abbrev pub identity : Cred → Text → Text → Dict Text Text
  identity c dt drt =
      (codes "name", c.nickname)
      ∷ (codes "aid", c.uid)
      ∷ (codes "uid", c.uid)
      ∷ (codes "yx_uid", [])
      ∷ (codes "organization_id", [])
      ∷ (codes "organization_name", [])
      ∷ (codes "user_type", codes "personal_professional_trial")
      ∷ (codes "security_oauth_token", dt)
      ∷ (codes "refresh_token", drt)
      ∷ []

  -- `wrap` is rsa.EncryptPKCS1v15 with the key of the server, and `cbc` the encryption of whole
  -- blocks in CBC mode by a key, which also is the initial vector; `none` are their errors.
  module _ (wrap : Text → Option Text) (cbc : Text → Text → Option Text) where
    unfoldable pub aes_cbc_encrypt : Text → Text → Option Text
    unfolding padded
    aes_cbc_encrypt plain key = cbc key (padded plain)

    abbrev pub with_info : Cred → Text → Text → Option Text → Opened
    with_info c key wrapped none = refused no_cipher
    with_info c key wrapped (some cipher) = opened (record {
      machine_id = c.machine_id;
      machine_token = c.machine_token;
      machine_type = c.machine_type;
      temp_key = key;
      cosy_key = encode64 wrapped;
      info = encode64 cipher;
    })

    abbrev pub with_wrapped : Cred → Text → Text → Text → Option Text → Opened
    with_wrapped c dt drt key none = refused no_wrap
    with_wrapped c dt drt key (some wrapped) =
        with_info c key wrapped (aes_cbc_encrypt (json_sorted_compact (identity c dt drt)) key)

    unfoldable pub new_cosy_session : Text → Cred → Text → Text → Opened
    unfolding aes_cbc_encrypt hex_short
    new_cosy_session bytes c dt drt =
        if is_empty c.machine_id || (is_empty c.machine_token || is_empty c.machine_type)
        then refused no_fingerprint
        else let key = hex_short 16 bytes in with_wrapped c dt drt key (wrap key)

  -- `url_path` is the path that url.Parse finds, `none` if it fails, and `md5` is md5.Sum.
  module _ (url_path : Text → Option Text) (md5 : Text → Text) where
    abbrev pub payload : CosySession → Text → Dict Text Text
    payload s request_id =
        (codes "cosyVersion", codes "0.1.43")
        ∷ (codes "ideVersion", [])
        ∷ (codes "info", s.info)
        ∷ (codes "requestId", request_id)
        ∷ (codes "version", codes "v1")
        ∷ []

    abbrev pub signature : Text → Text → Text → Text → Text → Text
    signature payload64 key date body path_sig = hex (
        md5 (
          payload64
          ++ (newline
              ++ (key ++ (newline ++ (date ++ (newline ++ (body ++ (newline ++ path_sig)))))))))

    abbrev pub path_sig : Text → Text
    path_sig path = trim_prefix path (codes "/algo")

    abbrev pub header_with : CosySession → Text → Text → ℕ → Option Text → Option Text
    header_with s body payload64 now none = none
    header_with s body payload64 now (some path) = some (
        codes "Bearer COSY."
        ++ (payload64
            ++ (codes "." ++ signature payload64 s.cosy_key (decimal now) body (path_sig path))))

    -- `request_id` is the uuid that is drawn, and `now` the clock in seconds.
    unfoldable pub auth_header : CosySession → Text → Text → Text → ℕ → Option Text
    unfolding json_sorted_compact
    auth_header s body raw_url request_id now =
        let payload64 = encode64 (json_sorted_compact (payload s request_id)) in
        header_with s body payload64 now (url_path raw_url)

    abbrev set_if : Bool → Text → Text → Dict Text Text → Dict Text Text
    set_if true k v h = insert k v h
    set_if false k v h = h

    abbrev set_model : Text → Dict Text Text → Dict Text Text
    set_model [] h = h
    set_model (c ∷ key) h =
        insert (codes "x-model-source") (codes "system") (insert (codes "x-model-key") (c ∷ key) h)

    abbrev pub set_all :
        CosySession → Text → Bool → Text → ℕ → Text → Dict Text Text → Dict Text Text
    set_all s uid sse model_key later auth h0 =
        let h1 = insert (codes "cosy-data-policy") (codes "AGREE") h0 in
        let h2 = insert (codes "content-type") (codes "application/json") h1 in
        let h3 = insert (codes "cosy-machinetype") s.machine_type h2 in
        let h4 = insert (codes "cosy-clienttype") (codes "5") h3 in
        let h5 = insert (codes "cosy-date") (decimal later) h4 in
        let h6 = insert (codes "cosy-user") uid h5 in
        let h7 = insert (codes "cosy-key") s.cosy_key h6 in
        let h8 = insert (codes "accept") (codes "text/event-stream") h7 in
        let h9 = set_if sse (codes "cache-control") (codes "no-cache") h8 in
        let h10 = insert (codes "cosy-clientip") (codes "169.254.198.161") h9 in
        let h11 = insert (codes "authorization") auth h10 in
        let h12 = insert (codes "accept-encoding") (codes "identity") h11 in
        let h13 = insert (codes "cosy-version") (codes "0.1.43") h12 in
        let h14 = insert (codes "cosy-machineid") s.machine_id h13 in
        let h15 = insert (codes "cosy-machinetoken") s.machine_token h14 in
        let h16 = insert (codes "login-version") (codes "v2") h15 in
        let h17 = insert (codes "user-agent") (codes "Go-http-client/2.0") h16 in
        set_model model_key h17

    abbrev pub apply_if :
        CosySession
        → Text
        → Bool
        → Text
        → ℕ
        → Dict Text Text
        → Option Text
        → Option (Dict Text Text)
    apply_if s uid sse model_key later h none = none
    apply_if s uid sse model_key later h (some auth) =
        some (set_all s uid sse model_key later auth h)

    -- `later` is the clock when the date is set. `none` is an error, which leaves the request as it
    -- was.
    unfoldable pub apply_headers :
        CosySession
        → Text
        → Text
        → Text
        → Bool
        → Text
        → Text
        → ℕ
        → ℕ
        → Dict Text Text
        → Option (Dict Text Text)
    unfolding auth_header insert decimal
    apply_headers s body raw_url uid sse model_key request_id now later h =
        apply_if s uid sse model_key later h (auth_header s body raw_url request_id now)
