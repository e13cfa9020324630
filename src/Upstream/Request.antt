-- ===== src/Upstream/Request.antt =====
-- The part of `ChatForward` and `ChatForwardRaw` of internal/upstream/chat.go that prepares the
-- request; what the answer leads to is chat_forward of Server.Chat.
pub mod Delivered
mod Tests
use qoderwork2api.Common.{
  ℕ, Bool, true, false, List, [], ◌∷◌, ◌++◌, Option, none, some, if◌then◌else◌,
}
use qoderwork2api.Common.Eq.{Text, codes, is_empty}
use qoderwork2api.Common.Dict.{Dict}
use qoderwork2api.Cred.{Cred}
use qoderwork2api.Encoding.{qoder_encode}
use qoderwork2api.Upstream.Body.{Json, Items, Message, BodyDraws, build_agent_body}
use qoderwork2api.Upstream.Cosy.{
  CosySession, Opened, opened, refused, new_cosy_session, apply_headers,
}

pub record Request : Type 0 where
  pub url : Text
  pub header : Dict Text Text
  pub body : Text

pub data PrepareError : Type 0 where
  no_dt no_body no_request no_session no_headers : PrepareError

pub data Prepared : Type 0 where
  prepared : Request → Prepared
  unprepared : PrepareError → Prepared

-- What is drawn: the identifiers of the body, the bytes for the key of the session, the id of the
-- signed payload, and the clock in seconds when the date is signed and when it is set.
pub record RequestDraws : Type 0 where
  pub body : BodyDraws
  pub key_bytes : Text
  pub request_id : Text
  pub now : ℕ
  pub later : ℕ

pub chat_path : Text
chat_path =
    codes
      "/algo/api/v2/service/pro/sse/agent_chat_generation?FetchKeys=llm_model_result&AgentId=agent_common&Encode=1"

-- `marshal_json` is json.Marshal, `marshal` the same for a string, `wrap` rsa.EncryptPKCS1v15, `cbc`
-- the AES cipher in CBC mode, `url_path` the path that url.Parse finds, by which http.NewRequest
-- fails too, and `md5` md5.Sum.
module _ (marshal_json : Json → Option Text) (marshal : Text → Text) (wrap : Text → Option Text)
    (cbc : Text → Text → Option Text) (url_path : Text → Option Text) (md5 : Text → Text)
    (gateway : Text) where
  abbrev pub with_headers : Text → Text → Option (Dict Text Text) → Prepared
  with_headers url encoded none = unprepared no_headers
  with_headers url encoded (some h) = prepared (record { url = url; header = h; body = encoded })

  abbrev pub with_session : RequestDraws → Cred → Text → Text → Text → Opened → Prepared
  with_session d c model_key url encoded (refused e) = unprepared no_session
  with_session d c model_key url encoded (opened s) = with_headers url encoded (
      apply_headers marshal url_path md5 s encoded url c.uid true model_key d.request_id d.now
        d.later [])

  abbrev pub with_path : RequestDraws → Cred → Text → Text → Text → Option Text → Prepared
  with_path d c model_key url encoded none = unprepared no_request
  with_path d c model_key url encoded (some path) =
      with_session d c model_key url encoded
        (new_cosy_session marshal wrap cbc d.key_bytes c c.dt c.drt)

  abbrev pub with_body : RequestDraws → Cred → Text → Option Text → Prepared
  with_body d c model_key none = unprepared no_body
  with_body d c model_key (some raw) =
      let url = gateway ++ chat_path in
      with_path d c model_key url (qoder_encode raw) (url_path url)

  pub chat_request : RequestDraws → Cred → List Message → Text → Items → Text → Prepared
  unfolding chat_path
  chat_request d c messages model_key tools effort =
      if is_empty c.dt
      then unprepared no_dt
      else with_body d c model_key
          (marshal_json (build_agent_body d.body messages model_key tools effort))

  -- `ChatForwardRaw`, whose body is given.
  pub chat_request_raw : RequestDraws → Cred → Text → Text → Prepared
  unfolding chat_path
  chat_request_raw d c model_key raw =
      if is_empty c.dt then unprepared no_dt else with_body d c model_key (some raw)
