-- ===== src/Upstream/Request/Delivered.antt =====
-- What the gateway receives.
use qoderwork2api.Common.{
  ◌≡◌, ◌≢◌, refl, subst, inl, inr, true, false, List, ◌++◌, Option, none, some, arith, Bool-cases,
  All,
}
use qoderwork2api.Common.Eq.{Text, is_empty}
use qoderwork2api.Common.Dict.{Dict}
use qoderwork2api.Cred.{Cred}
use qoderwork2api.Encoding.{qoder_encode, qoder_decode}
use qoderwork2api.Encoding.Base64.{IsByte}
use qoderwork2api.Encoding.RoundTrip.{qoder_decode-qoder_encode}
use qoderwork2api.Upstream.Body.{Json, Items, Message, build_agent_body}
use qoderwork2api.Upstream.Cosy.{CosySession, Opened, opened, refused, new_cosy_session}
use qoderwork2api.Upstream.Cosy.Signature.{IsSigned, apply_headers-IsSigned}
use qoderwork2api.Upstream.Request.{
  Request, PrepareError, no_dt, prepared, unprepared, RequestDraws, chat_path, with_headers,
  with_session, with_path, with_body, chat_request, chat_request_raw,
}

unprepared_not : (e : PrepareError) (r : Request) → unprepared e ≢ prepared r
unprepared_not e r h = cc h

module _ (marshal_json : Json → Option Text) (marshal : Text → Text) (wrap : Text → Option Text)
    (cbc : Text → Text → Option Text) (url_path : Text → Option Text) (md5 : Text → Text)
    (gateway : Text) where
  -- The body decodes to this JSON, and the headers are those of a session of the account, with a
  -- signature over the body as it is sent.
  pub record IsDelivered (d : RequestDraws) (c : Cred) (raw : Text) (r : Request) : Type 0 where
    pub body : qoder_decode r.body ≡ some raw
    pub signed :
        (s : CosySession) × (path : Text) × (url_path r.url ≡ some path)
        × (new_cosy_session marshal wrap cbc d.key_bytes c c.dt c.drt ≡ opened s)
        × IsSigned marshal url_path md5 s r.body path c.uid d.request_id d.now d.later r.header

  with_headers-IsDelivered :
      (d : RequestDraws) (c : Cred) (raw url path : Text) (s : CosySession)
      (o : Option (Dict Text Text)) (h : Dict Text Text) (r : Request)
      → All IsByte raw
      → url_path url ≡ some path
      → new_cosy_session marshal wrap cbc d.key_bytes c c.dt c.drt ≡ opened s
      → o ≡ some h
      → IsSigned marshal url_path md5 s (qoder_encode raw) path c.uid d.request_id d.now d.later h
      → with_headers marshal_json marshal wrap cbc url_path md5 gateway url (qoder_encode raw) o
        ≡ prepared r
      → IsDelivered d c raw r
  with_headers-IsDelivered d c raw url path s none h r bytes at opens is signed done =
      absurd (cc is)
  with_headers-IsDelivered d c raw url path s (some h') h r bytes at opens is signed done =
      let request : Request = record { url = url; header = h'; body = qoder_encode raw } in
      let same : request ≡ r = cc done in
      let header : h ≡ h' = cc is in
      subst (IsDelivered d c raw) same (record {
        body = qoder_decode-qoder_encode raw bytes;
        signed = (
          s,
          path,
          at,
          opens,
          subst
              (IsSigned marshal url_path md5 s (qoder_encode raw) path c.uid d.request_id d.now
                d.later)
              header signed,
        );
      })

  with_session-IsDelivered :
      (d : RequestDraws) (c : Cred) (model_key raw url path : Text) (o : Opened) (r : Request)
      → All IsByte raw
      → url_path url ≡ some path
      → new_cosy_session marshal wrap cbc d.key_bytes c c.dt c.drt ≡ o
      → with_session marshal_json marshal wrap cbc url_path md5 gateway d c model_key url
          (qoder_encode raw)
          o
        ≡ prepared r
      → IsDelivered d c raw r
  with_session-IsDelivered d c model_key raw url path (refused e) r bytes at is done =
      absurd (cc done)
  with_session-IsDelivered d c model_key raw url path (opened s) r bytes at is done =
      let (signs, fails) =
        apply_headers-IsSigned marshal url_path md5 s (qoder_encode raw) url c.uid model_key
          d.request_id true d.now d.later in
      let (h, applied, signed) = signs path at in
      with_headers-IsDelivered d c raw url path s _ h r bytes at is applied signed done

  with_path-IsDelivered :
      (d : RequestDraws) (c : Cred) (model_key raw url : Text) (o : Option Text) (r : Request)
      → All IsByte raw
      → url_path url ≡ o
      → with_path marshal_json marshal wrap cbc url_path md5 gateway d c model_key url
          (qoder_encode raw)
          o
        ≡ prepared r
      → IsDelivered d c raw r
  with_path-IsDelivered d c model_key raw url none r bytes at done = absurd (cc done)
  with_path-IsDelivered d c model_key raw url (some path) r bytes at done =
      with_session-IsDelivered d c model_key raw url path _ r bytes at refl done

  with_body-IsDelivered :
      (d : RequestDraws) (c : Cred) (model_key : Text) (o : Option Text) (r : Request)
      → ((raw : Text) → o ≡ some raw → All IsByte raw)
      → with_body marshal_json marshal wrap cbc url_path md5 gateway d c model_key o ≡ prepared r
      → (raw : Text) × (o ≡ some raw) × IsDelivered d c raw r
  with_body-IsDelivered d c model_key none r bytes done = absurd (cc done)
  with_body-IsDelivered d c model_key (some raw) r bytes done = (
    raw,
    refl,
    with_path-IsDelivered d c model_key raw (gateway ++ chat_path) _ r (bytes raw refl) refl done,
  )

  -- If json.Marshal gives bytes, then a request that was prepared carries the body that was built
  -- for its messages, which the gateway gets back by undoing the encoding, and a signature of a
  -- session of the account over the body as it is sent; and the account has a token.
  pub chat_request-IsDelivered :
      (d : RequestDraws) (c : Cred) (messages : List Message) (model_key : Text) (tools : Items)
      (effort : Text) (r : Request)
      → ((v : Json) (raw : Text) → marshal_json v ≡ some raw → All IsByte raw)
      → chat_request marshal_json marshal wrap cbc url_path md5 gateway d c messages model_key tools
          effort
        ≡ prepared r
      → (is_empty c.dt ≡ false)
        × ((raw : Text) × (marshal_json (build_agent_body d.body messages model_key tools effort)
              ≡ some raw)
            × IsDelivered d c raw r)
  unfolding chat_request
  chat_request-IsDelivered d c messages model_key tools effort r bytes done =
      elim (Bool-cases (is_empty c.dt)) [
        | inl e ↦ absurd (unprepared_not no_dt r (ground (arith, done, e)))
        | inr e ↦ (
          e,
          with_body-IsDelivered d c model_key _ r (λ raw is. bytes _ raw is)
              (ground (arith, done, e)),
        )
      ]

  -- `ChatForward` prepares the request that `ChatForwardRaw` prepares for the same body.
  pub chat_request-chat_request_raw :
      (d : RequestDraws) (c : Cred) (messages : List Message) (model_key : Text) (tools : Items)
      (effort raw : Text)
      → marshal_json (build_agent_body d.body messages model_key tools effort) ≡ some raw
      → chat_request marshal_json marshal wrap cbc url_path md5 gateway d c messages model_key tools
          effort
        ≡ chat_request_raw marshal_json marshal wrap cbc url_path md5 gateway d c model_key raw
  unfolding chat_request chat_request_raw
  chat_request-chat_request_raw d c messages model_key tools effort raw h = rw h refl
