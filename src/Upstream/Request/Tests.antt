-- ===== src/Upstream/Request/Tests.antt =====
-- A request at concrete values.
use qoderwork2api.Common.{◌≡◌, refl, subst, false, [], ◌∷◌, ◌++◌, Option, some, arith, All}
use qoderwork2api.Common.Eq.{Text, codes, is_empty}
use qoderwork2api.Cred.{Cred, blank}
use qoderwork2api.Encoding.Base64.{IsByte}
use qoderwork2api.Upstream.Body.{Json, nil, build_agent_body}
use qoderwork2api.Upstream.Cosy.{new_cosy_session, apply_headers, auth_header, aes_cbc_encrypt}
use qoderwork2api.Upstream.Request.{
  Request, Prepared, prepared, unprepared, RequestDraws, chat_request,
}
use qoderwork2api.Upstream.Request.Delivered.{IsDelivered, chat_request-IsDelivered}

abbrev quoted : Text → Text
quoted s = b'"' ∷ s ++ codes "\""

abbrev braces : Json → Option Text
braces v = some (codes "{}")

abbrev itself : Text → Option Text
itself s = some s

abbrev plain : Text → Text → Option Text
plain key s = some s

abbrev digest : Text → Text
digest s = s

abbrev draws : RequestDraws
draws = record {
  body = record {
    request = codes "r";
    request_set = codes "s";
    session = codes "t";
    business = codes "b";
    now = 9;
  };
  key_bytes = 1 ∷ 2 ∷ 3 ∷ 4 ∷ 5 ∷ 6 ∷ 7 ∷ 8 ∷ [];
  request_id = codes "id";
  now = 7;
  later = 7;
}

abbrev cred : Cred
cred = record blank {
  uid = codes "u";
  dt = codes "dt";
  machine_id = codes "m";
  machine_token = codes "t";
  machine_type = codes "x";
}

abbrev nothing : Request
nothing = record { url = []; header = []; body = [] }

abbrev request_of : Prepared → Request
request_of (prepared r) = r
request_of (unprepared e) = nothing

abbrev made : Prepared
made =
    chat_request braces quoted itself plain itself digest (codes "https://gw") draws cred []
      (codes "qmodel") nil []

is_made : made ≡ prepared (request_of made)
unfolding chat_request new_cosy_session aes_cbc_encrypt apply_headers auth_header
is_made = refl

gives_bytes : (v : Json) (raw : Text) → braces v ≡ some raw → All IsByte raw
gives_bytes v raw h =
    let same : codes "{}" ≡ raw = cc h in
    subst (λ (s : Text). All IsByte s) same (omega arith, (omega arith, tt))

chat_request-IsDelivered_example :
    (is_empty cred.dt ≡ false)
    × ((raw : Text) × (braces (build_agent_body draws.body [] (codes "qmodel") nil []) ≡ some raw)
        × IsDelivered braces quoted itself plain itself digest
            (codes "https://gw")
            draws
            cred
            raw
            (request_of made))
chat_request-IsDelivered_example =
    chat_request-IsDelivered braces quoted itself plain itself digest (codes "https://gw") draws
      cred [] (codes "qmodel") nil [] (request_of made) gives_bytes is_made
