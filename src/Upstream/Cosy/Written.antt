-- ===== src/Upstream/Cosy/Written.antt =====
-- internal/upstream/cosy.go: the two objects that a session encodes, as they are written.
use qoderwork2api.Common.{◌≡◌, refl, List, [], ◌∷◌, ◌++◌, Option}
use qoderwork2api.Common.Eq.{Text, codes, text_eq}
use qoderwork2api.Common.Dict.{lookup}
use qoderwork2api.Common.Sort.{sort_texts}
use qoderwork2api.Cred.{Cred}
use qoderwork2api.Upstream.Cosy.{CosySession, json_sorted_compact, entries, identity, payload}

module _ (marshal : Text → Text) where
  abbrev more : List (Text × Text) → Text
  more [] = []
  more ((k, v) ∷ m) = codes "," ++ (marshal k ++ (codes ":" ++ (marshal v ++ more m)))

  -- A JSON object of texts without blanks, with its keys in the order of the list.
  abbrev pub object_of : List (Text × Text) → Text
  object_of [] = codes "{}"
  object_of ((k, v) ∷ m) =
      codes "{" ++ ((marshal k ++ (codes ":" ++ (marshal v ++ more m))) ++ codes "}")

  -- What a session tells of the account.
  abbrev pub told : Cred → Text → Text → Text
  told c dt drt = object_of (
      (codes "aid", c.uid)
      ∷ (codes "name", c.nickname)
      ∷ (codes "organization_id", [])
      ∷ (codes "organization_name", [])
      ∷ (codes "refresh_token", drt)
      ∷ (codes "security_oauth_token", dt)
      ∷ (codes "uid", c.uid)
      ∷ (codes "user_type", codes "personal_professional_trial")
      ∷ (codes "yx_uid", [])
      ∷ [])

  pub told_lem :
      (c : Cred) (dt drt : Text)
      → json_sorted_compact marshal (identity marshal c dt drt) ≡ told c dt drt
  unfolding json_sorted_compact entries sort_texts lookup text_eq
  told_lem c dt drt = refl

  -- What stands before the signature in the header.
  abbrev pub offered : Text → Text → Text
  offered info request_id = object_of (
      (codes "cosyVersion", codes "0.1.43")
      ∷ (codes "ideVersion", [])
      ∷ (codes "info", info)
      ∷ (codes "requestId", request_id)
      ∷ (codes "version", codes "v1")
      ∷ [])

  pub offered_lem :
      (url_path : Text → Option Text) (md5 : Text → Text) (s : CosySession) (request_id : Text)
      → json_sorted_compact marshal (payload marshal url_path md5 s request_id)
        ≡ offered s.info request_id
  unfolding json_sorted_compact entries sort_texts lookup text_eq
  offered_lem url_path md5 s request_id = refl
