-- ===== src/Upstream/Classify.antt =====
-- internal/upstream/classify.go: the kind of an error by status and body.
use qoderwork2api.Common.{
  ℕ, ◌<◌, ◌≡◌, ◌≢◌, ◌↔◌, ◌⊎◌, inl, inr, Bool, true, false, ◌&&◌, ◌||◌, List, [], ◌∷◌, ◌++◌, arith,
  if◌then◌else◌, nat_eq, leb, map, Bool-cases, In, ap, refl,
}
use qoderwork2api.Common.Eq.{Text, codes}
use qoderwork2api.Common.Strings.{contains_text, contains_text_iff, Occurs, decimal}

pub data ErrKind : Type 0 where
  none_kind hard_credit soft_rate token_expired session_dead not_found server client : ErrKind

pub kind_string : ErrKind → Text
kind_string hard_credit = codes "hard_credit"
kind_string soft_rate = codes "soft_rate"
kind_string token_expired = codes "token_expired"
kind_string session_dead = codes "session_dead"
kind_string not_found = codes "not_found"
kind_string server = codes "server"
kind_string client = codes "client"
kind_string none_kind = codes "none"

pub record UpstreamError : Type 0 where
  pub kind : ErrKind
  pub status : ℕ
  pub msg : Text

pub error_string : UpstreamError → Text
unfolding kind_string
error_string e =
    codes "upstream "
    ++ (kind_string e.kind ++ (codes " (http " ++ (decimal e.status ++ (codes "): " ++ e.msg))))

abbrev pub hard_markers : List Text
hard_markers =
    codes "insufficient credit"
    ∷ codes "no credit"
    ∷ codes "credit exhausted"
    ∷ codes "out of credit"
    ∷ codes "quota exceeded"
    ∷ codes "quota exhaust"
    ∷ codes "payment required"
    ∷ codes "credit not enough"
    ∷ codes "not enough credit"
    ∷ codes "isquotaexceeded\":true"
    ∷ codes "积分不足"
    ∷ codes "额度不足"
    ∷ codes "余额不足"
    ∷ codes "积分用完"
    ∷ codes "额度用尽"
    ∷ codes "没有积分"
    ∷ []

-- `lower` is unicode.ToLower, by which strings.ToLower maps a text.
module _ (lower : ℕ → ℕ) where
  pub to_lower : Text → Text
  to_lower s = map lower s

  -- The loop over the markers.
  pub has_marker : Text → List Text → Bool
  unfolding to_lower
  has_marker body [] = false
  has_marker body (m ∷ ms) =
      contains_text (to_lower body) (to_lower m) || contains_text body m || has_marker body ms

  pub classify : ℕ → Text → ErrKind
  classify status body =
      if nat_eq status 402
      then hard_credit
      else if has_marker body hard_markers
      then hard_credit
      else if nat_eq status 401 && contains_text body (codes "TOKEN_EXPIRE")
      then token_expired
      else if nat_eq status 429
      then soft_rate
      else if nat_eq status 404
      then not_found
      else if leb 500 status
      then server
      else if leb 400 status
      then client
      else none_kind

  -- A marker stands in the body, with its letters as they are or with those of both made small.
  abbrev pub IsMarked : Text → Text → Type 0
  IsMarked body m = Occurs (map lower m) (map lower body) ⊎ Occurs m body

  -- The sign that an account has no credits: the status 402 or one of the markers in the body.
  abbrev pub OutOfCredit : ℕ → Text → Type 0
  OutOfCredit status body = (status ≡ 402) ⊎ ((m : Text) × In m hard_markers × IsMarked body m)

  has_marker-IsMarked :
      (body : Text) (ms : List Text)
      → has_marker body ms ≡ true
      → (m : Text) × In m ms × IsMarked body m
  unfolding has_marker to_lower
  has_marker-IsMarked body [] h = cc
  has_marker-IsMarked body (m ∷ ms) h =
      elim (Bool-cases (contains_text (map lower body) (map lower m))) [
        | inl e ↦ (m, inl refl, inl ((contains_text_iff (map lower body) (map lower m)).0 e))
        | inr e ↦ elim (Bool-cases (contains_text body m)) [
          | inl f ↦ (m, inl refl, inr ((contains_text_iff body m).0 f))
          | inr f ↦
              let (m', i, marked) = has_marker-IsMarked body ms (ground (arith, h, e, f)) in
              (m', inr i, marked)
        ]
      ]

  IsMarked-has_marker :
      (body : Text) (ms : List Text) (m : Text)
      → In m ms
      → IsMarked body m
      → has_marker body ms ≡ true
  unfolding has_marker to_lower
  IsMarked-has_marker body [] m i marked = elim i [ ]
  IsMarked-has_marker body (n ∷ ms) m (inl same) (inl low) = ground (
    arith,
    ap (λ (t : Text). contains_text (map lower body) (map lower t)) same,
    (contains_text_iff (map lower body) (map lower m)).1 low,
  )
  IsMarked-has_marker body (n ∷ ms) m (inl same) (inr as_is) =
      ground
        (arith, ap (λ (t : Text). contains_text body t) same, (contains_text_iff body m).1 as_is)
  IsMarked-has_marker body (n ∷ ms) m (inr i) marked =
      ground (arith, IsMarked-has_marker body ms m i marked)

  abbrev Found : ℕ → Text → Type 0
  Found status body = (status ≡ 402) ⊎ (has_marker body hard_markers ≡ true)

  Found-OutOfCredit : (status : ℕ) (body : Text) → Found status body → OutOfCredit status body
  Found-OutOfCredit status body (inl paid) = inl paid
  Found-OutOfCredit status body (inr found) = inr (has_marker-IsMarked body hard_markers found)

  OutOfCredit-Found : (status : ℕ) (body : Text) → OutOfCredit status body → Found status body
  OutOfCredit-Found status body (inl paid) = inl paid
  OutOfCredit-Found status body (inr (m, i, marked)) =
      inr (IsMarked-has_marker body hard_markers m i marked)

  by_signs :
      (status : ℕ) (body : Text)
      → status < 400
      → ¬ Found status body
      → classify status body ≡ none_kind
  unfolding classify
  by_signs status body h no_sign = elim (Bool-cases (has_marker body hard_markers)) [
    | inl e ↦ absurd (no_sign (inr e))
    | inr e ↦ ground arith
  ]

  classify-Found :
      (status : ℕ) (body : Text)
      → ((classify status body ≡ hard_credit) ↔ Found status body)
        × ((classify status body ≡ none_kind) ↔ ((status < 400) × (¬ Found status body)))
        × (classify status body ≢ session_dead)
  unfolding classify
  classify-Found status body = (
    (λ h. ground arith, λ h. ground arith),
    (λ h. (ground arith, λ o. ground arith), λ h. by_signs status body h.0 h.1),
    λ h. ground arith,
  )

  -- An error counts as lack of credits exactly if its status is 402 or one of the markers stands in
  -- the body, whatever else its status says, in the letters of the marker or in small letters both;
  -- without such a sign there is no error exactly below 400; and no answer counts as a dead session.
  pub classify_kinds :
      (status : ℕ) (body : Text)
      → ((classify status body ≡ hard_credit) ↔ OutOfCredit status body)
        × ((classify status body ≡ none_kind) ↔ ((status < 400) × (¬ OutOfCredit status body)))
        × (classify status body ≢ session_dead)
  classify_kinds status body =
      let (credit, none, dead) = classify-Found status body in
      let to_signs = Found-OutOfCredit status body in
      let from_signs = OutOfCredit-Found status body in
      (
        (λ h. to_signs (credit.0 h), λ o. credit.1 (from_signs o)),
        (
          λ h. ((none.0 h).0, λ o. (none.0 h).1 (from_signs o)),
          λ h. none.1 (h.0, λ o. h.1 (to_signs o)),
        ),
        dead,
      )
