-- ===== src/Upstream/Models/Names.antt =====
-- The form of the names that clients use.
use qoderwork2api.Common.{
  ℕ, ◌≡◌, ◌≢◌, refl, inl, inr, Bool, true, false, ◌&&◌, not, [], ◌∷◌, arith, if◌then◌else◌, map,
  All, Bool-cases,
}
use qoderwork2api.Common.Eq.{Text, is_empty}
use qoderwork2api.Common.Strings.{trim_left, trim_right, trim_space}
use qoderwork2api.Upstream.Models.{
  DynamicModel, client_name, name_loop, is_plain, is_separator, reverse_onto, trim_dashes,
  normalize_model_name, dash, is_dash,
}

-- No dash follows a dash.
abbrev pub NotDash : Text → Type 0
NotDash [] = Unit
NotDash (d ∷ s) = d ≢ dash

abbrev pub IsSpaced : Text → Type 0
IsSpaced [] = Unit
IsSpaced (c ∷ s) = (c ≡ dash → NotDash s) × IsSpaced s

-- Neither a blank nor an underscore.
abbrev pub IsNameChar : ℕ → Type 0
IsNameChar c = (c ≢ b' ') × (c ≢ b'_')

-- The flag tells whether the last rune written is a dash.
abbrev Follows : Bool → Text → Type 0
Follows true out = Unit
Follows false out = NotDash out

free_of_dash :
    (prev_dash : Bool) (out : Text)
    → (not prev_dash && not (is_empty out)) ≡ true
    → Follows prev_dash out
    → NotDash out
free_of_dash true out h f = cc
free_of_dash false out h f = f

plain_is_kept : (r : ℕ) → is_plain r ≡ true → (r ≢ dash) × IsNameChar r
unfolding is_plain
plain_is_kept r h = (λ e. ground arith, (λ e. ground arith, λ e. ground arith))

other_is_kept : (r : ℕ) → is_separator r ≡ false → (r ≢ dash) × IsNameChar r
unfolding is_separator
other_is_kept r h = (λ e. ground arith, (λ e. ground arith, λ e. ground arith))

name_loop_inv :
    (prev_dash : Bool) (out s : Text)
    → Follows prev_dash out
    → IsSpaced out
    → All IsNameChar out
    → IsSpaced (name_loop prev_dash out s) × All IsNameChar (name_loop prev_dash out s)
unfolding name_loop
name_loop_inv prev_dash out [] f h k = (h, k)
name_loop_inv prev_dash out (r ∷ s) f h k =
    let keep : (r ≢ dash) × IsNameChar r
        → IsSpaced (name_loop false (r ∷ out) s) × All IsNameChar (name_loop false (r ∷ out) s) =
      λ ok. name_loop_inv false (r ∷ out) s ok.0 ((λ e. absurd (ok.0 e)), h) (ok.1, k) in
    elim (Bool-cases (is_plain r)) [
      | inl p ↦ rw p (keep (plain_is_kept r p))
      | inr p ↦ elim (Bool-cases (is_separator r)) [
        | inr q ↦ rw (p, q) (keep (other_is_kept r q))
        | inl q ↦ elim (Bool-cases (not prev_dash && not (is_empty out))) [
          | inl d ↦
              rw (p, q, d)
                (name_loop_inv true (dash ∷ out) s tt ((λ e. free_of_dash prev_dash out d f), h)
                  ((λ e. ground arith, λ e. ground arith), k))
          | inr d ↦ rw (p, q, d) (name_loop_inv prev_dash out s f h k)
        ]
      ]
    ]

-- Turning a text round keeps its dashes apart.
JoinSpaced : Text → Text → Type 0
JoinSpaced [] out = Unit
JoinSpaced (c ∷ s) out = c ≡ dash → NotDash out

reverse_onto-IsSpaced :
    (s out : Text) → IsSpaced s → IsSpaced out → JoinSpaced s out → IsSpaced (reverse_onto s out)
unfolding reverse_onto JoinSpaced
reverse_onto-IsSpaced [] out h k j = k
reverse_onto-IsSpaced (c ∷ []) out h k j = (j, k)
reverse_onto-IsSpaced (c ∷ d ∷ s) out h k j =
    reverse_onto-IsSpaced (d ∷ s) (c ∷ out) h.1 (j, k) (λ e f. h.0 f e)

reverse_onto-All :
    (P : ℕ → Type 0) (s out : Text) → All P s → All P out → All P (reverse_onto s out)
unfolding reverse_onto
reverse_onto-All P [] out h k = k
reverse_onto-All P (c ∷ s) out h k = reverse_onto-All P s (c ∷ out) h.1 (h.0, k)

trim_left-IsSpaced : (s : Text) → IsSpaced s → IsSpaced (trim_left is_dash s)
unfolding trim_left
trim_left-IsSpaced [] h = tt
trim_left-IsSpaced (c ∷ s) h = ground (arith, trim_left-IsSpaced s h.1)

trim_left-All : (P : ℕ → Type 0) (s : Text) → All P s → All P (trim_left is_dash s)
unfolding trim_left
trim_left-All P [] h = tt
trim_left-All P (c ∷ s) h = elim (Bool-cases (is_dash c)) [
  | inl e ↦ rw e (trim_left-All P s h.1)
  | inr e ↦ rw e h
]

trim_left_lem : (s : Text) → NotDash (trim_left is_dash s)
unfolding trim_left
trim_left_lem [] = tt
trim_left_lem (c ∷ s) = elim (Bool-cases (is_dash c)) [
  | inl e ↦ rw e (trim_left_lem s)
  | inr e ↦ rw e (λ h. ground arith)
]

abbrev pub EndsWell : Text → Type 0
EndsWell [] = Unit
EndsWell (c ∷ []) = c ≢ dash
EndsWell (c ∷ d ∷ s) = EndsWell (d ∷ s)

-- One step of `TrimRight` from the end.
abbrev keep_right : ℕ → Text → Text
keep_right c [] = if is_dash c then [] else c ∷ []
keep_right c (d ∷ r) = c ∷ d ∷ r

trim_right_step :
    (c : ℕ) (s : Text) → trim_right is_dash (c ∷ s) ≡ keep_right c (trim_right is_dash s)
unfolding trim_right
trim_right_step c s = go (trim_right is_dash s)
  where
    go :
        (t : Text)
        → (elim t [ [] ↦ if is_dash c then [] else c ∷ [] | d ∷ r ↦ c ∷ d ∷ r ]) ≡ keep_right c t
    go [] = refl
    go (d ∷ r) = refl

keep_right-NotDash : (c : ℕ) (t : Text) → c ≢ dash → NotDash (keep_right c t)
keep_right-NotDash c [] h = ground arith
keep_right-NotDash c (d ∷ t) h = h

keep_right-EndsWell : (c : ℕ) (t : Text) → EndsWell t → EndsWell (keep_right c t)
keep_right-EndsWell c [] h = ground arith
keep_right-EndsWell c (d ∷ t) h = h

keep_right-All : (P : ℕ → Type 0) (c : ℕ) (t : Text) → P c → All P t → All P (keep_right c t)
keep_right-All P c [] p h = elim (Bool-cases (is_dash c)) [ inl e ↦ rw e tt | inr e ↦ rw e (p, tt) ]
keep_right-All P c (d ∷ t) p h = (p, h)

keep_right-IsSpaced :
    (c : ℕ) (t : Text) → (c ≡ dash → NotDash t) → IsSpaced t → IsSpaced (keep_right c t)
keep_right-IsSpaced c [] p h = elim (Bool-cases (is_dash c)) [
  | inl e ↦ rw e tt
  | inr e ↦ rw e ((λ q. tt), tt)
]
keep_right-IsSpaced c (d ∷ t) p h = (p, h)

trim_right-NotDash : (s : Text) → NotDash s → NotDash (trim_right is_dash s)
trim_right-NotDash [] h = unfold trim_right in tt
trim_right-NotDash (c ∷ s) h =
    rw (trim_right_step c s) (keep_right-NotDash c (trim_right is_dash s) h)

trim_right-EndsWell : (s : Text) → EndsWell (trim_right is_dash s)
trim_right-EndsWell [] = unfold trim_right in tt
trim_right-EndsWell (c ∷ s) =
    rw (trim_right_step c s) (keep_right-EndsWell c (trim_right is_dash s) (trim_right-EndsWell s))

trim_right-All : (P : ℕ → Type 0) (s : Text) → All P s → All P (trim_right is_dash s)
trim_right-All P [] h = unfold trim_right in tt
trim_right-All P (c ∷ s) h =
    rw (trim_right_step c s)
      (keep_right-All P c (trim_right is_dash s) h.0 (trim_right-All P s h.1))

trim_right-IsSpaced : (s : Text) → IsSpaced s → IsSpaced (trim_right is_dash s)
trim_right-IsSpaced [] h = unfold trim_right in tt
trim_right-IsSpaced (c ∷ s) h = rw (trim_right_step c s) (
    keep_right-IsSpaced c (trim_right is_dash s) (λ e. trim_right-NotDash s (h.0 e))
      (trim_right-IsSpaced s h.1))

-- The name that NormalizeModelName makes of a text.
pub normalize_model_name_form :
    (lower : ℕ → ℕ) (s : Text)
    → let name = normalize_model_name lower s in
      All IsNameChar name × IsSpaced name × NotDash name × EndsWell name
unfolding normalize_model_name trim_dashes
normalize_model_name_form lower s =
    let written = name_loop false [] (map lower (trim_space s)) in
    let (spaced, chars) = name_loop_inv false [] (map lower (trim_space s)) tt tt tt in
    let ahead = reverse_onto written [] in
    let spaced' = reverse_onto-IsSpaced written [] spaced tt (ends written) in
    let chars' = reverse_onto-All IsNameChar written [] chars tt in
    let cut = trim_left is_dash ahead in
    (
      trim_right-All IsNameChar cut (trim_left-All IsNameChar ahead chars'),
      trim_right-IsSpaced cut (trim_left-IsSpaced ahead spaced'),
      trim_right-NotDash cut (trim_left_lem ahead),
      trim_right-EndsWell cut,
    )
  where
    ends : (t : Text) → JoinSpaced t []
    ends [] = unfold JoinSpaced in tt
    ends (c ∷ t) = unfold JoinSpaced in λ e. tt

-- The name by which a client asks for a model: if the gateway shows a name, whatever it is, the
-- client's name has no blank and no underscore, no two dashes in a row, and no dash at either end;
-- if it shows none, the name is the key of the model as it is.
pub client_name_form :
    (lower : ℕ → ℕ) (m : DynamicModel)
    → (m.display_name ≢ []
        → let name = client_name lower m in
          All IsNameChar name × IsSpaced name × NotDash name × EndsWell name)
      × (m.display_name ≡ [] → client_name lower m ≡ m.key)
unfolding client_name
client_name_form lower m = (
  λ shown. elim (Bool-cases (is_empty m.display_name)) [
    | inl e ↦ absurd (shown (nil_of m.display_name e))
    | inr e ↦ rw (e, client_name) (normalize_model_name_form lower m.display_name)
  ],
  λ hidden. rw (hidden, client_name) refl,
)
  where
    nil_of : (s : Text) → is_empty s ≡ true → s ≡ []
    nil_of [] h = refl
    nil_of (c ∷ s) h = cc
