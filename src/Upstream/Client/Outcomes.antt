-- ===== src/Upstream/Client/Outcomes.antt =====
-- When the calls of the billing service succeed.
use qoderwork2api.Common.{
  ℕ, ◌≡◌, ◌↔◌, refl, ap, sym, inl, inr, Bool, true, false, Option, none, some, arith, leb,
  Bool-cases,
}
use qoderwork2api.Common.Int.{ℤ}
use qoderwork2api.Common.Eq.{Text, codes}
use qoderwork2api.Upstream.Client.{
  Reply, broken, garbled, decoded, Result, success, failure, receive, then_result, Claim, Quota,
  claim_of, of_claim, of_quota, with_body, quota_usage, daily_checkin,
}

-- The service answered with this value and a status below 400.
abbrev pub Answers : {A : Type 0} → Reply A → A → Type 0
Answers reply a =
    (status : ℕ) × (raw : Text) × (reply ≡ decoded status raw a) × (leb 400 status ≡ false)

receive_success :
    {A : Type 0} (refused : ℕ → Text → Text) (unparsed : Text) (reply : Reply A) (a : A)
    → receive refused unparsed reply ≡ success a
    → Answers reply a
unfolding receive
receive_success refused unparsed (broken text) a h = absurd (cc h)
receive_success refused unparsed (garbled status raw text) a h = absurd (ground (arith, h))
receive_success refused unparsed (decoded status raw b) a h = elim (Bool-cases (leb 400 status)) [
  | inl e ↦ absurd (ground (arith, h, e))
  | inr e ↦
      let same : success b ≡ success a = ground (arith, h, e) in
      (status, raw, ap (decoded status raw) (cc same), e)
]

success_receive :
    {A : Type 0} (refused : ℕ → Text → Text) (unparsed : Text) (reply : Reply A) (a : A)
    → Answers reply a
    → receive refused unparsed reply ≡ success a
unfolding receive
success_receive refused unparsed reply a (status, raw, is, below) = rw (is, below, receive) refl

then_success :
    {A B : Type 0} (f : A → Result B) (r : Result A) {b : B}
    → then_result f r ≡ success b
    → (a : A) × (r ≡ success a) × (f a ≡ success b)
unfolding then_result
then_success f (success a) h = (a, refl, h)
then_success f (failure text) h = absurd (cc h)

-- A call whose answer goes through `f` succeeds exactly if the service answers and `f` succeeds.
answered :
    {A B : Type 0} (f : A → Result B) (refused : ℕ → Text → Text) (unparsed : Text)
    (reply : Reply A) {b : B}
    → then_result f (receive refused unparsed reply) ≡ success b
    → (a : A) × Answers reply a × (f a ≡ success b)
answered f refused unparsed reply h =
    let (a, got, done) = then_success f (receive refused unparsed reply) h in
    (a, receive_success refused unparsed reply a got, done)

answers :
    {A B : Type 0} (f : A → Result B) (refused : ℕ → Text → Text) (unparsed : Text)
    (reply : Reply A) {b : B} (a : A)
    → Answers reply a
    → f a ≡ success b
    → then_result f (receive refused unparsed reply) ≡ success b
unfolding then_result
answers f refused unparsed reply a answer done =
    rw (success_receive refused unparsed reply a answer) done

same_pair :
    {A B : Type 0} {a a' : A} {b b' : B}
    → ◌≡◌ {A = Result (A × B)} (success (a, b)) (success (a', b'))
    → (a' ≡ a) × (b' ≡ b)
same_pair {A = A} {B = B} {a} {a'} {b} {b'} h =
    let pair : ◌≡◌ {A = A × B} (a, b) (a', b') = cc h in
    (ap (λ (r : A × B). r.0) (sym pair), ap (λ (r : A × B). r.1) (sym pair))

module _ (cut : Text → Text) (whole : ℕ → ℕ → ℤ) where
  claim_of_success :
      (flag : Option Bool) (e : Option Text) (b : Bool)
      → claim_of cut whole flag e ≡ success b
      → (b ≡ true) × (flag ≡ some true)
  claim_of_success none e b h = absurd (cc h)
  claim_of_success (some false) e b h = absurd (cc h)
  claim_of_success (some true) e true h = (refl, refl)
  claim_of_success (some true) e false h = absurd (ground (arith, h))

  -- The reward of the day is claimed exactly if the service answers with a status below 400 and the
  -- field success true, and a claim that did not fail is never reported as no success. The credits
  -- are known exactly if the service answers with a status below 400, and then they are its sum and
  -- its flag.
  pub daily_checkin-Answers :
      (claim : Reply Claim) (b : Bool) (quota : Reply Quota) (remain : ℤ) (exceeded : Bool)
      → ((daily_checkin cut whole claim ≡ success b)
          ↔ ((b ≡ true) × (k : Claim) × Answers claim k × (k.success_flag ≡ some true)))
        × ((quota_usage cut whole quota ≡ success (remain, exceeded)) ↔ (
            (q : Quota) × Answers quota q
            × (remain ≡ whole q.user_remaining q.add_on_remaining)
            × (exceeded ≡ q.is_quota_exceeded)))
  unfolding daily_checkin quota_usage
  daily_checkin-Answers claim b quota remain exceeded =
      let about_claim = with_body cut whole (codes "checkin") in
      let about_quota = with_body cut whole (codes "quota") in
      (
        (
          λ h.
              let (k, answer, done) =
                answered (of_claim cut whole) about_claim (codes "checkin parse: ") claim h in
              let (good, flag) = claim_of_success k.success_flag k.error b done in
              (good, k, answer, flag),
          λ (good, k, answer, flag).
              answers (of_claim cut whole) about_claim (codes "checkin parse: ") claim k answer
                (rw flag (ap success (sym good))),
        ),
        (
          λ h.
              let (q, answer, done) =
                answered (of_quota cut whole) about_quota (codes "quota parse: ") quota h in
              let (sum, flag) = same_pair done in (q, answer, sum, flag),
          λ (q, answer, sum, flag).
              answers (of_quota cut whole) about_quota (codes "quota parse: ") quota q answer
                (rw (sum, flag) refl),
        ),
      )
