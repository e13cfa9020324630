-- ===== src/Upstream/Client.antt =====
-- internal/upstream/client.go: the calls of the billing service, as functions of its answer.
pub mod Outcomes
mod Tests
use qoderwork2api.Common.{
  ℕ, Bool, true, false, List, [], ◌∷◌, ◌++◌, Option, none, some, if◌then◌else◌, leb,
}
use qoderwork2api.Common.Int.{ℤ}
use qoderwork2api.Common.Eq.{Text, codes, is_empty}
use qoderwork2api.Common.Strings.{decimal}
use qoderwork2api.Cred.Load.{or_else}

-- What the network makes of a request: no response, a body that breaks off, or a status with a
-- body that is no JSON of the expected form, with the decoder's error, or is.
pub data Reply (A : Type 0) : Type 0 where
  broken : Text → Reply A
  garbled : ℕ → Text → Text → Reply A
  decoded : ℕ → Text → A → Reply A

pub data Result (A : Type 0) : Type 0 where
  success : A → Result A
  failure : Text → Result A

-- The common course of the calls: `refused` is the message for a status of 400 or more, and
-- `unparsed` the beginning of the message about the body.
pub receive : {A : Type 0} → (ℕ → Text → Text) → Text → Reply A → Result A
receive refused unparsed (broken text) = failure text
receive refused unparsed (garbled status raw text) =
    if leb 400 status then failure (refused status raw) else failure (unparsed ++ text)
receive refused unparsed (decoded status raw a) =
    if leb 400 status then failure (refused status raw) else success a

pub then_result : {A B : Type 0} → (A → Result B) → Result A → Result B
then_result f (success a) = f a
then_result f (failure text) = failure text

-- The remaining credits are the bit patterns of two float64.
pub record Quota : Type 0 where
  pub user_remaining : ℕ
  pub add_on_remaining : ℕ
  pub is_quota_exceeded : Bool

pub record Claim : Type 0 where
  pub success_flag : Option Bool
  pub error : Option Text

pub record CheckinStatus : Type 0 where
  pub status : Text
  pub reward_credits : ℤ
  pub next_claim_at : ℤ
  pub current_streak_days : ℤ
  pub total_claim_days : ℤ
  pub total_reward_credits : ℤ
  pub last_claimed_at : ℤ
  pub reward_expires_at : ℤ

pub record Plan : Type 0 where
  pub user_type : Text
  pub plan_tier_name : Text

pub record UserInfo : Type 0 where
  pub id : Text
  pub name : Text
  pub username : Text

abbrev with_status : Text → ℕ → Text
with_status what status = what ++ (codes " http " ++ decimal status)

-- `cut` is the first 200 bytes of a text, and `whole` the int64 of the sum of two float64.
module _ (cut : Text → Text) (whole : ℕ → ℕ → ℤ) where
  abbrev pub with_body : Text → ℕ → Text → Text
  with_body what status raw = with_status what status ++ (codes ": " ++ cut raw)

  abbrev pub of_quota : Quota → Result (ℤ × Bool)
  of_quota q = success (whole q.user_remaining q.add_on_remaining, q.is_quota_exceeded)

  pub quota_usage : Reply Quota → Result (ℤ × Bool)
  unfolding receive then_result
  quota_usage reply =
      then_result of_quota (receive (with_body (codes "quota")) (codes "quota parse: ") reply)

  abbrev claim_error : Option Text → Text
  claim_error none = codes "unknown"
  claim_error (some []) = codes "unknown"
  claim_error (some (c ∷ s)) = c ∷ s

  abbrev pub claim_of : Option Bool → Option Text → Result Bool
  claim_of none e = failure (claim_error e)
  claim_of (some false) e = failure (claim_error e)
  claim_of (some true) e = success true

  abbrev pub of_claim : Claim → Result Bool
  of_claim k = claim_of k.success_flag k.error

  pub daily_checkin : Reply Claim → Result Bool
  unfolding receive then_result
  daily_checkin reply =
      then_result of_claim (receive (with_body (codes "checkin")) (codes "checkin parse: ") reply)

  pub checkin_status : Reply CheckinStatus → Result CheckinStatus
  unfolding receive
  checkin_status reply =
      receive (with_body (codes "checkin status")) (codes "checkin status parse: ") reply

  pub user_plan : Reply Plan → Result Text
  unfolding receive then_result
  user_plan reply =
      then_result (λ p. success (or_else p.plan_tier_name p.user_type))
        (receive (λ status raw. with_status (codes "plan") status) [] reply)

  pub user_info : Reply UserInfo → Result UserInfo
  unfolding receive
  user_info reply = receive (λ status raw. with_status (codes "userinfo") status) [] reply
