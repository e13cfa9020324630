-- ===== src/Upstream/Client/Tests.antt =====
-- The calls of the billing service at concrete answers.
use qoderwork2api.Common.{ℕ, ◌+◌, ◌≡◌, ◌↔◌, refl, true, false, [], none, some}
use qoderwork2api.Common.Int.{ℤ, pos}
use qoderwork2api.Common.Eq.{Text, codes}
use qoderwork2api.Upstream.Client.{
  Reply, broken, garbled, decoded, success, failure, Claim, Quota, receive, then_result,
  quota_usage, daily_checkin, checkin_status, user_plan, user_info,
}
use qoderwork2api.Upstream.Client.Outcomes.{Answers, daily_checkin-Answers}

abbrev whole : Text → Text
whole s = s

abbrev sum : ℕ → ℕ → ℤ
sum a b = pos (a + b)

abbrev claim : Reply Claim
claim = decoded 200 [] (record { success_flag = some true; error = none })

abbrev quota : Reply Quota
quota =
    decoded 200 [] (record { user_remaining = 3; add_on_remaining = 4; is_quota_exceeded = false })

claims_and_credits :
    ((daily_checkin whole sum claim ≡ success true)
      ↔ ((true ≡ true) × (k : Claim) × Answers claim k × (k.success_flag ≡ some true)))
    × ((quota_usage whole sum quota ≡ success (pos 7, false)) ↔ (
        (q : Quota) × Answers quota q
        × (pos 7 ≡ sum q.user_remaining q.add_on_remaining)
        × (false ≡ q.is_quota_exceeded)))
claims_and_credits = daily_checkin-Answers whole sum claim true quota (pos 7) false

status_breaks : checkin_status whole sum (broken (codes "no route")) ≡ failure (codes "no route")
unfolding checkin_status receive
status_breaks = refl

plan_has_a_tier :
    user_plan whole sum (decoded 200 [] (record { user_type = codes "t"; plan_tier_name = [] }))
    ≡ success (codes "t")
unfolding user_plan receive then_result
plan_has_a_tier = refl

info_is_garbled : user_info whole sum (garbled 200 [] (codes "bad")) ≡ failure (codes "bad")
unfolding user_info receive
info_is_garbled = refl
