-- ===== src/Analytics/Plans.antt =====
-- sumMrr and getPlanBreakdown of src/analytics/analytics.service.ts.
use mathlib.Core.List.{reverse}
use subscription_billing_eng.Prelude.{
  ℕ, ◌+◌, ◌*◌, String, Option, none, some, List, [], ◌∷◌, ◌&&◌, map, filter, length, str_eq, leb,
  if◌then◌else◌,
}
use subscription_billing_eng.Prelude.Table.{find}
use subscription_billing_eng.Entities.{
  SubscriptionStatus, same_status, Subscription, Plan, PlanInterval,
}
use subscription_billing_eng.World.{World}
use subscription_billing_eng.Plans.{is_live}
use subscription_billing_eng.Analytics.Util.{
  Quotient, whole, add_quotients, round_quotient, normalize_to_monthly, safe_percent,
}

-- The plan of a subscription, absent where it was removed.
unfoldable pub plan_of : World → Subscription → Option Plan
unfolding find
plan_of w s = find (λ p. is_live p && str_eq p.id s.plan_id) w.plans

-- `sumMrr`: exact, in hundredths.
unfoldable pub sum_mrr : World → List Subscription → Quotient
unfolding plan_of normalize_to_monthly add_quotients
sum_mrr w [] = whole 0
sum_mrr w (s ∷ ss) = elim (plan_of w s) [
  | none ↦ sum_mrr w ss
  | some p ↦
      add_quotients (normalize_to_monthly p.amount p.interval p.custom_interval_days) (sum_mrr w ss)
]

pub record PlanAnalytics : Type 0 where
  pub plan_id : String
  pub plan_name : String
  pub amount : ℕ
  pub currency : String
  pub interval : PlanInterval
  pub active_subscriptions : ℕ
  pub trialing_subscriptions : ℕ
  pub mrr : ℕ
  pub mrr_share_percent : ℕ

-- The entry of `countByPlan` for a plan and a status.
unfoldable pub count_by_plan : String → World → String → SubscriptionStatus → ℕ
unfolding filter
count_by_plan m w plan_id status = length (
    filter (λ s. str_eq s.merchant_id m && str_eq s.plan_id plan_id && same_status s.status status)
      w.subscriptions)

-- An entry of the breakdown, before its share is known.
unfoldable pub plan_entry : String → World → Plan → PlanAnalytics
unfolding count_by_plan round_quotient normalize_to_monthly
plan_entry m w p =
    let active = count_by_plan m w p.id SubscriptionStatus.active in
    let monthly = normalize_to_monthly p.amount p.interval p.custom_interval_days in
    record {
      plan_id = p.id;
      plan_name = p.name;
      amount = p.amount;
      currency = p.currency;
      interval = p.interval;
      active_subscriptions = active;
      trialing_subscriptions = count_by_plan m w p.id SubscriptionStatus.trialing;
      mrr = round_quotient (record { num = monthly.num * active; den = monthly.den });
      mrr_share_percent = 0;
    }

-- `breakdown.reduce(...)`.
unfoldable pub total_mrr : List PlanAnalytics → ℕ
total_mrr [] = 0
total_mrr (e ∷ es) = e.mrr + total_mrr es

unfoldable pub with_share : ℕ → PlanAnalytics → PlanAnalytics
unfolding safe_percent
with_share total e = record e { mrr_share_percent = safe_percent e.mrr total }

-- A stable sort by falling revenue.
unfoldable pub insert_by_mrr : PlanAnalytics → List PlanAnalytics → List PlanAnalytics
insert_by_mrr e [] = e ∷ []
insert_by_mrr e (f ∷ fs) = if leb f.mrr e.mrr then e ∷ f ∷ fs else f ∷ insert_by_mrr e fs

unfoldable pub sort_by_mrr : List PlanAnalytics → List PlanAnalytics
unfolding insert_by_mrr
sort_by_mrr [] = []
sort_by_mrr (e ∷ es) = insert_by_mrr e (sort_by_mrr es)

-- The merchant's plans, the oldest first.
unfoldable pub merchant_plans : String → World → List Plan
unfolding filter
merchant_plans m w = reverse (filter (λ p. is_live p && str_eq p.merchant_id m) w.plans)

-- `getPlanBreakdown`; where there is no plan the rest has nothing to do.
unfoldable pub get_plan_breakdown : String → World → List PlanAnalytics
unfolding plan_entry total_mrr with_share sort_by_mrr merchant_plans
get_plan_breakdown m w =
    let breakdown = map (plan_entry m w) (merchant_plans m w) in
    sort_by_mrr (map (with_share (total_mrr breakdown)) breakdown)
