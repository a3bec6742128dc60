-- ===== src/Billing/Proration.antt =====
-- Proration of a plan change: src/billing/proration.service.ts. Amounts are hundredths and times are
-- milliseconds. The source computes in floating point; the model computes the same quotients
-- exactly, and rounds where the source rounds. `Math.round` rounds a half up.
pub mod Bounds
use subscription_billing_eng.Prelude.{
  ℕ, ◌+◌, ◌-◌, ◌*◌, ◌/◌, ◌%◌, max, Option, none, some, or_else, leb, ltb, if◌then◌else◌,
}
use subscription_billing_eng.Entities.{PlanInterval}

pub record ProrationInput : Type 0 where
  pub current_plan_amount : ℕ
  pub new_plan_amount : ℕ
  pub period_start : ℕ
  pub period_end : ℕ
  pub change_date : ℕ

-- A signed amount of hundredths: `credit` is what the customer gets back.
pub data NetAmount : Type 0 where
  charge credit : ℕ → NetAmount

abbrev pub amount_of : NetAmount → ℕ
amount_of (NetAmount.charge n) = n
amount_of (NetAmount.credit n) = n

pub record ProrationResult : Type 0 where
  pub credit_amount : ℕ
  pub charge_amount : ℕ
  pub net_amount : NetAmount
  pub remaining_days : ℕ
  pub total_days : ℕ

abbrev pub day_ms : ℕ
day_ms = 86400000

-- `Math.ceil(ms / dayMs)`, for a number of milliseconds that is not negative.
unfoldable pub ceil_days : ℕ → ℕ
ceil_days ms = (ms + (day_ms - 1)) / day_ms

-- `getPeriodFraction`. A difference of times that is negative counts as zero: the source's `max`
-- with 1 and with 0 makes it so.
unfoldable pub total_days_of : ℕ → ℕ → ℕ
unfolding ceil_days
total_days_of period_start period_end = max (ceil_days (period_end - period_start)) 1

unfoldable pub remaining_days_of : ℕ → ℕ → ℕ
unfolding ceil_days
remaining_days_of period_end change_date = ceil_days (period_end - change_date)

-- `round` at a quotient of hundredths `n / d` that is not negative: the nearest number, a half up.
unfoldable pub round : ℕ → ℕ → ℕ
round n d = (2 * n + d) / (2 * d)

-- `round` at `-(n / d)`: a half goes up here too, that is towards zero.
unfoldable pub round_negative : ℕ → ℕ → ℕ
round_negative n d = (2 * n + (d - 1)) / (2 * d)

-- `calculateUpgrade`: `(amount / totalDays) * remainingDays` is the quotient of
-- `amount * remainingDays` by `totalDays`.
unfoldable pub calculate_upgrade : ProrationInput → ProrationResult
unfolding total_days_of remaining_days_of round
calculate_upgrade i =
    let total = total_days_of i.period_start i.period_end in
    let remaining = remaining_days_of i.period_end i.change_date in
    let unused_credit = i.current_plan_amount * remaining in
    let new_plan_charge = i.new_plan_amount * remaining in
    record {
      credit_amount = round unused_credit total;
      charge_amount = round new_plan_charge total;
      net_amount = NetAmount.charge (round (new_plan_charge - unused_credit) total);
      remaining_days = remaining;
      total_days = total;
    }

-- `calculateDowngrade`.
unfoldable pub calculate_downgrade : ProrationInput → ProrationResult
unfolding total_days_of remaining_days_of round round_negative
calculate_downgrade i =
    let total = total_days_of i.period_start i.period_end in
    let remaining = remaining_days_of i.period_end i.change_date in
    let unused_credit = i.current_plan_amount * remaining in
    let new_plan_charge = i.new_plan_amount * remaining in
    record {
      credit_amount = round unused_credit total;
      charge_amount = round new_plan_charge total;
      net_amount = NetAmount.credit (round_negative (unused_credit - new_plan_charge) total);
      remaining_days = remaining;
      total_days = total;
    }

-- `getIntervalDays`.
unfoldable pub get_interval_days : PlanInterval → Option ℕ → ℕ
get_interval_days PlanInterval.monthly custom_days = 30
get_interval_days PlanInterval.quarterly custom_days = 90
get_interval_days PlanInterval.yearly custom_days = 365
get_interval_days PlanInterval.custom custom_days = or_else custom_days 30
