-- ===== src/Analytics/Util.antt =====
-- src/analytics/analytics.util.ts. An amount is a number of hundredths and a percentage a number of
-- hundredths of a percent; quotients are exact where the source computes in floating point.
use subscription_billing_eng.Prelude.{
  ℕ, ◌+◌, ◌-◌, ◌*◌, ◌≤◌, Option, or_else, arith, ltb, if◌then◌else◌,
}
use subscription_billing_eng.Entities.{PlanInterval}
use subscription_billing_eng.Billing.Proration.{round}
use subscription_billing_eng.Billing.Proration.Bounds.{round-le}
use native.Mathlib.Decide.{dec_lt}

-- A quotient that is not negative.
pub record Quotient : Type 0 where
  pub num : ℕ
  pub den : ℕ

abbrev pub whole : ℕ → Quotient
whole n = record { num = n; den = 1 }

unfoldable pub add_quotients : Quotient → Quotient → Quotient
add_quotients a b = record { num = a.num * b.den + b.num * a.den; den = a.den * b.den }

-- `round` at two decimals.
unfoldable pub round_quotient : Quotient → ℕ
unfolding round
round_quotient q = round q.num q.den

-- `normalizeToMonthly`.
unfoldable pub normalize_to_monthly : ℕ → PlanInterval → Option ℕ → Quotient
normalize_to_monthly amount PlanInterval.monthly days = whole amount
normalize_to_monthly amount PlanInterval.quarterly days = record { num = amount; den = 3 }
normalize_to_monthly amount PlanInterval.yearly days = record { num = amount; den = 12 }
normalize_to_monthly amount PlanInterval.custom days = record {
  num = amount * 30;
  den = or_else days 30;
}

-- `safePercent`.
unfoldable pub safe_percent : ℕ → ℕ → ℕ
safe_percent numerator denominator =
    if ltb 0 denominator then round (numerator * 10000) denominator else 0

-- `daysAgo`: a time before the epoch counts as the epoch.
abbrev pub days_ago : ℕ → ℕ → ℕ
days_ago days now = now - days * 86400000

-- A part of a whole is at most a hundred percent.
pub safe_percent-le : (n d : ℕ) → n ≤ d → safe_percent n d ≤ 10000
unfolding safe_percent
safe_percent-le n d h = elim (dec_lt 0 d) [
  | yes pos ↦ ground (arith, round-le 10000 (n * 10000) d pos (omega arith))
  | no zero_d ↦ ground arith
]
