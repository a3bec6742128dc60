-- ===== src/Billing/Proration/Bounds.antt =====
-- Proofs on the amounts of src/billing/proration.service.ts.
use native.Mathlib.Nat.{mul-le-mul_left, mul-le-mul_right}
use native.Mathlib.Decide.{dec_lt}
use subscription_billing_eng.Prelude.{ℕ, ◌+◌, ◌-◌, ◌*◌, ◌≤◌, ◌<◌, arith}
use subscription_billing_eng.Billing.Proration.{
  ProrationInput, amount_of, ceil_days, total_days_of, remaining_days_of, round, round_negative,
  calculate_upgrade, calculate_downgrade,
}

-- `round` is the nearest whole number: within half a unit of the quotient.
pub round_near :
    (n d : ℕ) → 0 < d → (2 * (round n d * d) ≤ 2 * n + d) × (2 * n < 2 * (round n d * d) + d)
unfolding round
round_near n d h = grind arith

round_mono : (m n d : ℕ) → 0 < d → m ≤ n → round m d ≤ round n d
unfolding round
round_mono m n d h le = grind arith

-- A whole number of units rounds to itself, and less does not round to more.
pub round-le : (a n d : ℕ) → 0 < d → n ≤ a * d → round n d ≤ a
unfolding round
round-le a n d h le = grind arith

total_days_pos : (a b : ℕ) → 0 < total_days_of a b
unfolding total_days_of
total_days_pos a b = omega arith

remaining_days-le :
    (start end' change : ℕ)
    → start ≤ change
    → remaining_days_of end' change ≤ total_days_of start end'
unfolding total_days_of remaining_days_of ceil_days
remaining_days-le start end' change h = omega arith

-- A number that is within half a unit of a sum is at most one above the rounded parts.
near_sum-le :
    (x y z n m d : ℕ)
    → 0 < d
    → 2 * (x * d) ≤ 2 * (n + m) + d
    → 2 * n < 2 * (y * d) + d
    → 2 * m < 2 * (z * d) + d
    → x ≤ y + z + 1
near_sum-le x y z n m d pos hx hy hz = elim (dec_lt (y + z + 1) x) [
  | yes p ↦ absurd (omega (arith, mul-le-mul_right d p))
  | no q ↦ omega arith
]

near_sum-ge :
    (x y z n m d : ℕ)
    → 0 < d
    → 2 * (n + m) < 2 * (x * d) + d
    → 2 * (y * d) ≤ 2 * n + d
    → 2 * (z * d) ≤ 2 * m + d
    → y + z ≤ x + 1
near_sum-ge x y z n m d pos hx hy hz = elim (dec_lt (x + 1) (y + z)) [
  | yes p ↦ absurd (omega (arith, mul-le-mul_right d p))
  | no q ↦ omega arith
]

-- The difference of two rounded numbers is within one of the rounded difference.
round_sub :
    (a b d : ℕ)
    → 0 < d
    → b ≤ a
    → (round a d ≤ round b d + round (a - b) d + 1) × (round b d + round (a - b) d ≤ round a d + 1)
round_sub a b d h le =
    let (al, au) = round_near a d h in
    let (bl, bu) = round_near b d h in
    let (cl, cu) = round_near (a - b) d h in
    (
      near_sum-le (round a d) (round b d) (round (a - b) d) b (a - b) d h (omega arith) bu cu,
      near_sum-ge (round a d) (round b d) (round (a - b) d) b (a - b) d h (omega arith) bl cl,
    )

-- Rounding a negative quotient differs from rounding its absolute value by at most one, downwards.
round_negative_near :
    (n d : ℕ) → 0 < d → (round_negative n d ≤ round n d) × (round n d ≤ round_negative n d + 1)
unfolding round round_negative
round_negative_near n d h = grind arith

-- A change of plan within the period: the credit is at most the price of the old plan, and the charge
-- and the net amount are at most the price of the new one.
upgrade_bounds :
    (i : ProrationInput)
    → i.period_start ≤ i.change_date
    → ((calculate_upgrade i).credit_amount ≤ i.current_plan_amount)
      × ((calculate_upgrade i).charge_amount ≤ i.new_plan_amount)
      × (amount_of (calculate_upgrade i).net_amount ≤ i.new_plan_amount)
unfolding calculate_upgrade
upgrade_bounds i h = (
  round-le i.current_plan_amount _ _ pos (mul-le-mul_left i.current_plan_amount days),
  round-le i.new_plan_amount _ _ pos (mul-le-mul_left i.new_plan_amount days),
  round-le i.new_plan_amount _ _ pos (omega (arith, mul-le-mul_left i.new_plan_amount days)),
)
  where
    pos : 0 < total_days_of i.period_start i.period_end
    pos = total_days_pos i.period_start i.period_end

    days : remaining_days_of i.period_end i.change_date ≤ total_days_of i.period_start i.period_end
    days = remaining_days-le i.period_start i.period_end i.change_date h

-- The net amount of an upgrade agrees with its charge less its credit to within a hundredth, which is
-- what rounding the three separately can cost.
pub upgrade_net :
    (i : ProrationInput)
    → i.current_plan_amount ≤ i.new_plan_amount
    → let r = calculate_upgrade i in
      (r.charge_amount ≤ r.credit_amount + amount_of r.net_amount + 1)
      × (r.credit_amount + amount_of r.net_amount ≤ r.charge_amount + 1)
unfolding calculate_upgrade
upgrade_net i h =
    round_sub _ _ _ (total_days_pos i.period_start i.period_end)
      (mul-le-mul_right (remaining_days_of i.period_end i.change_date) h)

-- The net credit of a downgrade agrees with its credit less its charge to within two hundredths: the
-- rounding of a negative amount may drop one more.
downgrade_net :
    (i : ProrationInput)
    → i.new_plan_amount ≤ i.current_plan_amount
    → let r = calculate_downgrade i in
      (r.credit_amount ≤ r.charge_amount + amount_of r.net_amount + 2)
      × (r.charge_amount + amount_of r.net_amount ≤ r.credit_amount + 1)
unfolding calculate_downgrade
downgrade_net i h = omega (
  arith,
  round_sub _ _ _ (total_days_pos i.period_start i.period_end)
      (mul-le-mul_right (remaining_days_of i.period_end i.change_date) h),
  round_negative_near
      (i.current_plan_amount * remaining_days_of i.period_end i.change_date
        - i.new_plan_amount * remaining_days_of i.period_end i.change_date)
      (total_days_of i.period_start i.period_end) (total_days_pos i.period_start i.period_end),
)
