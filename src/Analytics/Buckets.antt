-- ===== src/Analytics/Buckets.antt =====
-- Proofs on `generateDateBuckets` of src/analytics/analytics.util.ts.
use native.Mathlib.Decide.{dec_lt}
use subscription_billing_eng.Prelude.{
  ℕ, zero, suc, ◌+◌, ◌-◌, ◌/◌, ◌≤◌, ◌<◌, Bool, true, false, List, [], ◌∷◌, ◌≡◌, inl, inr, refl,
  arith, ◌==◌, ◌||◌, ltb, Bool-cases,
}
use subscription_billing_eng.Analytics.Calendar.{
  TrendGranularity, day_ms, month_length, month_start, locate_month, month_of, truncate_date,
  next_cursor, bucket_loop, generate_date_buckets,
}

month_length-pos : (k : ℕ) → 28 ≤ month_length k
unfolding month_length
month_length-pos k = ground arith

-- The month that is located starts on the day or before it.
locate_month-le : (fuel k rest : ℕ) → month_start (locate_month fuel k rest) ≤ month_start k + rest
unfolding locate_month month_start
locate_month-le zero k rest = omega arith
locate_month-le (suc fuel) k rest = elim (Bool-cases (ltb rest (month_length k))) [
  | inl here ↦ rw (locate_month, here) (omega arith)
  | inr later ↦
      let le : month_length k ≤ rest = ground (arith, later) in
      rw (locate_month, later)
        (omega (arith, locate_month-le fuel (suc k) (rest - month_length k), le))
]

month_of-le : (d : ℕ) → month_start (month_of d) ≤ d
unfolding month_of month_start
month_of-le d = omega (arith, locate_month-le (suc d) 0 d)

-- Every step goes on.
next_cursor-lt : (g : TrendGranularity) (d : ℕ) → d < next_cursor g d
unfolding next_cursor month_start
next_cursor-lt TrendGranularity.day d = omega arith
next_cursor-lt TrendGranularity.week d = omega arith
next_cursor-lt TrendGranularity.month d =
    omega (arith, month_of-le d, month_length-pos (month_of d))

-- Past the end the loop stops.
bucket_loop-past :
    (n : ℕ) (g : TrendGranularity) (cursor to : ℕ)
    → to / day_ms < cursor
    → bucket_loop n g cursor to ≡ []
unfolding bucket_loop
bucket_loop-past zero g cursor to h = refl
bucket_loop-past (suc n) g cursor to h = ground (arith, h)

-- More fuel than there are days from the cursor to the end changes nothing.
bucket_loop-enough :
    (fuel n : ℕ) (g : TrendGranularity) (cursor to : ℕ)
    → fuel ≤ n
    → to / day_ms < cursor + fuel
    → bucket_loop n g cursor to ≡ bucket_loop fuel g cursor to
unfolding bucket_loop
bucket_loop-enough zero n g cursor to le h = bucket_loop-past n g cursor to (omega (arith, h))
bucket_loop-enough (suc fuel) zero g cursor to le h = absurd (omega (arith, le))
bucket_loop-enough (suc fuel) (suc n) g cursor to le h =
    let step = next_cursor-lt g cursor in
    let rest =
      bucket_loop-enough fuel n g (next_cursor g cursor) to (omega (arith, le))
        (omega (arith, h, step)) in
    rw rest refl

-- The loop of the buckets ends, at every granularity and range, within the fuel that it is given: any
-- more of it makes the same buckets.
pub generate_date_buckets_ends :
    (from to n : ℕ) (g : TrendGranularity)
    → suc (suc (to / day_ms)) ≤ n
    → bucket_loop n g (from / day_ms) to ≡ generate_date_buckets from to g
unfolding generate_date_buckets
generate_date_buckets_ends from to n g le =
    bucket_loop-enough (suc (suc (to / day_ms))) n g (from / day_ms) to le (omega arith)

-- A day stands among the buckets.
abbrev pub is_bucket : ℕ → List ℕ → Bool
is_bucket d [] = false
is_bucket d (b ∷ bs) = b == d || is_bucket d bs

day_loop-is_bucket :
    (fuel cursor to d : ℕ)
    → cursor ≤ d
    → d ≤ to / day_ms
    → d < cursor + fuel
    → is_bucket d (bucket_loop fuel TrendGranularity.day cursor to) ≡ true
unfolding bucket_loop truncate_date next_cursor
day_loop-is_bucket zero cursor to d le end h = absurd (omega (arith, le, h))
day_loop-is_bucket (suc fuel) cursor to d le end h = elim (dec_lt cursor d) [
  | yes before ↦ ground (
    arith,
    le,
    end,
    before,
    day_loop-is_bucket fuel (cursor + 1) to d (omega (arith, before)) end (omega (arith, h)),
  )
  | no there ↦ ground (arith, le, end, there)
]

-- By days, every day of the range has its bucket.
pub generate_date_buckets-day :
    (from to d : ℕ)
    → from / day_ms ≤ d
    → d ≤ to / day_ms
    → is_bucket d (generate_date_buckets from to TrendGranularity.day) ≡ true
unfolding generate_date_buckets
generate_date_buckets-day from to d after before =
    day_loop-is_bucket (suc (suc (to / day_ms))) (from / day_ms) to d after before
      (omega (arith, before))
