-- ===== src/Analytics/Partition.antt =====
-- What the figures of payments of src/analytics/analytics.service.ts add up to.
use subscription_billing_eng.Prelude.{
  ℕ, suc, ◌+◌, ◌≤◌, String, List, [], ◌∷◌, ◌≡◌, refl, arith, ◌==◌, ap, ◌∙◌, map, filter, length,
  Bool, if◌then◌else◌,
}
use subscription_billing_eng.Entities.{
  PaymentStatus, payment_status_code, same_payment_status, Payment,
}
use subscription_billing_eng.World.{World}
use subscription_billing_eng.Analytics.Util.{safe_percent-le, days_ago}
use subscription_billing_eng.Analytics.Groups.{occurrences}
use subscription_billing_eng.Analytics.Rows.{read_rows-occurrences, read_rows-length}
use subscription_billing_eng.Analytics.Payments.{
  PaymentCounts, no_payments, put_payment_status, merchant_payments, get_payment_status_counts,
  count_recovered_payments, get_payment_analytics, has_failed_attempt, get_revenue_totals,
  sum_amounts,
}

-- The field that a status is counted in.
abbrev pub payment_count_of : PaymentStatus → PaymentCounts → ℕ
payment_count_of PaymentStatus.pending c = c.pending
payment_count_of PaymentStatus.succeeded c = c.succeeded
payment_count_of PaymentStatus.failed c = c.failed
payment_count_of PaymentStatus.refunded c = c.refunded

payment_count_of-put :
    (s k : PaymentStatus) (n : ℕ) (c : PaymentCounts)
    → payment_count_of s (put_payment_status k n c)
      ≡ (if payment_status_code k == payment_status_code s then n else payment_count_of s c)
unfolding put_payment_status
payment_count_of-put PaymentStatus.pending k n c = ground arith
payment_count_of-put PaymentStatus.succeeded k n c = ground arith
payment_count_of-put PaymentStatus.failed k n c = ground arith
payment_count_of-put PaymentStatus.refunded k n c = ground arith

total-put :
    (k : PaymentStatus) (n : ℕ) (c : PaymentCounts) → (put_payment_status k n c).total ≡ c.total + n
unfolding put_payment_status
total-put k n c = ground arith

payment_count_of-none : (s : PaymentStatus) → payment_count_of s no_payments ≡ 0
payment_count_of-none PaymentStatus.pending = refl
payment_count_of-none PaymentStatus.succeeded = refl
payment_count_of-none PaymentStatus.failed = refl
payment_count_of-none PaymentStatus.refunded = refl

occurrences-partition :
    (ss : List PaymentStatus)
    → length ss
      ≡ occurrences payment_status_code PaymentStatus.succeeded ss
        + (occurrences payment_status_code PaymentStatus.failed ss
            + (occurrences payment_status_code PaymentStatus.pending ss
                + occurrences payment_status_code PaymentStatus.refunded ss))
unfolding occurrences
occurrences-partition [] = refl
occurrences-partition (s ∷ ss) = ground (arith, occurrences-partition ss)

pub get_payment_status_counts-occurrences :
    (m : String) (w : World) (s : PaymentStatus)
    → payment_count_of s (get_payment_status_counts m w)
      ≡ occurrences payment_status_code s (map (λ p. p.status) (merchant_payments m w))
unfolding get_payment_status_counts
get_payment_status_counts-occurrences m w s =
    read_rows-occurrences put_payment_status payment_status_code (payment_count_of s) s
      (payment_count_of-put s) (map (λ p. p.status) (merchant_payments m w)) no_payments
      (payment_count_of-none s)

length-map_status : (ps : List Payment) → length (map (λ p. p.status) ps) ≡ length ps
length-map_status [] = refl
length-map_status (p ∷ ps) = ap suc (length-map_status ps)

get_payment_status_counts-total :
    (m : String) (w : World)
    → (get_payment_status_counts m w).total ≡ length (merchant_payments m w)
unfolding get_payment_status_counts
get_payment_status_counts-total m w =
    read_rows-length put_payment_status payment_status_code (λ c. c.total) total-put
      (map (λ p. p.status) (merchant_payments m w)) no_payments refl
    ∙ length-map_status (merchant_payments m w)

length-filter {ℓ} : {A : Type ℓ} (p : A → Bool) (xs : List A) → length (filter p xs) ≤ length xs
unfolding filter
length-filter p [] = omega arith
length-filter p (x ∷ xs) = ground (arith, length-filter p xs)

sum_amounts-filter :
    (p : Payment → Bool) (ps : List Payment) → sum_amounts (filter p ps) ≤ sum_amounts ps
unfolding filter sum_amounts
sum_amounts-filter p [] = omega arith
sum_amounts-filter p (x ∷ xs) = ground (arith, sum_amounts-filter p xs)

count_recovered_payments-le : (m : String) (w : World) → count_recovered_payments m w ≤ 10000
unfolding count_recovered_payments
count_recovered_payments-le m w =
    let failing = filter (has_failed_attempt w.attempts) (merchant_payments m w) in
    let is_paid = λ (p : Payment). same_payment_status p.status PaymentStatus.succeeded in
    safe_percent-le (length (filter is_paid failing)) (length failing)
      (length-filter is_paid failing)

-- The payments of a merchant are the succeeded, failed, pending and refunded ones.
payment_statuses-partition :
    (m : String) (w : World)
    → length (merchant_payments m w)
      ≡ (get_payment_status_counts m w).succeeded
        + ((get_payment_status_counts m w).failed
            + ((get_payment_status_counts m w).pending + (get_payment_status_counts m w).refunded))
payment_statuses-partition m w = omega (
  arith,
  length-map_status (merchant_payments m w),
  occurrences-partition (map (λ p. p.status) (merchant_payments m w)),
  get_payment_status_counts-occurrences m w PaymentStatus.succeeded,
  get_payment_status_counts-occurrences m w PaymentStatus.failed,
  get_payment_status_counts-occurrences m w PaymentStatus.pending,
  get_payment_status_counts-occurrences m w PaymentStatus.refunded,
)

revenue_last30_days-le :
    (m : String) (since : ℕ) (w : World)
    → (get_revenue_totals m since w).last30_days ≤ (get_revenue_totals m since w).total
unfolding get_revenue_totals
revenue_last30_days-le m since w = sum_amounts-filter _ _

-- The succeeded, failed, pending and refunded payments of the figures add up to all payments of the
-- merchant, the two rates are at most a hundred percent, and the revenue of thirty days is at most the
-- whole.
pub get_payment_analytics-partition :
    (m : String) (w : World)
    → (length (merchant_payments m w)
        ≡ (get_payment_analytics m w).succeeded_payments
          + ((get_payment_analytics m w).failed_payments
              + ((get_payment_analytics m w).pending_payments
                  + (get_payment_analytics m w).refunded_payments)))
      × ((get_payment_analytics m w).total_payments ≡ length (merchant_payments m w))
      × ((get_payment_analytics m w).success_rate ≤ 10000)
      × ((get_payment_analytics m w).recovery_rate ≤ 10000)
      × ((get_payment_analytics m w).revenue_last30_days
          ≤ (get_payment_analytics m w).total_revenue)
unfolding get_payment_analytics
get_payment_analytics-partition m w = (
  payment_statuses-partition m w,
  get_payment_status_counts-total m w,
  safe_percent-le (get_payment_status_counts m w).succeeded
      ((get_payment_status_counts m w).succeeded + (get_payment_status_counts m w).failed)
      (omega arith),
  count_recovered_payments-le m w,
  revenue_last30_days-le m (days_ago 30 w.now) w,
)
