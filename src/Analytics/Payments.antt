-- ===== src/Analytics/Payments.antt =====
-- The figures of payments in src/analytics/analytics.service.ts: getPaymentStatusCounts,
-- getRevenueTotals, getPaymentAttemptCounts, countRecoveredPayments and getPaymentAnalytics.
use subscription_billing_eng.Prelude.{
  ℕ, ◌+◌, Bool, true, false, String, Option, none, some, List, [], ◌∷◌, ◌&&◌, map, filter, length,
  str_eq, ltb, leb, if◌then◌else◌,
}
use subscription_billing_eng.Prelude.Table.{find}
use subscription_billing_eng.Entities.{
  PaymentStatus, payment_status_code, same_payment_status, Payment, PaymentAttempt,
}
use subscription_billing_eng.World.{World}
use subscription_billing_eng.Analytics.Util.{round_quotient, safe_percent, days_ago}
use subscription_billing_eng.Analytics.Groups.{group_counts}
use subscription_billing_eng.Analytics.Rows.{read_rows}

pub record PaymentCounts : Type 0 where
  pub total : ℕ
  pub succeeded : ℕ
  pub failed : ℕ
  pub pending : ℕ
  pub refunded : ℕ

abbrev pub no_payments : PaymentCounts
no_payments = record { total = 0; succeeded = 0; failed = 0; pending = 0; refunded = 0 }

-- The `switch` on a row of the query, after the total was raised.
unfoldable pub put_payment_status : PaymentStatus → ℕ → PaymentCounts → PaymentCounts
put_payment_status PaymentStatus.succeeded n c = record c { succeeded = n; total = c.total + n }
put_payment_status PaymentStatus.failed n c = record c { failed = n; total = c.total + n }
put_payment_status PaymentStatus.pending n c = record c { pending = n; total = c.total + n }
put_payment_status PaymentStatus.refunded n c = record c { refunded = n; total = c.total + n }

-- The payments of the merchant.
unfoldable pub merchant_payments : String → World → List Payment
unfolding filter
merchant_payments m w = filter (λ p. str_eq p.merchant_id m) w.payments

-- `getPaymentStatusCounts`.
unfoldable pub get_payment_status_counts : String → World → PaymentCounts
unfolding group_counts put_payment_status read_rows merchant_payments
get_payment_status_counts m w =
    read_rows put_payment_status
      (group_counts payment_status_code (map (λ p. p.status) (merchant_payments m w))) no_payments

unfoldable pub sum_amounts : List Payment → ℕ
sum_amounts [] = 0
sum_amounts (p ∷ ps) = p.amount + sum_amounts ps

pub record RevenueTotals : Type 0 where
  pub total : ℕ
  pub last30_days : ℕ

-- `p."paidAt" >= :since`, which an absent time does not satisfy.
abbrev is_since : ℕ → Option ℕ → Bool
is_since since none = false
is_since since (some t) = leb since t

-- `getRevenueTotals`; a sum of amounts has two decimals already.
unfoldable pub get_revenue_totals : String → ℕ → World → RevenueTotals
unfolding filter sum_amounts merchant_payments
get_revenue_totals m since w =
    let paid =
      filter (λ p. same_payment_status p.status PaymentStatus.succeeded) (merchant_payments m w) in
    record {
      total = sum_amounts paid;
      last30_days = sum_amounts (filter (λ p. is_since since p.paid_at) paid);
    }

pub record AttemptCounts : Type 0 where
  pub total : ℕ
  pub failed : ℕ

unfoldable pub put_attempt_status : PaymentStatus → ℕ → AttemptCounts → AttemptCounts
put_attempt_status s n c = record {
  total = c.total + n;
  failed = if same_payment_status s PaymentStatus.failed then n else c.failed;
}

-- An attempt of a payment of the merchant: `innerJoin('a.payment', 'p')`.
unfoldable pub is_attempt_of : String → World → PaymentAttempt → Bool
unfolding find merchant_payments
is_attempt_of m w a = elim (find (λ p. str_eq p.id a.payment_id) (merchant_payments m w)) [
  | some _ ↦ true
  | none ↦ false
]

-- `getPaymentAttemptCounts`.
unfoldable pub get_payment_attempt_counts : String → World → AttemptCounts
unfolding group_counts put_attempt_status read_rows filter is_attempt_of
get_payment_attempt_counts m w =
    read_rows put_attempt_status
      (group_counts payment_status_code
        (map (λ a. a.status) (filter (is_attempt_of m w) w.attempts)))
      (record { total = 0; failed = 0 })

-- `EXISTS` a failed attempt of the payment.
unfoldable pub has_failed_attempt : List PaymentAttempt → Payment → Bool
unfolding find
has_failed_attempt attempts p =
    elim (find (λ a. str_eq a.payment_id p.id && same_payment_status a.status PaymentStatus.failed)
      attempts) [ some _ ↦ true | none ↦ false ]

-- `countRecoveredPayments`: the share of the payments with a failed attempt that succeeded. The query
-- counts distinct payments of attempts; one with a failed attempt is among them.
unfoldable pub count_recovered_payments : String → World → ℕ
unfolding filter has_failed_attempt merchant_payments safe_percent
count_recovered_payments m w =
    let failed_with_attempts = filter (has_failed_attempt w.attempts) (merchant_payments m w) in
    safe_percent
      (length
        (filter (λ p. same_payment_status p.status PaymentStatus.succeeded) failed_with_attempts))
      (length failed_with_attempts)

pub record PaymentAnalytics : Type 0 where
  pub total_payments : ℕ
  pub succeeded_payments : ℕ
  pub failed_payments : ℕ
  pub pending_payments : ℕ
  pub refunded_payments : ℕ
  pub success_rate : ℕ
  pub recovery_rate : ℕ
  pub total_revenue : ℕ
  pub revenue_last30_days : ℕ
  pub average_payment_amount : ℕ
  pub total_attempts : ℕ
  pub failed_attempts : ℕ

-- `getPaymentAnalytics`.
unfoldable pub get_payment_analytics : String → World → PaymentAnalytics
unfolding get_payment_status_counts get_revenue_totals get_payment_attempt_counts
    count_recovered_payments safe_percent round_quotient
get_payment_analytics m w =
    let counts = get_payment_status_counts m w in
    let revenue = get_revenue_totals m (days_ago 30 w.now) w in
    let attempts = get_payment_attempt_counts m w in
    record {
      total_payments = counts.total;
      succeeded_payments = counts.succeeded;
      failed_payments = counts.failed;
      pending_payments = counts.pending;
      refunded_payments = counts.refunded;
      success_rate = safe_percent counts.succeeded (counts.succeeded + counts.failed);
      recovery_rate = count_recovered_payments m w;
      total_revenue = revenue.total;
      revenue_last30_days = revenue.last30_days;
      average_payment_amount =
          if ltb 0 counts.succeeded
          then round_quotient (record { num = revenue.total; den = counts.succeeded })
          else 0;
      total_attempts = attempts.total;
      failed_attempts = attempts.failed;
    }
