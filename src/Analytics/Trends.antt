-- ===== src/Analytics/Trends.antt =====
-- getRevenueTrend and getSubscriptionTrend of src/analytics/analytics.service.ts.
use subscription_billing_eng.Prelude.{
  ℕ, ◌+◌, ◌-◌, ◌/◌, ◌%◌, Bool, false, String, Option, none, some, List, ◌&&◌, ◌==◌, map, filter,
  str_eq, ltb, leb, or_else, if◌then◌else◌,
}
use subscription_billing_eng.Prelude.Table.{find}
use subscription_billing_eng.Entities.{PaymentStatus, same_payment_status, Payment}
use subscription_billing_eng.World.{World}
use subscription_billing_eng.Analytics.Groups.{group_counts}
use subscription_billing_eng.Analytics.Payments.{sum_amounts, merchant_payments}
use subscription_billing_eng.Analytics.Calendar.{
  TrendGranularity, TrendRange, day_ms, month_start, month_of, truncate_date, generate_date_buckets,
  resolve_date_range,
}

pub record RevenueTrendPoint : Type 0 where
  pub date : ℕ
  pub revenue : ℕ
  pub payment_count : ℕ

-- A difference of two counts.
pub data NetChange : Type 0 where
  gain loss : ℕ → NetChange

pub record SubscriptionTrendPoint : Type 0 where
  pub date : ℕ
  pub new_subscriptions : ℕ
  pub cancelled_subscriptions : ℕ
  pub net_change : NetChange

-- `DATE_TRUNC` of PostgreSQL, whose weeks start on Monday.
unfoldable pub date_trunc : TrendGranularity → ℕ → ℕ
unfolding month_start month_of
date_trunc TrendGranularity.day t = t / day_ms
date_trunc TrendGranularity.week t = let d = t / day_ms in d - (d + 3) % 7
date_trunc TrendGranularity.month t = month_start (month_of (t / day_ms))

-- A time that is present and within the range.
unfoldable pub in_trend_range : TrendRange → Option ℕ → Bool
in_trend_range range none = false
in_trend_range range (some t) = leb range.from t && leb t range.to

abbrev same_day : ℕ → ℕ
same_day d = d

-- The succeeded payments of the range.
unfoldable pub paid_in_range : String → TrendRange → World → List Payment
unfolding filter in_trend_range merchant_payments
paid_in_range m range w =
    filter
      (λ p. same_payment_status p.status PaymentStatus.succeeded && in_trend_range range p.paid_at)
      (merchant_payments m w)

abbrev paid_bucket : TrendGranularity → Payment → ℕ
paid_bucket g p = date_trunc g (or_else p.paid_at 0)

-- The rows of the query: of each bucket the revenue and the number of payments, as points of the
-- truncated date.
unfoldable pub revenue_points : TrendGranularity → List Payment → List RevenueTrendPoint
unfolding group_counts sum_amounts filter truncate_date date_trunc
revenue_points g paid =
    map
      (λ row. record {
        date = truncate_date row.0 g;
        revenue = sum_amounts (filter (λ p. paid_bucket g p == row.0) paid);
        payment_count = row.1;
      })
      (group_counts same_day (map (paid_bucket g) paid))

-- `bucketMap.get(date) ?? { date, revenue: 0, paymentCount: 0 }`; no two rows have one date.
unfoldable pub point_at : List RevenueTrendPoint → ℕ → RevenueTrendPoint
unfolding find
point_at points date =
    or_else (find (λ p. p.date == date) points)
      (record { date = date; revenue = 0; payment_count = 0 })

-- `getRevenueTrend`.
unfoldable pub get_revenue_trend :
    String
    → Option (Option ℕ)
    → Option (Option ℕ)
    → TrendGranularity
    → World
    → List RevenueTrendPoint
unfolding resolve_date_range paid_in_range revenue_points point_at generate_date_buckets
get_revenue_trend m from to g w =
    let range = resolve_date_range from to w.now in
    map (point_at (revenue_points g (paid_in_range m range w)))
      (generate_date_buckets range.from range.to g)

-- The counts by the truncated date, of the times that are present and within the range.
unfoldable pub bucket_counts : TrendGranularity → TrendRange → List (Option ℕ) → List (ℕ × ℕ)
unfolding group_counts filter in_trend_range date_trunc truncate_date
bucket_counts g range times =
    map (λ row. (truncate_date row.0 g, row.1))
      (group_counts same_day
        (map (λ t. date_trunc g (or_else t 0)) (filter (in_trend_range range) times)))

unfoldable pub count_at : List (ℕ × ℕ) → ℕ → ℕ
unfolding find
count_at counts date = elim (find (λ row. row.0 == date) counts) [ none ↦ 0 | some row ↦ row.1 ]

abbrev pub net_of : ℕ → ℕ → NetChange
net_of created cancelled =
    if ltb created cancelled
    then NetChange.loss (cancelled - created)
    else NetChange.gain (created - cancelled)

-- `getSubscriptionTrend`.
unfoldable pub get_subscription_trend :
    String
    → Option (Option ℕ)
    → Option (Option ℕ)
    → TrendGranularity
    → World
    → List SubscriptionTrendPoint
unfolding resolve_date_range bucket_counts count_at generate_date_buckets filter
get_subscription_trend m from to g w =
    let range = resolve_date_range from to w.now in
    let own = filter (λ s. str_eq s.merchant_id m) w.subscriptions in
    let created = bucket_counts g range (map (λ s. some s.created_at) own) in
    let cancelled = bucket_counts g range (map (λ s. s.cancelled_at) own) in
    map
      (λ date. record {
        date = date;
        new_subscriptions = count_at created date;
        cancelled_subscriptions = count_at cancelled date;
        net_change = net_of (count_at created date) (count_at cancelled date);
      })
      (generate_date_buckets range.from range.to g)
