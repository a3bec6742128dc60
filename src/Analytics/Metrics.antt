-- ===== src/Analytics/Metrics.antt =====
-- getMetrics, getOverview and getActivity of src/analytics/analytics.service.ts.
use subscription_billing_eng.Prelude.{
  ℕ, zero, suc, ◌+◌, ◌-◌, ◌*◌, String, List, [], ◌∷◌, ◌&&◌, filter, length, str_eq, ltb, take,
  if◌then◌else◌,
}
use subscription_billing_eng.Entities.{SubscriptionStatus, same_status, Subscription}
use subscription_billing_eng.World.{World, EventStore}
use subscription_billing_eng.Analytics.Util.{round_quotient, safe_percent, days_ago}
use subscription_billing_eng.Analytics.Counts.{get_subscription_status_counts}
use subscription_billing_eng.Analytics.Payments.{
  PaymentAnalytics, get_payment_status_counts, get_revenue_totals, count_recovered_payments,
  get_payment_analytics,
}
use subscription_billing_eng.Analytics.Subscribers.{
  get_customer_counts, get_outstanding_invoices, get_dunning_stats, get_trial_conversion_rate,
  count_cancelled_since, count_active_at_date,
}
use subscription_billing_eng.Analytics.Deliveries.{WebhookAnalytics, get_webhook_analytics}
use subscription_billing_eng.Analytics.Recovered.{DunningAnalytics, get_dunning_analytics}
use subscription_billing_eng.Analytics.Plans.{PlanAnalytics, sum_mrr, get_plan_breakdown}
use subscription_billing_eng.Analytics.TopCustomers.{CustomerAnalytics, get_customer_analytics}

pub record AnalyticsMetrics : Type 0 where
  pub mrr : ℕ
  pub arr : ℕ
  pub churn_rate : ℕ
  pub recovery_rate : ℕ
  pub active_subscriptions : ℕ
  pub failed_payments : ℕ
  pub trialing_subscriptions : ℕ
  pub past_due_subscriptions : ℕ
  pub grace_period_subscriptions : ℕ
  pub suspended_subscriptions : ℕ
  pub cancelled_subscriptions : ℕ
  pub pending_subscriptions : ℕ
  pub expired_subscriptions : ℕ
  pub total_subscriptions : ℕ
  pub total_customers : ℕ
  pub new_customers_last30_days : ℕ
  pub total_revenue : ℕ
  pub revenue_last30_days : ℕ
  pub successful_payments : ℕ
  pub payment_success_rate : ℕ
  pub arpu : ℕ
  pub trial_conversion_rate : ℕ
  pub outstanding_invoices : ℕ
  pub outstanding_invoice_amount : ℕ
  pub dunning_subscriptions : ℕ
  pub average_dunning_attempts : ℕ

-- The merchant's active subscriptions.
unfoldable pub active_subscriptions_of_merchant : String → World → List Subscription
unfolding filter
active_subscriptions_of_merchant m w =
    filter (λ s. str_eq s.merchant_id m && same_status s.status SubscriptionStatus.active)
      w.subscriptions

-- `getMetrics`.
unfoldable pub get_metrics : String → World → AnalyticsMetrics
unfolding get_subscription_status_counts active_subscriptions_of_merchant count_cancelled_since
    count_active_at_date get_payment_status_counts get_revenue_totals get_customer_counts
    get_outstanding_invoices get_dunning_stats get_trial_conversion_rate count_recovered_payments
    sum_mrr safe_percent round_quotient
get_metrics m w =
    let since = days_ago 30 w.now in
    let counts = get_subscription_status_counts m w in
    let active = active_subscriptions_of_merchant m w in
    let payments = get_payment_status_counts m w in
    let revenue = get_revenue_totals m since w in
    let customers = get_customer_counts m since w in
    let outstanding = get_outstanding_invoices m w in
    let dunning = get_dunning_stats m w in
    let mrr = sum_mrr w active in
    record {
      mrr = round_quotient mrr;
      arr = round_quotient (record { num = mrr.num * 12; den = mrr.den });
      churn_rate = safe_percent (count_cancelled_since m since w) (count_active_at_date m since w);
      recovery_rate = count_recovered_payments m w;
      active_subscriptions = counts.active;
      failed_payments = payments.failed;
      trialing_subscriptions = counts.trialing;
      past_due_subscriptions = counts.past_due;
      grace_period_subscriptions = counts.grace_period;
      suspended_subscriptions = counts.suspended;
      cancelled_subscriptions = counts.cancelled;
      pending_subscriptions = counts.pending;
      expired_subscriptions = counts.expired;
      total_subscriptions = counts.total;
      total_customers = customers.total;
      new_customers_last30_days = customers.new_last30_days;
      total_revenue = revenue.total;
      revenue_last30_days = revenue.last30_days;
      successful_payments = payments.succeeded;
      payment_success_rate = safe_percent payments.succeeded (payments.succeeded + payments.failed);
      arpu =
          if ltb 0 (length active)
          then round_quotient (record { num = mrr.num; den = mrr.den * length active })
          else 0;
      trial_conversion_rate = get_trial_conversion_rate m since w;
      outstanding_invoices = outstanding.count;
      outstanding_invoice_amount = outstanding.amount;
      dunning_subscriptions = dunning.in_dunning;
      average_dunning_attempts = dunning.average_attempts;
    }

pub record AnalyticsOverview : Type 0 where
  pub metrics : AnalyticsMetrics
  pub payments : PaymentAnalytics
  pub customers : CustomerAnalytics
  pub dunning : DunningAnalytics
  pub webhooks : WebhookAnalytics
  pub plan_breakdown : List PlanAnalytics

-- `getOverview`.
unfoldable pub get_overview : String → World → AnalyticsOverview
unfolding get_metrics get_payment_analytics get_customer_analytics get_dunning_analytics
    get_webhook_analytics get_plan_breakdown
get_overview m w = record {
  metrics = get_metrics m w;
  payments = get_payment_analytics m w;
  customers = get_customer_analytics m w;
  dunning = get_dunning_analytics m w;
  webhooks = get_webhook_analytics m w;
  plan_breakdown = get_plan_breakdown m w;
}

-- `skip`.
unfoldable pub drop_rows : ℕ → List EventStore → List EventStore
drop_rows zero es = es
drop_rows (suc n) [] = []
drop_rows (suc n) (e ∷ es) = drop_rows n es

-- `getActivity` at a page that counts from one: the rows of that page, the newest first, and the
-- number of all.
unfoldable pub get_activity : String → ℕ → ℕ → World → List EventStore × ℕ
unfolding filter drop_rows
get_activity m page limit w =
    let events = filter (λ e. str_eq e.merchant_id m) w.events in
    (take limit (drop_rows ((page - 1) * limit) events), length events)
