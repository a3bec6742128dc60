-- ===== src/Analytics/Subscribers.antt =====
-- The figures of subscriptions, customers and invoices in src/analytics/analytics.service.ts.
use subscription_billing_eng.Prelude.{
  ℕ, suc, ◌+◌, ◌*◌, max, Bool, false, String, none, some, List, [], ◌∷◌, ◌&&◌, ◌||◌, map, filter,
  length, str_eq, ltb, leb, if◌then◌else◌,
}
use subscription_billing_eng.Entities.{
  SubscriptionStatus, same_status, InvoiceStatus, same_invoice_status, Subscription, Invoice,
}
use subscription_billing_eng.World.{World}
use subscription_billing_eng.Analytics.Util.{round_quotient, safe_percent}

-- `getCustomerCounts`.
pub record CustomerCounts : Type 0 where
  pub total : ℕ
  pub new_last30_days : ℕ

unfoldable pub get_customer_counts : String → ℕ → World → CustomerCounts
unfolding filter
get_customer_counts m since w = record {
  total = length (filter (λ c. str_eq c.merchant_id m) w.customers);
  new_last30_days =
      length (filter (λ c. str_eq c.merchant_id m && leb since c.created_at) w.customers);
}

unfoldable pub sum_totals : List Invoice → ℕ
sum_totals [] = 0
sum_totals (i ∷ is) = i.total + sum_totals is

-- `getOutstandingInvoices`.
pub record OutstandingInvoices : Type 0 where
  pub count : ℕ
  pub amount : ℕ

unfoldable pub get_outstanding_invoices : String → World → OutstandingInvoices
unfolding filter sum_totals
get_outstanding_invoices m w =
    let rows =
      filter (λ i. str_eq i.merchant_id m && same_invoice_status i.status InvoiceStatus.pending)
        w.invoices in
    record { count = length rows; amount = sum_totals rows }

-- `getDunningStats`.
pub record DunningStats : Type 0 where
  pub in_dunning : ℕ
  pub average_attempts : ℕ
  pub max_attempts : ℕ

unfoldable pub is_dunning_row : String → Subscription → Bool
is_dunning_row m s =
    str_eq s.merchant_id m
    && ltb 0 s.dunning_attempt_count
    && (same_status s.status SubscriptionStatus.past_due
        || same_status s.status SubscriptionStatus.grace_period
        || same_status s.status SubscriptionStatus.suspended)

unfoldable pub sum_attempts : List Subscription → ℕ
sum_attempts [] = 0
sum_attempts (s ∷ ss) = s.dunning_attempt_count + sum_attempts ss

unfoldable pub most_attempts : List Subscription → ℕ
most_attempts [] = 0
most_attempts (s ∷ ss) = max s.dunning_attempt_count (most_attempts ss)

-- `COALESCE(AVG(...), 0)` of whole numbers, rounded at two decimals.
unfoldable pub average_of : ℕ → ℕ → ℕ
unfolding round_quotient
average_of sum count =
    if ltb 0 count then round_quotient (record { num = sum * 100; den = count }) else 0

unfoldable pub get_dunning_stats : String → World → DunningStats
unfolding filter is_dunning_row sum_attempts most_attempts average_of
get_dunning_stats m w =
    let rows = filter (is_dunning_row m) w.subscriptions in
    record {
      in_dunning = length rows;
      average_attempts = average_of (sum_attempts rows) (length rows);
      max_attempts = most_attempts rows;
    }

-- A trial that ended since then and until now.
unfoldable pub is_trial_ended : ℕ → ℕ → Subscription → Bool
is_trial_ended since now s = elim s.trial_ends_at [
  | none ↦ false
  | some t ↦ leb since t && leb t now
]

-- `getTrialConversionRate`.
unfoldable pub get_trial_conversion_rate : String → ℕ → World → ℕ
unfolding filter is_trial_ended safe_percent
get_trial_conversion_rate m since w =
    let started_trials =
      filter (λ s. str_eq s.merchant_id m && is_trial_ended since w.now s) w.subscriptions in
    let converted = filter (λ s. same_status s.status SubscriptionStatus.active) started_trials in
    safe_percent (length converted) (length started_trials)

-- `countCancelledSince`.
unfoldable pub count_cancelled_since : String → ℕ → World → ℕ
unfolding filter
count_cancelled_since m since w = length (
    filter
      (λ s.
        str_eq s.merchant_id m
        && same_status s.status SubscriptionStatus.cancelled
        && elim s.cancelled_at [ none ↦ false | some t ↦ leb since t ])
      w.subscriptions)

unfoldable pub is_running : Subscription → Bool
is_running s =
    same_status s.status SubscriptionStatus.active
    || same_status s.status SubscriptionStatus.trialing

-- `countActiveAtDate`.
unfoldable pub count_active_at_date : String → ℕ → World → ℕ
unfolding filter is_running
count_active_at_date m date w =
    length (
      filter (λ s. str_eq s.merchant_id m && leb s.created_at date && is_running s) w.subscriptions)

-- `COUNT(DISTINCT ...)`.
unfoldable pub is_in : String → List String → Bool
is_in x [] = false
is_in x (y ∷ ys) = str_eq x y || is_in x ys

unfoldable pub count_distinct : List String → ℕ
unfolding is_in
count_distinct [] = 0
count_distinct (x ∷ xs) = if is_in x xs then count_distinct xs else suc (count_distinct xs)

-- `countCustomersWithActiveSubscriptions`.
unfoldable pub count_customers_with_active_subscriptions : String → World → ℕ
unfolding filter count_distinct is_running
count_customers_with_active_subscriptions m w = count_distinct (
    map (λ s. s.customer_id) (filter (λ s. str_eq s.merchant_id m && is_running s) w.subscriptions))
