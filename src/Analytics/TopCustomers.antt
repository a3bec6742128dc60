-- ===== src/Analytics/TopCustomers.antt =====
-- getTopCustomers and getCustomerAnalytics of src/analytics/analytics.service.ts.
use subscription_billing_eng.Prelude.{
  ℕ, Bool, false, String, none, some, List, [], ◌∷◌, ◌&&◌, filter, length, str_eq, ltb, leb, take,
  if◌then◌else◌,
}
use subscription_billing_eng.Prelude.Table.{find}
use subscription_billing_eng.Entities.{
  SubscriptionStatus, same_status, PaymentStatus, same_payment_status, Customer, Payment,
}
use subscription_billing_eng.World.{World}
use subscription_billing_eng.Analytics.Util.{round_quotient, days_ago}
use subscription_billing_eng.Analytics.Payments.{sum_amounts, merchant_payments, get_revenue_totals}
use subscription_billing_eng.Analytics.Subscribers.{
  get_customer_counts, count_customers_with_active_subscriptions,
}

pub record TopCustomer : Type 0 where
  pub customer_id : String
  pub customer_name : String
  pub customer_email : String
  pub total_revenue : ℕ
  pub payment_count : ℕ
  pub active_subscriptions : ℕ

-- A succeeded payment whose invoice is the customer's.
unfoldable pub is_paid_by : World → Customer → Payment → Bool
unfolding find
is_paid_by w c p =
    same_payment_status p.status PaymentStatus.succeeded
    && elim (find (λ i. str_eq i.id p.invoice_id) w.invoices) [
      | none ↦ false
      | some i ↦ str_eq i.customer_id c.id
    ]

-- The entry of `activeSubMap`, zero where there is none.
unfoldable pub active_subscriptions_of : String → World → String → ℕ
unfolding filter
active_subscriptions_of m w customer_id = length (
    filter
      (λ s.
        str_eq s.merchant_id m
        && str_eq s.customer_id customer_id
        && same_status s.status SubscriptionStatus.active)
      w.subscriptions)

-- The group of a customer, absent where no payment joins with it.
unfoldable pub revenue_rows : String → World → List Customer → List TopCustomer
unfolding filter is_paid_by sum_amounts merchant_payments active_subscriptions_of
revenue_rows m w [] = []
revenue_rows m w (c ∷ cs) =
    let paid = filter (is_paid_by w c) (merchant_payments m w) in
    let rest = revenue_rows m w cs in
    if ltb 0 (length paid)
    then record {
      customer_id = c.id;
      customer_name = c.name;
      customer_email = c.email;
      total_revenue = sum_amounts paid;
      payment_count = length paid;
      active_subscriptions = active_subscriptions_of m w c.id;
    }
      ∷ rest
    else rest

-- `orderBy('totalRevenue', 'DESC')`.
unfoldable pub insert_by_revenue : TopCustomer → List TopCustomer → List TopCustomer
insert_by_revenue r [] = r ∷ []
insert_by_revenue r (q ∷ qs) =
    if leb q.total_revenue r.total_revenue then r ∷ q ∷ qs else q ∷ insert_by_revenue r qs

unfoldable pub sort_by_revenue : List TopCustomer → List TopCustomer
unfolding insert_by_revenue
sort_by_revenue [] = []
sort_by_revenue (r ∷ rs) = insert_by_revenue r (sort_by_revenue rs)

-- `getTopCustomers`.
unfoldable pub get_top_customers : String → ℕ → World → List TopCustomer
unfolding revenue_rows sort_by_revenue
get_top_customers m limit w = take limit (sort_by_revenue (revenue_rows m w w.customers))

pub record CustomerAnalytics : Type 0 where
  pub total_customers : ℕ
  pub new_customers_last30_days : ℕ
  pub customers_with_active_subscriptions : ℕ
  pub average_revenue_per_customer : ℕ
  pub top_customers : List TopCustomer

-- `getCustomerAnalytics`.
unfoldable pub get_customer_analytics : String → World → CustomerAnalytics
unfolding get_customer_counts count_customers_with_active_subscriptions get_revenue_totals
    get_top_customers round_quotient
get_customer_analytics m w =
    let since = days_ago 30 w.now in
    let counts = get_customer_counts m since w in
    record {
      total_customers = counts.total;
      new_customers_last30_days = counts.new_last30_days;
      customers_with_active_subscriptions = count_customers_with_active_subscriptions m w;
      average_revenue_per_customer =
          if ltb 0 counts.total
          then round_quotient
              (record { num = (get_revenue_totals m since w).total; den = counts.total })
          else 0;
      top_customers = get_top_customers m 10 w;
    }
