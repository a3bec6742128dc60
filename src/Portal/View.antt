-- ===== src/Portal/View.antt =====
-- `getSessionState` of src/portal/portal.service.ts. The dates of creation, the numbers of invoices
-- and the descriptions of plans are left out, and of the branding the name alone is kept.
use subscription_billing_eng.Prelude.{
  ℕ, Bool, String, Option, none, some, List, [], ◌∷◌, ◌&&◌, ◌%◌, str_eq, truthy, leb, filter, take,
  map, length, get_elem?, or_else, if◌then◌else◌,
}
use subscription_billing_eng.Prelude.Table.{find}
use subscription_billing_eng.Entities.{
  Customer, Subscription, SubscriptionStatus, Invoice, InvoiceStatus, Payment, PaymentStatus, Plan,
  PlanInterval, Merchant, PortalMode, PortalSession,
}
use subscription_billing_eng.World.{World, Action, Error, gets, or_throw, ◌>>=◌}
use subscription_billing_eng.Customers.{is_customer}
use subscription_billing_eng.Plans.{is_live}
use subscription_billing_eng.Portal.Settings.{PortalConfig, resolve_portal_config}
use subscription_billing_eng.Portal.Sessions.{require_session, merchant_by_id}

pub record CustomerView : Type 0 where
  pub id : String
  pub name : String
  pub email : String
  pub phone : Option String
  pub has_payment_method : Bool

pub record PlanView : Type 0 where
  pub id : String
  pub name : String
  pub amount : ℕ
  pub currency : String
  pub interval : PlanInterval

pub record SubscriptionView : Type 0 where
  pub id : String
  pub status : SubscriptionStatus
  pub current_period_start : ℕ
  pub current_period_end : ℕ
  pub cancel_at : Option ℕ
  pub paused_at : Option ℕ
  pub plan : Option PlanView

pub record InvoiceView : Type 0 where
  pub id : String
  pub status : InvoiceStatus
  pub total : ℕ
  pub currency : String
  pub due_date : ℕ
  pub paid_at : Option ℕ

pub record PaymentView : Type 0 where
  pub id : String
  pub amount : ℕ
  pub currency : String
  pub status : PaymentStatus
  pub monnify_transaction_reference : Option String
  pub monnify_payment_reference : Option String
  pub failure_reason : Option String
  pub paid_at : Option ℕ

pub record SessionState : Type 0 where
  pub customer : CustomerView
  pub subscription : Option SubscriptionView
  pub invoices : List InvoiceView
  pub payments : List PaymentView
  pub plans : List PlanView
  pub config : PortalConfig
  pub business_name : String
  pub mode : PortalMode

abbrev customer_view : Customer → CustomerView
customer_view c = record {
  id = c.id;
  name = c.name;
  email = c.email;
  phone = c.phone;
  has_payment_method = truthy c.monnify_card_token;
}

abbrev plan_view : Plan → PlanView
plan_view p = record {
  id = p.id;
  name = p.name;
  amount = p.amount;
  currency = p.currency;
  interval = p.interval;
}

abbrev invoice_view : Invoice → InvoiceView
invoice_view i = record {
  id = i.id;
  status = i.status;
  total = i.total;
  currency = i.currency;
  due_date = i.due_date;
  paid_at = i.paid_at;
}

abbrev payment_view : Payment → PaymentView
payment_view p = record {
  id = p.id;
  amount = p.amount;
  currency = p.currency;
  status = p.status;
  monnify_transaction_reference = p.monnify_transaction_reference;
  monnify_payment_reference = p.monnify_payment_reference;
  failure_reason = p.failure_reason;
  paid_at = p.paid_at;
}

-- The subscription with its plan, as the relation loads it.
unfoldable pub subscription_view : World → Subscription → SubscriptionView
unfolding find
subscription_view w s = record {
  id = s.id;
  status = s.status;
  current_period_start = s.current_period_start;
  current_period_end = s.current_period_end;
  cancel_at = s.cancelled_at;
  paused_at = s.paused_at;
  plan = elim (find (λ p. is_live p && str_eq p.id s.plan_id) w.plans) [
    | none ↦ none
    | some p ↦ some (plan_view p)
  ];
}

-- `order: { amount: 'ASC' }`.
insert_plan_by_amount : Plan → List Plan → List Plan
insert_plan_by_amount p [] = p ∷ []
insert_plan_by_amount p (q ∷ qs) =
    if leb p.amount q.amount then p ∷ q ∷ qs else q ∷ insert_plan_by_amount p qs

unfoldable pub sort_plans : List Plan → List Plan
unfolding insert_plan_by_amount
sort_plans [] = []
sort_plans (p ∷ ps) = insert_plan_by_amount p (sort_plans ps)

abbrev pub is_own : String → String → Subscription → Bool
is_own m customer_id s = str_eq s.customer_id customer_id && str_eq s.merchant_id m

-- The customer's subscription that was updated last.
unfoldable pub latest_subscription : String → String → World → Option Subscription
unfolding filter
latest_subscription m customer_id w =
    let rows = filter (is_own m customer_id) w.subscriptions in
    get_elem? rows (w.latest_updated rows % length rows)

-- The payments of a subscription, the newest fifty.
unfoldable pub payments_of : String → Option Subscription → World → List PaymentView
unfolding filter
payments_of m none w = []
payments_of m (some s) w = map payment_view (
    take 50 (
      filter
        (λ p.
          truthy p.subscription_id
          && str_eq (or_else p.subscription_id "") s.id
          && str_eq p.merchant_id m)
        w.payments))

unfoldable pub invoices_of : String → String → World → List InvoiceView
unfolding filter
invoices_of m customer_id w =
    map invoice_view (
      take 50 (filter (λ i. str_eq i.customer_id customer_id && str_eq i.merchant_id m) w.invoices))

unfoldable pub plans_of : String → World → List PlanView
unfolding filter sort_plans
plans_of m w =
    map plan_view
      (sort_plans (filter (λ p. is_live p && str_eq p.merchant_id m && p.is_active) w.plans))

-- `merchant.branding?.businessName || merchant.businessName`.
abbrev business_name : Merchant → String
business_name m = if truthy m.branding_name then or_else m.branding_name "" else m.business_name

abbrev pub session_state : PortalSession → Customer → Merchant → World → SessionState
session_state session customer merchant w =
    let m = session.merchant_id in
    let s = latest_subscription m customer.id w in
    record {
      customer = customer_view customer;
      subscription = elim s [ none ↦ none | some s ↦ some (subscription_view w s) ];
      invoices = invoices_of m customer.id w;
      payments = payments_of m s w;
      plans = plans_of m w;
      config = resolve_portal_config merchant.customer_portal_settings session.mode;
      business_name = business_name merchant;
      mode = session.mode;
    }

-- `getSessionState`.
unfoldable pub get_session_state : String → Action SessionState
unfolding find subscription_view
get_session_state token = do
  session ← require_session token
  customer ← λ w.
      or_throw (find (is_customer session.merchant_id session.customer_id) w.customers)
        (Error.not_found "Customer record not found.") w
  merchant ←
      λ w. or_throw (merchant_by_id session.merchant_id w) (Error.not_found "Merchant not found.") w
  gets (session_state session customer merchant)
