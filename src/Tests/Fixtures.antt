-- ===== src/Tests/Fixtures.antt =====
-- The rows and the states that the tests share.
use subscription_billing_eng.Prelude.{Bool, true, none, some, [], ◌∷◌, str_eq, if◌then◌else◌}
use subscription_billing_eng.Entities.{
  Plan, PlanInterval, Customer, Subscription, SubscriptionStatus, Invoice, InvoiceStatus, Payment,
  PaymentStatus, Merchant, Webhook, WebhookEventType, WebhookDeliveryStatus, EventData,
}
use subscription_billing_eng.World.{World, Config, FetchOutcome, WebhookDelivery}

abbrev pub basic_plan : Plan
basic_plan = record {
  id = "plan";
  merchant_id = "m";
  name = "Basic";
  amount = 10000;
  currency = "NGN";
  interval = PlanInterval.monthly;
  trial_days = 0;
  custom_interval_days = none;
  is_active = true;
  deleted_at = none;
}

abbrev pub customer : Customer
customer = record {
  id = "cust";
  merchant_id = "m";
  name = "Ada";
  email = "ada@example.com";
  phone = none;
  monnify_card_token = some "token";
  created_at = 400;
}

abbrev pub subscription : SubscriptionStatus → Subscription
subscription status = record {
  id = "sub";
  merchant_id = "m";
  customer_id = "cust";
  plan_id = "plan";
  status = status;
  trial_ends_at = none;
  current_period_start = 1000;
  current_period_end = 2000;
  cancelled_at = none;
  paused_at = none;
  dunning_attempt_count = 0;
  correlation_id = none;
  cancel_reason = none;
  created_at = 500;
}

abbrev pub invoice : Invoice
invoice = record {
  id = "inv";
  merchant_id = "m";
  customer_id = "cust";
  subscription_id = some "sub";
  status = InvoiceStatus.pending;
  subtotal = 10000;
  tax = 0;
  total = 10000;
  currency = "NGN";
  due_date = 5000;
  paid_at = none;
  items = [];
}

abbrev pub payment : Payment
payment = record {
  id = "pay";
  merchant_id = "m";
  invoice_id = "inv";
  subscription_id = some "sub";
  amount = 10000;
  currency = "NGN";
  status = PaymentStatus.pending;
  monnify_transaction_reference = none;
  monnify_payment_reference = some "ref";
  failure_reason = none;
  paid_at = none;
}

abbrev pub merchant : Merchant
merchant = record {
  id = "m";
  business_name = "Shop";
  email = "shop@example.com";
  phone = none;
  branding_name = none;
  customer_portal_settings = none;
  webhook_url = none;
  bank_code = none;
  bank_name = none;
  bank_account_number = none;
  bank_account_name = none;
  webhook_secret = none;
}

abbrev pub hook : Webhook
hook = record {
  id = "hook";
  merchant_id = "m";
  url = "https://example.com/hook";
  secret = "secret";
  events = WebhookEventType.invoice_paid ∷ [];
  is_active = true;
  description = none;
}

-- A delivery that was tried four times.
abbrev pub delivery : WebhookDelivery
delivery = record {
  id = "del";
  merchant_id = "m";
  webhook_id = "hook";
  event_type = WebhookEventType.invoice_paid;
  payload = record {
    id = "ev";
    type = WebhookEventType.invoice_paid;
    body = EventData.subscription_only (subscription SubscriptionStatus.active);
    created_at = 0;
    correlation_id = "corr";
  };
  status = WebhookDeliveryStatus.failed;
  attempt_count = 4;
  response_status_code = some 500;
  response_body = none;
  next_retry_at = none;
  delivered_at = none;
}

abbrev pub config : Config
config = record {
  node_env = some "development";
  monnify_api_key = none;
  monnify_secret_key = none;
  monnify_webhook_secret = none;
  app_url = none;
  dashboard_url = none;
  jwt_access_secret = "access";
  jwt_refresh_secret = "refresh";
  jwt_access_expiry = "15m";
  jwt_refresh_expiry = "7d";
  mail_enabled = true;
  twilio_account_sid = none;
  twilio_auth_token = none;
  twilio_sms_from = none;
  twilio_whatsapp_from = none;
}

-- One subscription of a status, billed once, with charges that go as `paid` says.
abbrev pub world : Bool → SubscriptionStatus → World
world paid status = record {
  config = config;
  now = 5000;
  draws = 0;
  uuid = λ n. "fresh";
  random_token = λ n. "random";
  simulated_success = λ n. paid;
  charge_reply = λ n. none;
  checkout_reply = λ n. none;
  status_reply = λ n. none;
  fetch_reply = λ n. FetchOutcome.threw "connection refused";
  twilio_reply = λ n. none;
  mailer_accepts = λ n. true;
  format_currency = λ a c. if str_eq c "NGN" then some "NGN 100.00" else none;
  payload_relations = λ id. record {
    subscription_customer = some customer;
    subscription_plan = some basic_plan;
    invoice_customer = none;
  };
  is_uuid = λ t. true;
  plan_column = λ loaded assigned. loaded;
  latest_updated = λ rows. 0;
  plans = basic_plan ∷ [];
  customers = customer ∷ [];
  subscriptions = subscription status ∷ [];
  invoices = invoice ∷ [];
  payments = payment ∷ [];
  attempts = [];
  events = [];
  audit_logs = [];
  webhooks = hook ∷ [];
  deliveries = delivery ∷ [];
  monnify_events = [];
  recovery_links = [];
  api_keys = [];
  chaos_rules = [];
  events_queue = [];
  dunning_queue = [];
  webhooks_queue = [];
  merchants = merchant ∷ [];
  users = [];
  portal_sessions = [];
  notifications = [];
  notifications_queue = [];
  mails = [];
}
