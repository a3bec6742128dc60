-- ===== src/World/State.antt =====
-- The state. A table lists its rows, and a queue its jobs, the newest first.
--
-- The outside world enters as functions of a draw number: `uuid` is the database's generator of
-- identifiers, `random_token` the source of secrets, `charge_reply`, `checkout_reply` and
-- `status_reply` the answers of the Monnify API (`none` where the request throws), `fetch_reply` the
-- answer of a merchant's webhook endpoint, `twilio_reply` that of Twilio, `mailer_accepts` whether
-- the mailer sends, `simulated_success` the test `Math.random() > 0.15`. `format_currency` is
-- `Intl.NumberFormat`, which throws (`none`) at a currency that it does not know.
-- `is_uuid` is what Postgres takes for a `uuid`, and `plan_column` which identifier TypeORM writes for
-- an entity that has a plan loaded and another identifier assigned. `payload_relations` is what an event's payload carries of relations, by the event's identifier,
-- and `latest_updated` the position of the row that was updated last, since the rows have no
-- timestamps here. `now` is the clock, read as one instant by a call.
use subscription_billing_eng.Prelude.{ℕ, Bool, String, Option, List}
use subscription_billing_eng.Entities.{
  Plan, Customer, Subscription, Invoice, Payment, PaymentAttempt, EventData, AuditLog, Webhook,
  MonnifyWebhookEvent, RecoveryLink, ApiKey, WebhookEventType, WebhookDeliveryStatus, Merchant,
  User, PortalSession, Notification, EmailContext,
}

-- ChaosScenario and ChaosRule of src/chaos/chaos.types.ts.
pub data ChaosScenario : Type 0 where
  payment_success insufficient_funds card_expired : ChaosScenario
  network_timeout webhook_failure slow_gateway : ChaosScenario

pub data ChaosMode : Type 0 where
  persistent one_shot : ChaosMode

pub record ChaosRule : Type 0 where
  pub enabled : Bool
  pub scenario : Option ChaosScenario
  pub scenario_queue : List ChaosScenario
  pub mode : ChaosMode
  pub accelerate_dunning : Bool
  pub fail_webhooks : Bool
  pub slow_gateway_ms : Option ℕ
  pub active_scenario_id : Option String

-- A row of `event_store`; `chaos` is the part of the metadata that the chaos service adds.
pub record EventStore : Type 0 where
  pub id : String
  pub merchant_id : String
  pub event_type : String
  pub aggregate_type : String
  pub aggregate_id : String
  pub correlation_id : String
  pub category : String
  pub payload : EventData
  pub environment : String
  pub chaos : Option (Option String × ChaosMode)
  pub processed : Bool
  pub processed_at : Option ℕ
  pub created_at : ℕ

pub record WebhookPayload : Type 0 where
  pub id : String
  pub type : WebhookEventType
  pub body : EventData
  pub created_at : ℕ
  pub correlation_id : String

pub record WebhookDelivery : Type 0 where
  pub id : String
  pub merchant_id : String
  pub webhook_id : String
  pub event_type : WebhookEventType
  pub payload : WebhookPayload
  pub status : WebhookDeliveryStatus
  pub attempt_count : ℕ
  pub response_status_code : Option ℕ
  pub response_body : Option String
  pub next_retry_at : Option ℕ
  pub delivered_at : Option ℕ

pub record DunningJob : Type 0 where
  pub subscription_id : String
  pub attempt_number : ℕ
  pub delay : ℕ

pub record WebhookJob : Type 0 where
  pub delivery_id : String
  pub delay : Option ℕ

-- What Monnify answers to a token charge: the HTTP verdict and the fields that are read.
pub record ChargeReply : Type 0 where
  pub is_ok : Bool
  pub request_successful : Option Bool
  pub payment_status : Option String
  pub transaction_reference : Option String
  pub transaction_reference_snake : Option String
  pub response_message : Option String
  pub message : Option String

pub record CheckoutReply : Type 0 where
  pub is_ok : Bool
  pub request_successful : Option Bool
  pub checkout_url : Option String
  pub transaction_reference : Option String
  pub payment_reference : Option String
  pub response_message : Option String

pub record FetchReply : Type 0 where
  pub status : ℕ
  pub is_ok : Bool
  pub text : String

-- A request to a merchant's endpoint is answered, or throws with a message.
pub data FetchOutcome : Type 0 where
  answered : FetchReply → FetchOutcome
  threw : String → FetchOutcome

-- What Twilio answers to a message.
pub record TwilioReply : Type 0 where
  pub is_ok : Bool
  pub sid : String
  pub status : String
  pub simulated : Bool
  pub message : Option String

-- An e-mail that was handed to the mailer: with a template and its context, or written out.
pub record Mail : Type 0 where
  pub to : String
  pub subject : String
  pub template : Option String
  pub context : Option EmailContext

-- The customers that the emitting call had loaded with the subscription and the invoice of an
-- event: a stored payload has them where the call read the row with its relations.
pub record PayloadRelations : Type 0 where
  pub subscription_customer : Option Customer
  pub subscription_plan : Option Plan
  pub invoice_customer : Option Customer

pub record Config : Type 0 where
  pub node_env : Option String
  pub monnify_api_key : Option String
  pub monnify_secret_key : Option String
  pub monnify_webhook_secret : Option String
  pub app_url : Option String
  pub dashboard_url : Option String
  pub jwt_access_secret : String
  pub jwt_refresh_secret : String
  pub jwt_access_expiry : String
  pub jwt_refresh_expiry : String
  pub mail_enabled : Bool
  pub twilio_account_sid : Option String
  pub twilio_auth_token : Option String
  pub twilio_sms_from : Option String
  pub twilio_whatsapp_from : Option String

pub record World : Type 0 where
  pub config : Config
  pub now : ℕ
  pub draws : ℕ
  pub uuid : ℕ → String
  pub random_token : ℕ → String
  pub simulated_success : ℕ → Bool
  pub charge_reply : ℕ → Option ChargeReply
  pub checkout_reply : ℕ → Option CheckoutReply
  pub status_reply : ℕ → Option (Option String)
  pub fetch_reply : ℕ → FetchOutcome
  pub twilio_reply : ℕ → Option TwilioReply
  pub mailer_accepts : ℕ → Bool
  pub format_currency : ℕ → String → Option String
  pub payload_relations : String → PayloadRelations
  pub is_uuid : String → Bool
  pub plan_column : String → String → String
  pub latest_updated : List Subscription → ℕ
  pub plans : List Plan
  pub customers : List Customer
  pub subscriptions : List Subscription
  pub invoices : List Invoice
  pub payments : List Payment
  pub attempts : List PaymentAttempt
  pub events : List EventStore
  pub audit_logs : List AuditLog
  pub webhooks : List Webhook
  pub deliveries : List WebhookDelivery
  pub monnify_events : List MonnifyWebhookEvent
  pub recovery_links : List RecoveryLink
  pub api_keys : List ApiKey
  pub chaos_rules : List (String × ChaosRule)
  pub events_queue : List String
  pub dunning_queue : List DunningJob
  pub webhooks_queue : List WebhookJob
  pub merchants : List Merchant
  pub users : List User
  pub portal_sessions : List PortalSession
  pub notifications : List Notification
  pub notifications_queue : List String
  pub mails : List Mail
