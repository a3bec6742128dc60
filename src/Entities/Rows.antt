-- ===== src/Entities/Rows.antt =====
-- The rows of the database: src/*/entities/*.entity.ts. An amount is a number of hundredths (the
-- columns have two decimals), a time a number of milliseconds, an identifier a text. Columns that
-- no modelled operation reads or writes (free-form metadata, raw provider responses, most
-- row timestamps) are left out, and the relations are looked up by their identifier columns.
use subscription_billing_eng.Prelude.{ℕ, Bool, String, Option, List}
use subscription_billing_eng.Entities.Enums.{
  PlanInterval, SubscriptionStatus, InvoiceStatus, PaymentStatus, WebhookEventType,
  RecoveredViaChannel, AuditAction, RecoveryAction, ApiKeyEnvironment, NotificationChannel,
  NotificationStatus,
}
use subscription_billing_eng.Entities.Json.{Json}

pub record Plan : Type 0 where
  pub id : String
  pub merchant_id : String
  pub name : String
  pub amount : ℕ
  pub currency : String
  pub interval : PlanInterval
  pub trial_days : ℕ
  pub custom_interval_days : Option ℕ
  pub is_active : Bool
  pub deleted_at : Option ℕ

pub record Customer : Type 0 where
  pub id : String
  pub merchant_id : String
  pub name : String
  pub email : String
  pub phone : Option String
  pub monnify_card_token : Option String
  pub created_at : ℕ

pub record Subscription : Type 0 where
  pub id : String
  pub merchant_id : String
  pub customer_id : String
  pub plan_id : String
  pub status : SubscriptionStatus
  pub trial_ends_at : Option ℕ
  pub current_period_start : ℕ
  pub current_period_end : ℕ
  pub cancelled_at : Option ℕ
  pub paused_at : Option ℕ
  pub dunning_attempt_count : ℕ
  pub correlation_id : Option String
  pub cancel_reason : Option String
  pub created_at : ℕ

pub record InvoiceItem : Type 0 where
  pub description : String
  pub quantity : ℕ
  pub unit_amount : ℕ
  pub total_amount : ℕ

pub record Invoice : Type 0 where
  pub id : String
  pub merchant_id : String
  pub customer_id : String
  pub subscription_id : Option String
  pub status : InvoiceStatus
  pub subtotal : ℕ
  pub tax : ℕ
  pub total : ℕ
  pub currency : String
  pub due_date : ℕ
  pub paid_at : Option ℕ
  pub items : List InvoiceItem

pub record Payment : Type 0 where
  pub id : String
  pub merchant_id : String
  pub invoice_id : String
  pub subscription_id : Option String
  pub amount : ℕ
  pub currency : String
  pub status : PaymentStatus
  pub monnify_transaction_reference : Option String
  pub monnify_payment_reference : Option String
  pub failure_reason : Option String
  pub paid_at : Option ℕ

pub record PaymentAttempt : Type 0 where
  pub id : String
  pub merchant_id : String
  pub payment_id : String
  pub attempt_number : ℕ
  pub status : PaymentStatus
  pub monnify_transaction_reference : Option String
  pub monnify_payment_reference : Option String
  pub failure_reason : Option String

-- The `data` of an event, a constructor for each shape that the services emit.
pub data EventData : Type 0 where
  invoice_generated : Invoice → Subscription → EventData
  subscription_created : Subscription → Customer → Plan → String → EventData
  subscription_only : Subscription → EventData
  subscription_renewed : Subscription → Invoice → EventData
  invoice_paid : Invoice → Payment → Option Subscription → EventData
  payment_failed : Payment → Invoice → EventData
  payment_recovered :
      Payment → Invoice → Option Subscription → Option RecoveredViaChannel → EventData
  retry_scheduled : String → ℕ → ℕ → ℕ → EventData
  webhook_sent : String → WebhookEventType → ℕ → EventData
  chaos_scenario_started : String → String → EventData

pub record AuditLog : Type 0 where
  pub merchant_id : String
  pub actor : String
  pub action : AuditAction
  pub resource_type : String
  pub resource_id : Option String

pub record Webhook : Type 0 where
  pub id : String
  pub merchant_id : String
  pub url : String
  pub secret : String
  pub events : List WebhookEventType
  pub is_active : Bool
  pub description : Option String

pub record MonnifyWebhookEvent : Type 0 where
  pub id : String
  pub event_key : String
  pub event_type : String
  pub merchant_id : Option String
  pub payment_id : Option String

pub record RecoveryLink : Type 0 where
  pub id : String
  pub merchant_id : String
  pub subscription_id : String
  pub action : RecoveryAction
  pub token : String
  pub expires_at : ℕ
  pub used_at : Option ℕ

pub record ApiKey : Type 0 where
  pub id : String
  pub merchant_id : String
  pub prefix : String
  pub key_hash : String
  pub last_four : String
  pub environment : ApiKeyEnvironment
  pub name : Option String
  pub is_active : Bool
  pub revoked_at : Option ℕ
  pub last_used_at : Option ℕ

pub record Merchant : Type 0 where
  pub id : String
  pub business_name : String
  pub email : String
  pub phone : Option String
  pub branding_name : Option String
  pub customer_portal_settings : Option Json
  pub webhook_url : Option String
  pub bank_code : Option String
  pub bank_name : Option String
  pub bank_account_number : Option String
  pub bank_account_name : Option String
  pub webhook_secret : Option String

-- A user of a merchant's dashboard.
pub record User : Type 0 where
  pub id : String
  pub merchant_id : String
  pub email : String
  pub password_hash : String
  pub first_name : Option String
  pub last_name : Option String
  pub refresh_token_hash : Option String
  pub password_reset_token_hash : Option String
  pub password_reset_token_expires_at : Option ℕ
  pub is_active : Bool

pub data PortalMode : Type 0 where
  test live : PortalMode

pub record PortalSession : Type 0 where
  pub id : String
  pub merchant_id : String
  pub customer_id : String
  pub token : String
  pub expires_at : ℕ
  pub used_at : Option ℕ
  pub mode : PortalMode

-- The values that the templates of e-mails read.
pub record EmailContext : Type 0 where
  pub customer_name : String
  pub plan_name : Option String
  pub amount : Option String
  pub failure_reason : Option String
  pub retry_url : Option String
  pub pause_url : Option String
  pub cancel_url : Option String

-- A row of `notifications`, with the keys of its metadata.
pub record Notification : Type 0 where
  pub id : String
  pub merchant_id : String
  pub channel : NotificationChannel
  pub recipient : String
  pub subject : String
  pub body : String
  pub status : NotificationStatus
  pub event_type : String
  pub event_id : String
  pub template : Option String
  pub context : Option EmailContext
  pub provider_message_id : Option String
  pub provider_status : Option String
  pub simulated : Option Bool
  pub sent_at : Option ℕ
