-- ===== src/Entities/Enums.antt =====
-- The enumerations of src/shared/enums/index.ts and src/recovery-channels/recovery-action.enum.ts.
use subscription_billing_eng.Prelude.{ℕ, Bool, String, ◌==◌}

pub data PlanInterval : Type 0 where
  monthly quarterly yearly custom : PlanInterval

pub data SubscriptionStatus : Type 0 where
  pending trialing active past_due grace_period suspended cancelled expired : SubscriptionStatus

-- The position of a status in the enumeration.
abbrev pub status_code : SubscriptionStatus → ℕ
status_code SubscriptionStatus.pending = 0
status_code SubscriptionStatus.trialing = 1
status_code SubscriptionStatus.active = 2
status_code SubscriptionStatus.past_due = 3
status_code SubscriptionStatus.grace_period = 4
status_code SubscriptionStatus.suspended = 5
status_code SubscriptionStatus.cancelled = 6
status_code SubscriptionStatus.expired = 7

-- The text that stands for a status in messages.
abbrev pub status_text : SubscriptionStatus → String
status_text SubscriptionStatus.pending = "pending"
status_text SubscriptionStatus.trialing = "trialing"
status_text SubscriptionStatus.active = "active"
status_text SubscriptionStatus.past_due = "past_due"
status_text SubscriptionStatus.grace_period = "grace_period"
status_text SubscriptionStatus.suspended = "suspended"
status_text SubscriptionStatus.cancelled = "cancelled"
status_text SubscriptionStatus.expired = "expired"

-- `===` on two statuses.
abbrev pub same_status : SubscriptionStatus → SubscriptionStatus → Bool
same_status a b = status_code a == status_code b

pub data InvoiceStatus : Type 0 where
  draft pending paid failed void : InvoiceStatus

pub data PaymentStatus : Type 0 where
  pending succeeded failed refunded : PaymentStatus

abbrev pub payment_status_code : PaymentStatus → ℕ
payment_status_code PaymentStatus.pending = 0
payment_status_code PaymentStatus.succeeded = 1
payment_status_code PaymentStatus.failed = 2
payment_status_code PaymentStatus.refunded = 3

-- `===` on two payment statuses.
abbrev pub same_payment_status : PaymentStatus → PaymentStatus → Bool
same_payment_status a b = payment_status_code a == payment_status_code b

abbrev pub invoice_status_code : InvoiceStatus → ℕ
invoice_status_code InvoiceStatus.draft = 0
invoice_status_code InvoiceStatus.pending = 1
invoice_status_code InvoiceStatus.paid = 2
invoice_status_code InvoiceStatus.failed = 3
invoice_status_code InvoiceStatus.void = 4

-- `===` on two invoice statuses.
abbrev pub same_invoice_status : InvoiceStatus → InvoiceStatus → Bool
same_invoice_status a b = invoice_status_code a == invoice_status_code b

pub data ApiKeyEnvironment : Type 0 where
  live test : ApiKeyEnvironment

pub data WebhookEventType : Type 0 where
  subscription_created subscription_updated subscription_cancelled : WebhookEventType
  subscription_renewed payment_failed payment_recovered invoice_paid : WebhookEventType

abbrev pub webhook_event_code : WebhookEventType → ℕ
webhook_event_code WebhookEventType.subscription_created = 0
webhook_event_code WebhookEventType.subscription_updated = 1
webhook_event_code WebhookEventType.subscription_cancelled = 2
webhook_event_code WebhookEventType.subscription_renewed = 3
webhook_event_code WebhookEventType.payment_failed = 4
webhook_event_code WebhookEventType.payment_recovered = 5
webhook_event_code WebhookEventType.invoice_paid = 6

pub data WebhookDeliveryStatus : Type 0 where
  pending delivered failed dead_letter : WebhookDeliveryStatus

abbrev pub delivery_status_code : WebhookDeliveryStatus → ℕ
delivery_status_code WebhookDeliveryStatus.pending = 0
delivery_status_code WebhookDeliveryStatus.delivered = 1
delivery_status_code WebhookDeliveryStatus.failed = 2
delivery_status_code WebhookDeliveryStatus.dead_letter = 3

pub data RecoveredViaChannel : Type 0 where
  automatic whatsapp sms email ussd : RecoveredViaChannel

pub data AuditAction : Type 0 where
  create update delete login logout cancel pause resume payment webhook : AuditAction

pub data RecoveryAction : Type 0 where
  status retry pause cancel : RecoveryAction

pub data NotificationChannel : Type 0 where
  email sms whatsapp : NotificationChannel

pub data NotificationStatus : Type 0 where
  pending sent failed : NotificationStatus
