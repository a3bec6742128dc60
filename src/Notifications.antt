-- ===== src/Notifications.antt =====
-- src/notifications/notifications.service.ts and recovery-message.builder.ts. The texts that are
-- sent to Twilio and the log lines are output.
pub mod Answering
pub mod Queueing
pub mod Sending
use Prim.Native.String
use subscription_billing_eng.Prelude.{
  ℕ, Bool, true, false, String, Option, none, some, ◌∷◌, ◌&&◌, ◌||◌, not, or_else, truthy, str_eq,
  if◌then◌else◌,
}
use subscription_billing_eng.Prelude.Table.{find, save}
use subscription_billing_eng.Entities.{
  Notification, NotificationChannel, NotificationStatus, EmailContext, EventData,
}
use subscription_billing_eng.World.{
  World, Action, Error, EventStore, TwilioReply, ok, err, pure, modify, catch, ◌>>=◌, ◌>>◌, next_id,
  draw,
}
use subscription_billing_eng.Events.DomainEvent
use subscription_billing_eng.Customers.{is_customer}
use subscription_billing_eng.Payments.Reference.{decimal}
use subscription_billing_eng.Mail.Payload.{payload_invoice, payment_amount, payment_currency}
use subscription_billing_eng.Mail.Recipients.{resolve_recipient}
use subscription_billing_eng.Mail.Templates.{resolve_template, EmailTemplateDefinition}
use subscription_billing_eng.Mail.Service.{send_template}

pub record RecoveryMessage : Type 0 where
  pub subject : String
  pub body : String

-- `formatAmount` of the builder: a payload without an amount is no number.
unfoldable pub format_payment : EventData → Action String
unfolding payment_amount payment_currency
format_payment e w = elim (payment_amount e) [
  | none ↦ (ok "your payment", w)
  | some amount ↦ elim (w.format_currency amount (or_else (payment_currency e) "NGN")) [
    | none ↦ (err (Error.failure "Invalid currency code"), w)
    | some printed ↦ (ok printed, w)
  ]
]

payment_failed_message : String → RecoveryMessage
payment_failed_message amount = record {
  subject = "Payment failed";
  body = String.◌++◌ "Your payment of " (
      String.◌++◌ amount
        " didn't go through. Reply RETRY to try again, PAUSE to pause your subscription, or CANCEL to cancel.");
}

payment_recovered_message : String → RecoveryMessage
payment_recovered_message amount = record {
  subject = "Payment recovered";
  body =
      String.◌++◌ "Payment of "
        (String.◌++◌ amount " succeeded — your subscription is active again.");
}

-- `RecoveryMessageBuilder.resolve`.
unfoldable pub resolve_message : EventStore → Action (Option RecoveryMessage)
unfolding format_payment payment_failed_message payment_recovered_message
resolve_message e =
    if str_eq e.event_type DomainEvent.payment_failed
    then (format_payment e.payload >>= λ amount. pure (some (payment_failed_message amount)))
    else if str_eq e.event_type DomainEvent.payment_recovered
    then (format_payment e.payload >>= λ amount. pure (some (payment_recovered_message amount)))
    else pure none

-- `queueNotification`: the row is stored as pending, and its job queued.
unfoldable pub queue_notification : Notification → World → World
queue_notification n w = draw (record w {
  notifications = n ∷ w.notifications;
  notifications_queue = n.id ∷ w.notifications_queue;
})

abbrev pub email_notification : EventStore → String → EmailTemplateDefinition → World → Notification
email_notification e recipient t w = record {
  id = next_id w;
  merchant_id = e.merchant_id;
  channel = NotificationChannel.email;
  recipient = recipient;
  subject = t.subject;
  body = t.template;
  status = NotificationStatus.pending;
  event_type = e.event_type;
  event_id = e.id;
  template = some t.template;
  context = some t.context;
  provider_message_id = none;
  provider_status = none;
  simulated = none;
  sent_at = none;
}

-- `queueEmailForEvent`.
unfoldable pub queue_email_for_event : EventStore → Action (Unit {0})
unfolding resolve_recipient queue_notification
queue_email_for_event e = resolve_template e >>= λ t w. elim t [
  | none ↦ (ok tt, w)
  | some t ↦ elim (resolve_recipient e w) [
    | none ↦ (ok tt, w)
    | some recipient ↦ (ok tt, queue_notification (email_notification e recipient t w) w)
  ]
]

-- `resolvePhone`: the telephone of the invoice's customer.
unfoldable pub resolve_phone : EventStore → World → Option String
unfolding payload_invoice find
resolve_phone e w = elim (payload_invoice e.payload) [
  | none ↦ none
  | some i ↦ elim (find (is_customer e.merchant_id i.customer_id) w.customers) [
    | none ↦ none
    | some c ↦ c.phone
  ]
]

abbrev pub channel_notification :
    EventStore → NotificationChannel → String → RecoveryMessage → World → Notification
channel_notification e channel recipient message w = record {
  id = next_id w;
  merchant_id = e.merchant_id;
  channel = channel;
  recipient = recipient;
  subject = message.subject;
  body = message.body;
  status = NotificationStatus.pending;
  event_type = e.event_type;
  event_id = e.id;
  template = none;
  context = none;
  provider_message_id = none;
  provider_status = none;
  simulated = none;
  sent_at = none;
}

-- `queueChannelNotification`.
unfoldable pub queue_channel :
    EventStore → NotificationChannel → String → RecoveryMessage → World → World
unfolding queue_notification
queue_channel e channel phone message w =
    queue_notification (channel_notification e channel phone message w) w

-- `queuePhoneChannelsForEvent`: by WhatsApp, and by SMS.
unfoldable pub queue_phone_channels : EventStore → Action (Unit {0})
unfolding resolve_message resolve_phone queue_channel
queue_phone_channels e = resolve_message e >>= λ message w. elim message [
  | none ↦ (ok tt, w)
  | some message ↦
      let phone = resolve_phone e w in
      if truthy phone
      then (
        ok tt,
        queue_channel e NotificationChannel.sms (or_else phone "") message
            (queue_channel e NotificationChannel.whatsapp (or_else phone "") message w),
      )
      else (ok tt, w)
]

-- `queueForEvent`: a failure of the telephone channels is logged and dropped.
unfoldable pub queue_for_event : EventStore → Action (Unit {0})
queue_for_event e = queue_email_for_event e >> catch (queue_phone_channels e) (λ _. pure tt)

unfoldable pub is_twilio_configured : World → Bool
is_twilio_configured w = truthy w.config.twilio_account_sid && truthy w.config.twilio_auth_token

-- `callTwilio`; `none` where the request throws.
unfoldable pub call_twilio : Action TwilioReply
call_twilio w = elim (w.twilio_reply w.draws) [
  | none ↦ (err (Error.failure "fetch failed"), draw w)
  | some r ↦
      if r.is_ok
      then (ok r, draw w)
      else (err (Error.failure (or_else r.message "Twilio message send failed")), draw w)
]

-- `simulateTwilioSend`.
unfoldable pub simulate_twilio_send : World → TwilioReply
simulate_twilio_send w = record {
  is_ok = true;
  sid = String.◌++◌ "SM_sim_" (decimal w.now);
  status = "queued";
  simulated = true;
  message = none;
}

-- `recordProviderResult`.
abbrev pub record_provider_result : Notification → TwilioReply → Notification
record_provider_result n r = record n {
  provider_message_id = some r.sid;
  provider_status = some r.status;
  simulated = some r.simulated;
}

-- What `sendSms` and `sendWhatsapp` share, at the number that they send from.
unfoldable pub send_by_twilio : Option String → Notification → Action Notification
unfolding is_twilio_configured call_twilio simulate_twilio_send
send_by_twilio from n w =
    if not (is_twilio_configured w) || not (truthy from)
    then (ok (record_provider_result n (simulate_twilio_send w)), w)
    else (call_twilio >>= λ r. pure (record_provider_result n r)) w

-- `sendEmail`.
unfoldable pub send_email : Notification → World → World
unfolding send_template
send_email n = send_template n.recipient (or_else n.template n.body) n.context n.subject

-- The branch of `send` on the channel.
unfoldable pub send_by_channel : Notification → Action Notification
unfolding send_email send_by_twilio
send_by_channel n w = elim n.channel [
  | NotificationChannel.email ↦ (ok n, send_email n w)
  | NotificationChannel.sms ↦ send_by_twilio w.config.twilio_sms_from n w
  | NotificationChannel.whatsapp ↦ send_by_twilio w.config.twilio_whatsapp_from n w
]

unfoldable pub save_notification : Notification → World → World
unfolding save
save_notification n w = record w { notifications = save (λ x. x.id) n w.notifications }

unfoldable pub notification_by_id : String → World → Option Notification
unfolding find
notification_by_id id w = find (λ n. str_eq n.id id) w.notifications

-- `send`: the status after it tells whether the channel threw.
unfoldable pub send : String → World → World
unfolding send_by_channel save_notification
send id w = elim (notification_by_id id w) [
  | none ↦ w
  | some n ↦
      let (r, w') = send_by_channel n w in
      elim r [
        | ok sent ↦
            save_notification
              (record sent { status = NotificationStatus.sent; sent_at = some w'.now }) w'
        | err e ↦ save_notification (record n { status = NotificationStatus.failed }) w'
      ]
]
