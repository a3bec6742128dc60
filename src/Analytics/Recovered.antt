-- ===== src/Analytics/Recovered.antt =====
-- getRecoveryByChannel and getDunningAnalytics of src/analytics/analytics.service.ts.
use subscription_billing_eng.Prelude.{
  ℕ, String, List, ◌&&◌, map, filter, length, str_eq, ltb, or_else,
}
use subscription_billing_eng.Entities.{
  SubscriptionStatus, same_status, RecoveredViaChannel, EventData,
}
use subscription_billing_eng.World.{World}
use subscription_billing_eng.Events.DomainEvent
use subscription_billing_eng.Analytics.Groups.{group_counts}
use subscription_billing_eng.Analytics.Rows.{read_rows}
use subscription_billing_eng.Analytics.Counts.{get_subscription_status_counts}
use subscription_billing_eng.Analytics.Subscribers.{get_dunning_stats}

pub record RecoveryByChannel : Type 0 where
  pub automatic : ℕ
  pub whatsapp : ℕ
  pub sms : ℕ
  pub email : ℕ
  pub ussd : ℕ

abbrev pub channel_code : RecoveredViaChannel → ℕ
channel_code RecoveredViaChannel.automatic = 0
channel_code RecoveredViaChannel.whatsapp = 1
channel_code RecoveredViaChannel.sms = 2
channel_code RecoveredViaChannel.email = 3
channel_code RecoveredViaChannel.ussd = 4

-- `COALESCE(e.payload->>'recoveredVia', 'automatic')`.
unfoldable pub recovered_via : EventData → RecoveredViaChannel
recovered_via (EventData.payment_recovered p i s via) = or_else via RecoveredViaChannel.automatic
recovered_via body = RecoveredViaChannel.automatic

unfoldable pub put_channel : RecoveredViaChannel → ℕ → RecoveryByChannel → RecoveryByChannel
put_channel RecoveredViaChannel.automatic n r = record r { automatic = n }
put_channel RecoveredViaChannel.whatsapp n r = record r { whatsapp = n }
put_channel RecoveredViaChannel.sms n r = record r { sms = n }
put_channel RecoveredViaChannel.email n r = record r { email = n }
put_channel RecoveredViaChannel.ussd n r = record r { ussd = n }

-- The channels of the merchant's recoveries.
unfoldable pub recoveries_of : String → World → List RecoveredViaChannel
unfolding filter recovered_via
recoveries_of m w =
    map (λ e. recovered_via e.payload)
      (filter (λ e. str_eq e.merchant_id m && str_eq e.event_type DomainEvent.payment_recovered)
        w.events)

-- `getRecoveryByChannel`.
unfoldable pub get_recovery_by_channel : String → World → RecoveryByChannel
unfolding group_counts read_rows put_channel recoveries_of
get_recovery_by_channel m w =
    read_rows put_channel (group_counts channel_code (recoveries_of m w))
      (record { automatic = 0; whatsapp = 0; sms = 0; email = 0; ussd = 0 })

pub record DunningAnalytics : Type 0 where
  pub past_due_subscriptions : ℕ
  pub grace_period_subscriptions : ℕ
  pub subscriptions_in_dunning : ℕ
  pub average_dunning_attempts : ℕ
  pub max_dunning_attempts : ℕ
  pub recovered_after_dunning : ℕ
  pub cancelled_after_dunning : ℕ
  pub recovery_by_channel : RecoveryByChannel

-- The merchant's subscriptions of a status with a dunning attempt.
unfoldable pub count_after_dunning : String → SubscriptionStatus → World → ℕ
unfolding filter
count_after_dunning m status w = length (
    filter
      (λ s. str_eq s.merchant_id m && ltb 0 s.dunning_attempt_count && same_status s.status status)
      w.subscriptions)

-- `getDunningAnalytics`.
unfoldable pub get_dunning_analytics : String → World → DunningAnalytics
unfolding get_subscription_status_counts get_dunning_stats count_after_dunning
    get_recovery_by_channel
get_dunning_analytics m w =
    let counts = get_subscription_status_counts m w in
    let stats = get_dunning_stats m w in
    record {
      past_due_subscriptions = counts.past_due;
      grace_period_subscriptions = counts.grace_period;
      subscriptions_in_dunning = stats.in_dunning;
      average_dunning_attempts = stats.average_attempts;
      max_dunning_attempts = stats.max_attempts;
      recovered_after_dunning = count_after_dunning m SubscriptionStatus.active w;
      cancelled_after_dunning = count_after_dunning m SubscriptionStatus.cancelled w;
      recovery_by_channel = get_recovery_by_channel m w;
    }
