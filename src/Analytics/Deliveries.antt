-- ===== src/Analytics/Deliveries.antt =====
-- `getWebhookAnalytics` of src/analytics/analytics.service.ts.
use subscription_billing_eng.Prelude.{
  ℕ, ◌+◌, Bool, true, false, String, none, some, List, ◌&&◌, map, filter, str_eq,
}
use subscription_billing_eng.Prelude.Table.{find}
use subscription_billing_eng.Entities.{WebhookDeliveryStatus, delivery_status_code}
use subscription_billing_eng.World.{World, WebhookDelivery}
use subscription_billing_eng.Analytics.Util.{safe_percent}
use subscription_billing_eng.Analytics.Groups.{group_counts}
use subscription_billing_eng.Analytics.Rows.{read_rows}

-- The counters of the loop.
pub record DeliveryCounts : Type 0 where
  pub total : ℕ
  pub delivered : ℕ
  pub failed : ℕ
  pub pending : ℕ

abbrev pub no_deliveries : DeliveryCounts
no_deliveries = record { total = 0; delivered = 0; failed = 0; pending = 0 }

-- The body of the loop: a dead letter counts as failed.
unfoldable pub put_delivery_status : WebhookDeliveryStatus → ℕ → DeliveryCounts → DeliveryCounts
put_delivery_status WebhookDeliveryStatus.delivered n c = record c {
  total = c.total + n;
  delivered = n;
}
put_delivery_status WebhookDeliveryStatus.failed n c = record c {
  total = c.total + n;
  failed = c.failed + n;
}
put_delivery_status WebhookDeliveryStatus.dead_letter n c = record c {
  total = c.total + n;
  failed = c.failed + n;
}
put_delivery_status WebhookDeliveryStatus.pending n c = record c {
  total = c.total + n;
  pending = n;
}

-- A delivery of a webhook of the merchant: `innerJoin('d.webhook', 'w')`.
unfoldable pub is_delivery_of : String → World → WebhookDelivery → Bool
unfolding find
is_delivery_of m w d =
    elim (find (λ h. str_eq h.id d.webhook_id && str_eq h.merchant_id m) w.webhooks) [
      | some _ ↦ true
      | none ↦ false
    ]

-- The statuses of the merchant's deliveries.
unfoldable pub delivery_statuses : String → World → List WebhookDeliveryStatus
unfolding filter is_delivery_of
delivery_statuses m w = map (λ d. d.status) (filter (is_delivery_of m w) w.deliveries)

pub record WebhookAnalytics : Type 0 where
  pub total_deliveries : ℕ
  pub delivered_count : ℕ
  pub failed_count : ℕ
  pub pending_count : ℕ
  pub success_rate : ℕ

unfoldable pub get_webhook_analytics : String → World → WebhookAnalytics
unfolding group_counts put_delivery_status read_rows delivery_statuses safe_percent
get_webhook_analytics m w =
    let c =
      read_rows put_delivery_status (group_counts delivery_status_code (delivery_statuses m w))
        no_deliveries in
    record {
      total_deliveries = c.total;
      delivered_count = c.delivered;
      failed_count = c.failed;
      pending_count = c.pending;
      success_rate = safe_percent c.delivered c.total;
    }
