-- ===== src/Tests/Messaging.antt =====
-- Merchant webhooks, recovery links and messages, keys and rules, at concrete rows.
use subscription_billing_eng.Prelude.{
  ◌≤◌, String, ◌≡◌, refl, true, false, none, some, [], ◌∷◌, arith,
}
use subscription_billing_eng.Prelude.Table.{find}
use subscription_billing_eng.Entities.{
  SubscriptionStatus, RecoveryAction, ApiKey, ApiKeyEnvironment,
}
use subscription_billing_eng.World.{World, ok, err, Error, WebhookDelivery}
use subscription_billing_eng.Webhooks.Delivery.{deliver, delivery_by_id, webhook_by_id}
use subscription_billing_eng.Webhooks.Delivery.Attempts.{Tried, deliver_tries}
use subscription_billing_eng.Recovery.Links.{redeem, create_link, is_redeemable}
use subscription_billing_eng.Recovery.Links.SingleUse.{redeem_once, redeem-create_link}
use subscription_billing_eng.ApiKeys.{validate_key}
use subscription_billing_eng.Chaos.{is_enabled}
use subscription_billing_eng.Prelude.{filter, str_eq}
use subscription_billing_eng.Entities.{WebhookEventType, EventData}
use subscription_billing_eng.World.{EventStore}
use subscription_billing_eng.Events.DomainEvent
use subscription_billing_eng.Webhooks.{
  webhook_event_type, subscribes, is_active_of, dispatch_for_event,
}
use subscription_billing_eng.Webhooks.Dispatch.{Sends, dispatch_for_event-Sends}
use subscription_billing_eng.ApiKeys.{is_api_key, is_valid_for, revoke}
use subscription_billing_eng.ApiKeys.Revocation.{revoke-validate_key}
use subscription_billing_eng.Recovery.Email.{Page, handle}
use subscription_billing_eng.Recovery.Email.Once.{handle_once}
use subscription_billing_eng.Tests.Fixtures.{world, subscription, delivery, hook}

abbrev state : World
state = world true SubscriptionStatus.active

delivery_found : delivery_by_id "del" state ≡ some delivery
unfolding delivery_by_id
delivery_found = refl

hook_found : webhook_by_id "hook" state ≡ some hook
unfolding webhook_by_id
hook_found = refl

deliver_tries_example :
    (d : WebhookDelivery) × ((deliver "del" state).0 ≡ ok tt)
    × (delivery_by_id "del" (deliver "del" state).1 ≡ some d)
    × (d.attempt_count ≡ 5)
    × Tried d [] (deliver "del" state).1.webhooks_queue
deliver_tries_example = deliver_tries "del" state delivery_found hook_found

-- A state with one link, made at 5000.
abbrev linked : World
linked = (create_link "m" "sub" RecoveryAction.pause state).1

linked_before : linked.now ≤ 6000
unfolding create_link
linked_before = omega arith

redeem_once_example :
    (redeem "random" (record (redeem "random" linked).1 { now = 6000 })).0
    ≡ err (Error.bad_request "This link has already been used or has expired.")
redeem_once_example = redeem_once "random" linked 6000 linked_before

no_link : find (is_redeemable "random" 6000) state.recovery_links ≡ none
unfolding find
no_link = refl

redeem-create_link_example :
    (redeem "random" (record linked { now = 6000 })).0
    ≡ ok (record { merchant_id = "m"; subscription_id = "sub"; action = RecoveryAction.pause })
redeem-create_link_example = redeem-create_link "m" "sub" RecoveryAction.pause state 6000 no_link

-- A stand-in for the hash.
abbrev hash : String → String
hash s = s

development : is_enabled state ≡ true
unfolding is_enabled
development = refl

abbrev paid_event : EventStore
paid_event = record {
  id = "ev";
  merchant_id = "m";
  event_type = DomainEvent.invoice_paid;
  aggregate_type = "invoice";
  aggregate_id = "inv";
  correlation_id = "corr";
  category = "Invoice";
  payload = EventData.subscription_only (subscription SubscriptionStatus.active);
  environment = "development";
  chaos = none;
  processed = false;
  processed_at = none;
  created_at = 0;
}

paid_event_known : webhook_event_type DomainEvent.invoice_paid ≡ some WebhookEventType.invoice_paid
unfolding webhook_event_type
paid_event_known = refl

dispatch_for_event-Sends_example :
    Sends paid_event WebhookEventType.invoice_paid
      (filter
        (λ h. subscribes h.events WebhookEventType.invoice_paid)
        (filter (is_active_of "m") state.webhooks))
      state
      (dispatch_for_event paid_event state)
dispatch_for_event-Sends_example = dispatch_for_event-Sends paid_event state paid_event_known

-- A state with one key, whose raw text is `raw`.
abbrev key : ApiKey
key = record {
  id = "key";
  merchant_id = "m";
  prefix = "nsub_test_";
  key_hash = "raw";
  last_four = "-raw";
  environment = ApiKeyEnvironment.test;
  name = none;
  is_active = true;
  revoked_at = none;
  last_used_at = none;
}

abbrev keyed : World
keyed = record state { api_keys = key ∷ [] }

key_found : find (is_api_key "m" "key") keyed.api_keys ≡ some key
unfolding find
key_found = refl

key_stored : find (λ x. str_eq x.id "key") keyed.api_keys ≡ some key
unfolding find
key_stored = refl

key_alone : filter (is_valid_for hash "raw") keyed.api_keys ≡ key ∷ []
unfolding filter
key_alone = refl

revoke-validate_key_example : (validate_key hash "raw" (revoke "m" "key" "me" keyed).1).0 ≡ none
revoke-validate_key_example =
    revoke-validate_key hash "m" "key" "me" "raw" keyed key_found key_stored key_alone

handle_once_example :
    (handle "random" (record (handle "random" linked).1 { now = 6000 })).0
    ≡ ok (Page.refused "This link has already been used or has expired.")
handle_once_example = handle_once "random" linked 6000 linked_before refl
