-- ===== src/ChaosScenarioRunner.antt =====
-- src/chaos/chaos-scenario.runner.ts: the demonstrations of failures, over the billing and the webhooks.
pub mod Runs
mod Scenarios
unfoldable pub use Scenarios.*
use Prim.Native.String
use subscription_billing_eng.Prelude.{
  ℕ, Bool, true, false, String, Option, none, some, List, [], ◌∷◌, ◌&&◌, str_eq, truthy, or_else,
  or_option, if◌then◌else◌,
}
use subscription_billing_eng.Prelude.Table.{find}
use subscription_billing_eng.Entities.{
  Subscription, SubscriptionStatus, same_status, Payment, EventData,
}
use subscription_billing_eng.World.{
  World, Action, Error, ChaosScenario, ChaosMode, ok, err, pure, gets, or_throw, throw, modify,
  ◌>>=◌, ◌>>◌, save_customer,
}
use subscription_billing_eng.Events.{emit}
use subscription_billing_eng.Events.DomainEvent
use subscription_billing_eng.Customers.{is_customer}
use subscription_billing_eng.Subscriptions.Service.{is_subscription}
use subscription_billing_eng.Payments.Service.{is_payment}
use subscription_billing_eng.Payments.Reference.{decimal}
use subscription_billing_eng.Payments.Signature.{Crypto}
use subscription_billing_eng.Payments.Webhooks.Resolve.{
  MonnifyWebhookPayload, MonnifyWebhookHeaders,
}
use subscription_billing_eng.Payments.Webhooks.Process.{process}
use subscription_billing_eng.Renewal.Cycle.{bill_subscription}
use subscription_billing_eng.Chaos.{ChaosPatch, assert_enabled, set_rules}

-- The newest subscription of a merchant in a status.
abbrev in_status : String → SubscriptionStatus → Subscription → Bool
in_status m status s = str_eq s.merchant_id m && same_status s.status status

-- The subscription that was named, or else the newest active or past due one.
unfoldable pub choose_subscription : String → Option String → World → Option Subscription
unfolding find
choose_subscription m id w =
    if truthy id
    then find (is_subscription m (or_else id "")) w.subscriptions
    else or_option (find (in_status m SubscriptionStatus.active) w.subscriptions)
        (find (in_status m SubscriptionStatus.past_due) w.subscriptions)

-- `ensureDemoCardToken`.
unfoldable pub ensure_demo_card_token : Subscription → World → World
unfolding find save_customer
ensure_demo_card_token s w = elim (find (is_customer s.merchant_id s.customer_id) w.customers) [
  | none ↦ w
  | some c ↦
      if truthy c.monnify_card_token
      then w
      else save_customer (record c { monnify_card_token = some demo_card_token }) w
]

-- `resolveBillableSubscription`.
unfoldable pub resolve_billable_subscription : String → Option String → Action Subscription
unfolding choose_subscription ensure_demo_card_token find
resolve_billable_subscription m id = do
  found ← gets (choose_subscription m id)
  s ←
      or_throw found
        (Error.bad_request "No billable subscription found. Create an active subscription first.")
  modify (ensure_demo_card_token s)
  refreshed ← gets (λ w. find (is_subscription m s.id) w.subscriptions)
  or_throw refreshed (Error.not_found "Subscription not found")

-- `emitScenarioStarted`. The metadata that it passes name the scenario, as the rules do by then.
unfoldable pub emit_scenario_started : String → Subscription → String → World → World
unfolding emit
emit_scenario_started m s scenario_id = emit DomainEvent.chaos_scenario_started (record {
  merchant_id = m;
  aggregate_type = "chaos";
  aggregate_id = s.id;
  correlation_id = s.correlation_id;
  body = EventData.chaos_scenario_started scenario_id s.id;
})

-- A demonstration by a billing, with its rules and its message.
unfoldable pub run_billing :
    String → String → ChaosPatch → String → Option String → Action RunScenarioResult
unfolding resolve_billable_subscription emit_scenario_started set_rules
run_billing scenario_id message patch m id = do
  s ← resolve_billable_subscription m id
  set_rules m patch
  modify (emit_scenario_started m s scenario_id)
  bill_subscription s none
  pure (record {
    scenario_id = scenario_id;
    subscription_id = some s.id;
    payment_id = none;
    correlation_id = s.correlation_id;
    message = message;
  })

unfoldable pub run_insufficient_funds : String → Option String → Action RunScenarioResult
unfolding run_billing
run_insufficient_funds =
    run_billing "insufficient-funds" insufficient_funds_message insufficient_funds_patch

unfoldable pub run_expired_card : String → Option String → Action RunScenarioResult
unfolding run_billing
run_expired_card = run_billing "expired-card" expired_card_message expired_card_patch

unfoldable pub run_webhook_failure : String → Option String → Action RunScenarioResult
unfolding run_billing
run_webhook_failure = run_billing "webhook-failure" webhook_failure_message webhook_failure_patch

unfoldable pub run_slow_gateway : String → Option String → Action RunScenarioResult
unfolding run_billing
run_slow_gateway = run_billing "slow-gateway" slow_gateway_message slow_gateway_patch

-- The payment that was named, or else the merchant's newest.
unfoldable pub choose_payment : String → Option String → World → Option Payment
unfolding find
choose_payment m id w =
    if truthy id
    then find (is_payment m (or_else id "")) w.payments
    else find (λ p. str_eq p.merchant_id m) w.payments

-- The subscription of the payment, at the end.
unfoldable pub subscription_of_payment : String → Payment → World → Option Subscription
unfolding find
subscription_of_payment m p w =
    if truthy p.subscription_id
    then find (is_subscription m (or_else p.subscription_id "")) w.subscriptions
    else none

module _ (crypto : Crypto) where
  unfoldable pub run_duplicate_webhook : String → Option String → Action RunScenarioResult
  unfolding choose_payment duplicate_payload set_rules subscription_of_payment
  run_duplicate_webhook m id = do
    found ← gets (choose_payment m id)
    p ← or_throw found (Error.bad_request "No payment found. Create a subscription checkout first.")
    payload ← gets (λ w. duplicate_payload p w.now)
    set_rules m duplicate_patch
    process crypto payload no_headers
    process crypto payload no_headers
    s ← gets (subscription_of_payment m p)
    pure (record {
      scenario_id = "duplicate-webhook";
      subscription_id = elim s [ none ↦ none | some s' ↦ some s'.id ];
      payment_id = some p.id;
      correlation_id = elim s [ none ↦ none | some s' ↦ s'.correlation_id ];
      message =
          "Duplicate SUCCESSFUL_TRANSACTION webhook replayed. Second delivery should be ignored.";
    })

  -- The `switch` of `run`.
  unfoldable pub run_scenario : String → String → RunScenarioDto → Action RunScenarioResult
  unfolding run_insufficient_funds run_expired_card run_webhook_failure run_slow_gateway
      run_duplicate_webhook
  run_scenario m id dto =
      if str_eq id "insufficient-funds"
      then run_insufficient_funds m dto.subscription_id
      else if str_eq id "expired-card"
      then run_expired_card m dto.subscription_id
      else if str_eq id "webhook-failure"
      then run_webhook_failure m dto.subscription_id
      else if str_eq id "slow-gateway"
      then run_slow_gateway m dto.subscription_id
      else if str_eq id "duplicate-webhook"
      then run_duplicate_webhook m dto.payment_id
      else throw (Error.not_found (String.◌++◌ "Unknown chaos scenario: " id))

  -- `run`.
  unfoldable pub run : String → String → RunScenarioDto → Action RunScenarioResult
  unfolding assert_enabled run_scenario
  run m id dto = assert_enabled >> run_scenario m id dto
