-- ===== src/ChaosScenarioRunner/Scenarios.antt =====
-- The rules and the messages of the scenarios of src/chaos/chaos-scenario.runner.ts.
use Prim.Native.String
use subscription_billing_eng.Prelude.{
  ℕ, true, String, Option, none, some, [], ◌∷◌, or_else, or_option,
}
use subscription_billing_eng.Entities.{Payment}
use subscription_billing_eng.World.{ChaosScenario, ChaosMode}
use subscription_billing_eng.Payments.Reference.{decimal}
use subscription_billing_eng.Payments.Webhooks.Resolve.{
  MonnifyWebhookPayload, MonnifyWebhookHeaders,
}
use subscription_billing_eng.Chaos.{ChaosPatch}

pub record RunScenarioDto : Type 0 where
  pub subscription_id : Option String
  pub payment_id : Option String

pub record RunScenarioResult : Type 0 where
  pub scenario_id : String
  pub subscription_id : Option String
  pub payment_id : Option String
  pub correlation_id : Option String
  pub message : String

abbrev pub demo_card_token : String
demo_card_token = "chaos_demo_card_token"

abbrev pub no_patch : ChaosPatch
no_patch = record {
  enabled = none;
  scenario = none;
  scenario_queue = none;
  mode = none;
  accelerate_dunning = none;
  fail_webhooks = none;
  slow_gateway_ms = none;
  active_scenario_id = none;
}

abbrev pub insufficient_funds_patch : ChaosPatch
insufficient_funds_patch = record no_patch {
  enabled = some true;
  mode = some ChaosMode.one_shot;
  scenario_queue = some (ChaosScenario.insufficient_funds ∷ ChaosScenario.payment_success ∷ []);
  accelerate_dunning = some true;
  active_scenario_id = some (some "insufficient-funds");
}

abbrev pub insufficient_funds_message : String
insufficient_funds_message =
    "Insufficient funds injected. Watch Mission Control for fail → retry → recovery."

abbrev pub expired_card_patch : ChaosPatch
expired_card_patch = record no_patch {
  enabled = some true;
  mode = some ChaosMode.persistent;
  scenario = some (some ChaosScenario.card_expired);
  accelerate_dunning = some true;
  active_scenario_id = some (some "expired-card");
}

abbrev pub expired_card_message : String
expired_card_message =
    "Expired card scenario active. Retries will fail until subscription suspends."

abbrev pub webhook_failure_patch : ChaosPatch
webhook_failure_patch = record no_patch {
  enabled = some true;
  mode = some ChaosMode.one_shot;
  scenario = some (some ChaosScenario.payment_success);
  fail_webhooks = some true;
  active_scenario_id = some (some "webhook-failure");
}

abbrev pub webhook_failure_message : String
webhook_failure_message = "Payment will succeed but outbound webhooks will fail delivery."

abbrev pub slow_gateway_patch : ChaosPatch
slow_gateway_patch = record no_patch {
  enabled = some true;
  mode = some ChaosMode.one_shot;
  scenario = some (some ChaosScenario.slow_gateway);
  slow_gateway_ms = some 5000;
  active_scenario_id = some (some "slow-gateway");
}

abbrev pub slow_gateway_message : String
slow_gateway_message = "Next charge will wait 5 seconds before completing."

-- The webhook of a success that is sent twice.
unfoldable pub duplicate_payload : Payment → ℕ → MonnifyWebhookPayload
duplicate_payload p now =
    let payment_reference = or_else p.monnify_payment_reference p.id in
    record {
      event_type = "SUCCESSFUL_TRANSACTION";
      transaction_reference =
          or_option p.monnify_transaction_reference
            (some (String.◌++◌ "MNFY_CHAOS_DUP_" (decimal now)));
      payment_reference = some payment_reference;
      product_reference = some payment_reference;
      payment_description = some "Chaos duplicate webhook test";
      card_token = some demo_card_token;
    }

-- `{}`: without a signature the text that was received is not read.
abbrev pub no_headers : MonnifyWebhookHeaders
no_headers = record { signature = none; raw_body = "" }

abbrev pub duplicate_patch : ChaosPatch
duplicate_patch = record no_patch {
  enabled = some true;
  mode = some ChaosMode.one_shot;
  active_scenario_id = some (some "duplicate-webhook");
}
