-- ===== src/Chaos/Intercept.antt =====
-- What the rules make of a charge and of a checkout: `interceptCharge` and `interceptCheckout` of
-- src/chaos/chaos.service.ts, which no other code calls. The wait of a slow gateway changes no state.
pub mod OneShot
use Prim.Native.String
use subscription_billing_eng.Prelude.{
  ℕ, Bool, true, false, String, Option, none, some, ◌&&◌, not, if◌then◌else◌,
}
use subscription_billing_eng.World.{World, ChaosRule, ChaosScenario}
use subscription_billing_eng.Payments.Reference.{decimal}
use subscription_billing_eng.Payments.Monnify.{MonnifyChargeResponse, MonnifyCheckoutResponse}
use subscription_billing_eng.Chaos.{is_enabled, get_rules, consume_scenario, scenario_text}

abbrev chaos_reference : ℕ → String
chaos_reference now = String.◌++◌ "MNFY_CHAOS_" (decimal now)

abbrev failed_charge : String → String → MonnifyChargeResponse
failed_charge reason reference = record {
  success = false;
  transaction_reference = none;
  payment_reference = reference;
  failure_reason = some reason;
}

abbrev successful_charge : ℕ → String → MonnifyChargeResponse
successful_charge now reference = record {
  success = true;
  transaction_reference = some (chaos_reference now);
  payment_reference = reference;
  failure_reason = none;
}

-- `buildChargeOutcome`.
unfoldable pub build_charge_outcome : ChaosScenario → String → ℕ → MonnifyChargeResponse
build_charge_outcome ChaosScenario.payment_success reference now = successful_charge now reference
build_charge_outcome ChaosScenario.insufficient_funds reference now =
    failed_charge "Insufficient funds (chaos)" reference
build_charge_outcome ChaosScenario.card_expired reference now =
    failed_charge "Card expired (chaos)" reference
build_charge_outcome ChaosScenario.network_timeout reference now =
    failed_charge "Payment gateway timeout (chaos)" reference
build_charge_outcome ChaosScenario.webhook_failure reference now =
    failed_charge (String.◌++◌ "Chaos scenario: " (scenario_text ChaosScenario.webhook_failure))
      reference
build_charge_outcome ChaosScenario.slow_gateway reference now = successful_charge now reference

abbrev failed_checkout : String → MonnifyCheckoutResponse
failed_checkout reason = record {
  success = false;
  checkout_url = none;
  transaction_reference = none;
  payment_reference = none;
  failure_reason = some reason;
}

abbrev successful_checkout : ℕ → String → MonnifyCheckoutResponse
successful_checkout now reference = record {
  success = true;
  checkout_url = some (String.◌++◌ "https://sandbox.sdk.monnify.com/checkout/" reference);
  transaction_reference = some (chaos_reference now);
  payment_reference = some reference;
  failure_reason = none;
}

-- The end of `interceptCheckout`.
unfoldable pub build_checkout_outcome : ChaosScenario → String → ℕ → MonnifyCheckoutResponse
build_checkout_outcome ChaosScenario.network_timeout reference now =
    failed_checkout "Payment gateway timeout (chaos)"
build_checkout_outcome ChaosScenario.insufficient_funds reference now =
    failed_checkout "Insufficient funds (chaos)"
build_checkout_outcome ChaosScenario.card_expired reference now =
    failed_checkout "Card expired (chaos)"
build_checkout_outcome _ reference now = successful_checkout now reference

-- The scenario that strikes, if the rules are on and have one left; it is consumed.
unfoldable pub strike : String → World → Option ChaosScenario × World
strike m w =
    if is_enabled w && (get_rules m w).enabled
    then consume_scenario m (get_rules m w) w
    else (none, w)

-- `interceptCharge`.
unfoldable pub intercept_charge : String → String → World → Option MonnifyChargeResponse × World
unfolding strike
intercept_charge m reference w =
    let (struck, w') = strike m w in
    elim struck [
      | none ↦ (none, w')
      | some scenario ↦ (some (build_charge_outcome scenario reference w'.now), w')
    ]

-- `interceptCheckout`.
unfoldable pub intercept_checkout : String → String → World → Option MonnifyCheckoutResponse × World
unfolding strike
intercept_checkout m reference w =
    let (struck, w') = strike m w in
    elim struck [
      | none ↦ (none, w')
      | some scenario ↦ (some (build_checkout_outcome scenario reference w'.now), w')
    ]
