-- ===== src/Payments/Monnify.antt =====
-- The Monnify client: src/payments/monnify.service.ts. The HTTP exchange, with the access token that
-- it fetches first, is the outside world's reply; what the client makes of a reply is here.
use Prim.Native.String
use subscription_billing_eng.Prelude.{
  ℕ, Bool, true, false, String, Option, none, some, ◌&&◌, ◌||◌, str_eq, is_empty, truthy, or_else,
  or_option, if◌then◌else◌,
}
use subscription_billing_eng.World.{World, ChargeReply, CheckoutReply, draw}
use subscription_billing_eng.Payments.Reference.{build_payment_reference, decimal, to_upper}

pub record MonnifyChargeResponse : Type 0 where
  pub success : Bool
  pub transaction_reference : Option String
  pub payment_reference : String
  pub failure_reason : Option String

pub record MonnifyCheckoutResponse : Type 0 where
  pub success : Bool
  pub checkout_url : Option String
  pub transaction_reference : Option String
  pub payment_reference : Option String
  pub failure_reason : Option String

-- `isConfigured`.
unfoldable pub is_configured : World → Bool
is_configured w = truthy w.config.monnify_api_key && truthy w.config.monnify_secret_key

-- `isPaidStatus`: an absent or empty status counts as paid.
unfoldable pub is_paid_status : Option String → Bool
is_paid_status none = true
is_paid_status (some status) =
    if is_empty status
    then true
    else str_eq (to_upper status) "PAID"
      || str_eq (to_upper status) "SUCCESS"
      || str_eq (to_upper status) "SUCCESSFUL"

abbrev is_true : Option Bool → Bool
is_true none = false
is_true (some b) = b

abbrev simulated_reference : World → String
simulated_reference w = String.◌++◌ "MNFY_SIM_" (decimal w.now)

-- `simulateCharge`.
simulate_charge : String → World → MonnifyChargeResponse
simulate_charge reference w =
    let success = w.simulated_success w.draws in
    record {
      success = success;
      transaction_reference = if success then some (simulated_reference w) else none;
      payment_reference = reference;
      failure_reason = if success then none else some "Insufficient funds";
    }

-- What `charge` makes of a reply; `none` where the request throws.
unfoldable pub read_charge : String → Option ChargeReply → MonnifyChargeResponse
unfolding is_paid_status
read_charge reference none = record {
  success = false;
  transaction_reference = none;
  payment_reference = reference;
  failure_reason = some "Payment gateway unavailable";
}
read_charge reference (some r) =
    let success = r.is_ok && is_true r.request_successful && is_paid_status r.payment_status in
    record {
      success = success;
      transaction_reference = or_option r.transaction_reference r.transaction_reference_snake;
      payment_reference = reference;
      failure_reason =
          if success
          then none
          else some (or_else (or_option r.response_message r.message) "Tokenized charge failed");
    }

-- `charge`, of a payment's attempt.
unfoldable pub charge : String → ℕ → World → MonnifyChargeResponse × World
unfolding is_configured simulate_charge read_charge
charge payment_id attempt_number w =
    let reference = build_payment_reference payment_id attempt_number in
    if is_configured w
    then (read_charge reference (w.charge_reply w.draws), draw w)
    else (simulate_charge reference w, draw w)

-- `createCheckout`.
unfoldable pub read_checkout : String → Option CheckoutReply → MonnifyCheckoutResponse
read_checkout reference none = record {
  success = false;
  checkout_url = none;
  transaction_reference = none;
  payment_reference = none;
  failure_reason = some "Payment gateway unavailable";
}
read_checkout reference (some r) =
    let success = r.is_ok && is_true r.request_successful && truthy r.checkout_url in
    record {
      success = success;
      checkout_url = r.checkout_url;
      transaction_reference = r.transaction_reference;
      payment_reference = some (or_else r.payment_reference reference);
      failure_reason =
          if success
          then none
          else some (or_else r.response_message "Checkout session creation failed");
    }

unfoldable pub create_checkout_session : String → World → MonnifyCheckoutResponse × World
unfolding is_configured read_checkout
create_checkout_session reference w =
    if is_configured w then (read_checkout reference (w.checkout_reply w.draws), draw w) else (
      record {
        success = true;
        checkout_url = some (String.◌++◌ "https://sandbox.sdk.monnify.com/checkout/" reference);
        transaction_reference = some (simulated_reference w);
        payment_reference = some reference;
        failure_reason = none;
      },
      draw w,
    )

-- `getTransactionStatus`, of which the card token alone is read: absent where the client is not
-- configured, where the request throws, and where the reply has none.
unfoldable pub get_transaction_card_token : World → Option String × World
unfolding is_configured
get_transaction_card_token w =
    if is_configured w then (or_else (w.status_reply w.draws) none, draw w) else (none, w)
