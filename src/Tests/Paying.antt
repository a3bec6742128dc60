-- ===== src/Tests/Paying.antt =====
-- Webhooks of Monnify, at a payment that waits.
use subscription_billing_eng.Prelude.{arith, String, ◌≡◌, ◌⊎◌, refl, true, none, some, str_eq}
use subscription_billing_eng.Prelude.Table.{find, replace}
use subscription_billing_eng.Entities.{Subscription, SubscriptionStatus, PaymentStatus}
use subscription_billing_eng.Dunning.Schedule.{subscription_by_id}
use subscription_billing_eng.Subscriptions.StateMachine.Graph.{IsMove}
use subscription_billing_eng.Payments.Webhooks.Moves.{process_moves}
use subscription_billing_eng.World.{
  World, ok, err, Error, save_invoice, save_payment, save_subscription, save_customer,
  insert_attempt,
}
use subscription_billing_eng.Events.{emit}
use subscription_billing_eng.Customers.{save_monnify_card_token, find_customer}
use subscription_billing_eng.Invoices.{mark_paid}
use subscription_billing_eng.Renewal.Cycle.{renewed}
use subscription_billing_eng.Subscriptions.StateMachine.{can_transition, assert_transition}
use subscription_billing_eng.Subscriptions.Service.{is_subscription, transition_status}
use subscription_billing_eng.Payments.Signature.{Crypto}
use subscription_billing_eng.Payments.Webhooks.Resolve.{
  MonnifyWebhookPayload, MonnifyWebhookHeaders, resolve_payment, references, resolve_reference,
  build_event_key,
}
use subscription_billing_eng.Payments.Webhooks.Handlers.{
  settle_payment, settle_invoice, finish, persist_card_token, card_token_of, log_attempt, activate,
  record_event, with_period, settle_subscription, handle_successful_transaction,
}
use subscription_billing_eng.Payments.Webhooks.Process.{
  process, is_production, signature_problem, find_recorded, dispatch,
}
use subscription_billing_eng.Payments.Webhooks.Idempotence.{process_twice}
use subscription_billing_eng.Payments.Webhooks.Authentic.{IsSigned, process_authentic}
use subscription_billing_eng.Payments.Webhooks.Settlement.{success_pays}
use subscription_billing_eng.Tests.Fixtures.{world, subscription, payment, config}

-- A stand-in for the hashes.
abbrev crypto : Crypto
crypto = record { hmac_sha512 = λ k t. t; sha512 = λ t. t }

abbrev body : String → MonnifyWebhookPayload
body kind = record {
  event_type = kind;
  transaction_reference = some "TX";
  payment_reference = some "ref";
  product_reference = none;
  payment_description = none;
  card_token = some "token";
}

abbrev headers : MonnifyWebhookHeaders
headers = record { signature = some "abc"; raw_body = "abc" }

abbrev waiting : World
waiting = world true SubscriptionStatus.pending

abbrev production : World
production = record waiting {
  config = record config { node_env = some "production"; monnify_secret_key = some "key" };
}

abbrev success : MonnifyWebhookPayload
success = body "SUCCESSFUL_TRANSACTION"

success_done : (process crypto success headers waiting).0 ≡ ok tt
unfolding process signature_problem build_event_key find_recorded dispatch
    handle_successful_transaction resolve_payment references resolve_reference find settle_payment
    settle_invoice settle_subscription finish persist_card_token card_token_of
    save_monnify_card_token find_customer log_attempt mark_paid save_invoice save_payment
    save_subscription save_customer insert_attempt activate transition_status assert_transition
    can_transition emit record_event with_period renewed replace
success_done = refl

process_twice_example :
    process crypto success headers (process crypto success headers waiting).1
    ≡ (ok tt, (process crypto success headers waiting).1)
process_twice_example = process_twice crypto success headers waiting success_done

process_authentic_example :
    IsSigned crypto headers production
    ⊎ ((message : String) × (process crypto success headers production
          ≡ (err (Error.unauthorized message), production)))
process_authentic_example =
    process_authentic crypto success headers production (unfold is_production in refl)

success_resolved : resolve_payment success waiting ≡ ok (some payment)
unfolding resolve_payment references resolve_reference find
success_resolved = refl

success_pays_example :
    find (λ y. str_eq y.id "pay") (handle_successful_transaction success "key" waiting).1.payments
    ≡ some (record payment {
      status = PaymentStatus.succeeded;
      paid_at = some 5000;
      monnify_transaction_reference = some "TX";
      monnify_payment_reference = some "ref";
    })
success_pays_example = success_pays success "key" waiting success_resolved refl

waiting_keyed :
    (merchant key : String) (s : Subscription)
    → find (is_subscription merchant key) waiting.subscriptions ≡ some s
    → find (λ y. str_eq y.id key) waiting.subscriptions ≡ some s
unfolding find
waiting_keyed merchant key s found = ground arith

waiting_stored : subscription_by_id "sub" waiting ≡ some (subscription SubscriptionStatus.pending)
unfolding subscription_by_id find
waiting_stored = refl

process_moves_example :
    (t : Subscription) × (subscription_by_id "sub" (process crypto success headers waiting).1
      ≡ some t)
    × IsMove SubscriptionStatus.pending t.status
process_moves_example =
    process_moves crypto success headers waiting "sub" waiting_keyed waiting_stored
