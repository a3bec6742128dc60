-- ===== src/Tests/Running.antt =====
-- Demonstrations, and telephone numbers, at concrete rows.
use subscription_billing_eng.Prelude.{
  ℕ, String, ◌≡◌, refl, false, none, some, [], ◌∷◌, ◌&&◌, str_eq, get_elem?, arith,
}
use subscription_billing_eng.Prelude.Table.{find}
use subscription_billing_eng.Entities.{SubscriptionStatus, Subscription, Customer, Payment}
use subscription_billing_eng.World.{World, ok}
use subscription_billing_eng.Dunning.Schedule.{subscription_by_id}
use subscription_billing_eng.Subscriptions.Service.{is_subscription}
use subscription_billing_eng.Renewal.Billings.{IsBilling}
use subscription_billing_eng.Payments.Signature.{Crypto}
use subscription_billing_eng.Payments.Webhooks.Process.{process}
use subscription_billing_eng.Chaos.{set_rules}
use subscription_billing_eng.ChaosScenarioRunner.{
  RunScenarioDto, RunScenarioResult, choose_payment, duplicate_payload, duplicate_patch, no_headers,
  run, run_duplicate_webhook,
}
use subscription_billing_eng.ChaosScenarioRunner.Runs.{run_moves, run_duplicate_webhook_once}
use subscription_billing_eng.Recovery.Phones.{
  has_phone, normalize_phone, find_subscription_by_phone, find_subscription_by_phone-owned,
}
use subscription_billing_eng.Prelude.Table.{replace}
use subscription_billing_eng.World.{
  save_invoice, save_payment, save_subscription, save_customer, insert_attempt,
}
use subscription_billing_eng.Events.{emit}
use subscription_billing_eng.Customers.{save_monnify_card_token, find_customer}
use subscription_billing_eng.Invoices.{mark_paid}
use subscription_billing_eng.Renewal.Cycle.{renewed}
use subscription_billing_eng.Subscriptions.StateMachine.{can_transition, assert_transition}
use subscription_billing_eng.Subscriptions.Service.{transition_status}
use subscription_billing_eng.Payments.Webhooks.Resolve.{
  resolve_payment, references, resolve_reference, build_event_key,
}
use subscription_billing_eng.Payments.Webhooks.Handlers.{
  settle_payment, settle_invoice, finish, persist_card_token, card_token_of, log_attempt, activate,
  record_event, with_period, settle_subscription, handle_successful_transaction,
}
use subscription_billing_eng.Payments.Webhooks.Process.{signature_problem, find_recorded, dispatch}
use subscription_billing_eng.Payments.Reference.{decimal, skip_spaces}
use subscription_billing_eng.Tests.Fixtures.{world, subscription, customer}

-- A stand-in for the hashes.
abbrev crypto : Crypto
crypto = record { hmac_sha512 = λ k t. t; sha512 = λ t. t }

abbrev state : World
state = record (world false SubscriptionStatus.active) {
  customers = record customer { phone = some "+234" } ∷ [];
}

keyed :
    (merchant key : String) (s : Subscription)
    → find (is_subscription merchant key) state.subscriptions ≡ some s
    → find (λ y. str_eq y.id key) state.subscriptions ≡ some s
unfolding find
keyed merchant key s found = ground arith

stored : subscription_by_id "sub" state ≡ some (subscription SubscriptionStatus.active)
unfolding subscription_by_id
stored = refl

abbrev dto : RunScenarioDto
dto = record { subscription_id = none; payment_id = some "pay" }

run_moves_example :
    (t : Subscription) × (subscription_by_id "sub" (run crypto "m" "expired-card" dto state).1
      ≡ some t)
    × IsBilling SubscriptionStatus.active t.status
run_moves_example = run_moves crypto "m" "expired-card" dto state "sub" keyed stored

abbrev waiting : World
waiting = world false SubscriptionStatus.pending

abbrev duplicated : RunScenarioResult
duplicated = record {
  scenario_id = "duplicate-webhook";
  subscription_id = some "sub";
  payment_id = some "pay";
  correlation_id = none;
  message = "Duplicate SUCCESSFUL_TRANSACTION webhook replayed. Second delivery should be ignored.";
}

answered : (run_duplicate_webhook crypto "m" (some "pay") waiting).0 ≡ ok duplicated
unfolding run_duplicate_webhook decimal process signature_problem build_event_key find_recorded
    dispatch handle_successful_transaction resolve_payment references resolve_reference find
    settle_payment settle_invoice settle_subscription finish persist_card_token card_token_of
    save_monnify_card_token find_customer log_attempt mark_paid save_invoice save_payment
    save_subscription save_customer insert_attempt activate transition_status assert_transition
    can_transition emit record_event with_period renewed replace
answered = refl

run_duplicate_webhook_once_example :
    (p : Payment) × (choose_payment "m" (some "pay") waiting ≡ some p)
    × ((run_duplicate_webhook crypto "m" (some "pay") waiting).1
        ≡ (process crypto
            (duplicate_payload p 5000)
            no_headers
            (set_rules "m" duplicate_patch waiting).1).1)
run_duplicate_webhook_once_example =
    run_duplicate_webhook_once crypto "m" (some "pay") waiting answered

by_phone :
    (find_subscription_by_phone "whatsapp:+234" state).0
    ≡ ok (subscription SubscriptionStatus.active)
unfolding find_subscription_by_phone skip_spaces
by_phone = refl

find_subscription_by_phone-owned_example :
    (c : Customer) × (find
        (λ x. has_phone (normalize_phone "whatsapp:+234") x && str_eq x.id "cust")
        state.customers
      ≡ some c)
    × ((n : ℕ) × (get_elem? state.subscriptions n ≡ some (subscription SubscriptionStatus.active)))
find_subscription_by_phone-owned_example =
    find_subscription_by_phone-owned "whatsapp:+234" state by_phone
