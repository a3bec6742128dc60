-- ===== src/ChaosScenarioRunner/Runs.antt =====
-- Proofs on src/chaos/chaos-scenario.runner.ts.
use text.Mathlib.TextEquality.{eq_iff}
use subscription_billing_eng.Prelude.{
  String, Option, none, some, ◌≡◌, ◌⊎◌, inl, inr, refl, ap, sym, ◌∙◌, arith, str_eq, Bool-cases,
  Option-cases,
}
use subscription_billing_eng.Prelude.Table.{find, find-holds}
use subscription_billing_eng.Entities.{Subscription, Payment}
use subscription_billing_eng.World.{World, Error, Result, Result-cases, ok, err, save_customer}
use subscription_billing_eng.World.Frame.{and-left, if-keeps}
use subscription_billing_eng.Events.{emit}
use subscription_billing_eng.Chaos.{ChaosPatch, set_rules, assert_enabled, is_enabled, write_rule}
use subscription_billing_eng.Dunning.Schedule.{subscription_by_id}
use subscription_billing_eng.Subscriptions.Service.{is_subscription}
use subscription_billing_eng.Subscriptions.StateMachine.Graph.{IsMove}
use subscription_billing_eng.Subscriptions.StateMachine.Follows.{
  FollowsBy, FollowsBy-same, FollowsBy-start, FollowsBy-map,
}
use subscription_billing_eng.Payments.Signature.{Crypto}
use subscription_billing_eng.Payments.Webhooks.Process.{process}
use subscription_billing_eng.Payments.Webhooks.Idempotence.{process_twice}
use subscription_billing_eng.Payments.Webhooks.Moves.{process_moves}
use subscription_billing_eng.Renewal.Cycle.{bill_subscription}
use subscription_billing_eng.Renewal.Billings.{IsBilling, bill_subscription_moves}
use subscription_billing_eng.ChaosScenarioRunner.{
  RunScenarioDto, RunScenarioResult, choose_subscription, ensure_demo_card_token,
  resolve_billable_subscription, emit_scenario_started, run_billing, choose_payment,
  duplicate_payload, duplicate_patch, no_headers, run_duplicate_webhook, run_scenario, run,
  insufficient_funds_patch, insufficient_funds_message, expired_card_patch, expired_card_message,
  webhook_failure_patch, webhook_failure_message, slow_gateway_patch, slow_gateway_message,
  run_insufficient_funds, run_expired_card, run_webhook_failure, run_slow_gateway,
}

set_rules-subscriptions :
    (m : String) (p : ChaosPatch) (w : World) → (set_rules m p w).1.subscriptions ≡ w.subscriptions
unfolding set_rules write_rule
set_rules-subscriptions m p w = ground arith

ensure-subscriptions :
    (s : Subscription) (w : World) → (ensure_demo_card_token s w).subscriptions ≡ w.subscriptions
unfolding ensure_demo_card_token save_customer
ensure-subscriptions s w = ground arith

emit_started-subscriptions :
    (m : String) (s : Subscription) (id : String) (w : World)
    → (emit_scenario_started m s id w).subscriptions ≡ w.subscriptions
unfolding emit_scenario_started emit
emit_started-subscriptions m s id w = ground arith

-- The resolution of a subscription changes none, and answers a stored one.
resolve-subscriptions :
    (m : String) (id : Option String) (w : World)
    → (resolve_billable_subscription m id w).1.subscriptions ≡ w.subscriptions
unfolding resolve_billable_subscription
resolve-subscriptions m id w = grind (arith, ensure-subscriptions)

resolve-stored :
    (m : String) (id : Option String) (w : World) {s : Subscription}
    → (resolve_billable_subscription m id w).0 ≡ ok s
    → (key : String) × (find (is_subscription m key) w.subscriptions ≡ some s)
resolve-stored m id w {s} answered = elim (Option-cases (choose_subscription m id w)) [
  | inl nothing ↦ unfold resolve_billable_subscription in ground arith
  | inr (chosen, found) ↦
      (chosen.id, unfold resolve_billable_subscription in grind (arith, ensure-subscriptions))
]

-- The states of a demonstration by a billing: it stops before the billing, or ends with what that left.
run_billing_lem :
    (id message : String) (p : ChaosPatch) (m : String) (named : Option String) (w : World)
    → ((run_billing id message p m named w).1.subscriptions ≡ w.subscriptions)
      ⊎ ((key : String) × (s : Subscription) × (v : World) × (find
              (is_subscription m key)
              w.subscriptions
            ≡ some s)
          × (v.subscriptions ≡ w.subscriptions)
          × ((run_billing id message p m named w).1 ≡ (bill_subscription s none v).1))
run_billing_lem id message p m named w =
    elim (Result-cases (resolve_billable_subscription m named w).0) [
      | inl (x, refused) ↦
          inl (unfold run_billing in ground (arith, resolve-subscriptions m named w))
      | inr (s, resolved) ↦
          let w₁ = (resolve_billable_subscription m named w).1 in
          elim (Result-cases (set_rules m p w₁).0) [
            | inl (x, refused) ↦ inl (
                unfold run_billing in
                ground (arith, resolve-subscriptions m named w, set_rules-subscriptions m p w₁))
            | inr (r, set) ↦
                let (key, stored) = resolve-stored m named w {s = s} resolved in
                let w₂ = (set_rules m p w₁).1 in
                let v = emit_scenario_started m s id w₂ in
                inr (
                  key,
                  s,
                  v,
                  stored,
                  emit_started-subscriptions m s id w₂
                      ∙ set_rules-subscriptions m p w₁
                      ∙ resolve-subscriptions m named w,
                  unfold run_billing in ground arith,
                )
          ]
    ]

module _ (w : World)
    (keyed : (merchant key : String) (s : Subscription)
      → find (is_subscription merchant key) w.subscriptions ≡ some s
      → find (λ y. str_eq y.id key) w.subscriptions ≡ some s) where
  run_billing-Follows :
      (id message : String) (p : ChaosPatch) (m : String) (named : Option String)
      → FollowsBy IsBilling w (run_billing id message p m named w).1
  run_billing-Follows id message p m named = elim (run_billing_lem id message p m named w) [
    | inl same ↦
        FollowsBy-same IsBilling (λ a. inl (inl refl)) w (run_billing id message p m named w).1 same
    | inr (key, s, v, stored, same, ends) ↦
        let at : s.id ≡ key = (eq_iff s.id key).0 (
          and-left _ (str_eq s.merchant_id m)
            (find-holds (is_subscription m key) w.subscriptions stored)) in
        let own : subscription_by_id s.id v ≡ some s =
          unfold subscription_by_id in
          (ap (find (λ y. str_eq y.id s.id)) same
            ∙ ap (λ k. find (λ y. str_eq y.id k) w.subscriptions) at
            ∙ keyed m key s stored) in
        rw ends (
          FollowsBy-start IsBilling w v (bill_subscription s none v).1 same
            (λ k t found. bill_subscription_moves s none v k own found))
  ]

module _ (crypto : Crypto) where
  -- The states of the duplicate: no payment, no rules, or one processing of the webhook, whatever that
  -- came to.
  run_duplicate_lem :
      (m : String) (named : Option String) (w : World)
      → ((run_duplicate_webhook crypto m named w).1.subscriptions ≡ w.subscriptions)
          × ((e : Error) × ((run_duplicate_webhook crypto m named w).0 ≡ err e))
        ⊎ ((p : Payment) × (choose_payment m named w ≡ some p)
            × ((run_duplicate_webhook crypto m named w).1
                ≡ (process crypto
                    (duplicate_payload p w.now)
                    no_headers
                    (set_rules m duplicate_patch w).1).1))
  run_duplicate_lem m named w = elim (Option-cases (choose_payment m named w)) [
    | inl nothing ↦ inl (
      unfold run_duplicate_webhook in ground arith,
      (
        Error.bad_request "No payment found. Create a subscription checkout first.",
        unfold run_duplicate_webhook in ground arith,
      ),
    )
    | inr (p, chosen) ↦ elim (Result-cases (set_rules m duplicate_patch w).0) [
      | inl (x, refused) ↦ inl (
        unfold run_duplicate_webhook in ground (arith, set_rules-subscriptions m duplicate_patch w),
        (x, unfold run_duplicate_webhook in ground arith),
      )
      | inr (r, set) ↦
          let payload = duplicate_payload p w.now in
          let v = (set_rules m duplicate_patch w).1 in
          elim (Result-cases (process crypto payload no_headers v).0) [
            | inl (x, thrown) ↦ inr (p, chosen, unfold run_duplicate_webhook in ground arith)
            | inr (u, done) ↦ inr (
              p,
              chosen,
              unfold run_duplicate_webhook in
                  ground (arith, process_twice crypto payload no_headers v done),
            )
          ]
    ]
  ]

  -- A duplicate that is answered leaves the state that one delivery of its webhook leaves: the second
  -- changes nothing.
  pub run_duplicate_webhook_once :
      (m : String) (named : Option String) (w : World) {r : RunScenarioResult}
      → (run_duplicate_webhook crypto m named w).0 ≡ ok r
      → (p : Payment) × (choose_payment m named w ≡ some p)
        × ((run_duplicate_webhook crypto m named w).1
            ≡ (process crypto
                (duplicate_payload p w.now)
                no_headers
                (set_rules m duplicate_patch w).1).1)
  run_duplicate_webhook_once m named w {r} answered = elim (run_duplicate_lem m named w) [
    | inl (same, (e, thrown)) ↦ cc
    | inr once ↦ once
  ]

  run_duplicate-Follows :
      (w : World) (m : String) (named : Option String)
      → ((merchant key : String) (s : Subscription)
          → find (is_subscription merchant key) w.subscriptions ≡ some s
          → find (λ y. str_eq y.id key) w.subscriptions ≡ some s)
      → FollowsBy IsBilling w (run_duplicate_webhook crypto m named w).1
  run_duplicate-Follows w m named keyed = elim (run_duplicate_lem m named w) [
    | inl (same, thrown) ↦
        FollowsBy-same IsBilling (λ a. inl (inl refl)) w (run_duplicate_webhook crypto m named w).1
          same
    | inr (p, chosen, ends) ↦
        let v = (set_rules m duplicate_patch w).1 in
        let same : v.subscriptions ≡ w.subscriptions =
          set_rules-subscriptions m duplicate_patch w in
        rw ends (
          FollowsBy-map IsMove IsBilling (λ a b m. inl m) w
            (process crypto (duplicate_payload p w.now) no_headers v).1
            (FollowsBy-start IsMove w v (process crypto (duplicate_payload p w.now) no_headers v).1
              same
              (λ k t found.
                process_moves crypto (duplicate_payload p w.now) no_headers v k
                  (λ merchant key s h.
                    ap (find (λ y. str_eq y.id key)) same
                    ∙ keyed merchant key s
                        (ap (find (is_subscription merchant key)) (sym same) ∙ h))
                  found)))
  ]

  run_scenario-Follows :
      (m id : String) (dto : RunScenarioDto) (w : World)
      → ((merchant key : String) (s : Subscription)
          → find (is_subscription merchant key) w.subscriptions ≡ some s
          → find (λ y. str_eq y.id key) w.subscriptions ≡ some s)
      → FollowsBy IsBilling w (run_scenario crypto m id dto w).1
  unfolding run_scenario
  run_scenario-Follows m id dto w keyed =
      let P : Result RunScenarioResult × World → Type 0 = λ r. FollowsBy IsBilling w r.1 in
      let sid = dto.subscription_id in
      if-keeps P (str_eq id "insufficient-funds") _ _ w
        (unfold run_insufficient_funds in
          run_billing-Follows w keyed "insufficient-funds" insufficient_funds_message
            insufficient_funds_patch m sid)
        (if-keeps P (str_eq id "expired-card") _ _ w
          (unfold run_expired_card in
            run_billing-Follows w keyed "expired-card" expired_card_message expired_card_patch m
              sid)
          (if-keeps P (str_eq id "webhook-failure") _ _ w
            (unfold run_webhook_failure in
              run_billing-Follows w keyed "webhook-failure" webhook_failure_message
                webhook_failure_patch m sid)
            (if-keeps P (str_eq id "slow-gateway") _ _ w
              (unfold run_slow_gateway in
                run_billing-Follows w keyed "slow-gateway" slow_gateway_message slow_gateway_patch m
                  sid)
              (if-keeps P (str_eq id "duplicate-webhook") _ _ w
                (run_duplicate-Follows w m dto.payment_id keyed)
                (FollowsBy-same IsBilling (λ a. inl (inl refl)) w w refl)))))

  -- A demonstration, whatever it is and however it ends, keeps every subscription, with the same
  -- status, with one that the transition table allows next, or past due after a trial, where
  -- identifiers are primary keys.
  pub run_moves :
      (m id : String) (dto : RunScenarioDto) (w : World) (of : String) {t : Subscription}
      → ((merchant key : String) (s : Subscription)
          → find (is_subscription merchant key) w.subscriptions ≡ some s
          → find (λ y. str_eq y.id key) w.subscriptions ≡ some s)
      → subscription_by_id of w ≡ some t
      → (t' : Subscription) × (subscription_by_id of (run crypto m id dto w).1 ≡ some t')
        × IsBilling t.status t'.status
  run_moves m id dto w of {t} keyed found = elim (Bool-cases (is_enabled w)) [
    | inl on ↦
        let e : (run crypto m id dto w).1 ≡ (run_scenario crypto m id dto w).1 =
          unfold run assert_enabled in ground arith in
        rw e (run_scenario-Follows m id dto w keyed of t found)
    | inr off ↦
        let e : (run crypto m id dto w).1 ≡ w = unfold run assert_enabled in ground arith in
        rw e (t, found, inl (inl refl))
  ]
