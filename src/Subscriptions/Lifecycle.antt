-- ===== src/Subscriptions/Lifecycle.antt =====
-- `pause`, `resume`, `cancel` and `reactivate` of src/subscriptions/subscriptions.service.ts, on every
-- branch: what they answer, the rows they change, and what they leave alone.
use subscription_billing_eng.Prelude.{
  ℕ, true, false, String, some, none, ◌≡◌, inl, inr, ap, arith, str_eq, Bool-cases, Option-cases,
}
use subscription_billing_eng.Prelude.Table.{find, save, find-save, find-holds}
use subscription_billing_eng.Entities.{Subscription, SubscriptionStatus}
use subscription_billing_eng.World.{World, Action, Error, ok, err, save_subscription}
use subscription_billing_eng.World.Frame.{and-left, str_eq-join}
use subscription_billing_eng.Events.{log}
use subscription_billing_eng.Events.Frame.{emit-subscriptions, emit-payments, emit-invoices}
use subscription_billing_eng.Subscriptions.StateMachine.{
  can_transition, assert_transition, transition_error,
}
use subscription_billing_eng.Subscriptions.Service.{
  is_subscription, find_subscription, pause, resume, cancel, reactivate, emit_updated,
}

pub data Operation : Type 0 where
  pausing resuming cancelling reactivating : Operation

unfoldable pub perform : Operation → String → String → String → Action Subscription
perform Operation.pausing = pause
perform Operation.resuming = resume
perform Operation.cancelling = cancel
perform Operation.reactivating = reactivate

-- The status that an operation leads to.
abbrev pub target : Operation → SubscriptionStatus
target Operation.pausing = SubscriptionStatus.suspended
target Operation.resuming = SubscriptionStatus.active
target Operation.cancelling = SubscriptionStatus.cancelled
target Operation.reactivating = SubscriptionStatus.active

-- The row that an operation writes.
abbrev pub changed : Operation → ℕ → Subscription → Subscription
changed Operation.pausing now s = record s {
  status = SubscriptionStatus.suspended;
  paused_at = some now;
}
changed Operation.resuming now s = record s { status = SubscriptionStatus.active; paused_at = none }
changed Operation.cancelling now s = record s {
  status = SubscriptionStatus.cancelled;
  cancelled_at = some now;
}
changed Operation.reactivating now s = record s {
  status = SubscriptionStatus.active;
  cancelled_at = none;
}

pub changed-id : (op : Operation) (now : ℕ) (s : Subscription) → (changed op now s).id ≡ s.id
changed-id op now s = ground arith

changed-merchant_id :
    (op : Operation) (now : ℕ) (s : Subscription) → (changed op now s).merchant_id ≡ s.merchant_id
changed-merchant_id op now s = ground arith

pub changed-status :
    (op : Operation) (now : ℕ) (s : Subscription) → (changed op now s).status ≡ target op
changed-status op now s = ground arith

module _ (m id : String) (w : World) {s : Subscription}
    (found : find (is_subscription m id) w.subscriptions ≡ some s) where
  -- A row of the same identifier and merchant, saved, is what the search finds.
  pub find-save_subscription :
      (u : Subscription)
      → u.id ≡ s.id
      → u.merchant_id ≡ s.merchant_id
      → find (is_subscription m id) (save (λ x. x.id) u w.subscriptions) ≡ some u
  find-save_subscription u same_id same_merchant =
      find-save (λ x. x.id) (is_subscription m id) u w.subscriptions hit only
    where
      holds : is_subscription m id s ≡ true
      holds = find-holds (is_subscription m id) w.subscriptions found

      hit : is_subscription m id u ≡ true
      hit = rw (same_id, same_merchant) holds

      only : (x : Subscription) → is_subscription m id x ≡ true → str_eq x.id u.id ≡ true
      only x h = rw same_id (
          str_eq-join x.id s.id id (and-left _ (str_eq x.merchant_id m) h)
            (and-left _ (str_eq s.merchant_id m) holds))

module _ (op : Operation) (m id actor : String) (w : World) {s : Subscription}
    (found : find (is_subscription m id) w.subscriptions ≡ some s) where
  module _ (allowed : can_transition s.status (target op) ≡ true) where
    pub performed : (perform op m id actor w).0 ≡ ok (changed op w.now s)
    unfolding perform pause resume cancel reactivate find_subscription assert_transition
    performed = ground arith

    pub performed-subscriptions :
        (perform op m id actor w).1.subscriptions
        ≡ save (λ x. x.id) (changed op w.now s) w.subscriptions
    unfolding perform pause resume cancel reactivate find_subscription assert_transition
        emit_updated log save_subscription
    performed-subscriptions = grind (arith, emit-subscriptions)

    performed-invoices : (perform op m id actor w).1.invoices ≡ w.invoices
    unfolding perform pause resume cancel reactivate find_subscription assert_transition
        emit_updated log save_subscription
    performed-invoices = grind (arith, emit-invoices)

    performed-payments : (perform op m id actor w).1.payments ≡ w.payments
    unfolding perform pause resume cancel reactivate find_subscription assert_transition
        emit_updated log save_subscription
    performed-payments = grind (arith, emit-payments)

    -- Where the merchant has the subscription and the table allows the target status, the operation
    -- answers the changed row, the search finds that row afterwards, and no invoice and no payment
    -- changes.
    pub perform-ok :
        ((perform op m id actor w).0 ≡ ok (changed op w.now s))
        × (find (is_subscription m id) (perform op m id actor w).1.subscriptions
            ≡ some (changed op w.now s))
        × ((perform op m id actor w).1.invoices ≡ w.invoices)
        × ((perform op m id actor w).1.payments ≡ w.payments)
    perform-ok = (
      performed,
      rw performed-subscriptions (
          find-save_subscription m id w found (changed op w.now s) (changed-id op w.now s)
            (changed-merchant_id op w.now s)),
      performed-invoices,
      performed-payments,
    )

  -- Where the table does not allow it, the operation throws, and nothing changes.
  pub perform-refused :
      can_transition s.status (target op) ≡ false
      → perform op m id actor w ≡ (err (transition_error s.status (target op)), w)
  unfolding perform pause resume cancel reactivate find_subscription assert_transition
  perform-refused refused = ground arith

-- A merchant that has no such subscription gets `not found`, and nothing changes.
pub perform-missing :
    (op : Operation) (m id actor : String) (w : World)
    → find (is_subscription m id) w.subscriptions ≡ none
    → perform op m id actor w ≡ (err (Error.not_found "Subscription not found"), w)
unfolding perform pause resume cancel reactivate find_subscription
perform-missing op m id actor w missing = ground arith

-- An operation that throws changed nothing: there is no half-made pause, resume, cancellation or
-- reactivation.
pub perform_atomic :
    (op : Operation) (m id actor : String) (w : World) {e : Error}
    → (perform op m id actor w).0 ≡ err e
    → (perform op m id actor w).1 ≡ w
perform_atomic op m id actor w {e} h =
    elim (Option-cases (find (is_subscription m id) w.subscriptions)) [
      | inl missing ↦ ap (λ r. r.1) (perform-missing op m id actor w missing)
      | inr (s, found) ↦ elim (Bool-cases (can_transition s.status (target op))) [
        | inl allowed ↦ cc (performed op m id actor w found allowed)
        | inr refused ↦ ap (λ r. r.1) (perform-refused op m id actor w found refused)
      ]
    ]

-- An operation that answers a row has found a subscription of the merchant whose status the table
-- lets go to the answered status, and the search finds the answered row afterwards.
pub perform_guarded :
    (op : Operation) (m id actor : String) (w : World) {s' : Subscription}
    → (perform op m id actor w).0 ≡ ok s'
    → (s : Subscription) × (find (is_subscription m id) w.subscriptions ≡ some s)
      × (can_transition s.status s'.status ≡ true)
      × (s'.status ≡ target op)
      × (find (is_subscription m id) (perform op m id actor w).1.subscriptions ≡ some s')
perform_guarded op m id actor w {s'} h =
    elim (Option-cases (find (is_subscription m id) w.subscriptions)) [
      | inl missing ↦ cc (perform-missing op m id actor w missing)
      | inr (s, found) ↦ elim (Bool-cases (can_transition s.status (target op))) [
        | inr refused ↦ cc (perform-refused op m id actor w found refused)
        | inl allowed ↦
            let (answer, after, _, _) = perform-ok op m id actor w found allowed in
            let same : s' ≡ changed op w.now s = cc in
            let at_target : s'.status ≡ target op = rw same (changed-status op w.now s) in
            (s, found, rw at_target allowed, at_target, rw same after)
      ]
    ]

-- `resume` activates a subscription whose first payment was never made: from `pending` it answers an
-- active subscription, and no invoice and no payment changes.
resume_unpaid :
    (m id actor : String) (w : World) {s : Subscription}
    → find (is_subscription m id) w.subscriptions ≡ some s
    → s.status ≡ SubscriptionStatus.pending
    → (find (is_subscription m id) (resume m id actor w).1.subscriptions
        ≡ some (record s { status = SubscriptionStatus.active; paused_at = none }))
      × ((resume m id actor w).1.invoices ≡ w.invoices)
      × ((resume m id actor w).1.payments ≡ w.payments)
unfolding perform can_transition
resume_unpaid m id actor w found p =
    let (_, after, invoices, payments) = perform-ok Operation.resuming m id actor w found (rw p) in
    (after, invoices, payments)
