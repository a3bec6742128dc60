-- ===== src/Recovery/Email/Once.antt =====
-- Proofs on src/recovery-channels/email-recovery.controller.ts: one link, opened again.
use subscription_billing_eng.Prelude.{
  ℕ, ◌≤◌, Bool, false, String, Option, ◌≡◌, refl, arith, is_empty, inl, inr, Bool-cases,
}
use subscription_billing_eng.Entities.{
  Plan, Payment, Invoice, Subscription, SubscriptionStatus, RecoveryAction, RecoveredViaChannel,
  same_status,
}
use subscription_billing_eng.World.{
  World, ok, save_subscription, save_invoice, save_payment, insert_payment, insert_attempt,
  insert_invoice, enqueue_dunning,
}
use subscription_billing_eng.Events.{emit, log, DomainEventPayload}
use subscription_billing_eng.Customers.{find_customer}
use subscription_billing_eng.Invoices.{create_invoice, mark_paid, mark_failed}
use subscription_billing_eng.Payments.Monnify.{charge}
use subscription_billing_eng.Payments.Service.{
  charge_invoice, charge_with_token, fail_without_token,
}
use subscription_billing_eng.Subscriptions.StateMachine.{assert_transition}
use subscription_billing_eng.Subscriptions.Service.{
  find_subscription, pause, cancel, emit_updated, transition_status,
}
use subscription_billing_eng.Dunning.Schedule.{
  suspend_subscription, schedule_attempt, schedule_retry, on_payment_failed,
}
use subscription_billing_eng.Renewal.Cycle.{
  bill_subscription, end_trial, charge_renewal, settle, settle_success, settle_failure,
  renewal_invoice, announce_renewal,
}
use subscription_billing_eng.Recovery.Links.{redeem, use_links}
use subscription_billing_eng.Recovery.Links.SingleUse.{used_up}
use subscription_billing_eng.Recovery.Channels.{
  execute_action, run_action, retry, refresh, pause_by_channel, cancel_by_channel,
}
use subscription_billing_eng.Recovery.Email.{Page, follow, handle}

emit-recovery_links :
    (t : String) (p : DomainEventPayload) (w : World)
    → (emit t p w).recovery_links ≡ w.recovery_links
unfolding emit
emit-recovery_links t p w = ground arith

charge-recovery_links :
    (i : Invoice) (w : World) → (charge_invoice i w).1.recovery_links ≡ w.recovery_links
unfolding charge_invoice charge_with_token fail_without_token charge find_customer save_payment
    insert_payment insert_attempt
charge-recovery_links i w = grind (arith, emit-recovery_links)

transition_status-recovery_links :
    (s : Subscription) (t : SubscriptionStatus) (w : World)
    → (transition_status s t w).1.recovery_links ≡ w.recovery_links
unfolding transition_status assert_transition save_subscription
transition_status-recovery_links s t w = ground arith

on_payment_failed-recovery_links :
    (id : String) (w : World) → (on_payment_failed id w).1.recovery_links ≡ w.recovery_links
unfolding on_payment_failed schedule_retry schedule_attempt suspend_subscription enqueue_dunning
on_payment_failed-recovery_links id w =
    grind (arith, emit-recovery_links, transition_status-recovery_links)

settle-recovery_links :
    (d : Bool) (via : Option RecoveredViaChannel) (plan : Plan) (s : Subscription) (i : Invoice)
    (x : Payment) (w : World)
    → (settle d via plan s i x w).1.recovery_links ≡ w.recovery_links
unfolding settle settle_success settle_failure announce_renewal mark_paid mark_failed save_invoice
    save_subscription
settle-recovery_links d via plan s i x w =
    grind (
      arith, emit-recovery_links, transition_status-recovery_links,
      on_payment_failed-recovery_links,
    )

charge_renewal-recovery_links :
    (d : Bool) (via : Option RecoveredViaChannel) (plan : Plan) (s : Subscription) (w : World)
    → (charge_renewal d via plan s w).1.recovery_links ≡ w.recovery_links
unfolding charge_renewal renewal_invoice create_invoice insert_invoice
charge_renewal-recovery_links d via plan s w =
    grind (arith, charge-recovery_links, settle-recovery_links)

end_trial-recovery_links :
    (s : Subscription) (w : World) → (end_trial s w).1.recovery_links ≡ w.recovery_links
unfolding end_trial
end_trial-recovery_links s w =
    elim (Bool-cases (same_status s.status SubscriptionStatus.trialing)) [
      | inl trial ↦ rw trial (transition_status-recovery_links s SubscriptionStatus.active w)
      | inr other ↦ rw other refl
    ]

bill_subscription-recovery_links :
    (s : Subscription) (via : Option RecoveredViaChannel) (w : World)
    → (bill_subscription s via w).1.recovery_links ≡ w.recovery_links
unfolding bill_subscription
bill_subscription-recovery_links s via w =
    grind (arith, end_trial-recovery_links, charge_renewal-recovery_links)

pause-recovery_links :
    (m id actor : String) (w : World) → (pause m id actor w).1.recovery_links ≡ w.recovery_links
unfolding pause find_subscription assert_transition emit_updated log save_subscription
pause-recovery_links m id actor w = grind (arith, emit-recovery_links)

cancel-recovery_links :
    (m id actor : String) (w : World) → (cancel m id actor w).1.recovery_links ≡ w.recovery_links
unfolding cancel find_subscription assert_transition log save_subscription
cancel-recovery_links m id actor w = grind (arith, emit-recovery_links)

execute_action-recovery_links :
    (s : Subscription) (a : RecoveryAction) (c : RecoveredViaChannel) (w : World)
    → (execute_action s a c w).1.recovery_links ≡ w.recovery_links
unfolding execute_action run_action retry refresh pause_by_channel cancel_by_channel
execute_action-recovery_links s a c w =
    grind (arith, bill_subscription-recovery_links, pause-recovery_links, cancel-recovery_links)

handle-recovery_links :
    (token : String) (w : World)
    → is_empty token ≡ false
    → (handle token w).1.recovery_links ≡ use_links token w.now w.recovery_links
unfolding handle follow redeem find_subscription
handle-recovery_links token w h = grind (arith, execute_action-recovery_links)

-- A link that was opened, whatever came of it, is refused when it is opened at any later time: its
-- action runs at most once.
pub handle_once :
    (token : String) (w : World) (n : ℕ)
    → w.now ≤ n
    → is_empty token ≡ false
    → (handle token (record (handle token w).1 { now = n })).0
      ≡ ok (Page.refused "This link has already been used or has expired.")
unfolding handle follow redeem
handle_once token w n h given =
    let links = handle-recovery_links token w given in
    let none_left = used_up token w.now n w.recovery_links h in ground (arith, links, none_left)
