-- ===== src/Recovery/Channels/Outcomes.antt =====
-- Proofs on the answers of src/recovery-channels/recovery-channels.service.ts.
use subscription_billing_eng.Prelude.Table.{find}
use subscription_billing_eng.Plans.{is_plan}
use subscription_billing_eng.Payments.Service.{charge_invoice}
use subscription_billing_eng.Dunning.Schedule.{subscription_by_id}
use subscription_billing_eng.Dunning.Queue.{by_id-save}
use subscription_billing_eng.Renewal.Outcomes.{billed_success-writes}
use subscription_billing_eng.Renewal.PaidRetries.{by_id-cong}
use subscription_billing_eng.Renewal.Cycle.{renewal_invoice, renewed}
use subscription_billing_eng.World.{save_subscription}
use subscription_billing_eng.Entities.{
  SubscriptionStatus, same_status, Plan, Payment, PaymentStatus,
}
use subscription_billing_eng.Prelude.{
  true, false, arith, ◌∙◌, some, ◌≡◌, refl, inl, inr, Bool-cases,
}
use subscription_billing_eng.Entities.{Subscription, RecoveryAction, RecoveredViaChannel}
use subscription_billing_eng.World.{World, Result, Action, ok, err, pure, catch, ◌>>=◌}
use subscription_billing_eng.Recovery.Channels.{
  RecoveryActionResult, Reply, retry, run_action, execute_action, failed_result, refresh,
  pause_by_channel, cancel_by_channel, result_of, retry_reply, recovery_channel_actor,
}
use subscription_billing_eng.Subscriptions.Service.{pause, cancel}
use subscription_billing_eng.Renewal.Cycle.{bill_subscription, is_in_dunning}

not_trialing :
    (t : SubscriptionStatus)
    → is_in_dunning t ≡ true
    → same_status t SubscriptionStatus.trialing ≡ false
not_trialing t due = ground arith

not_active :
    (t : SubscriptionStatus) → is_in_dunning t ≡ true → retry_reply t ≡ Reply.did_not_go_through
not_active t due = ground arith

-- An answer that was given, or the exception that was thrown before it.
Answered : Result RecoveryActionResult → Subscription → Type 0
Answered (ok r) s = r.previous_status ≡ s.status
Answered (err e) s = Unit

-- A call passes the exception of its first part on, and answers what its second part answers.
bind-Answered :
    {A : Type 0} (s : Subscription) (m : Action A) (k : A → Action RecoveryActionResult) (w : World)
    → ((a : A) (w' : World) → Answered (k a w').0 s)
    → Answered ((m >>= k) w).0 s
unfolding Answered
bind-Answered {A} s m k w h = on (m w)
  where
    on : (x : Result A × World) → Answered (((λ _. x) >>= k) w).0 s
    on (ok a, w') = h a w'
    on (err e, w') = tt

run_action-Answered :
    (a : RecoveryAction) (s : Subscription) (c : RecoveredViaChannel) (w : World)
    → Answered (run_action a s c w).0 s
unfolding Answered run_action retry pause_by_channel cancel_by_channel
run_action-Answered RecoveryAction.status s c w = refl
run_action-Answered RecoveryAction.retry s c w = elim (Bool-cases (is_in_dunning s.status)) [
  | inl due ↦ rw due (
      bind-Answered s (bill_subscription s (some c)) (λ _. refresh s.id >>= answer) w
        (λ _ w'. bind-Answered s (refresh s.id) answer w' (λ r v. refl)))
  | inr other ↦ rw other refl
]
  where
    answer : Subscription → Action RecoveryActionResult
    answer r = pure (result_of s.status (retry_reply r.status) r)
run_action-Answered RecoveryAction.pause s c w =
    bind-Answered s (pause s.merchant_id s.id recovery_channel_actor)
      (λ u. pure (result_of s.status Reply.paused u)) w (λ r v. refl)
run_action-Answered RecoveryAction.cancel s c w =
    bind-Answered s (cancel s.merchant_id s.id recovery_channel_actor)
      (λ u. pure (result_of s.status Reply.cancelled u)) w (λ r v. refl)

-- Whatever the action and the state, `executeAction` answers and does not throw, and the answer names
-- the status that the subscription was read with.
execute_action_answers :
    (s : Subscription) (a : RecoveryAction) (c : RecoveredViaChannel) (w : World)
    → (r : RecoveryActionResult) × ((execute_action s a c w).0 ≡ ok r)
      × (r.previous_status ≡ s.status)
unfolding execute_action Answered
execute_action_answers s a c w = on (run_action a s c w) (run_action-Answered a s c w)
  where
    on :
        (x : Result RecoveryActionResult × World)
        → Answered x.0 s
        → (r : RecoveryActionResult) × ((catch (λ _. x) (λ e. pure (failed_result s e)) w).0 ≡ ok r)
          × (r.previous_status ≡ s.status)
    on (ok r, w') h = (r, refl, h)
    on (err e, w') h = (failed_result s e, refl, refl)

-- A retry by message of a subscription that is past due, or in its grace period, answers that it did
-- not go through where the charge succeeded: the renewal leaves the status as it was.
paid_retry_denied :
    (s : Subscription) (c : RecoveredViaChannel) (w : World) {plan : Plan} {p : Payment}
    → find (is_plan s.merchant_id s.plan_id) w.plans ≡ some plan
    → subscription_by_id s.id w ≡ some s
    → is_in_dunning s.status ≡ true
    → (charge_invoice (renewal_invoice plan s w).0 (renewal_invoice plan s w).1).0 ≡ ok p
    → p.status ≡ PaymentStatus.succeeded
    → (retry s c w).0 ≡ ok (result_of s.status Reply.did_not_go_through (renewed plan w.now s))
unfolding retry refresh renewed
paid_retry_denied s c w {plan} {p} has_plan stored due answered succeeded =
    let (fine, rows, _, _) =
      billed_success-writes s (some c) w has_plan (not_trialing s.status due) answered succeeded in
    let again : subscription_by_id s.id (bill_subscription s (some c) w).1
        ≡ some (renewed plan w.now s) =
      by_id-cong s.id (bill_subscription s (some c) w).1
        (save_subscription (renewed plan w.now s) w) (rows ∙ unfold save_subscription in refl)
      ∙ by_id-save s.id w (renewed plan w.now s) stored (unfold renewed in refl) in
    let denied : retry_reply (renewed plan w.now s).status ≡ Reply.did_not_go_through =
      unfold renewed in not_active s.status due in
    ground (arith, fine, again, denied)
