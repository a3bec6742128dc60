-- ===== src/Renewal/Moves.antt =====
-- Lemmas on the steps of src/billing/billing.service.ts and src/dunning/dunning.service.ts, against the
-- transition table.
use subscription_billing_eng.Prelude.{
  ℕ, Bool, true, false, String, Option, some, ◌≡◌, ◌⊎◌, refl, ap, ◌∙◌, inl, inr, arith, ltb, str_eq,
  Bool-cases, Option-cases,
}
use subscription_billing_eng.Prelude.Table.{find, find-holds}
use subscription_billing_eng.Entities.{
  Invoice, Payment, PaymentStatus, same_payment_status, Plan, Subscription, SubscriptionStatus,
  RecoveredViaChannel,
}
use subscription_billing_eng.World.{World, ok, err, save_subscription, save_invoice}
use subscription_billing_eng.Events.Frame.{emit-subscriptions}
use subscription_billing_eng.Invoices.{mark_paid, mark_failed}
use subscription_billing_eng.Subscriptions.StateMachine.{
  can_transition, assert_transition, transition_error,
}
use subscription_billing_eng.Subscriptions.StateMachine.Follows.{
  FollowsBy, FollowsBy-same, FollowsBy-start, FollowsBy-end, FollowsBy-save, Follows, Follows-same,
  Follows-save,
}
use subscription_billing_eng.Subscriptions.Service.{transition_status}
use subscription_billing_eng.Dunning.Schedule.{
  subscription_by_id, suspend_subscription, schedule_retry, on_payment_failed,
}
use subscription_billing_eng.Dunning.Queue.{schedule_retry_within}
use text.Mathlib.TextEquality.{eq_iff}
use subscription_billing_eng.Renewal.PaidRetries.{by_id-cong}
use subscription_billing_eng.Renewal.Cycle.{
  settle, settle_success, settle_failure, renewed, announce_renewal,
}

-- A transition that the table allows is saved, and another throws and changes nothing.
pub transition_status_lem :
    (s : Subscription) (to : SubscriptionStatus) (w : World)
    → ((can_transition s.status to ≡ true)
        × (transition_status s to w
            ≡ (ok (record s { status = to }), save_subscription (record s { status = to }) w)))
      ⊎ (transition_status s to w ≡ (err (transition_error s.status to), w))
unfolding transition_status assert_transition
transition_status_lem s to w = elim (Bool-cases (can_transition s.status to)) [
  | inl allowed ↦ inl (allowed, ground arith)
  | inr refused ↦ inr (ground arith)
]

transition_status-Follows :
    (s : Subscription) (to : SubscriptionStatus) (w : World)
    → subscription_by_id s.id w ≡ some s
    → Follows w (transition_status s to w).1
transition_status-Follows s to w stored = elim (transition_status_lem s to w) [
  | inl (allowed, moved) ↦ rw moved (Follows-save (record s { status = to }) w stored (inr allowed))
  | inr thrown ↦ rw thrown (Follows-same w w refl)
]

-- A row that is found is found under its own identifier.
pub by_own_id :
    (id : String) (w : World) {s : Subscription}
    → subscription_by_id id w ≡ some s
    → subscription_by_id s.id w ≡ some s
unfolding subscription_by_id
by_own_id id w {s} h =
    ap (λ x. find (λ y. str_eq y.id x) w.subscriptions)
      ((eq_iff s.id id).0 (find-holds (λ y. str_eq y.id id) w.subscriptions h))
    ∙ h

pub suspend_subscription-Follows :
    (id : String) (w : World) → Follows w (suspend_subscription id w).1
suspend_subscription-Follows id w = elim (Option-cases (subscription_by_id id w)) [
  | inl missing ↦
      let e : (suspend_subscription id w).1 ≡ w = unfold suspend_subscription in ground arith in
      rw e (Follows-same w w refl)
  | inr (s, found) ↦
      let e : (suspend_subscription id w).1
          ≡ (transition_status s SubscriptionStatus.suspended w).1 =
        unfold suspend_subscription in ground arith in
      rw e (transition_status-Follows s SubscriptionStatus.suspended w (by_own_id id w found))
]

pub schedule_retry-Follows : (id : String) (n : ℕ) (w : World) → Follows w (schedule_retry id n w).1
schedule_retry-Follows id n w = elim (Bool-cases (ltb 3 n)) [
  | inl past ↦
      let e : (schedule_retry id n w).1 ≡ (suspend_subscription id w).1 =
        unfold schedule_retry in ground arith in
      rw e (suspend_subscription-Follows id w)
  | inr within ↦
      let (_, _, kept, _, _) = schedule_retry_within id n w (ground arith) in
      Follows-same w (schedule_retry id n w).1 kept
]

module _ (R : SubscriptionStatus → SubscriptionStatus → Type 0)
    (stay : (s : SubscriptionStatus) → R s s) where
  -- A transition, and then a retry where it was allowed.
  pub moved_and_scheduled :
      (s : Subscription) (k : String) (to : SubscriptionStatus) (n : ℕ) (w v : World)
      → ((can_transition s.status to ≡ true → R s.status to))
      → ltb 3 n ≡ false
      → subscription_by_id s.id w ≡ some s
      → ((can_transition s.status to ≡ true
          → v ≡ (schedule_retry k n (save_subscription (record s { status = to }) w)).1))
      → ((can_transition s.status to ≡ false → v ≡ w))
      → FollowsBy R w v
  moved_and_scheduled s k to n w v edge within stored moved kept =
      elim (Bool-cases (can_transition s.status to)) [
        | inl allowed ↦
            let u = save_subscription (record s { status = to }) w in
            let (_, _, rows, _, _) = schedule_retry_within k n u (ground arith) in
            rw (moved allowed) (
              FollowsBy-end R w u (schedule_retry k n u).1
                (FollowsBy-save R stay (record s { status = to }) w {s = s} stored (edge allowed))
                rows)
        | inr refused ↦ rw (kept refused) (FollowsBy-same R stay w w refl)
      ]

settle_success-subscriptions :
    (d : Bool) (via : Option RecoveredViaChannel) (plan : Plan) (s : Subscription) (i : Invoice)
    (p : Payment) (w : World)
    → (settle_success d via plan s i p w).subscriptions
      ≡ (save_subscription (renewed plan w.now s) w).subscriptions
unfolding settle_success announce_renewal mark_paid save_invoice save_subscription
settle_success-subscriptions d via plan s i p w = grind (arith, emit-subscriptions)

-- A settled renewal moves the subscription at most to `past_due`, where the table allows that.
module _ (R : SubscriptionStatus → SubscriptionStatus → Type 0)
    (stay : (s : SubscriptionStatus) → R s s) (s : Subscription)
    (edge : can_transition s.status SubscriptionStatus.past_due ≡ true
      → R s.status SubscriptionStatus.past_due)
    (i : Invoice) (w : World) (stored : subscription_by_id s.id w ≡ some s) where
  settle_success-Follows :
      (d : Bool) (via : Option RecoveredViaChannel) (plan : Plan) (p : Payment)
      → FollowsBy R w (settle_success d via plan s i p w)
  settle_success-Follows d via plan p =
      let u = save_subscription (renewed plan w.now s) w in
      FollowsBy-end R w u (settle_success d via plan s i p w)
        (FollowsBy-save R stay (renewed plan w.now s) w {s = s} (unfold renewed in stored)
          (unfold renewed in stay s.status))
        (settle_success-subscriptions d via plan s i p w)

  settle_failure-Follows : FollowsBy R w (settle_failure s i w).1
  settle_failure-Follows =
      let m = (mark_failed i w).1 in
      FollowsBy-start R w m (settle_failure s i w).1 same (
        moved_and_scheduled R stay s s.id SubscriptionStatus.past_due 1 m (settle_failure s i w).1
          edge refl (by_id-cong s.id m w same ∙ stored) moved kept)
    where
      same : (mark_failed i w).1.subscriptions ≡ w.subscriptions
      same = unfold mark_failed save_invoice in refl

      moved :
          can_transition s.status SubscriptionStatus.past_due ≡ true
          → (settle_failure s i w).1
            ≡ (schedule_retry s.id 1 (
                save_subscription
                  (record s { status = SubscriptionStatus.past_due })
                  (mark_failed i w).1)).1
      moved allowed =
          unfold settle_failure transition_status assert_transition on_payment_failed in
          ground arith

      kept :
          can_transition s.status SubscriptionStatus.past_due ≡ false
          → (settle_failure s i w).1 ≡ (mark_failed i w).1
      kept refused = unfold settle_failure transition_status assert_transition in ground arith

  pub settle-Follows :
      (d : Bool) (via : Option RecoveredViaChannel) (plan : Plan) (p : Payment)
      → FollowsBy R w (settle d via plan s i p w).1
  unfolding settle
  settle-Follows d via plan p =
      elim (Bool-cases (same_payment_status p.status PaymentStatus.succeeded)) [
        | inl good ↦ rw (settle, good) (settle_success-Follows d via plan p)
        | inr bad ↦ rw (settle, bad) settle_failure-Follows
      ]
