-- ===== src/Renewal/Billings.antt =====
-- Proofs on `billSubscription` of src/billing/billing.service.ts, against the transition table.
use subscription_billing_eng.Prelude.{
  Bool, true, false, String, Option, some, ◌≡◌, ◌⊎◌, refl, ◌∙◌, inl, inr, arith, Bool-cases,
  Option-cases,
}
use subscription_billing_eng.Prelude.Table.{find}
use subscription_billing_eng.Entities.{
  Invoice, Plan, Subscription, SubscriptionStatus, same_status, RecoveredViaChannel,
}
use subscription_billing_eng.World.{Result-cases, World, save_subscription, insert_invoice}
use subscription_billing_eng.Invoices.{create_invoice}
use subscription_billing_eng.Payments.Service.{charge_invoice}
use subscription_billing_eng.Payments.Charges.{charge-subscriptions}
use subscription_billing_eng.Subscriptions.StateMachine.{can_transition}
use subscription_billing_eng.Subscriptions.StateMachine.Graph.{IsMove}
use subscription_billing_eng.Subscriptions.StateMachine.Follows.{
  FollowsBy, FollowsBy-same, FollowsBy-start, FollowsBy-trans, FollowsBy-save,
}
use subscription_billing_eng.Dunning.Schedule.{subscription_by_id}
use subscription_billing_eng.Dunning.Queue.{by_id-save}
use subscription_billing_eng.Plans.{is_plan}
use subscription_billing_eng.Renewal.Cycle.{
  bill_subscription, end_trial, in_trial, charge_renewal, settle, renewal_invoice, is_in_dunning,
}
use subscription_billing_eng.Renewal.PaidRetries.{by_id-cong}
use subscription_billing_eng.Renewal.Moves.{settle-Follows, transition_status_lem}

-- A charge of a renewal moves the subscription at most to `past_due`, where the table allows that.
module _ (R : SubscriptionStatus → SubscriptionStatus → Type 0)
    (stay : (s : SubscriptionStatus) → R s s) (d : Bool) (via : Option RecoveredViaChannel)
    (plan : Plan) (s : Subscription)
    (edge : can_transition s.status SubscriptionStatus.past_due ≡ true
      → R s.status SubscriptionStatus.past_due)
    (w : World) (stored : subscription_by_id s.id w ≡ some s) where
  abbrev made : Invoice
  made = (renewal_invoice plan s w).0

  abbrev charged : World
  charged = (charge_invoice made (renewal_invoice plan s w).1).1

  charged-subscriptions : charged.subscriptions ≡ w.subscriptions
  unfolding renewal_invoice create_invoice insert_invoice
  charged-subscriptions = grind (arith, charge-subscriptions)

  charge_renewal-Follows : FollowsBy R w (charge_renewal d via plan s w).1
  charge_renewal-Follows =
      elim (Result-cases (charge_invoice made (renewal_invoice plan s w).1).0) [
        | inl (e, thrown) ↦
            let stops : (charge_renewal d via plan s w).1 ≡ charged =
              unfold charge_renewal in ground arith in
            rw stops (FollowsBy-same R stay w charged charged-subscriptions)
        | inr (p, answered) ↦
            let goes : (charge_renewal d via plan s w).1 ≡ (settle d via plan s made p charged).1 =
              unfold charge_renewal in ground arith in
            rw goes (
              FollowsBy-start R w charged (settle d via plan s made p charged).1
                charged-subscriptions
                (settle-Follows R stay s edge made charged
                  (by_id-cong s.id charged w charged-subscriptions ∙ stored) d via plan p))
      ]

-- What a billing does to a status: nothing, one transition, or the end of a trial and then the failure
-- of its first charge.
abbrev pub IsBilling : SubscriptionStatus → SubscriptionStatus → Type 0
IsBilling a b = IsMove a b ⊎ ((a ≡ SubscriptionStatus.trialing) × (b ≡ SubscriptionStatus.past_due))

abbrev IsEnd : SubscriptionStatus → SubscriptionStatus → Type 0
IsEnd a b = (a ≡ b) ⊎ ((a ≡ SubscriptionStatus.trialing) × (b ≡ SubscriptionStatus.active))

abbrev IsFailure : SubscriptionStatus → SubscriptionStatus → Type 0
IsFailure a b = (a ≡ b) ⊎ ((a ≡ SubscriptionStatus.active) × (b ≡ SubscriptionStatus.past_due))

IsBilling-ends : (a b c : SubscriptionStatus) → IsEnd a b → IsFailure b c → IsBilling a c
unfolding can_transition
IsBilling-ends a b c e f = ground arith

module _ (via : Option RecoveredViaChannel) (plan : Plan) (s : Subscription) (w : World)
    (stored : subscription_by_id s.id w ≡ some s)
    (planned : find (is_plan s.merchant_id s.plan_id) w.plans ≡ some plan)
    (due : in_trial s w.now ≡ false) where
  abbrev activated : Subscription
  activated = record s { status = SubscriptionStatus.active }

  -- The end of a trial, and the charge after it.
  abbrev tried : World
  tried = (bill_subscription s via w).1

  -- Outside a trial, a billing is a charge.
  billed-past_trial :
      (R : SubscriptionStatus → SubscriptionStatus → Type 0)
      → ((t : SubscriptionStatus) → R t t)
      → ((can_transition s.status SubscriptionStatus.past_due ≡ true
          → R s.status SubscriptionStatus.past_due))
      → same_status s.status SubscriptionStatus.trialing ≡ false
      → FollowsBy R w tried
  billed-past_trial R stay edge other =
      let goes : tried ≡ (charge_renewal (is_in_dunning s.status) via plan s w).1 =
        unfold bill_subscription end_trial in ground arith in
      rw goes (charge_renewal-Follows R stay (is_in_dunning s.status) via plan s edge w stored)

  billed-trial :
      same_status s.status SubscriptionStatus.trialing ≡ true → FollowsBy IsBilling w tried
  billed-trial trial = elim (transition_status_lem s SubscriptionStatus.active w) [
    | inl (allowed, moved) ↦
        let u = save_subscription activated w in
        let d = is_in_dunning s.status in
        let goes : tried ≡ (charge_renewal d via plan activated u).1 =
          unfold bill_subscription end_trial in ground (arith, moved) in
        rw goes (
          FollowsBy-trans IsEnd IsFailure IsBilling IsBilling-ends w u
            (charge_renewal d via plan activated u).1
            (FollowsBy-save IsEnd (λ t. inl refl) activated w {s = s} stored
              (inr (ground arith, refl)))
            (charge_renewal-Follows IsFailure (λ t. inl refl) d via plan activated
              (λ h. inr (refl, refl)) u (by_id-save s.id w activated stored refl)))
    | inr thrown ↦
        let stops : tried ≡ w = unfold bill_subscription end_trial in ground (arith, thrown) in
        rw stops (FollowsBy-same IsBilling (λ t. inl (inl refl)) w w refl)
  ]

  billed-Follows : FollowsBy IsBilling w tried
  billed-Follows = elim (Bool-cases (same_status s.status SubscriptionStatus.trialing)) [
    | inl trial ↦ billed-trial trial
    | inr other ↦
        billed-past_trial IsBilling (λ t. inl (inl refl)) (λ allowed. inl (inr allowed)) other
  ]

-- A billing that has a plan, and whose trial is not still running, or no change.
module _ (R : SubscriptionStatus → SubscriptionStatus → Type 0)
    (stay : (s : SubscriptionStatus) → R s s) (s : Subscription) (via : Option RecoveredViaChannel)
    (w : World) where
  bill_subscription-FollowsBy :
      ((plan : Plan)
        → find (is_plan s.merchant_id s.plan_id) w.plans ≡ some plan
        → in_trial s w.now ≡ false
        → FollowsBy R w (bill_subscription s via w).1)
      → FollowsBy R w (bill_subscription s via w).1
  bill_subscription-FollowsBy billed =
      elim (Option-cases (find (is_plan s.merchant_id s.plan_id) w.plans)) [
        | inl missing ↦
            let stops : (bill_subscription s via w).1 ≡ w =
              unfold bill_subscription in ground arith in
            rw stops (FollowsBy-same R stay w w refl)
        | inr (plan, planned) ↦ elim (Bool-cases (in_trial s w.now)) [
          | inl waits ↦
              let stops : (bill_subscription s via w).1 ≡ w =
                unfold bill_subscription in ground arith in
              rw stops (FollowsBy-same R stay w w refl)
          | inr due ↦ billed plan planned due
        ]
      ]

-- A billing in dunning moves no status: a failure has nowhere to go.
pub dunning_billing-keeps :
    (s : Subscription) (via : Option RecoveredViaChannel) (w : World)
    → is_in_dunning s.status ≡ true
    → subscription_by_id s.id w ≡ some s
    → FollowsBy (λ a b. a ≡ b) w (bill_subscription s via w).1
dunning_billing-keeps s via w dunning stored =
    bill_subscription-FollowsBy (λ a b. a ≡ b) (λ a. refl) s via w
      (λ plan planned due.
        billed-past_trial via plan s w stored planned due (λ a b. a ≡ b) (λ a. refl)
          (λ allowed. unfold can_transition in ground arith) (ground arith))

-- After a billing of a stored subscription, whatever its outcome, every subscription that was there is
-- there, with the same status or with one that the table allows next, or past due after a trial.
pub bill_subscription_moves :
    (s : Subscription) (via : Option RecoveredViaChannel) (w : World) (id : String)
    {t : Subscription}
    → subscription_by_id s.id w ≡ some s
    → subscription_by_id id w ≡ some t
    → (t' : Subscription) × (subscription_by_id id (bill_subscription s via w).1 ≡ some t')
      × IsBilling t.status t'.status
bill_subscription_moves s via w id {t} stored found =
    bill_subscription-FollowsBy IsBilling (λ a. inl (inl refl)) s via w
      (λ plan planned due. billed-Follows via plan s w stored planned due) id t found
