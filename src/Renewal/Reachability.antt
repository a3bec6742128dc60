-- ===== src/Renewal/Reachability.antt =====
-- Proofs on `processRetry` of src/dunning/dunning.service.ts, against the transition table.
use mathlib.Core.Path.{subst}
use subscription_billing_eng.Prelude.{
  ℕ, ◌+◌, true, String, some, ◌≡◌, ◌⊎◌, refl, sym, ◌∙◌, inl, inr, arith, ltb, Bool-cases,
  Option-cases, ◌==◌,
}
use subscription_billing_eng.Entities.{
  Subscription, SubscriptionStatus, same_status, RecoveredViaChannel,
}
use subscription_billing_eng.World.{Result-cases, World, save_subscription}
use subscription_billing_eng.Subscriptions.StateMachine.{can_transition, assert_transition}
use subscription_billing_eng.Subscriptions.StateMachine.Graph.{IsMove}
use subscription_billing_eng.Subscriptions.StateMachine.Follows.{
  FollowsBy, FollowsBy-map, FollowsBy-trans, FollowsBy-save, Follows, Follows-same,
}
use subscription_billing_eng.Subscriptions.Service.{transition_status}
use subscription_billing_eng.Dunning.Schedule.{
  subscription_by_id, suspend_subscription, schedule_retry,
}
use subscription_billing_eng.Dunning.Queue.{by_id-save}
use subscription_billing_eng.Renewal.Cycle.{bill_subscription, is_in_dunning}
use subscription_billing_eng.Renewal.Retry.{process_retry, attempt, after_billing, next_attempt}
use subscription_billing_eng.Renewal.PaidRetries.{counted}
use subscription_billing_eng.Renewal.Moves.{
  schedule_retry-Follows, suspend_subscription-Follows, moved_and_scheduled, by_own_id,
}
use subscription_billing_eng.Renewal.Billings.{dunning_billing-keeps}

next_attempt-Follows :
    (id : String) (s : Subscription) (n : ℕ) (w : World)
    → subscription_by_id id w ≡ some s
    → Follows w (next_attempt id s n w).1
next_attempt-Follows id s n w stored = elim (Bool-cases (ltb n 3)) [
  | inr last ↦
      let goes : (next_attempt id s n w).1 ≡ (suspend_subscription id w).1 =
        unfold next_attempt in ground arith in
      rw goes (suspend_subscription-Follows id w)
  | inl more ↦ elim (Bool-cases (n == 2)) [
    | inr first ↦
        let goes : (next_attempt id s n w).1 ≡ (schedule_retry id (n + 1) w).1 =
          unfold next_attempt in ground arith in
        rw goes (schedule_retry-Follows id (n + 1) w)
    | inl second ↦
        moved_and_scheduled IsMove (λ t. inl refl) s id SubscriptionStatus.grace_period (n + 1) w
          (next_attempt id s n w).1 inr (ground arith) (by_own_id id w stored)
          (λ allowed. unfold next_attempt transition_status assert_transition in ground arith)
          (λ refused. unfold next_attempt transition_status assert_transition in ground arith)
  ]
]

after_billing-Follows : (id : String) (n : ℕ) (w : World) → Follows w (after_billing id n w).1
after_billing-Follows id n w = elim (Option-cases (subscription_by_id id w)) [
  | inl missing ↦
      let stops : (after_billing id n w).1 ≡ w = unfold after_billing in ground arith in
      rw stops (Follows-same w w refl)
  | inr (s, found) ↦ elim (Bool-cases (same_status s.status SubscriptionStatus.active)) [
    | inl recovered ↦
        let stops : (after_billing id n w).1 ≡ w = unfold after_billing in ground arith in
        rw stops (Follows-same w w refl)
    | inr unpaid ↦
        let goes : (after_billing id n w).1 ≡ (next_attempt id s n w).1 =
          unfold after_billing in ground arith in
        rw goes (next_attempt-Follows id s n w found)
  ]
]

module _ (id : String) (n : ℕ) (w : World) {s : Subscription}
    (found : subscription_by_id id w ≡ some s) (dunning : is_in_dunning s.status ≡ true) where
  abbrev with_count : World
  with_count = save_subscription (counted s n) w

  abbrev billed : World
  billed = (bill_subscription (counted s n) (some RecoveredViaChannel.automatic) with_count).1

  -- The count and the billing move no status.
  billed-keeps : FollowsBy (λ a b. a ≡ b) w billed
  billed-keeps =
      FollowsBy-trans (λ a b. a ≡ b) (λ a b. a ≡ b) (λ a b. a ≡ b) (λ a b c e f. e ∙ f) w with_count
        billed
        (FollowsBy-save (λ a b. a ≡ b) (λ a. refl) (counted s n) w {s = s} (by_own_id id w found)
          refl)
        (dunning_billing-keeps (counted s n) (some RecoveredViaChannel.automatic) with_count dunning
          (by_id-save s.id w (counted s n) (by_own_id id w found) refl))

  attempt-Follows : Follows w (attempt id s n w).1
  attempt-Follows =
      elim (Result-cases
        (bill_subscription (counted s n) (some RecoveredViaChannel.automatic) with_count).0) [
          | inl (e, thrown) ↦
              let stops : (attempt id s n w).1 ≡ billed = unfold attempt in ground arith in
              rw stops (FollowsBy-map (λ a b. a ≡ b) IsMove (λ a b e. inl e) w billed billed-keeps)
          | inr (u, fine) ↦
              let goes : (attempt id s n w).1 ≡ (after_billing id n billed).1 =
                unfold attempt in ground arith in
              rw goes (
                FollowsBy-trans (λ a b. a ≡ b) IsMove IsMove
                  (λ a b c e f. subst (λ x. IsMove x c) (sym e) f) w billed
                  (after_billing id n billed).1 billed-keeps (after_billing-Follows id n billed))
        ]

process_retry-Follows : (id : String) (n : ℕ) (w : World) → Follows w (process_retry id n w).1
process_retry-Follows id n w = elim (Option-cases (subscription_by_id id w)) [
  | inl missing ↦
      let stops : (process_retry id n w).1 ≡ w = unfold process_retry in ground arith in
      rw stops (Follows-same w w refl)
  | inr (s, found) ↦ elim (Bool-cases (is_in_dunning s.status)) [
    | inl due ↦
        let goes : (process_retry id n w).1 ≡ (attempt id s n w).1 =
          unfold process_retry in ground arith in
        rw goes (attempt-Follows id n w found due)
    | inr other ↦
        let stops : (process_retry id n w).1 ≡ w = unfold process_retry in ground arith in
        rw stops (Follows-same w w refl)
  ]
]

-- After a retry of any subscription at any attempt number, whatever its outcome, every subscription
-- that was there is there, with the same status or with one that the transition table allows next.
pub process_retry_moves :
    (of : String) (n : ℕ) (w : World) (id : String) {t : Subscription}
    → subscription_by_id id w ≡ some t
    → (t' : Subscription) × (subscription_by_id id (process_retry of n w).1 ≡ some t')
      × ((t.status ≡ t'.status) ⊎ (can_transition t.status t'.status ≡ true))
process_retry_moves of n w id {t} found = process_retry-Follows of n w id t found
