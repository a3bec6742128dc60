-- ===== src/Portal/Updates.antt =====
-- What an action of the portal does to the subscriptions: src/portal/portal.service.ts on
-- src/subscriptions/subscriptions.service.ts.
mod Operations
pub use Operations.*
use subscription_billing_eng.Prelude.{
  ℕ, Bool, true, false, String, Option, none, some, ◌&&◌, ◌≡◌, ◌⊎◌, inl, inr, refl, ap, ◌∙◌, arith,
  str_eq, or_else, not, truthy, ◌||◌, Bool-cases, Option-cases,
}
use subscription_billing_eng.Prelude.Table.{find, save}
use subscription_billing_eng.Prelude.Table.Positions.{save-save}
use subscription_billing_eng.Entities.{Customer, Subscription}
use subscription_billing_eng.World.{
  World, Action, Error, throw_if, save_customer, ok, err, pure, modify, ◌>>=◌, ◌>>◌,
  save_subscription,
}
use subscription_billing_eng.Plans.{find_plan, is_plan, is_live}
use subscription_billing_eng.Subscriptions.StateMachine.{can_transition}
use subscription_billing_eng.Subscriptions.Service.{
  is_subscription, cancel, change_plan, find_subscription,
}
use subscription_billing_eng.Subscriptions.Lifecycle.{
  Operation, perform, target, changed, changed-id, changed-status, performed,
  performed-subscriptions, perform-missing, perform-refused,
}
use subscription_billing_eng.Subscriptions.PlanChange.{moved-subscriptions}
use subscription_billing_eng.Portal.Settings.{PortalConfig}
use subscription_billing_eng.Portal.Actions.{
  need_subscription, PortalAction, PortalActionData, run_action, keep_reason, save_contact,
}

-- What an action of the portal does to the subscriptions: nothing, or an update of the one that it is
-- given.
abbrev pub Touches : String → Option Subscription → World → World → Type 0
Touches m s w v =
    (v.subscriptions ≡ w.subscriptions)
    ⊎ ((own : Subscription) × (s ≡ some own) × Updates m own.id w v)

-- What a state does to the subscriptions is a matter of its subscriptions.
pub Touches-same :
    (m : String) (s : Option Subscription) (w u v : World)
    → v.subscriptions ≡ u.subscriptions
    → Touches m s w u
    → Touches m s w v
Touches-same m s w u v same (inl kept) = inl (same ∙ kept)
Touches-same m s w u v same (inr (own, is_own, inl kept)) = inr (own, is_own, inl (same ∙ kept))
Touches-same m s w u v same (inr (own, is_own, inr r)) = inr (
  own,
  is_own,
  inr (record {
    before = r.before;
    after = r.after;
    found = r.found;
    saved = same ∙ r.saved;
    same_id = r.same_id;
    same_customer = r.same_customer;
    same_merchant = r.same_merchant;
    moves = r.moves;
  }),
)

then-state : {A : Type 0} (a : Action A) (w : World) → ((a >> pure tt) w).1 ≡ (a w).1
then-state a w = ground arith

module _ {A : Type 0} (P : World → Type 0) (w : World) (kept : P w) where
  guard-keeps : (b : Bool) (e : Error) (k : Action A) → P (k w).1 → P ((throw_if b e >> k) w).1
  guard-keeps true e k h = kept
  guard-keeps false e k h = h

  need-keeps :
      (s : Option Subscription) (f : Subscription → Action A)
      → ((own : Subscription) → s ≡ some own → P (f own w).1)
      → P ((need_subscription s >>= f) w).1
  need-keeps none f h = kept
  need-keeps (some own) f h = h own refl

module _ (config : PortalConfig) (m : String) (c : Customer) (d : PortalActionData)
    (w : World) where
  abbrev operate : Operation → Option Subscription → Action (Unit {0})
  operate op s = need_subscription s >>= λ own. perform op m own.id "customer" >> pure tt

  abbrev cancel_own : Option Subscription → Action (Unit {0})
  cancel_own s = need_subscription s >>= λ own. cancel_and_keep m own.id d

  abbrev switch_own : Option Subscription → Action (Unit {0})
  switch_own s = need_subscription s >>= λ own.
      throw_if (not (truthy d.plan_id)) (Error.bad_request "Missing target plan ID.")
      >> (change_plan m own.id (or_else d.plan_id "") "customer" >> pure tt)

  -- An operation on the subscription, where there is one.
  operated : (op : Operation) (s : Option Subscription) → Touches m s w (operate op s w).1
  operated op s =
      need-keeps (Touches m s w) w (inl refl) s (λ own. perform op m own.id "customer" >> pure tt)
        (λ own e. inr (
          own,
          e,
          rw (then-state (perform op m own.id "customer") w)
              (perform-Updates op m own.id "customer" w),
        ))

  pub run_action-Touches :
      (a : PortalAction) (s : Option Subscription) → Touches m s w (run_action a config m c s d w).1
  unfolding run_action perform
  run_action-Touches PortalAction.update_contact s =
      inl (unfold save_contact save_customer in ground arith)
  run_action-Touches PortalAction.pause_subscription s =
      guard-keeps (Touches m s w) w (inl refl) (not config.allow_pause)
        (Error.bad_request "Pausing is disabled for this portal.") (operate Operation.pausing s)
        (operated Operation.pausing s)
  run_action-Touches PortalAction.resume_subscription s = operated Operation.resuming s
  run_action-Touches PortalAction.cancel_subscription s =
      guard-keeps (Touches m s w) w (inl refl) (not config.allow_cancellation)
        (Error.bad_request "Cancellation is disabled for this portal.") (cancel_own s)
        (need-keeps (Touches m s w) w (inl refl) s (λ own. cancel_and_keep m own.id d)
          (λ own e. inr (own, e, cancel-Updates m own.id d w)))
  run_action-Touches PortalAction.reactivate_subscription s = operated Operation.reactivating s
  run_action-Touches PortalAction.switch_plan s =
      guard-keeps (Touches m s w) w (inl refl) (not config.allow_switch_plan)
        (Error.bad_request "Plan switching is disabled for this portal.") (switch_own s)
        (need-keeps (Touches m s w) w (inl refl) s
          (λ own.
            throw_if (not (truthy d.plan_id)) (Error.bad_request "Missing target plan ID.")
            >> (change_plan m own.id (or_else d.plan_id "") "customer" >> pure tt))
          (λ own e.
            guard-keeps (Touches m s w) w (inl refl) (not (truthy d.plan_id))
              (Error.bad_request "Missing target plan ID.")
              (change_plan m own.id (or_else d.plan_id "") "customer" >> pure tt)
              (inr (
                own,
                e,
                rw (then-state (change_plan m own.id (or_else d.plan_id "") "customer") w)
                    (change_plan-Updates m own.id (or_else d.plan_id "") "customer" w),
              ))))
