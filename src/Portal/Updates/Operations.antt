-- ===== src/Portal/Updates/Operations.antt =====
-- What an operation of src/subscriptions/subscriptions.service.ts that the portal calls does to the
-- subscriptions.
use subscription_billing_eng.Prelude.{
  ℕ, String, some, ◌&&◌, ◌≡◌, ◌⊎◌, inl, inr, refl, ap, ◌∙◌, arith, str_eq, or_else, truthy, ◌||◌,
  Bool-cases, Option-cases,
}
use subscription_billing_eng.Prelude.Table.{find, save}
use subscription_billing_eng.Prelude.Table.Positions.{save-save}
use subscription_billing_eng.Entities.{Subscription}
use subscription_billing_eng.World.{World, Action, Error, ok, err, modify, ◌>>=◌, save_subscription}
use subscription_billing_eng.Plans.{find_plan, is_plan, is_live}
use subscription_billing_eng.Subscriptions.StateMachine.{can_transition}
use subscription_billing_eng.Subscriptions.StateMachine.Graph.{IsMove}
use subscription_billing_eng.Subscriptions.Service.{
  is_subscription, cancel, change_plan, find_subscription,
}
use subscription_billing_eng.Subscriptions.Lifecycle.{
  Operation, perform, target, changed, changed-id, changed-status, performed,
  performed-subscriptions, perform-missing, perform-refused,
}
use subscription_billing_eng.Subscriptions.PlanChange.{moved-subscriptions}
use subscription_billing_eng.Portal.Actions.{PortalActionData, keep_reason}

-- A row of the merchant under that identifier is saved again, of the same customer and with a
-- status that is its own or that the table allows next.
pub record Rewrites (m id : String) (w v : World) : Type 0 where
  pub before : Subscription
  pub after : Subscription
  pub found : find (is_subscription m id) w.subscriptions ≡ some before
  pub saved : v.subscriptions ≡ save (λ x. x.id) after w.subscriptions
  pub same_id : after.id ≡ before.id
  pub same_customer : after.customer_id ≡ before.customer_id
  pub same_merchant : after.merchant_id ≡ before.merchant_id
  pub moves : IsMove before.status after.status

-- Such a row is saved, or no subscription changes.
abbrev pub Updates : String → String → World → World → Type 0
Updates m id w v = (v.subscriptions ≡ w.subscriptions) ⊎ Rewrites m id w v

changed-customer_id :
    (op : Operation) (now : ℕ) (s : Subscription)
    → ((changed op now s).customer_id ≡ s.customer_id)
      × ((changed op now s).merchant_id ≡ s.merchant_id)
changed-customer_id op now s = ground arith

pub perform-Updates :
    (op : Operation) (m id actor : String) (w : World) → Updates m id w (perform op m id actor w).1
perform-Updates op m id actor w =
    elim (Option-cases (find (is_subscription m id) w.subscriptions)) [
      | inl missing ↦ inl (ap (λ r. r.1.subscriptions) (perform-missing op m id actor w missing))
      | inr (s, found) ↦ elim (Bool-cases (can_transition s.status (target op))) [
        | inr refused ↦
            inl (ap (λ r. r.1.subscriptions) (perform-refused op m id actor w found refused))
        | inl allowed ↦ inr (record {
          before = s;
          after = changed op w.now s;
          found = found;
          saved = performed-subscriptions op m id actor w found allowed;
          same_id = changed-id op w.now s;
          same_customer = (changed-customer_id op w.now s).0;
          same_merchant = (changed-customer_id op w.now s).1;
          moves = inr (rw (changed-status op w.now s) allowed);
        })
      ]
    ]

pub change_plan-Updates :
    (m id new_plan_id actor : String) (w : World)
    → Updates m id w (change_plan m id new_plan_id actor w).1
change_plan-Updates m id new_plan_id actor w =
    elim (Option-cases (find (is_subscription m id) w.subscriptions)) [
      | inl missing ↦ inl (unfold change_plan find_subscription in ground arith)
      | inr (s, found) ↦ elim (Option-cases (find (is_plan m new_plan_id) w.plans)) [
        | inl no_plan ↦ inl (unfold change_plan find_subscription find_plan in ground arith)
        | inr (new, offered) ↦
            elim (Option-cases (find (λ p. is_live p && str_eq p.id s.plan_id) w.plans)) [
              | inl removed ↦ inl (unfold change_plan find_subscription find_plan in ground arith)
              | inr (current, subscribed) ↦ inr (record {
                before = s;
                after = record s { plan_id = w.plan_column current.id new.id };
                found = found;
                saved = moved-subscriptions m id new_plan_id actor w found offered subscribed;
                same_id = refl;
                same_customer = refl;
                same_merchant = refl;
                moves = inl refl;
              })
            ]
      ]
    ]

-- The reason of a cancellation is saved over the row of the cancellation.
keep_reason-saves :
    (d : PortalActionData) (u : Subscription) (w v : World)
    → v.subscriptions ≡ save (λ x. x.id) u w.subscriptions
    → (u' : Subscription) × ((keep_reason d u v).subscriptions
        ≡ save (λ x. x.id) u' w.subscriptions)
      × (u'.id ≡ u.id)
      × (u'.customer_id ≡ u.customer_id)
      × (u'.merchant_id ≡ u.merchant_id)
      × (u'.status ≡ u.status)
keep_reason-saves d u w v saved = elim (Bool-cases (truthy d.reason || truthy d.cancel_reason)) [
  | inr silent ↦
      let same : keep_reason d u v ≡ v = unfold keep_reason in ground arith in
      (u, rw same saved, refl, refl, refl, refl)
  | inl told ↦
      let u' : Subscription = record u {
        cancel_reason = some (or_else d.reason (or_else d.cancel_reason ""));
      } in
      let again : keep_reason d u v ≡ save_subscription u' v = unfold keep_reason in ground arith in
      (
        u',
        rw again (
            unfold save_subscription in
            ap (save (λ x. x.id) u') saved ∙ save-save (λ x. x.id) u u' refl w.subscriptions),
        refl,
        refl,
        refl,
        refl,
      )
]

abbrev pub cancel_and_keep : String → String → PortalActionData → Action (Unit {0})
cancel_and_keep m id d = cancel m id "customer" >>= λ c. modify (keep_reason d c)

-- A cancellation that throws keeps nothing.
cancel_thrown :
    (m id : String) (d : PortalActionData) (w : World) {x : Error}
    → perform Operation.cancelling m id "customer" w ≡ (err x, w)
    → (cancel_and_keep m id d w).1 ≡ w
unfolding perform
cancel_thrown m id d w e = ground arith

cancel_done :
    (m id : String) (d : PortalActionData) (w : World) {u : Subscription}
    → (perform Operation.cancelling m id "customer" w).0 ≡ ok u
    → (cancel_and_keep m id d w).1
      ≡ keep_reason d u (perform Operation.cancelling m id "customer" w).1
unfolding perform
cancel_done m id d w e = ground arith

pub cancel-Updates :
    (m id : String) (d : PortalActionData) (w : World) → Updates m id w (cancel_and_keep m id d w).1
cancel-Updates m id d w = elim (Option-cases (find (is_subscription m id) w.subscriptions)) [
  | inl missing ↦ inl (
      ap (λ v. v.subscriptions)
        (cancel_thrown m id d w (perform-missing Operation.cancelling m id "customer" w missing)))
  | inr (s, found) ↦ elim (Bool-cases (can_transition s.status (target Operation.cancelling))) [
    | inr refused ↦ inl (
        ap (λ v. v.subscriptions)
          (cancel_thrown m id d w
            (perform-refused Operation.cancelling m id "customer" w found refused)))
    | inl allowed ↦
        let u = changed Operation.cancelling w.now s in
        let v = (perform Operation.cancelling m id "customer" w).1 in
        let (u', saved, same_id, same_customer, same_merchant, same_status) =
          keep_reason-saves d u w v
            (performed-subscriptions Operation.cancelling m id "customer" w found allowed) in
        inr (record {
          before = s;
          after = u';
          found = found;
          saved =
              ap (λ v. v.subscriptions)
                (cancel_done m id d w
                  (performed Operation.cancelling m id "customer" w found allowed))
              ∙ saved;
          same_id = same_id;
          same_customer = same_customer;
          same_merchant = same_merchant;
          moves = rw same_status (inr allowed);
        })
  ]
]
