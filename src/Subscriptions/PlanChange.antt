-- ===== src/Subscriptions/PlanChange.antt =====
-- What `changePlan` of src/subscriptions/subscriptions.service.ts does.
use subscription_billing_eng.Prelude.{String, some, ◌≡◌, refl, arith, str_eq, ◌&&◌}
use subscription_billing_eng.Prelude.Table.{find, save}
use subscription_billing_eng.Entities.{Plan, Subscription}
use subscription_billing_eng.World.{World, ok, save_subscription}
use subscription_billing_eng.Events.{log}
use subscription_billing_eng.Events.Frame.{emit-subscriptions, emit-invoices, emit-payments}
use subscription_billing_eng.Plans.{find_plan, is_plan, is_live}
use subscription_billing_eng.Subscriptions.Service.{
  is_subscription, find_subscription, emit_updated, prorate, change_plan,
}
use subscription_billing_eng.Subscriptions.Lifecycle.{find-save_subscription}

module _ (m id new_plan_id actor : String) (w : World) {s : Subscription} {new current : Plan}
    (found : find (is_subscription m id) w.subscriptions ≡ some s)
    (offered : find (is_plan m new_plan_id) w.plans ≡ some new)
    (subscribed : find (λ p. is_live p && str_eq p.id s.plan_id) w.plans ≡ some current) where
  pub moved-subscriptions :
      (change_plan m id new_plan_id actor w).1.subscriptions
      ≡ save (λ x. x.id) (record s { plan_id = w.plan_column current.id new.id }) w.subscriptions
  unfolding change_plan find_subscription find_plan emit_updated log save_subscription
  moved-subscriptions = grind (arith, emit-subscriptions)

  moved-invoices : (change_plan m id new_plan_id actor w).1.invoices ≡ w.invoices
  unfolding change_plan find_subscription find_plan emit_updated log save_subscription
  moved-invoices = grind (arith, emit-invoices)

  moved-payments : (change_plan m id new_plan_id actor w).1.payments ≡ w.payments
  unfolding change_plan find_subscription find_plan emit_updated log save_subscription
  moved-payments = grind (arith, emit-payments)

  moved :
      (change_plan m id new_plan_id actor w).0
      ≡ ok (record s { plan_id = new.id }, prorate current new s w.now)
  unfolding change_plan find_subscription find_plan
  moved = ground arith

  -- A change between two plans that are found answers the subscription under the new plan, with the
  -- proration of its period; the search finds the row afterwards under the plan that the save wrote,
  -- with the status and the period of before, and no invoice and no payment changes: the proration is answered and not charged.
  change_plan-prorate :
      ((change_plan m id new_plan_id actor w).0
        ≡ ok (record s { plan_id = new.id }, prorate current new s w.now))
      × (find (is_subscription m id) (change_plan m id new_plan_id actor w).1.subscriptions
          ≡ some (record s { plan_id = w.plan_column current.id new.id }))
      × ((change_plan m id new_plan_id actor w).1.invoices ≡ w.invoices)
      × ((change_plan m id new_plan_id actor w).1.payments ≡ w.payments)
  change_plan-prorate = (
    moved,
    rw moved-subscriptions (
        find-save_subscription m id w found (record s { plan_id = w.plan_column current.id new.id })
          refl refl),
    moved-invoices,
    moved-payments,
  )
