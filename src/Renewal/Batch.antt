-- ===== src/Renewal/Batch.antt =====
-- The hourly run of src/billing/billing.service.ts over the subscriptions that are due.
use subscription_billing_eng.Prelude.{none, List, [], ◌∷◌, ◌≡◌, refl, foldl, arith}
use subscription_billing_eng.Entities.{Subscription}
use subscription_billing_eng.World.{World, ok}
use subscription_billing_eng.Subscriptions.Service.{find_due_for_billing}
use subscription_billing_eng.Renewal.Cycle.{bill_subscription, bill_all, process_billing_cycles}

-- What one billing leaves, whether it threw or not.
abbrev pub bill_one : World → Subscription → World
bill_one w s = (bill_subscription s none w).1

bill_all_lem : (l : List Subscription) (w : World) → bill_all l w ≡ (ok tt, foldl bill_one w l)
unfolding bill_all
bill_all_lem [] w = refl
bill_all_lem (s ∷ rest) w = ground (arith, bill_all_lem rest (bill_one w s))

-- The run never throws, and bills each subscription that was due at its start, in their order, from
-- the state that the billing before it left: a billing that throws does not stop the later ones.
pub process_billing_cycles-bill_one :
    (w : World) → process_billing_cycles w ≡ (ok tt, foldl bill_one w (find_due_for_billing w))
unfolding process_billing_cycles
process_billing_cycles-bill_one w = bill_all_lem (find_due_for_billing w) w
