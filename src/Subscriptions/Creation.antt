-- ===== src/Subscriptions/Creation.antt =====
-- What `create` of src/subscriptions/subscriptions.service.ts leaves behind.
use text.Mathlib.TextPositions.{eq_refl}
use subscription_billing_eng.Prelude.{
  String, some, none, ◌∷◌, ◌≡◌, inl, inr, refl, arith, ltb, if◌then◌else◌, Option-cases,
}
use subscription_billing_eng.Prelude.Table.{find}
use subscription_billing_eng.Entities.{
  AuditAction, Customer, Invoice, InvoiceStatus, Plan, Subscription, SubscriptionStatus,
}
use subscription_billing_eng.World.{
  Result-cases, World, ok, save_payment, insert_payment, insert_invoice, insert_subscription,
}
use subscription_billing_eng.Events.{log, generate_correlation_id}
use subscription_billing_eng.Events.Frame.{emit-subscriptions, emit-invoices}
use subscription_billing_eng.Customers.{find_customer, is_customer}
use subscription_billing_eng.Plans.{find_plan, is_plan}
use subscription_billing_eng.Invoices.{
  find_invoice, create_invoice, new_invoice, subtotal_of, is_invoice,
}
use subscription_billing_eng.Payments.Monnify.{create_checkout_session}
use subscription_billing_eng.Payments.Service.{create_checkout, settle_checkout}
use subscription_billing_eng.Subscriptions.Service.{
  is_subscription, create, CreateSubscriptionDto, CreateSubscriptionResponse, new_subscription,
  first_invoice, announce_created, subscription_log,
}

module _ (m id : String) (w : World) where
  checkout-subscriptions : (create_checkout m id w).1.subscriptions ≡ w.subscriptions
  unfolding create_checkout find_invoice find_customer settle_checkout create_checkout_session
      save_payment insert_payment
  checkout-subscriptions = grind arith

  checkout-invoices : (create_checkout m id w).1.invoices ≡ w.invoices
  unfolding create_checkout find_invoice find_customer settle_checkout create_checkout_session
      save_payment insert_payment
  checkout-invoices = grind arith

-- A subscription that waits for its first payment, with its first invoice.
pub record IsCreated (m : String) (plan : Plan) (w : World) (r : CreateSubscriptionResponse)
    : Type 0 where
  pub waits : r.subscription.status ≡ SubscriptionStatus.pending
  pub no_trial : r.subscription.trial_ends_at ≡ none
  pub stored : find (is_subscription m r.subscription.id) w.subscriptions ≡ some r.subscription
  pub invoice : Invoice
  pub invoiced : find (is_invoice m r.invoice_id) w.invoices ≡ some invoice
  pub of_subscription : invoice.subscription_id ≡ some r.subscription.id
  pub to_pay : invoice.status ≡ InvoiceStatus.pending
  pub price : invoice.total ≡ (if ltb 0 plan.trial_days then 0 else plan.amount)

module _ (m actor : String) (w : World) (plan : Plan) (customer : Customer) where
  abbrev correlation : String
  correlation = (generate_correlation_id w).0

  -- The row that is inserted, and the first invoice with the state in which its checkout is opened.
  abbrev made : Subscription
  made = new_subscription m plan customer correlation (generate_correlation_id w).1

  abbrev inserted : World
  inserted = insert_subscription made (generate_correlation_id w).1

  abbrev first : Invoice
  first = (first_invoice m plan customer made inserted).0

  abbrev invoiced_world : World
  invoiced_world = (first_invoice m plan customer made inserted).1

  abbrev opened : World
  opened = (create_checkout m first.id invoiced_world).1

  abbrev response : String × String → CreateSubscriptionResponse
  response c = record {
    subscription = made;
    checkout_url = c.0;
    payment_id = c.1;
    invoice_id = first.id;
  }

  abbrev announced : World
  announced =
      log (subscription_log m actor AuditAction.create made.id)
        (announce_created m made customer plan first correlation opened)

  announced-subscriptions : announced.subscriptions ≡ made ∷ w.subscriptions
  unfolding log announce_created first_invoice create_invoice insert_invoice insert_subscription
      generate_correlation_id
  announced-subscriptions = grind (arith, emit-subscriptions, checkout-subscriptions)

  announced-invoices : announced.invoices ≡ first ∷ w.invoices
  unfolding log announce_created first_invoice create_invoice insert_invoice insert_subscription
      generate_correlation_id
  announced-invoices = grind (arith, emit-invoices, checkout-invoices)

  first_price : first.total ≡ (if ltb 0 plan.trial_days then 0 else plan.amount)
  unfolding first_invoice create_invoice new_invoice subtotal_of
  first_price = omega arith

  response-IsCreated : (c : String × String) → IsCreated m plan announced (response c)
  unfolding find first_invoice create_invoice new_invoice
  response-IsCreated c = record {
    waits = refl;
    no_trial = refl;
    stored = rw announced-subscriptions (rw (find, eq_refl made.id, eq_refl m) refl);
    invoice = first;
    invoiced = rw announced-invoices (rw (find, eq_refl first.id, eq_refl m) refl);
    of_subscription = refl;
    to_pay = refl;
    price = first_price;
  }

-- A creation that is answered found the plan among the merchant's, stored the subscription as pending
-- and without a trial, and stored its first invoice to pay: of nothing where the plan has a trial, and
-- of the plan's amount where it has none.
pub create-IsCreated :
    (m : String) (dto : CreateSubscriptionDto) (actor : String) (w : World)
    {r : CreateSubscriptionResponse}
    → (create m dto actor w).0 ≡ ok r
    → (plan : Plan) × (find (is_plan m dto.plan_id) w.plans ≡ some plan)
      × IsCreated m plan (create m dto actor w).1 r
unfolding create find_plan find_customer
create-IsCreated m dto actor w {r} h = elim (Option-cases (find (is_plan m dto.plan_id) w.plans)) [
  | inl no_plan ↦ ground arith
  | inr (plan, planned) ↦ elim (Option-cases (find (is_customer m dto.customer_id) w.customers)) [
    | inl no_customer ↦ ground arith
    | inr (customer, known) ↦
        elim (Result-cases
          (create_checkout m (first m actor w plan customer).id
            (invoiced_world m actor w plan customer)).0) [
              | inl (e, refused) ↦ ground arith
              | inr (c, checkout) ↦
                  let answered : create m dto actor w ≡ (
                    ok (response m actor w plan customer c),
                    announced m actor w plan customer,
                  ) =
                    ground arith in
                  let same : response m actor w plan customer c ≡ r = cc in
                  (
                    plan,
                    planned,
                    rw (answered, ← same) (response-IsCreated m actor w plan customer c),
                  )
            ]
  ]
]
