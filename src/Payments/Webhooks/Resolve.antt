-- ===== src/Payments/Webhooks/Resolve.antt =====
-- The payload of a webhook, its key, and the payment that it speaks of.
use Prim.Native.String
use Prim.Native.String.{String}
use subscription_billing_eng.Prelude.{
  Bool, false, Option, none, some, List, [], ◌∷◌, str_eq, or_option, is_empty, if◌then◌else◌, ◌≡◌,
  ◌⊎◌, inl, inr, refl,
}
use subscription_billing_eng.Prelude.Table.{find}
use subscription_billing_eng.Entities.{Payment}
use subscription_billing_eng.World.{World, Error, Result, ok, err}
use subscription_billing_eng.Payments.Reference.{parse_payment_id, parse_invoice_id}

-- MonnifyWebhookPayload, with the fields of `eventData` that are read.
pub record MonnifyWebhookPayload : Type 0 where
  pub event_type : String
  pub transaction_reference : Option String
  pub payment_reference : Option String
  pub product_reference : Option String
  pub payment_description : Option String
  pub card_token : Option String

-- MonnifyWebhookHeaders; `raw_body` is the text that was received, or the payload printed again.
pub record MonnifyWebhookHeaders : Type 0 where
  pub signature : Option String
  pub raw_body : String

-- `buildEventKey`: the first reference that is not absent, if it is not empty.
unfoldable pub build_event_key : MonnifyWebhookPayload → Option String
build_event_key p =
    let ref =
      or_option p.transaction_reference (or_option p.payment_reference p.product_reference) in
    elim ref [
      | none ↦ none
      | some r ↦ if is_empty r then none else some (String.◌++◌ p.event_type (String.◌++◌ ":" r))
    ]

-- `references`: those that are present and not empty.
present : Option String → List String → List String
present none rest = rest
present (some r) rest = if is_empty r then rest else r ∷ rest

unfoldable pub references : MonnifyWebhookPayload → List String
unfolding present
references p =
    present p.payment_reference (present p.transaction_reference (present p.product_reference []))

-- A nullable column equal to a text.
abbrev is_text : Option String → String → Bool
is_text none s = false
is_text (some t) s = str_eq t s

-- A search by a column of type `uuid`, which throws at a text that is none.
abbrev pub find_by_uuid : (Payment → String) → String → World → Result (Option Payment)
find_by_uuid column id w =
    if w.is_uuid id
    then ok (find (λ p. str_eq (column p) id) w.payments)
    else err Error.query_failed

-- The first search that finds a row, or throws.
abbrev or_search : Result (Option Payment) → Result (Option Payment) → Result (Option Payment)
or_search (err e) later = err e
or_search (ok none) later = later
or_search (ok (some p)) later = ok (some p)

unfoldable pub find_parsed : Option String → World → Result (Option Payment)
find_parsed none w = ok none
find_parsed (some id) w = find_by_uuid (λ p. p.id) id w

-- The searches for one reference, in the order of the source.
unfoldable pub resolve_reference : String → World → Result (Option Payment)
unfolding find_parsed
resolve_reference r w =
    or_search (ok (find (λ p. is_text p.monnify_payment_reference r) w.payments)) (
      or_search (ok (find (λ p. is_text p.monnify_transaction_reference r) w.payments))
        (or_search (find_parsed (parse_payment_id (some r)) w) (find_by_uuid (λ p. p.id) r w)))

resolve_all : List String → World → Result (Option Payment)
resolve_all [] w = ok none
resolve_all (r ∷ rs) w = or_search (resolve_reference r w) (resolve_all rs w)

find_by_invoice : Option String → World → Result (Option Payment)
find_by_invoice none w = ok none
find_by_invoice (some id) w = find_by_uuid (λ p. p.invoice_id) id w

-- `resolvePayment`: the references, then the invoice that the description names.
unfoldable pub resolve_payment : MonnifyWebhookPayload → World → Result (Option Payment)
unfolding resolve_all find_by_invoice
resolve_payment p w =
    or_search (resolve_all (references p) w)
      (find_by_invoice (parse_invoice_id p.payment_description) w)

-- What it comes to: an exception, no payment, or a payment.
pub resolve_payment-cases :
    (p : MonnifyWebhookPayload) (w : World)
    → ((e : Error) × (resolve_payment p w ≡ err e))
      ⊎ ((resolve_payment p w ≡ ok none) ⊎ ((x : Payment) × (resolve_payment p w ≡ ok (some x))))
resolve_payment-cases p w = on (resolve_payment p w) refl
  where
    on :
        (r : Result (Option Payment))
        → resolve_payment p w ≡ r
        → ((e : Error) × (resolve_payment p w ≡ err e))
          ⊎ ((resolve_payment p w ≡ ok none)
              ⊎ ((x : Payment) × (resolve_payment p w ≡ ok (some x))))
    on (err e) h = inl (e, h)
    on (ok none) h = inr (inl h)
    on (ok (some x)) h = inr (inr (x, h))
