-- ===== src/Payments/Webhooks/Process.antt =====
-- `process`: the signature, the key, the duplicates, and the dispatch on the kind of event.
use subscription_billing_eng.Prelude.{
  Bool, String, Option, none, some, not, str_eq, str_or, truthy, or_else, if◌then◌else◌,
}
use subscription_billing_eng.Prelude.Table.{find}
use subscription_billing_eng.World.{World, Action, Error, ok, throw, modify}
use subscription_billing_eng.Entities.{MonnifyWebhookEvent}
use subscription_billing_eng.Payments.Signature.{Crypto, verify_signature}
use subscription_billing_eng.Payments.Webhooks.Resolve.{
  MonnifyWebhookPayload, MonnifyWebhookHeaders, build_event_key,
}
use subscription_billing_eng.Payments.Webhooks.Handlers.{
  handle_successful_transaction, handle_rejected_payment, handle_successful_refund, record_event,
}

-- The configured secret: the secret key, or else the webhook's secret.
unfoldable pub webhook_secret : World → Option String
webhook_secret w = str_or w.config.monnify_secret_key w.config.monnify_webhook_secret

unfoldable pub is_production : World → Bool
is_production w = str_eq (or_else w.config.node_env "") "production"

-- `switch (payload.eventType)`.
unfoldable pub dispatch : MonnifyWebhookPayload → String → Action (Unit {0})
dispatch p key =
    if str_eq p.event_type "SUCCESSFUL_TRANSACTION"
    then handle_successful_transaction p key
    else if str_eq p.event_type "SUCCESSFUL_REFUND"
    then handle_successful_refund p key
    else if str_eq p.event_type "REJECTED_PAYMENT"
    then handle_rejected_payment p key
    else modify (record_event key p.event_type none)

-- The webhook was seen: its key is recorded.
unfoldable pub find_recorded : String → World → Option MonnifyWebhookEvent
unfolding find
find_recorded key w = find (λ e. str_eq e.event_key key) w.monnify_events

module _ (c : Crypto) where
  -- `verifySignature`, as the test and the message of its failure.
  unfoldable pub signature_problem : MonnifyWebhookHeaders → World → Option String
  unfolding webhook_secret is_production
  signature_problem h w =
      if not (truthy (webhook_secret w))
      then (if is_production w then some "Monnify webhook secret is not configured" else none)
      else if not (truthy h.signature)
      then (if is_production w then some "Missing Monnify webhook signature" else none)
      else if verify_signature c h.raw_body (or_else (webhook_secret w) "") (or_else h.signature "")
      then none
      else some "Invalid Monnify webhook signature"

  unfoldable pub process : MonnifyWebhookPayload → MonnifyWebhookHeaders → Action (Unit {0})
  process p h w = elim (signature_problem h w) [
    | some message ↦ throw (Error.unauthorized message) w
    | none ↦ elim (build_event_key p) [
      | none ↦ (ok tt, w)
      | some key ↦ elim (find_recorded key w) [ some seen ↦ (ok tt, w) | none ↦ dispatch p key w ]
    ]
  ]
