-- ===== src/Payments/Webhooks/Authentic.antt =====
-- Proofs on `verifySignature` of src/payments/monnify-webhooks.service.ts.
use subscription_billing_eng.Prelude.{
  true, String, some, none, ◌≡◌, ◌⊎◌, inl, inr, arith, Option-cases, str_eq,
}
use subscription_billing_eng.World.{World, err, Error}
use subscription_billing_eng.Payments.Signature.{
  Crypto, verify_signature, generate_signature, generate_legacy_signature, to_lower,
}
use subscription_billing_eng.Payments.Webhooks.Resolve.{
  MonnifyWebhookPayload, MonnifyWebhookHeaders,
}
use subscription_billing_eng.Payments.Webhooks.Process.{
  process, signature_problem, webhook_secret, is_production,
}

-- A signature that is accepted equals one of the two digests of the body, up to the case of letters.
verify_signature_sound :
    (c : Crypto) (body secret signature : String)
    → verify_signature c body secret signature ≡ true
    → (str_eq (to_lower (generate_signature c body secret)) (to_lower signature) ≡ true)
      ⊎ (str_eq (to_lower (generate_legacy_signature c body secret)) (to_lower signature) ≡ true)
unfolding verify_signature
verify_signature_sound c body secret signature h = ground arith

-- The signature of the request is one of the two digests of its body under the configured secret.
pub record IsSigned (c : Crypto) (h : MonnifyWebhookHeaders) (w : World) : Type 0 where
  pub secret : String
  pub signature : String
  pub configured : webhook_secret w ≡ some secret
  pub carried : h.signature ≡ some signature
  pub digest :
      (str_eq (to_lower (generate_signature c h.raw_body secret)) (to_lower signature) ≡ true)
      ⊎ (str_eq (to_lower (generate_legacy_signature c h.raw_body secret)) (to_lower signature)
          ≡ true)

authentic-IsSigned :
    (c : Crypto) (h : MonnifyWebhookHeaders) (w : World)
    → is_production w ≡ true
    → signature_problem c h w ≡ none
    → IsSigned c h w
unfolding signature_problem
authentic-IsSigned c h w production ok' = elim (Option-cases (webhook_secret w)) [
  | inl unset ↦ ground arith
  | inr (secret, e) ↦ elim (Option-cases h.signature) [
    | inl missing ↦ ground arith
    | inr (signature, f) ↦ record {
      secret = secret;
      signature = signature;
      configured = e;
      carried = f;
      digest = verify_signature_sound c h.raw_body secret signature (ground arith);
    }
  ]
]

-- In production a webhook either carries a digest of its body under the configured secret, up to the
-- case of letters, or it is refused as unauthorized and changes nothing.
pub process_authentic :
    (c : Crypto) (p : MonnifyWebhookPayload) (h : MonnifyWebhookHeaders) (w : World)
    → is_production w ≡ true
    → IsSigned c h w
      ⊎ ((message : String) × (process c p h w ≡ (err (Error.unauthorized message), w)))
unfolding process
process_authentic c p h w production = elim (Option-cases (signature_problem c h w)) [
  | inl authentic ↦ inl (authentic-IsSigned c h w production authentic)
  | inr (message, refused) ↦ inr (message, ground arith)
]
