-- ===== src/ApiKeys/Validity.antt =====
-- Which keys of src/api-keys/api-keys.service.ts are accepted.
use text.Mathlib.TextPositions.{eq_refl}
use subscription_billing_eng.Prelude.{String, Option, some, ◌≡◌, refl}
use subscription_billing_eng.Prelude.Table.{find}
use subscription_billing_eng.Entities.{ApiKey, ApiKeyEnvironment}
use subscription_billing_eng.World.{World}
use subscription_billing_eng.Events.{log}
use subscription_billing_eng.ApiKeys.{new_api_key, create_api_key, validate_key, raw_key}

-- A key that was just made is accepted by the raw key that was shown, as a key of the merchant and the
-- environment it was made for.
validate_key-create_api_key :
    (hash_value : String → String) (m : String) (environment : ApiKeyEnvironment)
    (name : Option String) (actor : String) (w : World)
    → (k : ApiKey) × ((validate_key hash_value
          (create_api_key hash_value m environment name actor w).0.1
          (create_api_key hash_value m environment name actor w).1).0
        ≡ some k)
      × (k.merchant_id ≡ m)
      × (k.environment ≡ environment)
      × (k.id ≡ (create_api_key hash_value m environment name actor w).0.0.id)
unfolding validate_key create_api_key new_api_key find log
validate_key-create_api_key hash_value m environment name actor w =
    let same = eq_refl (hash_value (raw_key hash_value environment w)) in
    (
      record (new_api_key hash_value m environment name w) { last_used_at = some w.now },
      rw (validate_key, same) refl,
      refl,
      refl,
      refl,
    )
