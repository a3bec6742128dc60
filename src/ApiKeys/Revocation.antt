-- ===== src/ApiKeys/Revocation.antt =====
-- A key of src/api-keys/api-keys.service.ts that was revoked.
use subscription_billing_eng.Prelude.{
  false, String, some, none, [], ◌∷◌, ◌≡◌, arith, filter, str_eq,
}
use subscription_billing_eng.Prelude.Table.{find, save}
use subscription_billing_eng.Prelude.Table.Alone.{find-save_only}
use subscription_billing_eng.Entities.{ApiKey}
use subscription_billing_eng.World.{World}
use subscription_billing_eng.Events.{log}
use subscription_billing_eng.ApiKeys.{
  is_api_key, find_api_key, revoke, is_valid_for, validate_key, save_api_key,
}

-- A raw key that was valid for one row alone is refused once that row is revoked.
pub revoke-validate_key :
    (hash_value : String → String) (m id actor raw : String) (w : World) {k : ApiKey}
    → find (is_api_key m id) w.api_keys ≡ some k
    → find (λ x. str_eq x.id k.id) w.api_keys ≡ some k
    → filter (is_valid_for hash_value raw) w.api_keys ≡ k ∷ []
    → (validate_key hash_value raw (revoke m id actor w).1).0 ≡ none
unfolding validate_key revoke find_api_key save_api_key log save
revoke-validate_key hash_value m id actor raw w {k} found of_id only =
    let a = record k { is_active = false; revoked_at = some w.now } in
    let gone =
      find-save_only (λ x. x.id) (is_valid_for hash_value raw) k a w.api_keys (ground arith) only
        of_id in
    ground (arith, gone)
