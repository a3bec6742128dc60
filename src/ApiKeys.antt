-- ===== src/ApiKeys.antt =====
-- The API keys of a merchant: src/api-keys/api-keys.service.ts. `hash_value` (SHA-256 in hexadecimal,
-- of the `crypto` library) is a parameter.
pub mod Validity
pub mod Revocation
use Prim.Native.String
use Prim.Native.String.{String}
use subscription_billing_eng.Prelude.{
  ℕ, ◌-◌, Bool, true, false, Option, none, some, List, [], ◌∷◌, ◌&&◌, str_eq, if◌then◌else◌,
}
use subscription_billing_eng.Prelude.Table.{find, save}
use subscription_billing_eng.Entities.{ApiKey, ApiKeyEnvironment, AuditAction, AuditLog}
use subscription_billing_eng.World.{
  World, Action, Error, ok, err, pure, gets, or_throw, modify, ◌>>=◌, ◌>>◌, next_id, draw,
}
use subscription_billing_eng.Events.{log}

-- `generateApiKeyPrefix`.
abbrev api_key_prefix : ApiKeyEnvironment → String
api_key_prefix ApiKeyEnvironment.live = "nsub_live_"
api_key_prefix ApiKeyEnvironment.test = "nsub_test_"

unfoldable pub save_api_key : ApiKey → World → World
unfolding save
save_api_key k w = record w { api_keys = save (λ x. x.id) k w.api_keys }

abbrev key_log : String → String → AuditAction → String → AuditLog
key_log m actor action id = record {
  merchant_id = m;
  actor = actor;
  action = action;
  resource_type = "api_key";
  resource_id = some id;
}

-- `where: { id, merchantId }`.
abbrev pub is_api_key : String → String → ApiKey → Bool
is_api_key m id k = str_eq k.id id && str_eq k.merchant_id m

unfoldable pub find_api_key : String → String → Action ApiKey
find_api_key m id w =
    or_throw (find (is_api_key m id) w.api_keys) (Error.not_found "API key not found") w

-- `revoke`.
unfoldable pub revoke : String → String → String → Action ApiKey
unfolding find_api_key
revoke m id actor = do
  k ← find_api_key m id
  now ← gets (λ w. w.now)
  let updated = record k { is_active = false; revoked_at = some now }
  modify (save_api_key updated)
  modify (log (key_log m actor AuditAction.delete id))
  pure updated

module _ (hash_value : String → String) where
  -- The raw key of the next draw.
  abbrev pub raw_key : ApiKeyEnvironment → World → String
  raw_key environment w = String.◌++◌ (api_key_prefix environment) (w.random_token w.draws)

  -- The stored key: the hash of the raw key, and its last four characters.
  unfoldable pub new_api_key : String → ApiKeyEnvironment → Option String → World → ApiKey
  new_api_key m environment name w =
      let secret = w.random_token w.draws in
      record {
        id = next_id w;
        merchant_id = m;
        prefix = api_key_prefix environment;
        key_hash = hash_value (raw_key environment w);
        last_four = String.slice secret (String.len secret - 4) (String.len secret);
        environment = environment;
        name = name;
        is_active = true;
        revoked_at = none;
        last_used_at = none;
      }

  -- `create`: the stored key, and the raw key that is shown once.
  unfoldable pub create_api_key :
      String → ApiKeyEnvironment → Option String → String → World → (ApiKey × String) × World
  unfolding new_api_key
  create_api_key m environment name actor w =
      let k = new_api_key m environment name w in
      (
        (k, raw_key environment w),
        log (key_log m actor AuditAction.create k.id)
            (draw (record w { api_keys = k ∷ w.api_keys })),
      )

  -- `rotate`: the old key is revoked, and a new one of its environment and name is made.
  unfoldable pub rotate : String → String → String → Action (ApiKey × String)
  unfolding revoke find_api_key create_api_key
  rotate m id actor = do
    revoke m id actor
    old ← find_api_key m id
    λ w. let (made, w') = create_api_key m old.environment old.name actor w in (ok made, w')

  abbrev pub is_valid_for : String → ApiKey → Bool
  is_valid_for raw k = str_eq k.key_hash (hash_value raw) && k.is_active

  -- `validateKey`: the active key of that hash, with the time of its use.
  unfoldable pub validate_key : String → World → Option ApiKey × World
  validate_key raw w = elim (find (is_valid_for raw) w.api_keys) [
    | none ↦ (none, w)
    | some k ↦ let used = record k { last_used_at = some w.now } in (some used, save_api_key used w)
  ]
