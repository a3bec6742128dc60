-- ===== src/Payments/Signature.antt =====
-- Verification of a webhook's signature: src/payments/monnify-signature.util.ts. The hashes of the
-- `crypto` library are parameters: they take a key and a text to a hexadecimal text.
use Prim.Native.Char.{code}
use Prim.Native.String
use Prim.Native.String.{String}
use subscription_billing_eng.Prelude.{
  ◌-◌, Bool, true, false, ◌||◌, ◌==◌, leb, ◌&&◌, str_eq, is_empty, if◌then◌else◌,
}

pub record Crypto : Type 0 where
  pub hmac_sha512 : String → String → String
  pub sha512 : String → String

-- `toLowerCase`, on the ASCII letters.
unfoldable pub to_lower : String → String
to_lower String.[] = ""
to_lower (String.◌∷◌ c s) =
    let rest = to_lower s in
    if leb b'A' (code c) && leb (code c) b'Z'
    then String.◌++◌ (String.slice "abcdefghijklmnopqrstuvwxyz" (code c - 65) (code c - 64)) rest
    else String.◌∷◌ c rest

-- `safeEqualHex`: texts of different lengths are told apart first.
unfoldable pub safe_equal_hex : String → String → Bool
unfolding to_lower
safe_equal_hex a b =
    let expected = to_lower a in
    let received = to_lower b in
    if String.len expected == String.len received then str_eq expected received else false

module _ (c : Crypto) where
  -- `generateMonnifySignature`.
  unfoldable pub generate_signature : String → String → String
  generate_signature raw_body secret = c.hmac_sha512 secret raw_body

  -- `generateMonnifyLegacySignature`.
  unfoldable pub generate_legacy_signature : String → String → String
  generate_legacy_signature raw_body secret = c.sha512 (String.◌++◌ secret raw_body)

  -- `verifyMonnifySignature`.
  unfoldable pub verify_signature : String → String → String → Bool
  unfolding safe_equal_hex generate_signature generate_legacy_signature
  verify_signature raw_body secret signature =
      if is_empty signature || is_empty secret
      then false
      else if safe_equal_hex (generate_signature raw_body secret) signature
      then true
      else safe_equal_hex (generate_legacy_signature raw_body secret) signature
