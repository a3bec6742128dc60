-- ===== src/Recovery/Links.antt =====
-- Recovery links: src/recovery-channels/recovery-link.service.ts. The update of `redeem` is one
-- statement of the database, so it is one step here.
pub mod SingleUse
use Prim.Native.String
use subscription_billing_eng.Prelude.{
  ℕ, ◌+◌, Bool, true, false, String, Option, none, some, List, [], ◌∷◌, ◌&&◌, str_eq, ltb, or_else,
  if◌then◌else◌,
}
use subscription_billing_eng.Prelude.Table.{find}
use subscription_billing_eng.Entities.{RecoveryLink, RecoveryAction}
use subscription_billing_eng.World.{World, Action, Error, ok, err, next_id, draw}

-- LINK_TTL_MS: a week.
abbrev pub link_ttl_ms : ℕ
link_ttl_ms = 604800000

abbrev new_link : String → String → RecoveryAction → World → RecoveryLink
new_link m subscription_id action w = record {
  id = next_id w;
  merchant_id = m;
  subscription_id = subscription_id;
  action = action;
  token = w.random_token w.draws;
  expires_at = w.now + link_ttl_ms;
  used_at = none;
}

-- `createLink`: the address of the link.
unfoldable pub create_link : String → String → RecoveryAction → World → String × World
create_link m subscription_id action w =
    let link = new_link m subscription_id action w in
    (
      String.◌++◌ (or_else w.config.app_url "http://localhost:3000")
          (String.◌++◌ "/recovery/email?token=" link.token),
      draw (record w { recovery_links = link ∷ w.recovery_links }),
    )

pub record RecoveryLinkUrls : Type 0 where
  pub retry_url : String
  pub pause_url : String
  pub cancel_url : String

-- `createLinks`.
unfoldable pub create_links : String → String → World → RecoveryLinkUrls × World
unfolding create_link
create_links m subscription_id w =
    let (retry, w₁) = create_link m subscription_id RecoveryAction.retry w in
    let (pause, w₂) = create_link m subscription_id RecoveryAction.pause w₁ in
    let (cancel, w₃) = create_link m subscription_id RecoveryAction.cancel w₂ in
    (record { retry_url = retry; pause_url = pause; cancel_url = cancel }, w₃)

-- `token = :token AND usedAt IS NULL AND expiresAt > :now`.
abbrev pub is_redeemable : String → ℕ → RecoveryLink → Bool
is_redeemable token now link =
    str_eq link.token token && elim link.used_at [ none ↦ ltb now link.expires_at | some t ↦ false ]

-- `SET usedAt = now` on the rows that match.
unfoldable pub use_links : String → ℕ → List RecoveryLink → List RecoveryLink
use_links token now [] = []
use_links token now (link ∷ links) =
    (if is_redeemable token now link then record link { used_at = some now } else link)
    ∷ use_links token now links

pub record RedeemedRecoveryLink : Type 0 where
  pub merchant_id : String
  pub subscription_id : String
  pub action : RecoveryAction

abbrev pub redeemed : RecoveryLink → RedeemedRecoveryLink
redeemed link = record {
  merchant_id = link.merchant_id;
  subscription_id = link.subscription_id;
  action = link.action;
}

-- `redeem`: the first row that was updated is answered.
unfoldable pub redeem : String → Action RedeemedRecoveryLink
unfolding use_links
redeem token w =
    let w' = record w { recovery_links = use_links token w.now w.recovery_links } in
    elim (find (is_redeemable token w.now) w.recovery_links) [
      | none ↦ (err (Error.bad_request "This link has already been used or has expired."), w')
      | some link ↦ (ok (redeemed link), w')
    ]
