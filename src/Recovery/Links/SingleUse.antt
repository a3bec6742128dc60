-- ===== src/Recovery/Links/SingleUse.antt =====
-- Proofs on the links of src/recovery-channels/recovery-link.service.ts, made and redeemed.
use text.Mathlib.TextPositions.{eq_refl}
use subscription_billing_eng.Prelude.{
  ℕ, ◌+◌, ◌≤◌, String, none, List, [], ◌∷◌, ◌≡◌, refl, arith, ltb, if◌then◌else◌,
}
use subscription_billing_eng.Prelude.Table.{find}
use subscription_billing_eng.Entities.{RecoveryLink, RecoveryAction}
use subscription_billing_eng.World.{World, ok, err, Error}
use subscription_billing_eng.Recovery.Links.{
  link_ttl_ms, create_link, is_redeemable, use_links, redeem,
}

-- A row that could be redeemed before can not be redeemed once it is used.
pub used_up :
    (token : String) (now n : ℕ) (links : List RecoveryLink)
    → now ≤ n
    → find (is_redeemable token n) (use_links token now links) ≡ none
unfolding find use_links
used_up token now n [] h = refl
used_up token now n (link ∷ links) h = ground (arith, used_up token now n links h)

-- After a redemption, successful or not, no later one of the same token succeeds.
pub redeem_once :
    (token : String) (w : World) (n : ℕ)
    → w.now ≤ n
    → (redeem token (record (redeem token w).1 { now = n })).0
      ≡ err (Error.bad_request "This link has already been used or has expired.")
unfolding redeem
redeem_once token w n h =
    let none_left = used_up token w.now n w.recovery_links h in ground (arith, none_left)

-- A new link is redeemed by its token until a week has passed, for the subscription and the action it
-- was made for; after that it is refused, where no older link can be redeemed by its token.
pub redeem-create_link :
    (m id : String) (a : RecoveryAction) (w : World) (n : ℕ)
    → find (is_redeemable (w.random_token w.draws) n) w.recovery_links ≡ none
    → (redeem (w.random_token w.draws) (record (create_link m id a w).1 { now = n })).0 ≡ (
        if ltb n (w.now + link_ttl_ms)
        then ok (record { merchant_id = m; subscription_id = id; action = a })
        else err (Error.bad_request "This link has already been used or has expired."))
unfolding redeem create_link find
redeem-create_link m id a w n fresh = ground (arith, eq_refl (w.random_token w.draws))
