-- ===== src/Recovery/Email.antt =====
-- The page that a recovery link opens: src/recovery-channels/email-recovery.controller.ts. The page's
-- markup is left out.
pub mod Once
use subscription_billing_eng.Prelude.{String, is_empty, if◌then◌else◌}
use subscription_billing_eng.Entities.{RecoveredViaChannel}
use subscription_billing_eng.World.{Action, Error, pure, throw, catch, error_message, ◌>>=◌}
use subscription_billing_eng.Subscriptions.Service.{find_subscription}
use subscription_billing_eng.Recovery.Links.{redeem}
use subscription_billing_eng.Recovery.Channels.{Reply, execute_action}

-- The page: the reply of the action, or the message of an error, with the status 400.
pub data Page : Type 0 where
  shown : Reply → Page
  refused : String → Page

-- The body of the `try`.
unfoldable pub follow : String → Action Page
follow token = do
  link ← redeem token
  s ← find_subscription link.merchant_id link.subscription_id
  result ← execute_action s link.action RecoveredViaChannel.email
  pure (Page.shown result.reply_message)

-- `handle`.
unfoldable pub handle : String → Action Page
handle token =
    if is_empty token
    then throw (Error.bad_request "Missing token")
    else catch (follow token) (λ e. pure (Page.refused (error_message e)))
