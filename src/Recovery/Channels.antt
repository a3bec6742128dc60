-- ===== src/Recovery/Channels.antt =====
-- Recovery by message: src/recovery-channels/recovery-channels.service.ts. The wording of the replies
-- that print a date is left out, so a reply is named by its case.
pub mod Outcomes
use Prim.Native.String
use subscription_billing_eng.Prelude.{
  ℕ, Bool, true, false, String, Option, none, some, List, [], ◌∷◌, str_eq, if◌then◌else◌,
}
use subscription_billing_eng.Prelude.Table.{find}
use subscription_billing_eng.Entities.{
  Subscription, SubscriptionStatus, same_status, status_text, RecoveryAction, RecoveredViaChannel,
  Customer,
}
use subscription_billing_eng.World.{
  World, Action, Error, ok, err, pure, gets, or_throw, catch, error_message, ◌>>=◌, ◌>>◌,
}
use subscription_billing_eng.Subscriptions.Service.{pause, cancel}
use subscription_billing_eng.Dunning.Schedule.{subscription_by_id}
use subscription_billing_eng.Renewal.Cycle.{bill_subscription, is_in_dunning}

-- The message of a reply, by its case.
pub data Reply : Type 0 where
  status_reply nothing_to_retry : SubscriptionStatus → Reply
  payment_succeeded did_not_go_through paused cancelled : Reply
  could_not : String → SubscriptionStatus → Reply

pub record RecoveryActionResult : Type 0 where
  pub subscription_id : String
  pub merchant_id : String
  pub previous_status : SubscriptionStatus
  pub new_status : SubscriptionStatus
  pub reply_message : Reply

abbrev pub recovery_channel_actor : String
recovery_channel_actor = "recovery-channel"

abbrev pub result_of : SubscriptionStatus → Reply → Subscription → RecoveryActionResult
result_of previous reply s = record {
  subscription_id = s.id;
  merchant_id = s.merchant_id;
  previous_status = previous;
  new_status = s.status;
  reply_message = reply;
}

-- `buildStatusResult`.
abbrev status_result : Subscription → RecoveryActionResult
status_result s = result_of s.status (Reply.status_reply s.status) s

-- `findOneOrFail`.
unfoldable pub refresh : String → Action Subscription
refresh id w = or_throw (subscription_by_id id w) (Error.not_found "Could not find any entity") w

abbrev pub retry_reply : SubscriptionStatus → Reply
retry_reply status =
    if same_status status SubscriptionStatus.active
    then Reply.payment_succeeded
    else Reply.did_not_go_through

-- `retry`.
unfoldable pub retry : Subscription → RecoveredViaChannel → Action RecoveryActionResult
unfolding refresh
retry s channel =
    if is_in_dunning s.status
    then (bill_subscription s (some channel)
        >> (refresh s.id >>= λ refreshed.
            pure (result_of s.status (retry_reply refreshed.status) refreshed)))
    else pure (result_of s.status (Reply.nothing_to_retry s.status) s)

unfoldable pub pause_by_channel : Subscription → Action RecoveryActionResult
pause_by_channel s = do
  updated ← pause s.merchant_id s.id recovery_channel_actor
  pure (result_of s.status Reply.paused updated)

unfoldable pub cancel_by_channel : Subscription → Action RecoveryActionResult
cancel_by_channel s = do
  updated ← cancel s.merchant_id s.id recovery_channel_actor
  pure (result_of s.status Reply.cancelled updated)

-- The `switch` of `executeAction`.
unfoldable pub run_action :
    RecoveryAction → Subscription → RecoveredViaChannel → Action RecoveryActionResult
unfolding pause_by_channel cancel_by_channel
run_action RecoveryAction.status s channel = pure (status_result s)
run_action RecoveryAction.retry s channel = retry s channel
run_action RecoveryAction.pause s channel = pause_by_channel s
run_action RecoveryAction.cancel s channel = cancel_by_channel s

-- The answer of the `catch`.
abbrev pub failed_result : Subscription → Error → RecoveryActionResult
failed_result s e = result_of s.status (Reply.could_not (error_message e) s.status) s

-- `executeAction`.
unfoldable pub execute_action :
    Subscription → RecoveryAction → RecoveredViaChannel → Action RecoveryActionResult
execute_action s action channel =
    catch (run_action action s channel) (λ e. pure (failed_result s e))
