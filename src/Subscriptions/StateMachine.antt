-- ===== src/Subscriptions/StateMachine.antt =====
-- The transitions of a subscription: src/subscriptions/subscription-state.machine.ts.
pub mod Graph
pub mod Follows
use Prim.Native.String
use subscription_billing_eng.Prelude.{Bool, true, false, String, List, [], ◌∷◌, not, ◌||◌}
use subscription_billing_eng.Entities.{SubscriptionStatus, same_status, status_text}
use subscription_billing_eng.World.{Action, Error, throw_if}

-- ALLOWED_TRANSITIONS, which `getAllowedTransitions` answers.
unfoldable pub allowed_transitions : SubscriptionStatus → List SubscriptionStatus
allowed_transitions SubscriptionStatus.pending =
    SubscriptionStatus.active ∷ SubscriptionStatus.trialing ∷ SubscriptionStatus.cancelled ∷ []
allowed_transitions SubscriptionStatus.trialing =
    SubscriptionStatus.active ∷ SubscriptionStatus.cancelled ∷ SubscriptionStatus.expired ∷ []
allowed_transitions SubscriptionStatus.active =
    SubscriptionStatus.past_due ∷ SubscriptionStatus.cancelled ∷ SubscriptionStatus.suspended ∷ []
allowed_transitions SubscriptionStatus.past_due =
    SubscriptionStatus.active ∷ SubscriptionStatus.grace_period ∷ SubscriptionStatus.suspended
    ∷ SubscriptionStatus.cancelled ∷ []
allowed_transitions SubscriptionStatus.grace_period =
    SubscriptionStatus.active ∷ SubscriptionStatus.suspended ∷ SubscriptionStatus.cancelled ∷ []
allowed_transitions SubscriptionStatus.suspended =
    SubscriptionStatus.active ∷ SubscriptionStatus.cancelled ∷ SubscriptionStatus.expired ∷ []
allowed_transitions SubscriptionStatus.cancelled = SubscriptionStatus.active ∷ []
allowed_transitions SubscriptionStatus.expired = []

includes : List SubscriptionStatus → SubscriptionStatus → Bool
includes [] s = false
includes (x ∷ xs) s = same_status x s || includes xs s

unfoldable pub can_transition : SubscriptionStatus → SubscriptionStatus → Bool
unfolding allowed_transitions includes
can_transition from to = includes (allowed_transitions from) to

unfoldable pub transition_error : SubscriptionStatus → SubscriptionStatus → Error
transition_error from to = Error.bad_request (
    String.◌++◌ "Invalid subscription transition from "
      (String.◌++◌ (status_text from) (String.◌++◌ " to " (status_text to))))

unfoldable pub assert_transition : SubscriptionStatus → SubscriptionStatus → Action (Unit {0})
assert_transition from to = throw_if (not (can_transition from to)) (transition_error from to)
