-- ===== src/Subscriptions/StateMachine/Graph.antt =====
-- The table of src/subscriptions/subscription-state.machine.ts as a graph.
use mathlib.Core.Path.{subst}
use subscription_billing_eng.Prelude.{true, false, ◌≡◌, ◌≢◌, refl, sym, ◌⊎◌, ◌↔◌, inl, inr, arith}
use subscription_billing_eng.Entities.{SubscriptionStatus}
use subscription_billing_eng.Subscriptions.StateMachine.{can_transition}

-- The same status, or one that the table allows next.
abbrev pub IsMove : SubscriptionStatus → SubscriptionStatus → Type 0
IsMove from to = (from ≡ to) ⊎ (can_transition from to ≡ true)

-- A sequence of transitions that the table allows.
pub data Reaches (from : SubscriptionStatus) : SubscriptionStatus → Type 0 where
  here : Reaches from from
  next :
      {mid to : SubscriptionStatus}
      → Reaches from mid
      → can_transition mid to ≡ true
      → Reaches from to

-- No transition leads a status to itself.
pub can_transition_irrefl : (s : SubscriptionStatus) → can_transition s s ≡ false
unfolding can_transition
can_transition_irrefl SubscriptionStatus.pending = refl
can_transition_irrefl _ = refl

to_active :
    (s : SubscriptionStatus)
    → s ≢ SubscriptionStatus.expired
    → (s ≡ SubscriptionStatus.active) ⊎ (can_transition s SubscriptionStatus.active ≡ true)
unfolding can_transition
to_active s h = ground arith

-- What the table allows in any number of steps, said of the statuses alone: `pending` is only a
-- start, `trialing` comes only from `pending`, and `expired` is an end.
abbrev pub IsReachable : SubscriptionStatus → SubscriptionStatus → Type 0
IsReachable s t =
    (s ≡ t)
    ⊎ (s ≢ SubscriptionStatus.expired)
      × (t ≢ SubscriptionStatus.pending)
      × ((t ≢ SubscriptionStatus.trialing) ⊎ (s ≡ SubscriptionStatus.pending))

IsReachable-step :
    (s mid to : SubscriptionStatus)
    → IsReachable s mid
    → can_transition mid to ≡ true
    → IsReachable s to
unfolding can_transition
IsReachable-step s mid to r h = ground arith

Reaches-IsReachable : {s t : SubscriptionStatus} → Reaches s t → IsReachable s t
Reaches-IsReachable here = inl refl
Reaches-IsReachable {s} (next {mid = mid} {to = to} r h) =
    IsReachable-step s mid to (Reaches-IsReachable r) h

Reaches-active :
    (s : SubscriptionStatus) → s ≢ SubscriptionStatus.expired → Reaches s SubscriptionStatus.active
Reaches-active s h = elim (to_active s h) [
  | inl e ↦ subst (λ x. Reaches s x) e here
  | inr step ↦ next here step
]

-- From `active` the table leads to every status but `pending` and `trialing`.
from_active :
    (s t : SubscriptionStatus)
    → Reaches s SubscriptionStatus.active
    → t ≢ SubscriptionStatus.pending
    → t ≢ SubscriptionStatus.trialing
    → Reaches s t
unfolding can_transition
from_active s SubscriptionStatus.pending r p q = absurd (p refl)
from_active s SubscriptionStatus.trialing r p q = absurd (q refl)
from_active s SubscriptionStatus.active r p q = r
from_active s SubscriptionStatus.past_due r p q = next r refl
from_active s SubscriptionStatus.grace_period r p q =
    next {mid = SubscriptionStatus.past_due} (next r refl) refl
from_active s SubscriptionStatus.suspended r p q = next r refl
from_active s SubscriptionStatus.cancelled r p q = next r refl
from_active s SubscriptionStatus.expired r p q =
    next {mid = SubscriptionStatus.suspended} (next r refl) refl

from_pending :
    (s : SubscriptionStatus)
    → s ≡ SubscriptionStatus.pending
    → Reaches s SubscriptionStatus.trialing
unfolding can_transition
from_pending s e =
    subst (λ x. Reaches x SubscriptionStatus.trialing) (sym e)
      (next {mid = SubscriptionStatus.pending} here refl)

forward :
    (s t : SubscriptionStatus)
    → s ≢ SubscriptionStatus.expired
    → t ≢ SubscriptionStatus.pending
    → (t ≢ SubscriptionStatus.trialing) ⊎ (s ≡ SubscriptionStatus.pending)
    → Reaches s t
forward s SubscriptionStatus.trialing live p (inl q) = absurd (q refl)
forward s SubscriptionStatus.trialing live p (inr e) = from_pending s e
forward s t live p q = from_active s t (Reaches-active s live) p (λ e. cc)

-- One status leads to another by allowed transitions exactly when they are the same, or the first is
-- not `expired`, the second is not `pending`, and the second is `trialing` only from `pending`.
pub Reaches-iff : (s t : SubscriptionStatus) → Reaches s t ↔ IsReachable s t
Reaches-iff s t = (
  Reaches-IsReachable,
  λ r. elim r [
    | inl e ↦ subst (λ x. Reaches s x) e here
    | inr (live, not_start, trial) ↦ forward s t live not_start trial
  ],
)
