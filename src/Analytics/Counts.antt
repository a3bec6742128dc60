-- ===== src/Analytics/Counts.antt =====
-- The counts by status of src/analytics/analytics.service.ts.
use subscription_billing_eng.Prelude.{
  ℕ, ◌+◌, String, List, ◌≡◌, refl, arith, ◌==◌, filter, length, map, str_eq, if◌then◌else◌,
}
use subscription_billing_eng.Entities.{SubscriptionStatus, status_code}
use subscription_billing_eng.World.{World}
use subscription_billing_eng.Analytics.Groups.{group_counts, occurrences}
use subscription_billing_eng.Analytics.Rows.{read_rows, read_rows-occurrences, read_rows-length}

pub record StatusCounts : Type 0 where
  pub active : ℕ
  pub trialing : ℕ
  pub past_due : ℕ
  pub grace_period : ℕ
  pub suspended : ℕ
  pub cancelled : ℕ
  pub pending : ℕ
  pub expired : ℕ
  pub total : ℕ

abbrev no_statuses : StatusCounts
no_statuses = record {
  active = 0;
  trialing = 0;
  past_due = 0;
  grace_period = 0;
  suspended = 0;
  cancelled = 0;
  pending = 0;
  expired = 0;
  total = 0;
}

-- The `switch` on a row of the query, after the total was raised.
unfoldable pub put_status : SubscriptionStatus → ℕ → StatusCounts → StatusCounts
put_status SubscriptionStatus.active n c = record c { active = n; total = c.total + n }
put_status SubscriptionStatus.trialing n c = record c { trialing = n; total = c.total + n }
put_status SubscriptionStatus.past_due n c = record c { past_due = n; total = c.total + n }
put_status SubscriptionStatus.grace_period n c = record c { grace_period = n; total = c.total + n }
put_status SubscriptionStatus.suspended n c = record c { suspended = n; total = c.total + n }
put_status SubscriptionStatus.cancelled n c = record c { cancelled = n; total = c.total + n }
put_status SubscriptionStatus.pending n c = record c { pending = n; total = c.total + n }
put_status SubscriptionStatus.expired n c = record c { expired = n; total = c.total + n }

-- The statuses of the merchant's subscriptions.
abbrev pub statuses_of : String → World → List SubscriptionStatus
statuses_of m w = map (λ s. s.status) (filter (λ s. str_eq s.merchant_id m) w.subscriptions)

-- `getSubscriptionStatusCounts`.
unfoldable pub get_subscription_status_counts : String → World → StatusCounts
unfolding group_counts filter put_status read_rows
get_subscription_status_counts m w =
    read_rows put_status (group_counts status_code (statuses_of m w)) no_statuses

-- The field that a status is counted in.
abbrev pub count_of : SubscriptionStatus → StatusCounts → ℕ
count_of SubscriptionStatus.active c = c.active
count_of SubscriptionStatus.trialing c = c.trialing
count_of SubscriptionStatus.past_due c = c.past_due
count_of SubscriptionStatus.grace_period c = c.grace_period
count_of SubscriptionStatus.suspended c = c.suspended
count_of SubscriptionStatus.cancelled c = c.cancelled
count_of SubscriptionStatus.pending c = c.pending
count_of SubscriptionStatus.expired c = c.expired

count_of-no_statuses : (s : SubscriptionStatus) → count_of s no_statuses ≡ 0
count_of-no_statuses SubscriptionStatus.pending = refl
count_of-no_statuses SubscriptionStatus.trialing = refl
count_of-no_statuses SubscriptionStatus.active = refl
count_of-no_statuses SubscriptionStatus.past_due = refl
count_of-no_statuses SubscriptionStatus.grace_period = refl
count_of-no_statuses SubscriptionStatus.suspended = refl
count_of-no_statuses SubscriptionStatus.cancelled = refl
count_of-no_statuses SubscriptionStatus.expired = refl

count_of-put_status :
    (s k : SubscriptionStatus) (n : ℕ) (c : StatusCounts)
    → count_of s (put_status k n c) ≡ (if status_code k == status_code s then n else count_of s c)
unfolding put_status
count_of-put_status SubscriptionStatus.pending k n c = ground arith
count_of-put_status SubscriptionStatus.trialing k n c = ground arith
count_of-put_status SubscriptionStatus.active k n c = ground arith
count_of-put_status SubscriptionStatus.past_due k n c = ground arith
count_of-put_status SubscriptionStatus.grace_period k n c = ground arith
count_of-put_status SubscriptionStatus.suspended k n c = ground arith
count_of-put_status SubscriptionStatus.cancelled k n c = ground arith
count_of-put_status SubscriptionStatus.expired k n c = ground arith

total-put_status :
    (k : SubscriptionStatus) (n : ℕ) (c : StatusCounts) → (put_status k n c).total ≡ c.total + n
unfolding put_status
total-put_status k n c = ground arith

-- The count of each status is the number of the merchant's subscriptions of that status, and the total
-- is the number of all of them.
pub get_subscription_status_counts-occurrences :
    (m : String) (w : World) (s : SubscriptionStatus)
    → (count_of s (get_subscription_status_counts m w)
        ≡ occurrences status_code s (statuses_of m w))
      × ((get_subscription_status_counts m w).total ≡ length (statuses_of m w))
unfolding get_subscription_status_counts
get_subscription_status_counts-occurrences m w s = (
  read_rows-occurrences put_status status_code (count_of s) s (count_of-put_status s)
      (statuses_of m w) no_statuses (count_of-no_statuses s),
  read_rows-length put_status status_code (λ c. c.total) total-put_status (statuses_of m w)
      no_statuses refl,
)
