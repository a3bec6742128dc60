-- ===== src/Recovery/Phones.antt =====
-- `handleAction` of src/recovery-channels/recovery-channels.service.ts: the subscription of a telephone
-- number.
use Prim.Native.String
use Prim.Native.Char.{code}
use subscription_billing_eng.Prelude.{
  ℕ, ◌%◌, Bool, true, false, String, none, some, ◌&&◌, ◌≡◌, inl, inr, arith, ◌==◌, str_eq, filter,
  get_elem?, length, Option-cases, if◌then◌else◌,
}
use subscription_billing_eng.Prelude.Table.{find}
use subscription_billing_eng.Prelude.Table.Positions.{filter-get_elem?}
use subscription_billing_eng.Entities.{Customer, Subscription, RecoveryAction, RecoveredViaChannel}
use subscription_billing_eng.World.{World, Action, Error, ok, err, ◌>>=◌}
use subscription_billing_eng.Portal.Sessions.{trim}
use subscription_billing_eng.Recovery.Channels.{RecoveryActionResult, execute_action}

-- `s.replace(/^prefix/, '')`.
drop_prefix : String → String → String → String
drop_prefix whole String.[] s = s
drop_prefix whole (String.◌∷◌ p ps) String.[] = whole
drop_prefix whole (String.◌∷◌ p ps) (String.◌∷◌ c s) =
    let rest = drop_prefix whole ps s in if code p == code c then rest else whole

unfoldable pub normalize_phone : String → String
unfolding drop_prefix trim
normalize_phone phone = trim (drop_prefix phone "whatsapp:" phone)

abbrev pub has_phone : String → Customer → Bool
has_phone phone c = elim c.phone [ none ↦ false | some p ↦ str_eq p phone ]

-- A subscription of one of the customers of that number, of any merchant.
unfoldable pub is_of_phone : String → World → Subscription → Bool
unfolding find
is_of_phone phone w s =
    elim (find (λ c. has_phone phone c && str_eq c.id s.customer_id) w.customers) [
      | none ↦ false
      | some _ ↦ true
    ]

-- `findSubscriptionByPhone`: the one that was updated last.
unfoldable pub find_subscription_by_phone : String → Action Subscription
unfolding normalize_phone find filter is_of_phone
find_subscription_by_phone phone w =
    let number = normalize_phone phone in
    elim (find (has_phone number) w.customers) [
      | none ↦ (err (Error.not_found (String.◌++◌ "No customer found for phone " number)), w)
      | some _ ↦
          let rows = filter (is_of_phone number w) w.subscriptions in
          elim (get_elem? rows (w.latest_updated rows % length rows)) [
            | none ↦
                (err (Error.not_found (String.◌++◌ "No subscription found for phone " number)), w)
            | some s ↦ (ok s, w)
          ]
    ]

-- `handleAction`.
unfoldable pub handle_action :
    String → RecoveryAction → RecoveredViaChannel → Action RecoveryActionResult
unfolding find_subscription_by_phone
handle_action phone action channel =
    find_subscription_by_phone phone >>= λ s. execute_action s action channel

-- The subscription that a number finds is stored, and of a stored customer of that number.
pub find_subscription_by_phone-owned :
    (phone : String) (w : World) {s : Subscription}
    → (find_subscription_by_phone phone w).0 ≡ ok s
    → (c : Customer) × (find
          (λ x. has_phone (normalize_phone phone) x && str_eq x.id s.customer_id)
          w.customers
        ≡ some c)
      × ((n : ℕ) × (get_elem? w.subscriptions n ≡ some s))
find_subscription_by_phone-owned phone w {s} answered =
    let number = normalize_phone phone in
    let rows = filter (is_of_phone number w) w.subscriptions in
    let taken : get_elem? rows (w.latest_updated rows % length rows) ≡ some s =
      unfold find_subscription_by_phone in ground arith in
    let (n, at, holds) =
      filter-get_elem? (is_of_phone number w) w.subscriptions (w.latest_updated rows % length rows)
        {x = s} taken in
    elim (Option-cases (find (λ x. has_phone number x && str_eq x.id s.customer_id) w.customers)) [
      | inl gone ↦ unfold is_of_phone in ground (arith, holds)
      | inr (c, found) ↦ (c, found, (n, at))
    ]
