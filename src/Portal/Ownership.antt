-- ===== src/Portal/Ownership.antt =====
-- Proofs on `executeAction` of src/portal/portal.service.ts: whose subscriptions it can change, and
-- how.
use text.Mathlib.TextEquality.{eq_iff}
use subscription_billing_eng.Prelude.{
  ℕ, true, String, some, ◌%◌, ◌≡◌, ◌≢◌, ◌⊎◌, refl, inl, inr, ap, sym, ◌∙◌, arith, str_eq, length,
  filter, get_elem?, Bool-cases, Option-cases,
}
use subscription_billing_eng.Prelude.Table.{find, find-holds, find-save_other}
use subscription_billing_eng.Prelude.Table.Positions.{find-get_elem?, filter-get_elem?}
use subscription_billing_eng.Entities.{Customer, Merchant, Subscription, PortalSession}
use subscription_billing_eng.World.{World, Result-cases, ok, save_subscription}
use subscription_billing_eng.World.Frame.{and-left, str_eq-subst_left}
use subscription_billing_eng.Customers.{is_customer}
use subscription_billing_eng.Dunning.Schedule.{subscription_by_id}
use subscription_billing_eng.Subscriptions.StateMachine.Graph.{IsMove}
use subscription_billing_eng.Subscriptions.StateMachine.Follows.{
  Follows, Follows-same, Follows-save, Follows-end,
}
use subscription_billing_eng.Subscriptions.Service.{is_subscription}
use subscription_billing_eng.Portal.Settings.{resolve_portal_config}
use subscription_billing_eng.Portal.Sessions.{
  require_session, session_by_token, save_session, merchant_by_id,
}
use subscription_billing_eng.Portal.View.{get_session_state, latest_subscription, is_own}
use subscription_billing_eng.Portal.Actions.{
  PortalActionData, act, execute_action, run_action, note_use, parse_action,
}
use subscription_billing_eng.Portal.Updates.{Rewrites, Touches, Touches-same, run_action-Touches}

-- An identifier is a primary key: a row that stands in the table is the row of its identifier.
abbrev IsKeyed : World → Type 0
IsKeyed w =
    (n : ℕ) (s : Subscription)
    → get_elem? w.subscriptions n ≡ some s
    → subscription_by_id s.id w ≡ some s

require_session-state : (token : String) (w : World) → (require_session token w).1 ≡ w
unfolding require_session
require_session-state token w = ground arith

get_session_state-state : (token : String) (w : World) → (get_session_state token w).1 ≡ w
unfolding get_session_state
get_session_state-state token w = ground (arith, require_session-state token w)

note_use-subscriptions :
    (session : PortalSession) (w : World) → (note_use session w).subscriptions ≡ w.subscriptions
unfolding note_use save_session
note_use-subscriptions session w = ground arith

-- The action of a session touches the customer's latest subscription at most.
act-Touches :
    (session : PortalSession) (c : Customer) (merchant : Merchant) (a : String)
    (d : PortalActionData) (w : World)
    → Touches session.merchant_id
        (latest_subscription session.merchant_id c.id w)
        w
        (act session c merchant a d w).1
act-Touches session c merchant a d w = elim (Option-cases (parse_action a)) [
  | inl unknown ↦ inl (unfold act in ground arith)
  | inr (label, known) ↦
      let m = session.merchant_id in
      let s = latest_subscription m c.id w in
      let config = resolve_portal_config merchant.customer_portal_settings session.mode in
      let ran = (run_action label config m c s d w).1 in
      Touches-same m s w ran (act session c merchant a d w).1
        (unfold act in ground (arith, note_use-subscriptions session ran))
        (run_action-Touches config m c d w label s)
]

-- An action that goes on has a session, a customer and a merchant.
record Opened (token a : String) (d : PortalActionData) (w : World) : Type 0 where
  session : PortalSession
  customer : Customer
  merchant : Merchant
  opened : (require_session token w).0 ≡ ok session
  found : find (is_customer session.merchant_id session.customer_id) w.customers ≡ some customer
  acted : (execute_action token a d w).1 ≡ (act session customer merchant a d w).1

execute_action_lem :
    (token a : String) (d : PortalActionData) (w : World)
    → ((execute_action token a d w).1 ≡ w) ⊎ Opened token a d w
execute_action_lem token a d w = elim (Result-cases (require_session token w).0) [
  | inl (x, refused) ↦ inl (unfold execute_action in ground (arith, require_session-state token w))
  | inr (session, opened) ↦
      elim (Option-cases (find (is_customer session.merchant_id session.customer_id) w.customers)) [
        | inl gone ↦ inl (unfold execute_action in ground (arith, require_session-state token w))
        | inr (c, found) ↦ elim (Option-cases (merchant_by_id session.merchant_id w)) [
          | inl gone ↦ inl (unfold execute_action in ground (arith, require_session-state token w))
          | inr (merchant, owner) ↦ inr (record {
            session = session;
            customer = c;
            merchant = merchant;
            opened = opened;
            found = found;
            acted =
                unfold execute_action in
                ground (
                  arith,
                  require_session-state token w,
                  get_session_state-state token (act session c merchant a d w).1,
                );
          })
        ]
      ]
]

module _ (m c : String) (w v : World) (keyed : IsKeyed w)
    (touched : Touches m (latest_subscription m c w) w v) where
  -- The row that an update starts from is the customer's own.
  before_own :
      {own : Subscription} (r : Rewrites m own.id w v)
      → latest_subscription m c w ≡ some own
      → (subscription_by_id r.before.id w ≡ some r.before) × (r.before.customer_id ≡ c)
  before_own {own} r latest =
      let rows = filter (is_own m c) w.subscriptions in
      let (n, at, holds) =
        filter-get_elem? (is_own m c) w.subscriptions (w.latest_updated rows % length rows)
          {x = own} (unfold latest_subscription in latest) in
      let (k, stands) = find-get_elem? (is_subscription m own.id) w.subscriptions r.found in
      let match : is_subscription m own.id r.before ≡ true =
        find-holds (is_subscription m own.id) w.subscriptions r.found in
      let same : r.before.id ≡ own.id =
        (eq_iff r.before.id own.id).0 (and-left _ (str_eq r.before.merchant_id m) match) in
      let stored : subscription_by_id r.before.id w ≡ some r.before = keyed k r.before stands in
      let own_stored : subscription_by_id r.before.id w ≡ some own =
        ap (λ x. subscription_by_id x w) same ∙ keyed n own at in
      let row : r.before ≡ own = cc in
      (
        stored,
        ap (λ s. s.customer_id) row
            ∙ (eq_iff own.customer_id c).0 (and-left _ (str_eq own.merchant_id m) holds),
      )

  others_stay :
      (k : String) (t : Subscription)
      → subscription_by_id k w ≡ some t
      → t.customer_id ≢ c
      → subscription_by_id k v ≡ some t
  others_stay k t stored foreign = elim touched [
    | inl kept ↦ same_rows kept
    | inr (own, latest, inl kept) ↦ same_rows kept
    | inr (own, latest, inr r) ↦
        let (before, owned) = before_own {own = own} r latest in
        elim (Bool-cases (str_eq r.after.id k)) [
          | inl hit ↦
              let at : r.before.id ≡ k = sym r.same_id ∙ (eq_iff r.after.id k).0 hit in
              let found : subscription_by_id k w ≡ some r.before =
                ap (λ x. subscription_by_id x w) (sym at) ∙ before in
              let row : t ≡ r.before = cc in absurd (foreign (ap (λ s. s.customer_id) row ∙ owned))
          | inr apart ↦
              unfold subscription_by_id in
              (ap (find (λ x. str_eq x.id k)) r.saved
                ∙ find-save_other (λ x. x.id) (λ x. str_eq x.id k) r.after w.subscriptions apart
                    (λ x h. str_eq-subst_left x.id r.after.id k h ∙ apart)
                ∙ stored)
        ]
  ]
    where
      same_rows : v.subscriptions ≡ w.subscriptions → subscription_by_id k v ≡ some t
      same_rows kept = unfold subscription_by_id in (ap (find (λ x. str_eq x.id k)) kept ∙ stored)

  touched-Follows : Follows w v
  touched-Follows = elim touched [
    | inl kept ↦ Follows-same w v kept
    | inr (own, latest, inl kept) ↦ Follows-same w v kept
    | inr (own, latest, inr r) ↦
        let u = save_subscription r.after w in
        let stored : subscription_by_id r.after.id w ≡ some r.before =
          ap (λ x. subscription_by_id x w) r.same_id ∙ (before_own {own = own} r latest).0 in
        Follows-end w u v (Follows-save r.after w stored r.moves)
          (unfold save_subscription in r.saved)
  ]

-- An action of the portal, whatever it is and however it ends, leaves the subscriptions of every
-- other customer than the session's as they were, where identifiers are primary keys.
pub execute_action_own :
    (token a : String) (d : PortalActionData) (w : World) (id : String) {session : PortalSession}
    {t : Subscription}
    → ((n : ℕ) (s : Subscription)
        → get_elem? w.subscriptions n ≡ some s
        → subscription_by_id s.id w ≡ some s)
    → session_by_token token w ≡ some session
    → subscription_by_id id w ≡ some t
    → t.customer_id ≢ session.customer_id
    → subscription_by_id id (execute_action token a d w).1 ≡ some t
execute_action_own token a d w id {session} {t} keyed opened stored foreign =
    elim (execute_action_lem token a d w) [
      | inl same ↦ rw same stored
      | inr o ↦
          let named : o.session ≡ session = unfold require_session in ground (arith, o.opened) in
          let owner : o.customer.id ≡ o.session.customer_id = (eq_iff _ _).0 (
            and-left _ (str_eq o.customer.merchant_id o.session.merchant_id) (
              find-holds (is_customer o.session.merchant_id o.session.customer_id) w.customers
                o.found)) in
          rw o.acted (
            others_stay o.session.merchant_id o.customer.id w
              (act o.session o.customer o.merchant a d w).1 keyed
              (act-Touches o.session o.customer o.merchant a d w) id t stored
              (λ e. foreign (e ∙ owner ∙ ap (λ s. s.customer_id) named)))
    ]

-- An action of the portal, whatever it is and however it ends, keeps every subscription, with the same
-- status or with one that the transition table allows next, where identifiers are primary keys.
pub execute_action_moves :
    (token a : String) (d : PortalActionData) (w : World) (id : String) {t : Subscription}
    → ((n : ℕ) (s : Subscription)
        → get_elem? w.subscriptions n ≡ some s
        → subscription_by_id s.id w ≡ some s)
    → subscription_by_id id w ≡ some t
    → (t' : Subscription) × (subscription_by_id id (execute_action token a d w).1 ≡ some t')
      × IsMove t.status t'.status
execute_action_moves token a d w id {t} keyed stored = elim (execute_action_lem token a d w) [
  | inl same ↦ rw same (t, stored, inl refl)
  | inr o ↦ rw o.acted (
      touched-Follows o.session.merchant_id o.customer.id w
        (act o.session o.customer o.merchant a d w).1 keyed
        (act-Touches o.session o.customer o.merchant a d w) id t stored)
]
