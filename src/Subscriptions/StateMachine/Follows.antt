-- ===== src/Subscriptions/StateMachine/Follows.antt =====
-- Two states of the subscriptions compared by src/subscriptions/subscription-state.machine.ts.
use mathlib.Core.Path.{subst}
use text.Mathlib.TextEquality.{eq_iff}
use subscription_billing_eng.Prelude.{
  String, some, ◌≡◌, refl, sym, ap, ◌∙◌, inl, inr, arith, str_eq, Bool-cases,
}
use subscription_billing_eng.Prelude.Table.{find, find-holds, find-save_other}
use subscription_billing_eng.World.Frame.{str_eq-subst_left}
use subscription_billing_eng.Entities.{Subscription, SubscriptionStatus}
use subscription_billing_eng.World.{World, save_subscription}
use subscription_billing_eng.Dunning.Schedule.{subscription_by_id}
use subscription_billing_eng.Dunning.Queue.{by_id-save}
use subscription_billing_eng.Subscriptions.StateMachine.Graph.{IsMove}

-- Every subscription is still there, and its status is related to the one it had.
abbrev pub FollowsBy : (SubscriptionStatus → SubscriptionStatus → Type 0) → World → World → Type 0
FollowsBy R w w' =
    (id : String) (s : Subscription)
    → subscription_by_id id w ≡ some s
    → (s' : Subscription) × (subscription_by_id id w' ≡ some s') × R s.status s'.status

by_id-same :
    (id : String) (w w' : World)
    → w'.subscriptions ≡ w.subscriptions
    → subscription_by_id id w' ≡ subscription_by_id id w
unfolding subscription_by_id
by_id-same id w w' e = ap (λ l. find (λ x. str_eq x.id id) l) e

pub FollowsBy-map :
    (R S : SubscriptionStatus → SubscriptionStatus → Type 0)
    → ((a b : SubscriptionStatus) → R a b → S a b)
    → (w w' : World) → FollowsBy R w w'
    → FollowsBy S w w'
FollowsBy-map R S f w w' follows id s h =
    let (s', h', r) = follows id s h in (s', h', f s.status s'.status r)

pub FollowsBy-trans :
    (R S T : SubscriptionStatus → SubscriptionStatus → Type 0)
    → ((a b c : SubscriptionStatus) → R a b → S b c → T a c)
    → (u v w : World) → FollowsBy R u v
    → FollowsBy S v w
    → FollowsBy T u w
FollowsBy-trans R S T compose u v w f g id s h =
    let (s₁, h₁, r₁) = f id s h in
    let (s₂, h₂, r₂) = g id s₁ h₁ in (s₂, h₂, compose s.status s₁.status s₂.status r₁ r₂)

module _ (R : SubscriptionStatus → SubscriptionStatus → Type 0) where
  -- The rows of the start, and those of the end, are all that counts.
  pub FollowsBy-start :
      (u v w : World) → v.subscriptions ≡ u.subscriptions → FollowsBy R v w → FollowsBy R u w
  FollowsBy-start u v w e f id s h = f id s (by_id-same id u v e ∙ h)

  pub FollowsBy-end :
      (u v w : World) → FollowsBy R u v → w.subscriptions ≡ v.subscriptions → FollowsBy R u w
  FollowsBy-end u v w f e id s h = let (s', h', r) = f id s h in (s', by_id-same id v w e ∙ h', r)

  module _ (stay : (s : SubscriptionStatus) → R s s) where
    pub FollowsBy-same : (w w' : World) → w'.subscriptions ≡ w.subscriptions → FollowsBy R w w'
    FollowsBy-same w w' e id s h = (s, by_id-same id w w' e ∙ h, stay s.status)

    pub FollowsBy-save :
        (u : Subscription) (w : World) {s : Subscription}
        → subscription_by_id u.id w ≡ some s
        → R s.status u.status
        → FollowsBy R w (save_subscription u w)
    unfolding subscription_by_id save_subscription
    FollowsBy-save u w {s} stored r id t h = elim (Bool-cases (str_eq u.id id)) [
      | inl same ↦
          let e : u.id ≡ id = (eq_iff u.id id).0 same in
          let at_id : subscription_by_id id w ≡ some s =
            ap (λ x. subscription_by_id x w) (sym e) ∙ stored in
          let row : s ≡ t = ground arith in
          let same_id : u.id ≡ s.id =
            sym
              ((eq_iff s.id u.id).0 (find-holds (λ x. str_eq x.id u.id) w.subscriptions stored)) in
          (u, by_id-save id w u at_id same_id, subst (λ x. R x.status u.status) row r)
      | inr apart ↦ (
        t,
        find-save_other (λ x. x.id) (λ x. str_eq x.id id) u w.subscriptions apart
              (λ x k. str_eq-subst_left x.id u.id id k ∙ apart)
            ∙ h,
        stay t.status,
      )
    ]

-- Every subscription is still there, with the same status or with one that the table allows next.
abbrev pub Follows : World → World → Type 0
Follows = FollowsBy IsMove

pub Follows-start : (u v w : World) → v.subscriptions ≡ u.subscriptions → Follows v w → Follows u w
Follows-start = FollowsBy-start IsMove

pub Follows-end : (u v w : World) → Follows u v → w.subscriptions ≡ v.subscriptions → Follows u w
Follows-end = FollowsBy-end IsMove

pub Follows-same : (w w' : World) → w'.subscriptions ≡ w.subscriptions → Follows w w'
Follows-same = FollowsBy-same IsMove (λ s. inl refl)

pub Follows-save :
    (u : Subscription) (w : World) {s : Subscription}
    → subscription_by_id u.id w ≡ some s
    → IsMove s.status u.status
    → Follows w (save_subscription u w)
Follows-save u w {s} = FollowsBy-save IsMove (λ s. inl refl) u w {s = s}
