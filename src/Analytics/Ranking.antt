-- ===== src/Analytics/Ranking.antt =====
-- The order and the shares of the breakdown by plans of src/analytics/analytics.service.ts.
use subscription_billing_eng.Prelude.{
  ℕ, ◌+◌, ◌≤◌, String, List, [], ◌∷◌, ◌≡◌, refl, arith, map, leb, All, Bool-cases, inl, inr, ◌∙◌,
}
use subscription_billing_eng.World.{World}
use subscription_billing_eng.Analytics.Util.{safe_percent-le}
use subscription_billing_eng.Analytics.Plans.{
  PlanAnalytics, plan_entry, total_mrr, with_share, insert_by_mrr, sort_by_mrr, merchant_plans,
  get_plan_breakdown,
}

-- No plan earns more than one before it.
abbrev pub IsFalling : List PlanAnalytics → Type 0
IsFalling [] = Unit
IsFalling (e ∷ es) = All (λ f. f.mrr ≤ e.mrr) es × IsFalling es

All-weaken :
    (P Q : PlanAnalytics → Type 0) (es : List PlanAnalytics)
    → ((e : PlanAnalytics) → P e → Q e)
    → All P es
    → All Q es
All-weaken P Q [] f h = tt
All-weaken P Q (e ∷ es) f (x, h) = (f e x, All-weaken P Q es f h)

insert_by_mrr-All :
    (P : PlanAnalytics → Type 0) (e : PlanAnalytics) (es : List PlanAnalytics)
    → P e
    → All P es
    → All P (insert_by_mrr e es)
unfolding insert_by_mrr
insert_by_mrr-All P e [] x h = (x, tt)
insert_by_mrr-All P e (f ∷ fs) x (y, h) = elim (Bool-cases (leb f.mrr e.mrr)) [
  | inl below ↦ rw (insert_by_mrr, below) (x, (y, h))
  | inr above ↦ rw (insert_by_mrr, above) (y, insert_by_mrr-All P e fs x h)
]

insert_by_mrr-IsFalling :
    (e : PlanAnalytics) (es : List PlanAnalytics) → IsFalling es → IsFalling (insert_by_mrr e es)
unfolding insert_by_mrr
insert_by_mrr-IsFalling e [] h = (tt, tt)
insert_by_mrr-IsFalling e (f ∷ fs) (low, h) = elim (Bool-cases (leb f.mrr e.mrr)) [
  | inl below ↦
      let f-le : f.mrr ≤ e.mrr = ground (arith, below) in
      rw (insert_by_mrr, below)
        (
          (f-le, All-weaken (λ g. g.mrr ≤ f.mrr) (λ g. g.mrr ≤ e.mrr) fs (λ g le. omega arith) low),
          (low, h),
        )
  | inr above ↦
      let e-le : e.mrr ≤ f.mrr = ground (arith, above) in
      rw (insert_by_mrr, above)
        (insert_by_mrr-All (λ g. g.mrr ≤ f.mrr) e fs e-le low, insert_by_mrr-IsFalling e fs h)
]

sort_by_mrr-IsFalling : (es : List PlanAnalytics) → IsFalling (sort_by_mrr es)
unfolding sort_by_mrr
sort_by_mrr-IsFalling [] = tt
sort_by_mrr-IsFalling (e ∷ es) =
    insert_by_mrr-IsFalling e (sort_by_mrr es) (sort_by_mrr-IsFalling es)

sort_by_mrr-All :
    (P : PlanAnalytics → Type 0) (es : List PlanAnalytics) → All P es → All P (sort_by_mrr es)
unfolding sort_by_mrr
sort_by_mrr-All P [] h = tt
sort_by_mrr-All P (e ∷ es) (x, h) =
    insert_by_mrr-All P e (sort_by_mrr es) x (sort_by_mrr-All P es h)

total_mrr-insert :
    (e : PlanAnalytics) (es : List PlanAnalytics)
    → total_mrr (insert_by_mrr e es) ≡ e.mrr + total_mrr es
unfolding insert_by_mrr total_mrr
total_mrr-insert e [] = refl
total_mrr-insert e (f ∷ fs) = ground (arith, total_mrr-insert e fs)

total_mrr-sort : (es : List PlanAnalytics) → total_mrr (sort_by_mrr es) ≡ total_mrr es
unfolding sort_by_mrr total_mrr
total_mrr-sort [] = refl
total_mrr-sort (e ∷ es) = omega (arith, total_mrr-insert e (sort_by_mrr es), total_mrr-sort es)

-- Shares of a total that no entry exceeds.
shares-All :
    (total : ℕ) (es : List PlanAnalytics)
    → total_mrr es ≤ total
    → All (λ e. e.mrr_share_percent ≤ 10000) (map (with_share total) es)
unfolding total_mrr with_share
shares-All total [] h = tt
shares-All total (e ∷ es) h =
    (safe_percent-le e.mrr total (omega (arith, h)), shares-All total es (omega (arith, h)))

total_mrr-with_share :
    (total : ℕ) (es : List PlanAnalytics) → total_mrr (map (with_share total) es) ≡ total_mrr es
unfolding total_mrr with_share
total_mrr-with_share total [] = refl
total_mrr-with_share total (e ∷ es) = omega (arith, total_mrr-with_share total es)

-- The breakdown lists the plans by falling revenue, no share exceeds a hundred percent, and the revenues
-- add up to that of the merchant's plans.
pub get_plan_breakdown-IsFalling :
    (m : String) (w : World)
    → IsFalling (get_plan_breakdown m w)
      × All (λ e. e.mrr_share_percent ≤ 10000) (get_plan_breakdown m w)
      × (total_mrr (get_plan_breakdown m w) ≡ total_mrr (map (plan_entry m w) (merchant_plans m w)))
unfolding get_plan_breakdown
get_plan_breakdown-IsFalling m w =
    let entries = map (plan_entry m w) (merchant_plans m w) in
    let shared = map (with_share (total_mrr entries)) entries in
    (
      sort_by_mrr-IsFalling shared,
      sort_by_mrr-All (λ e. e.mrr_share_percent ≤ 10000) shared
          (shares-All (total_mrr entries) entries (omega arith)),
      total_mrr-sort shared ∙ total_mrr-with_share (total_mrr entries) entries,
    )
