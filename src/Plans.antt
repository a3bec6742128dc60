-- ===== src/Plans.antt =====
-- The plans of a merchant: src/plans/plans.service.ts. A removed plan keeps its row with the time of
-- its removal, and no search finds it.
use Prim.Native.String
use subscription_billing_eng.Prelude.{
  ℕ, Bool, true, false, String, Option, none, some, ◌∷◌, ◌&&◌, str_eq, or_else, or_option,
}
use subscription_billing_eng.Prelude.Table.{find}
use subscription_billing_eng.Entities.{Plan, PlanInterval, AuditAction, AuditLog}
use subscription_billing_eng.World.{
  World, Action, Error, ok, pure, gets, or_throw, throw, modify, ◌>>=◌, ◌>>◌, save_plan, next_id,
  draw,
}
use subscription_billing_eng.Events.{log}

pub record CreatePlanDto : Type 0 where
  pub name : String
  pub amount : ℕ
  pub currency : Option String
  pub interval : PlanInterval
  pub trial_days : Option ℕ
  pub custom_interval_days : Option ℕ

pub record UpdatePlanDto : Type 0 where
  pub name : Option String
  pub amount : Option ℕ
  pub currency : Option String
  pub interval : Option PlanInterval
  pub trial_days : Option ℕ
  pub custom_interval_days : Option ℕ

abbrev pub is_live : Plan → Bool
is_live p = elim p.deleted_at [ none ↦ true | some _ ↦ false ]

-- `where: { id, merchantId }`, with the rows that are not removed.
abbrev pub is_plan : String → String → Plan → Bool
is_plan m id p = is_live p && str_eq p.id id && str_eq p.merchant_id m

-- `findOne`.
unfoldable pub find_plan : String → String → Action Plan
find_plan m id w = or_throw (find (is_plan m id) w.plans) (Error.not_found "Plan not found") w

abbrev plan_log : String → String → AuditAction → String → AuditLog
plan_log m actor action id = record {
  merchant_id = m;
  actor = actor;
  action = action;
  resource_type = "plan";
  resource_id = some id;
}

-- The columns' defaults stand in for what the DTO leaves out.
abbrev new_plan : String → CreatePlanDto → World → Plan
new_plan m dto w = record {
  id = next_id w;
  merchant_id = m;
  name = dto.name;
  amount = dto.amount;
  currency = or_else dto.currency "NGN";
  interval = dto.interval;
  trial_days = or_else dto.trial_days 0;
  custom_interval_days = dto.custom_interval_days;
  is_active = true;
  deleted_at = none;
}

insert_plan : Plan → World → World
insert_plan p w = draw (record w { plans = p ∷ w.plans })

abbrev pub has_plan_name : String → String → Plan → Bool
has_plan_name m name p = is_live p && str_eq p.merchant_id m && str_eq p.name name

unfoldable pub create_plan : String → CreatePlanDto → String → Action Plan
unfolding insert_plan
create_plan m dto actor w = elim (find (has_plan_name m dto.name) w.plans) [
  | some existing ↦
      throw
        (Error.bad_request (String.◌++◌ "Plan with name " (String.◌++◌ dto.name " already exists")))
        w
  | none ↦
      let p = new_plan m dto w in
      (ok p, log (plan_log m actor AuditAction.create p.id) (insert_plan p w))
]

-- `Object.assign(plan, { ...dto, amount })`.
abbrev assign : Plan → UpdatePlanDto → Plan
assign p dto = record p {
  name = or_else dto.name p.name;
  amount = or_else dto.amount p.amount;
  currency = or_else dto.currency p.currency;
  interval = or_else dto.interval p.interval;
  trial_days = or_else dto.trial_days p.trial_days;
  custom_interval_days = or_option dto.custom_interval_days p.custom_interval_days;
}

unfoldable pub update_plan : String → String → UpdatePlanDto → String → Action Plan
unfolding find_plan
update_plan m id dto actor = do
  p ← find_plan m id
  let updated = assign p dto
  modify (save_plan updated)
  modify (log (plan_log m actor AuditAction.update id))
  pure updated

-- `softRemove`: the row is saved, with the time of its removal.
unfoldable pub remove_plan : String → String → String → Action (Unit {0})
unfolding find_plan
remove_plan m id actor = do
  p ← find_plan m id
  now ← gets (λ w. w.now)
  modify (save_plan (record p { is_active = false; deleted_at = some now }))
  modify (log (plan_log m actor AuditAction.delete id))
