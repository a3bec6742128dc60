-- ===== src/Chaos/Intercept/OneShot.antt =====
-- Proofs on `interceptCharge` of src/chaos/chaos.service.ts, under rules in one-shot mode.
use subscription_billing_eng.Prelude.{true, String, some, none, [], ◌∷◌, ◌≡◌, ◌⊎◌, arith}
use subscription_billing_eng.World.{World, ChaosRule, ChaosScenario, ChaosMode}
use subscription_billing_eng.Chaos.{
  is_enabled, default_chaos_rule, lookup_rule, get_rules, write_rule, consume_scenario,
}
use subscription_billing_eng.Chaos.Rules.{lookup_rule-set_rule}
use subscription_billing_eng.Chaos.Intercept.{
  strike, intercept_charge, intercept_checkout, build_charge_outcome,
}

-- The one scenario that is left: the last of the queue, or the single one.
abbrev pub IsLast : ChaosScenario → ChaosRule → Type 0
IsLast s r = (r.scenario_queue ≡ s ∷ []) ⊎ ((r.scenario_queue ≡ []) × (r.scenario ≡ some s))

module _ (m reference : String) (w : World) {r : ChaosRule} {s : ChaosScenario}
    (outside : is_enabled w ≡ true) (ruled : lookup_rule m w.chaos_rules ≡ some r)
    (on : r.enabled ≡ true) (once : r.mode ≡ ChaosMode.one_shot) (last : IsLast s r) where
  struck : strike m w ≡ (some s, write_rule m default_chaos_rule w)
  unfolding strike get_rules consume_scenario
  struck = ground arith

  spent : strike m (write_rule m default_chaos_rule w) ≡ (none, write_rule m default_chaos_rule w)
  unfolding strike get_rules write_rule is_enabled
  spent = ground (arith, lookup_rule-set_rule m default_chaos_rule w.chaos_rules)

  -- Outside production, the last scenario of one-shot rules decides the next charge, and then is
  -- spent: the charge after that, and a checkout after that, are not intercepted.
  intercept_charge_once :
      ((intercept_charge m reference w).0 ≡ some (build_charge_outcome s reference w.now))
      × ((intercept_charge m reference (intercept_charge m reference w).1).0 ≡ none)
      × ((intercept_checkout m reference (intercept_charge m reference w).1).0 ≡ none)
  unfolding intercept_charge intercept_checkout write_rule
  intercept_charge_once =
      (ground (arith, struck), ground (arith, struck, spent), ground (arith, struck, spent))
