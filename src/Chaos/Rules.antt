-- ===== src/Chaos/Rules.antt =====
-- What the rules of src/chaos/chaos.service.ts do once they are written.
use text.Mathlib.TextPositions.{eq_refl}
use subscription_billing_eng.Prelude.{
  ℕ, true, false, String, some, none, List, [], ◌∷◌, ◌≡◌, refl, arith, inl, inr, str_eq, Bool-cases,
}
use subscription_billing_eng.World.Frame.{str_eq-subst_left}
use subscription_billing_eng.World.{World, ChaosRule}
use subscription_billing_eng.Chaos.{
  default_chaos_rule, is_enabled, lookup_rule, set_rule, get_rules, disable, get_event_metadata,
  resolve_dunning_delay, should_fail_webhook, assert_enabled, write_rule,
}

pub lookup_rule-set_rule :
    (m : String) (r : ChaosRule) (rules : List (String × ChaosRule))
    → lookup_rule m (set_rule m r rules) ≡ some r
unfolding lookup_rule set_rule
lookup_rule-set_rule m r [] = rw (eq_refl m) refl
lookup_rule-set_rule m r ((k, old) ∷ rules) = elim (Bool-cases (str_eq k m)) [
  | inl same ↦ rw (same, lookup_rule) (rw (eq_refl m) refl)
  | inr other ↦ rw (other, lookup_rule) (rw other (lookup_rule-set_rule m r rules))
]

lookup_rule-set_rule_other :
    (m n : String) (r : ChaosRule) (rules : List (String × ChaosRule))
    → str_eq m n ≡ false
    → lookup_rule n (set_rule m r rules) ≡ lookup_rule n rules
unfolding lookup_rule set_rule
lookup_rule-set_rule_other m n r [] other = rw other refl
lookup_rule-set_rule_other m n r ((k, old) ∷ rules) other = elim (Bool-cases (str_eq k m)) [
  | inl same ↦ rw same (rw (other, str_eq-subst_left k m n same, other) refl)
  | inr differs ↦ rw (differs, lookup_rule) (rw (lookup_rule-set_rule_other m n r rules other) refl)
]

-- Outside production, turning the rules of a merchant off leaves it no effect: retries keep their
-- delays, webhooks are sent, events carry no mark; the rules of every other merchant stay.
disable_clears :
    (m other : String) (delay : ℕ) (w : World)
    → is_enabled w ≡ true
    → str_eq m other ≡ false
    → (resolve_dunning_delay m delay (disable m w).1 ≡ delay)
      × (should_fail_webhook m (disable m w).1 ≡ false)
      × (get_event_metadata m (disable m w).1 ≡ none)
      × (get_rules other (disable m w).1 ≡ get_rules other w)
unfolding disable assert_enabled write_rule resolve_dunning_delay should_fail_webhook
    get_event_metadata get_rules
disable_clears m other delay w h apart =
    let read = lookup_rule-set_rule m default_chaos_rule w.chaos_rules in
    (
      ground (arith, read),
      ground (arith, read),
      ground (arith, read),
      ground (arith, lookup_rule-set_rule_other m other default_chaos_rule w.chaos_rules apart),
    )
