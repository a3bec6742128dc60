-- ===== src/Chaos.antt =====
-- Failure injection: src/chaos/chaos.service.ts, over the rules that Redis keeps for each merchant.
-- A rule that is written reads back as it was. The wait of `slowGatewayMs` changes no state.
use mathlib.Core.Option
pub mod Rules
pub mod Intercept
use subscription_billing_eng.Prelude.{
  ℕ, Bool, true, false, String, Option, none, some, List, [], ◌∷◌, ◌&&◌, not, str_eq, or_else,
  or_option, if◌then◌else◌,
}
use subscription_billing_eng.World.{
  World, Config, ChaosRule, ChaosScenario, ChaosMode, Action, Error, ok, err, pure, gets, throw_if,
  modify, ◌>>=◌, ◌>>◌, next_id, draw,
}

abbrev pub default_chaos_rule : ChaosRule
default_chaos_rule = record {
  enabled = false;
  scenario = none;
  scenario_queue = [];
  mode = ChaosMode.one_shot;
  accelerate_dunning = false;
  fail_webhooks = false;
  slow_gateway_ms = none;
  active_scenario_id = none;
}

abbrev pub accelerated_dunning_ms : ℕ
accelerated_dunning_ms = 5000

-- `config.get('nodeEnv') !== 'production'`.
unfoldable pub is_enabled : World → Bool
is_enabled w = not (str_eq (or_else w.config.node_env "") "production")

unfoldable pub assert_enabled : Action (Unit {0})
unfolding is_enabled
assert_enabled w =
    throw_if (not (is_enabled w)) (Error.forbidden "Chaos mode is disabled in production") w

-- `redis.get`, absent where the merchant has no rule.
unfoldable pub lookup_rule : String → List (String × ChaosRule) → Option ChaosRule
lookup_rule m [] = none
lookup_rule m ((k, r) ∷ rules) =
    let rest = lookup_rule m rules in if str_eq k m then some r else rest

-- `redis.set`.
unfoldable pub set_rule : String → ChaosRule → List (String × ChaosRule) → List (String × ChaosRule)
set_rule m r [] = (m, r) ∷ []
set_rule m r ((k, old) ∷ rules) =
    if str_eq k m then (m, r) ∷ rules else (k, old) ∷ set_rule m r rules

unfoldable pub write_rule : String → ChaosRule → World → World
unfolding set_rule
write_rule m r w = record w { chaos_rules = set_rule m r w.chaos_rules }

unfoldable pub get_rules : String → World → ChaosRule
unfolding lookup_rule
get_rules m w = or_else (lookup_rule m w.chaos_rules) default_chaos_rule

-- `Partial<ChaosRule>`, and the DTO of an update: a field that is absent keeps its value.
pub record ChaosPatch : Type 0 where
  pub enabled : Option Bool
  pub scenario : Option (Option ChaosScenario)
  pub scenario_queue : Option (List ChaosScenario)
  pub mode : Option ChaosMode
  pub accelerate_dunning : Option Bool
  pub fail_webhooks : Option Bool
  pub slow_gateway_ms : Option ℕ
  pub active_scenario_id : Option (Option String)

-- `{ ...current, ...patch }`.
abbrev merge : ChaosRule → ChaosPatch → ChaosRule
merge c p = record {
  enabled = or_else p.enabled c.enabled;
  scenario = or_else p.scenario c.scenario;
  scenario_queue = or_else p.scenario_queue c.scenario_queue;
  mode = or_else p.mode c.mode;
  accelerate_dunning = or_else p.accelerate_dunning c.accelerate_dunning;
  fail_webhooks = or_else p.fail_webhooks c.fail_webhooks;
  slow_gateway_ms = or_option p.slow_gateway_ms c.slow_gateway_ms;
  active_scenario_id = or_else p.active_scenario_id c.active_scenario_id;
}

unfoldable pub set_rules : String → ChaosPatch → Action ChaosRule
unfolding assert_enabled write_rule get_rules
set_rules m p = do
  assert_enabled
  current ← gets (get_rules m)
  let next = record (merge current p) { enabled = or_else p.enabled true }
  modify (write_rule m next)
  pure next

unfoldable pub update_rules : String → ChaosPatch → Action ChaosRule
unfolding assert_enabled write_rule get_rules
update_rules m p = do
  assert_enabled
  current ← gets (get_rules m)
  let next = merge current p
  modify (write_rule m next)
  pure next

unfoldable pub disable : String → Action ChaosRule
unfolding assert_enabled write_rule
disable m = do assert_enabled; modify (write_rule m default_chaos_rule); pure default_chaos_rule

abbrev pub scenario_text : ChaosScenario → String
scenario_text ChaosScenario.payment_success = "PAYMENT_SUCCESS"
scenario_text ChaosScenario.insufficient_funds = "INSUFFICIENT_FUNDS"
scenario_text ChaosScenario.card_expired = "CARD_EXPIRED"
scenario_text ChaosScenario.network_timeout = "NETWORK_TIMEOUT"
scenario_text ChaosScenario.webhook_failure = "WEBHOOK_FAILURE"
scenario_text ChaosScenario.slow_gateway = "SLOW_GATEWAY"

-- `chaosScenario` and `chaosMode`; nothing is added while the rules are off.
unfoldable pub get_event_metadata : String → World → Option (Option String × ChaosMode)
unfolding get_rules
get_event_metadata m w =
    let rules = get_rules m w in
    if rules.enabled
    then some
        (or_option rules.active_scenario_id (Option.map scenario_text rules.scenario), rules.mode)
    else none

unfoldable pub resolve_dunning_delay : String → ℕ → World → ℕ
unfolding get_rules
resolve_dunning_delay m default_delay w =
    let rules = get_rules m w in
    if rules.enabled && rules.accelerate_dunning then accelerated_dunning_ms else default_delay

unfoldable pub should_fail_webhook : String → World → Bool
unfolding get_rules
should_fail_webhook m w = let rules = get_rules m w in rules.enabled && rules.fail_webhooks

-- The end of a rule in one-shot mode.
abbrev spend : ChaosMode → String → World → World → World
spend ChaosMode.one_shot m kept w = write_rule m default_chaos_rule w
spend ChaosMode.persistent m kept w = kept

consume_queue :
    String → ChaosRule → ChaosScenario → List ChaosScenario → World → Option ChaosScenario × World
unfolding write_rule
consume_queue m rules head [] w =
    (some head, spend rules.mode m (write_rule m (record rules { scenario_queue = [] }) w) w)
consume_queue m rules head (s ∷ rest) w =
    (some head, write_rule m (record rules { scenario_queue = s ∷ rest }) w)

-- `consumeScenario`: the queue first, then the single scenario; one-shot rules are reset.
consume_from :
    List ChaosScenario
    → Option ChaosScenario
    → String
    → ChaosRule
    → World
    → Option ChaosScenario × World
unfolding consume_queue
consume_from (head ∷ rest) single m rules w = consume_queue m rules head rest w
consume_from [] (some scenario) m rules w = (some scenario, spend rules.mode m w w)
consume_from [] none m rules w = (none, w)

unfoldable pub consume_scenario : String → ChaosRule → World → Option ChaosScenario × World
unfolding consume_from
consume_scenario m rules w = consume_from rules.scenario_queue rules.scenario m rules w
