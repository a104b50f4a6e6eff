-- ===== src/Config/Valid/Established.antt =====
-- What Config.Validate as a whole establishes.
use tmuxicate.Prelude.{◌≡◌, not, [], ok, arith, >>=-eq-ok, ok_value, sym, not, reject_if, msg}
use tmuxicate.Protocol.Domains.{seen_has}
use tmuxicate.Protocol.Domains.Loop.{seen_has-mem}
use tmuxicate.Protocol.Validation.{each}
use tmuxicate.Config.{Config}
use tmuxicate.Config.Loader.{
  validate_targets, validate_agents, target_names, agent_names, validate_manual_preferences,
  check_settings, validate_config, check_teammates,
}
use tmuxicate.Config.Valid.{IsValid}
use tmuxicate.Config.Valid.Loops.{
  validate_targets-ok, validate_agents-ok, validate_manual_preferences-ok, each-ok,
  check_teammates-ok,
}

-- A configuration that Validate accepts is valid as it rewrites it: targets, agents and aliases
-- have distinct names, every agent's target, the coordinator, the teammates and the preferred owners
-- exist, kinds and adapters are known, domains are canonical, and weights and priorities are not
-- negative.
pub validate_config-IsValid : (c : Config) {c' : Config} → validate_config c ≡ ok c' → IsValid c'
unfolding validate_config
validate_config-IsValid c h =
    let (u, settings, h1) = >>=-eq-ok (check_settings c) _ h in
    let (ts, targets, h2) = >>=-eq-ok (validate_targets 0 [] c.execution_targets) _ h1 in
    let (agents, valid, h3) = >>=-eq-ok (validate_agents 0 (target_names ts) [] [] c.agents) _ h2 in
    let names = agent_names agents in
    let (v, led, h4) =
      >>=-eq-ok
        (reject_if (not (seen_has names c.routing.coordinator))
          (msg "routing.coordinator does not match any agent name"))
        _ h3 in
    let (ps, preferred, h5) =
      >>=-eq-ok (validate_manual_preferences 0 names c.routing.adaptive.manual_preferences) _ h4 in
    let (w, teams, done) = >>=-eq-ok (each (check_teammates names) 0 agents) _ h5 in
    let (good_targets, fresh_targets) = validate_targets-ok 0 [] c.execution_targets targets in
    let (good_agents, fresh_agents, fresh_aliases) =
      validate_agents-ok 0 (target_names ts) [] [] c.agents valid in
    rw (sym (ok_value done)) record {
      targets = good_targets;
      agents = good_agents;
      preferences = validate_manual_preferences-ok 0 names _ preferred;
      distinct_targets = fresh_targets.0;
      distinct_agents = fresh_agents.0;
      distinct_aliases = fresh_aliases.0;
      coordinator = seen_has-mem names c.routing.coordinator (ground (arith, led));
      teammates = each-ok _ (check_teammates-ok names) 0 agents teams;
    }
