-- ===== src/Config/Loader.antt =====
-- Config.Validate and LoadResolved of internal/config/loader.go. Validate rewrites names, kinds,
-- capabilities, domains and targets in place: it returns the new configuration.
use tmuxicate.Prelude.{
  ℕ, suc, Bool, not, ◌||◌, List, [], ◌∷◌, map, Result, ok, msg, at, wrapped, wrapped_at, ◌>>=◌,
  ◌>>◌, reject_if, if◌then◌else◌, is_nil,
}
use tmuxicate.Prelude.Int.{ℤ, pos, int_eq, is_neg, is_not_pos}
use tmuxicate.Text.{Text, codes, text_eq, trim_space, is_blank}
use tmuxicate.Protocol.Enums.{TaskClass, check_task_class}
use tmuxicate.Protocol.Domains.{
  seen_has, normalize_route_domains, normalize_execution_target_capabilities,
}
use tmuxicate.Protocol.Validation.{each}
use tmuxicate.Protocol.Validation.Target.{is_valid_execution_target_kind}
use tmuxicate.Config.{
  Config, SessionConfig, DeliveryConfig, RoutingConfig, AdaptiveConfig, ManualPreference,
  AgentConfig, TargetConfig, RoleSpec, ResolvedConfig, is_declared,
}
use tmuxicate.Config.Defaults.{Paths, apply_defaults, resolve_paths, base_dir}

unfoldable pub is_valid_adapter : Text → Bool
is_valid_adapter s =
    text_eq s (codes "generic") || text_eq s (codes "codex") || text_eq s (codes "claude-code")

unfoldable pub is_valid_delivery_mode : Text → Bool
is_valid_delivery_mode s = text_eq s (codes "notify_then_read") || text_eq s (codes "manual")

unfoldable pub is_valid_layout : Text → Bool
is_valid_layout s =
    text_eq s (codes "triad")
    || text_eq s (codes "tiled")
    || text_eq s (codes "main-vertical")
    || text_eq s (codes "main-horizontal")
    || text_eq s (codes "even-horizontal")
    || text_eq s (codes "even-vertical")

-- protocol.TaskClass(s)
unfoldable pub task_class_of : Text → TaskClass
task_class_of s =
    if is_nil s
    then TaskClass.unset
    else if text_eq s (codes "implementation")
    then TaskClass.implementation
    else if text_eq s (codes "research")
    then TaskClass.research
    else if text_eq s (codes "review")
    then TaskClass.review
    else TaskClass.other s

unfoldable pub check_session : SessionConfig → Result (Unit {0})
check_session s = do
  reject_if (is_blank s.name) (msg "session.name is required")
  reject_if (is_blank s.workspace) (msg "session.workspace is required")
  reject_if (is_blank s.state_dir) (msg "session.state_dir is required")
  reject_if (is_blank s.window_name) (msg "session.window_name is required")
  reject_if (not (is_valid_layout s.layout)) (msg "invalid session.layout")

unfoldable pub check_delivery : DeliveryConfig → Result (Unit {0})
check_delivery d = do
  reject_if (not (is_valid_delivery_mode d.mode)) (msg "invalid delivery.mode")
  reject_if (is_not_pos d.ack_timeout) (msg "delivery.ack_timeout must be > 0")
  reject_if (is_not_pos d.retry_interval) (msg "delivery.retry_interval must be > 0")
  reject_if (is_neg d.max_retries) (msg "delivery.max_retries must be >= 0")

unfoldable pub check_adaptive : AdaptiveConfig → Result (Unit {0})
check_adaptive a = do
  reject_if (is_neg a.lookback_runs) (msg "routing.adaptive.lookback_runs must be >= 0")
  reject_if (is_neg a.success_weight) (msg "routing.adaptive.success_weight must be >= 0")
  reject_if (is_neg a.approval_weight) (msg "routing.adaptive.approval_weight must be >= 0")
  reject_if (is_neg a.changes_requested_penalty)
      (msg "routing.adaptive.changes_requested_penalty must be >= 0")
  reject_if (is_neg a.blocked_penalty) (msg "routing.adaptive.blocked_penalty must be >= 0")
  reject_if (is_neg a.wait_penalty) (msg "routing.adaptive.wait_penalty must be >= 0")

unfoldable pub check_ceiling : TaskClass × ℤ → Result (Unit {0})
check_ceiling entry = do
  wrapped "blockers.max_reroutes_by_task_class is invalid" (check_task_class entry.0)
  reject_if (is_neg entry.1) (msg "blockers.max_reroutes_by_task_class must be >= 0")

unfoldable pub check_routing : RoutingConfig → Result (Unit {0})
unfolding check_adaptive
check_routing r = do
  reject_if (is_blank r.coordinator) (msg "routing.coordinator is required")
  each (λ i c. wrapped "invalid routing.exclusive_task_classes value" (check_task_class c)) 0
      r.exclusive_task_classes
  each (λ i c. wrapped "invalid routing.fanout_task_classes value" (check_task_class c)) 0
      r.fanout_task_classes
  check_adaptive r.adaptive

-- The checks in front of the first loop that rewrites.
unfoldable pub check_settings : Config → Result (Unit {0})
unfolding check_session check_delivery check_routing check_ceiling
check_settings c = do
  reject_if (not (int_eq c.version (pos 1))) (msg "version must be 1")
  check_session c.session
  check_delivery c.delivery
  reject_if (not (text_eq c.transcript.mode (codes "pipe-pane"))) (msg "invalid transcript.mode")
  reject_if (is_blank c.transcript.dir) (msg "transcript.dir is required")
  check_routing c.routing
  reject_if (is_neg c.blockers.max_reroutes_default)
      (msg "blockers.max_reroutes_default must be >= 0")
  each (λ i entry. check_ceiling entry) 0 c.blockers.max_reroutes_by_task_class
  reject_if (is_blank c.defaults.workdir) (msg "defaults.workdir is required")
  reject_if (is_nil c.agents) (msg "agents must contain at least one entry")

-- One turn of the loop over the targets; `known` is knownTargets, index `i` the target's.
unfoldable pub validate_target : ℕ → List Text → TargetConfig → Result TargetConfig
validate_target i known target = do
  let name = trim_space target.name
  reject_if (is_nil name) (at "execution_targets[" i "].name is required")
  reject_if (seen_has known name) (msg "duplicate execution target name")
  let kind = trim_space target.kind
  reject_if (not (is_valid_execution_target_kind kind)) (at "invalid execution_targets[" i "].kind")
  capabilities ←
      wrapped_at "execution_targets.capabilities" i
        (normalize_execution_target_capabilities target.capabilities)
  ok (record target {
    name = name;
    kind = kind;
    description = trim_space target.description;
    capabilities = capabilities;
    dispatch = record target.dispatch { command = trim_space target.dispatch.command };
  })

unfoldable pub validate_targets : ℕ → List Text → List TargetConfig → Result (List TargetConfig)
unfolding validate_target
validate_targets i known [] = ok []
validate_targets i known (t ∷ ts) = do
  target ← validate_target i known t
  rest ← validate_targets (suc i) (target.name ∷ known) ts
  ok (target ∷ rest)

-- The checks of an agent's name and alias against the earlier ones.
unfoldable pub check_names : ℕ → List Text → List Text → AgentConfig → Result (Unit {0})
unfolding seen_has
check_names i names aliases agent = do
  reject_if (is_blank agent.name) (at "agents[" i "].name is required")
  reject_if (seen_has names agent.name) (msg "duplicate agent name")
  reject_if (is_blank agent.alias) (at "agents[" i "].alias is required")
  reject_if (seen_has aliases agent.alias) (msg "duplicate agent alias")

unfoldable pub validate_role : ℕ → RoleSpec → Result RoleSpec
validate_role i role = do
  reject_if (not (is_declared role)) (at "agents[" i "].role.kind is required")
  let kind = trim_space role.kind
  wrapped_at "agents.role.kind is invalid" i (check_task_class (task_class_of kind))
  domains ← wrapped_at "agents.role.domains" i (normalize_route_domains role.domains)
  reject_if (is_nil domains) (at "agents[" i "].role.domains must contain at least one domain")
  ok (record role { kind = kind; domains = domains })

unfoldable pub validate_agent :
    ℕ → List Text → List Text → List Text → AgentConfig → Result AgentConfig
unfolding check_names validate_role
validate_agent i targets names aliases agent = do
  check_names i names aliases agent
  reject_if (not (is_valid_adapter agent.adapter)) (at "agents[" i "].adapter is invalid")
  reject_if (is_blank agent.command) (at "agents[" i "].command is required")
  role ← validate_role i agent.role
  reject_if (is_neg agent.route_priority) (at "agents[" i "].route_priority must be >= 0")
  let target = trim_space agent.execution_target
  reject_if (not (is_nil target || seen_has targets target))
      (at "agents[" i "].execution_target references unknown execution target")
  reject_if (is_blank agent.pane_slot) (at "agents[" i "].pane.slot is required")
  reject_if (is_blank agent.workdir)
      (at "agents[" i "].workdir is required after defaults are applied")
  ok (record agent { role = role; execution_target = target })

unfoldable pub validate_agents :
    ℕ → List Text → List Text → List Text → List AgentConfig → Result (List AgentConfig)
unfolding validate_agent
validate_agents i targets names aliases [] = ok []
validate_agents i targets names aliases (a ∷ rest) = do
  agent ← validate_agent i targets names aliases a
  agents ← validate_agents (suc i) targets (agent.name ∷ names) (agent.alias ∷ aliases) rest
  ok (agent ∷ agents)

unfoldable pub validate_manual_preference :
    ℕ → List Text → ManualPreference → Result ManualPreference
validate_manual_preference i names p = do
  wrapped_at "manual_preferences.task_class is invalid" i (check_task_class p.task_class)
  domains ← wrapped_at "manual_preferences.domains" i (normalize_route_domains p.domains)
  reject_if (is_nil domains)
      (at "manual_preferences[" i "].domains must contain at least one domain")
  reject_if (is_blank p.preferred_owner)
      (at "manual_preferences[" i "].preferred_owner is required")
  reject_if (not (seen_has names p.preferred_owner))
      (at "manual_preferences[" i "].preferred_owner does not match any agent name")
  reject_if (is_neg p.weight) (at "manual_preferences[" i "].weight must be >= 0")
  reject_if (is_blank p.reason) (at "manual_preferences[" i "].reason is required")
  ok (record p { domains = domains })

unfoldable pub validate_manual_preferences :
    ℕ → List Text → List ManualPreference → Result (List ManualPreference)
unfolding validate_manual_preference
validate_manual_preferences i names [] = ok []
validate_manual_preferences i names (p ∷ ps) = do
  preference ← validate_manual_preference i names p
  rest ← validate_manual_preferences (suc i) names ps
  ok (preference ∷ rest)

abbrev pub check_teammates : List Text → ℕ → AgentConfig → Result (Unit {0})
check_teammates names i agent =
    each
      (λ j teammate.
        reject_if (not (seen_has names teammate))
          (at "agents[" i "].teammates references unknown agent"))
      0 agent.teammates

-- The names that the loops have put in knownTargets and knownAgents.
abbrev pub target_names : List TargetConfig → List Text
target_names ts = map (λ t. t.name) ts

abbrev pub agent_names : List AgentConfig → List Text
agent_names agents = map (λ a. a.name) agents

unfoldable pub validate_config : Config → Result Config
unfolding check_settings validate_targets validate_agents validate_manual_preferences
validate_config c = do
  check_settings c
  targets ← validate_targets 0 [] c.execution_targets
  agents ← validate_agents 0 (target_names targets) [] [] c.agents
  let names = agent_names agents
  reject_if (not (seen_has names c.routing.coordinator))
      (msg "routing.coordinator does not match any agent name")
  preferences ← validate_manual_preferences 0 names c.routing.adaptive.manual_preferences
  each (check_teammates names) 0 agents
  ok (record c {
    execution_targets = targets;
    agents = agents;
    routing = record c.routing {
      adaptive = record c.routing.adaptive { manual_preferences = preferences };
    };
  })

module _ (paths : Paths) where
  -- Config.Resolve
  unfoldable pub resolve : Config → Text → Result ResolvedConfig
  unfolding validate_config
  resolve c workspace = do
    base ← base_dir paths workspace
    config ← validate_config (resolve_paths paths base (apply_defaults paths c))
    ok record { config = config; config_path = []; config_dir = base }

  -- LoadResolved after the file at the absolute path is read: `parse` stands for yaml.Unmarshal.
  unfoldable pub load_resolved :
      (Text → Result Config) → (Text → Text) → Text → Text → Result ResolvedConfig
  unfolding resolve
  load_resolved parse dir path content = do
    c ← wrapped "parse config" (parse content)
    resolved ← resolve (apply_defaults paths c) (dir path)
    ok (record resolved { config_path = path })
