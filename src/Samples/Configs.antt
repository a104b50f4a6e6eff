-- ===== src/Samples/Configs.antt =====
-- The theorems on configurations at one with a coordinator, a worker and a remote target.
use mathlib.Core.List.{Memᴰ}
use tmuxicate.Prelude.{◌≡◌, refl, true, [], ◌∷◌, ◌++◌, none, ok, err, not_exist, is_ok, All}
use tmuxicate.Prelude.Int.{pos}
use tmuxicate.Text.{codes, text_eq, trim_space, to_lower_rune}
use tmuxicate.Prelude.Sorting.{sort}
use tmuxicate.Protocol.Domains.{normalize_route_domains, normalize_execution_target_capabilities}
use tmuxicate.Protocol.Validation.Target.{is_valid_execution_target_kind}
use tmuxicate.Config.{Config, AgentConfig, ResolvedConfig}
use tmuxicate.Config.Defaults.{Paths}
use tmuxicate.Config.Loader.{
  validate_config, check_settings, check_session, check_delivery, check_routing, check_adaptive,
  validate_targets, validate_target, validate_agents, validate_agent, check_names, validate_role,
  validate_manual_preferences, is_valid_adapter, is_valid_delivery_mode, is_valid_layout,
  task_class_of,
}
use tmuxicate.Config.Valid.{IsValid}
use tmuxicate.Config.Valid.Established.{validate_config-IsValid}
use tmuxicate.Session.Targets.{TargetEnv, select_task_placement, resolve_execution_target_config}
use tmuxicate.Session.Configured.{placement-is_ok, Resolves, teammate-Resolves}
use tmuxicate.Samples.Settings.{agent_of, target_named, config_of}

abbrev lead : AgentConfig
lead = record (agent_of (codes "lead") (pos 0) []) { teammates = codes "ann" ∷ [] }

abbrev ann : AgentConfig
ann = agent_of (codes "ann") (pos 1) (codes "gpu")

abbrev team : Config
team = config_of (lead ∷ ann ∷ []) (target_named (codes "gpu") ∷ [])

abbrev resolved : ResolvedConfig
resolved = record { config = team; config_path = []; config_dir = codes "/work" }

team_accepted : validate_config team ≡ ok team
unfolding validate_config check_settings check_session check_delivery check_routing check_adaptive
    validate_targets validate_target validate_agents validate_agent check_names validate_role
    validate_manual_preferences is_valid_adapter is_valid_delivery_mode is_valid_layout
    task_class_of trim_space text_eq is_valid_execution_target_kind
    normalize_execution_target_capabilities normalize_route_domains to_lower_rune sort
team_accepted = refl

validate_config-IsValid_example : IsValid team
validate_config-IsValid_example = validate_config-IsValid team team_accepted

abbrev env : TargetEnv
env = record {
  read_state = λ name. err not_exist;
  now = 100;
  parse_time = λ t. none;
  show_duration = λ d. [];
  quote = λ t. t;
}

placement-is_ok_example :
    (is_ok (select_task_placement env resolved ann) ≡ true)
    × (is_ok (resolve_execution_target_config resolved ann) ≡ true)
placement-is_ok_example =
    placement-is_ok env resolved ann (validate_config-IsValid team team_accepted)
      (Memᴰ.tail (Memᴰ.head refl))

teammate-Resolves_example :
    Resolves resolved.config.agents (codes "lead")
    × All (λ a. All (Resolves resolved.config.agents) a.teammates) resolved.config.agents
teammate-Resolves_example = teammate-Resolves resolved (validate_config-IsValid team team_accepted)

abbrev paths : Paths
paths = record {
  join_path = λ a b. a ++ b'/' ∷ b;
  is_abs = λ p. true;
  clean = λ p. p;
  abs = λ p. ok p;
  getwd = ok (codes "/work");
}

abbrev bare : Config
bare = record team {
  version = pos 0;
  session = record team.session { window_name = []; layout = []; attach = none };
  transcript = record { mode = []; dir = [] };
}
