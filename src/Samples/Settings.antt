-- ===== src/Samples/Settings.antt =====
-- A configuration that the samples vary.
use tmuxicate.Prelude.{true, false, List, [], ◌∷◌, some}
use tmuxicate.Prelude.Int.{ℤ, pos}
use tmuxicate.Text.{Text, codes}
use tmuxicate.Config.{Config, ResolvedConfig, AgentConfig, TargetConfig}

abbrev pub agent_of : Text → ℤ → Text → AgentConfig
agent_of name priority target = record {
  name = name;
  alias = name;
  adapter = codes "generic";
  command = codes "run";
  role = record { kind = codes "implementation"; domains = codes "api" ∷ []; description = [] };
  route_priority = priority;
  execution_target = target;
  pane_slot = codes "main";
  teammates = [];
  extra_instructions = [];
  workdir = codes "/work";
}

abbrev pub target_named : Text → TargetConfig
target_named name = record {
  name = name;
  kind = codes "remote";
  description = [];
  capabilities = [];
  pane_backed = false;
  dispatch = record { command = []; workdir = []; env = [] };
  heartbeat_timeout = pos 0;
}

abbrev pub config_of : List AgentConfig → List TargetConfig → Config
config_of agents targets = record {
  version = pos 1;
  session = record {
    name = codes "demo";
    workspace = codes "/work";
    state_dir = codes "/state";
    window_name = codes "agents";
    layout = codes "triad";
    attach = some true;
  };
  delivery = record {
    mode = codes "manual";
    ack_timeout = pos 5;
    retry_interval = pos 7;
    max_retries = pos 3;
    safe_notify_only_when_ready = some true;
    auto_notify = some true;
  };
  transcript = record { mode = codes "pipe-pane"; dir = codes "/state/transcripts" };
  routing = record {
    coordinator = codes "lead";
    exclusive_task_classes = [];
    fanout_task_classes = [];
    adaptive = record {
      enabled = false;
      lookback_runs = pos 0;
      success_weight = pos 0;
      approval_weight = pos 0;
      changes_requested_penalty = pos 0;
      blocked_penalty = pos 0;
      wait_penalty = pos 0;
      manual_preferences = [];
    };
  };
  blockers = record {
    max_reroutes_default = pos 1;
    max_reroutes_by_task_class = [];
    max_reroutes_default_set = true;
  };
  defaults = record {
    workdir = codes "/work";
    env = some [];
    bootstrap_template = codes "default";
    notify_enabled = some true;
  };
  execution_targets = targets;
  agents = agents;
}

abbrev pub resolved_of : List AgentConfig → List TargetConfig → ResolvedConfig
resolved_of agents targets = record {
  config = config_of agents targets;
  config_path = [];
  config_dir = codes "/work";
}
