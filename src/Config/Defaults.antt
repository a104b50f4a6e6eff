-- ===== src/Config/Defaults.antt =====
-- Config.applyDefaults, Config.Resolve and resolvePath of internal/config/loader.go. `Paths` stands
-- for path/filepath. The clone that Resolve makes is the value itself here.
pub mod Stable
pub mod Filled
use tmuxicate.Prelude.{
  Bool, true, false, not, ◌&&◌, List, [], ◌∷◌, map, Option, none, some, Result, ok, err, wrapped,
  ◌>>=◌, if◌then◌else◌, is_nil, ◌*◌, ◌^◌,
}
use tmuxicate.Prelude.Int.{ℤ, pos, int_eq}
use tmuxicate.Text.{Text, codes, is_blank}
use tmuxicate.Config.{
  Config, SessionConfig, DeliveryConfig, BlockersConfig, TranscriptConfig, DefaultsConfig,
  AgentConfig, TargetConfig, DispatchConfig, ResolvedConfig,
}

-- What the functions take from path/filepath and from os.
pub record Paths : Type 0 where
  pub join_path : Text → Text → Text
  pub is_abs : Text → Bool
  pub clean : Text → Text
  pub abs : Text → Result Text
  pub getwd : Result Text

-- `if s == "" { s = d }`
unfoldable pub or_text : Text → Text → Text
or_text d s = if is_nil s then d else s

-- `if n == 0 { n = d }`
unfoldable pub or_int : ℤ → ℤ → ℤ
or_int d n = if int_eq n (pos 0) then d else n

-- `if p == nil { p = &d }`
unfoldable pub or_ptr {ℓ} : {A : Type ℓ} → A → Option A → Option A
or_ptr d none = some d
or_ptr d (some a) = some a

abbrev pub session_defaults : SessionConfig → SessionConfig
session_defaults s = record s {
  window_name = or_text (codes "agents") s.window_name;
  layout = or_text (codes "triad") s.layout;
  attach = or_ptr true s.attach;
}

-- The durations are 2 minutes and 30 seconds.
abbrev pub delivery_defaults : DeliveryConfig → DeliveryConfig
delivery_defaults d = record d {
  mode = or_text (codes "notify_then_read") d.mode;
  ack_timeout = or_int (pos (2 * 60 * 10 ^ 9)) d.ack_timeout;
  retry_interval = or_int (pos (30 * 10 ^ 9)) d.retry_interval;
  max_retries = or_int (pos 3) d.max_retries;
  safe_notify_only_when_ready = or_ptr true d.safe_notify_only_when_ready;
  auto_notify = or_ptr true d.auto_notify;
}

abbrev pub blockers_defaults : BlockersConfig → BlockersConfig
blockers_defaults b = record b {
  max_reroutes_default =
      if not b.max_reroutes_default_set
      then or_int (pos 1) b.max_reroutes_default
      else b.max_reroutes_default;
}

abbrev pub defaults_defaults : Text → DefaultsConfig → DefaultsConfig
defaults_defaults workspace d = record {
  workdir = or_text workspace d.workdir;
  env = or_ptr [] d.env;
  bootstrap_template = or_text (codes "default") d.bootstrap_template;
  notify_enabled = or_ptr true d.notify_enabled;
}

abbrev pub agent_workdir : Text → AgentConfig → AgentConfig
agent_workdir workdir a = record a { workdir = or_text workdir a.workdir }

module _ (paths : Paths) where
  abbrev pub transcript_defaults : Text → TranscriptConfig → TranscriptConfig
  transcript_defaults state_dir t = record {
    mode = or_text (codes "pipe-pane") t.mode;
    dir =
        if is_nil t.dir && not (is_nil state_dir)
        then paths.join_path state_dir (codes "transcripts")
        else t.dir;
  }

  unfoldable pub apply_defaults : Config → Config
  unfolding or_text or_int or_ptr
  apply_defaults c =
      let defaults = defaults_defaults c.session.workspace c.defaults in
      record c {
        version = or_int (pos 1) c.version;
        session = session_defaults c.session;
        delivery = delivery_defaults c.delivery;
        transcript = transcript_defaults c.session.state_dir c.transcript;
        blockers = blockers_defaults c.blockers;
        defaults = defaults;
        agents = map (agent_workdir defaults.workdir) c.agents;
      }

  unfoldable pub resolve_path : Text → Text → Text
  resolve_path base p =
      if is_blank p
      then []
      else if paths.is_abs p
      then paths.clean p
      else paths.clean (paths.join_path base p)

  -- `if s == "" { s = d } else { s = resolvePath(base, s) }`
  unfoldable pub path_or : Text → Text → Text → Text
  unfolding resolve_path
  path_or base d s = if is_nil s then d else resolve_path base s

  abbrev target_paths : Text → TargetConfig → TargetConfig
  target_paths base t = record t {
    dispatch = record t.dispatch { workdir = path_or base [] t.dispatch.workdir };
  }

  abbrev agent_paths : Text → Text → AgentConfig → AgentConfig
  agent_paths base workdir a = record a { workdir = path_or base workdir a.workdir }

  -- The paths that Resolve sets, for the absolute directory `base`.
  unfoldable pub resolve_paths : Text → Config → Config
  unfolding path_or resolve_path
  resolve_paths base c =
      let workspace = resolve_path base c.session.workspace in
      let state_dir = resolve_path base c.session.state_dir in
      let workdir = path_or base workspace c.defaults.workdir in
      record c {
        session = record c.session { workspace = workspace; state_dir = state_dir };
        transcript = record c.transcript {
          dir = path_or base (paths.join_path state_dir (codes "transcripts")) c.transcript.dir;
        };
        defaults = record c.defaults { workdir = workdir };
        execution_targets = map (target_paths base) c.execution_targets;
        agents = map (agent_paths base workdir) c.agents;
      }

  unfoldable pub base_dir : Text → Result Text
  base_dir workspace = do
    dir ← if is_nil workspace then wrapped "get working directory" paths.getwd else ok workspace
    wrapped "resolve workspace" (paths.abs dir)
