-- ===== src/Config/Defaults/Filled.antt =====
-- What applyDefaults of internal/config/loader.go fills in, and what it leaves as the user set it.
use tmuxicate.Prelude.{◌≡◌, ◌≢◌, true, List, [], ◌∷◌, none, some, is_nil, ◌*◌, ◌^◌, if◌then◌else◌}
use tmuxicate.Prelude.Int.{pos}
use tmuxicate.Text.{Text, codes}
use tmuxicate.Config.{
  Config, SessionConfig, DeliveryConfig, BlockersConfig, TranscriptConfig, DefaultsConfig,
  AgentConfig,
}
use tmuxicate.Config.Defaults.{Paths}

-- `new` is `old` unless that is `missing`; then it is `default`.
pub data Fills {ℓ} {A : Type ℓ} (missing default old new : A) : Type ℓ where
  filled : old ≡ missing → new ≡ default → Fills missing default old new
  kept : old ≢ missing → new ≡ old → Fills missing default old new

-- Each agent has its working directory filled in, and nothing else changed.
abbrev pub AgentsFilled : Text → List AgentConfig → List AgentConfig → Type 0
AgentsFilled workdir [] [] = Unit
AgentsFilled workdir (a ∷ more) (b ∷ bs) =
    Fills [] workdir a.workdir b.workdir
    × (b ≡ record a { workdir = b.workdir })
    × AgentsFilled workdir more bs
AgentsFilled workdir _ _ = ⊥

pub record SessionFilled (a b : SessionConfig) : Type 0 where
  pub window_name : Fills [] (codes "agents") a.window_name b.window_name
  pub layout : Fills [] (codes "triad") a.layout b.layout
  pub attach : Fills none (some true) a.attach b.attach
  pub rest : b ≡ record a { window_name = b.window_name; layout = b.layout; attach = b.attach }

pub record DeliveryFilled (a b : DeliveryConfig) : Type 0 where
  pub mode : Fills [] (codes "notify_then_read") a.mode b.mode
  pub ack_timeout : Fills (pos 0) (pos (2 * 60 * 10 ^ 9)) a.ack_timeout b.ack_timeout
  pub retry_interval : Fills (pos 0) (pos (30 * 10 ^ 9)) a.retry_interval b.retry_interval
  pub max_retries : Fills (pos 0) (pos 3) a.max_retries b.max_retries
  pub safe : Fills none (some true) a.safe_notify_only_when_ready b.safe_notify_only_when_ready
  pub auto_notify : Fills none (some true) a.auto_notify b.auto_notify

-- An explicit maximum of 0 stays.
pub record BlockersFilled (a b : BlockersConfig) : Type 0 where
  pub maximum :
      Fills
        (pos 0)
        (if a.max_reroutes_default_set then pos 0 else pos 1)
        a.max_reroutes_default
        b.max_reroutes_default
  pub rest : b ≡ record a { max_reroutes_default = b.max_reroutes_default }

pub record DefaultsFilled (workspace : Text) (a b : DefaultsConfig) : Type 0 where
  pub workdir : Fills [] workspace a.workdir b.workdir
  pub env : Fills none (some []) a.env b.env
  pub bootstrap_template : Fills [] (codes "default") a.bootstrap_template b.bootstrap_template
  pub notify_enabled : Fills none (some true) a.notify_enabled b.notify_enabled

-- Without a state directory a missing transcript directory stays missing.
pub record TranscriptFilled (paths : Paths) (state_dir : Text) (a b : TranscriptConfig)
    : Type 0 where
  pub mode : Fills [] (codes "pipe-pane") a.mode b.mode
  pub dir :
      Fills []
        (if is_nil state_dir then [] else paths.join_path state_dir (codes "transcripts"))
        a.dir
        b.dir

pub record IsFilled (paths : Paths) (a b : Config) : Type 0 where
  pub version : Fills (pos 0) (pos 1) a.version b.version
  pub session : SessionFilled a.session b.session
  pub delivery : DeliveryFilled a.delivery b.delivery
  pub transcript : TranscriptFilled paths a.session.state_dir a.transcript b.transcript
  pub blockers : BlockersFilled a.blockers b.blockers
  pub defaults : DefaultsFilled a.session.workspace a.defaults b.defaults
  pub agents : AgentsFilled b.defaults.workdir a.agents b.agents
  pub routing : b.routing ≡ a.routing
  pub execution_targets : b.execution_targets ≡ a.execution_targets
