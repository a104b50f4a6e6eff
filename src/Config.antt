-- ===== src/Config.antt =====
-- internal/config/config.go: what a configuration holds. A duration is a number of nanoseconds, an
-- absent pointer is `none`, and a map is the list of its entries in the order of an iteration.
pub mod Defaults
pub mod Loader
pub mod Valid
use tmuxicate.Prelude.{Bool, not, List, [], ◌∷◌, ◌++◌, Option, none, some, if◌then◌else◌, is_nil}
use tmuxicate.Prelude.Int.{ℤ}
use tmuxicate.Text.{Text, codes, is_blank, trim_space}
use tmuxicate.Protocol.Enums.{TaskClass, task_class_eq}
use tmuxicate.Protocol.Validation.{join}

pub record RoleSpec : Type 0 where
  pub kind : Text
  pub domains : List Text
  pub description : Text

-- RoleSpec.IsDeclared
abbrev pub is_declared : RoleSpec → Bool
is_declared r = not (is_blank r.kind)

-- RoleSpec.String
unfoldable pub role_text : RoleSpec → Text
role_text r =
    let kind = trim_space r.kind in
    if is_nil kind
    then []
    else if is_nil r.domains
    then kind
    else kind ++ (codes " [" ++ (join (codes ", ") r.domains ++ codes "]"))

pub record AgentConfig : Type 0 where
  pub name : Text
  pub alias : Text
  pub adapter : Text
  pub command : Text
  pub role : RoleSpec
  pub route_priority : ℤ
  pub execution_target : Text
  -- pane.slot
  pub pane_slot : Text
  pub teammates : List Text
  -- bootstrap.extra_instructions
  pub extra_instructions : Text
  pub workdir : Text

pub record DispatchConfig : Type 0 where
  pub command : Text
  pub workdir : Text
  pub env : List (Text × Text)

pub record TargetConfig : Type 0 where
  pub name : Text
  pub kind : Text
  pub description : Text
  pub capabilities : List Text
  pub pane_backed : Bool
  pub dispatch : DispatchConfig
  -- health.heartbeat_timeout
  pub heartbeat_timeout : ℤ

pub record SessionConfig : Type 0 where
  pub name : Text
  pub workspace : Text
  pub state_dir : Text
  pub window_name : Text
  pub layout : Text
  pub attach : Option Bool

pub record DeliveryConfig : Type 0 where
  pub mode : Text
  pub ack_timeout : ℤ
  pub retry_interval : ℤ
  pub max_retries : ℤ
  pub safe_notify_only_when_ready : Option Bool
  pub auto_notify : Option Bool

pub record TranscriptConfig : Type 0 where
  pub mode : Text
  pub dir : Text

pub record ManualPreference : Type 0 where
  pub task_class : TaskClass
  pub domains : List Text
  pub preferred_owner : Text
  pub weight : ℤ
  pub reason : Text

pub record AdaptiveConfig : Type 0 where
  pub enabled : Bool
  pub lookback_runs : ℤ
  pub success_weight : ℤ
  pub approval_weight : ℤ
  pub changes_requested_penalty : ℤ
  pub blocked_penalty : ℤ
  pub wait_penalty : ℤ
  pub manual_preferences : List ManualPreference

pub record RoutingConfig : Type 0 where
  pub coordinator : Text
  pub exclusive_task_classes : List TaskClass
  pub fanout_task_classes : List TaskClass
  pub adaptive : AdaptiveConfig

pub record BlockersConfig : Type 0 where
  pub max_reroutes_default : ℤ
  pub max_reroutes_by_task_class : List (TaskClass × ℤ)
  pub max_reroutes_default_set : Bool

pub record DefaultsConfig : Type 0 where
  pub workdir : Text
  pub env : Option (List (Text × Text))
  pub bootstrap_template : Text
  -- notify.enabled
  pub notify_enabled : Option Bool

pub record Config : Type 0 where
  pub version : ℤ
  pub session : SessionConfig
  pub delivery : DeliveryConfig
  pub transcript : TranscriptConfig
  pub routing : RoutingConfig
  pub blockers : BlockersConfig
  pub defaults : DefaultsConfig
  pub execution_targets : List TargetConfig
  pub agents : List AgentConfig

-- ResolvedConfig of internal/config/loader.go
pub record ResolvedConfig : Type 0 where
  pub config : Config
  pub config_path : Text
  pub config_dir : Text

-- `m[class]` of a map with task classes for keys.
unfoldable pub class_lookup : TaskClass → List (TaskClass × ℤ) → Option ℤ
class_lookup c [] = none
class_lookup c ((k, v) ∷ rest) =
    let later = class_lookup c rest in if task_class_eq k c then some v else later
