-- ===== src/Session/Targets.antt =====
-- Execution targets as routing sees them: internal/session/run.go for the target of an agent, and
-- internal/session/target.go with internal/mailbox/target_store.go for its availability.
use tmuxicate.Prelude.{
  Bool, true, false, ◌&&◌, not, List, [], ◌∷◌, ◌++◌, Option, none, some, Result, ok, err, Error,
  not_exist, msg, ◌>>=◌, if◌then◌else◌, is_nil,
}
use tmuxicate.Prelude.Int.{ℤ, pos, int_lt, is_not_pos, sub_ℕ}
use tmuxicate.Text.{Text, codes, text_eq, trim_space, is_blank}
use tmuxicate.Protocol.Documents.{ExecutionTarget, TaskPlacement, Time}
use tmuxicate.Config.{AgentConfig, TargetConfig, ResolvedConfig}

pub data TargetAvailability : Type 0 where
  unknown ready degraded offline disabled : TargetAvailability
  other : Text → TargetAvailability

abbrev pub availability_text : TargetAvailability → Text
availability_text TargetAvailability.unknown = codes "unknown"
availability_text TargetAvailability.ready = codes "ready"
availability_text TargetAvailability.degraded = codes "degraded"
availability_text TargetAvailability.offline = codes "offline"
availability_text TargetAvailability.disabled = codes "disabled"
availability_text (TargetAvailability.other t) = t

abbrev pub blocks_routing : TargetAvailability → Bool
blocks_routing TargetAvailability.offline = true
blocks_routing TargetAvailability.disabled = true
blocks_routing _ = false

-- The fields of a TargetState that decide its availability.
pub record TargetState : Type 0 where
  pub availability : TargetAvailability
  pub summary : Text
  pub last_heartbeat_at : Text
  pub disabled_reason : Text

-- What the functions get from outside: the state files, the clock, and the package time.
pub record TargetEnv : Type 0 where
  -- mailbox.ReadTargetState; `not_exist` when the target has no file
  pub read_state : Text → Result TargetState
  pub now : Time
  -- time.Parse(time.RFC3339Nano, s)
  pub parse_time : Text → Option Time
  -- d.Round(time.Second) as text
  pub show_duration : ℤ → Text
  -- `%q`
  pub quote : Text → Text

-- containsAgentName, containsString
unfoldable pub contains_name : List Text → Text → Bool
contains_name [] want = false
contains_name (x ∷ xs) want =
    let rest = contains_name xs want in if text_eq x want then true else rest

-- The search of resolveExecutionTarget and resolveExecutionTargetConfig.
unfoldable pub find_target : Text → List TargetConfig → Option TargetConfig
find_target name [] = none
find_target name (t ∷ ts) =
    let rest = find_target name ts in if text_eq t.name name then some t else rest

abbrev pub local_target : ExecutionTarget
local_target = record {
  name = codes "local";
  kind = codes "local";
  description = codes "Implicit local pane-backed execution target";
  capabilities = codes "local" ∷ codes "pane" ∷ [];
  pane_backed = true;
}

abbrev pub target_of : TargetConfig → ExecutionTarget
target_of t = record {
  name = t.name;
  kind = t.kind;
  description = t.description;
  capabilities = t.capabilities;
  pane_backed = t.pane_backed;
}

found_or {ℓ} : {A : Type ℓ} → Error → Option A → Result A
found_or e none = err e
found_or e (some a) = ok a

unfoldable pub resolve_execution_target : ResolvedConfig → AgentConfig → Result ExecutionTarget
unfolding find_target found_or
resolve_execution_target cfg agent =
    let target_name = trim_space agent.execution_target in
    if is_nil target_name then ok local_target else (do
      t ←
          found_or (msg "unknown execution target for agent")
            (find_target target_name cfg.config.execution_targets)
      ok (target_of t))

unfoldable pub resolve_execution_target_config : ResolvedConfig → AgentConfig → Result TargetConfig
unfolding resolve_execution_target find_target found_or
resolve_execution_target_config cfg agent = do
  target ← resolve_execution_target cfg agent
  if text_eq target.name (codes "local") && text_eq target.kind (codes "local")
      then ok record {
        name = target.name;
        kind = target.kind;
        description = target.description;
        capabilities = target.capabilities;
        pane_backed = target.pane_backed;
        dispatch = record { command = []; workdir = []; env = [] };
        heartbeat_timeout = pos 0;
      }
      else found_or (msg "unknown execution target config")
          (find_target target.name cfg.config.execution_targets)

unfoldable pub select_task_placement :
    TargetEnv → ResolvedConfig → AgentConfig → Result TaskPlacement
unfolding resolve_execution_target
select_task_placement env cfg owner = do
  target ← resolve_execution_target cfg owner
  ok record {
    target = target;
    reason =
        if is_blank owner.execution_target
        then codes "owner "
          ++ (env.quote owner.name ++ codes " uses implicit local pane-backed target")
        else codes "owner "
          ++ (env.quote owner.name
              ++ (codes " is bound to execution target " ++ env.quote target.name));
  }

-- DefaultTargetState
unfoldable pub default_target_state : ExecutionTarget → TargetState
default_target_state target =
    let is_local = text_eq target.kind (codes "local") && target.pane_backed in
    record {
      availability = if is_local then TargetAvailability.ready else TargetAvailability.unknown;
      summary =
          if is_local
          then codes "implicit local pane-backed target"
          else codes "target has not reported health yet";
      last_heartbeat_at = [];
      disabled_reason = [];
    }

unfoldable pub normalize_display_value : Text → Text
normalize_display_value value =
    if is_blank value then codes "-" else if text_eq value (codes "-") then codes "-" else value

-- time.Since(ts) > timeout
older_than : Time → ℤ → Option Time → Bool
older_than now timeout none = false
older_than now timeout (some ts) = int_lt timeout (sub_ℕ now ts)

is_disabled : TargetAvailability → Bool
is_disabled TargetAvailability.disabled = true
is_disabled _ = false

-- timeout > 0, a heartbeat is on record, it parses, and it is older than the timeout.
unfoldable pub is_heartbeat_expired : TargetEnv → TargetConfig → TargetState → Bool
unfolding older_than
is_heartbeat_expired env target recorded =
    not (is_not_pos target.heartbeat_timeout)
    && not (is_blank recorded.last_heartbeat_at)
    && older_than env.now target.heartbeat_timeout (env.parse_time recorded.last_heartbeat_at)

unfoldable pub effective_target_availability :
    TargetEnv → TargetConfig → TargetState → TargetAvailability × Text
unfolding normalize_display_value is_heartbeat_expired is_disabled
effective_target_availability env target recorded =
    if is_disabled recorded.availability
    then (
      recorded.availability,
      trim_space (
          if is_blank recorded.disabled_reason
          then recorded.summary
          else normalize_display_value recorded.summary
            ++ (codes " (" ++ (recorded.disabled_reason ++ codes ")"))),
    )
    else if is_heartbeat_expired env target recorded
    then (
      TargetAvailability.offline,
      codes "heartbeat expired after " ++ env.show_duration target.heartbeat_timeout,
    )
    else (recorded.availability, normalize_display_value recorded.summary)

-- A target without a state file has the default state.
read_or_default : TargetConfig → Result TargetState → Result TargetState
unfolding default_target_state
read_or_default target (ok state) = ok state
read_or_default target (err not_exist) = ok (default_target_state (target_of target))
read_or_default target (err e) = err e

unfoldable pub target_availability_for_routing :
    TargetEnv → TargetConfig → Result (TargetAvailability × Text)
unfolding read_or_default effective_target_availability
target_availability_for_routing env target = do
  state ← read_or_default target (env.read_state target.name)
  ok (effective_target_availability env target state)
