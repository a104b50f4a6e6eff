-- ===== src/Protocol/Validation/Target.antt =====
-- validateExecutionTarget, hasExecutionTargetMetadata, validateTaskPlacement and
-- CoordinatorRun.Validate's checks of a snapshot's target.
use tmuxicate.Prelude.{Bool, ◌||◌, not, ok, ◌>>=◌, ◌>>◌, Result, reject_if, is_nil, msg, wrapped}
use tmuxicate.Text.{Text, codes, text_eq, is_blank, trim_space}
use tmuxicate.Protocol.Domains.{normalize_execution_target_capabilities}
use tmuxicate.Protocol.Documents.{ExecutionTarget, TaskPlacement}

unfoldable pub is_valid_execution_target_kind : Text → Bool
is_valid_execution_target_kind kind =
    let k = trim_space kind in
    text_eq k (codes "local") || text_eq k (codes "remote") || text_eq k (codes "sandbox")

unfoldable pub validate_execution_target : ExecutionTarget → Result ExecutionTarget
unfolding is_valid_execution_target_kind
validate_execution_target target = do
  let name = trim_space target.name
  reject_if (is_nil name) (msg "name is required")
  let kind = trim_space target.kind
  reject_if (is_nil kind) (msg "kind is required")
  reject_if (not (is_valid_execution_target_kind kind)) (msg "kind is invalid")
  capabilities ← normalize_execution_target_capabilities target.capabilities
  ok (record target {
    name = name;
    kind = kind;
    description = trim_space target.description;
    capabilities = capabilities;
  })

unfoldable pub has_execution_target_metadata : ExecutionTarget → Bool
has_execution_target_metadata target =
    not (is_blank target.name)
    || not (is_blank target.kind)
    || not (is_blank target.description)
    || not (is_nil target.capabilities)
    || target.pane_backed

unfoldable pub validate_task_placement : TaskPlacement → Result TaskPlacement
unfolding validate_execution_target
validate_task_placement placement = do
  target ← wrapped "target" (validate_execution_target placement.target)
  let reason = trim_space placement.reason
  reject_if (is_nil reason) (msg "reason is required")
  ok (record { target = target; reason = reason })
