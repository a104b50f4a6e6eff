-- ===== src/Protocol/Validation/Run.antt =====
-- CoordinatorRun.Validate and ChildTask.Validate.
use tmuxicate.Prelude.{
  ℕ, suc, ◌++◌, Bool, ◌&&◌, ◌||◌, not, List, [], ◌∷◌, Option, none, some, ok, err, ◌>>=◌, ◌>>◌,
  Result, reject_if, is_nil, msg, at, wrapped, wrapped_at, if◌then◌else◌,
}
use tmuxicate.Text.{Text, codes, text_eq, is_blank}
use tmuxicate.Protocol.Ids.{is_generated_run_id, is_generated_task_id}
use tmuxicate.Protocol.Domains.{normalize_route_domains}
use tmuxicate.Protocol.Enums.{check_task_class, task_class_text, TaskClass, is_class_unset}
use tmuxicate.Protocol.Documents.{
  AgentSnapshot, CoordinatorRun, ChildTask, RoutingDecision, TaskPlacement, is_zero,
}
use tmuxicate.Protocol.Validation.{each, is_nil_ptr, join, texts_eq}
use tmuxicate.Protocol.Validation.Target.{
  validate_execution_target, has_execution_target_metadata, validate_task_placement,
}
use tmuxicate.Protocol.Validation.Routing.{validate_decision}

-- The body of the loop over team_snapshot: a target with metadata is rewritten.
validate_snapshot : ℕ → AgentSnapshot → Result AgentSnapshot
validate_snapshot i s = do
  reject_if (is_blank s.name) (at "team_snapshot[" i "].name is required")
  reject_if (is_blank s.alias) (at "team_snapshot[" i "].alias is required")
  reject_if (is_blank s.role) (at "team_snapshot[" i "].role is required")
  target ←
      (if has_execution_target_metadata s.execution_target
        then wrapped_at "team_snapshot[].execution_target" i
            (validate_execution_target s.execution_target)
        else ok s.execution_target)
  each (λ j t. reject_if (is_blank t) (at "team_snapshot[].teammates[" j "] is required")) 0
      s.teammates
  ok (record s { execution_target = target })

validate_snapshots : ℕ → List AgentSnapshot → Result (List AgentSnapshot)
unfolding validate_snapshot
validate_snapshots i [] = ok []
validate_snapshots i (s ∷ ss) =
    let rest = validate_snapshots (suc i) ss in
    do s' ← validate_snapshot i s; ss' ← rest; ok (s' ∷ ss')

unfoldable pub validate_run : CoordinatorRun → Result CoordinatorRun
unfolding validate_snapshots
validate_run r = do
  reject_if (not (is_generated_run_id r.run_id)) (msg "run_id must use generated run_ identifier")
  reject_if (is_blank r.goal) (msg "goal is required")
  reject_if (is_blank r.coordinator) (msg "coordinator is required")
  reject_if (is_blank r.created_by) (msg "created_by is required")
  reject_if (is_zero r.created_at) (msg "created_at is required")
  reject_if (is_blank r.root_message_id) (msg "root_message_id is required")
  reject_if (is_blank r.root_thread_id) (msg "root_thread_id is required")
  reject_if (is_nil r.allowed_owners) (msg "allowed_owners must contain at least one owner")
  each (λ i o. reject_if (is_blank o) (at "allowed_owners[" i "] is required")) 0 r.allowed_owners
  reject_if (is_nil r.team_snapshot) (msg "team_snapshot must contain at least one agent")
  snapshots ← validate_snapshots 0 r.team_snapshot
  ok (record r { team_snapshot = snapshots })

unfoldable pub child_task_has_routing_metadata : ChildTask → Bool
child_task_has_routing_metadata t =
    not (is_class_unset t.task_class)
    || not (is_nil t.domains)
    || not (is_nil t.normalized_domains)
    || not (is_blank t.duplicate_key)
    || not (is_nil_ptr t.routing_decision)
    || not (is_blank t.override_reason)

-- fmt.Sprintf("%s|%s|%s", run, class, strings.Join(domains, ","))
unfoldable pub duplicate_key_for_route : Text → TaskClass → List Text → Text
unfolding join
duplicate_key_for_route run_id task_class domains =
    run_id ++ b'|' ∷ (task_class_text task_class ++ b'|' ∷ join (codes ",") domains)

check_placement : Option TaskPlacement → Result (Option TaskPlacement)
check_placement none = ok none
check_placement (some p) = do p' ← wrapped "placement" (validate_task_placement p); ok (some p')

check_routing_decision : Option RoutingDecision → ChildTask → Result (Unit {0})
check_routing_decision none t = err (msg "routing_decision is required for routed tasks")
check_routing_decision (some d) t = do
  wrapped "routing_decision" (validate_decision d)
  reject_if (text_eq d.tie_break (codes "owner_override") && is_blank t.override_reason)
      (msg "override_reason is required when owner override is used")

-- The branch for tasks with routing metadata.
unfoldable pub validate_routed : ChildTask → Result ChildTask
unfolding check_routing_decision
validate_routed t = do
  wrapped "task_class" (check_task_class t.task_class)
  domains ← wrapped "domains" (normalize_route_domains t.domains)
  reject_if (is_nil domains) (msg "domains must contain at least one domain for routed tasks")
  normalized ← wrapped "normalized_domains" (normalize_route_domains t.normalized_domains)
  reject_if (is_nil normalized)
      (msg "normalized_domains must contain at least one domain for routed tasks")
  reject_if (not (texts_eq normalized domains))
      (msg "normalized_domains must match normalized domains")
  reject_if (is_blank t.duplicate_key) (msg "duplicate_key is required for routed tasks")
  reject_if
      (not
        (text_eq t.duplicate_key (duplicate_key_for_route t.parent_run_id t.task_class normalized)))
      (msg "duplicate_key must equal the expected key")
  check_routing_decision t.routing_decision t
  ok (record t { domains = domains; normalized_domains = normalized })

unfoldable pub validate_child_task : ChildTask → Result ChildTask
unfolding check_placement validate_routed child_task_has_routing_metadata
validate_child_task t = do
  reject_if (not (is_generated_task_id t.task_id))
      (msg "task_id must use generated task_ identifier")
  reject_if (not (is_generated_run_id t.parent_run_id))
      (msg "parent_run_id must use generated run_ identifier")
  reject_if (is_blank t.owner) (msg "owner is required")
  reject_if (is_blank t.goal) (msg "goal is required")
  reject_if (is_blank t.expected_output) (msg "expected_output is required")
  each
      (λ i dep.
        reject_if (not (is_generated_task_id dep))
          (at "depends_on[" i "] must use generated task_ identifier"))
      0 t.depends_on
  reject_if (not (is_nil t.message_id) && is_blank t.message_id)
      (msg "message_id must not be blank")
  reject_if (not (is_nil t.thread_id) && is_blank t.thread_id) (msg "thread_id must not be blank")
  reject_if (is_zero t.created_at) (msg "created_at is required")
  placement ← check_placement t.placement
  let t' = record t { placement = placement }
  if child_task_has_routing_metadata t' then validate_routed t' else ok t'
