-- ===== src/Session/ResolveOptions.antt =====
-- BlockerResolveOpts of internal/session/blocker_resolve.go and its Validate.
use tmuxicate.Prelude.{
  Bool, true, false, ◌||◌, List, Result, ok, msg, wrapped, reject_if, is_nil, ◌>>=◌, ◌>>◌,
}
use tmuxicate.Text.{Text, is_blank}
use tmuxicate.Protocol.Enums.{
  ResolutionAction, TaskClass, check_resolution_action, check_task_class, task_class_text,
}
use tmuxicate.Protocol.Domains.{normalize_route_domains}

-- BlockerResolveOpts
pub record ResolveOpts : Type 0 where
  pub run_id : Text
  pub source_task_id : Text
  pub action : ResolutionAction
  pub owner : Text
  pub reason : Text
  pub body : Text
  pub task_class : TaskClass
  pub domains : List Text
  pub goal : Text
  pub expected_output : Text

abbrev is_review : TaskClass → Bool
is_review TaskClass.review = true
is_review _ = false

-- BlockerResolveOpts.Validate for a partial replan, after the reason.
check_replan_opts : ResolveOpts → Result (Unit {0})
check_replan_opts o = do
  reject_if
      (is_blank (task_class_text o.task_class)
        || is_nil o.domains
        || is_blank o.goal
        || is_blank o.expected_output)
      (msg "partial_replan requires task-class, domains, goal, expected-output")
  wrapped "task_class" (check_task_class o.task_class)
  reject_if (is_review o.task_class) (msg "partial_replan task_class cannot be review")
  domains ← wrapped "domains" (normalize_route_domains o.domains)
  ok tt

-- The checks by action.
check_action_opts : ResolutionAction → ResolveOpts → Result (Unit {0})
unfolding check_replan_opts
check_action_opts ResolutionAction.manual_reroute o =
    reject_if (is_blank o.reason) (msg "reason is required")
check_action_opts ResolutionAction.dismiss o =
    reject_if (is_blank o.reason) (msg "reason is required")
check_action_opts ResolutionAction.clarify o =
    reject_if (is_blank o.body) (msg "clarify requires body")
check_action_opts ResolutionAction.partial_replan o = do
  reject_if (is_blank o.reason) (msg "reason is required")
  check_replan_opts o
check_action_opts (ResolutionAction.other t) o = ok tt

unfoldable pub validate_resolve_opts : ResolveOpts → Result (Unit {0})
unfolding check_action_opts
validate_resolve_opts o = do
  reject_if (is_nil o.run_id) (msg "run_id is required")
  reject_if (is_nil o.source_task_id) (msg "source_task_id is required")
  wrapped "action" (check_resolution_action o.action)
  check_action_opts o.action o
