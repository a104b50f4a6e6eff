-- ===== src/Session/Routing/Previews.antt =====
-- PreviewRouteChildTask of internal/session/run.go with its override.
use tmuxicate.Prelude.{
  ◌⊎◌, ◌≡◌, refl, ap, ◌∙◌, subst, Bool, true, false, not, ◌&&◌, List, Option, ok, >>=-eq-ok,
  reject_if, reject_if-eq-ok, is_nil, arith, if◌then◌else◌, Bool-cases, inl, inr,
}
use tmuxicate.Text.{Text}
use tmuxicate.Protocol.Enums.{TaskClass}
use tmuxicate.Protocol.Documents.{
  ChildTask, CoordinatorRun, RouteChildTaskRequest, RouteRejection, RouteTargetExclusion,
  RoutingDecision, TaskPlacement,
}
use tmuxicate.Protocol.Validation.Routing.{validate_route_request}
use tmuxicate.Protocol.Validation.Run.{duplicate_key_for_route}
use tmuxicate.Config.{AgentConfig, ResolvedConfig}
use tmuxicate.Session.Targets.{
  blocks_routing, contains_name, resolve_execution_target_config, select_task_placement,
  target_availability_for_routing,
}
use tmuxicate.Session.Routing.{
  Candidate, is_eligible, rank_candidates, route_candidates,
  filter_candidates_by_target_availability,
}
use tmuxicate.Session.Routing.Candidates.{Open}
use tmuxicate.Session.Routing.Duplicates.{NoneOpen, unblocked-NoneOpen}
use tmuxicate.Session.Routing.Owners.{select_routed_owner-Routable, assign-value}
use tmuxicate.Session.Routing.Selection.{
  RouteEnv, Selection, Preview, resolve_agent_config, assign, override_selection, select_filtered,
  select_routed_owner, duplicate_policy_allows_fanout, duplicate_policy_blocks,
  find_active_duplicate_task, is_there, place, preview_route_child_task,
}

-- An owner that the run allows, with a target that is known and does not block routing.
pub record Allowed (env : RouteEnv) (cfg : ResolvedConfig) (run : CoordinatorRun)
    (owner : AgentConfig) : Type 0 where
  pub allowed : contains_name run.allowed_owners owner.name ≡ true
  pub target : Open env.targets cfg owner

not-false : (b : Bool) → not b ≡ false → b ≡ true
not-false b h = ground arith

unrejected :
    (blocked : Bool) (r : RouteRejection) (a : AgentConfig) (e : RoutingDecision) {b : AgentConfig}
    {d : RoutingDecision}
    → (if blocked then ok (Selection.rejected r) else assign a e) ≡ ok (Selection.assigned b d)
    → (blocked ≡ false) × (a ≡ b)
unrejected true r a e h = (cc, cc)
unrejected false r a e h = (refl, (assign-value a e h).0)

override_selection-Allowed :
    (env : RouteEnv) (cfg : ResolvedConfig) (req : RouteChildTaskRequest) (run : CoordinatorRun)
    (kinds : List Candidate) (dup : Option ChildTask) (owner : AgentConfig) (d : RoutingDecision)
    → override_selection env cfg req run kinds dup ≡ ok (Selection.assigned owner d)
    → Allowed env cfg run owner
unfolding override_selection
override_selection-Allowed env cfg req run kinds dup owner d eq =
    let (a, named, h1) =
      >>=-eq-ok (resolve_agent_config cfg.config.agents req.owner_override) _ eq in
    let (u, allowed, h2) =
      >>=-eq-ok (reject_if (not (contains_name run.allowed_owners a.name)) _) _ h1 in
    let (target, resolved, h3) = >>=-eq-ok (resolve_execution_target_config cfg a) _ h2 in
    let (found, reported, h4) =
      >>=-eq-ok (target_availability_for_routing env.targets target) _ h3 in
    let (unblocked, same) = unrejected (blocks_routing (found.0)) _ a _ h4 in
    subst (Allowed env cfg run) same record {
      allowed = not-false _ (reject_if-eq-ok _ _ allowed);
      target = record {
        target = target;
        resolved = resolved;
        found = found;
        reported = reported;
        unblocked = unblocked;
      };
    }

eligible-allowed :
    (allowed : List Text) (k : TaskClass) (a : AgentConfig)
    → is_eligible allowed k a ≡ true
    → contains_name allowed a.name ≡ true
unfolding is_eligible
eligible-allowed allowed k a h = ground arith

overridden-Allowed :
    (env : RouteEnv) (cfg : ResolvedConfig) (run : CoordinatorRun) (req : RouteChildTaskRequest)
    (dup : Option ChildTask) (kinds domains : List Candidate × List RouteTargetExclusion)
    (owner : AgentConfig) (d : RoutingDecision)
    → is_nil req.owner_override ≡ false
    → select_filtered env cfg run req dup kinds domains ≡ ok (Selection.assigned owner d)
    → Allowed env cfg run owner
unfolding select_filtered
overridden-Allowed env cfg run req dup kinds domains owner d e eq =
    override_selection-Allowed env cfg req run (rank_candidates (kinds.0)) dup owner d (rw e at eq)

selected-Allowed :
    (env : RouteEnv) (cfg : ResolvedConfig) (run : CoordinatorRun) (req : RouteChildTaskRequest)
    (dup : Option ChildTask) (owner : AgentConfig) (d : RoutingDecision)
    → select_routed_owner env cfg run req dup ≡ ok (Selection.assigned owner d)
    → Allowed env cfg run owner
unfolding select_routed_owner
selected-Allowed env cfg run req dup owner d eq = elim (Bool-cases (is_nil req.owner_override)) [
  | inl e ↦
      let r = (select_routed_owner-Routable env cfg run req dup owner d e eq).0 in
      record { allowed = eligible-allowed _ _ owner r.eligible; target = r.target }
  | inr e ↦
      let found = route_candidates cfg run.allowed_owners req.task_class req.domains in
      let (kinds, k, h1) =
        >>=-eq-ok (filter_candidates_by_target_availability env.targets cfg (found.0)) _ eq in
      let (domains, f, h2) =
        >>=-eq-ok (filter_candidates_by_target_availability env.targets cfg (found.1)) _ h1 in
      overridden-Allowed env cfg run req dup kinds domains owner d e h2
]

placed-assigned :
    (env : RouteEnv) (cfg : ResolvedConfig) (s : Selection) (owner : AgentConfig)
    (p : TaskPlacement) (d : RoutingDecision)
    → place env cfg s ≡ ok (Preview.placed owner p d)
    → s ≡ Selection.assigned owner d
unfolding place
placed-assigned env cfg (Selection.rejected r) owner p d h = cc
placed-assigned env cfg (Selection.assigned a e) owner p d h =
    let (q, placed, same) = >>=-eq-ok (select_task_placement env.targets cfg a) _ h in cc

-- A preview that places the task: the request is valid, the owner is one that the run allows and its
-- target does not block routing, with an override or without, and unless the task's class is fanned
-- out, every task of the run that has the duplicate key of the request has a receipt that is done or
-- dead.
pub preview_route_child_task-Allowed :
    (env : RouteEnv) (cfg : ResolvedConfig) (request : RouteChildTaskRequest) (owner : AgentConfig)
    (p : TaskPlacement) (d : RoutingDecision)
    → preview_route_child_task env cfg request ≡ ok (Preview.placed owner p d)
    → (req : RouteChildTaskRequest) × (run : CoordinatorRun) × (validate_route_request request
        ≡ ok req)
      × (env.read_run req.run_id ≡ ok run)
      × Allowed env cfg run owner
      × ((duplicate_policy_allows_fanout cfg req.task_class ≡ true)
          ⊎ NoneOpen env req.run_id (duplicate_key_for_route req.run_id req.task_class req.domains))
unfolding preview_route_child_task
preview_route_child_task-Allowed env cfg request owner p d eq =
    let (req, valid, h1) = >>=-eq-ok (validate_route_request request) _ eq in
    let (run, read, h2) = >>=-eq-ok (env.read_run req.run_id) _ h1 in
    let (dup, found, h3) =
      >>=-eq-ok
        (find_active_duplicate_task env req.run_id
          (duplicate_key_for_route req.run_id req.task_class req.domains))
        _ h2 in
    let (u, passed, h4) =
      >>=-eq-ok (reject_if (is_there dup && duplicate_policy_blocks cfg req.task_class) _) _ h3 in
    let (s, selected, h5) = >>=-eq-ok (select_routed_owner env cfg run req dup) _ h4 in
    (
      req,
      run,
      valid,
      read,
      selected-Allowed env cfg run req dup owner d
          (selected ∙ ap ok (placed-assigned env cfg s owner p d h5)),
      unblocked-NoneOpen env cfg req.run_id req.task_class req.domains dup found
          (reject_if-eq-ok _ _ passed),
    )
