-- ===== src/Session/Routing/Selection.antt =====
-- selectRoutedOwner, the override, the duplicate policy and PreviewRouteChildTask of
-- internal/session/run.go.
use tmuxicate.Prelude.{
  Bool, true, false, ◌&&◌, ◌||◌, not, List, [], ◌∷◌, ◌++◌, Option, none, some, Result, ok, err, msg,
  wrapped, ◌>>=◌, ◌>>◌, reject_if, if◌then◌else◌, is_nil,
}
use tmuxicate.Text.{Text, codes, text_eq, is_blank}
use tmuxicate.Protocol.Enums.{FolderState, TaskClass, task_class_eq}
use tmuxicate.Protocol.Documents.{
  AdaptiveExplanation, AdaptivePreferenceSet, ChildTask, CoordinatorRun, RouteChildTaskRequest,
  RouteRejection, RouteTargetExclusion, RoutingDecision, TaskPlacement,
}
use tmuxicate.Protocol.Validation.Routing.{
  validate_decision, validate_rejection, validate_route_request,
}
use tmuxicate.Protocol.Validation.Run.{duplicate_key_for_route}
use tmuxicate.Config.{AgentConfig, ResolvedConfig}
use tmuxicate.Session.Targets.{
  TargetEnv, blocks_routing, contains_name, resolve_execution_target_config, select_task_placement,
  target_availability_for_routing,
}
use tmuxicate.Session.Routing.{
  Candidate, route_candidates, filter_candidates_by_target_availability,
  unique_route_target_exclusions, rank_candidates, candidate_names, route_suggestions, exclusion_of,
  adaptive_routing_explanation,
}

-- What routing reads from the state directory.
pub record RouteEnv : Type 0 where
  pub targets : TargetEnv
  -- mailbox.CoordinatorStore.ReadRun
  pub read_run : Text → Result CoordinatorRun
  -- loadRunTasks
  pub load_tasks : Text → Result (List ChildTask)
  -- loadTaskReceiptState, of an owner and a message
  pub receipt_state : Text → Text → Result FolderState
  -- readAdaptiveRoutingPreferenceSet, of a coordinator
  pub read_preferences : Text → Result (Option AdaptivePreferenceSet)

-- An owner with the decision, or the rejection that the source returns as an error of its own type.
pub data Selection : Type 0 where
  assigned : AgentConfig → RoutingDecision → Selection
  rejected : RouteRejection → Selection

unfoldable pub resolve_agent_config : List AgentConfig → Text → Result AgentConfig
resolve_agent_config [] target = err (msg "unknown target agent")
resolve_agent_config (a ∷ agents) target =
    let rest = resolve_agent_config agents target in
    if text_eq a.name target || text_eq a.alias target then ok a else rest

-- duplicate_status and matched_task_id
unfoldable pub with_duplicate : Option ChildTask → RoutingDecision → RoutingDecision
with_duplicate none d = record d { duplicate_status = codes "unique" }
with_duplicate (some t) d = record d {
  duplicate_status = codes "fanout";
  matched_task_id = t.task_id;
}

-- `decision.Validate()`, and the result.
unfoldable pub assign : AgentConfig → RoutingDecision → Result Selection
assign owner decision = do
  wrapped "validate routing decision" (validate_decision decision)
  ok (Selection.assigned owner decision)

-- routeChildTaskOverrideSelection
unfoldable pub override_selection :
    RouteEnv
    → ResolvedConfig
    → RouteChildTaskRequest
    → CoordinatorRun
    → List Candidate
    → Option ChildTask
    → Result Selection
unfolding with_duplicate resolve_agent_config assign
override_selection env cfg req run kind_candidates duplicate = do
  owner ← resolve_agent_config cfg.config.agents req.owner_override
  reject_if (not (contains_name run.allowed_owners owner.name))
      (msg "owner override is not an allowed owner for run")
  target ← resolve_execution_target_config cfg owner
  found ← target_availability_for_routing env.targets target
  let names = candidate_names kind_candidates
  let decision = with_duplicate duplicate record {
    status = codes "selected";
    selected_owner = owner.name;
    candidates = if is_nil names then owner.name ∷ [] else names;
    tie_break = codes "owner_override";
    duplicate_status = [];
    matched_task_id = [];
    suggestions = [];
    excluded_targets = [];
    adaptive = none;
  }
  if blocks_routing (found.0)
      then ok (
          Selection.rejected record {
            task_class = req.task_class;
            domains = req.domains;
            allowed_owners = run.allowed_owners;
            eligible_candidates = names;
            suggestions =
                route_suggestions env.targets req.task_class kind_candidates
                  (exclusion_of owner target found ∷ []);
            excluded_targets = exclusion_of owner target found ∷ [];
          })
      else assign owner decision

unfoldable pub find_candidate : Text → Candidate → List Candidate → Candidate
find_candidate name default [] = default
find_candidate name default (c ∷ cs) =
    let rest = find_candidate name default cs in if text_eq c.agent.name name then c else rest

-- The candidate that an applied explanation prefers.
unfoldable pub preferred : Option AdaptiveExplanation → Candidate → List Candidate → Candidate
unfolding find_candidate
preferred none baseline candidates = baseline
preferred (some e) baseline candidates =
    if e.applied then find_candidate e.preferred_owner baseline candidates else baseline

-- The preferences are read when adaptive routing is enabled.
unfoldable pub preferences_for :
    RouteEnv → ResolvedConfig → CoordinatorRun → Result (Option AdaptivePreferenceSet)
preferences_for env cfg run =
    if cfg.config.routing.adaptive.enabled then env.read_preferences run.coordinator else ok none

unfoldable pub ranked_decision :
    Option ChildTask
    → List RouteTargetExclusion
    → List Candidate
    → Option AdaptiveExplanation
    → Candidate
    → RoutingDecision
unfolding with_duplicate
ranked_decision duplicate excluded candidates explanation selected =
    with_duplicate duplicate record {
      status = codes "selected";
      selected_owner = selected.agent.name;
      candidates = candidate_names candidates;
      tie_break = codes "route_priority desc, config_order asc";
      duplicate_status = [];
      matched_task_id = [];
      suggestions = [];
      excluded_targets = excluded;
      adaptive = explanation;
    }

-- selectRoutedOwner after the tests on the override and on an empty list: `first` is the first of
-- the ranked candidates.
unfoldable pub select_ranked :
    RouteEnv
    → ResolvedConfig
    → CoordinatorRun
    → RouteChildTaskRequest
    → Option ChildTask
    → List RouteTargetExclusion
    → Candidate
    → List Candidate
    → Result Selection
unfolding preferences_for preferred ranked_decision assign
select_ranked env cfg run req duplicate excluded first candidates = do
  preferences ← preferences_for env cfg run
  let explanation =
      adaptive_routing_explanation req.task_class req.domains first candidates preferences
  let selected = preferred explanation first candidates
  assign selected.agent (ranked_decision duplicate excluded candidates explanation selected)

-- The part of selectRoutedOwner after the ranking, when there is no override.
unfoldable pub select_from :
    RouteEnv
    → ResolvedConfig
    → CoordinatorRun
    → RouteChildTaskRequest
    → Option ChildTask
    → List RouteTargetExclusion
    → List Candidate
    → List Candidate
    → Result Selection
unfolding select_ranked
select_from env cfg run req duplicate excluded kinds [] = do
  rejection ← wrapped "validate route rejection" (
      validate_rejection record {
        task_class = req.task_class;
        domains = req.domains;
        allowed_owners = run.allowed_owners;
        eligible_candidates = candidate_names kinds;
        suggestions = route_suggestions env.targets req.task_class kinds excluded;
        excluded_targets = excluded;
      })
  ok (Selection.rejected rejection)
select_from env cfg run req duplicate excluded kinds (first ∷ others) =
    select_ranked env cfg run req duplicate excluded first (first ∷ others)

-- selectRoutedOwner after the two filters.
unfoldable pub select_filtered :
    RouteEnv
    → ResolvedConfig
    → CoordinatorRun
    → RouteChildTaskRequest
    → Option ChildTask
    → List Candidate × List RouteTargetExclusion
    → List Candidate × List RouteTargetExclusion
    → Result Selection
unfolding override_selection select_from
select_filtered env cfg run req duplicate kinds domains =
    if is_nil req.owner_override
    then select_from env cfg run req duplicate
        (unique_route_target_exclusions (kinds.1 ++ domains.1)) (rank_candidates (kinds.0))
        (rank_candidates (domains.0))
    else override_selection env cfg req run (rank_candidates (kinds.0)) duplicate

unfoldable pub select_routed_owner :
    RouteEnv
    → ResolvedConfig
    → CoordinatorRun
    → RouteChildTaskRequest
    → Option ChildTask
    → Result Selection
unfolding select_filtered
select_routed_owner env cfg run req duplicate = do
  let candidates = route_candidates cfg run.allowed_owners req.task_class req.domains
  kinds ← filter_candidates_by_target_availability env.targets cfg (candidates.0)
  domains ← filter_candidates_by_target_availability env.targets cfg (candidates.1)
  select_filtered env cfg run req duplicate kinds domains

unfoldable pub contains_class : List TaskClass → TaskClass → Bool
contains_class [] want = false
contains_class (c ∷ cs) want = task_class_eq c want || contains_class cs want

unfoldable pub duplicate_policy_allows_fanout : ResolvedConfig → TaskClass → Bool
unfolding contains_class
duplicate_policy_allows_fanout cfg task_class =
    contains_class cfg.config.routing.fanout_task_classes task_class

unfoldable pub duplicate_policy_blocks : ResolvedConfig → TaskClass → Bool
unfolding duplicate_policy_allows_fanout contains_class
duplicate_policy_blocks cfg task_class =
    if duplicate_policy_allows_fanout cfg task_class
    then false
    else if contains_class cfg.config.routing.exclusive_task_classes task_class
    then true
    else true

-- A task that is done or dead does not count.
unfoldable pub is_closed : FolderState → Bool
is_closed FolderState.done = true
is_closed FolderState.dead = true
is_closed _ = false

unfoldable pub active_duplicate_in :
    (Text → Text → Result FolderState) → Text → List ChildTask → Result (Option ChildTask)
unfolding is_closed
active_duplicate_in receipt_state key [] = ok none
active_duplicate_in receipt_state key (t ∷ tasks) =
    let rest = active_duplicate_in receipt_state key tasks in
    if text_eq t.duplicate_key key
    then (do
      state ← receipt_state t.owner t.message_id
      if is_closed state then rest else ok (some t))
    else rest

unfoldable pub find_active_duplicate_task : RouteEnv → Text → Text → Result (Option ChildTask)
unfolding active_duplicate_in
find_active_duplicate_task env run_id duplicate_key =
    if is_blank duplicate_key then ok none else (do
      tasks ← env.load_tasks run_id
      active_duplicate_in env.receipt_state duplicate_key tasks)

unfoldable pub is_there : Option ChildTask → Bool
is_there none = false
is_there (some t) = true

pub data Preview : Type 0 where
  placed : AgentConfig → TaskPlacement → RoutingDecision → Preview
  rejected : RouteRejection → Preview

unfoldable pub place : RouteEnv → ResolvedConfig → Selection → Result Preview
place env cfg (Selection.rejected r) = ok (Preview.rejected r)
place env cfg (Selection.assigned owner decision) = do
  placement ← select_task_placement env.targets cfg owner
  ok (Preview.placed owner placement decision)

-- PreviewRouteChildTask with a configuration and a request that are there. req.Validate rewrites the
-- domains of the request.
unfoldable pub preview_route_child_task :
    RouteEnv → ResolvedConfig → RouteChildTaskRequest → Result Preview
unfolding is_there place
preview_route_child_task env cfg request = do
  req ← validate_route_request request
  run ← env.read_run req.run_id
  duplicate ←
      find_active_duplicate_task env req.run_id
        (duplicate_key_for_route req.run_id req.task_class req.domains)
  reject_if (is_there duplicate && duplicate_policy_blocks cfg req.task_class)
      (msg "duplicate_key matched_task_id")
  selection ← select_routed_owner env cfg run req duplicate
  place env cfg selection
