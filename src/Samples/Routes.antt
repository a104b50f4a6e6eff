-- ===== src/Samples/Routes.antt =====
-- The theorems on routing at a configuration with three agents, two of them on targets of their own.
use mathlib.Core.List.{Perm}
use tmuxicate.Prelude.{
  ◌⊎◌, ◌≡◌, refl, true, false, List, [], ◌∷◌, none, Result, ok, err, not_exist, All, if◌then◌else◌,
}
use tmuxicate.Prelude.Int.{pos, int_lt}
use tmuxicate.Prelude.Sorting.{sort, insert}
use tmuxicate.Text.{Text, codes, text_eq, text_lt, trim_space, to_lower_rune}
use tmuxicate.Protocol.Ids.{new_run_id, new_task_id}
use tmuxicate.Protocol.Domains.{normalize_route_domains, domain_value, seen_has}
use tmuxicate.Protocol.Enums.{FolderState, TaskClass}
use tmuxicate.Protocol.Documents.{
  CoordinatorRun, RouteChildTaskRequest, RouteTargetExclusion, RoutingDecision, TaskPlacement,
}
use tmuxicate.Protocol.Validation.Routing.{validate_decision, validate_route_request}
use tmuxicate.Protocol.Validation.Run.{duplicate_key_for_route}
use tmuxicate.Config.{ResolvedConfig, AgentConfig}
use tmuxicate.Samples.Settings.{agent_of, target_named, resolved_of}
use tmuxicate.Session.Targets.{TargetAvailability, TargetEnv, TargetState, target_of}
use tmuxicate.Session.Routing.{
  Candidate, ranks_before, rank_candidates, route_candidates,
  filter_candidates_by_target_availability,
}
use tmuxicate.Session.Routing.Rank.{Descends, rank_candidates-Descends}
use tmuxicate.Session.Routing.Selection.{
  RouteEnv, Selection, Preview, select_routed_owner, duplicate_policy_allows_fanout,
  find_active_duplicate_task, preview_route_child_task,
}
use tmuxicate.Session.Routing.Duplicates.{NoneOpen}
use tmuxicate.Session.Routing.Owners.{Routable, select_routed_owner-Routable}
use tmuxicate.Session.Routing.Highest.{select_routed_owner-highest}
use tmuxicate.Session.Routing.Previews.{Allowed, preview_route_child_task-Allowed}

abbrev ann : AgentConfig
ann = agent_of (codes "ann") (pos 1) []

abbrev bob : AgentConfig
bob = agent_of (codes "bob") (pos 5) (codes "gpu")

abbrev eve : AgentConfig
eve = agent_of (codes "eve") (pos 9) (codes "old")

abbrev config : ResolvedConfig
config =
    resolved_of (ann ∷ bob ∷ eve ∷ [])
      (target_named (codes "gpu") ∷ target_named (codes "old") ∷ [])

abbrev state_of : TargetAvailability → TargetState
state_of a = record {
  availability = a;
  summary = codes "reported";
  last_heartbeat_at = [];
  disabled_reason = [];
}

-- The target "old" is offline; the local one has no file.
abbrev read_state : Text → Result TargetState
read_state name =
    if text_eq name (codes "gpu")
    then ok (state_of TargetAvailability.ready)
    else if text_eq name (codes "old")
    then ok (state_of TargetAvailability.offline)
    else err not_exist

abbrev run : CoordinatorRun
run = record {
  run_id = new_run_id (pos 1);
  goal = codes "goal";
  coordinator = codes "lead";
  created_by = codes "lead";
  created_at = 5;
  root_message_id = codes "msg";
  root_thread_id = codes "thr";
  allowed_owners = codes "ann" ∷ codes "bob" ∷ codes "eve" ∷ [];
  team_snapshot = [];
}

abbrev env : RouteEnv
env = record {
  targets = record {
    read_state = read_state;
    now = 100;
    parse_time = λ t. none;
    show_duration = λ d. [];
    quote = λ t. t;
  };
  read_run = λ id. ok run;
  load_tasks = λ id. ok [];
  receipt_state = λ owner id. ok FolderState.unread;
  read_preferences = λ c. ok none;
}

abbrev request : RouteChildTaskRequest
request = record {
  run_id = new_run_id (pos 1);
  task_class = TaskClass.implementation;
  domains = codes "api" ∷ [];
  goal = codes "goal";
  expected_output = codes "output";
  review_required = false;
  owner_override = [];
  override_reason = [];
}

abbrev decision : RoutingDecision
decision = record {
  status = codes "selected";
  selected_owner = codes "bob";
  candidates = codes "bob" ∷ codes "ann" ∷ [];
  tie_break = codes "route_priority desc, config_order asc";
  duplicate_status = codes "unique";
  matched_task_id = [];
  suggestions = [];
  excluded_targets =
      record {
        owner = codes "eve";
        target_name = codes "old";
        status = codes "offline";
        reason = codes "reported";
      }
      ∷ [];
  adaptive = none;
}

bob-selected :
    select_routed_owner env config run request none ≡ ok (Selection.assigned bob decision)
unfolding select_routed_owner preview_route_child_task filter_candidates_by_target_availability
    route_candidates text_eq trim_space validate_route_request
    tmuxicate.Protocol.Ids.is_generated_run_id tmuxicate.Text.cut_prefix new_run_id
    tmuxicate.Text.byte_len tmuxicate.Text.Decimal.padded tmuxicate.Text.is_digit
    normalize_route_domains to_lower_rune sort find_active_duplicate_task duplicate_key_for_route
    tmuxicate.Session.Targets.contains_name
    tmuxicate.Session.Targets.resolve_execution_target_config
    tmuxicate.Session.Targets.target_availability_for_routing rank_candidates ranks_before insert
    domain_value seen_has validate_decision text_lt
    tmuxicate.Session.Routing.adaptive_routing_explanation tmuxicate.Session.Routing.candidate_names
    tmuxicate.Session.Routing.is_eligible tmuxicate.Session.Routing.role_covers_domains
    tmuxicate.Session.Targets.select_task_placement
    tmuxicate.Session.Routing.unique_route_target_exclusions
    tmuxicate.Protocol.Validation.Routing.validate_exclusion tmuxicate.Session.Targets.find_target
bob-selected = refl

abbrev open_candidates : List Candidate × List RouteTargetExclusion
open_candidates = (
  record { agent = ann; index = 0 } ∷ record { agent = bob; index = 1 } ∷ [],
  decision.excluded_targets,
)

bob-open :
    filter_candidates_by_target_availability env.targets config
      ((route_candidates config run.allowed_owners request.task_class request.domains).1)
    ≡ ok open_candidates
unfolding select_routed_owner preview_route_child_task filter_candidates_by_target_availability
    route_candidates text_eq trim_space validate_route_request
    tmuxicate.Protocol.Ids.is_generated_run_id tmuxicate.Text.cut_prefix new_run_id
    tmuxicate.Text.byte_len tmuxicate.Text.Decimal.padded tmuxicate.Text.is_digit
    normalize_route_domains to_lower_rune sort find_active_duplicate_task duplicate_key_for_route
    tmuxicate.Session.Targets.contains_name
    tmuxicate.Session.Targets.resolve_execution_target_config
    tmuxicate.Session.Targets.target_availability_for_routing rank_candidates ranks_before insert
    domain_value seen_has validate_decision text_lt
    tmuxicate.Session.Routing.adaptive_routing_explanation tmuxicate.Session.Routing.candidate_names
    tmuxicate.Session.Routing.is_eligible tmuxicate.Session.Routing.role_covers_domains
    tmuxicate.Session.Targets.select_task_placement
    tmuxicate.Session.Routing.unique_route_target_exclusions
    tmuxicate.Protocol.Validation.Routing.validate_exclusion tmuxicate.Session.Targets.find_target
bob-open = refl

select_routed_owner-Routable_example :
    Routable env config run request bob × (decision.selected_owner ≡ bob.name)
select_routed_owner-Routable_example =
    select_routed_owner-Routable env config run request none bob decision refl bob-selected

select_routed_owner-highest_example :
    All (λ c. int_lt bob.route_priority c.agent.route_priority ≡ false) (open_candidates.0)
select_routed_owner-highest_example =
    select_routed_owner-highest env config run request none bob decision open_candidates refl refl
      bob-open bob-selected

rank_candidates-Descends_example :
    Perm (rank_candidates (open_candidates.0)) (open_candidates.0)
    × Descends (rank_candidates (open_candidates.0))
rank_candidates-Descends_example = rank_candidates-Descends (open_candidates.0)

abbrev placement : TaskPlacement
placement = record {
  target = target_of (target_named (codes "gpu"));
  reason = codes "owner bob is bound to execution target gpu";
}

bob-placed :
    preview_route_child_task env config request ≡ ok (Preview.placed bob placement decision)
unfolding select_routed_owner preview_route_child_task filter_candidates_by_target_availability
    route_candidates text_eq trim_space validate_route_request
    tmuxicate.Protocol.Ids.is_generated_run_id tmuxicate.Text.cut_prefix new_run_id
    tmuxicate.Text.byte_len tmuxicate.Text.Decimal.padded tmuxicate.Text.is_digit
    normalize_route_domains to_lower_rune sort find_active_duplicate_task duplicate_key_for_route
    tmuxicate.Session.Targets.contains_name
    tmuxicate.Session.Targets.resolve_execution_target_config
    tmuxicate.Session.Targets.target_availability_for_routing rank_candidates ranks_before insert
    domain_value seen_has validate_decision text_lt
    tmuxicate.Session.Routing.adaptive_routing_explanation tmuxicate.Session.Routing.candidate_names
    tmuxicate.Session.Routing.is_eligible tmuxicate.Session.Routing.role_covers_domains
    tmuxicate.Session.Targets.select_task_placement
    tmuxicate.Session.Routing.unique_route_target_exclusions
    tmuxicate.Protocol.Validation.Routing.validate_exclusion tmuxicate.Session.Targets.find_target
bob-placed = refl

preview_route_child_task-Allowed_example :
    (req : RouteChildTaskRequest) × (run : CoordinatorRun) × (validate_route_request request
      ≡ ok req)
    × (env.read_run req.run_id ≡ ok run)
    × Allowed env config run bob
    × ((duplicate_policy_allows_fanout config req.task_class ≡ true)
        ⊎ NoneOpen env req.run_id (duplicate_key_for_route req.run_id req.task_class req.domains))
preview_route_child_task-Allowed_example =
    preview_route_child_task-Allowed env config request bob placement decision bob-placed
