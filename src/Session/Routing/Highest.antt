-- ===== src/Session/Routing/Highest.antt =====
-- The priority of the owner that selectRoutedOwner of internal/session/run.go selects.
use tmuxicate.Prelude.{
  ok_value, ◌≡◌, sym, ◌∙◌, subst, true, false, List, [], ◌∷◌, ◌++◌, Option, none, ok, >>=-eq-ok,
  is_nil, All, All-mem, All-map, All-of_mem, arith,
}
use tmuxicate.Prelude.Int.{int_lt}
use tmuxicate.Prelude.Sorting.{sort, IsSorted, mem-sort←}
use tmuxicate.Protocol.Documents.{
  ChildTask, CoordinatorRun, RouteChildTaskRequest, RouteTargetExclusion, RoutingDecision,
}
use tmuxicate.Config.{AgentConfig, ResolvedConfig}
use tmuxicate.Session.Routing.{
  Candidate, unique_route_target_exclusions, adaptive_routing_explanation, ranks_before,
  rank_candidates, route_candidates, filter_candidates_by_target_availability,
}
use tmuxicate.Session.Routing.Rank.{rank_candidates-IsSorted}
use tmuxicate.Session.Routing.Selection.{
  RouteEnv, Selection, preferred, preferences_for, ranked_decision, select_ranked, select_from,
  override_selection, select_filtered, select_routed_owner,
}
use tmuxicate.Session.Routing.Owners.{assign-value, if_true}

-- Without adaptive routing the first of the ranked candidates is selected.
select_ranked-first :
    (env : RouteEnv) (cfg : ResolvedConfig) (run : CoordinatorRun) (req : RouteChildTaskRequest)
    (dup : Option ChildTask) (excluded : List RouteTargetExclusion) (first : Candidate)
    (cs : List Candidate) (owner : AgentConfig) (d : RoutingDecision)
    → cfg.config.routing.adaptive.enabled ≡ false
    → select_ranked env cfg run req dup excluded first cs ≡ ok (Selection.assigned owner d)
    → first.agent ≡ owner
unfolding select_ranked preferences_for adaptive_routing_explanation preferred
select_ranked-first env cfg run req dup excluded first cs owner d fixed eq =
    (assign-value first.agent (ranked_decision dup excluded cs none first) (rw fixed at eq)).0

abbrev NotAbove : AgentConfig → Candidate → Type 0
NotAbove owner c = int_lt owner.route_priority c.agent.route_priority ≡ false

not_above : (x y : Candidate) → ranks_before y x ≡ false → NotAbove x.agent y
unfolding ranks_before
not_above x y h = ground arith

int_lt_irrefl : (c : Candidate) → NotAbove c.agent c
int_lt_irrefl c = ground arith

select_from-highest :
    (env : RouteEnv) (cfg : ResolvedConfig) (run : CoordinatorRun) (req : RouteChildTaskRequest)
    (dup : Option ChildTask) (excluded : List RouteTargetExclusion) (kinds cs : List Candidate)
    (owner : AgentConfig) (d : RoutingDecision)
    → cfg.config.routing.adaptive.enabled ≡ false
    → IsSorted ranks_before cs
    → select_from env cfg run req dup excluded kinds cs ≡ ok (Selection.assigned owner d)
    → All (NotAbove owner) cs
unfolding select_from
select_from-highest env cfg run req dup excluded kinds [] owner d fixed h eq = tt
select_from-highest env cfg run req dup excluded kinds (first ∷ others) owner d fixed h eq =
    subst (λ a. All (NotAbove a) (first ∷ others))
      (select_ranked-first env cfg run req dup excluded first (first ∷ others) owner d fixed eq)
      (int_lt_irrefl first, All-map (not_above first) others h.0)

unranked : (P : Candidate → Type 0) (cs : List Candidate) → All P (rank_candidates cs) → All P cs
unfolding rank_candidates
unranked P cs h =
    All-of_mem cs λ c m. All-mem P (sort ranks_before cs) h (mem-sort← ranks_before cs m)

select_filtered-highest :
    (env : RouteEnv) (cfg : ResolvedConfig) (run : CoordinatorRun) (req : RouteChildTaskRequest)
    (dup : Option ChildTask) (kinds domains : List Candidate × List RouteTargetExclusion)
    (owner : AgentConfig) (d : RoutingDecision)
    → is_nil req.owner_override ≡ true
    → cfg.config.routing.adaptive.enabled ≡ false
    → select_filtered env cfg run req dup kinds domains ≡ ok (Selection.assigned owner d)
    → All (NotAbove owner) (domains.0)
unfolding select_filtered
select_filtered-highest env cfg run req dup kinds domains owner d no_override fixed eq =
    unranked (NotAbove owner) (domains.0) (
      select_from-highest env cfg run req dup
        (unique_route_target_exclusions (kinds.1 ++ domains.1)) (rank_candidates (kinds.0))
        (rank_candidates (domains.0)) owner d fixed (rank_candidates-IsSorted (domains.0))
        (if_true (is_nil req.owner_override) _
          (override_selection env cfg req run (rank_candidates (kinds.0)) dup) no_override eq))

-- Without an override and without adaptive routing, no candidate whose target is open and whose role
-- covers the domains has a higher route_priority than the owner that is selected.
pub select_routed_owner-highest :
    (env : RouteEnv) (cfg : ResolvedConfig) (run : CoordinatorRun) (req : RouteChildTaskRequest)
    (dup : Option ChildTask) (owner : AgentConfig) (d : RoutingDecision)
    (open_candidates : List Candidate × List RouteTargetExclusion)
    → is_nil req.owner_override ≡ true
    → cfg.config.routing.adaptive.enabled ≡ false
    → filter_candidates_by_target_availability env.targets cfg
        ((route_candidates cfg run.allowed_owners req.task_class req.domains).1)
      ≡ ok open_candidates
    → select_routed_owner env cfg run req dup ≡ ok (Selection.assigned owner d)
    → All (λ c. int_lt owner.route_priority c.agent.route_priority ≡ false) (open_candidates.0)
unfolding select_routed_owner
select_routed_owner-highest env cfg run req dup owner d open_candidates no_override fixed f eq =
    let found = route_candidates cfg run.allowed_owners req.task_class req.domains in
    let (kinds, k, h1) =
      >>=-eq-ok (filter_candidates_by_target_availability env.targets cfg (found.0)) _ eq in
    let (domains, f', h2) =
      >>=-eq-ok (filter_candidates_by_target_availability env.targets cfg (found.1)) _ h1 in
    let same = ok_value (sym f' ∙ f) in
    subst (λ z. All (λ c. int_lt owner.route_priority c.agent.route_priority ≡ false) (z.0)) same
      (select_filtered-highest env cfg run req dup kinds domains owner d no_override fixed h2)
