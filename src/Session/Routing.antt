-- ===== src/Session/Routing.antt =====
-- Routing a child task to an owner, internal/session/run.go: the candidates, their ranking, the
-- availability of their targets, and the adaptive preferences of internal/session/run_adaptive.go.
pub mod Selection
pub mod Candidates
pub mod Rank
pub mod Owners
pub mod Highest
pub mod Duplicates
pub mod Previews
use tmuxicate.Prelude.{
  ℕ, suc, ltb, Bool, true, false, ◌&&◌, not, List, [], ◌∷◌, ◌++◌, map, all, Option, none, some,
  Result, ok, err, Error, msg, ◌>>=◌, if◌then◌else◌, is_nil, String,
}
use tmuxicate.Prelude.Int.{ℤ, int_lt, int_eq}
use tmuxicate.Prelude.Sorting.{sort}
use tmuxicate.Text.{Text, codes, text_eq}
use tmuxicate.Protocol.Domains.{seen_has, normalize_route_domains}
use tmuxicate.Protocol.Enums.{TaskClass, task_class_text}
use tmuxicate.Protocol.Documents.{
  AdaptiveExplanation, AdaptivePreference, AdaptivePreferenceSet, RouteTargetExclusion,
}
use tmuxicate.Protocol.Validation.{join}
use tmuxicate.Protocol.Validation.Routing.{preference_key}
use tmuxicate.Config.{RoleSpec, AgentConfig, TargetConfig, ResolvedConfig, is_declared}
use tmuxicate.Session.Targets.{
  TargetEnv, TargetAvailability, blocks_routing, availability_text, contains_name,
  resolve_execution_target_config, target_availability_for_routing,
}

-- routeCandidate, with the agent's position in the configuration.
pub record Candidate : Type 0 where
  pub agent : AgentConfig
  pub index : ℕ

covers : Result (List Text) → List Text → Bool
covers (ok available) domains = all (seen_has available) domains
covers (err e) domains = false

unfoldable pub role_covers_domains : RoleSpec → List Text → Bool
unfolding covers
role_covers_domains role domains = covers (normalize_route_domains role.domains) domains

-- The three tests of the loop of routeCandidates.
unfoldable pub is_eligible : List Text → TaskClass → AgentConfig → Bool
is_eligible allowed task_class agent =
    contains_name allowed agent.name
    && is_declared agent.role
    && text_eq agent.role.kind (task_class_text task_class)

unfoldable pub candidates_from :
    List Text → TaskClass → List Text → ℕ → List AgentConfig → List Candidate × List Candidate
unfolding is_eligible role_covers_domains
candidates_from allowed task_class domains i [] = ([], [])
candidates_from allowed task_class domains i (agent ∷ agents) =
    let rest = candidates_from allowed task_class domains (suc i) agents in
    let candidate : Candidate = record { agent = agent; index = i } in
    if is_eligible allowed task_class agent
    then (
      candidate ∷ rest.0,
      if role_covers_domains agent.role domains then candidate ∷ rest.1 else rest.1,
    )
    else rest

unfoldable pub route_candidates :
    ResolvedConfig → List Text → TaskClass → List Text → List Candidate × List Candidate
unfolding candidates_from
route_candidates cfg allowed task_class domains =
    candidates_from allowed task_class domains 0 cfg.config.agents

unfoldable pub candidate_names : List Candidate → List Text
candidate_names candidates = map (λ c. c.agent.name) candidates

-- The comparison of rankCandidates.
unfoldable pub ranks_before : Candidate → Candidate → Bool
ranks_before left right =
    if int_eq left.agent.route_priority right.agent.route_priority
    then ltb left.index right.index
    else int_lt right.agent.route_priority left.agent.route_priority

unfoldable pub rank_candidates : List Candidate → List Candidate
rank_candidates candidates = sort ranks_before candidates

unfoldable pub exclusion_of :
    AgentConfig → TargetConfig → TargetAvailability × Text → RouteTargetExclusion
exclusion_of agent target found = record {
  owner = agent.name;
  target_name = target.name;
  status = availability_text found.0;
  reason = found.1;
}

-- The loop of filterCandidatesByTargetAvailability; `seen` holds the keys of the excluded targets.
unfoldable pub filter_from :
    TargetEnv
    → ResolvedConfig
    → List Text
    → List Candidate
    → Result (List Candidate × List RouteTargetExclusion)
unfolding exclusion_of
filter_from env cfg seen [] = ok ([], [])
filter_from env cfg seen (c ∷ candidates) = do
  target ← resolve_execution_target_config cfg c.agent
  found ← target_availability_for_routing env target
  let key = c.agent.name ++ b'|' ∷ target.name
  let blocked = blocks_routing (found.0)
  rest ←
      filter_from env cfg
        (if blocked then (if seen_has seen key then seen else key ∷ seen) else seen) candidates
  ok (
      if blocked
      then (
        rest.0,
        if seen_has seen key then rest.1 else exclusion_of c.agent target found ∷ rest.1,
      )
      else (c ∷ rest.0, rest.1))

unfoldable pub filter_candidates_by_target_availability :
    TargetEnv
    → ResolvedConfig
    → List Candidate
    → Result (List Candidate × List RouteTargetExclusion)
unfolding filter_from
filter_candidates_by_target_availability env cfg candidates = filter_from env cfg [] candidates

unfoldable pub unique_from : List Text → List RouteTargetExclusion → List RouteTargetExclusion
unfolding seen_has join
unique_from seen [] = []
unique_from seen (e ∷ es) =
    let key = join (codes "|") (e.owner ∷ e.target_name ∷ e.status ∷ e.reason ∷ []) in
    let rest = unique_from (if seen_has seen key then seen else key ∷ seen) es in
    if seen_has seen key then rest else e ∷ rest

unfoldable pub unique_route_target_exclusions :
    List RouteTargetExclusion → List RouteTargetExclusion
unfolding unique_from
unique_route_target_exclusions values = unique_from [] values

restore_suggestion : RouteTargetExclusion → Text
restore_suggestion e =
    codes "Restore target "
    ++ (e.target_name
        ++ (codes " for owner " ++ (e.owner ++ (codes " (" ++ (e.status ++ codes ").")))))

unfoldable pub route_suggestions :
    TargetEnv → TaskClass → List Candidate → List RouteTargetExclusion → List Text
unfolding restore_suggestion
route_suggestions env task_class candidates excluded =
    let restore = map restore_suggestion excluded in
    if is_nil candidates
    then (codes "Choose a different task_class or add an allowed owner with role.kind "
        ++ (env.quote (task_class_text task_class) ++ codes "."))
      ∷ restore
    else codes "Choose domains that are covered by one of the eligible_candidates."
      ∷ codes "Add the missing domain to an allowed owner's role.domains and retry."
      ∷ restore

-- matchAdaptivePreference on a set that is there.
unfoldable pub match_adaptive_preference :
    List AdaptivePreference → Text → Option AdaptivePreference
match_adaptive_preference [] key = none
match_adaptive_preference (p ∷ ps) key =
    let rest = match_adaptive_preference ps key in
    if text_eq p.preference_key key then some p else rest

-- bestCandidate, bestPreference and scoreTie.
pub record Best : Type 0 where
  pub candidate : Candidate
  pub preference : AdaptivePreference
  pub tie : Bool

unfoldable pub better : Candidate → AdaptivePreference → Option Best → Best
better c p none = record { candidate = c; preference = p; tie = false }
better c p (some best) =
    if int_lt best.preference.total_score p.total_score
    then record { candidate = c; preference = p; tie = false }
    else if int_eq p.total_score best.preference.total_score
    then record best { tie = true }
    else best

consider : Candidate → Option AdaptivePreference → Option Best → Option Best
unfolding better
consider c none best = best
consider c (some p) best = some (better c p best)

-- The loop over the candidates.
unfoldable pub best_from :
    AdaptivePreferenceSet → TaskClass → List Text → List Candidate → Option Best → Option Best
unfolding consider
best_from set task_class domains [] best = best
best_from set task_class domains (c ∷ cs) best = best_from set task_class domains cs (
    consider c
      (match_adaptive_preference set.preferences (preference_key task_class domains c.agent.name))
      best)

unfoldable pub explain :
    TaskClass → List Text → Candidate → Option Best → Option AdaptiveExplanation
explain task_class domains baseline none = none
explain task_class domains baseline (some best) =
    if best.tie
    then none
    else if text_eq best.candidate.agent.name baseline.agent.name
    then none
    else some record {
      applied = true;
      baseline_owner = baseline.agent.name;
      preferred_owner = best.candidate.agent.name;
      historical_score = best.preference.historical_score;
      manual_weight = best.preference.manual_weight;
      total_score = best.preference.total_score;
      reason =
          codes "exact preference match on "
          ++ (task_class_text task_class
              ++ b'|'
                ∷ (join (codes ",") domains
                    ++ (codes " favored "
                        ++ (best.candidate.agent.name
                            ++ (codes " over baseline " ++ baseline.agent.name)))));
      evidence = best.preference.evidence;
    }

unfoldable pub adaptive_routing_explanation :
    TaskClass
    → List Text
    → Candidate
    → List Candidate
    → Option AdaptivePreferenceSet
    → Option AdaptiveExplanation
unfolding best_from explain
adaptive_routing_explanation task_class domains baseline candidates none = none
adaptive_routing_explanation task_class domains baseline candidates (some set) =
    explain task_class domains baseline (best_from set task_class domains candidates none)
