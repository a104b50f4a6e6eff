-- ===== src/Session/Routing/Owners.antt =====
-- The owner that selectRoutedOwner of internal/session/run.go selects.
use tmuxicate.Prelude.{
  ◌≡◌, ◌≢◌, refl, sym, ap, ◌∙◌, subst, Bool, true, false, Bool-cases, List, [], ◌∷◌, ◌++◌, Option,
  none, some, Result, ok, err, ◌>>=◌, >>=-eq-ok, wrapped, is_nil, All, if◌then◌else◌, inl, inr,
}
use tmuxicate.Prelude.Sorting.{sort-All}
use tmuxicate.Text.{Text, text_eq}
use tmuxicate.Protocol.Documents.{
  AdaptiveExplanation, ChildTask, CoordinatorRun, RouteChildTaskRequest, RouteTargetExclusion,
  RouteRejection, RoutingDecision,
}
use tmuxicate.Config.{AgentConfig, ResolvedConfig}
use tmuxicate.Protocol.Validation.Routing.{validate_decision}
use tmuxicate.Session.Routing.{
  Candidate, unique_route_target_exclusions, adaptive_routing_explanation, is_eligible,
  role_covers_domains, ranks_before, rank_candidates, route_candidates,
  filter_candidates_by_target_availability,
}
use tmuxicate.Session.Routing.Candidates.{
  Covering, Open, route_candidates-Covering, filter_candidates-Kept,
}
use tmuxicate.Session.Routing.Selection.{
  RouteEnv, Selection, find_candidate, preferred, preferences_for, with_duplicate, assign,
  ranked_decision, select_ranked, select_from, override_selection, select_filtered,
  select_routed_owner,
}

assigned_value :
    {a b : AgentConfig} {d e : RoutingDecision}
    → ok (Selection.assigned a d) ≡ ok (Selection.assigned b e)
    → (a ≡ b) × (d ≡ e)
assigned_value h = (cc, cc)

module _ (P : Candidate → Type 0) where
  find_candidate-All :
      (name : Text) (default : Candidate) (cs : List Candidate)
      → P default
      → All P cs
      → P (find_candidate name default cs)
  unfolding find_candidate
  find_candidate-All name default [] p h = p
  find_candidate-All name default (c ∷ cs) p h = elim (Bool-cases (text_eq c.agent.name name)) [
    | inl e ↦ rw e (h.0)
    | inr e ↦ rw e (find_candidate-All name default cs p h.1)
  ]

  preferred-All :
      (e : Option AdaptiveExplanation) (baseline : Candidate) (cs : List Candidate)
      → P baseline
      → All P cs
      → P (preferred e baseline cs)
  unfolding preferred
  preferred-All none baseline cs p h = p
  preferred-All (some e) baseline cs p h = elim (Bool-cases e.applied) [
    | inl q ↦ rw q (find_candidate-All e.preferred_owner baseline cs p h)
    | inr q ↦ rw q p
  ]

-- What the selection says of the owner, from a property of the candidates.
record Selected (P : Candidate → Type 0) (owner : AgentConfig) (d : RoutingDecision) : Type 0 where
  candidate : Candidate
  holds : P candidate
  agent : candidate.agent ≡ owner
  named : d.selected_owner ≡ owner.name

ranked_decision-owner :
    (t : Option ChildTask) (excluded : List RouteTargetExclusion) (cs : List Candidate)
    (e : Option AdaptiveExplanation) (c : Candidate)
    → (ranked_decision t excluded cs e c).selected_owner ≡ c.agent.name
unfolding ranked_decision with_duplicate
ranked_decision-owner none excluded cs e c = refl
ranked_decision-owner (some t) excluded cs e c = refl

pub assign-value :
    (a : AgentConfig) (d : RoutingDecision) {b : AgentConfig} {e : RoutingDecision}
    → assign a d ≡ ok (Selection.assigned b e)
    → (a ≡ b) × (d ≡ e)
unfolding assign
assign-value a d h =
    let (u, valid, same) =
      >>=-eq-ok (wrapped "validate routing decision" (validate_decision d)) _ h in
    assigned_value same

not_assigned :
    (m : Result RouteRejection) {a : AgentConfig} {d : RoutingDecision}
    → (m >>= λ r. ok (Selection.rejected r)) ≢ ok (Selection.assigned a d)
not_assigned (ok r) h = cc
not_assigned (err e) h = cc

pub if_true {ℓ} :
    {A : Type ℓ} (b : Bool) (x y : A) {z : A} → b ≡ true → (if b then x else y) ≡ z → x ≡ z
if_true true x y e h = h
if_true false x y e h = cc

select_ranked-Selected :
    (P : Candidate → Type 0) (env : RouteEnv) (cfg : ResolvedConfig) (run : CoordinatorRun)
    (req : RouteChildTaskRequest) (dup : Option ChildTask) (excluded : List RouteTargetExclusion)
    (first : Candidate) (cs : List Candidate) (owner : AgentConfig) (d : RoutingDecision)
    → P first
    → All P cs
    → select_ranked env cfg run req dup excluded first cs ≡ ok (Selection.assigned owner d)
    → Selected P owner d
unfolding select_ranked
select_ranked-Selected P env cfg run req dup excluded first cs owner d p h eq =
    let (set, read, h1) = >>=-eq-ok (preferences_for env cfg run) _ eq in
    let e = adaptive_routing_explanation req.task_class req.domains first cs set in
    let selected = preferred e first cs in
    let (same, decided) =
      assign-value selected.agent (ranked_decision dup excluded cs e selected) h1 in
    record {
      candidate = selected;
      holds = preferred-All P e first cs p h;
      agent = same;
      named =
          sym (ap (λ z. z.selected_owner) decided)
          ∙ ranked_decision-owner dup excluded cs e selected
          ∙ ap (λ z. z.name) same;
    }

select_from-Selected :
    (P : Candidate → Type 0) (env : RouteEnv) (cfg : ResolvedConfig) (run : CoordinatorRun)
    (req : RouteChildTaskRequest) (dup : Option ChildTask) (excluded : List RouteTargetExclusion)
    (kinds cs : List Candidate) (owner : AgentConfig) (d : RoutingDecision)
    → All P cs
    → select_from env cfg run req dup excluded kinds cs ≡ ok (Selection.assigned owner d)
    → Selected P owner d
unfolding select_from
select_from-Selected P env cfg run req dup excluded kinds [] owner d h eq =
    absurd (not_assigned _ eq)
select_from-Selected P env cfg run req dup excluded kinds (first ∷ others) owner d h eq =
    select_ranked-Selected P env cfg run req dup excluded first (first ∷ others) owner d h.0 h eq

rank-All : (P : Candidate → Type 0) (cs : List Candidate) → All P cs → All P (rank_candidates cs)
unfolding rank_candidates
rank-All P cs h = sort-All ranks_before P cs h

select_filtered-Selected :
    (P : Candidate → Type 0) (env : RouteEnv) (cfg : ResolvedConfig) (run : CoordinatorRun)
    (req : RouteChildTaskRequest) (dup : Option ChildTask)
    (kinds domains : List Candidate × List RouteTargetExclusion) (owner : AgentConfig)
    (d : RoutingDecision)
    → is_nil req.owner_override ≡ true
    → All P (domains.0)
    → select_filtered env cfg run req dup kinds domains ≡ ok (Selection.assigned owner d)
    → Selected P owner d
unfolding select_filtered
select_filtered-Selected P env cfg run req dup kinds domains owner d no_override h eq =
    select_from-Selected P env cfg run req dup
      (unique_route_target_exclusions (kinds.1 ++ domains.1)) (rank_candidates (kinds.0))
      (rank_candidates (domains.0)) owner d (rank-All P (domains.0) h)
      (if_true (is_nil req.owner_override) _
        (override_selection env cfg req run (rank_candidates (kinds.0)) dup) no_override eq)

-- What routing guarantees of the owner of a task.
pub record Routable (env : RouteEnv) (cfg : ResolvedConfig) (run : CoordinatorRun)
    (req : RouteChildTaskRequest) (owner : AgentConfig) : Type 0 where
  pub eligible : is_eligible run.allowed_owners req.task_class owner ≡ true
  pub covers : role_covers_domains owner.role req.domains ≡ true
  pub target : Open env.targets cfg owner

abbrev Good :
    RouteEnv → ResolvedConfig → CoordinatorRun → RouteChildTaskRequest → Candidate → Type 0
Good env cfg run req c =
    Covering run.allowed_owners req.task_class req.domains c × Open env.targets cfg c.agent

-- Without an override, an owner that is selected is an allowed owner whose declared role has the
-- task's class as its kind, whose role covers the task's domains, and whose execution target is
-- known and does not block routing; the decision names this owner. An adaptive preference cannot
-- lead to any other.
pub select_routed_owner-Routable :
    (env : RouteEnv) (cfg : ResolvedConfig) (run : CoordinatorRun) (req : RouteChildTaskRequest)
    (dup : Option ChildTask) (owner : AgentConfig) (d : RoutingDecision)
    → is_nil req.owner_override ≡ true
    → select_routed_owner env cfg run req dup ≡ ok (Selection.assigned owner d)
    → Routable env cfg run req owner × (d.selected_owner ≡ owner.name)
unfolding select_routed_owner
select_routed_owner-Routable env cfg run req dup owner d no_override eq =
    let found = route_candidates cfg run.allowed_owners req.task_class req.domains in
    let (kinds, k, h1) =
      >>=-eq-ok (filter_candidates_by_target_availability env.targets cfg (found.0)) _ eq in
    let (domains, f, h2) =
      >>=-eq-ok (filter_candidates_by_target_availability env.targets cfg (found.1)) _ h1 in
    let kept =
      filter_candidates-Kept (Covering run.allowed_owners req.task_class req.domains) env.targets
        cfg (found.1) domains
        (route_candidates-Covering cfg run.allowed_owners req.task_class req.domains) f in
    let s =
      select_filtered-Selected (Good env cfg run req) env cfg run req dup kinds domains owner d
        no_override kept h2 in
    (
      subst (Routable env cfg run req) s.agent
          record { eligible = (s.holds).0.0; covers = (s.holds).0.1; target = (s.holds).1 },
      s.named,
    )
