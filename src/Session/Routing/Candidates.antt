-- ===== src/Session/Routing/Candidates.antt =====
-- What the candidates of routeCandidates and of filterCandidatesByTargetAvailability satisfy.
use tmuxicate.Prelude.{
  ok_value, ◌≡◌, refl, subst, suc, ℕ, inl, inr, Bool, true, false, Bool-cases, List, [], ◌∷◌, ok,
  >>=-eq-ok, All, if◌then◌else◌,
}
use tmuxicate.Text.{Text}
use tmuxicate.Protocol.Enums.{TaskClass}
use tmuxicate.Protocol.Documents.{RouteTargetExclusion}
use tmuxicate.Config.{AgentConfig, TargetConfig, ResolvedConfig}
use tmuxicate.Session.Targets.{
  TargetEnv, TargetAvailability, blocks_routing, resolve_execution_target_config,
  target_availability_for_routing,
}
use tmuxicate.Session.Routing.{
  Candidate, is_eligible, role_covers_domains, candidates_from, route_candidates, filter_from,
  filter_candidates_by_target_availability,
}

-- The second list holds eligible agents whose role covers the domains.
abbrev pub Covering : List Text → TaskClass → List Text → Candidate → Type 0
Covering allowed task_class domains c =
    (is_eligible allowed task_class c.agent ≡ true)
    × (role_covers_domains c.agent.role domains ≡ true)

Covering-from :
    (allowed : List Text) (k : TaskClass) (ds : List Text) (i : ℕ) (agents : List AgentConfig)
    → All (Covering allowed k ds) ((candidates_from allowed k ds i agents).1)
unfolding candidates_from
Covering-from allowed k ds i [] = tt
Covering-from allowed k ds i (a ∷ agents) =
    let rest = Covering-from allowed k ds (suc i) agents in
    elim (Bool-cases (is_eligible allowed k a)) [
      | inl e ↦ elim (Bool-cases (role_covers_domains a.role ds)) [
        | inl f ↦ rw e (rw f ((e, f), rest))
        | inr f ↦ rw e (rw f rest)
      ]
      | inr e ↦ rw e rest
    ]

pub route_candidates-Covering :
    (cfg : ResolvedConfig) (allowed : List Text) (k : TaskClass) (ds : List Text)
    → All (Covering allowed k ds) ((route_candidates cfg allowed k ds).1)
unfolding route_candidates
route_candidates-Covering cfg allowed k ds = Covering-from allowed k ds 0 cfg.config.agents

-- The agent's target resolves, its availability is known, and it does not block routing.
pub record Open (env : TargetEnv) (cfg : ResolvedConfig) (agent : AgentConfig) : Type 0 where
  pub target : TargetConfig
  pub resolved : resolve_execution_target_config cfg agent ≡ ok target
  pub found : TargetAvailability × Text
  pub reported : target_availability_for_routing env target ≡ ok found
  pub unblocked : blocks_routing (found.0) ≡ false

abbrev Kept : (Candidate → Type 0) → TargetEnv → ResolvedConfig → Candidate → Type 0
Kept P env cfg c = P c × Open env cfg c.agent

kept_if :
    (Q : Candidate → Type 0) (blocked : Bool) (c : Candidate) (more : List RouteTargetExclusion)
    (rest : List Candidate × List RouteTargetExclusion)
    → (blocked ≡ false → Q c)
    → All Q (rest.0)
    → All Q (
        (if◌then◌else◌ {A = List Candidate × List RouteTargetExclusion} blocked
          (rest.0, more)
          (c ∷ rest.0, rest.1)).0)
kept_if Q true c more rest q h = h
kept_if Q false c more rest q h = (q refl, h)

filter_from-Kept :
    (P : Candidate → Type 0) (env : TargetEnv) (cfg : ResolvedConfig) (cs : List Candidate)
    (seen : List Text) (r : List Candidate × List RouteTargetExclusion)
    → All P cs
    → filter_from env cfg seen cs ≡ ok r
    → All (Kept P env cfg) (r.0)
unfolding filter_from
filter_from-Kept P env cfg [] seen r h eq = subst (λ z. All (Kept P env cfg) (z.0)) (ok_value eq) tt
filter_from-Kept P env cfg (c ∷ cs) seen r h eq =
    let (target, resolved, h1) = >>=-eq-ok (resolve_execution_target_config cfg c.agent) _ eq in
    let (found, reported, h2) = >>=-eq-ok (target_availability_for_routing env target) _ h1 in
    let (rest, more, h3) = >>=-eq-ok (filter_from env cfg _ cs) _ h2 in
    let ih = filter_from-Kept P env cfg cs _ rest h.1 more in
    subst (λ z. All (Kept P env cfg) (z.0)) (ok_value h3)
      (kept_if (Kept P env cfg) (blocks_routing (found.0)) c _ rest
        (λ e. (
          h.0,
          record {
            target = target;
            resolved = resolved;
            found = found;
            reported = reported;
            unblocked = e;
          },
        ))
        ih)

-- The candidates that the filter keeps satisfy what the given ones do, and their targets are open.
pub filter_candidates-Kept :
    (P : Candidate → Type 0) (env : TargetEnv) (cfg : ResolvedConfig) (cs : List Candidate)
    (r : List Candidate × List RouteTargetExclusion)
    → All P cs
    → filter_candidates_by_target_availability env cfg cs ≡ ok r
    → All (λ c. P c × Open env cfg c.agent) (r.0)
unfolding filter_candidates_by_target_availability
filter_candidates-Kept P env cfg cs r h eq = filter_from-Kept P env cfg cs [] r h eq
