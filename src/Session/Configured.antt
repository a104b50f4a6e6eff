-- ===== src/Session/Configured.antt =====
-- What internal/session gets from a configuration that Config.Validate has accepted.
use mathlib.Core.List.{Memᴰ}
use tmuxicate.Prelude.{
  ◌≡◌, refl, true, List, [], ◌∷◌, ok, is_ok, arith, ◌⊎◌, inl, inr, ap, ◌∙◌, sym, some, All-mem,
  Bool-cases, All-map, is_ok-map, All,
}
use tmuxicate.Text.{Text, text_eq, text_eq→, text_eq_refl, trim_space}
use tmuxicate.Config.{ResolvedConfig, AgentConfig, TargetConfig}
use tmuxicate.Config.Loader.{target_names, agent_names}
use tmuxicate.Config.Valid.{IsValid, IsAgent}
use tmuxicate.Session.Targets.{
  resolve_execution_target, resolve_execution_target_config, find_target, select_task_placement,
  TargetEnv,
}
use tmuxicate.Session.Routing.Selection.{resolve_agent_config}

-- A target with the name is found.
find_target-mem :
    (name : Text) (ts : List TargetConfig)
    → Memᴰ name (target_names ts)
    → (t : TargetConfig) × (find_target name ts ≡ some t) × (t.name ≡ name)
unfolding find_target
find_target-mem name [] m = elim m [ ]
find_target-mem name (t ∷ ts) (Memᴰ.head e) = (t, rw (sym e) (rw (text_eq_refl name) refl), sym e)
find_target-mem name (t ∷ ts) (Memᴰ.tail m) =
    let (u, found, same) = find_target-mem name ts m in
    elim (Bool-cases (text_eq t.name name)) [
      | inl e ↦ (t, rw e refl, text_eq→ t.name name e)
      | inr e ↦ (u, rw e found, same)
    ]

resolve_execution_target-known :
    (cfg : ResolvedConfig) (agent : AgentConfig)
    → (agent.execution_target ≡ [])
      ⊎ Memᴰ agent.execution_target (target_names cfg.config.execution_targets)
    → trim_space agent.execution_target ≡ agent.execution_target
    → (is_ok (resolve_execution_target cfg agent) ≡ true)
      × (is_ok (resolve_execution_target_config cfg agent) ≡ true)
unfolding resolve_execution_target resolve_execution_target_config text_eq
resolve_execution_target-known cfg agent (inl e) trimmed = rw (trimmed, e) (refl, refl)
resolve_execution_target-known cfg agent (inr m) trimmed =
    let (t, found, same) = find_target-mem agent.execution_target cfg.config.execution_targets m in
    let again = ap (λ n. find_target n cfg.config.execution_targets) same ∙ found in
    rw trimmed (ground (arith, found, again))

-- Every agent of a validated configuration has an execution target, so that placing a task on the
-- agent and reading the configuration of the target succeed.
pub placement-is_ok :
    (env : TargetEnv) (cfg : ResolvedConfig) (agent : AgentConfig)
    → IsValid cfg.config
    → Memᴰ agent cfg.config.agents
    → (is_ok (select_task_placement env cfg agent) ≡ true)
      × (is_ok (resolve_execution_target_config cfg agent) ≡ true)
unfolding select_task_placement
placement-is_ok env cfg agent valid m =
    let good =
      All-mem (IsAgent (target_names cfg.config.execution_targets)) cfg.config.agents valid.agents
        m in
    let (target, config) = resolve_execution_target-known cfg agent good.target good.trimmed in
    (is_ok-map (resolve_execution_target cfg agent) _ ∙ target, config)

-- resolveAgentConfig finds an agent with the name or with it for its alias.
abbrev pub Resolves : List AgentConfig → Text → Type 0
Resolves agents name =
    (a : AgentConfig) × (resolve_agent_config agents name ≡ ok a)
    × Memᴰ a agents
    × ((a.name ≡ name) ⊎ (a.alias ≡ name))

resolve_agent_config-mem :
    (agents : List AgentConfig) (name : Text)
    → Memᴰ name (agent_names agents)
    → Resolves agents name
unfolding resolve_agent_config
resolve_agent_config-mem [] name m = elim m [ ]
resolve_agent_config-mem (a ∷ agents) name (Memᴰ.head q) =
    (a, rw (ap (text_eq a.name) q ∙ text_eq_refl a.name) refl, Memᴰ.head refl, inl (sym q))
resolve_agent_config-mem (a ∷ agents) name (Memᴰ.tail m) = elim (Bool-cases (text_eq a.name name)) [
  | inl e ↦ (a, rw e refl, Memᴰ.head refl, inl (text_eq→ a.name name e))
  | inr e ↦ elim (Bool-cases (text_eq a.alias name)) [
    | inl f ↦ (a, rw (e, f) refl, Memᴰ.head refl, inr (text_eq→ a.alias name f))
    | inr f ↦
        let (b, found, there, how) = resolve_agent_config-mem agents name m in
        (b, rw (e, f) found, Memᴰ.tail there, how)
  ]
]

-- In a validated configuration the coordinator and every teammate of every agent resolve to an agent
-- of the configuration that has the name, or has it for its alias.
pub teammate-Resolves :
    (cfg : ResolvedConfig)
    → IsValid cfg.config
    → Resolves cfg.config.agents cfg.config.routing.coordinator
      × All (λ a. All (Resolves cfg.config.agents) a.teammates) cfg.config.agents
teammate-Resolves cfg valid =
    let agents = cfg.config.agents in
    (
      resolve_agent_config-mem agents cfg.config.routing.coordinator valid.coordinator,
      All-map (λ a known. All-map (λ t m. resolve_agent_config-mem agents t m) a.teammates known)
          agents valid.teammates,
    )
