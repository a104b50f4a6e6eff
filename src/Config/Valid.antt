-- ===== src/Config/Valid.antt =====
-- What a configuration is like that Config.Validate of internal/config/loader.go has accepted.
pub mod Loops
pub mod Established
use tmuxicate.Prelude.{
  ℕ, suc, ◌≡◌, refl, Bool, true, false, not, List, [], ◌∷◌, map, All, Result, ok, err, is_nil,
  arith, >>=-eq-ok, ok_value, ◌⊎◌, inl, inr, ◌≢◌, All-map, Bool-cases, ap, ◌∙◌, sym, ◌||◌, not,
  reject_if, at, msg,
}
use mathlib.Core.List.{Memᴰ}
use tmuxicate.Prelude.Int.{ℤ, is_neg}
use tmuxicate.Text.{Text, text_eq, text_eq_refl, trim_space_idem, trim_space, is_blank}
use tmuxicate.Protocol.Domains.{seen_has, normalize_route_domains}
use tmuxicate.Protocol.Domains.Loop.{Distinct, seen_has-mem}
use tmuxicate.Protocol.Domains.Canonical.{IsCanonical, normalize-IsCanonical}
use tmuxicate.Protocol.Validation.{each}
use tmuxicate.Protocol.Enums.{check_task_class}
use tmuxicate.Protocol.Validation.Target.{is_valid_execution_target_kind}
use tmuxicate.Config.{Config, AgentConfig, TargetConfig, RoleSpec, ManualPreference}
use tmuxicate.Config.Loader.{
  validate_target, validate_targets, validate_agent, validate_agents, check_names, validate_role,
  is_valid_adapter, task_class_of, target_names, agent_names, validate_manual_preference,
  validate_manual_preferences, check_settings, validate_config, check_teammates,
}

-- A target as it stands after validation.
pub record IsTarget (t : TargetConfig) : Type 0 where
  pub named : is_nil t.name ≡ false
  pub known_kind : is_valid_execution_target_kind t.kind ≡ true

-- An agent as it stands after validation, next to the names of the targets.
pub record IsAgent (targets : List Text) (a : AgentConfig) : Type 0 where
  pub named : is_blank a.name ≡ false
  pub aliased : is_blank a.alias ≡ false
  pub adapter : is_valid_adapter a.adapter ≡ true
  pub command : is_blank a.command ≡ false
  pub kind : check_task_class (task_class_of a.role.kind) ≡ ok tt
  pub domains : IsCanonical a.role.domains × (is_nil a.role.domains ≡ false)
  pub priority : is_neg a.route_priority ≡ false
  pub target : (a.execution_target ≡ []) ⊎ Memᴰ a.execution_target targets
  pub trimmed : trim_space a.execution_target ≡ a.execution_target

-- A manual preference as it stands after validation.
pub record IsPreference (names : List Text) (p : ManualPreference) : Type 0 where
  pub kind : check_task_class p.task_class ≡ ok tt
  pub domains : IsCanonical p.domains × (is_nil p.domains ≡ false)
  pub owner : Memᴰ p.preferred_owner names
  pub weight : is_neg p.weight ≡ false

-- A configuration whose names are distinct and refer to something.
pub record IsValid (c : Config) : Type 0 where
  pub targets : All IsTarget c.execution_targets
  pub agents : All (IsAgent (target_names c.execution_targets)) c.agents
  pub preferences : All (IsPreference (agent_names c.agents)) c.routing.adaptive.manual_preferences
  pub distinct_targets : Distinct (target_names c.execution_targets)
  pub distinct_agents : Distinct (agent_names c.agents)
  pub distinct_aliases : Distinct (map (λ a. a.alias) c.agents)
  pub coordinator : Memᴰ c.routing.coordinator (agent_names c.agents)
  pub teammates : All (λ a. All (λ t. Memᴰ t (agent_names c.agents)) a.teammates) c.agents
