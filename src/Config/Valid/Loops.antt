-- ===== src/Config/Valid/Loops.antt =====
-- What the loops of Config.Validate establish.
use tmuxicate.Prelude.{
  ℕ, suc, ◌≡◌, refl, true, false, List, [], ◌∷◌, map, All, Result, ok, is_nil, arith, >>=-eq-ok,
  ok_value, inl, inr, ◌≢◌, Bool-cases, sym, ◌||◌,
}
use mathlib.Core.List.{Memᴰ}
use tmuxicate.Prelude.Int.{is_neg}
use tmuxicate.Text.{Text, text_eq_refl, trim_space_idem, trim_space, is_blank}
use tmuxicate.Protocol.Domains.{seen_has, normalize_route_domains}
use tmuxicate.Protocol.Domains.Loop.{Distinct, seen_has-mem}
use tmuxicate.Protocol.Domains.Canonical.{normalize-IsCanonical}
use tmuxicate.Protocol.Validation.{each}
use tmuxicate.Protocol.Enums.{check_task_class}
use tmuxicate.Config.{AgentConfig, TargetConfig, RoleSpec, ManualPreference}
use tmuxicate.Config.Loader.{
  validate_target, validate_targets, validate_agent, validate_agents, check_names, validate_role,
  is_valid_adapter, task_class_of, target_names, agent_names, validate_manual_preference,
  validate_manual_preferences, check_teammates,
}
use tmuxicate.Config.Valid.{IsTarget, IsAgent, IsPreference}

validate_target-ok :
    (i : ℕ) (known : List Text) (t : TargetConfig) {t' : TargetConfig}
    → validate_target i known t ≡ ok t'
    → IsTarget t' × (seen_has known t'.name ≡ false)
unfolding validate_target
validate_target-ok i known t h = ground arith

-- Names that are not among the seen ones and `x` differ from `x`.
fresh_of :
    (x : Text) (known ns : List Text)
    → All (λ n. seen_has (x ∷ known) n ≡ false) ns
    → All (λ n. x ≢ n) ns × All (λ n. seen_has known n ≡ false) ns
unfolding seen_has
fresh_of x known [] h = (tt, tt)
fresh_of x known (n ∷ ns) h =
    let (apart, old) = fresh_of x known ns h.1 in
    ((λ e. ground (arith, text_eq_refl n, h.0, e), apart), (ground (arith, h.0), old))

-- The names of a list are distinct and none of them is among the seen ones.
abbrev AreFresh : List Text → List Text → Type 0
AreFresh known ns = Distinct ns × All (λ n. seen_has known n ≡ false) ns

AreFresh-cons :
    (x : Text) (known ns : List Text)
    → seen_has known x ≡ false
    → AreFresh (x ∷ known) ns
    → AreFresh known (x ∷ ns)
AreFresh-cons x known ns new h =
    let (apart, old) = fresh_of x known ns h.1 in ((apart, h.0), (new, old))

pub validate_targets-ok :
    (i : ℕ) (known : List Text) (ts : List TargetConfig) {ts' : List TargetConfig}
    → validate_targets i known ts ≡ ok ts'
    → All IsTarget ts' × AreFresh known (target_names ts')
unfolding validate_targets
validate_targets-ok i known [] h = rw (sym (ok_value h)) (tt, (tt, tt))
validate_targets-ok i known (t ∷ ts) h =
    let (t', one, more) = >>=-eq-ok (validate_target i known t) _ h in
    let (rest, others, done) = >>=-eq-ok (validate_targets (suc i) (t'.name ∷ known) ts) _ more in
    let (good, new) = validate_target-ok i known t one in
    let (all_good, fresh) = validate_targets-ok (suc i) (t'.name ∷ known) ts others in
    rw (sym (ok_value done))
      ((good, all_good), AreFresh-cons t'.name known (target_names rest) new fresh)

validate_role-ok :
    (i : ℕ) (r : RoleSpec) {r' : RoleSpec}
    → validate_role i r ≡ ok r'
    → (check_task_class (task_class_of r'.kind) ≡ ok tt)
      × (normalize_route_domains r.domains ≡ ok r'.domains)
      × (is_nil r'.domains ≡ false)
unfolding validate_role
validate_role-ok i r h = ground arith

nil_of : (t : Text) → is_nil t ≡ true → t ≡ []
nil_of [] h = refl
nil_of (x ∷ t) h = cc

-- Where the facts on a validated agent come from.
validate_agent-facts :
    (i : ℕ) (targets names aliases : List Text) (a : AgentConfig) {a' : AgentConfig}
    → validate_agent i targets names aliases a ≡ ok a'
    → (is_blank a'.name ≡ false)
      × (is_blank a'.alias ≡ false)
      × (is_valid_adapter a'.adapter ≡ true)
      × (is_blank a'.command ≡ false)
      × (validate_role i a.role ≡ ok a'.role)
      × (is_neg a'.route_priority ≡ false)
      × (a'.execution_target ≡ trim_space a.execution_target)
      × ((is_nil a'.execution_target || seen_has targets a'.execution_target) ≡ true)
      × (seen_has names a'.name ≡ false)
      × (seen_has aliases a'.alias ≡ false)
unfolding validate_agent check_names
validate_agent-facts i targets names aliases a h = ground arith

validate_agent-ok :
    (i : ℕ) (targets names aliases : List Text) (a : AgentConfig) {a' : AgentConfig}
    → validate_agent i targets names aliases a ≡ ok a'
    → IsAgent targets a' × (seen_has names a'.name ≡ false) × (seen_has aliases a'.alias ≡ false)
validate_agent-ok i targets names aliases a {a'} h =
    let (named, aliased, adapter, command, role, priority, t, known, n, l) =
      validate_agent-facts i targets names aliases a h in
    let (kind, domains, some_domain) = validate_role-ok i a.role role in
    (
      record {
        named = named;
        aliased = aliased;
        adapter = adapter;
        command = command;
        kind = kind;
        domains = ((normalize-IsCanonical a.role.domains domains).0, some_domain);
        priority = priority;
        target = elim (Bool-cases (is_nil a'.execution_target)) [
          | inl e ↦ inl (nil_of a'.execution_target e)
          | inr e ↦ inr (seen_has-mem targets a'.execution_target (ground (arith, e, known)))
        ];
        trimmed = rw t (trim_space_idem a.execution_target);
      },
      n,
      l,
    )

pub validate_agents-ok :
    (i : ℕ) (targets names aliases : List Text) (agents : List AgentConfig)
    {agents' : List AgentConfig}
    → validate_agents i targets names aliases agents ≡ ok agents'
    → All (IsAgent targets) agents'
      × AreFresh names (agent_names agents')
      × AreFresh aliases (map (λ a. a.alias) agents')
unfolding validate_agents
validate_agents-ok i targets names aliases [] h = rw (sym (ok_value h)) (tt, (tt, tt), (tt, tt))
validate_agents-ok i targets names aliases (a ∷ agents) h =
    let (a', one, more) = >>=-eq-ok (validate_agent i targets names aliases a) _ h in
    let (rest, others, done) =
      >>=-eq-ok (validate_agents (suc i) targets (a'.name ∷ names) (a'.alias ∷ aliases) agents) _
        more in
    let (good, n, l) = validate_agent-ok i targets names aliases a one in
    let (all_good, ns, ls) =
      validate_agents-ok (suc i) targets (a'.name ∷ names) (a'.alias ∷ aliases) agents others in
    rw (sym (ok_value done)) (
      (good, all_good),
      AreFresh-cons a'.name names (agent_names rest) n ns,
      AreFresh-cons a'.alias aliases (map (λ b. b.alias) rest) l ls,
    )

validate_manual_preference-facts :
    (i : ℕ) (names : List Text) (p : ManualPreference) {p' : ManualPreference}
    → validate_manual_preference i names p ≡ ok p'
    → (check_task_class p'.task_class ≡ ok tt)
      × (normalize_route_domains p.domains ≡ ok p'.domains)
      × (is_nil p'.domains ≡ false)
      × (seen_has names p'.preferred_owner ≡ true)
      × (is_neg p'.weight ≡ false)
unfolding validate_manual_preference
validate_manual_preference-facts i names p h = ground arith

pub validate_manual_preferences-ok :
    (i : ℕ) (names : List Text) (ps : List ManualPreference) {ps' : List ManualPreference}
    → validate_manual_preferences i names ps ≡ ok ps'
    → All (IsPreference names) ps'
unfolding validate_manual_preferences
validate_manual_preferences-ok i names [] h = rw (sym (ok_value h)) tt
validate_manual_preferences-ok i names (p ∷ ps) h =
    let (p', one, more) = >>=-eq-ok (validate_manual_preference i names p) _ h in
    let (rest, others, done) = >>=-eq-ok (validate_manual_preferences (suc i) names ps) _ more in
    let (kind, domains, some_domain, owner, weight) =
      validate_manual_preference-facts i names p one in
    rw (sym (ok_value done)) (
      record {
        kind = kind;
        domains = ((normalize-IsCanonical p.domains domains).0, some_domain);
        owner = seen_has-mem names p'.preferred_owner owner;
        weight = weight;
      },
      validate_manual_preferences-ok (suc i) names ps others,
    )

pub each-ok {ℓ κ} :
    {A : Type ℓ} {P : A → Type κ} (f : ℕ → A → Result (Unit {0}))
    → ((i : ℕ) (x : A) → f i x ≡ ok tt → P x)
    → (i : ℕ) (xs : List A) → each f i xs ≡ ok tt
    → All P xs
each-ok f one i [] h = tt
each-ok f one i (x ∷ xs) h =
    let (u, first, rest) = >>=-eq-ok (f i x) _ h in (one i x first, each-ok f one (suc i) xs rest)

pub check_teammates-ok :
    (names : List Text) (i : ℕ) (a : AgentConfig)
    → check_teammates names i a ≡ ok tt
    → All (λ t. Memᴰ t names) a.teammates
check_teammates-ok names i a h =
    each-ok _ (λ j t good. seen_has-mem names t (ground (arith, good))) 0 a.teammates h
