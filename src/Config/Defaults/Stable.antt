-- ===== src/Config/Defaults/Stable.antt =====
-- applyDefaults of internal/config/loader.go, which LoadResolved and Resolve both call.
use tmuxicate.Prelude.{
  ◌≡◌, refl, true, not, List, [], ◌∷◌, map, Option, none, some, is_nil, arith, Bool-cases, inl, inr,
  ◌*◌, ◌^◌, if◌then◌else◌, ◌&&◌,
}
use tmuxicate.Prelude.Int.{ℤ, pos}
use tmuxicate.Text.{Text, codes}
use tmuxicate.Config.{
  Config, SessionConfig, DeliveryConfig, BlockersConfig, TranscriptConfig, DefaultsConfig,
  AgentConfig,
}
use tmuxicate.Config.Defaults.{
  Paths, or_text, or_int, or_ptr, session_defaults, delivery_defaults, blockers_defaults,
  defaults_defaults, agent_workdir, transcript_defaults, apply_defaults,
}

or_text-or_text : (d s : Text) → or_text d (or_text d s) ≡ or_text d s
unfolding or_text
or_text-or_text d s = ground arith

or_int-or_int : (d n : ℤ) → or_int d (or_int d n) ≡ or_int d n
unfolding or_int
or_int-or_int d n = ground arith

or_ptr-or_ptr {ℓ} : {A : Type ℓ} (d : A) (p : Option A) → or_ptr d (or_ptr d p) ≡ or_ptr d p
unfolding or_ptr
or_ptr-or_ptr d none = refl
or_ptr-or_ptr d (some a) = refl

session-stable : (s : SessionConfig) → session_defaults (session_defaults s) ≡ session_defaults s
session-stable s = cc (
  or_text-or_text (codes "agents") s.window_name,
  or_text-or_text (codes "triad") s.layout,
  or_ptr-or_ptr true s.attach,
)

delivery-stable :
    (d : DeliveryConfig) → delivery_defaults (delivery_defaults d) ≡ delivery_defaults d
delivery-stable d = cc (
  or_text-or_text (codes "notify_then_read") d.mode,
  or_int-or_int (pos (2 * 60 * 10 ^ 9)) d.ack_timeout,
  or_int-or_int (pos (30 * 10 ^ 9)) d.retry_interval,
  or_int-or_int (pos 3) d.max_retries,
  or_ptr-or_ptr true d.safe_notify_only_when_ready,
  or_ptr-or_ptr true d.auto_notify,
)

max_reroutes-stable :
    (b : BlockersConfig) → blockers_defaults (blockers_defaults b) ≡ blockers_defaults b
max_reroutes-stable b = elim (Bool-cases b.max_reroutes_default_set) [
  | inl e ↦ rw e refl
  | inr e ↦ rw e (cc (or_int-or_int (pos 1) b.max_reroutes_default))
]

defaults-stable :
    (workspace : Text) (d : DefaultsConfig)
    → defaults_defaults workspace (defaults_defaults workspace d) ≡ defaults_defaults workspace d
defaults-stable workspace d = cc (
  or_text-or_text workspace d.workdir,
  or_ptr-or_ptr [] d.env,
  or_text-or_text (codes "default") d.bootstrap_template,
  or_ptr-or_ptr true d.notify_enabled,
)

dir-stable :
    (s d t : Text)
    → let d' = if is_nil d && not (is_nil s) then t else d in
      (if is_nil d' && not (is_nil s) then t else d') ≡ d'
dir-stable s d t = ground arith

transcript-stable :
    (paths : Paths) (dir : Text) (t : TranscriptConfig)
    → let t' = transcript_defaults paths dir t in transcript_defaults paths dir t' ≡ t'
transcript-stable paths dir t = cc (
  or_text-or_text (codes "pipe-pane") t.mode,
  dir-stable dir t.dir (paths.join_path dir (codes "transcripts")),
)

agents-stable :
    (workdir : Text) (agents : List AgentConfig)
    → let agents' = map (agent_workdir workdir) agents in
      map (agent_workdir workdir) agents' ≡ agents'
agents-stable workdir [] = refl
agents-stable workdir (a ∷ agents) =
    rw (or_text-or_text workdir a.workdir, agents-stable workdir agents) refl

-- The defaults are applied twice when a file is loaded; the second time changes nothing.
pub apply_defaults-stable :
    (paths : Paths) (c : Config)
    → apply_defaults paths (apply_defaults paths c) ≡ apply_defaults paths c
unfolding apply_defaults
apply_defaults-stable paths c = cc (
  or_int-or_int (pos 1) c.version,
  session-stable c.session,
  delivery-stable c.delivery,
  transcript-stable paths c.session.state_dir c.transcript,
  max_reroutes-stable c.blockers,
  defaults-stable c.session.workspace c.defaults,
  agents-stable (or_text c.session.workspace c.defaults.workdir) c.agents,
)
