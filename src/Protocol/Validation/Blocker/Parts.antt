-- ===== src/Protocol/Validation/Blocker/Parts.antt =====
-- What the attempts, the recommended action and the resolution of a blocker case have to be, for
-- BlockerCase.Validate of internal/protocol/validation.go.
use tmuxicate.Prelude.{
  ℕ, suc, ◌≡◌, ◌≢◌, refl, ◌↔◌, ◌⊎◌, true, false, List, [], ◌∷◌, Option, none, some, Result, ok, err,
  ◌>>◌, wrapped, wrapped_at, is_nil, arith, All, String,
}
use tmuxicate.Text.{Text, is_blank}
use tmuxicate.Protocol.Ids.{is_generated_task_id}
use tmuxicate.Protocol.Enums.{
  BlockerAction, ResolutionAction, check_blocker_action, check_resolution_action,
}
use tmuxicate.Protocol.Documents.{BlockerAttempt, BlockerResolution, RecommendedAction, Time}
use tmuxicate.Protocol.Validation.{each, when_present}
use tmuxicate.Protocol.Validation.Blocker.{
  validate_recommended, validate_resolution, validate_attempt,
}

-- A task identifier that may be missing, and a text that is missing or says something.
abbrev pub TaskOrNone : Text → Type 0
TaskOrNone s = (s ≡ []) ⊎ (is_generated_task_id s ≡ true)

abbrev pub SaysOrNone : Text → Type 0
SaysOrNone s = (s ≡ []) ⊎ (is_blank s ≡ false)

abbrev pub Set : Time → Type 0
Set t = t ≢ 0

abbrev pub SetOrNone : Option Time → Type 0
SetOrNone t = t ≢ some 0

abbrev pub ActionKnown : BlockerAction → Type 0
ActionKnown (BlockerAction.other t) = ⊥
ActionKnown _ = Unit

abbrev pub ResolutionKnown : ResolutionAction → Type 0
ResolutionKnown (ResolutionAction.other t) = ⊥
ResolutionKnown _ = Unit

pub record AttemptDescribed (a : BlockerAttempt) : Type 0 where
  pub action : ActionKnown a.action
  pub task_id : TaskOrNone a.task_id
  pub message_id : SaysOrNone a.message_id
  pub owner : SaysOrNone a.owner
  pub created_at : Set a.created_at

pub record ResolutionDescribed (r : BlockerResolution) : Type 0 where
  pub action : ResolutionKnown r.action
  pub created_task_id : TaskOrNone r.created_task_id
  pub created_message_id : SaysOrNone r.created_message_id
  pub resolved_by : SaysOrNone r.resolved_by
  pub created_at : Set r.created_at

-- What holds of the value, if there is one.
abbrev pub IfThere {ℓ} : {A : Type ℓ} → (A → Type 0) → Option A → Type 0
IfThere P none = Unit
IfThere P (some a) = P a

pub action_iff : (a : BlockerAction) → (check_blocker_action a ≡ ok tt) ↔ ActionKnown a
action_iff (BlockerAction.other t) = (λ h. cc, λ h. absurd h)
action_iff _ = (λ h. tt, λ h. refl)

resolution_iff : (a : ResolutionAction) → (check_resolution_action a ≡ ok tt) ↔ ResolutionKnown a
resolution_iff (ResolutionAction.other t) = (λ h. cc, λ h. absurd h)
resolution_iff _ = (λ h. tt, λ h. refl)

pub is_nil_iff : (s : Text) → (is_nil s ≡ true) ↔ (s ≡ [])
is_nil_iff [] = (λ h. refl, λ h. refl)
is_nil_iff (c ∷ s) = (λ h. cc, λ h. cc)

attempt_iff : (a : BlockerAttempt) → (validate_attempt a ≡ ok tt) ↔ AttemptDescribed a
unfolding validate_attempt
attempt_iff a = (
  λ h. record {
    action = (action_iff a.action).0 (ground arith);
    task_id = ground (arith, is_nil_iff a.task_id);
    message_id = ground (arith, is_nil_iff a.message_id);
    owner = ground (arith, is_nil_iff a.owner);
    created_at = ground arith;
  },
  λ d.
      let action = (action_iff a.action).1 d.action in
      let task = d.task_id in
      let message = d.message_id in
      let owner = d.owner in
      let created = d.created_at in
      ground (arith, is_nil_iff a.task_id, is_nil_iff a.message_id, is_nil_iff a.owner),
)

resolved_iff : (r : BlockerResolution) → (validate_resolution r ≡ ok tt) ↔ ResolutionDescribed r
unfolding validate_resolution
resolved_iff r = (
  λ h. record {
    action = (resolution_iff r.action).0 (ground arith);
    created_task_id = ground (arith, is_nil_iff r.created_task_id);
    created_message_id = ground (arith, is_nil_iff r.created_message_id);
    resolved_by = ground (arith, is_nil_iff r.resolved_by);
    created_at = ground arith;
  },
  λ d.
      let action = (resolution_iff r.action).1 d.action in
      let task = d.created_task_id in
      let message = d.created_message_id in
      let by = d.resolved_by in
      let created = d.created_at in
      ground (
        arith,
        is_nil_iff r.created_task_id,
        is_nil_iff r.created_message_id,
        is_nil_iff r.resolved_by,
      ),
)

wrapped_iff : (c : String) (r : Result (Unit {0})) → (wrapped c r ≡ ok tt) ↔ (r ≡ ok tt)
wrapped_iff c (ok u) = (λ h. refl, λ h. refl)
wrapped_iff c (err e) = (λ h. cc, λ h. cc)

pub recommended_iff :
    (o : Option RecommendedAction)
    → (when_present (λ a. wrapped "recommended_action" (validate_recommended a)) o ≡ ok tt)
      ↔ IfThere (λ a. ResolutionKnown a.kind) o
unfolding validate_recommended
recommended_iff none = (λ h. tt, λ h. refl)
recommended_iff (some a) = (
  λ h. (resolution_iff a.kind).0 ((wrapped_iff _ _).0 ((wrapped_iff _ _).0 h)),
  λ k. (wrapped_iff _ _).1 ((wrapped_iff _ _).1 ((resolution_iff a.kind).1 k)),
)

pub resolutions_iff :
    (o : Option BlockerResolution)
    → (when_present (λ r. wrapped "resolution" (validate_resolution r)) o ≡ ok tt)
      ↔ IfThere ResolutionDescribed o
resolutions_iff none = (λ h. tt, λ h. refl)
resolutions_iff (some r) = (
  λ h. (resolved_iff r).0 ((wrapped_iff _ _).0 h),
  λ d. (wrapped_iff _ _).1 ((resolved_iff r).1 d),
)

both_iff : (m n : Result (Unit {0})) → ((m >> n) ≡ ok tt) ↔ ((m ≡ ok tt) × (n ≡ ok tt))
both_iff (ok tt') n = (λ h. (refl, h), λ h. h.1)
both_iff (err e) n = (λ h. cc, λ h. cc (h.0))

wrapped_at_iff :
    (c : String) (i : ℕ) (r : Result (Unit {0})) → (wrapped_at c i r ≡ ok tt) ↔ (r ≡ ok tt)
wrapped_at_iff c i (ok u) = (λ h. refl, λ h. refl)
wrapped_at_iff c i (err e) = (λ h. cc, λ h. cc)

pub attempts_iff :
    (i : ℕ) (more : List BlockerAttempt)
    → (each (λ i a. wrapped_at "attempts" i (validate_attempt a)) i more ≡ ok tt)
      ↔ All AttemptDescribed more
attempts_iff i [] = (λ h. tt, λ h. refl)
attempts_iff i (a ∷ more) = (
  λ h.
      let (first, rest) = (both_iff _ _).0 h in
      ((attempt_iff a).0 ((wrapped_at_iff _ i _).0 first), (attempts_iff (suc i) more).0 rest),
  λ d.
      (both_iff _ _).1
        ((wrapped_at_iff _ i _).1 ((attempt_iff a).1 d.0), (attempts_iff (suc i) more).1 d.1),
)
