-- ===== src/Protocol/Validation/Blocker/Described.antt =====
-- BlockerCase.Validate of internal/protocol/validation.go against a description that calls none of the
-- checks on the enumerations, the recommended action, the resolution or the attempts.
use tmuxicate.Prelude.{
  ℕ, ◌≡◌, ◌≢◌, refl, ◌↔◌, ◌⊎◌, true, false, Option, none, some, ok, is_nil, arith, All,
}
use tmuxicate.Prelude.Int.{ℤ, pos, negsuc, is_neg}
use tmuxicate.Text.{Text, is_blank}
use tmuxicate.Protocol.Ids.{is_generated_run_id, is_generated_task_id}
use tmuxicate.Protocol.Enums.{
  BlockerStatus, DeclaredState, WaitKind, BlockKind, check_blocker_status,
}
use tmuxicate.Protocol.Documents.{BlockerCase, Time, is_zero}
use tmuxicate.Protocol.Validation.{present_and, is_nil_ptr}
use tmuxicate.Protocol.Validation.Blocker.{validate_blocker_case}
use tmuxicate.Protocol.Validation.Blocker.Valid.{
  FieldsValid, DeclaredValid, StatusValid, validate_blocker_case_iff,
}
use tmuxicate.Protocol.Validation.Blocker.Parts.{
  TaskOrNone, Set, SetOrNone, ActionKnown, ResolutionKnown, AttemptDescribed, ResolutionDescribed,
  IfThere, action_iff, is_nil_iff, recommended_iff, resolutions_iff, attempts_iff,
}

-- A wait has a known wait kind and no block kind; a block has a known block kind and no wait kind.
abbrev pub DeclaredDescribed : DeclaredState → WaitKind → BlockKind → Type 0
DeclaredDescribed DeclaredState.wait w b =
    ((w ≡ WaitKind.dependency_reply) ⊎ (w ≡ WaitKind.external_event)) × (b ≡ BlockKind.unset)
DeclaredDescribed DeclaredState.block w b =
    ((b ≡ BlockKind.agent_clarification)
      ⊎ ((b ≡ BlockKind.reroute_needed)
          ⊎ ((b ≡ BlockKind.human_decision) ⊎ (b ≡ BlockKind.unsupported))))
    × (w ≡ WaitKind.unset)
DeclaredDescribed (DeclaredState.other t) w b = ⊥

DeclaredDescribed-iff :
    (d : DeclaredState) (w : WaitKind) (b : BlockKind)
    → DeclaredValid d w b ↔ DeclaredDescribed d w b
DeclaredDescribed-iff DeclaredState.wait w b = (λ h. ground arith, λ h. ground arith)
DeclaredDescribed-iff DeclaredState.block w b = (λ h. ground arith, λ h. ground arith)
DeclaredDescribed-iff (DeclaredState.other t) w b = (λ h. h, λ h. h)

abbrev pub StatusKnown : BlockerStatus → Type 0
StatusKnown (BlockerStatus.other t) = ⊥
StatusKnown _ = Unit

StatusKnown-iff : (s : BlockerStatus) → (check_blocker_status s ≡ ok tt) ↔ StatusKnown s
StatusKnown-iff (BlockerStatus.other t) = (λ h. cc, λ h. absurd h)
StatusKnown-iff _ = (λ h. tt, λ h. refl)

abbrev pub NotNegative : ℤ → Type 0
NotNegative n = (m : ℕ) × (n ≡ pos m)

negative_iff : (n : ℤ) → (is_neg n ≡ false) ↔ NotNegative n
negative_iff (pos m) = (λ h. (m, refl), λ h. refl)
negative_iff (negsuc m) = (λ h. cc, λ h. cc (h.1))

zero_iff : (t : Time) → (is_zero t ≡ false) ↔ Set t
zero_iff t = (λ h. ground arith, λ h. ground arith)

zeros_iff : (t : Option Time) → (present_and is_zero t ≡ false) ↔ SetOrNone t
zeros_iff none = (λ h. λ e. cc, λ h. refl)
zeros_iff (some t) = (λ h. ground arith, λ h. ground arith)

-- The fields that a case has on its own: identifiers that are generated, texts that say something,
-- known values, counts that are not negative, and times that are set.
pub record FieldsDescribed (b : BlockerCase) : Type 0 where
  pub run_id : is_generated_run_id b.run_id ≡ true
  pub source_task_id : is_generated_task_id b.source_task_id ≡ true
  pub source_message_id : is_blank b.source_message_id ≡ false
  pub source_owner : is_blank b.source_owner ≡ false
  pub current_task_id : TaskOrNone b.current_task_id
  pub current_message_id : is_blank b.current_message_id ≡ false
  pub current_owner : is_blank b.current_owner ≡ false
  pub reason : is_blank b.reason ≡ false
  pub selected_action : ActionKnown b.selected_action
  pub status : StatusKnown b.status
  pub reroute_count : NotNegative b.reroute_count
  pub max_reroutes : NotNegative b.max_reroutes
  pub created_at : Set b.created_at
  pub updated_at : Set b.updated_at
  pub escalated_at : SetOrNone b.escalated_at
  pub resolved_at : SetOrNone b.resolved_at

task_or_none_iff : (s : Text) → ((is_nil s ≡ true) ⊎ (is_generated_task_id s ≡ true)) ↔ TaskOrNone s
task_or_none_iff s = (λ h. ground (arith, is_nil_iff s), λ h. ground (arith, is_nil_iff s))

FieldsDescribed-iff : (b : BlockerCase) → FieldsValid b ↔ FieldsDescribed b
FieldsDescribed-iff b = (
  λ v. record {
    run_id = v.run_id;
    source_task_id = v.source_task_id;
    source_message_id = v.source_message_id;
    source_owner = v.source_owner;
    current_task_id = (task_or_none_iff b.current_task_id).0 v.current_task_id;
    current_message_id = v.current_message_id;
    current_owner = v.current_owner;
    reason = v.reason;
    selected_action = (action_iff b.selected_action).0 v.selected_action;
    status = (StatusKnown-iff b.status).0 v.status;
    reroute_count = (negative_iff b.reroute_count).0 v.reroute_count;
    max_reroutes = (negative_iff b.max_reroutes).0 v.max_reroutes;
    created_at = (zero_iff b.created_at).0 v.created_at;
    updated_at = (zero_iff b.updated_at).0 v.updated_at;
    escalated_at = (zeros_iff b.escalated_at).0 v.escalated_at;
    resolved_at = (zeros_iff b.resolved_at).0 v.resolved_at;
  },
  λ d. record {
    run_id = d.run_id;
    source_task_id = d.source_task_id;
    source_message_id = d.source_message_id;
    source_owner = d.source_owner;
    current_task_id = (task_or_none_iff b.current_task_id).1 d.current_task_id;
    current_message_id = d.current_message_id;
    current_owner = d.current_owner;
    reason = d.reason;
    selected_action = (action_iff b.selected_action).1 d.selected_action;
    status = (StatusKnown-iff b.status).1 d.status;
    reroute_count = (negative_iff b.reroute_count).1 d.reroute_count;
    max_reroutes = (negative_iff b.max_reroutes).1 d.max_reroutes;
    created_at = (zero_iff b.created_at).1 d.created_at;
    updated_at = (zero_iff b.updated_at).1 d.updated_at;
    escalated_at = (zeros_iff b.escalated_at).1 d.escalated_at;
    resolved_at = (zeros_iff b.resolved_at).1 d.resolved_at;
  },
)

-- An escalated case recommends an action and says since when; a resolved one has its resolution.
abbrev pub StatusDescribed : BlockerStatus → BlockerCase → Type 0
StatusDescribed BlockerStatus.escalated b = (b.recommended_action ≢ none) × (b.escalated_at ≢ none)
StatusDescribed BlockerStatus.resolved b = (b.resolution ≢ none) × (b.resolved_at ≢ none)
StatusDescribed _ b = Unit

there_iff {ℓ} : {A : Type ℓ} (o : Option A) → (is_nil_ptr o ≡ false) ↔ (o ≢ none)
there_iff none = (λ h. cc, λ h. absurd (h refl))
there_iff (some a) = (λ h. λ e. cc, λ h. refl)

StatusDescribed-iff : (s : BlockerStatus) (b : BlockerCase) → StatusValid s b ↔ StatusDescribed s b
StatusDescribed-iff BlockerStatus.escalated b = (
  λ h. ((there_iff b.recommended_action).0 h.0, (there_iff b.escalated_at).0 h.1),
  λ h. ((there_iff b.recommended_action).1 h.0, (there_iff b.escalated_at).1 h.1),
)
StatusDescribed-iff BlockerStatus.resolved b = (
  λ h. ((there_iff b.resolution).0 h.0, (there_iff b.resolved_at).0 h.1),
  λ h. ((there_iff b.resolution).1 h.0, (there_iff b.resolved_at).1 h.1),
)
StatusDescribed-iff _ b = (λ h. h, λ h. h)

pub record CaseDescribed (b : BlockerCase) : Type 0 where
  pub fields : FieldsDescribed b
  pub declared : DeclaredDescribed b.declared_state b.wait_kind b.block_kind
  pub recommended : IfThere (λ a. ResolutionKnown a.kind) b.recommended_action
  pub resolution : IfThere ResolutionDescribed b.resolution
  pub attempts : All AttemptDescribed b.attempts
  pub by_status : StatusDescribed b.status b

-- BlockerCase.Validate accepts exactly the cases that CaseDescribed describes: generated identifiers,
-- texts that say something, known enumeration values, one kind that fits the declared state, counts
-- that are not negative, times that are set, every attempt, resolution and recommendation of that
-- kind too, and what the status escalated or resolved requires.
pub validate_blocker_case-CaseDescribed_iff :
    (b : BlockerCase) → (validate_blocker_case b ≡ ok tt) ↔ CaseDescribed b
validate_blocker_case-CaseDescribed_iff b = (
  λ h.
      let v = (validate_blocker_case_iff b).0 h in
      record {
        fields = (FieldsDescribed-iff b).0 v.fields;
        declared = (DeclaredDescribed-iff b.declared_state b.wait_kind b.block_kind).0 v.declared;
        recommended = (recommended_iff b.recommended_action).0 v.recommended;
        resolution = (resolutions_iff b.resolution).0 v.resolution;
        attempts = (attempts_iff 0 b.attempts).0 v.attempts;
        by_status = (StatusDescribed-iff b.status b).0 v.by_status;
      },
  λ d. (validate_blocker_case_iff b).1 (record {
    fields = (FieldsDescribed-iff b).1 d.fields;
    declared = (DeclaredDescribed-iff b.declared_state b.wait_kind b.block_kind).1 d.declared;
    recommended = (recommended_iff b.recommended_action).1 d.recommended;
    resolution = (resolutions_iff b.resolution).1 d.resolution;
    attempts = (attempts_iff 0 b.attempts).1 d.attempts;
    by_status = (StatusDescribed-iff b.status b).1 d.by_status;
  }),
)
