-- ===== src/Protocol/Validation/Blocker/Valid.antt =====
-- The checks that a case has passed when BlockerCase.Validate accepts it.
use tmuxicate.Prelude.{
  ◌≡◌, refl, ◌↔◌, ◌⊎◌, true, false, Result, ok, err, ◌>>◌, wrapped, wrapped_at, is_nil, arith,
}
use tmuxicate.Prelude.Int.{is_neg}
use tmuxicate.Text.{is_blank}
use tmuxicate.Protocol.Ids.{is_generated_run_id, is_generated_task_id}
use tmuxicate.Protocol.Enums.{
  BlockerStatus, DeclaredState, WaitKind, BlockKind, check_wait_kind, check_block_kind,
  check_blocker_action, check_blocker_status, is_wait_unset, is_block_unset,
}
use tmuxicate.Protocol.Documents.{BlockerCase, is_zero}
use tmuxicate.Protocol.Validation.{each, present_and, is_nil_ptr, when_present}
use tmuxicate.Protocol.Validation.Blocker.{
  check_case_fields, check_declared, check_case_status, validate_recommended, validate_resolution,
  validate_attempt, validate_blocker_case,
}

pub record FieldsValid (b : BlockerCase) : Type 0 where
  pub run_id : is_generated_run_id b.run_id ≡ true
  pub source_task_id : is_generated_task_id b.source_task_id ≡ true
  pub source_message_id : is_blank b.source_message_id ≡ false
  pub source_owner : is_blank b.source_owner ≡ false
  pub current_task_id :
      (is_nil b.current_task_id ≡ true) ⊎ (is_generated_task_id b.current_task_id ≡ true)
  pub current_message_id : is_blank b.current_message_id ≡ false
  pub current_owner : is_blank b.current_owner ≡ false
  pub reason : is_blank b.reason ≡ false
  pub selected_action : check_blocker_action b.selected_action ≡ ok tt
  pub status : check_blocker_status b.status ≡ ok tt
  pub reroute_count : is_neg b.reroute_count ≡ false
  pub max_reroutes : is_neg b.max_reroutes ≡ false
  pub created_at : is_zero b.created_at ≡ false
  pub updated_at : is_zero b.updated_at ≡ false
  pub escalated_at : present_and is_zero b.escalated_at ≡ false
  pub resolved_at : present_and is_zero b.resolved_at ≡ false

fields_iff : (b : BlockerCase) → (check_case_fields b ≡ ok tt) ↔ FieldsValid b
unfolding check_case_fields
fields_iff b = (λ h. ground arith, λ h. ground arith)

-- A wait has a wait kind and no block kind; a block has a block kind and no wait kind.
abbrev pub DeclaredValid : DeclaredState → WaitKind → BlockKind → Type 0
DeclaredValid DeclaredState.wait w b = (check_wait_kind w ≡ ok tt) × (is_block_unset b ≡ true)
DeclaredValid DeclaredState.block w b = (check_block_kind b ≡ ok tt) × (is_wait_unset w ≡ true)
DeclaredValid (DeclaredState.other t) w b = ⊥

declared_iff :
    (d : DeclaredState) (w : WaitKind) (b : BlockKind)
    → (check_declared d w b ≡ ok tt) ↔ DeclaredValid d w b
unfolding check_declared
declared_iff DeclaredState.wait w b = (λ h. ground arith, λ h. ground arith)
declared_iff DeclaredState.block w b = (λ h. ground arith, λ h. ground arith)
declared_iff (DeclaredState.other t) w b = (λ h. cc, λ h. absurd h)

-- An escalated case recommends an action and says since when; a resolved one has its resolution.
abbrev pub StatusValid : BlockerStatus → BlockerCase → Type 0
StatusValid BlockerStatus.escalated b =
    (is_nil_ptr b.recommended_action ≡ false) × (is_nil_ptr b.escalated_at ≡ false)
StatusValid BlockerStatus.resolved b =
    (is_nil_ptr b.resolution ≡ false) × (is_nil_ptr b.resolved_at ≡ false)
StatusValid _ b = Unit

status_iff :
    (s : BlockerStatus) (b : BlockerCase) → (check_case_status s b ≡ ok tt) ↔ StatusValid s b
unfolding check_case_status
status_iff BlockerStatus.escalated b = (λ h. ground arith, λ h. ground arith)
status_iff BlockerStatus.resolved b = (λ h. ground arith, λ h. ground arith)
status_iff _ b = (λ h. tt, λ h. refl)

pub record CaseValid (b : BlockerCase) : Type 0 where
  pub fields : FieldsValid b
  pub declared : DeclaredValid b.declared_state b.wait_kind b.block_kind
  pub recommended :
      when_present (λ a. wrapped "recommended_action" (validate_recommended a)) b.recommended_action
      ≡ ok tt
  pub resolution :
      when_present (λ r. wrapped "resolution" (validate_resolution r)) b.resolution ≡ ok tt
  pub attempts : each (λ i a. wrapped_at "attempts" i (validate_attempt a)) 0 b.attempts ≡ ok tt
  pub by_status : StatusValid b.status b

then_parts : (m n : Result (Unit {0})) → ((m >> n) ≡ ok tt) ↔ ((m ≡ ok tt) × (n ≡ ok tt))
then_parts (ok tt') n = (λ h. (refl, h), λ h. h.1)
then_parts (err e) n = (λ h. cc, λ h. cc (h.0))

-- BlockerCase.Validate accepts exactly the cases that pass these checks.
pub validate_blocker_case_iff : (b : BlockerCase) → (validate_blocker_case b ≡ ok tt) ↔ CaseValid b
unfolding validate_blocker_case
validate_blocker_case_iff b = (
  λ h.
      let (f, h1) = (then_parts _ _).0 h in
      let (d, h2) = (then_parts _ _).0 h1 in
      let (r, h3) = (then_parts _ _).0 h2 in
      let (s, h4) = (then_parts _ _).0 h3 in
      let (a, t) = (then_parts _ _).0 h4 in
      record {
        fields = (fields_iff b).0 f;
        declared = (declared_iff b.declared_state b.wait_kind b.block_kind).0 d;
        recommended = r;
        resolution = s;
        attempts = a;
        by_status = (status_iff b.status b).0 t;
      },
  λ v. (then_parts _ _).1 (
    (fields_iff b).1 v.fields,
    (then_parts _ _).1 (
      (declared_iff b.declared_state b.wait_kind b.block_kind).1 v.declared,
      (then_parts _ _).1 (
        v.recommended,
        (then_parts _ _).1
            (v.resolution, (then_parts _ _).1 (v.attempts, (status_iff b.status b).1 v.by_status)),
      ),
    ),
  ),
)
