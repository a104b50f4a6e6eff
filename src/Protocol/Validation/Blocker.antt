-- ===== src/Protocol/Validation/Blocker.antt =====
-- ReviewHandoff.Validate, BlockerCase.Validate with its parts, and PartialReplan.Validate.
pub mod Valid
pub mod Parts
pub mod Described
use tmuxicate.Prelude.{
  Bool, true, false, ◌&&◌, ◌||◌, not, Option, none, some, ok, err, ◌>>=◌, ◌>>◌, Result, reject_if,
  is_nil, msg, wrapped, wrapped_at,
}
use tmuxicate.Prelude.Int.{is_neg}
use tmuxicate.Text.{Text, text_eq, is_blank}
use tmuxicate.Protocol.Ids.{is_generated_run_id, is_generated_task_id, is_generated_message_id}
use tmuxicate.Protocol.Enums.{
  ReviewHandoffStatus, BlockerStatus, DeclaredState, WaitKind, BlockKind, check_review_outcome,
  check_handoff_status, check_wait_kind, check_block_kind, check_blocker_action,
  check_blocker_status, check_resolution_action, check_replan_status, is_wait_unset, is_block_unset,
}
use tmuxicate.Protocol.Documents.{
  ReviewHandoff, RecommendedAction, BlockerAttempt, BlockerResolution, BlockerCase, PartialReplan,
  Time, is_zero,
}
use tmuxicate.Protocol.Validation.{each, present_and, is_nil_ptr, when_present}

-- A field that may be empty but, if it is not, must not be blank.
abbrev blank_but_set : Text → Bool
blank_but_set s = not (is_nil s) && is_blank s

-- A task identifier that may be empty.
abbrev bad_optional_task : Text → Bool
bad_optional_task s = not (is_nil s) && not (is_generated_task_id s)

-- The switch on the status at the end of ReviewHandoff.Validate.
check_handoff : ReviewHandoffStatus → ReviewHandoff → Result (Unit {0})
check_handoff ReviewHandoffStatus.pending h = do
  reject_if (not (is_generated_task_id h.review_task_id))
      (msg "pending handoff requires review_task_id")
  reject_if (is_blank h.review_message_id) (msg "pending handoff requires review_message_id")
  reject_if (is_blank h.reviewer) (msg "pending handoff requires reviewer")
check_handoff ReviewHandoffStatus.responded h = do
  reject_if (not (is_generated_task_id h.review_task_id))
      (msg "responded handoff requires review_task_id")
  reject_if (is_blank h.review_message_id) (msg "responded handoff requires review_message_id")
  reject_if (is_blank h.reviewer) (msg "responded handoff requires reviewer")
  reject_if (is_blank h.response_message_id) (msg "responded handoff requires response_message_id")
  wrapped "outcome" (check_review_outcome h.outcome)
  reject_if (is_nil_ptr h.responded_at) (msg "responded handoff requires responded_at")
check_handoff ReviewHandoffStatus.handoff_failed h =
    reject_if (is_blank h.failure_summary) (msg "handoff_failed requires failure_summary")
check_handoff (ReviewHandoffStatus.other t) h = ok tt

unfoldable pub validate_handoff : ReviewHandoff → Result (Unit {0})
unfolding check_handoff
validate_handoff h = do
  reject_if (not (is_generated_run_id h.run_id)) (msg "run_id must use generated run_ identifier")
  reject_if (not (is_generated_task_id h.source_task_id))
      (msg "source_task_id must use generated task_ identifier")
  reject_if (is_blank h.source_message_id) (msg "source_message_id is required")
  wrapped "status" (check_handoff_status h.status)
  reject_if (is_zero h.created_at) (msg "created_at is required")
  reject_if (present_and is_zero h.responded_at) (msg "responded_at must not be zero")
  reject_if (bad_optional_task h.review_task_id)
      (msg "review_task_id must use generated task_ identifier")
  reject_if (blank_but_set h.reviewer) (msg "reviewer must not be blank")
  check_handoff h.status h

unfoldable pub validate_recommended : RecommendedAction → Result (Unit {0})
validate_recommended a = wrapped "kind" (check_resolution_action a.kind)

unfoldable pub validate_attempt : BlockerAttempt → Result (Unit {0})
validate_attempt a = do
  wrapped "action" (check_blocker_action a.action)
  reject_if (bad_optional_task a.task_id) (msg "task_id must use generated task_ identifier")
  reject_if (blank_but_set a.message_id) (msg "message_id must not be blank")
  reject_if (blank_but_set a.owner) (msg "owner must not be blank")
  reject_if (is_zero a.created_at) (msg "created_at is required")

unfoldable pub validate_resolution : BlockerResolution → Result (Unit {0})
validate_resolution r = do
  wrapped "action" (check_resolution_action r.action)
  reject_if (bad_optional_task r.created_task_id)
      (msg "created_task_id must use generated task_ identifier")
  reject_if (blank_but_set r.created_message_id) (msg "created_message_id must not be blank")
  reject_if (blank_but_set r.resolved_by) (msg "resolved_by must not be blank")
  reject_if (is_zero r.created_at) (msg "created_at is required")

-- The switch on declared_state.
check_declared : DeclaredState → WaitKind → BlockKind → Result (Unit {0})
check_declared DeclaredState.wait w b = do
  wrapped "wait_kind" (check_wait_kind w)
  reject_if (not (is_block_unset b)) (msg "block_kind must be empty when declared_state=wait")
check_declared DeclaredState.block w b = do
  wrapped "block_kind" (check_block_kind b)
  reject_if (not (is_wait_unset w)) (msg "wait_kind must be empty when declared_state=block")
check_declared (DeclaredState.other t) w b = err (msg "declared_state must be either wait or block")

-- The switch on the status at the end of BlockerCase.Validate.
check_case_status : BlockerStatus → BlockerCase → Result (Unit {0})
check_case_status BlockerStatus.escalated b = do
  reject_if (is_nil_ptr b.recommended_action)
      (msg "escalated blocker cases require recommended_action.kind")
  reject_if (is_nil_ptr b.escalated_at) (msg "escalated blocker cases require escalated_at")
check_case_status BlockerStatus.resolved b = do
  reject_if (is_nil_ptr b.resolution) (msg "resolved blocker cases require resolution.action")
  reject_if (is_nil_ptr b.resolved_at) (msg "resolved blocker cases require resolved_at")
check_case_status _ b = ok tt

-- The fields of a blocker case that are checked on their own.
check_case_fields : BlockerCase → Result (Unit {0})
check_case_fields b = do
  reject_if (not (is_generated_run_id b.run_id)) (msg "run_id must use generated run_ identifier")
  reject_if (not (is_generated_task_id b.source_task_id))
      (msg "source_task_id must use generated task_ identifier")
  reject_if (is_blank b.source_message_id) (msg "source_message_id is required")
  reject_if (is_blank b.source_owner) (msg "source_owner is required")
  reject_if (bad_optional_task b.current_task_id)
      (msg "current_task_id must use generated task_ identifier")
  reject_if (is_blank b.current_message_id) (msg "current_message_id is required")
  reject_if (is_blank b.current_owner) (msg "current_owner is required")
  reject_if (is_blank b.reason) (msg "reason is required")
  wrapped "selected_action" (check_blocker_action b.selected_action)
  wrapped "status" (check_blocker_status b.status)
  reject_if (is_neg b.reroute_count) (msg "reroute_count must be >= 0")
  reject_if (is_neg b.max_reroutes) (msg "max_reroutes must be >= 0")
  reject_if (is_zero b.created_at) (msg "created_at is required")
  reject_if (is_zero b.updated_at) (msg "updated_at is required")
  reject_if (present_and is_zero b.escalated_at) (msg "escalated_at must not be zero")
  reject_if (present_and is_zero b.resolved_at) (msg "resolved_at must not be zero")

unfoldable pub validate_blocker_case : BlockerCase → Result (Unit {0})
unfolding check_case_fields check_declared check_case_status validate_recommended
    validate_resolution validate_attempt
validate_blocker_case b = do
  check_case_fields b
  check_declared b.declared_state b.wait_kind b.block_kind
  when_present (λ a. wrapped "recommended_action" (validate_recommended a)) b.recommended_action
  when_present (λ r. wrapped "resolution" (validate_resolution r)) b.resolution
  each (λ i a. wrapped_at "attempts" i (validate_attempt a)) 0 b.attempts
  check_case_status b.status b

unfoldable pub validate_replan : PartialReplan → Result (Unit {0})
validate_replan p = do
  reject_if (not (is_generated_run_id p.run_id)) (msg "run_id must use generated run_ identifier")
  reject_if (not (is_generated_task_id p.source_task_id))
      (msg "source_task_id must use generated task_ identifier")
  reject_if (not (is_generated_message_id p.source_message_id))
      (msg "source_message_id must use generated msg_ identifier")
  reject_if (not (is_generated_task_id p.blocker_source_task_id))
      (msg "blocker_source_task_id must use generated task_ identifier")
  reject_if (not (text_eq p.blocker_source_task_id p.source_task_id))
      (msg "blocker_source_task_id must equal source_task_id")
  reject_if (not (is_generated_task_id p.superseded_task_id))
      (msg "superseded_task_id must use generated task_ identifier")
  reject_if (not (is_generated_message_id p.superseded_message_id))
      (msg "superseded_message_id must use generated msg_ identifier")
  reject_if (is_blank p.superseded_owner) (msg "superseded_owner is required")
  reject_if (not (is_generated_task_id p.replacement_task_id))
      (msg "replacement_task_id must use generated task_ identifier")
  reject_if (not (is_generated_message_id p.replacement_message_id))
      (msg "replacement_message_id must use generated msg_ identifier")
  reject_if (text_eq p.replacement_task_id p.source_task_id)
      (msg "replacement_task_id must differ from source_task_id")
  reject_if (text_eq p.replacement_task_id p.superseded_task_id)
      (msg "replacement_task_id must differ from superseded_task_id")
  reject_if (is_blank p.replacement_owner) (msg "replacement_owner is required")
  reject_if (is_blank p.reason) (msg "reason is required")
  wrapped "status" (check_replan_status p.status)
  reject_if (is_zero p.created_at) (msg "created_at is required")
  reject_if (is_zero p.updated_at) (msg "updated_at is required")
