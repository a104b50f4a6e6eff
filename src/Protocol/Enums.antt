-- ===== src/Protocol/Enums.antt =====
-- The string types with named constants of internal/protocol/{envelope,receipt,coordinator}.go.
-- `unset` is the empty string and `other` any further string that is none of the constants.
use tmuxicate.Prelude.{Bool, true, false, [], Result, ok, err, msg}
use tmuxicate.Text.{Text, codes, text_eq}

pub data Kind : Type 0 where
  task question review_request review_response decision status_request status_response note : Kind
  other : Text → Kind

pub data Priority : Type 0 where
  unset low normal high urgent : Priority
  other : Text → Priority

pub data FolderState : Type 0 where
  unread active done dead : FolderState
  other : Text → FolderState

pub data TaskClass : Type 0 where
  unset implementation research review : TaskClass
  other : Text → TaskClass

pub data ReviewOutcome : Type 0 where
  unset approved changes_requested : ReviewOutcome
  other : Text → ReviewOutcome

pub data ReviewHandoffStatus : Type 0 where
  pending responded handoff_failed : ReviewHandoffStatus
  other : Text → ReviewHandoffStatus

pub data WaitKind : Type 0 where
  unset dependency_reply external_event : WaitKind
  other : Text → WaitKind

pub data BlockKind : Type 0 where
  unset agent_clarification reroute_needed human_decision unsupported : BlockKind
  other : Text → BlockKind

pub data BlockerAction : Type 0 where
  watch clarification_request reroute escalate : BlockerAction
  other : Text → BlockerAction

pub data BlockerStatus : Type 0 where
  active escalated resolved : BlockerStatus
  other : Text → BlockerStatus

pub data ResolutionAction : Type 0 where
  manual_reroute partial_replan clarify dismiss : ResolutionAction
  other : Text → ResolutionAction

pub data PartialReplanStatus : Type 0 where
  applied : PartialReplanStatus
  other : Text → PartialReplanStatus

-- The field declared_state of a blocker case.
pub data DeclaredState : Type 0 where
  wait block : DeclaredState
  other : Text → DeclaredState

abbrev pub is_valid_kind : Kind → Bool
is_valid_kind (Kind.other t) = false
is_valid_kind _ = true

abbrev pub is_valid_priority : Priority → Bool
is_valid_priority (Priority.other t) = false
is_valid_priority Priority.unset = false
is_valid_priority _ = true

abbrev pub is_valid_folder_state : FolderState → Bool
is_valid_folder_state (FolderState.other t) = false
is_valid_folder_state _ = true

abbrev pub check_task_class : TaskClass → Result (Unit {0})
check_task_class TaskClass.implementation = ok tt
check_task_class TaskClass.research = ok tt
check_task_class TaskClass.review = ok tt
check_task_class _ = err (msg "must be one of implementation, research, or review")

abbrev pub check_review_outcome : ReviewOutcome → Result (Unit {0})
check_review_outcome ReviewOutcome.approved = ok tt
check_review_outcome ReviewOutcome.changes_requested = ok tt
check_review_outcome _ = err (msg "must be one of approved or changes_requested")

abbrev pub check_handoff_status : ReviewHandoffStatus → Result (Unit {0})
check_handoff_status (ReviewHandoffStatus.other t) =
    err (msg "must be one of pending, responded, or handoff_failed")
check_handoff_status _ = ok tt

abbrev pub check_wait_kind : WaitKind → Result (Unit {0})
check_wait_kind WaitKind.dependency_reply = ok tt
check_wait_kind WaitKind.external_event = ok tt
check_wait_kind _ = err (msg "must be one of dependency_reply or external_event")

abbrev pub check_block_kind : BlockKind → Result (Unit {0})
check_block_kind BlockKind.agent_clarification = ok tt
check_block_kind BlockKind.reroute_needed = ok tt
check_block_kind BlockKind.human_decision = ok tt
check_block_kind BlockKind.unsupported = ok tt
check_block_kind _ =
    err (msg "must be one of agent_clarification, reroute_needed, human_decision, or unsupported")

abbrev pub check_blocker_action : BlockerAction → Result (Unit {0})
check_blocker_action (BlockerAction.other t) =
    err (msg "must be one of watch, clarification_request, reroute, or escalate")
check_blocker_action _ = ok tt

abbrev pub check_blocker_status : BlockerStatus → Result (Unit {0})
check_blocker_status (BlockerStatus.other t) =
    err (msg "must be one of active, escalated, or resolved")
check_blocker_status _ = ok tt

abbrev pub check_resolution_action : ResolutionAction → Result (Unit {0})
check_resolution_action (ResolutionAction.other t) =
    err (msg "must be one of manual_reroute, partial_replan, clarify, or dismiss")
check_resolution_action _ = ok tt

abbrev pub check_replan_status : PartialReplanStatus → Result (Unit {0})
check_replan_status PartialReplanStatus.applied = ok tt
check_replan_status (PartialReplanStatus.other t) = err (msg "must be applied")

-- The string that a task class is.
abbrev pub task_class_text : TaskClass → Text
task_class_text TaskClass.unset = []
task_class_text TaskClass.implementation = codes "implementation"
task_class_text TaskClass.research = codes "research"
task_class_text TaskClass.review = codes "review"
task_class_text (TaskClass.other t) = t

-- `a == b` on task classes, as strings.
abbrev pub task_class_eq : TaskClass → TaskClass → Bool
task_class_eq a b = text_eq (task_class_text a) (task_class_text b)

abbrev pub folder_state_eq : FolderState → FolderState → Bool
folder_state_eq FolderState.unread FolderState.unread = true
folder_state_eq FolderState.active FolderState.active = true
folder_state_eq FolderState.done FolderState.done = true
folder_state_eq FolderState.dead FolderState.dead = true
folder_state_eq (FolderState.other s) (FolderState.other t) = text_eq s t
folder_state_eq _ _ = false

abbrev pub is_wait_unset : WaitKind → Bool
is_wait_unset WaitKind.unset = true
is_wait_unset _ = false

abbrev pub is_block_unset : BlockKind → Bool
is_block_unset BlockKind.unset = true
is_block_unset _ = false

abbrev pub is_priority_unset : Priority → Bool
is_priority_unset Priority.unset = true
is_priority_unset _ = false

abbrev pub is_class_unset : TaskClass → Bool
is_class_unset TaskClass.unset = true
is_class_unset _ = false
