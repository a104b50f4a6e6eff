-- ===== src/Protocol/Documents.antt =====
-- The documents of internal/protocol/{envelope,receipt,coordinator}.go. A `time.Time` is a number of
-- nanoseconds since Go's zero time, which is 0; a pointer that may be nil is an `Option`.
use tmuxicate.Prelude.{ℕ, Bool, List, Option, ◌==◌}
use tmuxicate.Prelude.Int.{ℤ}
use tmuxicate.Text.{Text}
use tmuxicate.Protocol.Enums.{
  Kind, Priority, FolderState, TaskClass, ReviewOutcome, ReviewHandoffStatus, WaitKind, BlockKind,
  BlockerAction, BlockerStatus, ResolutionAction, PartialReplanStatus, DeclaredState,
}

abbrev pub Time : Type 0
Time = ℕ

-- t.IsZero()
abbrev pub is_zero : Time → Bool
is_zero t = t == 0

pub record Budget : Type 0 where
  pub max_turns : ℤ
  pub max_lines : ℤ
  pub respond_by : Option Time

pub record Attachment : Type 0 where
  pub path : Text
  pub media_type : Text
  pub sha256 : Text

pub record Envelope : Type 0 where
  pub schema : Text
  pub id : Text
  pub seq : ℤ
  pub session : Text
  pub thread : Text
  pub kind : Kind
  pub from : Text
  pub to : List Text
  pub created_at : Time
  pub body_format : Text
  pub body_sha256 : Text
  pub body_bytes : ℤ
  pub reply_to : Option Text
  pub subject : Text
  pub priority : Priority
  pub requires_ack : Bool
  pub requires_claim : Bool
  pub deliver_after : Option Time
  pub expires_at : Option Time
  pub budget : Option Budget
  pub attachments : List Attachment
  pub meta : List (Text × Text)

pub record Receipt : Type 0 where
  pub schema : Text
  pub message_id : Text
  pub seq : ℤ
  pub recipient : Text
  pub folder_state : FolderState
  pub revision : ℤ
  pub acked_at : Option Time
  pub claimed_by : Option Text
  pub claimed_at : Option Time
  pub done_at : Option Time
  pub notify_attempts : ℤ
  pub last_notified_at : Option Time
  pub next_retry_at : Option Time
  pub last_error : Option Text

pub record ExecutionTarget : Type 0 where
  pub name : Text
  pub kind : Text
  pub description : Text
  pub capabilities : List Text
  pub pane_backed : Bool

pub record TaskPlacement : Type 0 where
  pub target : ExecutionTarget
  pub reason : Text

pub record AgentSnapshot : Type 0 where
  pub name : Text
  pub alias : Text
  pub role : Text
  pub teammates : List Text
  pub execution_target : ExecutionTarget

pub record CoordinatorRun : Type 0 where
  pub run_id : Text
  pub goal : Text
  pub coordinator : Text
  pub created_by : Text
  pub created_at : Time
  pub root_message_id : Text
  pub root_thread_id : Text
  pub allowed_owners : List Text
  pub team_snapshot : List AgentSnapshot

pub record RouteTargetExclusion : Type 0 where
  pub owner : Text
  pub target_name : Text
  pub status : Text
  pub reason : Text

pub record EvidenceRef : Type 0 where
  pub run_id : Text
  pub source_task_id : Text
  pub message_id : Text
  pub status : Text
  pub note : Text

pub record AdaptiveExplanation : Type 0 where
  pub applied : Bool
  pub baseline_owner : Text
  pub preferred_owner : Text
  pub historical_score : ℤ
  pub manual_weight : ℤ
  pub total_score : ℤ
  pub reason : Text
  pub evidence : List EvidenceRef

pub record AdaptivePreference : Type 0 where
  pub preference_key : Text
  pub task_class : TaskClass
  pub normalized_domains : List Text
  pub preferred_owner : Text
  pub historical_score : ℤ
  pub manual_weight : ℤ
  pub total_score : ℤ
  pub evidence : List EvidenceRef

pub record AdaptivePreferenceSet : Type 0 where
  pub coordinator : Text
  pub updated_at : Time
  pub lookback_runs : ℤ
  pub preferences : List AdaptivePreference

pub record RoutingDecision : Type 0 where
  pub status : Text
  pub selected_owner : Text
  pub candidates : List Text
  pub tie_break : Text
  pub duplicate_status : Text
  pub matched_task_id : Text
  pub suggestions : List Text
  pub excluded_targets : List RouteTargetExclusion
  pub adaptive : Option AdaptiveExplanation

pub record RouteChildTaskRequest : Type 0 where
  pub run_id : Text
  pub task_class : TaskClass
  pub domains : List Text
  pub goal : Text
  pub expected_output : Text
  pub review_required : Bool
  pub owner_override : Text
  pub override_reason : Text

pub record RouteRejection : Type 0 where
  pub task_class : TaskClass
  pub domains : List Text
  pub allowed_owners : List Text
  pub eligible_candidates : List Text
  pub suggestions : List Text
  pub excluded_targets : List RouteTargetExclusion

pub record ChildTask : Type 0 where
  pub task_id : Text
  pub parent_run_id : Text
  pub owner : Text
  pub goal : Text
  pub expected_output : Text
  pub depends_on : List Text
  pub review_required : Bool
  pub task_class : TaskClass
  pub domains : List Text
  pub normalized_domains : List Text
  pub duplicate_key : Text
  pub routing_decision : Option RoutingDecision
  pub placement : Option TaskPlacement
  pub override_reason : Text
  pub message_id : Text
  pub thread_id : Text
  pub created_at : Time

pub record ReviewHandoff : Type 0 where
  pub run_id : Text
  pub source_task_id : Text
  pub source_message_id : Text
  pub review_task_id : Text
  pub review_message_id : Text
  pub reviewer : Text
  pub status : ReviewHandoffStatus
  pub failure_summary : Text
  pub response_message_id : Text
  pub outcome : ReviewOutcome
  pub created_at : Time
  pub responded_at : Option Time

pub record RecommendedAction : Type 0 where
  pub kind : ResolutionAction
  pub note : Text

pub record BlockerAttempt : Type 0 where
  pub action : BlockerAction
  pub task_id : Text
  pub message_id : Text
  pub owner : Text
  pub note : Text
  pub created_at : Time

pub record BlockerResolution : Type 0 where
  pub action : ResolutionAction
  pub created_task_id : Text
  pub created_message_id : Text
  pub resolved_by : Text
  pub note : Text
  pub created_at : Time

pub record BlockerCase : Type 0 where
  pub run_id : Text
  pub source_task_id : Text
  pub source_message_id : Text
  pub source_owner : Text
  pub current_task_id : Text
  pub current_message_id : Text
  pub current_owner : Text
  pub declared_state : DeclaredState
  pub wait_kind : WaitKind
  pub block_kind : BlockKind
  pub reason : Text
  pub selected_action : BlockerAction
  pub status : BlockerStatus
  pub reroute_count : ℤ
  pub max_reroutes : ℤ
  pub recommended_action : Option RecommendedAction
  pub resolution : Option BlockerResolution
  pub created_at : Time
  pub updated_at : Time
  pub escalated_at : Option Time
  pub resolved_at : Option Time
  pub attempts : List BlockerAttempt

pub record PartialReplan : Type 0 where
  pub run_id : Text
  pub source_task_id : Text
  pub source_message_id : Text
  pub blocker_source_task_id : Text
  pub superseded_task_id : Text
  pub superseded_message_id : Text
  pub superseded_owner : Text
  pub replacement_task_id : Text
  pub replacement_message_id : Text
  pub replacement_owner : Text
  pub reason : Text
  pub status : PartialReplanStatus
  pub created_at : Time
  pub updated_at : Time
