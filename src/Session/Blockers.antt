-- ===== src/Session/Blockers.antt =====
-- The blocker policy of internal/session/task_cmd.go: what happens when the owner of a coordinator
-- task declares that it waits or is blocked.
pub mod Policy
pub mod Prepared
pub mod Recorded
pub mod Bound
use tmuxicate.Prelude.{
  ◌++◌, Bool, true, false, not, List, [], ◌∷◌, Option, none, some, Result, ok, err, msg, ◌>>=◌,
  if◌then◌else◌, is_nil, suc,
}
use tmuxicate.Prelude.Int.{ℤ, pos, negsuc, int_lt, inc}
use tmuxicate.Text.{Text, codes, trim_space}
use tmuxicate.Text.Decimal.{decimal}
use tmuxicate.Protocol.Enums.{
  WaitKind, BlockKind, BlockerAction, BlockerStatus, ResolutionAction, DeclaredState, TaskClass,
}
use tmuxicate.Protocol.Documents.{BlockerCase, BlockerAttempt, RecommendedAction, ChildTask, Time}
use tmuxicate.Config.{ResolvedConfig, class_lookup}

-- waitBlockerPolicy and the rest of the first branch of selectBlockerAction.
unfoldable pub wait_action : WaitKind → BlockerAction
wait_action WaitKind.dependency_reply = BlockerAction.watch
wait_action WaitKind.external_event = BlockerAction.watch
wait_action _ = BlockerAction.escalate

-- The branch for blocks, with blockBlockerPolicy.
unfoldable pub block_action : BlockKind → ℤ → ℤ → BlockerAction
block_action BlockKind.reroute_needed reroute_count max_reroutes =
    if int_lt reroute_count max_reroutes then BlockerAction.reroute else BlockerAction.escalate
block_action BlockKind.agent_clarification reroute_count max_reroutes =
    BlockerAction.clarification_request
block_action _ reroute_count max_reroutes = BlockerAction.escalate

unfoldable pub select_blocker_action : WaitKind → BlockKind → ℤ → ℤ → BlockerAction
unfolding wait_action block_action
select_blocker_action WaitKind.unset block_kind reroute_count max_reroutes =
    block_action block_kind reroute_count max_reroutes
select_blocker_action wait_kind block_kind reroute_count max_reroutes = wait_action wait_kind

unfoldable pub or_default : Option ℤ → ℤ → ℤ
or_default none d = d
or_default (some n) d = n

-- The configuration and the source task are there.
unfoldable pub resolve_blocker_ceiling : ResolvedConfig → ChildTask → ℤ
unfolding or_default
resolve_blocker_ceiling cfg source_task =
    or_default (class_lookup source_task.task_class cfg.config.blockers.max_reroutes_by_task_class)
      cfg.config.blockers.max_reroutes_default

-- `%d`
unfoldable pub int_text : ℤ → Text
int_text (pos n) = decimal n
int_text (negsuc n) = b'-' ∷ decimal (suc n)

note_or : Text → Text → Text
note_or note other = if is_nil note then other else note

unfoldable pub recommended_blocker_action : BlockKind → Text → ℤ → ℤ → RecommendedAction
unfolding note_or int_text
recommended_blocker_action BlockKind.reroute_needed reason reroute_count max_reroutes = record {
  kind = ResolutionAction.manual_reroute;
  note = note_or (trim_space reason) (
      codes "reroute ceiling reached at "
      ++ (int_text reroute_count ++ b'/' ∷ (int_text max_reroutes ++ codes " attempts")));
}
recommended_blocker_action _ reason reroute_count max_reroutes = record {
  kind = ResolutionAction.clarify;
  note = note_or (trim_space reason) (codes "operator clarification required");
}

-- activeTaskContext and coordinatorTaskContext, as far as the policy reads them.
pub record Context : Type 0 where
  pub cfg : ResolvedConfig
  pub env_id : Text
  pub agent_name : Text
  pub run_id : Text
  pub current_task_id : Text
  pub source_task : ChildTask
  pub blocker_case : Option BlockerCase

-- What the owner declares.
pub data Declaration : Type 0 where
  waiting : WaitKind → Declaration
  blocked : BlockKind → Declaration

abbrev pub declared_state : Declaration → DeclaredState
declared_state (waiting k) = DeclaredState.wait
declared_state (blocked k) = DeclaredState.block

abbrev pub wait_kind_of : Declaration → WaitKind
wait_kind_of (waiting k) = k
wait_kind_of (blocked k) = WaitKind.unset

abbrev pub block_kind_of : Declaration → BlockKind
block_kind_of (waiting k) = BlockKind.unset
block_kind_of (blocked k) = k

-- The case that the declaration continues, or a new one. The fields that prepare_blocker_case
-- overwrites on every path have the values of a Go zero value here.
unfoldable pub starting_case : Context → Option BlockerCase → Time → BlockerCase
starting_case c (some existing) now = existing
starting_case c none now = record {
  run_id = c.run_id;
  source_task_id = c.source_task.task_id;
  source_message_id = c.source_task.message_id;
  source_owner = c.source_task.owner;
  current_task_id = [];
  current_message_id = [];
  current_owner = [];
  declared_state = DeclaredState.other [];
  wait_kind = WaitKind.unset;
  block_kind = BlockKind.unset;
  reason = [];
  selected_action = BlockerAction.other [];
  status = BlockerStatus.other [];
  reroute_count = pos 0;
  max_reroutes = pos 0;
  recommended_action = none;
  resolution = none;
  created_at = now;
  updated_at = 0;
  escalated_at = none;
  resolved_at = none;
  attempts = [];
}

unfoldable pub prepare_blocker_case : Context → Declaration → Text → Time → BlockerCase
unfolding starting_case
prepare_blocker_case c d reason now =
    let start = starting_case c c.blocker_case now in
    let ceiling = resolve_blocker_ceiling c.cfg c.source_task in
    record start {
      current_task_id = c.current_task_id;
      current_message_id = c.env_id;
      current_owner = c.agent_name;
      declared_state = declared_state d;
      wait_kind = wait_kind_of d;
      block_kind = block_kind_of d;
      reason = trim_space reason;
      selected_action =
          select_blocker_action (wait_kind_of d) (block_kind_of d) start.reroute_count ceiling;
      status = BlockerStatus.active;
      max_reroutes = ceiling;
      recommended_action = none;
      resolution = none;
      updated_at = now;
      resolved_at = none;
      escalated_at = none;
    }

-- The attempt that a reroute adds.
abbrev pub reroute_attempt : ChildTask → Text → Time → BlockerAttempt
reroute_attempt task reason now = record {
  action = BlockerAction.reroute;
  task_id = task.task_id;
  message_id = task.message_id;
  owner = task.owner;
  note = trim_space reason;
  created_at = now;
}

-- The switch of recordCoordinatorBlocker; `rerouted` is what rerouteBlockerTask returns when it is
-- called.
unfoldable pub record_action :
    BlockerAction → BlockerCase → Result ChildTask → Text → Time → Result BlockerCase
record_action BlockerAction.watch doc rerouted reason now =
    ok
      (record doc { status = BlockerStatus.active; recommended_action = none; escalated_at = none })
record_action BlockerAction.clarification_request doc rerouted reason now =
    ok
      (record doc { status = BlockerStatus.active; recommended_action = none; escalated_at = none })
record_action BlockerAction.reroute doc rerouted reason now = do
  task ← rerouted
  ok (record doc {
    status = BlockerStatus.active;
    current_task_id = task.task_id;
    current_message_id = task.message_id;
    current_owner = task.owner;
    reroute_count = inc doc.reroute_count;
    attempts = doc.attempts ++ reroute_attempt task reason now ∷ [];
  })
record_action BlockerAction.escalate doc rerouted reason now = ok (record doc {
  status = BlockerStatus.escalated;
  recommended_action =
      some (recommended_blocker_action doc.block_kind reason doc.reroute_count doc.max_reroutes);
  escalated_at = some now;
})
record_action (BlockerAction.other t) doc rerouted reason now =
    err (msg "unsupported blocker action")

-- recordCoordinatorBlocker up to the document that it persists.
unfoldable pub record_blocker :
    Context → Declaration → Result ChildTask → Text → Time → Result BlockerCase
unfolding record_action prepare_blocker_case
record_blocker c d rerouted reason now =
    let doc = prepare_blocker_case c d reason now in
    record_action doc.selected_action doc rerouted reason now
