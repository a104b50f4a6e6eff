-- ===== src/Session/Tasks.antt =====
-- ReadMsg of internal/session/read_msg.go, and TaskAccept and loadActiveTask of internal/session/task_cmd.go.
-- TaskServices is what they call beside the message store: the loading of the configuration, the log of
-- events, the clock, YAML and the hash of a body.
pub mod Accepted
pub mod Reads
pub mod Claims
use tmuxicate.Prelude.{
  Bool, true, false, not, ◌&&◌, List, [], ◌∷◌, Option, none, some, Result, ok, err, msg, reject_if,
  if◌then◌else◌, ◌≡◌,
}
use tmuxicate.Prelude.Int.{ℤ, inc}
use tmuxicate.Text.{Text, codes, text_eq}
use tmuxicate.Protocol.Enums.{Kind, Priority, FolderState, folder_state_eq, is_priority_unset}
use tmuxicate.Protocol.Documents.{Envelope, Receipt, Attachment, Time}
use tmuxicate.Config.{ResolvedConfig}
use tmuxicate.Mailbox.Io.{World, Io, ◌>>=◌, ◌>>◌, pure, lift, wrapped_io}
use tmuxicate.Mailbox.Store.{Codec, read_receipt, update_receipt, move_receipt}
use tmuxicate.Mailbox.Messages.{read_message}
use tmuxicate.Session.Routing.Selection.{resolve_agent_config}

-- The event of TaskAccept; the fields that only other commands set are left out.
pub record TaskEvent : Type 0 where
  pub timestamp : Time
  pub agent : Text
  pub event : Text
  pub declared_state : Text
  pub message_id : Text
  pub thread : Text
  pub receipt_state : FolderState

pub record TaskServices : Type 0 where
  pub load_config : Io ResolvedConfig
  pub append_event : Text → TaskEvent → Io (Unit {0})
  pub now : Time
  pub receipts : Codec Receipt
  pub unmarshal_envelope : Text → Result Envelope
  pub sha256 : Text → Text

pub record ReadResult : Type 0 where
  pub message_id : Text
  pub seq : ℤ
  pub thread : Text
  pub from : Text
  pub to : List Text
  pub kind : Kind
  pub priority : Priority
  pub subject : Text
  pub created_at : Time
  pub requires_claim : Bool
  pub attachments : List Attachment
  pub body : Text
  pub state : FolderState

-- resolveTargetAgent
unfoldable pub resolve_target_agent : ResolvedConfig → Text → Result Text
resolve_target_agent cfg target = elim (resolve_agent_config cfg.config.agents target) [
  | ok a ↦ ok a.name
  | err e ↦ err e
]

abbrev pub acked : Time → Receipt → Receipt
acked now r = record r { acked_at = some now; revision = inc r.revision }

-- `r.ClaimedBy != nil && *r.ClaimedBy != agent`
abbrev pub claimed_by_another : Text → Option Text → Bool
claimed_by_another agent none = false
claimed_by_another agent (some owner) = not (text_eq owner agent)

abbrev pub claimed : Time → Text → Receipt → Receipt
claimed now agent r =
    if claimed_by_another agent r.claimed_by
    then r
    else record r { claimed_by = some agent; claimed_at = some now; revision = inc r.revision }

abbrev pub is_unread : FolderState → Bool
is_unread FolderState.unread = true
is_unread _ = false

abbrev pub is_claimable_kind : Kind → Bool
is_claimable_kind Kind.task = true
is_claimable_kind Kind.question = true
is_claimable_kind Kind.review_request = true
is_claimable_kind Kind.status_request = true
is_claimable_kind _ = false

abbrev pub read_result : Envelope → Text → FolderState → ReadResult
read_result env content state = record {
  message_id = env.id;
  seq = env.seq;
  thread = env.thread;
  from = env.from;
  to = env.to;
  kind = env.kind;
  priority = if is_priority_unset env.priority then Priority.normal else env.priority;
  subject = env.subject;
  created_at = env.created_at;
  requires_claim = env.requires_claim;
  attachments = env.attachments;
  body = content;
  state = state;
}

abbrev pub accept_event : Time → Text → Text → Text → TaskEvent
accept_event now agent id thread = record {
  timestamp = now;
  agent = agent;
  event = codes "task.accept";
  declared_state = codes "busy";
  message_id = id;
  thread = thread;
  receipt_state = FolderState.active;
}

module _ (services : TaskServices) where
  -- The branch of ReadMsg on an unread receipt; the state that is reported.
  unfoldable pub acknowledge : Text → Text → FolderState → Io FolderState
  acknowledge agent id state =
      if is_unread state
      then (do
        update_receipt services.receipts agent id (acked services.now)
        move_receipt services.receipts agent id FolderState.unread FolderState.active
        pure FolderState.active)
      else pure state

  unfoldable pub read_msg : Text → Text → Io ReadResult
  unfolding resolve_target_agent acknowledge
  read_msg agent id = do
    cfg ← services.load_config
    name ← lift (resolve_target_agent cfg agent)
    receipt ← wrapped_io "read receipt" (read_receipt services.receipts name id)
    message ← read_message services.unmarshal_envelope services.sha256 id
    state ← acknowledge name id receipt.folder_state
    pure (read_result message.0 message.1 state)

  -- The claim of TaskAccept, and its check.
  unfoldable pub claim : Text → Text → Io (Unit {0})
  claim agent id = do
    update_receipt services.receipts agent id (claimed services.now agent)
    receipt ← read_receipt services.receipts agent id
    lift (reject_if (claimed_by_another agent receipt.claimed_by) (msg "message already claimed"))

  unfoldable pub claim_if : Bool → Text → Text → Io (Unit {0})
  unfolding claim
  claim_if true agent id = claim agent id
  claim_if false agent id = pure tt

  unfoldable pub task_accept : Text → Text → Io (Unit {0})
  unfolding resolve_target_agent read_msg claim_if
  task_accept agent id = do
    cfg ← services.load_config
    name ← lift (resolve_target_agent cfg agent)
    result ← read_msg name id
    lift (reject_if (not (is_claimable_kind result.kind)) (msg "message is not a task"))
    claim_if result.requires_claim name id
    services.append_event name (accept_event services.now name id result.thread)

  -- loadActiveTask: the message, its receipt and the name of the agent.
  unfoldable pub load_active_task : Text → Text → Io (ReadResult × Receipt × Text)
  unfolding resolve_target_agent read_msg
  load_active_task agent id = do
    cfg ← services.load_config
    name ← lift (resolve_target_agent cfg agent)
    receipt ← read_receipt services.receipts name id
    lift (
        reject_if (not (folder_state_eq receipt.folder_state FolderState.active))
          (msg "task must be active"))
    result ← read_msg name id
    pure (result, receipt, name)
