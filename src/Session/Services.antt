-- ===== src/Session/Services.antt =====
-- What the commands of internal/session on blockers and reviews call, as an interface: RouteChildTask, Send
-- and Reply, loadResolvedConfigFromStateDir, the clock and the text of an error.
use tmuxicate.Prelude.{Error}
use tmuxicate.Text.{Text}
use tmuxicate.Protocol.Documents.{ChildTask, RouteChildTaskRequest, Receipt, Time}
use tmuxicate.Config.{ResolvedConfig}
use tmuxicate.Mailbox.Io.{Io}
use tmuxicate.Mailbox.Store.{Codec}
use tmuxicate.Mailbox.Coordinator.{Formats}

pub record Services : Type 0 where
  pub load_config : Io ResolvedConfig
  pub route : ResolvedConfig → RouteChildTaskRequest → Io ChildTask
  -- Send of a decision: the owner, the body, the thread and the message that it replies to
  pub send_decision : Text → Text → Text → Text → Io Text
  -- Reply: the agent, the parent and the body
  pub reply : Text → Text → Text → Io Text
  pub now : Time
  pub show_error : Error → Text
  pub receipts : Codec Receipt
  pub documents : Formats
