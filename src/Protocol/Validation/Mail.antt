-- ===== src/Protocol/Validation/Mail.antt =====
-- Envelope.Validate and Receipt.Validate.
use tmuxicate.Prelude.{
  ◌&&◌, not, ok, ◌>>◌, Result, reject_if, is_nil, msg, at, ltb, none, some, Option, Bool, false,
}
use tmuxicate.Prelude.Int.{is_neg, is_not_pos}
use tmuxicate.Text.{Text, codes, text_eq, is_blank}
use tmuxicate.Protocol.Enums.{
  is_valid_kind, is_valid_priority, is_valid_folder_state, is_priority_unset, FolderState,
}
use tmuxicate.Protocol.Documents.{Envelope, Receipt, Budget, Time, is_zero}
use tmuxicate.Protocol.Validation.{each, present_and, is_nil_ptr, when_present, is_hex_sha256}

abbrev pub message_schema_v1 : Text
message_schema_v1 = codes "tmuxicate/message/v1"

abbrev pub body_format_md : Text
body_format_md = codes "markdown"

abbrev pub receipt_schema_v1 : Text
receipt_schema_v1 = codes "tmuxicate/receipt/v1"

check_budget : Budget → Result (Unit {0})
check_budget b = do
  reject_if (is_neg b.max_turns) (msg "budget.max_turns must be >= 0")
  reject_if (is_neg b.max_lines) (msg "budget.max_lines must be >= 0")
  reject_if (present_and is_zero b.respond_by) (msg "budget.respond_by must not be zero")

-- e.ExpiresAt.Before(*e.DeliverAfter), where both are there
expires_early : Option Time → Option Time → Bool
expires_early none deliver = false
expires_early (some e) none = false
expires_early (some e) (some d) = ltb e d

unfoldable pub validate_envelope : Envelope → Result (Unit {0})
unfolding check_budget expires_early is_hex_sha256
validate_envelope e = do
  reject_if (not (text_eq e.schema message_schema_v1)) (msg "schema must be tmuxicate/message/v1")
  reject_if (is_nil e.id) (msg "id is required")
  reject_if (is_not_pos e.seq) (msg "seq must be > 0")
  reject_if (is_nil e.session) (msg "session is required")
  reject_if (is_nil e.thread) (msg "thread is required")
  reject_if (not (is_valid_kind e.kind)) (msg "invalid kind")
  reject_if (is_nil e.from) (msg "from is required")
  reject_if (is_nil e.to) (msg "to must contain at least one recipient")
  each (λ i to. reject_if (is_nil to) (at "to[" i "] is required")) 0 e.to
  reject_if (is_zero e.created_at) (msg "created_at is required")
  reject_if (not (text_eq e.body_format body_format_md)) (msg "body_format must be markdown")
  reject_if (not (is_hex_sha256 e.body_sha256))
      (msg "body_sha256 must be a 64-character lowercase hex string")
  reject_if (is_neg e.body_bytes) (msg "body_bytes must be >= 0")
  reject_if (not (is_priority_unset e.priority) && not (is_valid_priority e.priority))
      (msg "invalid priority")
  reject_if (present_and is_zero e.deliver_after) (msg "deliver_after must not be zero")
  reject_if (present_and is_zero e.expires_at) (msg "expires_at must not be zero")
  reject_if (expires_early e.expires_at e.deliver_after) (msg "expires_at must be >= deliver_after")
  when_present check_budget e.budget
  each
      (λ i att. do
        reject_if (is_nil att.path) (at "attachments[" i "].path is required")
        reject_if (is_nil att.media_type) (at "attachments[" i "].media_type is required")
        reject_if (not (is_hex_sha256 att.sha256))
            (at "attachments[" i "].sha256 must be a 64-character lowercase hex string"))
      0 e.attachments

-- The switch on the folder at the end of Receipt.Validate.
check_folder : FolderState → Option Time → Result (Unit {0})
check_folder FolderState.unread done_at =
    reject_if (not (is_nil_ptr done_at)) (msg "done_at must be nil for unread receipts")
check_folder FolderState.done done_at =
    reject_if (is_nil_ptr done_at) (msg "done receipts require done_at")
check_folder _ done_at = ok tt

unfoldable pub validate_receipt : Receipt → Result (Unit {0})
unfolding check_folder
validate_receipt r = do
  reject_if (not (text_eq r.schema receipt_schema_v1)) (msg "schema must be tmuxicate/receipt/v1")
  reject_if (is_nil r.message_id) (msg "message_id is required")
  reject_if (is_not_pos r.seq) (msg "seq must be > 0")
  reject_if (is_nil r.recipient) (msg "recipient is required")
  reject_if (not (is_valid_folder_state r.folder_state)) (msg "invalid folder_state")
  reject_if (is_neg r.revision) (msg "revision must be >= 0")
  reject_if (is_neg r.notify_attempts) (msg "notify_attempts must be >= 0")
  reject_if (present_and is_zero r.acked_at) (msg "acked_at must not be zero")
  reject_if (present_and is_nil r.claimed_by) (msg "claimed_by must not be empty")
  reject_if (present_and is_zero r.claimed_at) (msg "claimed_at must not be zero")
  reject_if (present_and is_zero r.done_at) (msg "done_at must not be zero")
  reject_if (present_and is_zero r.last_notified_at) (msg "last_notified_at must not be zero")
  reject_if (present_and is_zero r.next_retry_at) (msg "next_retry_at must not be zero")
  reject_if (present_and is_blank r.last_error) (msg "last_error must not be blank")
  check_folder r.folder_state r.done_at
