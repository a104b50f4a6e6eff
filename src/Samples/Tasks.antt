-- ===== src/Samples/Tasks.antt =====
-- The theorems on TaskAccept at a message that its reader claims.
use tmuxicate.Prelude.{◌≡◌, refl, inl, inr, true, [], ◌∷◌, none, some, ok, Bool-cases, subst}
use tmuxicate.Prelude.Int.{pos}
use tmuxicate.Text.{Text, codes, text_eq}
use tmuxicate.Text.Decimal.{padded}
use tmuxicate.Protocol.Enums.{Kind, Priority, FolderState}
use tmuxicate.Protocol.Documents.{Envelope, Receipt}
use tmuxicate.Protocol.Validation.Mail.{
  validate_receipt, receipt_schema_v1, message_schema_v1, body_format_md,
}
use tmuxicate.Config.{ResolvedConfig}
use tmuxicate.Mailbox.Files.{
  Files, FilePath, inbox, envelope, body, read_at, path_eq, path_eq→, receipt_file_name,
  names_message, glob_star,
}
use tmuxicate.Mailbox.Io.{World}
use tmuxicate.Mailbox.Store.{glob_receipts, find_in}
use tmuxicate.Mailbox.Store.Consistency.{IsStored, IsConsistent}
use tmuxicate.Mailbox.Store.Held.{Held}
use tmuxicate.Session.Routing.Selection.{resolve_agent_config}
use tmuxicate.Session.Tasks.{TaskServices, resolve_target_agent, task_accept}
use tmuxicate.Session.Tasks.Accepted.{WritesNoMail, task_accept-IsConsistent}
use tmuxicate.Session.Tasks.Claims.{taken, task_accept-claims}
use tmuxicate.Samples.Packing.{receipt_codec, receipt_codec-marshal, put_receipt}
use tmuxicate.Samples.Settings.{agent_of, resolved_of}

abbrev dev : Text
dev = codes "dev"

abbrev id : Text
id = codes "msg_000000000001"

abbrev hash : Text
hash = codes "8f434346648f6b96df89dda901c5176b10a6d83961dd3c1ac88b59b2dc327aa4"

abbrev resolved : ResolvedConfig
resolved = resolved_of (agent_of dev (pos 1) (codes "local") ∷ []) []

-- Active, and not claimed.
abbrev receipt : Receipt
receipt = record {
  schema = receipt_schema_v1;
  message_id = id;
  seq = pos 1;
  recipient = dev;
  folder_state = FolderState.active;
  revision = pos 2;
  acked_at = some 5;
  claimed_by = none;
  claimed_at = none;
  done_at = none;
  notify_attempts = pos 0;
  last_notified_at = none;
  next_retry_at = none;
  last_error = none;
}

abbrev message : Envelope
message = record {
  schema = message_schema_v1;
  id = id;
  seq = pos 1;
  session = codes "s";
  thread = codes "thr_000000000001";
  kind = Kind.task;
  from = codes "lead";
  to = dev ∷ codes "ann" ∷ [];
  created_at = 4;
  body_format = body_format_md;
  body_sha256 = hash;
  body_bytes = pos 2;
  reply_to = none;
  subject = codes "build";
  priority = Priority.unset;
  requires_ack = true;
  requires_claim = true;
  deliver_after = none;
  expires_at = none;
  budget = none;
  attachments = [];
  meta = [];
}

abbrev place : FilePath
place = inbox dev FolderState.active (receipt_file_name receipt)

abbrev mail : Files
mail = (envelope id, codes "message") ∷ (body id, codes "hi") ∷ []

abbrev world : World
world = record {
  files = (place, put_receipt receipt) ∷ mail;
  temps = λ n. none;
  next_temp = 0;
  faults = [];
}

abbrev services : TaskServices
services = record {
  load_config = λ w. (ok resolved, w);
  append_event = λ agent e w. (ok tt, w);
  now = 9;
  receipts = receipt_codec;
  unmarshal_envelope = λ t. ok message;
  sha256 = λ t. hash;
}

services-WritesNoMail : WritesNoMail services
services-WritesNoMail = record {
  load_config-files = λ w. refl;
  append_event-files = λ agent e w. refl;
}

receipt-valid : validate_receipt receipt ≡ ok tt
unfolding validate_receipt text_eq
receipt-valid = refl

parsed : receipt_codec.unmarshal (put_receipt receipt) ≡ ok receipt
parsed = receipt_codec.round_trip receipt (put_receipt receipt) (receipt_codec-marshal receipt)

read_first :
    (q : FilePath) (d c : Text) (rest : Files)
    → read_at q rest ≡ none
    → read_at q ((place, d) ∷ rest) ≡ some c
    → (place ≡ q) × (d ≡ c)
unfolding read_at
read_first q d c rest h k = elim (Bool-cases (path_eq place q)) [
  | inl e ↦ let same : some d ≡ some c = rw e at k in (path_eq→ place q e, cc)
  | inr e ↦ let none_is : none ≡ some c = rw (e, h) at k in cc
]

no_receipt : (a n : Text) (f : FolderState) → read_at (inbox a f n) mail ≡ none
unfolding read_at path_eq
no_receipt a n f = refl

world-IsConsistent : IsConsistent receipt_codec world.files
world-IsConsistent = record {
  stored = λ a f n c found.
      let (same, content) =
        read_first (inbox a f n) (put_receipt receipt) c mail (no_receipt a n f) found in
      let folder : FolderState.active ≡ f = cc in
      subst (λ t. IsStored receipt_codec f t) content
        (subst (λ g. IsStored receipt_codec g (put_receipt receipt)) folder
          (receipt, parsed, receipt-valid, refl));
}

world-Held : Held receipt_codec dev id place FolderState.active receipt world.files
unfolding find_in glob_receipts text_eq read_at names_message glob_star receipt_file_name path_eq
    padded
world-Held = (put_receipt receipt, record { place = refl; there = refl; parsed = parsed })

resolves : resolve_target_agent resolved dev ≡ ok dev
unfolding resolve_target_agent resolve_agent_config text_eq
resolves = refl

message_there : read_at (envelope id) world.files ≡ some (codes "message")
unfolding read_at path_eq text_eq
message_there = refl

stable :
    (w v : World) (cfg : ResolvedConfig)
    → services.load_config w ≡ (ok cfg, v)
    → (resolve_target_agent cfg dev ≡ ok dev) × (resolve_target_agent cfg dev ≡ ok dev)
stable w v cfg e =
    let same : resolved ≡ cfg = cc in
    let found = subst (λ c. resolve_target_agent c dev ≡ ok dev) same resolves in (found, found)

task_accept-IsConsistent_example :
    IsConsistent receipt_codec (task_accept services dev id world).1.files
task_accept-IsConsistent_example =
    task_accept-IsConsistent services services-WritesNoMail dev id world world-IsConsistent

accepted : (task_accept services dev id world).0 ≡ ok tt
unfolding task_accept receipt_codec tmuxicate.Mailbox.Io.◌>>=◌ resolve_agent_config text_eq
    tmuxicate.Mailbox.Io.wrapped_io tmuxicate.Mailbox.Store.read_receipt
    tmuxicate.Mailbox.Store.find_receipt_path names_message receipt_file_name padded
    tmuxicate.Mailbox.Store.read_receipt_file tmuxicate.Mailbox.Io.read_file
    tmuxicate.Mailbox.Io.next_fault read_at path_eq validate_receipt
    tmuxicate.Mailbox.Messages.read_message tmuxicate.Mailbox.Io.later_faults glob_star
    tmuxicate.Mailbox.Files.write_at tmuxicate.Mailbox.Io.create_temp
    tmuxicate.Mailbox.Io.or_cleanup tmuxicate.Mailbox.Io.remove_temp
    tmuxicate.Mailbox.Io.rename_temp tmuxicate.Mailbox.Io.sync_dir tmuxicate.Mailbox.Io.syscall
    tmuxicate.Mailbox.Io.write_temp tmuxicate.Mailbox.Messages.validate_body
    tmuxicate.Mailbox.Store.check_update find_in glob_receipts tmuxicate.Mailbox.Store.lock_receipt
    tmuxicate.Mailbox.Store.update_receipt tmuxicate.Mailbox.Store.write_receipt_at_path
    tmuxicate.Mailbox.Write.write_file_atomically tmuxicate.Prelude.Int.inc
    tmuxicate.Protocol.Validation.Mail.validate_envelope tmuxicate.Protocol.Validation.is_hex_sha256
    tmuxicate.Session.Tasks.acknowledge tmuxicate.Session.Tasks.claim
    tmuxicate.Session.Tasks.claim_if tmuxicate.Session.Tasks.read_msg resolve_target_agent
    tmuxicate.Text.Decimal.decimal tmuxicate.Text.Decimal.zeros tmuxicate.Text.byte_len
accepted = refl

task_accept-claims_example :
    Held receipt_codec dev id place FolderState.active
      (taken 9 dev receipt)
      (task_accept services dev id world).1.files
task_accept-claims_example =
    task_accept-claims services services-WritesNoMail dev dev id stable place FolderState.active
      receipt world message refl refl (codes "message", message_there, refl) world-Held accepted
