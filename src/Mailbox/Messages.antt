-- ===== src/Mailbox/Messages.antt =====
-- ReadMessage of internal/mailbox/store.go. `unmarshal` stands for gopkg.in/yaml.v3 on an envelope and
-- `sha256` for crypto/sha256 in lower-case hexadecimal digits.
use tmuxicate.Prelude.{not, Result, ok, err, msg, wrapped, if◌then◌else◌}
use tmuxicate.Prelude.Int.{pos, int_eq}
use tmuxicate.Text.{Text, text_eq, byte_len}
use tmuxicate.Protocol.Documents.{Envelope}
use tmuxicate.Protocol.Validation.Mail.{validate_envelope}
use tmuxicate.Mailbox.Files.{envelope, body}
use tmuxicate.Mailbox.Io.{World, Io, ◌>>=◌, ◌>>◌, pure, lift, read_file, wrapped_io, syscall}
use tmuxicate.Prelude.{◌≡◌, arith}

unfoldable pub validate_body : (Text → Text) → Envelope → Text → Result (Unit {0})
validate_body sha256 env content =
    if not (text_eq env.body_sha256 (sha256 content))
    then err (msg "body sha256 mismatch")
    else if not (int_eq env.body_bytes (pos (byte_len content)))
    then err (msg "body byte count mismatch")
    else ok tt

module _ (unmarshal : Text → Result Envelope) (sha256 : Text → Text) where
  unfoldable pub read_message : Text → Io (Envelope × Text)
  unfolding validate_body
  read_message id = do
    bytes ← wrapped_io "read envelope" (read_file (envelope id))
    env ← lift (wrapped "unmarshal envelope" (unmarshal bytes))
    lift (wrapped "validate envelope" (validate_envelope env))
    content ← wrapped_io "read body" (read_file (body id))
    lift (validate_body sha256 env content)
    pure (env, content)

  pub read_message-files : (id : Text) (w : World) → (read_message id w).1.files ≡ w.files
  unfolding read_message ◌>>=◌ wrapped_io read_file syscall
  read_message-files id w = ground arith
