-- ===== src/Session/Tasks/Reads.antt =====
-- ReadMsg of internal/session/read_msg.go on a message that requires a claim.
use tmuxicate.Prelude.{
  ◌≡◌, refl, sym, ap, ◌∙◌, true, false, Result, Error, ok, err, some, subst, ok_value, arith,
}
use tmuxicate.Text.{Text}
use tmuxicate.Protocol.Enums.{FolderState}
use tmuxicate.Protocol.Documents.{Receipt, Envelope}
use tmuxicate.Mailbox.Files.{Files, FilePath, envelope, read_at}
use tmuxicate.Mailbox.Io.{World, Io, ◌>>=◌, pure, lift, wrapped_io, read_file, syscall}
use tmuxicate.Mailbox.Store.{read_receipt}
use tmuxicate.Config.{ResolvedConfig}
use tmuxicate.Mailbox.Store.Effects.{quiet_result, lift-result, wrapped-result}
use tmuxicate.Mailbox.Store.Held.{Held, read_receipt-value}
use tmuxicate.Mailbox.Messages.{read_message, read_message-files}
use tmuxicate.Session.Tasks.{
  TaskServices, ReadResult, acknowledge, is_unread, read_result, read_msg, resolve_target_agent,
}
use tmuxicate.Session.Tasks.Accepted.{WritesNoMail, wrapped_receipt-files}

read_message-envelope :
    (services : TaskServices) (id : Text) (w v : World) {bytes : Text} {env : Envelope}
    {m : Envelope × Text}
    → read_at (envelope id) w.files ≡ some bytes
    → services.unmarshal_envelope bytes ≡ ok env
    → read_message services.unmarshal_envelope services.sha256 id w ≡ (ok m, v)
    → m.0 ≡ env
unfolding read_message ◌>>=◌ wrapped_io read_file syscall
read_message-envelope services id w v there parsed h = ground arith

-- ReadMsg has changed no file; if it succeeds, the message requires a claim.
abbrev pub ReadClaimed : Files → Result ReadResult → Files → Type 0
ReadClaimed before result after =
    (after ≡ before) × ((a : ReadResult) → result ≡ ok a → a.requires_claim ≡ true)

-- The envelope that is on file for a message.
abbrev pub OnFile : TaskServices → Text → Envelope → Files → Type 0
OnFile services id env files =
    (bytes : Text) × (read_at (envelope id) files ≡ some bytes)
    × (services.unmarshal_envelope bytes ≡ ok env)

module _ (services : TaskServices) (quiet : WritesNoMail services) (target agent id : Text)
    (stable : (w v : World) (cfg : ResolvedConfig)
      → services.load_config w ≡ (ok cfg, v)
      → (resolve_target_agent cfg target ≡ ok agent) × (resolve_target_agent cfg agent ≡ ok agent))
    (p : FilePath) (folder : FolderState) (r : Receipt) where
  failed_read : (before : Files) (e : Error) → ReadClaimed before (err e) before
  failed_read before e = (refl, λ a h. cc)

  -- The steps of ReadMsg behind the resolution of the agent.
  abbrev reading : Text → Io ReadResult
  reading name = do
    receipt ← wrapped_io "read receipt" (read_receipt services.receipts name id)
    message ← read_message services.unmarshal_envelope services.sha256 id
    state ← acknowledge services name id receipt.folder_state
    pure (read_result message.0 message.1 state)

  acknowledged :
      (before : Files) (a : Receipt) (m : Envelope × Text) (v : World)
      → is_unread a.folder_state ≡ false
      → m.0.requires_claim ≡ true
      → v.files ≡ before
      → let end =
          (do
            state ← acknowledge services agent id a.folder_state
            pure (read_result m.0 m.1 state))
            v in
        ReadClaimed before end.0 end.1.files
  unfolding acknowledge ◌>>=◌
  acknowledged before a m v read required s =
      rw read (s, λ x h. ap (λ y. y.requires_claim) (sym (ok_value h)) ∙ required)

  wrapped_value :
      (w v : World) {a : Receipt}
      → Held services.receipts agent id p folder r w.files
      → wrapped_io "read receipt" (read_receipt services.receipts agent id) w ≡ (ok a, v)
      → a ≡ r
  unfolding wrapped_io
  wrapped_value w v {a} h e =
      let u = (read_receipt services.receipts agent id w).1 in
      read_receipt-value services.receipts agent id p folder r w u h
        (pair_of (wrapped-result _ _ (ap (λ t. t.0) e)))
    where
      pair_of :
          (read_receipt services.receipts agent id w).0 ≡ ok a
          → read_receipt services.receipts agent id w
            ≡ (ok a, (read_receipt services.receipts agent id w).1)
      pair_of k = ap (λ x. (x, (read_receipt services.receipts agent id w).1)) k

  reading-ReadClaimed :
      (w v : World) (env : Envelope)
      → is_unread r.folder_state ≡ false
      → env.requires_claim ≡ true
      → (bytes : Text) → read_at (envelope id) w.files ≡ some bytes
      → services.unmarshal_envelope bytes ≡ ok env
      → Held services.receipts agent id p folder r w.files
      → v.files ≡ w.files
      → ReadClaimed w.files (reading agent v).0 (reading agent v).1.files
  reading-ReadClaimed w v env read required bytes there parsed h s =
      quiet_result (ReadClaimed w.files)
        (wrapped_io "read receipt" (read_receipt services.receipts agent id)) _ v
        (wrapped_receipt-files services agent id v) (λ e. (s, λ a k. cc))
        λ a v1 e1 s1.
          quiet_result (ReadClaimed w.files)
            (read_message services.unmarshal_envelope services.sha256 id) _ v1
            (read_message-files services.unmarshal_envelope services.sha256 id v1)
            (λ e. (s1 ∙ s, λ x k. cc))
            λ m v2 e2 s2.
              acknowledged w.files a m v2
                (ap (λ x. is_unread x.folder_state)
                    (wrapped_value v v1
                      (subst (Held services.receipts agent id p folder r) (sym s) h) e1)
                  ∙ read)
                (ap (λ x. x.requires_claim)
                    (read_message-envelope services id v1 v2
                      (ap (read_at (envelope id)) (s1 ∙ s) ∙ there) parsed e2)
                  ∙ required)
                (s2 ∙ s1 ∙ s)

  pub read_msg-ReadClaimed :
      (w : World) (env : Envelope)
      → is_unread r.folder_state ≡ false
      → env.requires_claim ≡ true
      → OnFile services id env w.files
      → Held services.receipts agent id p folder r w.files
      → ReadClaimed w.files (read_msg services agent id w).0 (read_msg services agent id w).1.files
  unfolding read_msg
  read_msg-ReadClaimed w env read required (bytes, there, parsed) h =
      quiet_result (ReadClaimed w.files) services.load_config _ w (quiet.load_config-files w)
        (failed_read w.files)
        λ cfg w1 e1 s1.
          quiet_result (ReadClaimed w.files) (lift (resolve_target_agent cfg agent)) _ w1 refl
            (λ e. (s1, λ a k. cc))
            λ name w2 e2 s2.
              named name w2
                (ok_value
                  (sym (lift-result (resolve_target_agent cfg agent) e2) ∙ (stable w w1 cfg e1).1))
                (s2 ∙ s1)
    where
      named :
          (name : Text) (v : World)
          → name ≡ agent
          → v.files ≡ w.files
          → ReadClaimed w.files (reading name v).0 (reading name v).1.files
      named name v e s =
          subst (λ n. ReadClaimed w.files (reading n v).0 (reading n v).1.files) (sym e)
            (reading-ReadClaimed w v env read required bytes there parsed h s)
