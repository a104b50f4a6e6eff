-- ===== src/Session/Tasks/Accepted.antt =====
-- ReadMsg and TaskAccept of internal/session, and the receipts on file.
use tmuxicate.Prelude.{
  ◌≡◌, refl, Bool, true, false, reject_if, Bool-cases, inl, inr, subst, sym, ◌∙◌,
}
use tmuxicate.Text.{Text}
use tmuxicate.Protocol.Enums.{FolderState}
use tmuxicate.Mailbox.Io.{World, Io, ◌>>=◌, lift, wrapped_io}
use tmuxicate.Mailbox.Store.{read_receipt, update_receipt, move_receipt}
use tmuxicate.Mailbox.Store.Consistency.{IsConsistent, update-IsConsistent, move-IsConsistent}
use tmuxicate.Mailbox.Store.Effects.{bind_rule, quiet_rule, find-keeps, read_receipt_file-files}
use tmuxicate.Mailbox.Messages.{read_message, read_message-files}
use tmuxicate.Session.Tasks.{
  TaskServices, TaskEvent, resolve_target_agent, acknowledge, read_msg, claim, claim_if,
  task_accept, is_unread, acked, claimed,
}

-- What is assumed of the loading of the configuration and of the log of events: they write none of
-- the files of FilePath.
pub record WritesNoMail (services : TaskServices) : Type 0 where
  pub load_config-files : (w : World) → (services.load_config w).1.files ≡ w.files
  pub append_event-files :
      (agent : Text) (e : TaskEvent) (w : World)
      → (services.append_event agent e w).1.files ≡ w.files

pub read_receipt-files :
    (services : TaskServices) (agent id : Text) (w : World)
    → (read_receipt services.receipts agent id w).1.files ≡ w.files
unfolding read_receipt
read_receipt-files services agent id w =
    quiet_rule (λ fs. fs ≡ w.files) _ _ w (find-keeps agent id w) refl
      λ found v e s. read_receipt_file-files services.receipts found.0 v ∙ s

pub wrapped_receipt-files :
    (services : TaskServices) (agent id : Text) (w : World)
    → (wrapped_io "read receipt" (read_receipt services.receipts agent id) w).1.files ≡ w.files
unfolding wrapped_io
wrapped_receipt-files services agent id w = read_receipt-files services agent id w

module _ (services : TaskServices) (quiet : WritesNoMail services) where
  abbrev Consistent : World → Type 0
  Consistent w = IsConsistent services.receipts w.files

  through :
      {A B : Type 0} (m : Io A) (f : A → Io B) (w : World)
      → (m w).1.files ≡ w.files
      → Consistent w
      → ((a : A) (v : World) → Consistent v → Consistent (f a v).1)
      → Consistent ((m >>= f) w).1
  through m f w same h k =
      bind_rule (IsConsistent services.receipts) m f w
        (subst (IsConsistent services.receipts) (sym same) h) λ a v _ g. k a v g

  acknowledge-IsConsistent :
      (agent id : Text) (state : FolderState) (w : World)
      → Consistent w
      → Consistent (acknowledge services agent id state w).1
  unfolding acknowledge
  acknowledge-IsConsistent agent id state w h = elim (Bool-cases (is_unread state)) [
    | inl e ↦ rw e (
        bind_rule (IsConsistent services.receipts) (update_receipt services.receipts agent id _) _ w
          (update-IsConsistent services.receipts agent id (acked services.now) w h)
          λ _ v _ g.
            bind_rule (IsConsistent services.receipts) (move_receipt services.receipts agent id _ _)
              _ v
              (move-IsConsistent services.receipts agent id FolderState.unread FolderState.active v
                g)
              λ _ _ _ k. k)
    | inr e ↦ rw e h
  ]

  -- ReadMsg keeps every stored receipt valid and in the folder that it names, whatever calls fail.
  pub read_msg-IsConsistent :
      (agent id : Text) (w : World) → Consistent w → Consistent (read_msg services agent id w).1
  unfolding read_msg
  read_msg-IsConsistent agent id w h =
      through services.load_config _ w (quiet.load_config-files w) h λ cfg w1 h1.
        through (lift (resolve_target_agent cfg agent)) _ w1 refl h1 λ name w2 h2.
          through (wrapped_io "read receipt" (read_receipt services.receipts name id)) _ w2
            (wrapped_receipt-files services name id w2) h2
            λ receipt w3 h3.
              through (read_message services.unmarshal_envelope services.sha256 id) _ w3
                (read_message-files services.unmarshal_envelope services.sha256 id w3) h3
                λ message w4 h4.
                  bind_rule (IsConsistent services.receipts)
                    (acknowledge services name id receipt.folder_state) _ w4
                    (acknowledge-IsConsistent name id receipt.folder_state w4 h4) λ _ _ _ k. k

  claim_if-IsConsistent :
      (required : Bool) (agent id : Text) (w : World)
      → Consistent w
      → Consistent (claim_if services required agent id w).1
  unfolding claim_if claim
  claim_if-IsConsistent false agent id w h = h
  claim_if-IsConsistent true agent id w h =
      bind_rule (IsConsistent services.receipts) (update_receipt services.receipts agent id _) _ w
        (update-IsConsistent services.receipts agent id (claimed services.now agent) w h)
        λ _ v _ g.
          through (read_receipt services.receipts agent id) _ v
            (read_receipt-files services agent id v) g λ _ _ k. k

  -- TaskAccept keeps every stored receipt valid and in the folder that it names, whatever calls fail.
  pub task_accept-IsConsistent :
      (agent id : Text) (w : World)
      → IsConsistent services.receipts w.files
      → IsConsistent services.receipts (task_accept services agent id w).1.files
  unfolding task_accept
  task_accept-IsConsistent agent id w h =
      through services.load_config _ w (quiet.load_config-files w) h λ cfg w1 h1.
        through (lift (resolve_target_agent cfg agent)) _ w1 refl h1 λ name w2 h2.
          bind_rule (IsConsistent services.receipts) (read_msg services name id) _ w2
            (read_msg-IsConsistent name id w2 h2)
            λ result w3 _ h3. through (lift (reject_if _ _)) _ w3 refl h3 λ _ w4 h4.
              bind_rule (IsConsistent services.receipts)
                (claim_if services result.requires_claim name id) _ w4
                (claim_if-IsConsistent result.requires_claim name id w4 h4)
                λ _ w5 _ h5.
                  subst (IsConsistent services.receipts) (sym (quiet.append_event-files name _ w5))
                    h5
