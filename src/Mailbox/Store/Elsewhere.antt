-- ===== src/Mailbox/Store/Elsewhere.antt =====
-- What UpdateReceipt and MoveReceipt of internal/mailbox/store.go leave alone: whatever writing and
-- removing inbox files keeps.
use tmuxicate.Prelude.{◌≡◌, refl, sym, subst, inl, inr, ok, wrapped, reject_if, not}
use tmuxicate.Text.{Text}
use tmuxicate.Protocol.Enums.{FolderState, folder_state_eq}
use tmuxicate.Protocol.Documents.{Receipt}
use tmuxicate.Protocol.Validation.Mail.{validate_receipt}
use tmuxicate.Mailbox.Files.{Files, inbox, write_at, remove_at, receipt_file_name}
use tmuxicate.Mailbox.Io.{World, Io, ◌>>=◌, ◌>>◌, lift, syscall, sync_dir, remove_file, wrapped_io}
use tmuxicate.Mailbox.Store.Effects.{wrapped_write-outcome}
use tmuxicate.Mailbox.Store.{
  Codec, find_receipt_path, lock_receipt, read_receipt_file, read_receipt, write_receipt_at_path,
  check_update, update_receipt, move_receipt,
}
use tmuxicate.Mailbox.Store.Effects.{
  bind_rule, quiet_rule, find-keeps, lock-files, syscall-files, sync-files, remove-outcome,
  read_receipt_file-files, find-result,
}

module _ (yaml : Codec Receipt) (P : Files → Type 0)
    (keeps_write : (agent : Text) (folder : FolderState) (name content : Text) (fs : Files)
      → P fs
      → P (write_at (inbox agent folder name) content fs))
    (keeps_remove : (agent : Text) (folder : FolderState) (name : Text) (fs : Files)
      → P fs
      → P (remove_at (inbox agent folder name) fs)) where
  quiet :
      {A B : Type 0} (m : Io A) (f : A → Io B) (w : World)
      → (m w).1.files ≡ w.files
      → P w.files
      → ((a : A) (w' : World) → m w ≡ (ok a, w') → P w'.files → P (f a w').1.files)
      → P ((m >>= f) w).1.files
  quiet m f w q h k = quiet_rule P m f w q h λ a w' e p. k a w' e (subst P (sym p) h)

  write-P :
      (agent : Text) (folder : FolderState) (name : Text) (r : Receipt) (w : World)
      → P w.files
      → P (write_receipt_at_path yaml (inbox agent folder name) r w).1.files
  unfolding write_receipt_at_path
  write-P agent folder name r w h =
      quiet (lift (wrapped "marshal receipt" (yaml.marshal r))) _ w refl h λ content w1 _ h1.
        elim (wrapped_write-outcome "write receipt" (inbox agent folder name) content w1) [
          | inl e ↦ subst P (sym e) (keeps_write agent folder name content w1.files h1)
          | inr e ↦ subst P (sym e.0) h1
        ]

  pub update_receipt-P :
      (agent id : Text) (fn : Receipt → Receipt) (w : World)
      → P w.files
      → P (update_receipt yaml agent id fn w).1.files
  unfolding update_receipt
  update_receipt-P agent id fn w h = quiet lock_receipt _ w (lock-files w) h λ _ w1 _ h1.
      quiet (find_receipt_path agent id) _ w1 (find-keeps agent id w1) h1 λ found w2 e2 h2.
        quiet (read_receipt_file yaml found.0) _ w2 (read_receipt_file-files yaml found.0 w2) h2
          λ original w3 _ h3.
            quiet (lift (check_update original found.1 (fn original))) _ w3 refl h3 λ _ w4 _ h4.
              let (name, shape) = find-result agent id w1 w2 e2 in
              rw shape (write-P agent found.1 name (fn original) w4 h4)

  pub move_receipt-P :
      (agent id : Text) (from to : FolderState) (w : World)
      → P w.files
      → P (move_receipt yaml agent id from to w).1.files
  unfolding move_receipt wrapped_io
  move_receipt-P agent id from to w h = quiet lock_receipt _ w (lock-files w) h λ _ w1 _ h1.
      quiet (find_receipt_path agent id) _ w1 (find-keeps agent id w1) h1 λ found w2 e2 h2.
        quiet (lift (reject_if (not (folder_state_eq found.1 from)) _)) _ w2 refl h2 λ _ w3 _ h3.
          quiet (read_receipt_file yaml found.0) _ w3 (read_receipt_file-files yaml found.0 w3) h3
            λ original w4 _ h4.
              let (name, shape) = find-result agent id w1 w2 e2 in
              rw shape (moved found.1 name (record original { folder_state = to }) w4 h4)
    where
      moved :
          (folder : FolderState) (name : Text) (r : Receipt) (v : World)
          → P v.files
          → P
              ((do
                lift (wrapped "validate moved receipt" (validate_receipt r))
                syscall "create dir"
                write_receipt_at_path yaml (inbox agent to (receipt_file_name r)) r
                wrapped_io "remove old receipt after move" (remove_file (inbox agent folder name))
                wrapped_io "sync source inbox dir" sync_dir
                wrapped_io "sync destination inbox dir" sync_dir)
                v).1.files
      moved folder name r v k =
          quiet (lift (wrapped "validate moved receipt" (validate_receipt r))) _ v refl k
            λ _ v1 _ k1.
              quiet (syscall "create dir") _ v1 (syscall-files "create dir" v1) k1 λ _ v2 _ k2.
                bind_rule P (write_receipt_at_path yaml (inbox agent to (receipt_file_name r)) r) _
                  v2 (write-P agent to (receipt_file_name r) r v2 k2)
                  λ _ v3 _ k3.
                    bind_rule P
                      (wrapped_io "remove old receipt after move"
                        (remove_file (inbox agent folder name)))
                      _ v3
                      (elim (remove-outcome (inbox agent folder name) v3) [
                        | inl e ↦ subst P (sym e) k3
                        | inr e ↦ subst P (sym e) (keeps_remove agent folder name v3.files k3)
                      ])
                      λ _ v4 _ k4.
                        quiet (wrapped_io "sync source inbox dir" sync_dir) _ v4 (sync-files v4) k4
                          λ _ v5 _ k5. subst P (sym (sync-files v5)) k5

  pub read_receipt-P :
      (agent id : Text) (w : World) → P w.files → P (read_receipt yaml agent id w).1.files
  unfolding read_receipt
  read_receipt-P agent id w h =
      quiet (find_receipt_path agent id) _ w (find-keeps agent id w) h
        λ found w2 _ h2. subst P (sym (read_receipt_file-files yaml found.0 w2)) h2
