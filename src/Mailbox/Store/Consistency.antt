-- ===== src/Mailbox/Store/Consistency.antt =====
-- Well-formed receipt files of internal/mailbox/store.go, under UpdateReceipt, MoveReceipt and
-- CreateReceipt.
use tmuxicate.Prelude.{
  ◌≡◌, refl, sym, ◌∙◌, inl, inr, ok, wrapped, reject_if, not, arith, Bool-cases, subst, some,
  if◌then◌else◌,
}
use tmuxicate.Text.{Text}
use tmuxicate.Protocol.Enums.{FolderState, folder_state_eq}
use tmuxicate.Protocol.Documents.{Receipt}
use tmuxicate.Protocol.Validation.Mail.{validate_receipt}
use tmuxicate.Mailbox.Files.{
  Files, FilePath, inbox, read_at, write_at, remove_at, read_at-write_at, read_at-remove_at,
  path_eq, path_eq→, folder_state_eq→, receipt_file_name,
}
use tmuxicate.Mailbox.Io.{
  World, Io, ◌>>=◌, ◌>>◌, lift, syscall, sync_dir, remove_file, exists, wrapped_io,
}
use tmuxicate.Mailbox.Write.{write_file_atomically}
use tmuxicate.Mailbox.Store.{
  Codec, find_receipt_path, lock_receipt, read_receipt_file, write_receipt_at_path, check_update,
  create_receipt, update_receipt, move_receipt,
}
use tmuxicate.Mailbox.Store.Effects.{
  wrapped_write-outcome, bind_rule, quiet_rule, find-keeps, lift-result, wrapped-result, lock-files,
  syscall-files, sync-files, exists-files, remove-outcome, read_receipt_file-files, find-result,
}

module _ (yaml : Codec Receipt) where
  -- A document that may stand in the folder.
  abbrev pub IsStored : FolderState → Text → Type 0
  IsStored folder content =
      (r : Receipt) × (yaml.unmarshal content ≡ ok r)
      × (validate_receipt r ≡ ok tt)
      × (r.folder_state ≡ folder)

  pub record IsConsistent (files : Files) : Type 0 where
    pub stored :
        (agent : Text) (folder : FolderState) (name content : Text)
        → read_at (inbox agent folder name) files ≡ some content
        → IsStored folder content

  write_at-IsConsistent :
      (agent : Text) (folder : FolderState) (name content : Text) (files : Files)
      → IsStored folder content
      → IsConsistent files
      → IsConsistent (write_at (inbox agent folder name) content files)
  write_at-IsConsistent agent folder name content files s h = record {
    stored = λ a f n c found.
        let p = inbox agent folder name in
        let q = inbox a f n in
        let found' : (if path_eq p q then some content else read_at q files) ≡ some c =
          sym (read_at-write_at p q content files) ∙ found in
        elim (Bool-cases (path_eq p q)) [
          | inl e ↦
              let same : p ≡ q = path_eq→ p q e in
              let first : some content ≡ some c = rw e at found' in
              let content_eq : content ≡ c = cc in
              let folder_eq : folder ≡ f = cc in
              subst (λ g. IsStored g c) folder_eq (subst (IsStored folder) content_eq s)
          | inr e ↦ h.stored a f n c (rw e at found')
        ];
  }

  remove_at-IsConsistent :
      (p : FilePath) (files : Files) → IsConsistent files → IsConsistent (remove_at p files)
  remove_at-IsConsistent p files h = record {
    stored =
        λ a f n c found. h.stored a f n c (ground (arith, read_at-remove_at p (inbox a f n) files));
  }

  write-IsConsistent :
      (agent : Text) (folder : FolderState) (name content : Text) (w : World)
      → IsStored folder content
      → IsConsistent w.files
      → IsConsistent
          (wrapped_io "write receipt"
            (write_file_atomically (inbox agent folder name) content)
            w).1.files
  write-IsConsistent agent folder name content w s h =
      elim (wrapped_write-outcome "write receipt" (inbox agent folder name) content w) [
        | inl e ↦
            subst IsConsistent (sym e) (write_at-IsConsistent agent folder name content w.files s h)
        | inr e ↦ subst IsConsistent (sym e.0) h
      ]

  unchanged :
      {A : Type 0} (m : Io A) (w : World)
      → (m w).1.files ≡ w.files
      → IsConsistent w.files
      → IsConsistent (m w).1.files
  unchanged m w e h = subst IsConsistent (sym e) h

  write_receipt-IsConsistent :
      (agent : Text) (folder : FolderState) (name : Text) (r : Receipt) (w : World)
      → validate_receipt r ≡ ok tt
      → r.folder_state ≡ folder
      → IsConsistent w.files
      → IsConsistent (write_receipt_at_path yaml (inbox agent folder name) r w).1.files
  unfolding write_receipt_at_path
  write_receipt-IsConsistent agent folder name r w valid same h =
      bind_rule IsConsistent (lift (wrapped "marshal receipt" (yaml.marshal r)))
        (λ content.
          wrapped_io "write receipt" (write_file_atomically (inbox agent folder name) content))
        w h
        λ content w' e h'.
          write-IsConsistent agent folder name content w'
            (r, yaml.round_trip r content (wrapped-result _ _ (lift-result _ e)), valid, same) h'

  -- The checks of an update leave a valid receipt of the folder.
  check_update-valid :
      (original receipt : Receipt) (folder : FolderState)
      → check_update original folder receipt ≡ ok tt
      → (validate_receipt receipt ≡ ok tt) × (receipt.folder_state ≡ folder)
  unfolding check_update
  check_update-valid original receipt folder h =
      elim (Bool-cases (folder_state_eq receipt.folder_state original.folder_state)) [
        | inl a ↦ elim (Bool-cases (folder_state_eq receipt.folder_state folder)) [
          | inl b ↦ (wrapped-result _ _ (rw (a, b) at h), folder_state_eq→ _ _ b)
          | inr b ↦ absurd (cc (rw (a, b) at h))
        ]
        | inr a ↦ absurd (cc (rw a at h))
      ]

  keeps_through :
      {A B : Type 0} (m : Io A) (f : A → Io B) (w : World)
      → (m w).1.files ≡ w.files
      → IsConsistent w.files
      → ((a : A) (w' : World)
          → m w ≡ (ok a, w')
          → IsConsistent w'.files
          → IsConsistent (f a w').1.files)
      → IsConsistent ((m >>= f) w).1.files
  keeps_through m f w q h k =
      quiet_rule IsConsistent m f w q h λ a w' e p. k a w' e (subst IsConsistent (sym p) h)

  -- UpdateReceipt with any function keeps every stored receipt valid and in the folder that it
  -- names, whatever system calls fail.
  pub update-IsConsistent :
      (agent id : Text) (fn : Receipt → Receipt) (w : World)
      → IsConsistent w.files
      → IsConsistent (update_receipt yaml agent id fn w).1.files
  unfolding update_receipt
  update-IsConsistent agent id fn w h = keeps_through lock_receipt _ w (lock-files w) h λ _ w1 _ h1.
      keeps_through (find_receipt_path agent id) _ w1 (find-keeps agent id w1) h1 λ found w2 e2 h2.
        keeps_through (read_receipt_file yaml found.0) _ w2
          (read_receipt_file-files yaml found.0 w2) h2
          λ original w3 _ h3.
            keeps_through (lift (check_update original found.1 (fn original))) _ w3 refl h3
              λ _ w4 e4 h4.
                let (name, shape) = find-result agent id w1 w2 e2 in
                let (valid, same) =
                  check_update-valid original (fn original) found.1 (lift-result _ e4) in
                rw shape
                  (write_receipt-IsConsistent agent found.1 name (fn original) w4 valid same h4)

  -- MoveReceipt between any folders keeps every stored receipt valid and in the folder that it
  -- names, whatever system calls fail.
  pub move-IsConsistent :
      (agent id : Text) (from to : FolderState) (w : World)
      → IsConsistent w.files
      → IsConsistent (move_receipt yaml agent id from to w).1.files
  unfolding move_receipt wrapped_io
  move-IsConsistent agent id from to w h =
      keeps_through lock_receipt _ w (lock-files w) h λ _ w1 _ h1.
        keeps_through (find_receipt_path agent id) _ w1 (find-keeps agent id w1) h1 λ found w2 _ h2.
          keeps_through (lift (reject_if (not (folder_state_eq found.1 from)) _)) _ w2 refl h2
            λ _ w3 _ h3.
              keeps_through (read_receipt_file yaml found.0) _ w3
                (read_receipt_file-files yaml found.0 w3) h3
                λ original w4 _ h4. moved found.0 (record original { folder_state = to }) w4 refl h4
    where
      moved :
          (p : FilePath) (r : Receipt) (v : World)
          → r.folder_state ≡ to
          → IsConsistent v.files
          → IsConsistent
              ((do
                lift (wrapped "validate moved receipt" (validate_receipt r))
                syscall "create dir"
                write_receipt_at_path yaml (inbox agent to (receipt_file_name r)) r
                wrapped_io "remove old receipt after move" (remove_file p)
                wrapped_io "sync source inbox dir" sync_dir
                wrapped_io "sync destination inbox dir" sync_dir)
                v).1.files
      moved p r v same k =
          keeps_through (lift (wrapped "validate moved receipt" (validate_receipt r))) _ v refl k
            λ _ v1 e1 k1.
              keeps_through (syscall "create dir") _ v1 (syscall-files "create dir" v1) k1
                λ _ v2 _ k2.
                  bind_rule IsConsistent
                    (write_receipt_at_path yaml (inbox agent to (receipt_file_name r)) r) _ v2
                    (write_receipt-IsConsistent agent to (receipt_file_name r) r v2
                      (wrapped-result _ _ (lift-result _ e1)) same k2)
                    λ _ v3 _ k3.
                      bind_rule IsConsistent
                        (wrapped_io "remove old receipt after move" (remove_file p)) _ v3
                        (elim (remove-outcome p v3) [
                          | inl e ↦ subst IsConsistent (sym e) k3
                          | inr e ↦
                              subst IsConsistent (sym e) (remove_at-IsConsistent p v3.files k3)
                        ])
                        λ _ v4 _ k4.
                          keeps_through (wrapped_io "sync source inbox dir" sync_dir) _ v4
                            (sync-files v4) k4
                            λ _ v5 _ k5.
                              unchanged (wrapped_io "sync destination inbox dir" sync_dir) v5
                                (sync-files v5) k5

  -- CreateReceipt keeps every stored receipt valid and in the folder that it names, whatever system
  -- calls fail.
  pub create-IsConsistent :
      (receipt : Receipt) (w : World)
      → IsConsistent w.files
      → IsConsistent (create_receipt yaml receipt w).1.files
  unfolding create_receipt wrapped_io
  create-IsConsistent receipt w h =
      keeps_through (lift (wrapped "validate receipt" (validate_receipt receipt))) _ w refl h
        λ _ w1 e1 h1.
          keeps_through (syscall "create dir") _ w1 (syscall-files "create dir" w1) h1 λ _ w2 _ h2.
            keeps_through (lift (wrapped "marshal receipt" (yaml.marshal receipt))) _ w2 refl h2
              λ content w3 e3 h3.
                keeps_through (wrapped_io "stat receipt" (exists target)) _ w3
                  (exists-files target w3) h3
                  λ there w4 _ h4.
                    keeps_through (lift (reject_if there _)) _ w4 refl h4 λ _ w5 _ h5.
                      write-IsConsistent receipt.recipient receipt.folder_state
                        (receipt_file_name receipt) content w5
                        (
                          receipt,
                          yaml.round_trip receipt content (wrapped-result _ _ (lift-result _ e3)),
                          wrapped-result _ _ (lift-result _ e1),
                          refl,
                        )
                        h5
    where
      target : FilePath
      target = inbox receipt.recipient receipt.folder_state (receipt_file_name receipt)
