-- ===== src/Mailbox/Store/Moves.antt =====
-- MoveReceipt writes the new file and then removes the old one: what a failure in between leaves.
use tmuxicate.Prelude.{
  ◌≡◌, ◌≢◌, refl, sym, ap, ◌∙◌, ◌⊎◌, inl, inr, Result, Error, ok, err, wrapped, reject_if, not,
  arith, subst, some,
}
use tmuxicate.Text.{Text}
use tmuxicate.Protocol.Enums.{FolderState, folder_state_eq}
use tmuxicate.Protocol.Documents.{Receipt}
use tmuxicate.Protocol.Validation.Mail.{validate_receipt}
use tmuxicate.Mailbox.Files.{
  Files, FilePath, inbox, read_at, write_at, remove_at, receipt_file_name,
}
use tmuxicate.Mailbox.Io.{World, Io, ◌>>=◌, ◌>>◌, lift, syscall, sync_dir, remove_file, wrapped_io}
use tmuxicate.Mailbox.Write.{write_file_atomically}
use tmuxicate.Mailbox.Store.{
  Codec, find_in, folders, find_receipt_path, lock_receipt, read_receipt_file,
  write_receipt_at_path, move_receipt,
}
use tmuxicate.Mailbox.Store.Effects.{
  find-keeps, find-value, result_rule, quiet_result, read_receipt_file-result, wrapped-result,
  lock-files, syscall-files, read_receipt_file-files, wrapped_write-outcome,
}

module _ (yaml : Codec Receipt) where
  -- What the move of the receipt `r` at `p` leaves of `files`: nothing has changed, or the new file
  -- is there beside the old one, or the new file is there and the old one is gone. The last is what
  -- a move without an error leaves.
  abbrev pub Outcome :
      Text → FolderState → FilePath → Receipt → Files → Result (Unit {0}) → Files → Type 0
  Outcome agent to p r files result after =
      let moved = record r { folder_state = to } in
      let dst = inbox agent to (receipt_file_name moved) in
      ((after ≡ files) × (result ≢ ok tt))
      ⊎ ((content : Text) × (yaml.marshal moved ≡ ok content)
          × (((after ≡ write_at dst content files) × (result ≢ ok tt))
              ⊎ (after ≡ remove_at p (write_at dst content files))))

  abbrev Rest : FilePath → Files → Result (Unit {0}) → Files → Type 0
  Rest p files result after = ((after ≡ files) × (result ≢ ok tt)) ⊎ (after ≡ remove_at p files)

  -- The last steps of MoveReceipt.
  abbrev finishing : FilePath → Io (Unit {0})
  finishing p = do
    wrapped_io "remove old receipt after move" (remove_file p)
    wrapped_io "sync source inbox dir" sync_dir
    wrapped_io "sync destination inbox dir" sync_dir

  write_and_remove-Outcome :
      (p : FilePath) (w : World) → let end = finishing p w in Rest p w.files end.0 end.1.files
  unfolding remove_file sync_dir syscall ◌>>=◌ wrapped_io
  write_and_remove-Outcome p w = ground arith

  abbrev Tail : FilePath → FilePath → Receipt → Files → Result (Unit {0}) → Files → Type 0
  Tail p dst r files result after =
      ((after ≡ files) × (result ≢ ok tt))
      ⊎ ((content : Text) × (yaml.marshal r ≡ ok content)
          × (((after ≡ write_at dst content files) × (result ≢ ok tt))
              ⊎ (after ≡ remove_at p (write_at dst content files))))

  err_not_ok : (e : Error) → ◌≢◌ {A = Result (Unit {0})} (err e) (ok tt)
  err_not_ok e h = cc

  abbrev Written : FilePath → Receipt → Files → Result (Unit {0}) → Files → Type 0
  Written dst r files result after =
      ((after ≡ files) × (result ≢ ok tt))
      ⊎ ((content : Text) × (yaml.marshal r ≡ ok content) × (after ≡ write_at dst content files))

  write_receipt-outcome :
      (dst : FilePath) (r : Receipt) (w : World)
      → let end = write_receipt_at_path yaml dst r w in Written dst r w.files end.0 end.1.files
  unfolding write_receipt_at_path
  write_receipt-outcome dst r w =
      result_rule (Written dst r w.files) (lift (wrapped "marshal receipt" (yaml.marshal r)))
        (λ c. wrapped_io "write receipt" (write_file_atomically dst c)) w
        (λ e w' q. inl (ap (λ t. t.1.files) (sym q), err_not_ok e))
        λ c w' q.
          let same : w'.files ≡ w.files = ap (λ t. t.1.files) (sym q) in
          let marshalled : yaml.marshal r ≡ ok c = wrapped-result _ _ (ap (λ t. t.0) q) in
          elim (wrapped_write-outcome "write receipt" dst c w') [
            | inl e ↦ inr (c, marshalled, e ∙ ap (write_at dst c) same)
            | inr e ↦ inl (e.0 ∙ same, e.1)
          ]

  remove_and_sync-Outcome :
      (p dst : FilePath) (r : Receipt) (w : World)
      → let end = (do write_receipt_at_path yaml dst r; finishing p) w in
        Tail p dst r w.files end.0 end.1.files
  remove_and_sync-Outcome p dst r w =
      let out = write_receipt-outcome dst r w in
      result_rule (Tail p dst r w.files) (write_receipt_at_path yaml dst r) _ w
        (λ e w' q. failed_write e w'.files (subst (λ t. Written dst r w.files t.0 t.1.files) q out))
        (λ u w' q.
          written u w' (subst (λ t. Written dst r w.files t.0 t.1.files) q out)
            (write_and_remove-Outcome p w'))
    where
      failed_write :
          (e : Error) (after : Files)
          → Written dst r w.files (err e) after
          → Tail p dst r w.files (err e) after
      failed_write e after (inl h) = inl h
      failed_write e after (inr (c, m, h)) = inr (c, m, inl (h, err_not_ok e))

      written :
          (u : Unit {0}) (w' : World)
          → Written dst r w.files (ok u) w'.files
          → (let end = finishing p w' in Rest p w'.files end.0 end.1.files)
          → (let end = finishing p w' in Tail p dst r w.files end.0 end.1.files)
      written u w' (inl (h, k)) rest = absurd (k refl)
      written u w' (inr (c, m, h)) (inl (e, k)) = inr (c, m, inl (e ∙ h, k))
      written u w' (inr (c, m, h)) (inr e) = inr (c, m, inr (e ∙ ap (remove_at p) h))

  -- The part of MoveReceipt behind the read.
  abbrev moving : FilePath → FilePath → Receipt → Io (Unit {0})
  moving p dst moved = do
    lift (wrapped "validate moved receipt" (validate_receipt moved))
    syscall "create dir"
    write_receipt_at_path yaml dst moved
    finishing p

  moving-Outcome :
      (p dst : FilePath) (moved : Receipt) (v : World)
      → Tail p dst moved v.files (moving p dst moved v).0 (moving p dst moved v).1.files
  moving-Outcome p dst moved v =
      quiet_result (Tail p dst moved v.files)
        (lift (wrapped "validate moved receipt" (validate_receipt moved))) _ v refl
        (λ e. inl (refl, err_not_ok e))
        λ _ v1 _ s1.
          quiet_result (Tail p dst moved v.files) (syscall "create dir") _ v1
            (syscall-files "create dir" v1) (λ e. inl (s1, err_not_ok e))
            λ _ v2 _ s2.
              let end = (do write_receipt_at_path yaml dst moved; finishing p) v2 in
              subst (λ fs. Tail p dst moved fs end.0 end.1.files) (s2 ∙ s1)
                (remove_and_sync-Outcome p dst moved v2)

  -- The receipt that a move of message `id` starts from: where it is, what it holds and what that
  -- means.
  pub record Found (agent id : Text) (files : Files) (p : FilePath) (folder : FolderState)
      (content : Text) (r : Receipt) : Type 0 where
    pub place : find_in agent id files folders ≡ ok (p, folder)
    pub there : read_at p files ≡ some content
    pub parsed : yaml.unmarshal content ≡ ok r

  pub move-Outcome :
      (agent id : Text) (from to : FolderState) (w : World) {p : FilePath} {folder : FolderState}
      {content : Text} {r : Receipt}
      → Found agent id w.files p folder content r
      → let end = move_receipt yaml agent id from to w in
        Outcome agent to p r w.files end.0 end.1.files
  unfolding move_receipt
  move-Outcome agent id from to w {p} {folder} {content} {r} f =
      quiet_result (Outcome agent to p r w.files) lock_receipt _ w (lock-files w) (stop w refl)
        λ _ w1 _ s1.
          quiet_result (Outcome agent to p r w.files) (find_receipt_path agent id) _ w1
            (find-keeps agent id w1) (stop w1 s1)
            λ found w2 e2 s2.
              let same2 : w2.files ≡ w.files = s2 ∙ s1 in
              quiet_result (Outcome agent to p r w.files)
                (lift (reject_if (not (folder_state_eq found.1 from)) _)) _ w2 refl (stop w2 same2)
                λ _ w3 _ s3.
                  let same3 : w3.files ≡ w.files = s3 ∙ same2 in
                  let at_p : found.0 ≡ p = ap (λ t. t.0) (found_place found w1 w2 e2 s1) in
                  quiet_result (Outcome agent to p r w.files) (read_receipt_file yaml found.0) _ w3
                    (read_receipt_file-files yaml found.0 w3) (stop w3 same3)
                    λ original w4 e4 s4. finish found.0 original w4 (s4 ∙ same3) at_p (
                      read_receipt_file-result yaml found.0 w3 w4
                        (ap (read_at found.0) same3 ∙ ap (λ q. read_at q w.files) at_p ∙ f.there)
                        f.parsed e4)
    where
      stop :
          (v : World)
          → v.files ≡ w.files
          → (e : Error) → Outcome agent to p r w.files (err e) v.files
      stop v same e = inl (same, err_not_ok e)

      found_place :
          (found : FilePath × FolderState) (w1 w2 : World)
          → find_receipt_path agent id w1 ≡ (ok found, w2)
          → w1.files ≡ w.files
          → found ≡ (p, folder)
      found_place found w1 w2 e s =
          let a : ok found ≡ ok (p, folder) =
            sym (find-value agent id w1 w2 e)
            ∙ ap (λ fs. find_in agent id fs folders) s
            ∙ f.place in
          cc

      finish :
          (p' : FilePath) (r' : Receipt) (v : World)
          → v.files ≡ w.files
          → p' ≡ p
          → r' ≡ r
          → let moved = record r' { folder_state = to } in
            let end = moving p' (inbox agent to (receipt_file_name moved)) moved v in
            Outcome agent to p r w.files end.0 end.1.files
      finish p' r' v same ep er =
          let moved = record r' { folder_state = to } in
          let end = moving p' (inbox agent to (receipt_file_name moved)) moved v in
          subst (λ fs. Outcome agent to p r fs end.0 end.1.files) same
            (subst (λ x. Outcome agent to p x v.files end.0 end.1.files) er
              (subst (λ q. Outcome agent to q r' v.files end.0 end.1.files) ep
                (moving-Outcome p' (inbox agent to (receipt_file_name moved)) moved v)))
