-- ===== src/Mailbox/Store/Held.antt =====
-- UpdateReceipt and ReadReceipt of internal/mailbox/store.go on a receipt that is on file: what they
-- write and return when they succeed.
use tmuxicate.Prelude.{
  ◌≢◌, Error, ◌≡◌, refl, sym, ap, ◌∙◌, inl, inr, List, [], ◌∷◌, Bool-cases, Result, ok, err, some,
  subst, wrapped, is_nil, msg, if◌then◌else◌,
}
use tmuxicate.Text.{Text}
use tmuxicate.Protocol.Enums.{FolderState}
use tmuxicate.Protocol.Documents.{Receipt}
use tmuxicate.Mailbox.Files.{
  Files, FilePath, read_at, write_at, read_at-write_at, path_eq, path_eq_refl,
}
use tmuxicate.Mailbox.Io.{World, Io, ◌>>=◌, ◌>>◌, lift, wrapped_io}
use tmuxicate.Mailbox.Write.{write_file_atomically}
use tmuxicate.Mailbox.Store.{
  Codec, glob_receipts, find_in, folders, find_receipt_path, lock_receipt, read_receipt,
  read_receipt_file, write_receipt_at_path, check_update, update_receipt,
}
use tmuxicate.Mailbox.Store.Effects.{
  wrapped_write-outcome, quiet_result, result_rule, find-keeps, find-value, lock-files,
  read_receipt_file-files, read_receipt_file-result, lift-result, wrapped-result,
}
use tmuxicate.Mailbox.Store.Moves.{Found}

-- Writing over a file that is there changes no search for receipts.
glob-write_at :
    (agent : Text) (folder : FolderState) (id : Text) (p : FilePath) (d : Text) (fs : Files)
    {c : Text}
    → read_at p fs ≡ some c
    → glob_receipts agent folder id (write_at p d fs) ≡ glob_receipts agent folder id fs
unfolding glob_receipts write_at read_at
glob-write_at agent folder id p d [] h = cc
glob-write_at agent folder id p d ((q, e) ∷ fs) h = elim (Bool-cases (path_eq q p)) [
  | inl k ↦ rw k refl
  | inr k ↦ rw (k, glob-write_at agent folder id p d fs (rw k at h)) refl
]

-- The choice of FindReceiptPath in one folder.
choose :
    FolderState → List FilePath → Result (FilePath × FolderState) → Result (FilePath × FolderState)
choose folder [] rest = rest
choose folder (q ∷ qs) rest =
    if is_nil qs then ok (q, folder) else err (msg "multiple receipts found")

find_in-choose :
    (agent id : Text) (fs : Files) (f : FolderState) (later : List FolderState)
    → find_in agent id fs (f ∷ later)
      ≡ choose f (glob_receipts agent f id fs) (find_in agent id fs later)
unfolding find_in choose
find_in-choose agent id fs f later = same (glob_receipts agent f id fs)
  where
    same :
        (ps : List FilePath)
        → elim ps as (λ _. Result (FilePath × FolderState)) [
          | [] ↦ find_in agent id fs later
          | q ∷ qs ↦ if is_nil qs then ok (q, f) else err (msg "multiple receipts found")
        ]
          ≡ choose f ps (find_in agent id fs later)
    same [] = refl
    same (q ∷ qs) = refl

find-write_at :
    (agent id : Text) (p : FilePath) (d : Text) (fs : Files) (later : List FolderState) {c : Text}
    → read_at p fs ≡ some c
    → find_in agent id (write_at p d fs) later ≡ find_in agent id fs later
unfolding find_in
find-write_at agent id p d fs [] h = refl
find-write_at agent id p d fs (f ∷ later) h =
    find_in-choose agent id (write_at p d fs) f later
    ∙ ap (λ ps. choose f ps (find_in agent id (write_at p d fs) later))
        (glob-write_at agent f id p d fs h)
    ∙ ap (choose f (glob_receipts agent f id fs)) (find-write_at agent id p d fs later h)
    ∙ sym (find_in-choose agent id fs f later)

err_not_ok : (e : Error) → ◌≢◌ {A = Result (Unit {0})} (err e) (ok tt)
err_not_ok e h = cc

module _ (yaml : Codec Receipt) (agent id : Text) (p : FilePath) (folder : FolderState) where
  -- The agent's receipt of the message is the document `r`, at `p`.
  abbrev pub Held : Receipt → Files → Type 0
  Held r files = (content : Text) × Found yaml agent id files p folder content r

  write_at-Held :
      (r s : Receipt) (c : Text) (files : Files)
      → yaml.marshal s ≡ ok c
      → Held r files
      → Held s (write_at p c files)
  write_at-Held r s c files m (content, f) = (
    c,
    record {
      place = find-write_at agent id p c files folders f.there ∙ f.place;
      there = read_at-write_at p p c files ∙ rw (path_eq_refl p) refl;
      parsed = yaml.round_trip s c m;
    },
  )

  -- Where a call has succeeded, the receipt is `s`.
  abbrev IfOk : Receipt → Result (Unit {0}) → Files → Type 0
  IfOk s result files = result ≡ ok tt → Held s files

  failed : (s : Receipt) (files : Files) (e : Error) → IfOk s (err e) files
  failed s files e h = absurd (err_not_ok e h)

  write_receipt-Held :
      (r s : Receipt) (w : World)
      → Held r w.files
      → IfOk s (write_receipt_at_path yaml p s w).0 (write_receipt_at_path yaml p s w).1.files
  unfolding write_receipt_at_path
  write_receipt-Held r s w h =
      result_rule (IfOk s) (lift (wrapped "marshal receipt" (yaml.marshal s)))
        (λ c. wrapped_io "write receipt" (write_file_atomically p c)) w
        (λ e v q. failed s v.files e)
        λ c v q. elim (wrapped_write-outcome "write receipt" p c v) [
          | inl k ↦ λ good.
              let held = subst (Held r) (ap (λ t. t.1.files) q) h in
              subst (Held s) (sym k)
                (write_at-Held r s c v.files (wrapped-result _ _ (lift-result _ q)) held)
          | inr k ↦ λ good. absurd (k.1 good)
        ]

  found_there :
      (r : Receipt) (w v : World) {found : FilePath × FolderState}
      → Held r w.files
      → find_receipt_path agent id w ≡ (ok found, v)
      → found ≡ (p, folder)
  found_there r w v {found} (content, f) e =
      let same : ok found ≡ ok (p, folder) = sym (find-value agent id w v e) ∙ f.place in cc

  -- The steps of UpdateReceipt behind the search.
  abbrev updating : (Receipt → Receipt) → FilePath × FolderState → Io (Unit {0})
  updating fn found = do
    original ← read_receipt_file yaml found.0
    lift (check_update original found.1 (fn original))
    write_receipt_at_path yaml found.0 (fn original)

  updating-Held :
      (fn : Receipt → Receipt) (r : Receipt) (w : World)
      → Held r w.files
      → IfOk (fn r) (updating fn (p, folder) w).0 (updating fn (p, folder) w).1.files
  updating-Held fn r w h =
      quiet_result (IfOk (fn r)) (read_receipt_file yaml p) _ w (read_receipt_file-files yaml p w)
        (failed (fn r) w.files)
        λ original v1 e1 s1.
          quiet_result (IfOk (fn r)) (lift (check_update original folder (fn original))) _ v1 refl
            (failed (fn r) v1.files)
            λ _ v2 _ s2.
              written original v2 (read_receipt_file-result yaml p w v1 (h.1).there (h.1).parsed e1)
                (subst (Held r) (sym (s2 ∙ s1)) h)
    where
      written :
          (original : Receipt) (v : World)
          → original ≡ r
          → Held r v.files
          → let end = write_receipt_at_path yaml p (fn original) v in IfOk (fn r) end.0 end.1.files
      written original v e h =
          subst
            (λ x.
              IfOk (fn r) (write_receipt_at_path yaml p (fn x) v).0
                (write_receipt_at_path yaml p (fn x) v).1.files)
            (sym e) (write_receipt-Held r (fn r) v h)

  -- A successful UpdateReceipt leaves the updated document.
  pub update-Held :
      (fn : Receipt → Receipt) (r : Receipt) (w : World)
      → Held r w.files
      → let end = update_receipt yaml agent id fn w in end.0 ≡ ok tt → Held (fn r) end.1.files
  unfolding update_receipt
  update-Held fn r w h =
      quiet_result (IfOk (fn r)) lock_receipt _ w (lock-files w) (failed (fn r) w.files)
        λ _ w1 _ s1.
          let h1 = subst (Held r) (sym s1) h in
          quiet_result (IfOk (fn r)) (find_receipt_path agent id) _ w1 (find-keeps agent id w1)
            (failed (fn r) w1.files)
            λ found w2 e2 s2.
              subst (λ t. IfOk (fn r) (updating fn t w2).0 (updating fn t w2).1.files)
                (sym (found_there r w1 w2 h1 e2))
                (updating-Held fn r w2 (subst (Held r) (sym s2) h1))

  -- What a successful ReadReceipt returns.
  pub read_receipt-value :
      (r : Receipt) (w v : World) {a : Receipt}
      → Held r w.files
      → read_receipt yaml agent id w ≡ (ok a, v)
      → a ≡ r
  unfolding read_receipt find_receipt_path ◌>>=◌
  read_receipt-value r w v (content, f) e =
      read_receipt_file-result yaml p w v f.there f.parsed (rw f.place at e)
