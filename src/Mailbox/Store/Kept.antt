-- ===== src/Mailbox/Store/Kept.antt =====
-- MoveReceipt of internal/mailbox/store.go: what becomes of the receipt and of the other files.
use tmuxicate.Prelude.{
  ◌≡◌, ◌≢◌, refl, ap, ◌∙◌, ◌⊎◌, inl, inr, Result, ok, err, Bool-cases, some, none, false,
}
use tmuxicate.Text.{Text}
use tmuxicate.Protocol.Enums.{FolderState}
use tmuxicate.Protocol.Documents.{Receipt}
use tmuxicate.Mailbox.Files.{
  Files, FilePath, inbox, read_at, write_at, read_at-write_at, read_at-remove_at, path_eq, path_eq→,
  path_eq_refl, receipt_file_name,
}
use tmuxicate.Mailbox.Io.{World}
use tmuxicate.Mailbox.Store.{Codec, folders, move_receipt}
use tmuxicate.Mailbox.Store.Effects.{find_in-IsInbox}
use tmuxicate.Mailbox.Store.Moves.{Found, Outcome, move-Outcome}

module _ (yaml : Codec Receipt) where
  other_folder :
      (agent a n m : Text) (f g : FolderState)
      → f ≢ g
      → path_eq (inbox agent f n) (inbox a g m) ≡ false
  other_folder agent a n m f g h = elim (Bool-cases (path_eq (inbox agent f n) (inbox a g m))) [
    | inl e ↦ absurd (h (inbox_folder (path_eq→ _ _ e)))
    | inr e ↦ e
  ]
    where
      inbox_folder : inbox agent f n ≡ inbox a g m → f ≡ g
      inbox_folder e = cc

  move_effect :
      (agent id : Text) (from to : FolderState) (w : World) {p : FilePath} {folder : FolderState}
      {content : Text} {r : Receipt}
      → Found yaml agent id w.files p folder content r
      → folder ≢ to
      → let moved = record r { folder_state = to } in
        let dst = inbox agent to (receipt_file_name moved) in
        let end = move_receipt yaml agent id from to w in
        ((q : FilePath)
          → path_eq p q ≡ false
          → path_eq dst q ≡ false
          → read_at q end.1.files ≡ read_at q w.files)
        × ((read_at p end.1.files ≡ some content)
            ⊎ ((c : Text) × (yaml.marshal moved ≡ ok c) × (read_at dst end.1.files ≡ some c)))
        × (end.0 ≡ ok tt
            → (read_at p end.1.files ≡ none)
              × ((c : Text) × (yaml.marshal moved ≡ ok c) × (read_at dst end.1.files ≡ some c)))
  move_effect agent id from to w {p} {folder} {content} {r} f differ =
      go end.0 end.1.files (move-Outcome yaml agent id from to w f)
    where
      dst : FilePath
      dst = inbox agent to (receipt_file_name (record r { folder_state = to }))

      apart : path_eq p dst ≡ false
      apart =
          let (name, shape) = find_in-IsInbox agent id w.files folders f.place in
          rw shape (other_folder agent agent name _ folder to differ)

      end : Result (Unit {0}) × World
      end = move_receipt yaml agent id from to w

      go :
          (result : Result (Unit {0})) (after : Files)
          → Outcome yaml agent to p r w.files result after
          → let moved = record r { folder_state = to } in
            let dst = inbox agent to (receipt_file_name moved) in
            ((q : FilePath)
              → path_eq p q ≡ false
              → path_eq dst q ≡ false
              → read_at q after ≡ read_at q w.files)
            × ((read_at p after ≡ some content)
                ⊎ ((c : Text) × (yaml.marshal moved ≡ ok c) × (read_at dst after ≡ some c)))
            × (result ≡ ok tt
                → (read_at p after ≡ none)
                  × ((c : Text) × (yaml.marshal moved ≡ ok c) × (read_at dst after ≡ some c)))
      go result after (inl (same, bad)) = (
        λ q _ _. ap (read_at q) same,
        inl (ap (read_at p) same ∙ f.there),
        λ good. absurd (bad good),
      )
      go result after (inr (c, m, inl (e, bad))) = (
        λ q _ k. ap (read_at q) e ∙ read_at-write_at dst q c w.files ∙ rw k refl,
        inr (
          c,
          m,
          ap (read_at dst) e ∙ read_at-write_at dst dst c w.files ∙ rw (path_eq_refl dst) refl,
        ),
        λ good. absurd (bad good),
      )
      go result after (inr (c, m, inr e)) =
          let new : read_at dst after ≡ some c =
            ap (read_at dst) e
            ∙ read_at-remove_at p dst (write_at dst c w.files)
            ∙ rw apart (read_at-write_at dst dst c w.files ∙ rw (path_eq_refl dst) refl) in
          let old : read_at p after ≡ none =
            ap (read_at p) e
            ∙ read_at-remove_at p p (write_at dst c w.files)
            ∙ rw (path_eq_refl p) refl in
          (
            λ q j k.
                ap (read_at q) e
                ∙ read_at-remove_at p q (write_at dst c w.files)
                ∙ rw j (read_at-write_at dst q c w.files ∙ rw k refl),
            inr (c, m, new),
            λ _. (old, (c, m, new)),
          )

  success_or : (r : Result (Unit {0})) (Q : Type 0) → (r ≡ ok tt → Q) → (r ≢ ok tt) ⊎ Q
  success_or (ok u) Q f = inr (f refl)
  success_or (err e) Q f = inl (λ h. cc)

  -- Moving a receipt that was found to a folder other than the one where it is, whatever system calls
  -- fail: the old place still holds the old document or the new place holds the moved one, so the
  -- receipt is not lost; and an error is returned, or the old place is empty and the new place holds
  -- the moved document.
  pub move-keeps_receipt :
      (agent id : Text) (from to : FolderState) (w : World) {p : FilePath} {folder : FolderState}
      {content : Text} {r : Receipt}
      → Found yaml agent id w.files p folder content r
      → folder ≢ to
      → let moved = record r { folder_state = to } in
        let dst = inbox agent to (receipt_file_name moved) in
        let end = move_receipt yaml agent id from to w in
        ((read_at p end.1.files ≡ some content)
          ⊎ ((c : Text) × (yaml.marshal moved ≡ ok c) × (read_at dst end.1.files ≡ some c)))
        × ((end.0 ≢ ok tt)
            ⊎ ((read_at p end.1.files ≡ none)
                × ((c : Text) × (yaml.marshal moved ≡ ok c) × (read_at dst end.1.files ≡ some c))))
  move-keeps_receipt agent id from to w f differ =
      let (others, kept, success) = move_effect agent id from to w f differ in
      (kept, success_or _ _ success)

  -- Such a move changes no file but the old and the new place of the receipt.
  pub move-other_files :
      (agent id : Text) (from to : FolderState) (w : World) {p : FilePath} {folder : FolderState}
      {content : Text} {r : Receipt} (q : FilePath)
      → Found yaml agent id w.files p folder content r
      → folder ≢ to
      → path_eq p q ≡ false
      → path_eq (inbox agent to (receipt_file_name (record r { folder_state = to }))) q ≡ false
      → read_at q (move_receipt yaml agent id from to w).1.files ≡ read_at q w.files
  move-other_files agent id from to w q f differ old new =
      (move_effect agent id from to w f differ).0 q old new
