-- ===== src/Samples/Receipts.antt =====
-- The theorems on the receipt store at a session with one unread receipt.
use tmuxicate.Prelude.{
  ◌≡◌, ◌≢◌, refl, ◌⊎◌, inl, inr, true, false, [], ◌∷◌, none, some, ok, Bool-cases, subst,
}
use tmuxicate.Prelude.Int.{pos}
use tmuxicate.Text.{Text, codes, text_eq}
use tmuxicate.Protocol.Enums.{FolderState}
use tmuxicate.Protocol.Documents.{Receipt}
use tmuxicate.Protocol.Validation.Mail.{validate_receipt, receipt_schema_v1}
use tmuxicate.Mailbox.Files.{
  FilePath, inbox, next_seq, read_at, write_at, path_eq, path_eq→, receipt_file_name, names_message,
  glob_star,
}
use tmuxicate.Mailbox.Io.{World}
use tmuxicate.Text.Decimal.{padded}
use tmuxicate.Mailbox.Write.{write_file_atomically, write-outcome}
use tmuxicate.Mailbox.Store.{glob_receipts, find_in, create_receipt, update_receipt, move_receipt}
use tmuxicate.Mailbox.Store.Consistency.{
  IsStored, IsConsistent, update-IsConsistent, move-IsConsistent, create-IsConsistent,
}
use tmuxicate.Mailbox.Store.Moves.{Found}
use tmuxicate.Mailbox.Store.Kept.{move-keeps_receipt, move-other_files}
use tmuxicate.Samples.Packing.{receipt_codec, receipt_codec-marshal, put_receipt}

abbrev agent : Text
agent = codes "dev"

abbrev message : Text
message = codes "msg_000000000001"

abbrev unread_receipt : Receipt
unread_receipt = record {
  schema = receipt_schema_v1;
  message_id = message;
  seq = pos 1;
  recipient = agent;
  folder_state = FolderState.unread;
  revision = pos 0;
  acked_at = none;
  claimed_by = none;
  claimed_at = none;
  done_at = none;
  notify_attempts = pos 0;
  last_notified_at = none;
  next_retry_at = none;
  last_error = none;
}

abbrev place : FilePath
place = inbox agent FolderState.unread (receipt_file_name unread_receipt)

-- The third system call from now fails, and the tenth.
abbrev session : World
session = record {
  files = (place, put_receipt unread_receipt) ∷ [];
  temps = λ n. none;
  next_temp = 0;
  faults = false ∷ false ∷ true ∷ false ∷ false ∷ false ∷ false ∷ false ∷ false ∷ true ∷ [];
}

unread-valid : validate_receipt unread_receipt ≡ ok tt
unfolding validate_receipt text_eq
unread-valid = refl

read_one : (p q : FilePath) (d c : Text) → read_at q ((p, d) ∷ []) ≡ some c → (p ≡ q) × (d ≡ c)
unfolding read_at
read_one p q d c h = elim (Bool-cases (path_eq p q)) [
  | inl e ↦ let same : some d ≡ some c = rw e at h in (path_eq→ p q e, cc)
  | inr e ↦ let none_is : none ≡ some c = rw e at h in cc
]

session-IsConsistent : IsConsistent receipt_codec session.files
session-IsConsistent = record {
  stored = λ a f n c found.
      let (same, content) = read_one place (inbox a f n) (put_receipt unread_receipt) c found in
      let folder : FolderState.unread ≡ f = cc in
      subst (λ t. IsStored receipt_codec f t) content
        (subst (λ g. IsStored receipt_codec g (put_receipt unread_receipt)) folder
          (
            unread_receipt,
            receipt_codec.round_trip unread_receipt (put_receipt unread_receipt)
                (receipt_codec-marshal unread_receipt),
            unread-valid,
            refl,
          ));
}

write-outcome_example :
    let (r, w') = write_file_atomically next_seq (codes "2") session in
    (w'.files ≡ write_at next_seq (codes "2") session.files)
    ⊎ ((w'.files ≡ session.files) × (r ≢ ok tt))
write-outcome_example = write-outcome next_seq (codes "2") session

update-IsConsistent_example :
    IsConsistent receipt_codec
      (update_receipt receipt_codec agent message
        (λ r. record r { revision = pos 1 })
        session).1.files
update-IsConsistent_example =
    update-IsConsistent receipt_codec agent message (λ r. record r { revision = pos 1 }) session
      session-IsConsistent

move-IsConsistent_example :
    IsConsistent receipt_codec
      (move_receipt receipt_codec agent message FolderState.unread FolderState.active
        session).1.files
move-IsConsistent_example =
    move-IsConsistent receipt_codec agent message FolderState.unread FolderState.active session
      session-IsConsistent

create-IsConsistent_example :
    IsConsistent receipt_codec (create_receipt receipt_codec unread_receipt session).1.files
create-IsConsistent_example =
    create-IsConsistent receipt_codec unread_receipt session session-IsConsistent

session-Found :
    Found receipt_codec agent message session.files place FolderState.unread
      (put_receipt unread_receipt)
      unread_receipt
unfolding find_in glob_receipts text_eq read_at names_message glob_star receipt_file_name path_eq
    padded
session-Found = record {
  place = refl;
  there = refl;
  parsed =
      receipt_codec.round_trip unread_receipt (put_receipt unread_receipt)
        (receipt_codec-marshal unread_receipt);
}

unread-not_active : FolderState.unread ≢ FolderState.active
unread-not_active h = cc

move-keeps_receipt_example :
    let moved = record unread_receipt { folder_state = FolderState.active } in
    let dst = inbox agent FolderState.active (receipt_file_name moved) in
    let end =
      move_receipt receipt_codec agent message FolderState.unread FolderState.active session in
    ((read_at place end.1.files ≡ some (put_receipt unread_receipt))
      ⊎ ((c : Text) × (receipt_codec.marshal moved ≡ ok c) × (read_at dst end.1.files ≡ some c)))
    × ((end.0 ≢ ok tt)
        ⊎ ((read_at place end.1.files ≡ none)
            × ((c : Text) × (receipt_codec.marshal moved ≡ ok c)
                × (read_at dst end.1.files ≡ some c))))
move-keeps_receipt_example =
    move-keeps_receipt receipt_codec agent message FolderState.unread FolderState.active session
      session-Found unread-not_active

move-other_files_example :
    read_at next_seq
      (move_receipt receipt_codec agent message FolderState.unread FolderState.active
        session).1.files
    ≡ read_at next_seq session.files
unfolding path_eq
move-other_files_example =
    move-other_files receipt_codec agent message FolderState.unread FolderState.active session
      next_seq session-Found unread-not_active refl refl
