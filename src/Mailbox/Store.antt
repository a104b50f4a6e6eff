-- ===== src/Mailbox/Store.antt =====
-- The receipts of internal/mailbox/store.go. `yaml` stands for gopkg.in/yaml.v3: what it writes for a
-- receipt it reads back as that receipt. Releasing a lock has no effect here; its error is dropped
-- in the source too.
pub mod Effects
pub mod Consistency
pub mod Moves
pub mod Kept
pub mod Elsewhere
pub mod Held
use tmuxicate.Prelude.{
  ◌≡◌, Bool, true, false, ◌&&◌, not, List, [], ◌∷◌, Result, ok, err, msg, wrapped, reject_if,
  is_nil, if◌then◌else◌, none, some, Option,
}
use tmuxicate.Text.{Text, text_eq}
use tmuxicate.Protocol.Enums.{FolderState, folder_state_eq}
use tmuxicate.Protocol.Documents.{Receipt}
use tmuxicate.Protocol.Validation.Mail.{validate_receipt}
use tmuxicate.Mailbox.Files.{Files, FilePath, inbox, receipt_file_name, names_message}
use tmuxicate.Mailbox.Io.{
  World, Io, ◌>>=◌, ◌>>◌, pure, lift, syscall, read_file, exists, remove_file, sync_dir, wrapped_io,
}
use tmuxicate.Mailbox.Write.{write_file_atomically}

pub record Codec (A : Type 0) : Type 0 where
  pub marshal : A → Result Text
  pub unmarshal : Text → Result A
  pub round_trip : (a : A) (t : Text) → marshal a ≡ ok t → unmarshal t ≡ ok a

abbrev is_receipt_of : Text → FolderState → Text → FilePath → Bool
is_receipt_of agent folder id (inbox a f name) =
    text_eq a agent && folder_state_eq f folder && names_message id name
is_receipt_of agent folder id _ = false

-- filepath.Glob over one inbox folder, which reports no error of the file system. The agent and the
-- message stand for themselves: names with a character that Glob expands are not modelled.
unfoldable pub glob_receipts : Text → FolderState → Text → Files → List FilePath
glob_receipts agent folder id [] = []
glob_receipts agent folder id ((p, d) ∷ fs) =
    let rest = glob_receipts agent folder id fs in
    if is_receipt_of agent folder id p then p ∷ rest else rest

abbrev pub folders : List FolderState
folders = FolderState.unread ∷ FolderState.active ∷ FolderState.done ∷ FolderState.dead ∷ []

unfoldable pub find_in : Text → Text → Files → List FolderState → Result (FilePath × FolderState)
unfolding glob_receipts
find_in agent id fs [] = err (msg "receipt for agent not found")
find_in agent id fs (folder ∷ later) =
    let rest = find_in agent id fs later in
    elim (glob_receipts agent folder id fs) [
      | [] ↦ rest
      | p ∷ ps ↦ if is_nil ps then ok (p, folder) else err (msg "multiple receipts found")
    ]

unfoldable pub find_receipt_path : Text → Text → Io (FilePath × FolderState)
unfolding find_in
find_receipt_path agent id w = (find_in agent id w.files folders, w)

-- lockReceipt: create the directory, open the lock file, take the exclusive lock.
unfoldable pub lock_receipt : Io (Unit {0})
unfolding syscall ◌>>=◌
lock_receipt = do syscall "create dir"; syscall "open lock file"; syscall "flock"

-- The checks of UpdateReceipt between `fn` and the write.
unfoldable pub check_update : Receipt → FolderState → Receipt → Result (Unit {0})
check_update original folder receipt =
    if not (folder_state_eq receipt.folder_state original.folder_state)
    then err (msg "receipt folder_state changes must use MoveReceipt")
    else if not (folder_state_eq receipt.folder_state folder)
    then err (msg "receipt folder_state does not match current folder")
    else wrapped "validate updated receipt" (validate_receipt receipt)

module _ (yaml : Codec Receipt) where
  unfoldable pub read_receipt_file : FilePath → Io Receipt
  read_receipt_file path = do
    content ← wrapped_io "read receipt" (read_file path)
    receipt ← lift (wrapped "unmarshal receipt" (yaml.unmarshal content))
    lift (wrapped "validate receipt" (validate_receipt receipt))
    pure receipt

  unfoldable pub write_receipt_at_path : FilePath → Receipt → Io (Unit {0})
  write_receipt_at_path path receipt = do
    content ← lift (wrapped "marshal receipt" (yaml.marshal receipt))
    wrapped_io "write receipt" (write_file_atomically path content)

  unfoldable pub create_receipt : Receipt → Io (Unit {0})
  create_receipt receipt = do
    lift (wrapped "validate receipt" (validate_receipt receipt))
    let path = inbox receipt.recipient receipt.folder_state (receipt_file_name receipt)
    syscall "create dir"
    content ← lift (wrapped "marshal receipt" (yaml.marshal receipt))
    there ← wrapped_io "stat receipt" (exists path)
    lift (reject_if there (msg "receipt already exists"))
    wrapped_io "write receipt" (write_file_atomically path content)

  unfoldable pub read_receipt : Text → Text → Io Receipt
  read_receipt agent id = do found ← find_receipt_path agent id; read_receipt_file found.0

  unfoldable pub update_receipt : Text → Text → (Receipt → Receipt) → Io (Unit {0})
  update_receipt agent id fn = do
    lock_receipt
    found ← find_receipt_path agent id
    original ← read_receipt_file found.0
    let receipt = fn original
    lift (check_update original found.1 receipt)
    write_receipt_at_path found.0 receipt

  unfoldable pub move_receipt : Text → Text → FolderState → FolderState → Io (Unit {0})
  move_receipt agent id from to = do
    lock_receipt
    found ← find_receipt_path agent id
    lift (reject_if (not (folder_state_eq found.1 from)) (msg "receipt is in another folder"))
    original ← read_receipt_file found.0
    let receipt = record original { folder_state = to }
    lift (wrapped "validate moved receipt" (validate_receipt receipt))
    syscall "create dir"
    let dst = inbox agent to (receipt_file_name receipt)
    write_receipt_at_path dst receipt
    wrapped_io "remove old receipt after move" (remove_file found.0)
    wrapped_io "sync source inbox dir" sync_dir
    wrapped_io "sync destination inbox dir" sync_dir
