-- ===== src/Mailbox/Write.antt =====
-- writeFileAtomically of internal/mailbox/store.go.
use tmuxicate.Prelude.{◌≡◌, ◌≢◌, ◌⊎◌, ok, arith, [], ==_iff}
use tmuxicate.Text.{Text}
use tmuxicate.Mailbox.Files.{FilePath, write_at}
use tmuxicate.Mailbox.Io.{
  World, Io, ◌>>=◌, ◌>>◌, syscall, or_cleanup, create_temp, write_temp, remove_temp, rename_temp,
  sync_dir, next_fault, later_faults,
}

-- The `cleanup` of the function closes the file and removes it; Close reports nothing that is used.
unfoldable pub write_file_atomically : FilePath → Text → Io (Unit {0})
unfolding ◌>>=◌ syscall or_cleanup create_temp write_temp remove_temp rename_temp sync_dir
write_file_atomically path content = do
  syscall "create dir"
  tmp ← create_temp
  or_cleanup (write_temp tmp content) (remove_temp tmp)
  or_cleanup (syscall "chmod temp file") (remove_temp tmp)
  or_cleanup (syscall "sync temp file") (remove_temp tmp)
  or_cleanup (syscall "close temp file") (remove_temp tmp)
  or_cleanup (rename_temp tmp path) (remove_temp tmp)
  sync_dir

-- Whatever calls fail, the path holds the whole new content and no other file has changed, or no
-- file has changed and an error is returned.
pub write-outcome :
    (path : FilePath) (content : Text) (w : World)
    → let (r, w') = write_file_atomically path content w in
      (w'.files ≡ write_at path content w.files) ⊎ ((w'.files ≡ w.files) × (r ≢ ok tt))
unfolding write_file_atomically
write-outcome path content w = ground arith

-- The write succeeds when no call fails.
pub write-calm :
    (path : FilePath) (content : Text) (w : World)
    → w.faults ≡ []
    → (write_file_atomically path content w).0 ≡ ok tt
unfolding write_file_atomically next_fault later_faults
write-calm path content w calm = ground (arith, ==_iff w.next_temp w.next_temp)
