-- ===== src/Mailbox/Sequence.antt =====
-- AllocateSeq of internal/mailbox/store.go. `parse_int` stands for strconv.ParseInt to base 10.
pub mod Advance
use tmuxicate.Prelude.{
  suc, List, [], ◌∷◌, ◌++◌, Option, none, some, Result, ok, err, not_exist, wrap, wrapped, is_nil,
  if◌then◌else◌, String,
}
use tmuxicate.Prelude.Int.{ℤ, pos, negsuc, ◌+ℤ◌}
use tmuxicate.Text.{Text, trim_space}
use tmuxicate.Text.Decimal.{decimal}
use tmuxicate.Mailbox.Files.{Files, next_seq, read_at}
use tmuxicate.Mailbox.Io.{World, Io, ◌>>=◌, ◌>>◌, pure, syscall, read_file, wrapped_io}
use tmuxicate.Mailbox.Write.{write_file_atomically}
use tmuxicate.Mailbox.Store.{lock_receipt}

-- fmt.Sprintf("%d\n", next)
unfoldable pub payload : ℤ → Text
payload (pos n) = decimal n ++ 10 ∷ []
payload (negsuc n) = b'-' ∷ (decimal (suc n) ++ 10 ∷ [])

module _ (parse_int : Text → Result ℤ) where
  unfoldable pub parse_current : Text → Result ℤ
  parse_current content =
      let value = trim_space content in
      if is_nil value then ok (pos 0) else wrapped "parse next-seq" (parse_int value)

  -- `current`, from what os.ReadFile returns.
  unfoldable pub current_from : Result Text → Result ℤ
  unfolding parse_current
  current_from (ok content) = parse_current content
  current_from (err not_exist) = ok (pos 0)
  current_from (err e) = err (wrap "read next-seq" e)

  unfoldable pub read_current : Io ℤ
  unfolding current_from
  read_current w = let (r, w') = read_file next_seq w in (current_from r, w')

  -- lockSequence makes the same calls as lockReceipt, on a lock file of its own.
  unfoldable pub allocate_seq : Io ℤ
  allocate_seq = do
    lock_receipt
    syscall "create dir"
    current ← read_current
    let next = current +ℤ pos 1
    wrapped_io "write next-seq" (write_file_atomically next_seq (payload next))
    pure next
