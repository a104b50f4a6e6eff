-- ===== src/Samples/Sequences.antt =====
-- The theorems on AllocateSeq at a session whose file holds 41.
use tmuxicate.Prelude.{
  ◌≡◌, refl, inr, true, false, ◌&&◌, not, [], ◌∷◌, none, Result, ok, err, msg, is_nil, all, ltb, ℕ,
  ◌<◌, ◌^◌, if◌then◌else◌, arith,
}
use tmuxicate.Prelude.Int.{ℤ, pos}
use tmuxicate.Text.{Text, is_digit}
use tmuxicate.Text.Decimal.{decimal, value_from, value-decimal, decimal-digits, decimal-ne-nil}
use tmuxicate.Mailbox.Files.{next_seq, read_at, path_eq}
use tmuxicate.Mailbox.Io.{World}
use tmuxicate.Mailbox.Sequence.{payload, allocate_seq}
use tmuxicate.Mailbox.Sequence.Advance.{
  ReadsBack, allocate_seq-Advanced, allocations-AscendsFrom, allocate_seq-succeeds, StoredSeq,
  Advanced, allocations, AscendsFrom,
}

-- A decimal reader without signs.
unfoldable parse_digits : Text → Result ℤ
parse_digits s =
    let n = value_from 0 s in
    if not (is_nil s) && all is_digit s && ltb n (2 ^ 63)
    then ok (pos n)
    else err (msg "invalid syntax")

parse_digits-reads : (n : ℕ) → n < 2 ^ 63 → parse_digits (decimal n) ≡ ok (pos n)
unfolding parse_digits
parse_digits-reads n lt = rw (decimal-ne-nil n, decimal-digits n, value-decimal n) (ground arith)

parse_digits_laws : ReadsBack parse_digits
parse_digits_laws = record { reads = parse_digits-reads }

abbrev numbered : World
unfolding payload
numbered = record {
  files = (next_seq, payload (pos 41)) ∷ [];
  temps = λ n. none;
  next_temp = 0;
  faults = false ∷ false ∷ false ∷ false ∷ true ∷ [];
}

numbered_stored : StoredSeq parse_digits 41 numbered.files
unfolding payload read_at path_eq
numbered_stored = inr refl

allocate_seq-Advanced_example :
    let (r, w') = allocate_seq parse_digits numbered in
    Advanced parse_digits 41 numbered.files r w'.files
allocate_seq-Advanced_example =
    allocate_seq-Advanced parse_digits parse_digits_laws 41 numbered (omega arith) numbered_stored

allocations-AscendsFrom_example :
    AscendsFrom parse_digits 41
      (allocations parse_digits ([] ∷ (false ∷ true ∷ []) ∷ [] ∷ []) numbered)
allocations-AscendsFrom_example =
    allocations-AscendsFrom parse_digits parse_digits_laws 41 ([] ∷ (false ∷ true ∷ []) ∷ [] ∷ [])
      numbered (omega arith) numbered_stored

allocate_seq-succeeds_example :
    (allocate_seq parse_digits (record numbered { faults = [] })).0 ≡ ok (pos 42)
allocate_seq-succeeds_example =
    allocate_seq-succeeds parse_digits parse_digits_laws 41 numbered (omega arith) numbered_stored
