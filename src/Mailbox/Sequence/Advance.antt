-- ===== src/Mailbox/Sequence/Advance.antt =====
-- The numbers that AllocateSeq of internal/mailbox/store.go hands out.
use tmuxicate.Prelude.{
  ℕ, suc, ◌<◌, ◌≤◌, ◌^◌, ◌≡◌, refl, sym, ap, ◌∙◌, subst, ◌⊎◌, inl, inr, Bool, true, false, List, [],
  ◌∷◌, none, some, Result, ok, err, not_exist, all, not, arith, is_ok, ◌+◌, length,
}
use tmuxicate.Prelude.Int.{ℤ, pos, ◌+ℤ◌}
use tmuxicate.Text.{Text, trim_space_newline, is_space, is_digit}
use tmuxicate.Text.Decimal.{decimal, decimal-digits, decimal-ne-nil}
use tmuxicate.Mailbox.Files.{Files, next_seq, read_at, write_at, read_at-write_at, path_eq}
use tmuxicate.Mailbox.Io.{
  wrapped_io, World, ◌>>=◌, ◌>>◌, pure, syscall, read_file, continue, next_fault, later_faults,
}
use tmuxicate.Mailbox.Write.{write_file_atomically, write-outcome, write-calm}
use tmuxicate.Mailbox.Store.{lock_receipt}
use tmuxicate.Mailbox.Store.Effects.{quiet_result, lock-files, syscall-files}
use tmuxicate.Mailbox.Sequence.{payload, parse_current, current_from, read_current, allocate_seq}

-- What the program relies on: ParseInt reads back a number that is printed and fits in an int64.
pub record ReadsBack (parse_int : Text → Result ℤ) : Type 0 where
  pub reads : (n : ℕ) → n < 2 ^ 63 → parse_int (decimal n) ≡ ok (pos n)

module _ (parse_int : Text → Result ℤ) where
  -- The number that is stored in the file; 0 without a file.
  abbrev pub StoredSeq : ℕ → Files → Type 0
  StoredSeq n files =
      ((n ≡ 0) × (read_at next_seq files ≡ none))
      ⊎ (read_at next_seq files ≡ some (payload (pos n)))

  digits-no_space : (s : Text) → all is_digit s ≡ true → all (λ c. not (is_space c)) s ≡ true
  unfolding is_digit is_space
  digits-no_space [] h = refl
  digits-no_space (c ∷ s) h = ground (arith, digits-no_space s)

  -- What the file of a stored number holds is parsed as the number.
  parse_current-payload :
      ReadsBack parse_int
      → (n : ℕ) → n < 2 ^ 63
      → parse_current parse_int (payload (pos n)) ≡ ok (pos n)
  unfolding parse_current payload
  parse_current-payload laws n lt =
      rw (trim_space_newline (decimal n) (digits-no_space (decimal n) (decimal-digits n)))
        (rw (decimal-ne-nil n) (rw (laws.reads n lt) refl))

  -- Reading the file of a stored number gives the number.
  read_current-StoredSeq :
      ReadsBack parse_int
      → (n : ℕ) (w w' : World) {current : ℤ} → n < 2 ^ 63
      → StoredSeq n w.files
      → read_current parse_int w ≡ (ok current, w')
      → current ≡ pos n
  unfolding read_current current_from read_file syscall ◌>>=◌
  read_current-StoredSeq laws n w w' lt stored h = ground (arith, parse_current-payload laws n)

  next-pos : (n : ℕ) → suc n < 2 ^ 63 → pos n +ℤ pos 1 ≡ pos (suc n)
  unfolding ◌+ℤ◌
  next-pos n h = ground arith

  -- A call leaves the files alone and fails, or stores the next number and returns it or fails.
  abbrev pub Advanced : ℕ → Files → Result ℤ → Files → Type 0
  Advanced n before r after =
      ((after ≡ before) × (is_ok r ≡ false))
      ⊎ ((after ≡ write_at next_seq (payload (pos (suc n))) before)
          × ((r ≡ ok (pos (suc n))) ⊎ (is_ok r ≡ false)))

  read_current-files : (w : World) → (read_current parse_int w).1.files ≡ w.files
  unfolding read_current read_file syscall ◌>>=◌
  read_current-files w = ground arith

  stored-Advanced :
      (n : ℕ) (before : Files) (w : World)
      → w.files ≡ before
      → let next = pos (suc n) in
        let end =
          (wrapped_io "write next-seq" (write_file_atomically next_seq (payload next)) >> pure next)
            w in
        Advanced n before end.0 end.1.files
  unfolding wrapped_io ◌>>=◌
  stored-Advanced n before w same = ground (arith, write-outcome next_seq (payload (pos (suc n))) w)

  -- AllocateSeq on a stored number `n` whose successor fits in an int64, whatever system calls fail:
  -- no file changes and an error is returned, or the file holds n + 1, no other file changes, and
  -- n + 1 or an error is returned.
  pub allocate_seq-Advanced :
      ReadsBack parse_int
      → (n : ℕ) (w : World) → suc n < 2 ^ 63
      → StoredSeq n w.files
      → let (r, w') = allocate_seq parse_int w in Advanced n w.files r w'.files
  unfolding allocate_seq
  allocate_seq-Advanced laws n w lt stored =
      quiet_result (Advanced n w.files) lock_receipt _ w (lock-files w) (λ e. inl (refl, refl))
        λ _ w1 _ s1.
          quiet_result (Advanced n w.files) (syscall "create dir") _ w1
            (syscall-files "create dir" w1) (λ e. inl (s1, refl))
            λ _ w2 _ s2.
              quiet_result (Advanced n w.files) (read_current parse_int) _ w2
                (read_current-files w2) (λ e. inl (s2 ∙ s1, refl))
                λ current w3 read s3.
                  let same =
                    read_current-StoredSeq laws n w2 w3 {current = current} (omega arith)
                      (subst (StoredSeq n) (sym (s2 ∙ s1)) stored) read in
                  let next = ap (λ k. k +ℤ pos 1) same ∙ next-pos n lt in
                  rw next (stored-Advanced n w.files w3 (s3 ∙ s2 ∙ s1))

  -- Calls one after another, each with the faults that it meets.
  unfoldable pub allocations : List (List Bool) → World → List (Result ℤ)
  allocations [] w = []
  allocations (faults ∷ later) w =
      let (r, w') = allocate_seq parse_int (record w { faults = faults }) in
      r ∷ allocations later w'

  -- The numbers among the results ascend from above `n`.
  abbrev pub AscendsFrom : ℕ → List (Result ℤ) → Type 0
  AscendsFrom n [] = Unit
  AscendsFrom n (ok z ∷ rs) = (m : ℕ) × (z ≡ pos m) × (n < m) × AscendsFrom m rs
  AscendsFrom n (err e ∷ rs) = AscendsFrom n rs

  AscendsFrom-weaken :
      (n m : ℕ) (rs : List (Result ℤ)) → n ≤ m → AscendsFrom m rs → AscendsFrom n rs
  AscendsFrom-weaken n m [] le h = tt
  AscendsFrom-weaken n m (ok z ∷ rs) le (k, e, lt, more) = (k, e, omega arith, more)
  AscendsFrom-weaken n m (err e ∷ rs) le h = AscendsFrom-weaken n m rs le h

  stored_after : (n : ℕ) (files : Files) → StoredSeq n (write_at next_seq (payload (pos n)) files)
  unfolding path_eq
  stored_after n files = inr (read_at-write_at next_seq next_seq (payload (pos n)) files)

  -- One more result in front, from what the call did.
  ascends_step :
      (n : ℕ) (r : Result ℤ) (before after : Files) (rs : List (Result ℤ))
      → Advanced n before r after
      → (after ≡ before → AscendsFrom n rs)
      → (after ≡ write_at next_seq (payload (pos (suc n))) before → AscendsFrom (suc n) rs)
      → AscendsFrom n (r ∷ rs)
  ascends_step n (ok z) before after rs (inl (same, bad)) stay step = cc
  ascends_step n (err e) before after rs (inl (same, bad)) stay step = stay same
  ascends_step n (ok z) before after rs (inr (written, inl good)) stay step =
      (suc n, cc, omega arith, step written)
  ascends_step n (ok z) before after rs (inr (written, inr bad)) stay step = cc
  ascends_step n (err e) before after rs (inr (written, how)) stay step =
      AscendsFrom-weaken n (suc n) rs (omega arith) (step written)

  -- Whatever system calls fail in them, the numbers that successive calls of AllocateSeq return
  -- ascend strictly from above the stored one, so none is handed out twice, as long as they fit in
  -- an int64.
  pub allocations-AscendsFrom :
      ReadsBack parse_int
      → (n : ℕ) (calls : List (List Bool)) (w : World) → n + length calls < 2 ^ 63
      → StoredSeq n w.files
      → AscendsFrom n (allocations calls w)
  unfolding allocations
  allocations-AscendsFrom laws n [] w lt stored = tt
  allocations-AscendsFrom laws n (faults ∷ later) w lt stored =
      let w1 = record w { faults = faults } in
      let end = allocate_seq parse_int w1 in
      ascends_step n end.0 w.files end.1.files (allocations later end.1)
        (allocate_seq-Advanced laws n w1 (omega arith) stored)
        (λ same.
          allocations-AscendsFrom laws n later end.1 (omega arith)
            (subst (StoredSeq n) (sym same) stored))
        (λ written.
          allocations-AscendsFrom laws (suc n) later end.1 (omega arith)
            (subst (StoredSeq (suc n)) (sym written) (stored_after (suc n) w.files)))

  -- The rest of a call that has read the stored number.
  allocated :
      (n : ℕ) (r : Result Text) (w : World)
      → w.faults ≡ []
      → suc n < 2 ^ 63
      → current_from parse_int r ≡ ok (pos n)
      → (continue
          (current_from parse_int r)
          (λ current.
            let next = current +ℤ pos 1 in
            wrapped_io "write next-seq" (write_file_atomically next_seq (payload next))
            >> pure next)
          w).0
        ≡ ok (pos (suc n))
  unfolding wrapped_io ◌>>=◌
  allocated n r w calm lt good =
      rw (good, next-pos n lt) (ground (arith, write-calm next_seq (payload (pos (suc n))) w calm))

  -- When no system call fails, AllocateSeq on a stored number returns its successor.
  pub allocate_seq-succeeds :
      ReadsBack parse_int
      → (n : ℕ) (w : World) → suc n < 2 ^ 63
      → StoredSeq n w.files
      → (allocate_seq parse_int (record w { faults = [] })).0 ≡ ok (pos (suc n))
  unfolding allocate_seq lock_receipt read_current read_file ◌>>=◌ syscall next_fault later_faults
      current_from parse_current read_at
  allocate_seq-succeeds laws n w lt (inl (zero, missing)) = rw missing (
      allocated n (err not_exist) (record w { faults = [] }) refl lt
        (ap (λ k. ok (pos k)) (sym zero)))
  allocate_seq-succeeds laws n w lt (inr there) = rw there (
      allocated n (ok (payload (pos n))) (record w { faults = [] }) refl lt
        (parse_current-payload laws n (omega arith)))
