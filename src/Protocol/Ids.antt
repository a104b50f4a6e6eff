-- ===== src/Protocol/Ids.antt =====
-- internal/protocol/ids.go, the generators of coordinator.go, and the identifier checks of
-- validation.go.
use tmuxicate.Prelude.{
  ◌↔◌, ℕ, suc, ◌^◌, ◌≡◌, refl, sym, ap, ◌∙◌, ◌≢◌, Bool, true, false, ◌&&◌, [], ◌∷◌, ◌++◌, arith,
  ltb, ◌==◌, length, all,
}
use tmuxicate.Prelude.Int.{ℤ, pos, negsuc}
use tmuxicate.Text.{Text, codes, cut_prefix, Prefixed, without, rest, byte_len, is_digit}
use tmuxicate.Text.Decimal.{padded, padded-digits, length-padded, value-padded, value_from}

-- fmt.Sprintf("%012d", seq): the sign counts for the width.
unfoldable pub format_seq : ℤ → Text
format_seq (pos n) = padded 12 n
format_seq (negsuc n) = b'-' ∷ padded 11 (suc n)

unfoldable pub new_message_id : ℤ → Text
unfolding format_seq
new_message_id seq = codes "msg_" ++ format_seq seq

unfoldable pub new_thread_id : ℤ → Text
unfolding format_seq
new_thread_id seq = codes "thr_" ++ format_seq seq

unfoldable pub new_run_id : ℤ → Text
unfolding format_seq
new_run_id seq = codes "run_" ++ format_seq seq

unfoldable pub new_task_id : ℤ → Text
unfolding format_seq
new_task_id seq = codes "task_" ++ format_seq seq

is_generated_suffix : Prefixed → Bool
is_generated_suffix without = false
is_generated_suffix (rest suffix) = byte_len suffix == 12 && all is_digit suffix

unfoldable pub is_generated_identifier : Text → Text → Bool
unfolding is_generated_suffix
is_generated_identifier value prefix = is_generated_suffix (cut_prefix prefix value)

unfoldable pub is_generated_run_id : Text → Bool
unfolding is_generated_identifier
is_generated_run_id id = is_generated_identifier id (codes "run_")

unfoldable pub is_generated_task_id : Text → Bool
unfolding is_generated_identifier
is_generated_task_id id = is_generated_identifier id (codes "task_")

unfoldable pub is_generated_message_id : Text → Bool
unfolding is_generated_identifier
is_generated_message_id id = is_generated_identifier id (codes "msg_")

cut_prefix-append : (p s : Text) → cut_prefix p (p ++ s) ≡ rest s
unfolding cut_prefix
cut_prefix-append [] s = refl
cut_prefix-append (c ∷ p) s = ground (arith, cut_prefix-append p s)

-- Digits take one byte each.
byte_len-digits : (s : Text) → all is_digit s ≡ true → byte_len s ≡ length s
unfolding byte_len is_digit
byte_len-digits [] h = refl
byte_len-digits (c ∷ s) h = ground (arith, byte_len-digits s)

suffix_valid_iff : (n : ℕ) → is_generated_suffix (rest (padded 12 n)) ≡ ltb n (10 ^ 12)
unfolding is_generated_suffix
suffix_valid_iff n = ground (
  arith,
  padded-digits 12 n,
  byte_len-digits (padded 12 n) (padded-digits 12 n),
  (length-padded 11 n).0,
  (length-padded 11 n).1,
)

-- For a sequence number that is not negative, the generated run, task and message identifiers pass
-- their checks exactly if the number is below 10 ^ 12.
pub generated_id_iff :
    (n : ℕ)
    → (is_generated_run_id (new_run_id (pos n)) ≡ ltb n (10 ^ 12))
      × (is_generated_task_id (new_task_id (pos n)) ≡ ltb n (10 ^ 12))
      × (is_generated_message_id (new_message_id (pos n)) ≡ ltb n (10 ^ 12))
unfolding is_generated_run_id is_generated_task_id is_generated_message_id new_run_id new_task_id
    new_message_id
generated_id_iff n = (
  ap is_generated_suffix (cut_prefix-append (codes "run_") (padded 12 n)) ∙ suffix_valid_iff n,
  ap is_generated_suffix (cut_prefix-append (codes "task_") (padded 12 n)) ∙ suffix_valid_iff n,
  ap is_generated_suffix (cut_prefix-append (codes "msg_") (padded 12 n)) ∙ suffix_valid_iff n,
)

drop_prefix : (p s t : Text) → p ++ s ≡ p ++ t → s ≡ t
drop_prefix [] s t e = e
drop_prefix (c ∷ p) s t e = drop_prefix p s t (cc)

padded-injective : (w m n : ℕ) → padded w m ≡ padded w n → m ≡ n
padded-injective w m n e = sym (value-padded w m) ∙ ap (value_from 0) e ∙ value-padded w n

not_digits : (s t : Text) → all is_digit s ≡ true → s ≢ b'-' ∷ t
unfolding is_digit
not_digits [] t h e = cc
not_digits (c ∷ s) t h e = ground arith

format_seq-injective : (a b : ℤ) → format_seq a ≡ format_seq b → a ≡ b
unfolding format_seq
format_seq-injective (pos m) (pos n) e = ap pos (padded-injective 12 m n e)
format_seq-injective (pos m) (negsuc n) e = absurd (not_digits _ _ (padded-digits 12 m) e)
format_seq-injective (negsuc m) (pos n) e = absurd (not_digits _ _ (padded-digits 12 n) (sym e))
format_seq-injective (negsuc m) (negsuc n) e =
    let p = padded-injective 11 (suc m) (suc n) (drop_prefix (b'-' ∷ []) _ _ e) in
    ap negsuc (omega arith)

-- Message, thread, run and task identifiers are equal exactly if their sequence numbers are.
pub generated_id-injective :
    (a b : ℤ)
    → ((new_message_id a ≡ new_message_id b) ↔ (a ≡ b))
      × ((new_thread_id a ≡ new_thread_id b) ↔ (a ≡ b))
      × ((new_run_id a ≡ new_run_id b) ↔ (a ≡ b))
      × ((new_task_id a ≡ new_task_id b) ↔ (a ≡ b))
unfolding new_message_id new_thread_id new_run_id new_task_id
generated_id-injective a b = (
  (λ e. format_seq-injective a b (drop_prefix (codes "msg_") _ _ e), ap new_message_id),
  (λ e. format_seq-injective a b (drop_prefix (codes "thr_") _ _ e), ap new_thread_id),
  (λ e. format_seq-injective a b (drop_prefix (codes "run_") _ _ e), ap new_run_id),
  (λ e. format_seq-injective a b (drop_prefix (codes "task_") _ _ e), ap new_task_id),
)
