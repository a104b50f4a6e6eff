-- ===== src/Mailbox/Files.antt =====
-- The files of a session directory (internal/mailbox/paths.go) as a list of paths with contents.
use tmuxicate.Prelude.{
  ◌≡◌, refl, ◌↔◌, Bool, true, false, ◌&&◌, ◌||◌, List, [], ◌∷◌, ◌++◌, Option, none, some, arith,
  if◌then◌else◌, ap,
}
use tmuxicate.Text.{Text, codes, text_eq, text_eq→, text_eq_refl}
use tmuxicate.Text.Decimal.{padded}
use tmuxicate.Prelude.Int.{ℤ, pos, negsuc}
use tmuxicate.Prelude.{suc, ◌∙◌, sym}
use tmuxicate.Protocol.Enums.{FolderState, folder_state_eq}
use tmuxicate.Protocol.Documents.{Receipt}

-- The directories of a run that hold a document for every task.
pub data RunPart : Type 0 where
  tasks reviews blockers replans : RunPart

-- A path below the session directory; the file name of a receipt stands last. `run_part` is a part of
-- a run, the run, and the task that names the file.
pub data FilePath : Type 0 where
  inbox : Text → FolderState → Text → FilePath
  next_seq : FilePath
  envelope : Text → FilePath
  body : Text → FilePath
  run_file : Text → FilePath
  run_part : RunPart → Text → Text → FilePath
  preferences : Text → FilePath

abbrev pub run_part_eq : RunPart → RunPart → Bool
run_part_eq RunPart.tasks RunPart.tasks = true
run_part_eq RunPart.reviews RunPart.reviews = true
run_part_eq RunPart.blockers RunPart.blockers = true
run_part_eq RunPart.replans RunPart.replans = true
run_part_eq _ _ = false

unfoldable pub path_eq : FilePath → FilePath → Bool
path_eq (inbox a f n) (inbox a' f' n') = text_eq a a' && folder_state_eq f f' && text_eq n n'
path_eq next_seq next_seq = true
path_eq (envelope i) (envelope j) = text_eq i j
path_eq (body i) (body j) = text_eq i j
path_eq (run_file i) (run_file j) = text_eq i j
path_eq (run_part k i t) (run_part l j u) = run_part_eq k l && text_eq i j && text_eq t u
path_eq (preferences c) (preferences d) = text_eq c d
path_eq _ _ = false

pub folder_state_eq→ : (a b : FolderState) → folder_state_eq a b ≡ true → a ≡ b
folder_state_eq→ (FolderState.other s) (FolderState.other t) h =
    ap FolderState.other (text_eq→ s t h)
folder_state_eq→ a b h = ground arith

pub folder_state_eq_refl : (a : FolderState) → folder_state_eq a a ≡ true
folder_state_eq_refl (FolderState.other s) = text_eq_refl s
folder_state_eq_refl FolderState.unread = refl
folder_state_eq_refl _ = refl

run_part_eq→ : (a b : RunPart) → run_part_eq a b ≡ true → a ≡ b
run_part_eq→ a b h = ground arith

pub run_part_eq_refl : (a : RunPart) → run_part_eq a a ≡ true
run_part_eq_refl a = ground arith

pub path_eq→ : (p q : FilePath) → path_eq p q ≡ true → p ≡ q
unfolding path_eq
path_eq→ (inbox a f n) (inbox a' f' n') h =
    ground (arith, text_eq→ a a', folder_state_eq→ f f', text_eq→ n n')
path_eq→ (envelope i) (envelope j) h = ap envelope (text_eq→ i j h)
path_eq→ (body i) (body j) h = ap body (text_eq→ i j h)
path_eq→ (run_file i) (run_file j) h = ap run_file (text_eq→ i j h)
path_eq→ (run_part k i t) (run_part l j u) h =
    ground (arith, run_part_eq→ k l, text_eq→ i j, text_eq→ t u)
path_eq→ (preferences c) (preferences d) h = ap preferences (text_eq→ c d h)
path_eq→ next_seq next_seq h = refl
path_eq→ p q h = ground arith

pub path_eq_refl : (p : FilePath) → path_eq p p ≡ true
unfolding path_eq
path_eq_refl (inbox a f n) = ground (arith, text_eq_refl a, folder_state_eq_refl f, text_eq_refl n)
path_eq_refl next_seq = refl
path_eq_refl (envelope i) = text_eq_refl i
path_eq_refl (body i) = text_eq_refl i
path_eq_refl (run_file i) = text_eq_refl i
path_eq_refl (run_part k i t) = ground (arith, run_part_eq_refl k, text_eq_refl i, text_eq_refl t)
path_eq_refl (preferences c) = text_eq_refl c

pub path_eq_iff : (p q : FilePath) → (path_eq p q ≡ true) ↔ (p ≡ q)
path_eq_iff p q = (path_eq→ p q, λ e. ap (path_eq p) (sym e) ∙ path_eq_refl p)

abbrev pub Files : Type 0
Files = List (FilePath × Text)

unfoldable pub read_at : FilePath → Files → Option Text
read_at p [] = none
read_at p ((q, d) ∷ fs) = let rest = read_at p fs in if path_eq q p then some d else rest

unfoldable pub write_at : FilePath → Text → Files → Files
write_at p d [] = (p, d) ∷ []
write_at p d ((q, e) ∷ fs) =
    let rest = write_at p d fs in if path_eq q p then (q, d) ∷ fs else (q, e) ∷ rest

unfoldable pub remove_at : FilePath → Files → Files
remove_at p [] = []
remove_at p ((q, e) ∷ fs) = let rest = remove_at p fs in if path_eq q p then rest else (q, e) ∷ rest

pub read_at-write_at :
    (p q : FilePath) (d : Text) (fs : Files)
    → read_at q (write_at p d fs) ≡ (if path_eq p q then some d else read_at q fs)
unfolding read_at write_at
read_at-write_at p q d [] = refl
read_at-write_at p q d ((r, e) ∷ fs) =
    ground (arith, read_at-write_at p q d fs, path_eq_iff r p, path_eq_iff p q, path_eq_iff r q)

pub read_at-remove_at :
    (p q : FilePath) (fs : Files)
    → read_at q (remove_at p fs) ≡ (if path_eq p q then none else read_at q fs)
unfolding read_at remove_at
read_at-remove_at p q [] = ground arith
read_at-remove_at p q ((r, e) ∷ fs) =
    ground (arith, read_at-remove_at p q fs, path_eq_iff r p, path_eq_iff p q, path_eq_iff r q)

-- ReceiptFileName: fmt.Sprintf("%010d-%s.yaml", receipt.Seq, receipt.MessageID)
format_seq10 : ℤ → Text
format_seq10 (pos n) = padded 10 n
format_seq10 (negsuc n) = b'-' ∷ padded 9 (suc n)

unfoldable pub receipt_file_name : Receipt → Text
unfolding format_seq10
receipt_file_name r = format_seq10 r.seq ++ b'-' ∷ (r.message_id ++ codes ".yaml")

-- Does the pattern `*-<id>.yaml` match the name? `tail` is what follows the star.
unfoldable pub glob_star : Text → Text → Bool
glob_star tail [] = text_eq [] tail
glob_star tail (c ∷ name) = let later = glob_star tail name in text_eq (c ∷ name) tail || later

unfoldable pub names_message : Text → Text → Bool
unfolding glob_star
names_message id name = glob_star (b'-' ∷ (id ++ codes ".yaml")) name
