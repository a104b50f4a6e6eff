-- ===== src/Mailbox/Store/Effects.antt =====
-- What each step of the store does to the files, whatever system calls fail.
use tmuxicate.Prelude.{
  ◌≡◌, ◌≢◌, refl, ◌⊎◌, inl, inr, Result, Error, String, wrapped, ok, err, arith, Bool-cases, subst,
  sym, ap, ◌∙◌, List, [], ◌∷◌, if◌then◌else◌,
}
use tmuxicate.Text.{Text, text_eq, text_eq→}
use tmuxicate.Protocol.Enums.{FolderState, folder_state_eq}
use tmuxicate.Protocol.Documents.{Receipt}
use tmuxicate.Mailbox.Files.{
  Files, FilePath, inbox, folder_state_eq→, read_at, names_message, remove_at,
}
use tmuxicate.Prelude.{some, ◌&&◌, msg, is_nil}
use tmuxicate.Mailbox.Write.{write_file_atomically, write-outcome}
use tmuxicate.Mailbox.Files.{write_at}
use tmuxicate.Mailbox.Io.{
  wrapped_io, World, Io, continue, ◌>>=◌, lift, syscall, read_file, sync_dir, remove_file, exists,
}
use tmuxicate.Mailbox.Store.{
  Codec, glob_receipts, find_in, find_receipt_path, lock_receipt, read_receipt_file, folders,
}

-- A rule for sequences: what holds of the files before `m` holds after `m >>= f`, if `m` keeps it
-- and `f` keeps it behind every value that `m` returns.
pub bind_rule {κ} :
    (P : Files → Type κ) {A B : Type 0} (m : Io A) (f : A → Io B) (w : World)
    → P (m w).1.files
    → ((a : A) (w' : World) → m w ≡ (ok a, w') → P w'.files → P (f a w').1.files)
    → P ((m >>= f) w).1.files
unfolding ◌>>=◌
bind_rule P {A} {B} m f w h k = go (m w).0 (m w).1 refl h
  where
    go : (r : Result A) (w' : World) → m w ≡ (r, w') → P w'.files → P (continue r f w').1.files
    go (ok a) w' e p = k a w' e p
    go (err x) w' e p = p

-- The rule for a step that leaves the files alone.
pub quiet_rule {κ} :
    (P : Files → Type κ) {A B : Type 0} (m : Io A) (f : A → Io B) (w : World)
    → (m w).1.files ≡ w.files
    → P w.files
    → ((a : A) (w' : World) → m w ≡ (ok a, w') → w'.files ≡ w.files → P (f a w').1.files)
    → P ((m >>= f) w).1.files
quiet_rule P m f w q h k =
    bind_rule P m f w (subst P (sym q) h) λ a w' e p. k a w' e (sym (ap (λ t. t.1.files) e) ∙ q)

-- The rule for a statement about the result too: `m` ends the sequence with its error, or hands its
-- value on.
pub result_rule {κ} :
    {A B : Type 0} (Post : Result B → Files → Type κ) (m : Io A) (f : A → Io B) (w : World)
    → ((e : Error) (w' : World) → m w ≡ (err e, w') → Post (err e) w'.files)
    → ((a : A) (w' : World) → m w ≡ (ok a, w') → Post (f a w').0 (f a w').1.files)
    → Post ((m >>= f) w).0 ((m >>= f) w).1.files
unfolding ◌>>=◌
result_rule {A} {B} Post m f w h k = go (m w).0 (m w).1 refl
  where
    go :
        (r : Result A) (w' : World)
        → m w ≡ (r, w')
        → Post (continue r f w').0 (continue r f w').1.files
    go (ok a) w' e = k a w' e
    go (err x) w' e = h x w' e

pub quiet_result {κ} :
    {A B : Type 0} (Post : Result B → Files → Type κ) (m : Io A) (f : A → Io B) (w : World)
    → (m w).1.files ≡ w.files
    → ((e : Error) → Post (err e) w.files)
    → ((a : A) (w' : World)
        → m w ≡ (ok a, w')
        → w'.files ≡ w.files
        → Post (f a w').0 (f a w').1.files)
    → Post ((m >>= f) w).0 ((m >>= f) w).1.files
quiet_result Post m f w q h k =
    result_rule Post m f w
      (λ e w' p. subst (Post (err e)) (sym (sym (ap (λ t. t.1.files) p) ∙ q)) (h e))
      (λ a w' p. k a w' p (sym (ap (λ t. t.1.files) p) ∙ q))

pub lock-files : (w : World) → (lock_receipt w).1.files ≡ w.files
unfolding lock_receipt
lock-files w = ground arith

pub syscall-files : (op : String) (w : World) → (syscall op w).1.files ≡ w.files
unfolding syscall
syscall-files op w = refl

pub sync-files : (w : World) → (sync_dir w).1.files ≡ w.files
unfolding sync_dir
sync-files w = ground arith

pub exists-files : (p : FilePath) (w : World) → (exists p w).1.files ≡ w.files
unfolding exists
exists-files p w = ground arith

pub remove-outcome :
    (p : FilePath) (w : World)
    → ((remove_file p w).1.files ≡ w.files) ⊎ ((remove_file p w).1.files ≡ remove_at p w.files)
unfolding remove_file
remove-outcome p w = ground arith

pub read_receipt_file-files :
    (yaml : Codec Receipt) (p : FilePath) (w : World)
    → (read_receipt_file yaml p w).1.files ≡ w.files
unfolding read_receipt_file ◌>>=◌ read_file wrapped_io
read_receipt_file-files yaml p w = ground arith

-- The path that is found is one of the agent's inbox, in the folder that is reported.
abbrev pub IsInbox : Text → FilePath × FolderState → Type 0
IsInbox agent found = (name : Text) × (found.0 ≡ inbox agent found.1 name)

glob-IsInbox :
    (agent : Text) (folder : FolderState) (id : Text) (fs : Files) {p : FilePath}
    {ps : List FilePath}
    → glob_receipts agent folder id fs ≡ p ∷ ps
    → (name : Text) × (p ≡ inbox agent folder name)
unfolding glob_receipts
glob-IsInbox agent folder id [] h = cc
glob-IsInbox agent folder id ((inbox a f n, d) ∷ fs) {p} h =
    elim (Bool-cases (text_eq a agent && folder_state_eq f folder && names_message id n)) [
      | inl e ↦ (n, ground (arith, text_eq→ a agent, folder_state_eq→ f folder))
      | inr e ↦ glob-IsInbox agent folder id fs (rw e at h)
    ]
glob-IsInbox agent folder id ((p, d) ∷ fs) h = glob-IsInbox agent folder id fs h

pub find_in-IsInbox :
    (agent id : Text) (fs : Files) (fl : List FolderState) {found : FilePath × FolderState}
    → find_in agent id fs fl ≡ ok found
    → IsInbox agent found
unfolding find_in
find_in-IsInbox agent id fs [] h = absurd (cc)
find_in-IsInbox agent id fs (folder ∷ later) {found} h =
    go (λ k. find_in-IsInbox agent id fs later {found = found} k) (glob_receipts agent folder id fs)
      refl h
  where
    go :
        (find_in agent id fs later ≡ ok found → IsInbox agent found)
        → (ps : List FilePath) → glob_receipts agent folder id fs ≡ ps
        → elim ps as (λ _. Result (FilePath × FolderState)) [
          | [] ↦ find_in agent id fs later
          | q ∷ qs ↦ if is_nil qs then ok (q, folder) else err (msg "multiple receipts found")
        ]
          ≡ ok found
        → IsInbox agent found
    go next [] e k = next k
    go next (q ∷ []) e k =
        let (name, shape) = glob-IsInbox agent folder id fs e in
        subst (IsInbox agent) (cc) (name, shape)
    go next (q ∷ r ∷ rs) e k = absurd (cc)

pub find-result :
    (agent id : Text) (w w' : World) {found : FilePath × FolderState}
    → find_receipt_path agent id w ≡ (ok found, w')
    → IsInbox agent found
unfolding find_receipt_path
find-result agent id w w' h = find_in-IsInbox agent id w.files folders (ap (λ t. t.0) h)

-- Returned values of the pure steps.
pub lift-result :
    {A : Type 0} (r : Result A) {a : A} {w w' : World} → lift r w ≡ (ok a, w') → r ≡ ok a
lift-result r h = ap (λ t. t.0) h

pub wrapped-result :
    {A : Type 0} (c : String) (r : Result A) {a : A} → wrapped c r ≡ ok a → r ≡ ok a
wrapped-result c (ok b) h = h
wrapped-result c (err e) h = cc

-- What a successful read returns.
pub read_receipt_file-result :
    (yaml : Codec Receipt) (p : FilePath) (w w' : World) {c : Text} {r a : Receipt}
    → read_at p w.files ≡ some c
    → yaml.unmarshal c ≡ ok r
    → read_receipt_file yaml p w ≡ (ok a, w')
    → a ≡ r
unfolding read_receipt_file read_file syscall ◌>>=◌ wrapped_io
read_receipt_file-result yaml p w w' there parsed h = ground arith

pub find-keeps : (agent id : Text) (w : World) → (find_receipt_path agent id w).1.files ≡ w.files
unfolding find_receipt_path
find-keeps agent id w = refl

pub find-value :
    (agent id : Text) (w w' : World) {found : FilePath × FolderState}
    → find_receipt_path agent id w ≡ (ok found, w')
    → find_in agent id w.files folders ≡ ok found
unfolding find_receipt_path
find-value agent id w w' h = ap (λ t. t.0) h

-- The calls of the store with their context.
pub wrapped-files :
    {A : Type 0} (c : String) (m : Io A) (w : World) → (wrapped_io c m w).1.files ≡ (m w).1.files
unfolding wrapped_io
wrapped-files c m w = refl

wrapped-ok : (c : String) (r : Result (Unit {0})) → r ≢ ok tt → wrapped c r ≢ ok tt
wrapped-ok c r h k = h (wrapped-result c r k)

pub wrapped_write-outcome :
    (c : String) (p : FilePath) (content : Text) (w : World)
    → let (r, v) = wrapped_io c (write_file_atomically p content) w in
      (v.files ≡ write_at p content w.files) ⊎ ((v.files ≡ w.files) × (r ≢ ok tt))
unfolding wrapped_io
wrapped_write-outcome c p content w = elim (write-outcome p content w) [
  | inl e ↦ inl e
  | inr (e, bad) ↦ inr (e, wrapped-ok c _ bad)
]
