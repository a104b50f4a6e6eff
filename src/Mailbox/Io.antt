-- ===== src/Mailbox/Io.antt =====
-- System calls over the files of a session. Any of them may fail; a caller of the model chooses
-- which, by the list of faults.
use tmuxicate.Prelude.{
  ℕ, ◌+◌, Bool, true, false, List, [], ◌∷◌, Option, none, some, Result, ok, err, wrapped, failed,
  not_exist, String, if◌then◌else◌, ◌==◌,
}
use tmuxicate.Text.{Text}
use tmuxicate.Mailbox.Files.{Files, FilePath, read_at, write_at, remove_at}

pub record World : Type 0 where
  pub files : Files
  -- temporary files by the number in their name; no pattern of the store matches such a name
  pub temps : ℕ → Option Text
  pub next_temp : ℕ
  -- does the next call fail, and the one after it, and so on; none fails past the end
  pub faults : List Bool

abbrev pub Io {ℓ} : Type ℓ → Type ℓ
Io A = World → Result A × World

infixl 5 ◌>>=◌ ◌>>◌
abbrev pub continue {ℓ κ} : {A : Type ℓ} {B : Type κ} → Result A → (A → Io B) → Io B
continue (ok a) f w = f a w
continue (err e) f w = (err e, w)

unfoldable pub ◌>>=◌ : {A B : Type 0} → Io A → (A → Io B) → Io B
◌>>=◌ m f w = let (r, w') = m w in continue r f w'

abbrev pub ◌>>◌ : {B : Type 0} → Io (Unit {0}) → Io B → Io B
m >> k = m >>= λ _. k

abbrev pub pure : {A : Type 0} → A → Io A
pure a w = (ok a, w)

abbrev pub lift : {A : Type 0} → Result A → Io A
lift r w = (r, w)

-- The first of the faults, and the later ones.
unfoldable pub next_fault : List Bool → Bool
next_fault [] = false
next_fault (b ∷ bs) = b

unfoldable pub later_faults : List Bool → List Bool
later_faults [] = []
later_faults (b ∷ bs) = bs

unfoldable pub syscall : String → Io (Unit {0})
syscall op w = (
  if next_fault w.faults then err (failed op) else ok tt,
  record w { faults = later_faults w.faults },
)

-- `if err := m; err != nil { cleanup; return err }`: what the cleanup returns is dropped.
unfoldable pub or_cleanup : Io (Unit {0}) → Io (Unit {0}) → Io (Unit {0})
or_cleanup m cleanup w =
    let (r, w') = m w in elim r [ ok u ↦ (ok u, w') | err e ↦ (err e, (cleanup w').1) ]

-- `if err := m; err != nil { return fmt.Errorf("context: %w", err) }`
unfoldable pub wrapped_io : {A : Type 0} → String → Io A → Io A
wrapped_io context m w = let (r, w') = m w in (wrapped context r, w')

-- os.ReadFile
unfoldable pub read_file : FilePath → Io Text
unfolding syscall ◌>>=◌
read_file p = do
  syscall "read"
  λ w. (elim (read_at p w.files) [ none ↦ err not_exist | some d ↦ ok d ], w)

-- os.Stat: does the path exist? An error other than os.ErrNotExist is a failure.
unfoldable pub exists : FilePath → Io Bool
unfolding syscall ◌>>=◌
exists p = do
  syscall "stat"
  λ w. (ok (elim (read_at p w.files) [ none ↦ false | some d ↦ true ]), w)

-- os.Remove
unfoldable pub remove_file : FilePath → Io (Unit {0})
unfolding syscall ◌>>=◌
remove_file p = do syscall "remove"; λ w. (ok tt, record w { files = remove_at p w.files })

-- os.CreateTemp: a name that no file has yet.
unfoldable pub create_temp : Io ℕ
unfolding syscall ◌>>=◌
create_temp = do
  syscall "create temp file"
  λ w. (
    ok w.next_temp,
    record w {
      temps = λ m. if m == w.next_temp then some [] else w.temps m;
      next_temp = w.next_temp + 1;
    },
  )

unfoldable pub write_temp : ℕ → Text → Io (Unit {0})
unfolding syscall ◌>>=◌
write_temp n content = do
  syscall "write temp file"
  λ w. (ok tt, record w { temps = λ m. if m == n then some content else w.temps m })

unfoldable pub remove_temp : ℕ → Io (Unit {0})
unfolding syscall ◌>>=◌
remove_temp n = do
  syscall "remove temp file"
  λ w. (ok tt, record w { temps = λ m. if m == n then none else w.temps m })

-- os.Rename of a temporary file over a path: the path changes in one step.
unfoldable pub rename_temp : ℕ → FilePath → Io (Unit {0})
unfolding syscall ◌>>=◌
rename_temp n p = do
  syscall "rename temp file"
  λ w. elim (w.temps n) [
    | none ↦ (err not_exist, w)
    | some d ↦ (
      ok tt,
      record w { files = write_at p d w.files; temps = λ m. if m == n then none else w.temps m },
    )
  ]

-- syncDir: open the directory, then fsync it.
unfoldable pub sync_dir : Io (Unit {0})
unfolding syscall ◌>>=◌
sync_dir = do syscall "open dir"; syscall "sync dir"
