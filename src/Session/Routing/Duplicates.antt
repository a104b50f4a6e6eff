-- ===== src/Session/Routing/Duplicates.antt =====
-- findActiveDuplicateTask of internal/session/run.go: what it means that it finds nothing.
use tmuxicate.Prelude.{
  ◌≡◌, refl, ◌⊎◌, inl, inr, Bool-cases, true, false, ◌&&◌, List, [], ◌∷◌, Option, none, some,
  Result, ok, >>=-eq-ok, All, arith,
}
use tmuxicate.Text.{Text, text_eq, text_eq_iff, is_blank, is_blank_of_char, is_space}
use tmuxicate.Protocol.Enums.{FolderState, TaskClass}
use tmuxicate.Protocol.Documents.{ChildTask}
use tmuxicate.Protocol.Validation.Run.{duplicate_key_for_route}
use tmuxicate.Config.{ResolvedConfig}
use tmuxicate.Session.Routing.Selection.{
  RouteEnv, is_closed, active_duplicate_in, find_active_duplicate_task, is_there,
  duplicate_policy_blocks, duplicate_policy_allows_fanout,
}

-- The receipt of the task is done or dead.
pub data Closed (receipt_state : Text → Text → Result FolderState) (t : ChildTask) : Type 0 where
  done : receipt_state t.owner t.message_id ≡ ok FolderState.done → Closed receipt_state t
  dead : receipt_state t.owner t.message_id ≡ ok FolderState.dead → Closed receipt_state t

-- Every task of the key is closed.
abbrev pub AllClosed : (Text → Text → Result FolderState) → Text → List ChildTask → Type 0
AllClosed receipt_state key tasks = All (λ t. t.duplicate_key ≡ key → Closed receipt_state t) tasks

receipt-Closed :
    (receipt_state : Text → Text → Result FolderState) (t : ChildTask) (s : FolderState)
    → receipt_state t.owner t.message_id ≡ ok s
    → is_closed s ≡ true
    → Closed receipt_state t
unfolding is_closed
receipt-Closed receipt_state t FolderState.done e h = Closed.done e
receipt-Closed receipt_state t FolderState.dead e h = Closed.dead e
receipt-Closed receipt_state t FolderState.unread e h = cc
receipt-Closed receipt_state t FolderState.active e h = cc
receipt-Closed receipt_state t (FolderState.other x) e h = cc

none_in-AllClosed :
    (receipt_state : Text → Text → Result FolderState) (key : Text) (tasks : List ChildTask)
    → active_duplicate_in receipt_state key tasks ≡ ok none
    → AllClosed receipt_state key tasks
unfolding active_duplicate_in
none_in-AllClosed receipt_state key [] h = tt
none_in-AllClosed receipt_state key (t ∷ tasks) h =
    elim (Bool-cases (text_eq t.duplicate_key key)) [
      | inl e ↦
          let (s, state, h1) = >>=-eq-ok (receipt_state t.owner t.message_id) _ (rw e at h) in
          elim (Bool-cases (is_closed s)) [
            | inl c ↦ (
              λ same. receipt-Closed receipt_state t s state c,
              none_in-AllClosed receipt_state key tasks (rw c at h1),
            )
            | inr c ↦ absurd (cc (rw c at h1))
          ]
      | inr e ↦ (
        λ same. cc ((text_eq_iff t.duplicate_key key).1 same),
        none_in-AllClosed receipt_state key tasks (rw e at h),
      )
    ]

route_key-is_blank :
    (run : Text) (k : TaskClass) (domains : List Text)
    → is_blank (duplicate_key_for_route run k domains) ≡ false
unfolding duplicate_key_for_route is_space
route_key-is_blank run k domains = is_blank_of_char run _ b'|' refl

-- No task of the run with the duplicate key of a route is open.
pub record NoneOpen (env : RouteEnv) (run key : Text) : Type 0 where
  pub tasks : List ChildTask
  pub loaded : env.load_tasks run ≡ ok tasks
  pub closed : AllClosed env.receipt_state key tasks

none_found-NoneOpen :
    (env : RouteEnv) (run key : Text)
    → is_blank key ≡ false
    → find_active_duplicate_task env run key ≡ ok none
    → NoneOpen env run key
unfolding find_active_duplicate_task
none_found-NoneOpen env run key shown h =
    let (tasks, loaded, h1) = >>=-eq-ok (env.load_tasks run) _ (rw shown at h) in
    record {
      tasks = tasks;
      loaded = loaded;
      closed = none_in-AllClosed env.receipt_state key tasks h1;
    }

blocks_of_no_fanout :
    (cfg : ResolvedConfig) (k : TaskClass)
    → duplicate_policy_allows_fanout cfg k ≡ false
    → duplicate_policy_blocks cfg k ≡ true
unfolding duplicate_policy_blocks
blocks_of_no_fanout cfg k h = ground arith

-- Behind the test of a route on duplicates.
pub unblocked-NoneOpen :
    (env : RouteEnv) (cfg : ResolvedConfig) (run : Text) (k : TaskClass) (domains : List Text)
    (dup : Option ChildTask)
    → find_active_duplicate_task env run (duplicate_key_for_route run k domains) ≡ ok dup
    → (is_there dup && duplicate_policy_blocks cfg k) ≡ false
    → (duplicate_policy_allows_fanout cfg k ≡ true)
      ⊎ NoneOpen env run (duplicate_key_for_route run k domains)
unfolding is_there
unblocked-NoneOpen env cfg run k domains none found passed =
    inr (none_found-NoneOpen env run _ (route_key-is_blank run k domains) found)
unblocked-NoneOpen env cfg run k domains (some t) found passed =
    elim (Bool-cases (duplicate_policy_allows_fanout cfg k)) [
      | inl e ↦ inl e
      | inr e ↦ absurd (cc (blocks_of_no_fanout cfg k e, passed))
    ]
