-- ===== src/Session/Reroutes.antt =====
-- rerouteBlockerTask of internal/session/task_cmd.go with what it calls: the receipt of the current task is
-- put out of the way, the task is routed again, and a failure puts the receipt back.
use tmuxicate.Prelude.{
  Bool, true, false, not, ◌||◌, List, [], ◌∷◌, ◌++◌, Option, none, some, Result, ok, err, Error,
  msg, wrap, wrapped, reject_if, is_nil, String, if◌then◌else◌,
}
use tmuxicate.Prelude.Int.{inc}
use tmuxicate.Text.{Text, codes, text_eq, trim_space, is_blank}
use tmuxicate.Protocol.Enums.{FolderState, check_task_class}
use tmuxicate.Protocol.Documents.{Receipt, ChildTask, RouteChildTaskRequest, Time}
use tmuxicate.Config.{ResolvedConfig}
use tmuxicate.Mailbox.Io.{Io, ◌>>=◌, ◌>>◌, pure, lift}
use tmuxicate.Mailbox.Store.{read_receipt, update_receipt, move_receipt}
use tmuxicate.Session.Services.{Services}

-- What the closure of suspendTaskReceiptForReroute remembers; `none` when there is nothing to restore.
pub record Suspended : Type 0 where
  pub folder : FolderState
  pub claimed_by : Option Text
  pub claimed_at : Option Time
  pub done_at : Option Time

abbrev pub is_finished : FolderState → Bool
is_finished FolderState.done = true
is_finished FolderState.dead = true
is_finished _ = false

abbrev pub cleared : Receipt → Receipt
cleared r = record r {
  claimed_by = none;
  claimed_at = none;
  done_at = none;
  revision = inc r.revision;
}

abbrev pub given_back : Suspended → Receipt → Receipt
given_back s r = record r {
  claimed_by = s.claimed_by;
  claimed_at = s.claimed_at;
  done_at = s.done_at;
  revision = inc r.revision;
}

abbrev pub suspended_of : Receipt → Suspended
suspended_of r = record {
  folder = r.folder_state;
  claimed_by = r.claimed_by;
  claimed_at = r.claimed_at;
  done_at = r.done_at;
}

-- selectNextRerouteOwner
next_owner : Text → List Text → Text
next_owner current [] = []
next_owner current (c ∷ cs) =
    let rest = next_owner current cs in if is_nil c || text_eq c current then rest else c

unfoldable pub select_next_reroute_owner : ChildTask → Text → Text
unfolding next_owner
select_next_reroute_owner source current = elim source.routing_decision [
  | none ↦ []
  | some d ↦ next_owner current d.candidates
]

unfoldable pub reroute_override_reason : Text → Text → Text → Text
reroute_override_reason reason source current =
    let note = trim_space reason in
    if not (is_nil note)
    then note
    else codes "reroute " ++ (source ++ (codes " away from " ++ current))

-- The request of rerouteBlockerTask.
unfoldable pub reroute_request :
    Text → ChildTask → ChildTask → List Text → Text → Text → RouteChildTaskRequest
unfolding select_next_reroute_owner reroute_override_reason
reroute_request run source current domains override reason =
    let owner =
      if is_nil override then select_next_reroute_owner source current.owner else override in
    record {
      run_id = run;
      task_class = source.task_class;
      domains = domains;
      goal = source.goal;
      expected_output = source.expected_output;
      review_required = source.review_required;
      owner_override = owner;
      override_reason =
          if is_nil owner then [] else reroute_override_reason reason source.task_id current.owner;
    }

-- `if err := m; err != nil { handler }`
unfoldable pub or_else : {A : Type 0} → Io A → (Error → Io A) → Io A
or_else m handler w = let (r, w') = m w in elim r [ ok a ↦ (ok a, w') | err e ↦ handler e w' ]

-- The failure behind a restore: the first error, or the restore's own.
restore_error : String → Error → Result (Unit {0}) → Error
restore_error context e (ok u) = e
restore_error context e (err e') = wrap context e'

unfoldable pub after_restore : {A : Type 0} → String → Io (Unit {0}) → Error → Io A
unfolding restore_error
after_restore context restore e w = let (r, w') = restore w in (err (restore_error context e r), w')

module _ (services : Services) where
  unfoldable pub suspend_receipt : Text → Text → Io (Option Suspended)
  suspend_receipt owner id = if is_blank owner || is_blank id then pure none else (do
    receipt ← read_receipt services.receipts owner id
    if is_finished receipt.folder_state then pure none else (do
      update_receipt services.receipts owner id cleared
      move_receipt services.receipts owner id receipt.folder_state FolderState.dead
      pure (some (suspended_of receipt))))

  -- The closure that suspendTaskReceiptForReroute returns.
  unfoldable pub restore_receipt : Text → Text → Option Suspended → Io (Unit {0})
  restore_receipt owner id none = pure tt
  restore_receipt owner id (some s) = do
    move_receipt services.receipts owner id FolderState.dead s.folder
    update_receipt services.receipts owner id (given_back s)

  -- Route, and restore the receipt when that fails.
  unfoldable pub route_or_restore :
      String
      → ResolvedConfig
      → RouteChildTaskRequest
      → Text
      → Text
      → Option Suspended
      → Io ChildTask
  unfolding or_else after_restore
  route_or_restore context cfg req owner id suspended =
      or_else (services.route cfg req) (after_restore context (restore_receipt owner id suspended))

  -- `run` and the two tasks are those of the coordinatorTaskContext.
  unfoldable pub reroute_blocker_task :
      ResolvedConfig → Text → ChildTask → ChildTask → Text → Text → Io ChildTask
  reroute_blocker_task cfg run source current override reason = do
    lift (wrapped "source task task_class" (check_task_class source.task_class))
    let domains =
        if is_nil source.normalized_domains then source.domains else source.normalized_domains
    lift (reject_if (is_nil domains) (msg "source task missing routing domains"))
    suspended ← suspend_receipt current.owner current.message_id
    let req = reroute_request run source current domains override reason
    route_or_restore "restore current receipt after reroute failure" cfg req current.owner
        current.message_id suspended
