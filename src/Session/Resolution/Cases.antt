-- ===== src/Session/Resolution/Cases.antt =====
-- The parts of internal/session/blocker_resolve.go that write no blocker case.
use tmuxicate.Prelude.{
  ◌≡◌, refl, ap, ◌∙◌, inl, inr, Bool, true, false, Option, none, some, Result, ok, err, Error,
  wrapped, arith, if◌then◌else◌, reject_if, msg, String,
}
use tmuxicate.Text.{Text, trim_space}
use tmuxicate.Protocol.Enums.{FolderState, ResolutionAction, check_task_class}
use tmuxicate.Protocol.Documents.{
  ChildTask, BlockerCase, PartialReplan, RouteChildTaskRequest, Receipt,
}
use tmuxicate.Protocol.Validation.Blocker.{validate_replan}
use tmuxicate.Protocol.Validation.Run.{validate_run}
use tmuxicate.Config.{ResolvedConfig}
use tmuxicate.Mailbox.Files.{
  Files, FilePath, RunPart, inbox, run_part, path_eq, write_at, remove_at, read_at-write_at,
  read_at-remove_at,
}
use tmuxicate.Mailbox.Io.{wrapped_io, World, Io, ◌>>=◌, lift, pure, syscall, read_file, exists}
use tmuxicate.Mailbox.Write.{write_file_atomically, write-outcome}
use tmuxicate.Mailbox.Store.{Codec, read_receipt, update_receipt, move_receipt}
use tmuxicate.Mailbox.Store.Effects.{bind_rule, exists-files, syscall-files}
use tmuxicate.Mailbox.Store.Elsewhere.{update_receipt-P, move_receipt-P, read_receipt-P}
use tmuxicate.Mailbox.Coordinator.{
  load, save, write_part, new_at, read_task, read_run, read_replan, create_replan,
}
use tmuxicate.Mailbox.Coordinator.Tables.{Table, IsSame, table}
use tmuxicate.Mailbox.Coordinator.Cases.{case_table}
use tmuxicate.Session.Services.{Services}
use tmuxicate.Session.ResolveOptions.{ResolveOpts}
use tmuxicate.Session.Reroutes.{
  Suspended, cleared, given_back, suspended_of, suspend_receipt, restore_receipt, route_or_restore,
  reroute_blocker_task, or_else, after_restore,
}
use tmuxicate.Session.Resolution.{
  after_reroute, after_replan, replan_of, replan_request, create_partial_replan_task, no_replan,
  resolve_action,
}

module _ (services : Services) where
  abbrev cases : Files → Table BlockerCase
  cases files = case_table services.documents files

  -- The operation writes no blocker case.
  pub record Keeps {A : Type 0} (m : Io A) : Type 0 where
    pub same : (w : World) → IsSame (cases w.files) (cases (m w).1.files)

  -- Routing a task, sending a message and loading the configuration write no blocker case.
  pub record KeepsCases : Type 0 where
    pub config : Keeps services.load_config
    pub routing :
        (cfg : ResolvedConfig) (req : RouteChildTaskRequest) → Keeps (services.route cfg req)
    pub sending :
        (to body thread parent : Text) → Keeps (services.send_decision to body thread parent)

  bind-Keeps :
      {A B : Type 0} (m : Io A) (f : A → Io B) → Keeps m → ((a : A) → Keeps (f a)) → Keeps (m >>= f)
  bind-Keeps m f first later = record {
    same = λ w.
        bind_rule (λ fs. IsSame (cases w.files) (cases fs)) m f w (first.same w)
          λ a w' e same r t. (later a).same w' r t ∙ same r t;
  }

  quiet-Keeps : {A : Type 0} (m : Io A) → ((w : World) → (m w).1.files ≡ w.files) → Keeps m
  quiet-Keeps m q = record { same = λ w r t. ap (λ fs. cases fs r t) (q w) }

  write-Keeps :
      (path : FilePath) (content : Text)
      → ((r t : Text) → path_eq path (run_part RunPart.blockers r t) ≡ false)
      → (fs : Files) → IsSame (cases fs) (cases (write_at path content fs))
  unfolding table
  write-Keeps path content other fs r t =
      rw (read_at-write_at path (run_part RunPart.blockers r t) content fs) (rw (other r t) refl)

  remove-Keeps :
      (path : FilePath)
      → ((r t : Text) → path_eq path (run_part RunPart.blockers r t) ≡ false)
      → (fs : Files) → IsSame (cases fs) (cases (remove_at path fs))
  unfolding table
  remove-Keeps path other fs r t =
      rw (read_at-remove_at path (run_part RunPart.blockers r t) fs) (rw (other r t) refl)

  inbox_other :
      (agent : Text) (folder : FolderState) (name r t : Text)
      → path_eq (inbox agent folder name) (run_part RunPart.blockers r t) ≡ false
  unfolding path_eq
  inbox_other agent folder name r t = refl

  inbox_write :
      (before : Table BlockerCase) (agent : Text) (folder : FolderState) (name content : Text)
      (fs : Files)
      → IsSame before (cases fs)
      → IsSame before (cases (write_at (inbox agent folder name) content fs))
  inbox_write before agent folder name content fs same r t =
      write-Keeps (inbox agent folder name) content (inbox_other agent folder name) fs r t
      ∙ same r t

  inbox_remove :
      (before : Table BlockerCase) (agent : Text) (folder : FolderState) (name : Text) (fs : Files)
      → IsSame before (cases fs)
      → IsSame before (cases (remove_at (inbox agent folder name) fs))
  inbox_remove before agent folder name fs same r t =
      remove-Keeps (inbox agent folder name) (inbox_other agent folder name) fs r t ∙ same r t

  read_receipt-Keeps : (owner id : Text) → Keeps (read_receipt services.receipts owner id)
  read_receipt-Keeps owner id = record {
    same = λ w.
        read_receipt-P services.receipts (λ fs. IsSame (cases w.files) (cases fs))
          (inbox_write (cases w.files)) (inbox_remove (cases w.files)) owner id w (λ r t. refl);
  }

  update_receipt-Keeps :
      (owner id : Text) (fn : Receipt → Receipt)
      → Keeps (update_receipt services.receipts owner id fn)
  update_receipt-Keeps owner id fn = record {
    same = λ w.
        update_receipt-P services.receipts (λ fs. IsSame (cases w.files) (cases fs))
          (inbox_write (cases w.files)) (inbox_remove (cases w.files)) owner id fn w (λ r t. refl);
  }

  move_receipt-Keeps :
      (owner id : Text) (from to : FolderState)
      → Keeps (move_receipt services.receipts owner id from to)
  move_receipt-Keeps owner id from to = record {
    same = λ w.
        move_receipt-P services.receipts (λ fs. IsSame (cases w.files) (cases fs))
          (inbox_write (cases w.files)) (inbox_remove (cases w.files)) owner id from to w
          (λ r t. refl);
  }

  if-Keeps : {A : Type 0} (b : Bool) (m n : Io A) → Keeps m → Keeps n → Keeps (if b then m else n)
  if-Keeps true m n h k = h
  if-Keeps false m n h k = k

  suspend-Keeps : (owner id : Text) → Keeps (suspend_receipt services owner id)
  unfolding suspend_receipt
  suspend-Keeps owner id =
      if-Keeps {A = Option Suspended} _ (pure none) _
        (quiet-Keeps {A = Option Suspended} (pure none) (λ w. refl))
        (bind-Keeps _ _ (read_receipt-Keeps owner id) λ receipt.
          if-Keeps {A = Option Suspended} _ (pure none) _
            (quiet-Keeps {A = Option Suspended} (pure none) (λ w. refl))
            (bind-Keeps _ _ (update_receipt-Keeps owner id cleared) λ _.
              bind-Keeps _ _ (move_receipt-Keeps owner id receipt.folder_state FolderState.dead)
                λ _. quiet-Keeps (pure (some (suspended_of receipt))) (λ w. refl)))

  restore-Keeps :
      (owner id : Text) (s : Option Suspended) → Keeps (restore_receipt services owner id s)
  unfolding restore_receipt
  restore-Keeps owner id none = quiet-Keeps (pure tt) (λ w. refl)
  restore-Keeps owner id (some s) =
      bind-Keeps _ _ (move_receipt-Keeps owner id FolderState.dead s.folder)
        λ _. update_receipt-Keeps owner id (given_back s)

  or_else-Keeps :
      {A : Type 0} (m : Io A) (handler : Error → Io A)
      → Keeps m
      → ((e : Error) → Keeps (handler e))
      → Keeps (or_else m handler)
  unfolding or_else
  or_else-Keeps {A} m handler first later = record {
    same = λ w. ended w (m w).0 (m w).1 (first.same w);
  }
    where
      ended :
          (w : World) (r : Result A) (w1 : World)
          → IsSame (cases w.files) (cases w1.files)
          → IsSame (cases w.files) (
              cases
                (elim r as (λ x. Result A × World) [
                  | ok a ↦ (ok a, w1)
                  | err e ↦ handler e w1
                ]).1.files)
      ended w (ok a) w1 same r t = same r t
      ended w (err e) w1 same r t = (later e).same w1 r t ∙ same r t

  after_restore-Keeps :
      (A : Type 0) (context : String) (restore : Io (Unit {0})) (e : Error)
      → Keeps restore
      → Keeps (after_restore {A = A} context restore e)
  unfolding after_restore
  after_restore-Keeps A context restore e h = record { same = λ w. h.same w }

  replan_other :
      (run source r t : Text)
      → path_eq (run_part RunPart.replans run source) (run_part RunPart.blockers r t) ≡ false
  unfolding path_eq
  replan_other run source r t = refl

  file-Keeps :
      (path : FilePath) (content : Text)
      → ((r t : Text) → path_eq path (run_part RunPart.blockers r t) ≡ false)
      → Keeps (wrapped_io "write" (write_file_atomically path content))
  unfolding wrapped_io
  file-Keeps path content other = record {
    same = λ w. elim (write-outcome path content w) [
      | inl e ↦ λ r t. ap (λ fs. cases fs r t) e ∙ write-Keeps path content other w.files r t
      | inr (e, bad) ↦ λ r t. ap (λ fs. cases fs r t) e
    ];
  }

  create_replan-Keeps : (doc : PartialReplan) → Keeps (create_replan services.documents doc)
  unfolding create_replan new_at write_part save wrapped_io
  create_replan-Keeps doc =
      let path = run_part RunPart.replans doc.run_id doc.source_task_id in
      bind-Keeps _ _
        (quiet-Keeps (lift (wrapped "validate partial replan" (validate_replan doc))) (λ w. refl))
        λ _.
          bind-Keeps _ _ (quiet-Keeps (wrapped_io "stat" (exists path)) (λ w. exists-files path w))
            λ there.
              bind-Keeps _ _
                (quiet-Keeps (lift (reject_if there (msg "already exists"))) (λ w. refl))
                λ _.
                  bind-Keeps _ _
                    (quiet-Keeps (syscall "create dir") (λ w. syscall-files "create dir" w))
                    λ _.
                      bind-Keeps _ _
                        (quiet-Keeps
                          (lift (wrapped "marshal" (services.documents.replans.marshal doc)))
                          (λ w. refl))
                        λ content.
                          file-Keeps path content (replan_other doc.run_id doc.source_task_id)

  load-files :
      {A : Type 0} (codec : Codec A) (path : FilePath) (w : World)
      → (load codec path w).1.files ≡ w.files
  unfolding load wrapped_io read_file ◌>>=◌ syscall
  load-files codec path w = ground arith

  load-Keeps : {A : Type 0} (codec : Codec A) (path : FilePath) → Keeps (load codec path)
  load-Keeps codec path = quiet-Keeps (load codec path) (λ w. load-files codec path w)

  read_run-Keeps : (run : Text) → Keeps (read_run services.documents run)
  unfolding read_run
  read_run-Keeps run =
      bind-Keeps _ _ (load-Keeps services.documents.runs _)
        λ doc. quiet-Keeps (lift (wrapped "validate run" (validate_run doc))) (λ w. refl)

  read_task-Keeps : (run id : Text) → Keeps (read_task services.documents run id)
  unfolding read_task
  read_task-Keeps run id = load-Keeps services.documents.tasks _

  no_replan-Keeps : (run source : Text) → Keeps (no_replan services run source)
  unfolding no_replan read_replan load wrapped_io read_file ◌>>=◌ syscall
  no_replan-Keeps run source = quiet-Keeps (no_replan services run source) (λ w. ground arith)

  module _ (laws : KeepsCases) where
    route_or_restore-Keeps :
        (context : String) (cfg : ResolvedConfig) (req : RouteChildTaskRequest) (owner id : Text)
        (s : Option Suspended)
        → Keeps (route_or_restore services context cfg req owner id s)
    unfolding route_or_restore
    route_or_restore-Keeps context cfg req owner id s =
        or_else-Keeps _ _ (laws.routing cfg req) (λ e.
          after_restore-Keeps _ context (restore_receipt services owner id s) e
            (restore-Keeps owner id s))

    reroute-Keeps :
        (cfg : ResolvedConfig) (run : Text) (source current : ChildTask) (override reason : Text)
        → Keeps (reroute_blocker_task services cfg run source current override reason)
    unfolding reroute_blocker_task
    reroute-Keeps cfg run source current override reason =
        bind-Keeps _ _
          (quiet-Keeps
            (lift (wrapped "source task task_class" (check_task_class source.task_class)))
            (λ w. refl))
          λ _.
            bind-Keeps _ _
              (quiet-Keeps (lift (reject_if _ (msg "source task missing routing domains")))
                (λ w. refl))
              λ _. bind-Keeps _ _ (suspend-Keeps current.owner current.message_id) λ suspended.
                route_or_restore-Keeps _ cfg _ current.owner current.message_id suspended

    replan_task-Keeps :
        (cfg : ResolvedConfig) (source current : ChildTask) (o : ResolveOpts)
        → Keeps (create_partial_replan_task services cfg source current o)
    unfolding create_partial_replan_task
    replan_task-Keeps cfg source current o =
        bind-Keeps _ _ (suspend-Keeps current.owner current.message_id) λ suspended.
          route_or_restore-Keeps _ cfg (replan_request o source) current.owner current.message_id
            suspended

    -- Whatever the action, no blocker case changes before the case is updated.
    pub resolve_action-Keeps :
        (action : ResolutionAction) (o : ResolveOpts) (doc : BlockerCase)
        → Keeps (resolve_action services action o doc)
    unfolding resolve_action
    resolve_action-Keeps ResolutionAction.manual_reroute o doc = bind-Keeps _ _ laws.config λ cfg.
        bind-Keeps _ _ (read_task-Keeps o.run_id doc.source_task_id) λ source.
          bind-Keeps _ _ (read_task-Keeps o.run_id doc.current_task_id) λ current.
            bind-Keeps _ _
              (reroute-Keeps cfg o.run_id source current (trim_space o.owner) (trim_space o.reason))
              λ task. quiet-Keeps (pure (after_reroute o services.now doc task)) (λ w. refl)
    resolve_action-Keeps ResolutionAction.clarify o doc =
        bind-Keeps _ _ (read_run-Keeps o.run_id) λ run.
          bind-Keeps _ _
            (laws.sending doc.current_owner o.body run.root_thread_id doc.current_message_id)
            λ message. quiet-Keeps _ (λ w. refl)
    resolve_action-Keeps ResolutionAction.partial_replan o doc =
        bind-Keeps _ _ (no_replan-Keeps o.run_id o.source_task_id) λ _.
          bind-Keeps _ _ laws.config λ cfg.
            bind-Keeps _ _ (read_task-Keeps o.run_id doc.source_task_id) λ source.
              bind-Keeps _ _ (read_task-Keeps o.run_id doc.current_task_id) λ current.
                bind-Keeps _ _ (replan_task-Keeps cfg source current o) λ replacement.
                  bind-Keeps _ _
                    (create_replan-Keeps (replan_of o services.now doc source current replacement))
                    λ _.
                      quiet-Keeps (pure (after_replan o services.now doc replacement)) (λ w. refl)
    resolve_action-Keeps ResolutionAction.dismiss o doc = quiet-Keeps _ (λ w. refl)
    resolve_action-Keeps (ResolutionAction.other t) o doc = quiet-Keeps _ (λ w. refl)
