-- ===== src/Session/Resolution.antt =====
-- internal/session/blocker_resolve.go: an operator resolves an escalated blocker case. The checks for nil
-- are not modelled.
pub mod Cases
pub mod Refined
use tmuxicate.Prelude.{
  Bool, true, false, not, ◌||◌, ◌&&◌, List, [], ◌∷◌, ◌++◌, Option, none, some, Result, ok, err,
  Error, msg, wrap, wrapped, reject_if, is_nil, if◌then◌else◌,
}
use tmuxicate.Text.{Text, codes, text_eq, trim_space, is_blank}
use tmuxicate.Protocol.Enums.{
  ResolutionAction, BlockerStatus, BlockerAction, PartialReplanStatus, TaskClass,
  check_resolution_action, check_task_class, task_class_text,
}
use tmuxicate.Protocol.Domains.{normalize_route_domains}
use tmuxicate.Protocol.Documents.{
  ChildTask, BlockerCase, BlockerAttempt, BlockerResolution, PartialReplan, RouteChildTaskRequest,
  Time,
}
use tmuxicate.Config.{ResolvedConfig}
use tmuxicate.Mailbox.Io.{World, Io, ◌>>=◌, ◌>>◌, pure, lift}
use tmuxicate.Mailbox.Coordinator.{
  read_case, update_case, read_task, read_run, read_replan, create_replan, is_not_exist,
}
use tmuxicate.Session.Services.{Services}
use tmuxicate.Session.ResolveOptions.{ResolveOpts, validate_resolve_opts}
use tmuxicate.Session.Blockers.{reroute_attempt}
use tmuxicate.Session.Reroutes.{reroute_blocker_task, suspend_receipt, route_or_restore}

abbrev pub is_escalated : BlockerStatus → Bool
is_escalated BlockerStatus.escalated = true
is_escalated _ = false

-- The resolution before the action fills in what it creates.
abbrev pub resolution_of : ResolveOpts → Time → BlockerResolution
resolution_of o now = record {
  action = o.action;
  created_task_id = [];
  created_message_id = [];
  resolved_by = codes "human";
  note = trim_space o.reason;
  created_at = now;
}

-- blockerCase and resolution behind the switch on the action.
pub record Resolved : Type 0 where
  pub doc : BlockerCase
  pub resolution : BlockerResolution

-- What a manual reroute leaves; the count of reroutes stays.
unfoldable pub after_reroute : ResolveOpts → Time → BlockerCase → ChildTask → Resolved
after_reroute o now doc task = record {
  doc = record doc {
    current_task_id = task.task_id;
    current_message_id = task.message_id;
    current_owner = task.owner;
    attempts = doc.attempts ++ reroute_attempt task o.reason now ∷ [];
  };
  resolution = record (resolution_of o now) {
    created_task_id = task.task_id;
    created_message_id = task.message_id;
  };
}

unfoldable pub replan_of :
    ResolveOpts → Time → BlockerCase → ChildTask → ChildTask → ChildTask → PartialReplan
replan_of o now doc source current replacement = record {
  run_id = o.run_id;
  source_task_id = source.task_id;
  source_message_id = source.message_id;
  blocker_source_task_id = doc.source_task_id;
  superseded_task_id = current.task_id;
  superseded_message_id = current.message_id;
  superseded_owner = current.owner;
  replacement_task_id = replacement.task_id;
  replacement_message_id = replacement.message_id;
  replacement_owner = replacement.owner;
  reason = trim_space o.reason;
  status = PartialReplanStatus.applied;
  created_at = now;
  updated_at = now;
}

unfoldable pub after_replan : ResolveOpts → Time → BlockerCase → ChildTask → Resolved
after_replan o now doc task = record {
  doc = record doc {
    current_task_id = task.task_id;
    current_message_id = task.message_id;
    current_owner = task.owner;
  };
  resolution = record (resolution_of o now) {
    created_task_id = task.task_id;
    created_message_id = task.message_id;
  };
}

-- The function that UpdateBlockerCase applies at the end.
unfoldable pub resolved_case : Resolved → Time → BlockerCase → BlockerCase
resolved_case r now existing = record existing {
  status = BlockerStatus.resolved;
  resolution = some r.resolution;
  resolved_at = some now;
  updated_at = now;
  current_task_id = r.doc.current_task_id;
  current_message_id = r.doc.current_message_id;
  current_owner = r.doc.current_owner;
  attempts = r.doc.attempts;
}

-- The request of createPartialReplanTask.
unfoldable pub replan_request : ResolveOpts → ChildTask → RouteChildTaskRequest
replan_request o source =
    let owner = trim_space o.owner in
    record {
      run_id = o.run_id;
      task_class = o.task_class;
      domains = o.domains;
      goal = trim_space o.goal;
      expected_output = trim_space o.expected_output;
      review_required = source.review_required;
      owner_override = owner;
      override_reason = if is_nil owner then [] else trim_space o.reason;
    }

module _ (services : Services) where
  unfoldable pub create_partial_replan_task :
      ResolvedConfig → ChildTask → ChildTask → ResolveOpts → Io ChildTask
  create_partial_replan_task cfg source current o = do
    suspended ← suspend_receipt services current.owner current.message_id
    route_or_restore services "restore superseded receipt after partial replan failure" cfg
        (replan_request o source) current.owner current.message_id suspended

  -- The test for an earlier replan: only os.ErrNotExist lets the action go on.
  unfoldable pub no_replan : Text → Text → Io (Unit {0})
  no_replan run source w =
      let (r, w') = read_replan services.documents run source w in
      elim r [
        | ok p ↦ (err (msg "partial replan already exists"), w')
        | err e ↦ (if is_not_exist e then ok tt else err e, w')
      ]

  -- The switch on the action.
  unfoldable pub resolve_action : ResolutionAction → ResolveOpts → BlockerCase → Io Resolved
  resolve_action ResolutionAction.manual_reroute o doc = do
    cfg ← services.load_config
    source ← read_task services.documents o.run_id doc.source_task_id
    current ← read_task services.documents o.run_id doc.current_task_id
    task ←
        reroute_blocker_task services cfg o.run_id source current (trim_space o.owner)
          (trim_space o.reason)
    pure (after_reroute o services.now doc task)
  resolve_action ResolutionAction.clarify o doc = do
    run ← read_run services.documents o.run_id
    message ←
        services.send_decision doc.current_owner o.body run.root_thread_id doc.current_message_id
    pure record {
      doc = doc;
      resolution = record (resolution_of o services.now) { created_message_id = message };
    }
  resolve_action ResolutionAction.partial_replan o doc = do
    no_replan o.run_id o.source_task_id
    cfg ← services.load_config
    source ← read_task services.documents o.run_id doc.source_task_id
    current ← read_task services.documents o.run_id doc.current_task_id
    replacement ← create_partial_replan_task cfg source current o
    create_replan services.documents (replan_of o services.now doc source current replacement)
    pure (after_replan o services.now doc replacement)
  resolve_action ResolutionAction.dismiss o doc =
      pure record { doc = doc; resolution = resolution_of o services.now }
  resolve_action (ResolutionAction.other t) o doc = lift (err (msg "unsupported action"))

  unfoldable pub blocker_resolve : ResolveOpts → Io (Unit {0})
  blocker_resolve o = do
    lift (validate_resolve_opts o)
    doc ← read_case services.documents o.run_id o.source_task_id
    lift (reject_if (not (is_escalated doc.status)) (msg "blocker case is not escalated"))
    resolved ← resolve_action o.action o doc
    update_case services.documents o.run_id o.source_task_id
        (λ existing. ok (resolved_case resolved services.now existing))
