-- ===== src/Samples/Declarations.antt =====
-- The theorems on the blocker policy at a task whose owner asks for a reroute.
use tmuxicate.Prelude.{
  ok_value, ◌≡◌, refl, ◌↔◌, true, false, [], ◌∷◌, none, Result, ok, err, msg, All, arith,
}
use tmuxicate.Prelude.Int.{ℤ, pos, int_lt, inc}
use tmuxicate.Text.{Text, codes, trim_space}
use tmuxicate.Protocol.Ids.{new_task_id, new_run_id, generated_id_iff}
use tmuxicate.Protocol.Enums.{WaitKind, BlockKind, BlockerAction, TaskClass}
use tmuxicate.Protocol.Documents.{BlockerCase, ChildTask}
use tmuxicate.Protocol.Validation.Blocker.{validate_blocker_case}
use tmuxicate.Protocol.Validation.Blocker.Described.{
  CaseDescribed, validate_blocker_case-CaseDescribed_iff,
}
use tmuxicate.Config.{ResolvedConfig, class_lookup}
use tmuxicate.Samples.Settings.{resolved_of}
use tmuxicate.Session.Blockers.{
  Context, Declaration, blocked, select_blocker_action, resolve_blocker_ceiling, or_default,
  record_blocker, prepare_blocker_case, starting_case, record_action, block_action, reroute_attempt,
}
use tmuxicate.Session.Blockers.Policy.{select_blocker_action-reroute_iff}
use tmuxicate.Session.Blockers.Prepared.{Recordable, Routed}
use tmuxicate.Session.Blockers.Recorded.{record_blocker-valid, record_blocker-total}
use tmuxicate.Session.Blockers.Bound.{Event, ceiling_of, StoredUpTo, replay, replay-CountsUpTo}

abbrev config : ResolvedConfig
config = resolved_of [] []

abbrev task_of : ℤ → Text → ChildTask
task_of n owner = record {
  task_id = new_task_id n;
  parent_run_id = new_run_id (pos 1);
  owner = owner;
  goal = codes "goal";
  expected_output = codes "output";
  depends_on = [];
  review_required = false;
  task_class = TaskClass.implementation;
  domains = [];
  normalized_domains = [];
  duplicate_key = [];
  routing_decision = none;
  placement = none;
  override_reason = [];
  message_id = codes "msg";
  thread_id = codes "thr";
  created_at = 5;
}

abbrev context : Context
context = record {
  cfg = config;
  env_id = codes "msg";
  agent_name = codes "dev";
  run_id = new_run_id (pos 1);
  current_task_id = new_task_id (pos 2);
  source_task = task_of (pos 2) (codes "dev");
  blocker_case = none;
}

abbrev declaration : Declaration
declaration = blocked BlockKind.reroute_needed

abbrev rerouted : Result ChildTask
rerouted = ok (task_of (pos 4) (codes "ops"))

abbrev recorded : BlockerCase
recorded =
    let start = prepare_blocker_case context declaration (codes "no access") 9 in
    record start {
      current_task_id = new_task_id (pos 4);
      current_message_id = codes "msg";
      current_owner = codes "ops";
      reroute_count = pos 1;
      attempts = reroute_attempt (task_of (pos 4) (codes "ops")) (codes "no access") 9 ∷ [];
    }

call-Recordable : Recordable context declaration (codes "no access") 9
unfolding resolve_blocker_ceiling or_default class_lookup trim_space
call-Recordable = record {
  run = (generated_id_iff 1).0;
  source = (generated_id_iff 2).1;
  message = refl;
  owner = refl;
  current = (generated_id_iff 2).1;
  envelope = refl;
  agent = refl;
  says = refl;
  kind = (refl, refl);
  ceiling = 1;
  ceiling_eq = refl;
  ceiling_lt = omega arith;
  clock = refl;
  stored = refl;
}

call-Routed : Routed rerouted
unfolding trim_space
call-Routed = record {
  task = λ t e. rw⁻¹ (ok_value e) ((generated_id_iff 4).1);
  message = λ t e. rw⁻¹ (ok_value e) refl;
  owner = λ t e. rw⁻¹ (ok_value e) refl;
}

call-recorded : record_blocker context declaration rerouted (codes "no access") 9 ≡ ok recorded
unfolding record_blocker record_action prepare_blocker_case starting_case select_blocker_action
    block_action resolve_blocker_ceiling or_default class_lookup inc
call-recorded = refl

select_blocker_action-reroute_iff_example :
    (select_blocker_action WaitKind.unset BlockKind.reroute_needed (pos 0) (pos 1)
      ≡ BlockerAction.reroute)
    ↔ ((WaitKind.unset ≡ WaitKind.unset)
        × (BlockKind.reroute_needed ≡ BlockKind.reroute_needed)
        × (int_lt (pos 0) (pos 1) ≡ true))
select_blocker_action-reroute_iff_example =
    select_blocker_action-reroute_iff WaitKind.unset BlockKind.reroute_needed (pos 0) (pos 1)

validate_blocker_case-CaseDescribed_iff_example :
    (validate_blocker_case recorded ≡ ok tt) ↔ CaseDescribed recorded
validate_blocker_case-CaseDescribed_iff_example = validate_blocker_case-CaseDescribed_iff recorded

record_blocker-valid_example : validate_blocker_case recorded ≡ ok tt
record_blocker-valid_example =
    record_blocker-valid context declaration rerouted (codes "no access") 9 recorded call-Recordable
      call-Routed call-recorded

abbrev no_owner : Result ChildTask
no_owner = err (msg "no owner")

call-failed :
    record_blocker context declaration no_owner (codes "no access") 9 ≡ err (msg "no owner")
unfolding record_blocker record_action prepare_blocker_case starting_case select_blocker_action
    block_action resolve_blocker_ceiling or_default class_lookup
call-failed = refl

record_blocker-total_example : no_owner ≡ no_owner
record_blocker-total_example =
    record_blocker-total context declaration no_owner (codes "no access") 9 (msg "no owner")
      call-failed

abbrev call : Event
call = record {
  context = context;
  declaration = declaration;
  rerouted = rerouted;
  reason = codes "no access";
  now = 9;
}

calls-below : All (λ e. int_lt (pos 1) (ceiling_of e) ≡ false) (call ∷ call ∷ call ∷ [])
unfolding resolve_blocker_ceiling or_default class_lookup
calls-below = (refl, (refl, (refl, tt)))

replay-CountsUpTo_example : StoredUpTo 1 (replay none (call ∷ call ∷ call ∷ []))
replay-CountsUpTo_example =
    replay-CountsUpTo 1 none (call ∷ call ∷ call ∷ []) (omega arith) calls-below tt
