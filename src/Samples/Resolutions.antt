-- ===== src/Samples/Resolutions.antt =====
-- The theorems on the coordinator's documents and on BlockerResolve at a run with one escalated case.
use tmuxicate.Prelude.{refl, [], ◌∷◌, none, some, Result, ok, err, msg}
use tmuxicate.Prelude.Int.{pos}
use tmuxicate.Text.{Text, codes}
use tmuxicate.Protocol.Enums.{
  WaitKind, BlockKind, DeclaredState, BlockerAction, BlockerStatus, ResolutionAction, TaskClass,
}
use tmuxicate.Protocol.Documents.{BlockerCase}
use tmuxicate.Mailbox.Files.{RunPart, run_part}
use tmuxicate.Mailbox.Io.{World, pure, lift}
use tmuxicate.Mailbox.Coordinator.{create_case, update_case}
use tmuxicate.Mailbox.Coordinator.Tables.{Creates, Updates}
use tmuxicate.Mailbox.Coordinator.Cases.{case_table, accept_case, create_case-Creates}
use tmuxicate.Mailbox.Coordinator.Updates.{update_case-Updates}
use tmuxicate.Session.Services.{Services}
use tmuxicate.Session.ResolveOptions.{ResolveOpts}
use tmuxicate.Session.Resolution.{blocker_resolve}
use tmuxicate.Session.Resolution.Cases.{KeepsCases}
use tmuxicate.Session.Resolution.Refined.{ResolvesCase, blocker_resolve-ResolvesCase}
use tmuxicate.Samples.Packing.{receipt_codec}
use tmuxicate.Samples.CasePacking.{put_case, case_formats}
use tmuxicate.Samples.Settings.{resolved_of}

abbrev run_id : Text
run_id = codes "run_000000000001"

abbrev task_id : Text
task_id = codes "task_000000000002"

abbrev escalated : BlockerCase
escalated = record {
  run_id = run_id;
  source_task_id = task_id;
  source_message_id = codes "msg_000000000003";
  source_owner = codes "ann";
  current_task_id = task_id;
  current_message_id = codes "msg_000000000003";
  current_owner = codes "ann";
  declared_state = DeclaredState.block;
  wait_kind = WaitKind.unset;
  block_kind = BlockKind.human_decision;
  reason = codes "which one";
  selected_action = BlockerAction.escalate;
  status = BlockerStatus.escalated;
  reroute_count = pos 0;
  max_reroutes = pos 1;
  recommended_action = some record { kind = ResolutionAction.clarify; note = codes "which one" };
  resolution = none;
  created_at = 5;
  updated_at = 6;
  escalated_at = some 6;
  resolved_at = none;
  attempts = [];
}

abbrev empty : World
empty = record { files = []; temps = λ n. none; next_temp = 0; faults = [] }

abbrev recorded : World
recorded = record empty {
  files = (run_part RunPart.blockers run_id task_id, put_case escalated) ∷ [];
}

create_case-Creates_example :
    let (r, w') = create_case case_formats escalated empty in
    Creates run_id task_id escalated
      (case_table case_formats empty.files)
      r
      (case_table case_formats w'.files)
create_case-Creates_example = create_case-Creates case_formats escalated empty

abbrev later : BlockerCase → Result BlockerCase
later c = ok (record c { updated_at = 9 })

update_case-Updates_example :
    let (r, w') = update_case case_formats run_id task_id later recorded in
    Updates
      (accept_case run_id task_id)
      later
      run_id
      task_id
      (case_table case_formats recorded.files)
      r
      (case_table case_formats w'.files)
update_case-Updates_example = update_case-Updates case_formats run_id task_id later recorded

abbrev services : Services
services = record {
  load_config = pure (resolved_of [] []);
  route = λ cfg req. lift (err (msg "no owner"));
  send_decision = λ to text thread parent. pure (codes "msg_000000000004");
  reply = λ agent parent text. pure (codes "msg_000000000005");
  now = 7;
  show_error = λ e. [];
  receipts = receipt_codec;
  documents = case_formats;
}

services_laws : KeepsCases services
services_laws = record {
  config = record { same = λ w r t. refl };
  routing = λ cfg req. record { same = λ w r t. refl };
  sending = λ to text thread parent. record { same = λ w r t. refl };
}

abbrev dismissal : ResolveOpts
dismissal = record {
  run_id = run_id;
  source_task_id = task_id;
  action = ResolutionAction.dismiss;
  owner = [];
  reason = codes "settled";
  body = [];
  task_class = TaskClass.unset;
  domains = [];
  goal = [];
  expected_output = [];
}

blocker_resolve-ResolvesCase_example :
    let (r, w') = blocker_resolve services dismissal recorded in
    ResolvesCase dismissal
      (case_table case_formats recorded.files)
      r
      (case_table case_formats w'.files)
blocker_resolve-ResolvesCase_example =
    blocker_resolve-ResolvesCase services services_laws dismissal recorded
