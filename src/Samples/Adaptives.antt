-- ===== src/Samples/Adaptives.antt =====
-- The theorem on adaptive preferences at one completed run.
use tmuxicate.Prelude.{true, [], ◌∷◌, none, some, ok}
use tmuxicate.Prelude.Int.{pos}
use tmuxicate.Text.{Text, codes}
use tmuxicate.Protocol.Enums.{TaskClass, FolderState, ReviewOutcome}
use tmuxicate.Protocol.Documents.{ChildTask, CoordinatorRun, AdaptivePreferenceSet}
use tmuxicate.Config.{Config, ResolvedConfig}
use tmuxicate.Session.Adaptive.{AdaptiveEnv, SummaryItem, SummaryStatus}
use tmuxicate.Samples.Settings.{config_of}

abbrev plain : Config
plain = config_of [] []

abbrev cfg : ResolvedConfig
cfg = record {
  config = record plain {
    routing = record plain.routing {
      adaptive = record {
        enabled = true;
        lookback_runs = pos 1;
        success_weight = pos 5;
        approval_weight = pos 2;
        changes_requested_penalty = pos 0;
        blocked_penalty = pos 0;
        wait_penalty = pos 0;
        manual_preferences =
            record {
              task_class = TaskClass.implementation;
              domains = codes "api" ∷ [];
              preferred_owner = codes "ann";
              weight = pos 3;
              reason = codes "knows it";
            }
            ∷ [];
      };
    };
  };
  config_path = [];
  config_dir = [];
}

abbrev run_id : Text
run_id = codes "run_000000000001"

abbrev task_id : Text
task_id = codes "task_000000000002"

abbrev message_id : Text
message_id = codes "msg_000000000003"

abbrev run : CoordinatorRun
run = record {
  run_id = run_id;
  goal = codes "goal";
  coordinator = codes "lead";
  created_by = codes "lead";
  created_at = 5;
  root_message_id = codes "msg";
  root_thread_id = codes "thr";
  allowed_owners = codes "ann" ∷ [];
  team_snapshot = [];
}

abbrev task : ChildTask
task = record {
  task_id = task_id;
  parent_run_id = run_id;
  owner = codes "ann";
  goal = codes "goal";
  expected_output = codes "output";
  depends_on = [];
  review_required = true;
  task_class = TaskClass.implementation;
  domains = codes "api" ∷ [];
  normalized_domains = codes "api" ∷ [];
  duplicate_key = [];
  routing_decision = none;
  placement = none;
  override_reason = [];
  message_id = message_id;
  thread_id = codes "thr";
  created_at = 6;
}

abbrev item : SummaryItem
item = record {
  status = SummaryStatus.completed;
  source_task_id = task_id;
  current_owner = [];
  review_outcome = ReviewOutcome.approved;
}

abbrev env : AdaptiveEnv
env = record {
  now = 9;
  run_dirs = ok (some (run_id ∷ []));
  read_run = λ id. ok run;
  receipt_state = λ agent id. ok FolderState.done;
  graph_tasks = λ id. ok (task ∷ []);
  summary_items = λ id. some (item ∷ []);
}

abbrev set : AdaptivePreferenceSet
set = record {
  coordinator = codes "lead";
  updated_at = 9;
  lookback_runs = pos 1;
  preferences =
      record {
        preference_key = codes "implementation|api|ann";
        task_class = TaskClass.implementation;
        normalized_domains = codes "api" ∷ [];
        preferred_owner = codes "ann";
        historical_score = pos 7;
        manual_weight = pos 3;
        total_score = pos 10;
        evidence =
            record {
              run_id = run_id;
              source_task_id = task_id;
              message_id = message_id;
              status = codes "completed";
              note = codes "completed source task without blocker or review downgrade";
            }
            ∷ record {
              run_id = run_id;
              source_task_id = task_id;
              message_id = message_id;
              status = codes "approved";
              note = codes "approved review outcome for the source task";
            }
            ∷ [];
      }
      ∷ [];
}
