-- ===== src/Session/Adaptive.antt =====
-- What BuildAdaptiveRoutingPreferences of internal/session/run_adaptive.go reads off the completed runs. What
-- LoadRunGraph and BuildRunSummary return, the directory entries, ReadRun and the states of receipts are fields of
-- AdaptiveEnv.
use tmuxicate.Prelude.{
  Bool, true, false, not, ◌&&◌, List, [], ◌∷◌, ◌++◌, ltb, ◌==◌, Option, none, some, Result, ok, err,
  msg, wrapped, ◌>>=◌, if◌then◌else◌, is_nil,
}
use tmuxicate.Prelude.Int.{ℤ, pos, ◌+ℤ◌, ◌-ℤ◌}
use tmuxicate.Prelude.Sorting.{sort}
use tmuxicate.Text.{Text, codes, text_eq, text_lt, is_blank}
use tmuxicate.Protocol.Enums.{TaskClass, FolderState, ReviewOutcome, task_class_text}
use tmuxicate.Protocol.Documents.{ChildTask, CoordinatorRun, EvidenceRef, Time}
use tmuxicate.Protocol.Validation.Routing.{preference_key}
use tmuxicate.Config.{AdaptiveConfig}

-- RunSummaryStatus
pub data SummaryStatus : Type 0 where
  escalated blocked waiting under_review pending completed : SummaryStatus
  other : Text → SummaryStatus

-- What the scores read of a RunSummaryItem.
pub record SummaryItem : Type 0 where
  pub status : SummaryStatus
  pub source_task_id : Text
  pub current_owner : Text
  pub review_outcome : ReviewOutcome

pub record AdaptiveEnv : Type 0 where
  pub now : Time
  -- the directories under coordinator/runs; `none` if that does not exist
  pub run_dirs : Result (Option (List Text))
  -- ReadRun
  pub read_run : Text → Result CoordinatorRun
  -- the folder of the receipt of an agent and a message
  pub receipt_state : Text → Text → Result FolderState
  -- the tasks of LoadRunGraph
  pub graph_tasks : Text → Result (List ChildTask)
  -- the items of BuildRunSummary; `none` for a nil summary
  pub summary_items : Text → Option (List SummaryItem)

is_done : Result FolderState → Bool
is_done (ok FolderState.done) = true
is_done _ = false

newer : CoordinatorRun → CoordinatorRun → Bool
newer a b =
    if a.created_at == b.created_at
    then text_lt b.run_id a.run_id
    else ltb b.created_at a.created_at

is_completed : AdaptiveEnv → Text → CoordinatorRun → Bool
unfolding is_done
is_completed env coordinator r =
    text_eq r.coordinator coordinator && is_done (env.receipt_state r.coordinator r.root_message_id)

-- The loop over the directory entries.
completed_runs : AdaptiveEnv → Text → List Text → Result (List CoordinatorRun)
unfolding is_completed
completed_runs env coordinator [] = ok []
completed_runs env coordinator (name ∷ names) = do
  run ← env.read_run name
  rest ← completed_runs env coordinator names
  ok (if is_completed env coordinator run then run ∷ rest else rest)

-- loadCompletedAdaptiveRuns: the completed runs of the coordinator, the newest first.
unfoldable pub load_completed_adaptive_runs : AdaptiveEnv → Text → Result (List CoordinatorRun)
unfolding completed_runs newer
load_completed_adaptive_runs env coordinator = do
  dirs ← wrapped "read coordinator runs dir" env.run_dirs
  runs ← elim dirs [ none ↦ ok [] | some names ↦ completed_runs env coordinator names ]
  ok (sort newer runs)

abbrev Signals : Type 0
Signals = ℤ × List EvidenceRef

evidence_of : Text → Text → Text → Text → Text → EvidenceRef
evidence_of run task message status note = record {
  run_id = run;
  source_task_id = task;
  message_id = message;
  status = status;
  note = note;
}

-- The tests of adaptiveHistoricalSignals in turn, on the score and the evidence so far.
success_signal : AdaptiveConfig → (Text → Text → EvidenceRef) → SummaryStatus → Signals → Signals
success_signal cfg ref SummaryStatus.completed (score, evidence) = (
  score +ℤ cfg.success_weight,
  evidence
      ++ ref (codes "completed") (codes "completed source task without blocker or review downgrade")
        ∷ [],
)
success_signal cfg ref _ signals = signals

review_signal : AdaptiveConfig → (Text → Text → EvidenceRef) → ReviewOutcome → Signals → Signals
review_signal cfg ref ReviewOutcome.approved (score, evidence) = (
  score +ℤ cfg.approval_weight,
  evidence ++ ref (codes "approved") (codes "approved review outcome for the source task") ∷ [],
)
review_signal cfg ref ReviewOutcome.changes_requested (score, evidence) = (
  score -ℤ cfg.changes_requested_penalty,
  evidence
      ++ ref (codes "changes_requested")
          (codes "changes_requested review outcome for the source task")
        ∷ [],
)
review_signal cfg ref _ signals = signals

status_signal : AdaptiveConfig → (Text → Text → EvidenceRef) → SummaryStatus → Signals → Signals
status_signal cfg ref SummaryStatus.escalated (score, evidence) = (
  score -ℤ cfg.blocked_penalty,
  evidence ++ ref (codes "escalated") (codes "source task escalated to a human operator") ∷ [],
)
status_signal cfg ref SummaryStatus.blocked (score, evidence) = (
  score -ℤ cfg.blocked_penalty,
  evidence ++ ref (codes "blocked") (codes "source task blocked during execution") ∷ [],
)
status_signal cfg ref SummaryStatus.waiting (score, evidence) = (
  score -ℤ cfg.wait_penalty,
  evidence
      ++ ref (codes "waiting") (codes "source task waiting on a dependency or external event") ∷ [],
)
status_signal cfg ref _ signals = signals

unfoldable pub adaptive_historical_signals : AdaptiveConfig → Text → SummaryItem → Text → Signals
unfolding evidence_of success_signal review_signal status_signal
adaptive_historical_signals cfg run item message =
    let ref = evidence_of run item.source_task_id message in
    status_signal cfg ref item.status
      (review_signal cfg ref item.review_outcome (success_signal cfg ref item.status (pos 0, [])))

unfoldable pub has_adaptive_routing_source_task_metadata : ChildTask → Bool
has_adaptive_routing_source_task_metadata task =
    not (is_nil (task_class_text task.task_class))
    && not (is_nil task.normalized_domains)
    && not (is_blank task.owner)

-- `tasksByID[id]`: of tasks with one identifier the last is in the map.
find_task : Text → List ChildTask → Option ChildTask
find_task id [] = none
find_task id (t ∷ ts) = elim (find_task id ts) [
  | some u ↦ some u
  | none ↦ if text_eq t.task_id id then some t else none
]

-- What one item adds to the row of its key.
pub record Observation : Type 0 where
  pub key : Text
  pub task_class : TaskClass
  pub domains : List Text
  pub owner : Text
  pub score : ℤ
  pub evidence : List EvidenceRef

unfoldable pub observation_of : AdaptiveConfig → Text → SummaryItem → ChildTask → Observation
unfolding adaptive_historical_signals
observation_of cfg run item task =
    let owner = if is_nil item.current_owner then task.owner else item.current_owner in
    let (score, evidence) = adaptive_historical_signals cfg run item task.message_id in
    record {
      key = preference_key task.task_class task.normalized_domains owner;
      task_class = task.task_class;
      domains = task.normalized_domains;
      owner = owner;
      score = score;
      evidence = evidence;
    }

abbrev with_observation :
    AdaptiveConfig → Text → SummaryItem → ChildTask → List Observation → List Observation
with_observation cfg run item task rest =
    if has_adaptive_routing_source_task_metadata task
    then observation_of cfg run item task ∷ rest
    else rest

-- The inner loop over the items of a run.
unfoldable pub observe_items :
    AdaptiveConfig → Text → List ChildTask → List SummaryItem → Result (List Observation)
unfolding find_task has_adaptive_routing_source_task_metadata observation_of
observe_items cfg run tasks [] = ok []
observe_items cfg run tasks (item ∷ items) = elim (find_task item.source_task_id tasks) [
  | none ↦ err (msg "summary references missing source task")
  | some task ↦ do
    rest ← observe_items cfg run tasks items
    ok (with_observation cfg run item task rest)
]

-- The outer loop over the runs.
unfoldable pub observe_runs :
    AdaptiveEnv → AdaptiveConfig → List CoordinatorRun → Result (List Observation)
unfolding observe_items
observe_runs env cfg [] = ok []
observe_runs env cfg (run ∷ runs) = do
  tasks ← wrapped "load run graph" (env.graph_tasks run.run_id)
  first ← elim (env.summary_items run.run_id) [
    | none ↦ ok []
    | some items ↦ observe_items cfg run.run_id tasks items
  ]
  rest ← observe_runs env cfg runs
  ok (first ++ rest)
