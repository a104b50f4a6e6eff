-- ===== src/Mailbox/Coordinator.antt =====
-- internal/mailbox/coordinator_store.go: the documents of runs. `Formats` stands for gopkg.in/yaml.v3 on
-- each kind of document. Nil arguments are not modelled.
pub mod Tables
pub mod Cases
pub mod Updates
use tmuxicate.Prelude.{
  Bool, true, false, not, List, [], ◌∷◌, ◌++◌, Option, none, some, Result, ok, err, Error, String,
  not_exist, msg, wrap, wrap_at, wrapped, reject_if, is_nil, if◌then◌else◌, ◌&&◌,
}
use tmuxicate.Prelude.Sorting.{sort}
use tmuxicate.Text.{Text, codes, text_eq, text_lt}
use tmuxicate.Protocol.Documents.{
  CoordinatorRun, ChildTask, ReviewHandoff, BlockerCase, PartialReplan, AdaptivePreferenceSet,
}
use tmuxicate.Protocol.Validation.Run.{validate_run, validate_child_task}
use tmuxicate.Protocol.Validation.Routing.{validate_preference_set}
use tmuxicate.Protocol.Validation.Blocker.{validate_handoff, validate_blocker_case, validate_replan}
use tmuxicate.Mailbox.Files.{Files, FilePath, RunPart, run_file, run_part, preferences, run_part_eq}
use tmuxicate.Mailbox.Io.{
  World, Io, ◌>>=◌, ◌>>◌, pure, lift, syscall, read_file, exists, wrapped_io,
}
use tmuxicate.Mailbox.Write.{write_file_atomically}
use tmuxicate.Mailbox.Store.{Codec}

-- errors.Is(err, os.ErrNotExist)
unfoldable pub is_not_exist : Error → Bool
is_not_exist not_exist = true
is_not_exist (wrap context e) = is_not_exist e
is_not_exist (wrap_at context i e) = is_not_exist e
is_not_exist _ = false

-- The test for an earlier document in front of a write.
unfoldable pub new_at : FilePath → Io (Unit {0}) → Io (Unit {0})
unfolding ◌>>=◌ exists
new_at path write = do
  there ← wrapped_io "stat" (exists path)
  lift (reject_if there (msg "already exists"))
  write

module _ {A : Type 0} (yaml : Codec A) where
  -- Marshal and write.
  unfoldable pub save : FilePath → A → Io (Unit {0})
  unfolding ◌>>=◌ wrapped_io
  save path doc = do
    content ← lift (wrapped "marshal" (yaml.marshal doc))
    wrapped_io "write" (write_file_atomically path content)

  -- writeReviewHandoff, writeBlockerCase and writePartialReplan
  unfoldable pub write_part : FilePath → A → Io (Unit {0})
  unfolding save ◌>>=◌ syscall
  write_part path doc = do syscall "create dir"; save path doc

  -- Read and unmarshal.
  unfoldable pub load : FilePath → Io A
  unfolding ◌>>=◌ wrapped_io read_file
  load path = do
    content ← wrapped_io "read" (read_file path)
    lift (wrapped "unmarshal" (yaml.unmarshal content))

-- The files of a part of a run, in the order of os.ReadDir, by the task that names each.
part_of : RunPart → Text → Files → List Text
part_of part run [] = []
part_of part run ((run_part k i t, d) ∷ fs) =
    let rest = part_of part run fs in if run_part_eq k part && text_eq i run then t ∷ rest else rest
part_of part run (f ∷ fs) = part_of part run fs

abbrev before_in_dir : Text → Text → Bool
before_in_dir a b = text_lt (a ++ codes ".yaml") (b ++ codes ".yaml")

-- os.ReadDir of the directory. When there is none, the callers fail as on an empty one.
unfoldable pub read_dir : RunPart → Text → Io (List Text)
unfolding part_of syscall ◌>>=◌
read_dir part run = do
  wrapped_io "read dir" (syscall "read dir")
  λ w. (ok (sort before_in_dir (part_of part run w.files)), w)

module _ {A : Type 0} (read : Text → Io A) (key : A → Text) where
  -- The loops of the Find methods: `matched` is the document found so far.
  unfoldable pub find_match : Text → List Text → Option A → Io A
  unfolding ◌>>=◌
  find_match wanted [] none = lift (err (wrap "document for task" not_exist))
  find_match wanted [] (some doc) = pure doc
  find_match wanted (id ∷ ids) matched = do
    doc ← read id
    let skip = find_match wanted ids matched
    let take = find_match wanted ids (some doc)
    if text_eq (key doc) wanted
        then (elim matched [ none ↦ take | some m ↦ lift (err (msg "multiple documents found")) ])
        else skip

pub record Formats : Type 0 where
  pub runs : Codec CoordinatorRun
  pub tasks : Codec ChildTask
  pub handoffs : Codec ReviewHandoff
  pub cases : Codec BlockerCase
  pub replans : Codec PartialReplan
  pub preference_sets : Codec AdaptivePreferenceSet

module _ (yaml : Formats) where
  unfoldable pub create_run : CoordinatorRun → Io (Unit {0})
  create_run doc = do
    run ← lift (wrapped "validate run" (validate_run doc))
    let path = run_file run.run_id
    new_at path (save yaml.runs path run)

  unfoldable pub read_run : Text → Io CoordinatorRun
  read_run id = do
    run ← load yaml.runs (run_file id)
    lift (wrapped "validate run" (validate_run run))

  unfoldable pub create_task : ChildTask → Io (Unit {0})
  create_task doc = do
    task ← lift (wrapped "validate task" (validate_child_task doc))
    let path = run_part RunPart.tasks task.parent_run_id task.task_id
    new_at path (save yaml.tasks path task)

  -- ReadTask does not validate.
  unfoldable pub read_task : Text → Text → Io ChildTask
  read_task run id = load yaml.tasks (run_part RunPart.tasks run id)

  unfoldable pub write_preferences : AdaptivePreferenceSet → Io (Unit {0})
  write_preferences p = do
    lift (wrapped "validate adaptive routing preferences" (validate_preference_set p))
    save yaml.preference_sets (preferences p.coordinator) p

  unfoldable pub read_preferences : Text → Io AdaptivePreferenceSet
  read_preferences coordinator = do
    p ← load yaml.preference_sets (preferences coordinator)
    lift (wrapped "validate adaptive routing preferences" (validate_preference_set p))
    pure p

  unfoldable pub create_handoff : ReviewHandoff → Io (Unit {0})
  create_handoff doc = do
    lift (wrapped "validate review handoff" (validate_handoff doc))
    let path = run_part RunPart.reviews doc.run_id doc.source_task_id
    new_at path (write_part yaml.handoffs path doc)

  unfoldable pub read_handoff : Text → Text → Io ReviewHandoff
  read_handoff run source = do
    doc ← load yaml.handoffs (run_part RunPart.reviews run source)
    lift (wrapped "validate review handoff" (validate_handoff doc))
    pure doc

  unfoldable pub update_handoff :
      Text → Text → (ReviewHandoff → Result ReviewHandoff) → Io (Unit {0})
  update_handoff run source fn = do
    old ← read_handoff run source
    doc ← lift (fn old)
    lift (wrapped "validate updated review handoff" (validate_handoff doc))
    write_part yaml.handoffs (run_part RunPart.reviews run source) doc

  unfoldable pub find_handoff : Text → Text → Io ReviewHandoff
  find_handoff run review_task = do
    ids ← read_dir RunPart.reviews run
    find_match (read_handoff run) (λ h. h.review_task_id) review_task ids none

  unfoldable pub create_case : BlockerCase → Io (Unit {0})
  create_case doc = do
    lift (wrapped "validate blocker case" (validate_blocker_case doc))
    let path = run_part RunPart.blockers doc.run_id doc.source_task_id
    new_at path (write_part yaml.cases path doc)

  unfoldable pub read_case : Text → Text → Io BlockerCase
  read_case run source = do
    doc ← load yaml.cases (run_part RunPart.blockers run source)
    lift (wrapped "validate blocker case" (validate_blocker_case doc))
    lift (reject_if (not (text_eq doc.run_id run)) (msg "run_id does not match path"))
    lift (
        reject_if (not (text_eq doc.source_task_id source))
          (msg "source_task_id does not match path"))
    pure doc

  unfoldable pub update_case : Text → Text → (BlockerCase → Result BlockerCase) → Io (Unit {0})
  update_case run source fn = do
    old ← read_case run source
    doc ← lift (fn old)
    lift (wrapped "validate updated blocker case" (validate_blocker_case doc))
    lift (reject_if (not (text_eq doc.run_id run)) (msg "run_id must match path"))
    lift
        (reject_if (not (text_eq doc.source_task_id source)) (msg "source_task_id must match path"))
    write_part yaml.cases (run_part RunPart.blockers run source) doc

  unfoldable pub find_case : Text → Text → Io BlockerCase
  find_case run current = do
    lift (reject_if (is_nil current) (msg "currentTaskID is required"))
    ids ← read_dir RunPart.blockers run
    find_match (read_case run) (λ c. c.current_task_id) current ids none

  unfoldable pub create_replan : PartialReplan → Io (Unit {0})
  create_replan doc = do
    lift (wrapped "validate partial replan" (validate_replan doc))
    let path = run_part RunPart.replans doc.run_id doc.source_task_id
    new_at path (write_part yaml.replans path doc)

  unfoldable pub read_replan : Text → Text → Io PartialReplan
  read_replan run source = do
    doc ← load yaml.replans (run_part RunPart.replans run source)
    lift (wrapped "validate partial replan" (validate_replan doc))
    lift (reject_if (not (text_eq doc.run_id run)) (msg "run_id does not match path"))
    lift (
        reject_if (not (text_eq doc.source_task_id source))
          (msg "source_task_id does not match path"))
    pure doc

  unfoldable pub find_replan : Text → Text → Io PartialReplan
  find_replan run replacement = do
    lift (reject_if (is_nil replacement) (msg "replacementTaskID is required"))
    ids ← read_dir RunPart.replans run
    find_match (read_replan run) (λ p. p.replacement_task_id) replacement ids none
