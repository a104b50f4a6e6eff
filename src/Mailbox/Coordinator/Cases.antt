-- ===== src/Mailbox/Coordinator/Cases.antt =====
-- Blocker cases, review handoffs and partial replans of internal/mailbox/coordinator_store.go refine
-- abstract tables.
use tmuxicate.Prelude.{◌≡◌, refl, inl, Bool, ◌&&◌, some, ok, wrapped, arith, is_ok}
use tmuxicate.Text.{Text, text_eq, text_eq_refl}
use tmuxicate.Protocol.Documents.{ReviewHandoff, BlockerCase, PartialReplan}
use tmuxicate.Protocol.Validation.Blocker.{validate_handoff, validate_blocker_case, validate_replan}
use tmuxicate.Mailbox.Files.{Files, RunPart, run_part}
use tmuxicate.Mailbox.Io.{wrapped_io, World, ◌>>=◌, lift, syscall, read_file}
use tmuxicate.Mailbox.Store.Effects.{quiet_result, lift-result, wrapped-result}
use tmuxicate.Mailbox.Coordinator.{
  Formats, load, write_part, create_case, read_case, create_handoff, create_replan,
}
use tmuxicate.Mailbox.Coordinator.Tables.{Table, Creates, table, write_part-IsSaved, new_at-Creates}

abbrev pub accept_case : Text → Text → BlockerCase → Bool
accept_case run source doc =
    is_ok (validate_blocker_case doc) && text_eq doc.run_id run && text_eq doc.source_task_id source

abbrev pub accept_handoff : Text → Text → ReviewHandoff → Bool
accept_handoff run source doc = is_ok (validate_handoff doc)

abbrev pub accept_replan : Text → Text → PartialReplan → Bool
accept_replan run source doc =
    is_ok (validate_replan doc) && text_eq doc.run_id run && text_eq doc.source_task_id source

module _ (yaml : Formats) where
  abbrev pub case_table : Files → Table BlockerCase
  case_table files = table yaml.cases RunPart.blockers accept_case files

  abbrev pub handoff_table : Files → Table ReviewHandoff
  handoff_table files = table yaml.handoffs RunPart.reviews accept_handoff files

  abbrev pub replan_table : Files → Table PartialReplan
  replan_table files = table yaml.replans RunPart.replans accept_replan files

  -- Whatever system calls fail, CreateBlockerCase puts a valid case where the run had none, or
  -- changes no case and fails.
  pub create_case-Creates :
      (doc : BlockerCase) (w : World)
      → let (r, w') = create_case yaml doc w in
        Creates doc.run_id doc.source_task_id doc (case_table w.files) r (case_table w'.files)
  unfolding create_case
  create_case-Creates doc w =
      quiet_result
        (λ r fs. Creates doc.run_id doc.source_task_id doc (case_table w.files) r (case_table fs))
        (lift (wrapped "validate blocker case" (validate_blocker_case doc))) _ w refl
        (λ e. inl (λ r t. refl, refl))
        λ _ w1 good s1.
          let path = run_part RunPart.blockers doc.run_id doc.source_task_id in
          new_at-Creates yaml.cases RunPart.blockers accept_case doc.run_id doc.source_task_id doc
            (write_part yaml.cases path doc) w.files w1 s1
            (rw
              (
                wrapped-result _ _ (lift-result _ good),
                text_eq_refl doc.run_id,
                text_eq_refl doc.source_task_id,
              )
              refl)
            (λ v same. write_part-IsSaved yaml.cases path doc w.files v same)

  -- Whatever system calls fail, CreateReviewHandoff puts a valid handoff where the run had none, or
  -- changes no handoff and fails.
  pub create_handoff-Creates :
      (doc : ReviewHandoff) (w : World)
      → let (r, w') = create_handoff yaml doc w in
        Creates doc.run_id doc.source_task_id doc (handoff_table w.files) r (handoff_table w'.files)
  unfolding create_handoff
  create_handoff-Creates doc w =
      quiet_result
        (λ r fs.
          Creates doc.run_id doc.source_task_id doc (handoff_table w.files) r (handoff_table fs))
        (lift (wrapped "validate review handoff" (validate_handoff doc))) _ w refl
        (λ e. inl (λ r t. refl, refl))
        λ _ w1 good s1.
          let path = run_part RunPart.reviews doc.run_id doc.source_task_id in
          new_at-Creates yaml.handoffs RunPart.reviews accept_handoff doc.run_id doc.source_task_id
            doc (write_part yaml.handoffs path doc) w.files w1 s1
            (rw (wrapped-result _ _ (lift-result _ good)) refl)
            (λ v same. write_part-IsSaved yaml.handoffs path doc w.files v same)

  -- Whatever system calls fail, CreatePartialReplan puts a valid replan where the run had none, or
  -- changes no replan and fails.
  pub create_replan-Creates :
      (doc : PartialReplan) (w : World)
      → let (r, w') = create_replan yaml doc w in
        Creates doc.run_id doc.source_task_id doc (replan_table w.files) r (replan_table w'.files)
  unfolding create_replan
  create_replan-Creates doc w =
      quiet_result
        (λ r fs.
          Creates doc.run_id doc.source_task_id doc (replan_table w.files) r (replan_table fs))
        (lift (wrapped "validate partial replan" (validate_replan doc))) _ w refl
        (λ e. inl (λ r t. refl, refl))
        λ _ w1 good s1.
          let path = run_part RunPart.replans doc.run_id doc.source_task_id in
          new_at-Creates yaml.replans RunPart.replans accept_replan doc.run_id doc.source_task_id
            doc (write_part yaml.replans path doc) w.files w1 s1
            (rw
              (
                wrapped-result _ _ (lift-result _ good),
                text_eq_refl doc.run_id,
                text_eq_refl doc.source_task_id,
              )
              refl)
            (λ v same. write_part-IsSaved yaml.replans path doc w.files v same)

  -- Reading a document gives the row of the table and changes no file.
  pub read_case-row :
      (run source : Text) (w w' : World) {doc : BlockerCase}
      → read_case yaml run source w ≡ (ok doc, w')
      → case_table w.files run source ≡ some doc
  unfolding read_case table ◌>>=◌ load wrapped_io read_file syscall
  read_case-row run source w w' h = ground arith

  pub read_case-files :
      (run source : Text) (w : World) → (read_case yaml run source w).1.files ≡ w.files
  unfolding read_case load wrapped_io read_file ◌>>=◌ syscall
  read_case-files run source w = ground arith
