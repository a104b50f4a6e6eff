-- ===== src/Mailbox/Coordinator/Updates.antt =====
-- UpdateBlockerCase, UpdateReviewHandoff and FindBlockerCaseByCurrentTaskID of
-- internal/mailbox/coordinator_store.go over the tables of the run.
use tmuxicate.Prelude.{
  ◌≡◌, refl, ◌∙◌, inl, inr, true, false, not, some, Result, ok, wrapped, arith, reject_if,
  reject_if-eq-ok,
}
use tmuxicate.Text.{Text, text_eq}
use tmuxicate.Protocol.Documents.{ReviewHandoff, BlockerCase}
use tmuxicate.Protocol.Validation.Blocker.{validate_handoff, validate_blocker_case}
use tmuxicate.Mailbox.Files.{Files, RunPart, run_part}
use tmuxicate.Mailbox.Io.{wrapped_io, World, ◌>>=◌, lift, syscall, read_file}
use tmuxicate.Mailbox.Store.Effects.{quiet_result, lift-result, wrapped-result}
use tmuxicate.Mailbox.Coordinator.{
  Formats, load, write_part, read_case, update_case, read_handoff, update_handoff,
}
use tmuxicate.Mailbox.Coordinator.Tables.{
  Updates, table, table-IsSame, write_part-IsSaved, IsSaved-cases,
}
use tmuxicate.Mailbox.Coordinator.Cases.{
  accept_case, accept_handoff, case_table, handoff_table, read_case-row, read_case-files,
}

module _ (yaml : Formats) where
  read_handoff-row :
      (run source : Text) (w w' : World) {doc : ReviewHandoff}
      → read_handoff yaml run source w ≡ (ok doc, w')
      → handoff_table yaml w.files run source ≡ some doc
  unfolding read_handoff table ◌>>=◌ load wrapped_io read_file syscall
  read_handoff-row run source w w' h = ground arith

  read_handoff-files :
      (run source : Text) (w : World) → (read_handoff yaml run source w).1.files ≡ w.files
  unfolding read_handoff load wrapped_io read_file ◌>>=◌ syscall
  read_handoff-files run source w = ground arith

  -- Whatever system calls fail, UpdateReviewHandoff puts what the function makes of the handoff on
  -- record, if it is valid, or changes no handoff and fails.
  pub update_handoff-Updates :
      (run source : Text) (fn : ReviewHandoff → Result ReviewHandoff) (w : World)
      → let (r, w') = update_handoff yaml run source fn w in
        Updates
          (accept_handoff run source)
          fn
          run
          source
          (handoff_table yaml w.files)
          r
          (handoff_table yaml w'.files)
  unfolding update_handoff
  update_handoff-Updates run source fn w =
      let before = handoff_table yaml w.files in
      let Post = λ (r : Result (Unit {0})) (fs : Files).
        Updates (accept_handoff run source) fn run source before r (handoff_table yaml fs) in
      let kept = λ (v : World) (same : v.files ≡ w.files).
        table-IsSame yaml.handoffs RunPart.reviews accept_handoff w.files v.files same in
      quiet_result Post (read_handoff yaml run source) _ w (read_handoff-files run source w)
        (λ e. inl (λ r t. refl, refl))
        λ old w1 read s1.
          quiet_result Post (lift (fn old)) _ w1 refl (λ e. inl (kept w1 s1, refl))
            λ doc w2 made s2.
              quiet_result Post
                (lift (wrapped "validate updated review handoff" (validate_handoff doc))) _ w2 refl
                (λ e. inl (kept w2 (s2 ∙ s1), refl))
                λ _ w3 good s3.
                  let fits : accept_handoff run source doc ≡ true =
                    rw (wrapped-result _ _ (lift-result _ good)) refl in
                  let end =
                    write_part-IsSaved yaml.handoffs (run_part RunPart.reviews run source) doc
                      w.files w3 (s3 ∙ s2 ∙ s1) in
                  elim (IsSaved-cases yaml.handoffs RunPart.reviews accept_handoff run source doc
                    w.files _ _ fits end) [
                      | inl stay ↦ inl stay
                      | inr put ↦ inr (
                        old,
                        doc,
                        read_handoff-row run source w w1 read,
                        lift-result _ made,
                        fits,
                        put,
                      )
                    ]

  -- Whatever system calls fail, UpdateBlockerCase puts what the function makes of the case on
  -- record, if it is valid and keeps its run and source task, or changes no case and fails.
  pub update_case-Updates :
      (run source : Text) (fn : BlockerCase → Result BlockerCase) (w : World)
      → let (r, w') = update_case yaml run source fn w in
        Updates
          (accept_case run source)
          fn
          run
          source
          (case_table yaml w.files)
          r
          (case_table yaml w'.files)
  unfolding update_case
  update_case-Updates run source fn w =
      let before = case_table yaml w.files in
      let Post = λ (r : Result (Unit {0})) (fs : Files).
        Updates (accept_case run source) fn run source before r (case_table yaml fs) in
      let kept = λ (v : World) (same : v.files ≡ w.files).
        table-IsSame yaml.cases RunPart.blockers accept_case w.files v.files same in
      quiet_result Post (read_case yaml run source) _ w (read_case-files yaml run source w)
        (λ e. inl (λ r t. refl, refl))
        λ old w1 read s1.
          quiet_result Post (lift (fn old)) _ w1 refl (λ e. inl (kept w1 s1, refl))
            λ doc w2 made s2.
              quiet_result Post
                (lift (wrapped "validate updated blocker case" (validate_blocker_case doc))) _ w2
                refl (λ e. inl (kept w2 (s2 ∙ s1), refl))
                λ _ w3 good s3.
                  quiet_result Post (lift (reject_if (not (text_eq doc.run_id run)) _)) _ w3 refl
                    (λ e. inl (kept w3 (s3 ∙ s2 ∙ s1), refl))
                    λ _ w4 same_run s4.
                      quiet_result Post
                        (lift (reject_if (not (text_eq doc.source_task_id source)) _)) _ w4 refl
                        (λ e. inl (kept w4 (s4 ∙ s3 ∙ s2 ∙ s1), refl))
                        λ _ w5 same_source s5.
                          put_case run source fn w w1 w5 old doc (s5 ∙ s4 ∙ s3 ∙ s2 ∙ s1) read
                            (lift-result _ made) (wrapped-result _ _ (lift-result _ good))
                            (reject_if-eq-ok _ _ (lift-result _ same_run))
                            (reject_if-eq-ok _ _ (lift-result _ same_source))
    where
      put_case :
          (run source : Text) (fn : BlockerCase → Result BlockerCase) (w w1 v : World)
          (old doc : BlockerCase)
          → v.files ≡ w.files
          → read_case yaml run source w ≡ (ok old, w1)
          → fn old ≡ ok doc
          → validate_blocker_case doc ≡ ok tt
          → not (text_eq doc.run_id run) ≡ false
          → not (text_eq doc.source_task_id source) ≡ false
          → let path = run_part RunPart.blockers run source in
            let (r, v') = write_part yaml.cases path doc v in
            Updates
              (accept_case run source)
              fn
              run
              source
              (case_table yaml w.files)
              r
              (case_table yaml v'.files)
      put_case run source fn w w1 v old doc same read made good same_run same_source =
          let fits : accept_case run source doc ≡ true =
            ground (arith, good, same_run, same_source) in
          let end =
            write_part-IsSaved yaml.cases (run_part RunPart.blockers run source) doc w.files v
              same in
          elim (IsSaved-cases yaml.cases RunPart.blockers accept_case run source doc w.files _ _
            fits end) [
              | inl stay ↦ inl stay
              | inr put ↦ inr (old, doc, read_case-row yaml run source w w1 read, made, fits, put)
            ]
