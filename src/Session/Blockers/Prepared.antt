-- ===== src/Session/Blockers/Prepared.antt =====
-- The case that prepareBlockerCase of internal/session/task_cmd.go builds.
use tmuxicate.Prelude.{
  ℕ, ◌≡◌, inr, refl, ap, ◌∙◌, true, false, Option, none, some, Result, ok, ◌<◌, ◌^◌, is_nil,
  wrapped_at, arith,
}
use tmuxicate.Prelude.Int.{ℤ, pos, is_neg}
use tmuxicate.Text.{Text, is_blank, trim_space, trim_space_idem}
use tmuxicate.Protocol.Ids.{is_generated_run_id, is_generated_task_id}
use tmuxicate.Protocol.Enums.{WaitKind, BlockKind, check_blocker_action}
use tmuxicate.Protocol.Documents.{BlockerCase, ChildTask, Time, is_zero}
use tmuxicate.Protocol.Validation.{each, when_present}
use tmuxicate.Protocol.Validation.Blocker.{validate_attempt, validate_blocker_case}
use tmuxicate.Protocol.Validation.Blocker.Valid.{
  CaseValid, DeclaredValid, validate_blocker_case_iff,
}
use tmuxicate.Session.Blockers.{
  Context, Declaration, declared_state, wait_kind_of, block_kind_of, wait_action, block_action,
  select_blocker_action, starting_case, resolve_blocker_ceiling, prepare_blocker_case,
}

-- What is known of a call: its task and message are real, the reason says something, the kind is one
-- of the known ones, the ceiling is an `int` that is not negative, and the stored case is valid.
pub record Recordable (c : Context) (d : Declaration) (reason : Text) (now : Time) : Type 0 where
  pub run : is_generated_run_id c.run_id ≡ true
  pub source : is_generated_task_id c.source_task.task_id ≡ true
  pub message : is_blank c.source_task.message_id ≡ false
  pub owner : is_blank c.source_task.owner ≡ false
  pub current : is_generated_task_id c.current_task_id ≡ true
  pub envelope : is_blank c.env_id ≡ false
  pub agent : is_blank c.agent_name ≡ false
  pub says : is_blank reason ≡ false
  pub kind : DeclaredValid (declared_state d) (wait_kind_of d) (block_kind_of d)
  pub ceiling : ℕ
  pub ceiling_eq : resolve_blocker_ceiling c.cfg c.source_task ≡ pos ceiling
  pub ceiling_lt : ceiling < 2 ^ 63
  pub clock : is_zero now ≡ false
  pub stored : when_present validate_blocker_case c.blocker_case ≡ ok tt

-- What is known of the task that a reroute creates.
pub record Routed (rerouted : Result ChildTask) : Type 0 where
  pub task : (t : ChildTask) → rerouted ≡ ok t → is_generated_task_id t.task_id ≡ true
  pub message : (t : ChildTask) → rerouted ≡ ok t → is_blank t.message_id ≡ false
  pub owner : (t : ChildTask) → rerouted ≡ ok t → is_blank t.owner ≡ false

is_blank-trim_space : (s : Text) → is_blank (trim_space s) ≡ is_blank s
is_blank-trim_space s = ap is_nil (trim_space_idem s)

-- What holds of the starting case: the fields that the preparation keeps.
pub record Start (doc : BlockerCase) : Type 0 where
  pub run_id : is_generated_run_id doc.run_id ≡ true
  pub source_task_id : is_generated_task_id doc.source_task_id ≡ true
  pub source_message_id : is_blank doc.source_message_id ≡ false
  pub source_owner : is_blank doc.source_owner ≡ false
  pub reroute_count : is_neg doc.reroute_count ≡ false
  pub created_at : is_zero doc.created_at ≡ false
  pub attempts : each (λ i a. wrapped_at "attempts" i (validate_attempt a)) 0 doc.attempts ≡ ok tt

pub started :
    (c : Context) (d : Declaration) (reason : Text) (now : Time)
    → Recordable c d reason now
    → (stored : Option BlockerCase) → when_present validate_blocker_case stored ≡ ok tt
    → Start (starting_case c stored now)
unfolding starting_case
started c d reason now r none h = record {
  run_id = r.run;
  source_task_id = r.source;
  source_message_id = r.message;
  source_owner = r.owner;
  reroute_count = refl;
  created_at = r.clock;
  attempts = refl;
}
started c d reason now r (some doc) h =
    let v = (validate_blocker_case_iff doc).0 h in
    record {
      run_id = v.fields.run_id;
      source_task_id = v.fields.source_task_id;
      source_message_id = v.fields.source_message_id;
      source_owner = v.fields.source_owner;
      reroute_count = v.fields.reroute_count;
      created_at = v.fields.created_at;
      attempts = v.attempts;
    }

select-known :
    (w : WaitKind) (b : BlockKind) (count : ℤ) (ceiling : ℤ)
    → check_blocker_action (select_blocker_action w b count ceiling) ≡ ok tt
unfolding select_blocker_action wait_action block_action
select-known w b count ceiling = ground arith

pub prepared-CaseValid :
    (c : Context) (d : Declaration) (reason : Text) (now : Time)
    → Recordable c d reason now
    → CaseValid (prepare_blocker_case c d reason now)
unfolding prepare_blocker_case
prepared-CaseValid c d reason now r =
    let s = started c d reason now r c.blocker_case r.stored in
    record {
      fields = record {
        run_id = s.run_id;
        source_task_id = s.source_task_id;
        source_message_id = s.source_message_id;
        source_owner = s.source_owner;
        current_task_id = inr r.current;
        current_message_id = r.envelope;
        current_owner = r.agent;
        reason = is_blank-trim_space reason ∙ r.says;
        selected_action = select-known (wait_kind_of d) (block_kind_of d) _ _;
        status = refl;
        reroute_count = s.reroute_count;
        max_reroutes = ap is_neg r.ceiling_eq;
        created_at = s.created_at;
        updated_at = r.clock;
        escalated_at = refl;
        resolved_at = refl;
      };
      declared = r.kind;
      recommended = refl;
      resolution = refl;
      attempts = s.attempts;
      by_status = tt;
    }
