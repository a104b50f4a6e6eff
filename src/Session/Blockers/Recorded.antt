-- ===== src/Session/Blockers/Recorded.antt =====
-- The case that recordCoordinatorBlocker of internal/session/task_cmd.go persists, and its errors.
use tmuxicate.Prelude.{
  ok_value, ℕ, suc, ◌≡◌, inr, refl, sym, ap, subst, ◌∙◌, true, false, ◌++◌, List, [], ◌∷◌, Option,
  none, Result, ok, err, ◌<◌, ◌^◌, >>=-eq-ok, wrapped_at, arith,
}
use tmuxicate.Prelude.Int.{ℤ, pos, negsuc, int_lt, inc, is_neg}
use tmuxicate.Text.{Text, is_blank}
use tmuxicate.Protocol.Ids.{is_generated_task_id}
use tmuxicate.Protocol.Enums.{BlockKind, BlockerAction, BlockerStatus}
use tmuxicate.Protocol.Documents.{BlockerCase, BlockerAttempt, ChildTask, Time, is_zero}
use tmuxicate.Protocol.Validation.{each, present_and}
use tmuxicate.Prelude.{Error}
use tmuxicate.Protocol.Documents.{RecommendedAction}
use tmuxicate.Protocol.Enums.{check_blocker_status}
use tmuxicate.Prelude.Int.{inc-pos}
use tmuxicate.Session.Blockers.{recommended_blocker_action}
use tmuxicate.Protocol.Validation.Blocker.{
  validate_recommended, validate_attempt, validate_blocker_case,
}
use tmuxicate.Protocol.Validation.Blocker.Valid.{FieldsValid, CaseValid, validate_blocker_case_iff}
use tmuxicate.Session.Blockers.{
  Context, Declaration, wait_action, block_action, select_blocker_action, starting_case,
  prepare_blocker_case, reroute_attempt, record_action, record_blocker,
}
use tmuxicate.Session.Blockers.Policy.{select_blocker_action-reroute_iff}
use tmuxicate.Session.Blockers.Prepared.{Recordable, Routed, started, prepared-CaseValid}

each-append_one {ℓ} :
    {A : Type ℓ} (f : ℕ → A → Result (Unit {0})) (i : ℕ) (xs : List A) (y : A)
    → each f i xs ≡ ok tt
    → ((j : ℕ) → f j y ≡ ok tt)
    → each f i (xs ++ y ∷ []) ≡ ok tt
each-append_one f i [] y h g = rw (g i) refl
each-append_one f i (x ∷ xs) y h g =
    let (u, fx, rest) = >>=-eq-ok (f i x) _ h in rw fx (each-append_one f (suc i) xs y rest g)

attempt-valid :
    (t : ChildTask) (reason : Text) (now : Time)
    → is_generated_task_id t.task_id ≡ true
    → is_blank t.message_id ≡ false
    → is_blank t.owner ≡ false
    → is_zero now ≡ false
    → (j : ℕ) → wrapped_at "attempts" j (validate_attempt (reroute_attempt t reason now)) ≡ ok tt
unfolding validate_attempt
attempt-valid t reason now generated message owner clock j = ground arith

recommended-valid :
    (b : BlockKind) (reason : Text) (count : ℤ) (ceiling : ℤ)
    → validate_recommended (recommended_blocker_action b reason count ceiling) ≡ ok tt
unfolding validate_recommended recommended_blocker_action
recommended-valid b reason count ceiling = ground arith

inc-is_neg :
    (count : ℤ) (ceiling : ℕ)
    → ceiling < 2 ^ 63
    → is_neg count ≡ false
    → int_lt count (pos ceiling) ≡ true
    → is_neg (inc count) ≡ false
inc-is_neg (pos n) ceiling h neg lt = ap is_neg (inc-pos n (ground arith))
inc-is_neg (negsuc n) ceiling h neg lt = cc

-- What record_action needs to know beyond the validity of the case.
record Ready (a : BlockerAction) (doc : BlockerCase) : Type 0 where
  active : doc.status ≡ BlockerStatus.active
  resolution : doc.resolution ≡ none
  below : a ≡ BlockerAction.reroute → is_neg (inc doc.reroute_count) ≡ false

status-FieldsValid :
    (doc : BlockerCase) (s : BlockerStatus) (a : Option RecommendedAction) (e : Option Time)
    → FieldsValid doc
    → check_blocker_status s ≡ ok tt
    → present_and is_zero e ≡ false
    → FieldsValid (record doc { status = s; recommended_action = a; escalated_at = e })
status-FieldsValid doc s a e v known set = record {
  run_id = v.run_id;
  source_task_id = v.source_task_id;
  source_message_id = v.source_message_id;
  source_owner = v.source_owner;
  current_task_id = v.current_task_id;
  current_message_id = v.current_message_id;
  current_owner = v.current_owner;
  reason = v.reason;
  selected_action = v.selected_action;
  status = known;
  reroute_count = v.reroute_count;
  max_reroutes = v.max_reroutes;
  created_at = v.created_at;
  updated_at = v.updated_at;
  escalated_at = set;
  resolved_at = v.resolved_at;
}

reroute-FieldsValid :
    (doc : BlockerCase) (task : ChildTask) (more : List BlockerAttempt)
    → FieldsValid doc
    → is_generated_task_id task.task_id ≡ true
    → is_blank task.message_id ≡ false
    → is_blank task.owner ≡ false
    → is_neg (inc doc.reroute_count) ≡ false
    → FieldsValid (record doc {
      status = BlockerStatus.active;
      current_task_id = task.task_id;
      current_message_id = task.message_id;
      current_owner = task.owner;
      reroute_count = inc doc.reroute_count;
      attempts = more;
    })
reroute-FieldsValid doc task more v generated message owner count = record {
  run_id = v.run_id;
  source_task_id = v.source_task_id;
  source_message_id = v.source_message_id;
  source_owner = v.source_owner;
  current_task_id = inr generated;
  current_message_id = message;
  current_owner = owner;
  reason = v.reason;
  selected_action = v.selected_action;
  status = refl;
  reroute_count = count;
  max_reroutes = v.max_reroutes;
  created_at = v.created_at;
  updated_at = v.updated_at;
  escalated_at = v.escalated_at;
  resolved_at = v.resolved_at;
}

acted-CaseValid :
    (a : BlockerAction) (doc : BlockerCase) (rerouted : Result ChildTask) (reason : Text)
    (now : Time) (after : BlockerCase)
    → CaseValid doc
    → Ready a doc
    → Routed rerouted
    → is_zero now ≡ false
    → record_action a doc rerouted reason now ≡ ok after
    → CaseValid after
unfolding record_action
acted-CaseValid BlockerAction.watch doc rerouted reason now after v k t z eq =
    subst CaseValid (ok_value eq) (record {
      fields = status-FieldsValid _ _ _ _ v.fields refl refl;
      declared = v.declared;
      recommended = refl;
      resolution = v.resolution;
      attempts = v.attempts;
      by_status = tt;
    })
acted-CaseValid BlockerAction.clarification_request doc rerouted reason now after v k t z eq =
    subst CaseValid (ok_value eq) (record {
      fields = status-FieldsValid _ _ _ _ v.fields refl refl;
      declared = v.declared;
      recommended = refl;
      resolution = v.resolution;
      attempts = v.attempts;
      by_status = tt;
    })
acted-CaseValid BlockerAction.escalate doc rerouted reason now after v k t z eq =
    subst CaseValid (ok_value eq) (record {
      fields = status-FieldsValid _ _ _ _ v.fields refl z;
      declared = v.declared;
      resolution = v.resolution;
      attempts = v.attempts;
      recommended =
          rw (recommended-valid doc.block_kind reason doc.reroute_count doc.max_reroutes) refl;
      by_status = (refl, refl);
    })
acted-CaseValid BlockerAction.reroute doc (ok task) reason now after v k t z eq =
    subst CaseValid (ok_value eq) (record {
      fields =
          reroute-FieldsValid doc task _ v.fields (t.task task refl) (t.message task refl)
            (t.owner task refl) (k.below refl);
      declared = v.declared;
      recommended = v.recommended;
      resolution = v.resolution;
      attempts = each-append_one _ 0 doc.attempts _ v.attempts (
          attempt-valid task reason now (t.task task refl) (t.message task refl) (t.owner task refl)
            z);
      by_status = tt;
    })
acted-CaseValid BlockerAction.reroute doc (err e) reason now after v k t z eq = cc
acted-CaseValid (BlockerAction.other x) doc rerouted reason now after v k t z eq = cc

prepared-Ready :
    (c : Context) (d : Declaration) (reason : Text) (now : Time) (r : Recordable c d reason now)
    → Ready
        (prepare_blocker_case c d reason now).selected_action
        (prepare_blocker_case c d reason now)
unfolding prepare_blocker_case
prepared-Ready c d reason now r = record {
  active = refl;
  resolution = refl;
  below = λ h.
      let (w, b, lt) = (select_blocker_action-reroute_iff _ _ _ _).0 h in
      inc-is_neg _ r.ceiling r.ceiling_lt
        (started c d reason now r c.blocker_case r.stored).reroute_count
        (sym (ap (int_lt (starting_case c c.blocker_case now).reroute_count) r.ceiling_eq) ∙ lt);
}

-- A declaration on a real task, with a reason and a known kind, under a ceiling that an `int` holds
-- and on a valid case or none, where a task that a reroute creates is real: whatever it records
-- passes BlockerCase.Validate.
pub record_blocker-valid :
    (c : Context) (d : Declaration) (rerouted : Result ChildTask) (reason : Text) (now : Time)
    (doc : BlockerCase)
    → Recordable c d reason now
    → Routed rerouted
    → record_blocker c d rerouted reason now ≡ ok doc
    → validate_blocker_case doc ≡ ok tt
unfolding record_blocker
record_blocker-valid c d rerouted reason now doc r t eq = (validate_blocker_case_iff doc).1 (
    acted-CaseValid _ _ rerouted reason now doc (prepared-CaseValid c d reason now r)
      (prepared-Ready c d reason now r) t r.clock eq)

-- On such a call the policy itself never fails: what is not ok is the failure of the reroute.
pub record_blocker-total :
    (c : Context) (d : Declaration) (rerouted : Result ChildTask) (reason : Text) (now : Time)
    (e : Error)
    → record_blocker c d rerouted reason now ≡ err e
    → rerouted ≡ err e
unfolding record_blocker record_action prepare_blocker_case select_blocker_action wait_action
    block_action
record_blocker-total c d rerouted reason now e h = ground arith
