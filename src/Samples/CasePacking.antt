-- ===== src/Samples/CasePacking.antt =====
-- A concrete format for blocker cases, in place of YAML, and formats that write no other document.
use tmuxicate.Prelude.{◌≡◌, refl, List, [], Option, none, some, Result, ok, err, msg, sym, ok_value}
use tmuxicate.Prelude.Int.{ℤ}
use tmuxicate.Text.{Text}
use tmuxicate.Protocol.Enums.{
  WaitKind, BlockKind, DeclaredState, BlockerAction, BlockerStatus, ResolutionAction,
}
use tmuxicate.Protocol.Documents.{
  BlockerCase, BlockerAttempt, BlockerResolution, RecommendedAction, Time,
}
use tmuxicate.Mailbox.Store.{Codec}
use tmuxicate.Mailbox.Coordinator.{Formats}
use tmuxicate.Samples.Packing.{Packing, numbers, texts, pairs, ints, options}
use tmuxicate.Samples.TagPacking.{
  via, lists, wait_packing, block_packing, declared_packing, action_packing, status_packing,
  resolution_packing,
}

abbrev RecommendedFields : Type 0
RecommendedFields = ResolutionAction × Text

abbrev recommended_fields : RecommendedAction → RecommendedFields
recommended_fields d = (d.kind, d.note)

abbrev recommended_of_fields : RecommendedFields → RecommendedAction
recommended_of_fields (kind', note') = record { kind = kind'; note = note' }

recommended_packing : Packing RecommendedAction
recommended_packing =
    via (pairs resolution_packing (texts)) recommended_fields recommended_of_fields (λ d. refl)

abbrev AttemptFields : Type 0
AttemptFields = BlockerAction × (Text × (Text × (Text × (Text × Time))))

abbrev attempt_fields : BlockerAttempt → AttemptFields
attempt_fields d = (d.action, (d.task_id, (d.message_id, (d.owner, (d.note, d.created_at)))))

abbrev attempt_of_fields : AttemptFields → BlockerAttempt
attempt_of_fields (action', (task_id', (message_id', (owner', (note', created_at'))))) = record {
  action = action';
  task_id = task_id';
  message_id = message_id';
  owner = owner';
  note = note';
  created_at = created_at';
}

attempt_packing : Packing BlockerAttempt
attempt_packing =
    via (pairs action_packing (pairs texts (pairs texts (pairs texts (pairs texts (numbers))))))
      attempt_fields attempt_of_fields (λ d. refl)

abbrev OutcomeFields : Type 0
OutcomeFields = ResolutionAction × (Text × (Text × (Text × (Text × Time))))

abbrev outcome_fields : BlockerResolution → OutcomeFields
outcome_fields d =
    (d.action, (d.created_task_id, (d.created_message_id, (d.resolved_by, (d.note, d.created_at)))))

abbrev outcome_of_fields : OutcomeFields → BlockerResolution
outcome_of_fields
      (action', (created_task_id', (created_message_id', (resolved_by', (note', created_at'))))) =
    record {
      action = action';
      created_task_id = created_task_id';
      created_message_id = created_message_id';
      resolved_by = resolved_by';
      note = note';
      created_at = created_at';
    }

outcome_packing : Packing BlockerResolution
outcome_packing =
    via (pairs resolution_packing (pairs texts (pairs texts (pairs texts (pairs texts (numbers))))))
      outcome_fields outcome_of_fields (λ d. refl)

abbrev CaseFields : Type 0
CaseFields =
    Text
    × (Text
        × (Text
            × (Text
                × (Text
                    × (Text
                        × (Text
                            × (DeclaredState
                                × (WaitKind
                                    × (BlockKind
                                        × (Text
                                            × (BlockerAction
                                                × (BlockerStatus
                                                    × (ℤ
                                                        × (ℤ
                                                            × ((Option RecommendedAction)
                                                            × ((Option BlockerResolution)
                                                            × (Time
                                                            × (Time
                                                            × ((Option Time)
                                                            × (Option Time
                                                            × List
                                                            BlockerAttempt))))))))))))))))))))

abbrev case_fields : BlockerCase → CaseFields
case_fields d = (
  d.run_id,
  (
    d.source_task_id,
    (
      d.source_message_id,
      (
        d.source_owner,
        (
          d.current_task_id,
          (
            d.current_message_id,
            (
              d.current_owner,
              (
                d.declared_state,
                (
                  d.wait_kind,
                  (
                    d.block_kind,
                    (
                      d.reason,
                      (
                        d.selected_action,
                        (
                          d.status,
                          (
                            d.reroute_count,
                            (
                              d.max_reroutes,
                              (
                                d.recommended_action,
                                (
                                  d.resolution,
                                  (
                                    d.created_at,
                                    (d.updated_at, (d.escalated_at, (d.resolved_at, d.attempts))),
                                  ),
                                ),
                              ),
                            ),
                          ),
                        ),
                      ),
                    ),
                  ),
                ),
              ),
            ),
          ),
        ),
      ),
    ),
  ),
)

abbrev case_of_fields : CaseFields → BlockerCase
case_of_fields
      (
        run_id',
        (
          source_task_id',
          (
            source_message_id',
            (
              source_owner',
              (
                current_task_id',
                (
                  current_message_id',
                  (
                    current_owner',
                    (
                      declared_state',
                      (
                        wait_kind',
                        (
                          block_kind',
                          (
                            reason',
                            (
                              selected_action',
                              (
                                status',
                                (
                                  reroute_count',
                                  (
                                    max_reroutes',
                                    (
                                      recommended_action',
                                      (
                                        resolution',
                                        (
                                          created_at',
                                          (updated_at', (escalated_at', (resolved_at', attempts'))),
                                        ),
                                      ),
                                    ),
                                  ),
                                ),
                              ),
                            ),
                          ),
                        ),
                      ),
                    ),
                  ),
                ),
              ),
            ),
          ),
        ),
      ) =
    record {
      run_id = run_id';
      source_task_id = source_task_id';
      source_message_id = source_message_id';
      source_owner = source_owner';
      current_task_id = current_task_id';
      current_message_id = current_message_id';
      current_owner = current_owner';
      declared_state = declared_state';
      wait_kind = wait_kind';
      block_kind = block_kind';
      reason = reason';
      selected_action = selected_action';
      status = status';
      reroute_count = reroute_count';
      max_reroutes = max_reroutes';
      recommended_action = recommended_action';
      resolution = resolution';
      created_at = created_at';
      updated_at = updated_at';
      escalated_at = escalated_at';
      resolved_at = resolved_at';
      attempts = attempts';
    }

case_packing : Packing BlockerCase
case_packing =
    via
      (pairs texts (
        pairs texts (
          pairs texts (
            pairs texts (
              pairs texts (
                pairs texts (
                  pairs texts (
                    pairs declared_packing (
                      pairs wait_packing (
                        pairs block_packing (
                          pairs texts (
                            pairs action_packing (
                              pairs status_packing (
                                pairs ints (
                                  pairs ints (
                                    pairs (options recommended_packing) (
                                      pairs (options outcome_packing) (
                                        pairs numbers (
                                          pairs numbers (
                                            pairs (options numbers) (
                                              pairs (options numbers)
                                                (lists attempt_packing))))))))))))))))))))))
      case_fields case_of_fields (λ d. refl)

whole_case : Option (BlockerCase × Text) → Result BlockerCase
whole_case none = err (msg "not a blocker case")
whole_case (some r) = ok r.0

pub put_case : BlockerCase → Text
put_case d = case_packing.put d []

case_law :
    (d : BlockerCase) (t : Text) → ok (put_case d) ≡ ok t → whole_case (case_packing.get t) ≡ ok d
unfolding whole_case put_case
case_law d t e = rw (sym (ok_value e)) (rw (case_packing.law d []) refl)

pub case_codec : Codec BlockerCase
case_codec = record {
  marshal = λ d. ok (put_case d);
  unmarshal = λ t. whole_case (case_packing.get t);
  round_trip = case_law;
}

pub case_codec-reads : (d : BlockerCase) → case_codec.unmarshal (put_case d) ≡ ok d
unfolding case_codec
case_codec-reads d = case_law d (put_case d) refl

-- A format that writes nothing.
mute : {A : Type 0} → Codec A
mute = record {
  marshal = λ a. err (msg "not supported");
  unmarshal = λ t. err (msg "not supported");
  round_trip = λ a t e. absurd (cc e);
}

pub case_formats : Formats
case_formats = record {
  runs = mute;
  tasks = mute;
  handoffs = mute;
  cases = case_codec;
  replans = mute;
  preference_sets = mute;
}

pub case_formats-cases : case_formats.cases ≡ case_codec
unfolding case_formats
case_formats-cases = refl
