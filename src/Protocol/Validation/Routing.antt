-- ===== src/Protocol/Validation/Routing.antt =====
-- The routing documents of internal/protocol/validation.go: requests, decisions, rejections,
-- excluded targets and the adaptive preferences with their evidence.
use tmuxicate.Prelude.{
  ℕ, zero, ◌++◌, Bool, true, ◌&&◌, not, List, [], ◌∷◌, ok, ◌>>=◌, ◌>>◌, Result, reject_if, is_nil,
  msg, at, wrapped, wrapped_at, if◌then◌else◌,
}
use tmuxicate.Prelude.Int.{ℤ, pos, negsuc, sub_ℕ, is_neg, int_eq, ◌+ℤ◌}
use tmuxicate.Text.{Text, codes, text_eq, text_lt, is_blank}
use tmuxicate.Protocol.Ids.{is_generated_run_id, is_generated_task_id}
use tmuxicate.Protocol.Domains.{normalize_route_domains}
use tmuxicate.Protocol.Enums.{check_task_class, task_class_text, TaskClass}
use tmuxicate.Protocol.Documents.{
  EvidenceRef, AdaptiveExplanation, AdaptivePreference, AdaptivePreferenceSet, RoutingDecision,
  RouteChildTaskRequest, RouteRejection, RouteTargetExclusion, is_zero,
}
use tmuxicate.Protocol.Validation.{each, when_present, join, texts_eq}

unfoldable pub validate_exclusion : RouteTargetExclusion → Result (Unit {0})
validate_exclusion e = do
  reject_if (is_blank e.owner) (msg "owner is required")
  reject_if (is_blank e.target_name) (msg "target_name is required")
  reject_if (is_blank e.status) (msg "status is required")
  reject_if (is_blank e.reason) (msg "reason is required")

unfoldable pub validate_evidence : EvidenceRef → Result (Unit {0})
validate_evidence e = do
  reject_if (not (is_generated_run_id e.run_id)) (msg "run_id must use generated run_ identifier")
  reject_if (not (is_generated_task_id e.source_task_id))
      (msg "source_task_id must use generated task_ identifier")
  reject_if (is_blank e.message_id) (msg "message_id is required")
  reject_if (is_blank e.status) (msg "status is required")
  reject_if (is_blank e.note) (msg "note is required")

-- adaptiveRoutingEvidenceStatusRank
unfoldable pub status_rank : Text → ℕ
status_rank status =
    if text_eq status (codes "completed")
    then 1
    else if text_eq status (codes "approved")
    then 2
    else if text_eq status (codes "changes_requested")
    then 3
    else if text_eq status (codes "blocked")
    then 4
    else if text_eq status (codes "waiting")
    then 5
    else if text_eq status (codes "escalated")
    then 6
    else 99

-- strings.Compare
unfoldable pub text_compare : Text → Text → ℤ
text_compare a b = if text_lt a b then negsuc 0 else if text_lt b a then pos 1 else pos 0

-- The first difference that is not 0 decides.
or_else : ℤ → ℤ → ℤ
or_else (pos zero) later = later
or_else diff later = diff

-- compareAdaptiveRoutingEvidenceRef
unfoldable pub compare_evidence : EvidenceRef → EvidenceRef → ℤ
unfolding text_compare or_else status_rank
compare_evidence left right = or_else (text_compare left.run_id right.run_id) (
    or_else (text_compare left.source_task_id right.source_task_id) (
      or_else (text_compare left.message_id right.message_id) (
        or_else (sub_ℕ (status_rank left.status) (status_rank right.status))
          (text_compare left.note right.note))))

-- slices.IsSortedFunc
unfoldable pub is_sorted_evidence : List EvidenceRef → Bool
unfolding compare_evidence
is_sorted_evidence [] = true
is_sorted_evidence (x ∷ []) = true
is_sorted_evidence (x ∷ y ∷ ys) =
    let rest = is_sorted_evidence (y ∷ ys) in not (is_neg (compare_evidence y x)) && rest

unfoldable pub validate_explanation : AdaptiveExplanation → Result (Unit {0})
unfolding validate_evidence is_sorted_evidence
validate_explanation a = do
  reject_if (is_neg a.manual_weight) (msg "manual_weight must be >= 0")
  reject_if (not (int_eq a.total_score (a.historical_score +ℤ a.manual_weight)))
      (msg "total_score must equal historical_score + manual_weight")
  reject_if (a.applied && is_blank a.baseline_owner)
      (msg "baseline_owner is required when applied is true")
  reject_if (a.applied && is_blank a.reason) (msg "reason is required when applied is true")
  reject_if (not (is_nil a.evidence) && not (is_sorted_evidence a.evidence))
      (msg "evidence must be sorted by run_id, source_task_id, message_id, status")
  each (λ i e. wrapped_at "evidence" i (validate_evidence e)) 0 a.evidence

unfoldable pub preference_key : TaskClass → List Text → Text → Text
unfolding join
preference_key task_class domains owner =
    task_class_text task_class ++ b'|' ∷ (join (codes ",") domains ++ b'|' ∷ owner)

-- AdaptiveRoutingPreference.Validate leaves normalized_domains as they were, since it has just
-- compared them to what it would write.
unfoldable pub validate_preference : AdaptivePreference → Result (Unit {0})
unfolding validate_evidence is_sorted_evidence preference_key
validate_preference p = do
  wrapped "task_class" (check_task_class p.task_class)
  domains ← wrapped "normalized_domains" (normalize_route_domains p.normalized_domains)
  reject_if (is_nil domains) (msg "normalized_domains must contain at least one domain")
  reject_if (not (texts_eq domains p.normalized_domains))
      (msg "normalized_domains must be sorted and normalized")
  reject_if (is_blank p.preferred_owner) (msg "preferred_owner is required")
  reject_if (is_neg p.manual_weight) (msg "manual_weight must be >= 0")
  reject_if (not (int_eq p.total_score (p.historical_score +ℤ p.manual_weight)))
      (msg "total_score must equal historical_score + manual_weight")
  reject_if (not (text_eq p.preference_key (preference_key p.task_class domains p.preferred_owner)))
      (msg "preference_key must equal the expected key")
  reject_if (not (int_eq p.historical_score (pos 0)) && is_nil p.evidence)
      (msg "evidence is required when historical_score is non-zero")
  reject_if (not (is_nil p.evidence) && not (is_sorted_evidence p.evidence))
      (msg "evidence must be sorted by run_id, source_task_id, message_id, status")
  each (λ i e. wrapped_at "evidence" i (validate_evidence e)) 0 p.evidence

unfoldable pub validate_preference_set : AdaptivePreferenceSet → Result (Unit {0})
unfolding validate_preference
validate_preference_set p = do
  reject_if (is_blank p.coordinator) (msg "coordinator is required")
  reject_if (is_zero p.updated_at) (msg "updated_at is required")
  reject_if (is_neg p.lookback_runs) (msg "lookback_runs must be >= 0")
  each (λ i x. wrapped_at "preferences" i (validate_preference x)) 0 p.preferences

unfoldable pub validate_decision : RoutingDecision → Result (Unit {0})
unfolding validate_exclusion validate_explanation
validate_decision d = do
  reject_if (is_blank d.status) (msg "status is required")
  reject_if (is_blank d.selected_owner) (msg "selected_owner is required")
  reject_if (is_blank d.tie_break) (msg "tie_break is required")
  reject_if (is_nil d.candidates) (msg "candidates must contain at least one candidate")
  reject_if (is_blank d.duplicate_status) (msg "duplicate_status is required")
  reject_if (not (is_nil d.matched_task_id) && not (is_generated_task_id d.matched_task_id))
      (msg "matched_task_id must use generated task_ identifier")
  each (λ i s. reject_if (is_blank s) (at "suggestions[" i "] must not be blank")) 0 d.suggestions
  each (λ i e. wrapped_at "excluded_targets" i (validate_exclusion e)) 0 d.excluded_targets
  when_present (λ a. wrapped "adaptive" (validate_explanation a)) d.adaptive

-- The request comes back with its domains normalized.
unfoldable pub validate_route_request : RouteChildTaskRequest → Result RouteChildTaskRequest
validate_route_request r = do
  reject_if (not (is_generated_run_id r.run_id)) (msg "run_id must use generated run_ identifier")
  wrapped "task_class" (check_task_class r.task_class)
  domains ← wrapped "domains" (normalize_route_domains r.domains)
  reject_if (is_nil domains) (msg "domains must contain at least one domain")
  reject_if (is_blank r.goal) (msg "goal is required")
  reject_if (is_blank r.expected_output) (msg "expected_output is required")
  reject_if (not (is_nil r.owner_override) && is_blank r.override_reason)
      (msg "override_reason is required when owner_override is set")
  ok (record r { domains = domains })

unfoldable pub validate_rejection : RouteRejection → Result RouteRejection
unfolding validate_exclusion
validate_rejection r = do
  wrapped "task_class" (check_task_class r.task_class)
  domains ← wrapped "domains" (normalize_route_domains r.domains)
  reject_if (is_nil domains) (msg "domains must contain at least one domain")
  reject_if (is_nil r.allowed_owners) (msg "allowed_owners must contain at least one owner")
  reject_if (is_nil r.suggestions) (msg "suggestions must contain at least one retry hint")
  each (λ i e. wrapped_at "excluded_targets" i (validate_exclusion e)) 0 r.excluded_targets
  ok (record r { domains = domains })
