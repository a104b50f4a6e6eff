-- ===== src/Session/Preferences.antt =====
-- The rows of BuildAdaptiveRoutingPreferences of internal/session/run_adaptive.go: its map by key, as a list
-- with one row for a key, and the set that it builds.
pub mod Scores
pub mod Built
use tmuxicate.Prelude.{
  ℕ, zero, suc, Bool, true, false, not, ◌||◌, ◌&&◌, List, [], ◌∷◌, ◌++◌, map, filter, length, ltb,
  ◌==◌, Option, none, some, Result, ok, err, msg, wrapped, ◌>>=◌, ◌>>◌, if◌then◌else◌, is_nil,
}
use tmuxicate.Prelude.Int.{ℤ, pos, negsuc, ◌+ℤ◌, ◌-ℤ◌, is_neg}
use tmuxicate.Prelude.Sorting.{sort}
use tmuxicate.Text.{Text, codes, text_eq, text_lt, is_blank}
use tmuxicate.Protocol.Enums.{TaskClass, FolderState, ReviewOutcome, task_class_text}
use tmuxicate.Protocol.Documents.{
  ChildTask, CoordinatorRun, EvidenceRef, AdaptivePreference, AdaptivePreferenceSet, Time,
}
use tmuxicate.Protocol.Validation.Routing.{
  preference_key, compare_evidence, validate_preference_set,
}
use tmuxicate.Config.{ResolvedConfig, AdaptiveConfig, ManualPreference}
use tmuxicate.Session.Adaptive.{
  AdaptiveEnv, Observation, load_completed_adaptive_runs, observe_runs,
}

new_row : Text → TaskClass → List Text → Text → AdaptivePreference
new_row key task_class domains owner = record {
  preference_key = key;
  task_class = task_class;
  normalized_domains = domains;
  preferred_owner = owner;
  historical_score = pos 0;
  manual_weight = pos 0;
  total_score = pos 0;
  evidence = [];
}

-- `row.HistoricalScore += score; row.Evidence = append(row.Evidence, evidence...)`
abbrev observed : Observation → AdaptivePreference → AdaptivePreference
observed o row = record row {
  historical_score = row.historical_score +ℤ o.score;
  evidence = row.evidence ++ o.evidence;
}

-- `rows[key]`, made if it is missing, and its update.
unfoldable pub add_observation : Observation → List AdaptivePreference → List AdaptivePreference
unfolding new_row
add_observation o [] = observed o (new_row o.key o.task_class o.domains o.owner) ∷ []
add_observation o (row ∷ rows) =
    let rest = add_observation o rows in
    if text_eq row.preference_key o.key then observed o row ∷ rows else row ∷ rest

unfoldable pub add_observations :
    List Observation → List AdaptivePreference → List AdaptivePreference
unfolding add_observation
add_observations [] rows = rows
add_observations (o ∷ os) rows = add_observations os (add_observation o rows)

abbrev pub manual_key : ManualPreference → Text
manual_key p = preference_key p.task_class p.domains p.preferred_owner

-- `manualPreferences[key] = p`: a later preference takes the place of an earlier one of its key.
unfoldable pub put_manual : ManualPreference → List ManualPreference → List ManualPreference
put_manual p [] = p ∷ []
put_manual p (q ∷ qs) =
    let rest = put_manual p qs in if text_eq (manual_key q) (manual_key p) then p ∷ qs else q ∷ rest

unfoldable pub manual_map : List ManualPreference → List ManualPreference → List ManualPreference
unfolding put_manual
manual_map [] seen = seen
manual_map (p ∷ ps) seen = manual_map ps (put_manual p seen)

abbrev weighed : ManualPreference → AdaptivePreference → AdaptivePreference
weighed p row = record row { manual_weight = row.manual_weight +ℤ p.weight }

unfoldable pub add_manual : ManualPreference → List AdaptivePreference → List AdaptivePreference
unfolding new_row
add_manual p [] = weighed p (new_row (manual_key p) p.task_class p.domains p.preferred_owner) ∷ []
add_manual p (row ∷ rows) =
    let rest = add_manual p rows in
    if text_eq row.preference_key (manual_key p) then weighed p row ∷ rows else row ∷ rest

unfoldable pub add_manuals :
    List ManualPreference → List AdaptivePreference → List AdaptivePreference
unfolding add_manual
add_manuals [] rows = rows
add_manuals (p ∷ ps) rows = add_manuals ps (add_manual p rows)

before : EvidenceRef → EvidenceRef → Bool
before a b = is_neg (compare_evidence a b)

-- The last loop: the evidence in order, and the sum. compareAdaptiveEvidence is the same function as
-- compareAdaptiveRoutingEvidenceRef of internal/protocol.
unfoldable pub finished : AdaptivePreference → AdaptivePreference
unfolding before
finished row = record row {
  evidence = sort before row.evidence;
  total_score = row.historical_score +ℤ row.manual_weight;
}

abbrev key_lt : AdaptivePreference → AdaptivePreference → Bool
key_lt a b = text_lt a.preference_key b.preference_key

-- The rows have one key each, so that sorting the keys and looking them up is sorting the rows.
unfoldable pub finish_rows : List AdaptivePreference → List AdaptivePreference
unfolding finished
finish_rows rows = map finished (sort key_lt rows)

take : {A : Type 0} → ℕ → List A → List A
take zero xs = []
take (suc n) [] = []
take (suc n) (x ∷ xs) = x ∷ take n xs

-- `if lookback > 0 && len(runs) > lookback { runs = runs[:lookback] }`
unfoldable pub look_back : {A : Type 0} → ℤ → List A → List A
unfolding take
look_back (pos zero) runs = runs
look_back (pos (suc n)) runs = take (suc n) runs
look_back (negsuc n) runs = runs

abbrev preference_set : Time → Text → ℤ → List AdaptivePreference → AdaptivePreferenceSet
preference_set now coordinator lookback_runs rows = record {
  coordinator = coordinator;
  updated_at = now;
  lookback_runs = lookback_runs;
  preferences = rows;
}

unfoldable pub build_adaptive_routing_preferences :
    AdaptiveEnv → ResolvedConfig → Text → Result AdaptivePreferenceSet
unfolding load_completed_adaptive_runs look_back observe_runs add_observations manual_map
    add_manuals finish_rows
build_adaptive_routing_preferences env cfg coordinator =
    let adaptive = cfg.config.routing.adaptive in
    let set = preference_set env.now coordinator adaptive.lookback_runs in
    if is_blank coordinator
    then err (msg "coordinator is required")
    else if not adaptive.enabled
    then ok (set [])
    else do
      runs ← load_completed_adaptive_runs env coordinator
      observations ← observe_runs env adaptive (look_back adaptive.lookback_runs runs)
      let rows =
          add_manuals (manual_map adaptive.manual_preferences []) (add_observations observations [])
      let built = set (finish_rows rows)
      wrapped "validate adaptive routing preference set" (validate_preference_set built)
      ok built
