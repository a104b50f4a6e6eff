-- ===== src/Session/Preferences/Scores.antt =====
-- The rows of BuildAdaptiveRoutingPreferences against sums over the observations.
use mathlib.Core.List.{Memᴰ}
use tmuxicate.Prelude.{
  ◌≡◌, ◌≢◌, refl, ap, ◌∙◌, List, [], ◌∷◌, map, if◌then◌else◌, arith, Bool-cases, inl, inr, All,
  All-mem,
}
use tmuxicate.Prelude.Int.{ℤ, pos, ◌+ℤ◌}
use tmuxicate.Text.{Text, text_eq, text_eq→, text_eq_refl, text_eq_iff}
use tmuxicate.Protocol.Domains.Loop.{Distinct}
use tmuxicate.Config.{ManualPreference}
use tmuxicate.Protocol.Documents.{AdaptivePreference}
use tmuxicate.Session.Adaptive.{Observation}
use tmuxicate.Session.Preferences.{
  add_observation, add_observations, new_row, add_manual, add_manuals, manual_key,
}

-- The score of the row of a key; 0 without a row.
unfoldable pub score_at : Text → List AdaptivePreference → ℤ
score_at key [] = pos 0
score_at key (row ∷ rows) =
    let rest = score_at key rows in
    if text_eq row.preference_key key then row.historical_score else rest

-- The observations of a key, summed up in their order onto a first score.
unfoldable pub total_score_of : Text → List Observation → ℤ → ℤ
total_score_of key [] score = score
total_score_of key (o ∷ os) score =
    total_score_of key os (if text_eq o.key key then score +ℤ o.score else score)

add_observation-score :
    (key : Text) (o : Observation) (rows : List AdaptivePreference)
    → score_at key (add_observation o rows)
      ≡ (if text_eq o.key key then score_at key rows +ℤ o.score else score_at key rows)
unfolding add_observation score_at new_row
add_observation-score key o [] = ground arith
add_observation-score key o (row ∷ rows) = ground (
  arith,
  add_observation-score key o rows,
  text_eq_iff row.preference_key key,
  text_eq_iff row.preference_key o.key,
  text_eq_iff o.key key,
)

-- The score of a key is the sum over the observations of the key.
pub add_observations-score :
    (key : Text) (os : List Observation) (rows : List AdaptivePreference)
    → score_at key (add_observations os rows) ≡ total_score_of key os (score_at key rows)
unfolding add_observations total_score_of
add_observations-score key [] rows = refl
add_observations-score key (o ∷ os) rows =
    add_observations-score key os (add_observation o rows)
    ∙ ap (total_score_of key os) (add_observation-score key o rows)

add_manual-score :
    (key : Text) (p : ManualPreference) (rows : List AdaptivePreference)
    → score_at key (add_manual p rows) ≡ score_at key rows
unfolding add_manual score_at new_row
add_manual-score key p [] = ground arith
add_manual-score key p (row ∷ rows) = ground (arith, add_manual-score key p rows)

pub add_manuals-score :
    (key : Text) (ps : List ManualPreference) (rows : List AdaptivePreference)
    → score_at key (add_manuals ps rows) ≡ score_at key rows
unfolding add_manuals
add_manuals-score key [] rows = refl
add_manuals-score key (p ∷ ps) rows =
    add_manuals-score key ps (add_manual p rows) ∙ add_manual-score key p rows

abbrev pub keys : List AdaptivePreference → List Text
keys rows = map (λ r. r.preference_key) rows

add_observation-fresh :
    (key : Text) (o : Observation) (rows : List AdaptivePreference)
    → key ≢ o.key
    → All (λ k. key ≢ k) (keys rows)
    → All (λ k. key ≢ k) (keys (add_observation o rows))
unfolding add_observation new_row
add_observation-fresh key o [] apart h = (apart, tt)
add_observation-fresh key o (row ∷ rows) apart h =
    elim (Bool-cases (text_eq row.preference_key o.key)) [
      | inl e ↦ rw e h
      | inr e ↦ rw e (h.0, add_observation-fresh key o rows apart h.1)
    ]

add_observation-Distinct :
    (o : Observation) (rows : List AdaptivePreference)
    → Distinct (keys rows)
    → Distinct (keys (add_observation o rows))
unfolding add_observation new_row
add_observation-Distinct o [] h = (tt, tt)
add_observation-Distinct o (row ∷ rows) h = elim (Bool-cases (text_eq row.preference_key o.key)) [
  | inl e ↦ rw e h
  | inr e ↦ rw e (
    add_observation-fresh row.preference_key o rows
        (λ q. cc ((text_eq_iff row.preference_key o.key).1 q, e)) h.0,
    add_observation-Distinct o rows h.1,
  )
]

pub add_observations-Distinct :
    (os : List Observation) (rows : List AdaptivePreference)
    → Distinct (keys rows)
    → Distinct (keys (add_observations os rows))
unfolding add_observations
add_observations-Distinct [] rows h = h
add_observations-Distinct (o ∷ os) rows h =
    add_observations-Distinct os (add_observation o rows) (add_observation-Distinct o rows h)

add_manual-fresh :
    (key : Text) (p : ManualPreference) (rows : List AdaptivePreference)
    → key ≢ manual_key p
    → All (λ k. key ≢ k) (keys rows)
    → All (λ k. key ≢ k) (keys (add_manual p rows))
unfolding add_manual new_row
add_manual-fresh key p [] apart h = (apart, tt)
add_manual-fresh key p (row ∷ rows) apart h =
    elim (Bool-cases (text_eq row.preference_key (manual_key p))) [
      | inl e ↦ rw e h
      | inr e ↦ rw e (h.0, add_manual-fresh key p rows apart h.1)
    ]

add_manual-Distinct :
    (p : ManualPreference) (rows : List AdaptivePreference)
    → Distinct (keys rows)
    → Distinct (keys (add_manual p rows))
unfolding add_manual new_row
add_manual-Distinct p [] h = (tt, tt)
add_manual-Distinct p (row ∷ rows) h =
    elim (Bool-cases (text_eq row.preference_key (manual_key p))) [
      | inl e ↦ rw e h
      | inr e ↦ rw e (
        add_manual-fresh row.preference_key p rows
            (λ q. cc ((text_eq_iff row.preference_key (manual_key p)).1 q, e)) h.0,
        add_manual-Distinct p rows h.1,
      )
    ]

pub add_manuals-Distinct :
    (ps : List ManualPreference) (rows : List AdaptivePreference)
    → Distinct (keys rows)
    → Distinct (keys (add_manuals ps rows))
unfolding add_manuals
add_manuals-Distinct [] rows h = h
add_manuals-Distinct (p ∷ ps) rows h =
    add_manuals-Distinct ps (add_manual p rows) (add_manual-Distinct p rows h)

key_mem :
    (rows : List AdaptivePreference) {row : AdaptivePreference}
    → Memᴰ row rows
    → Memᴰ row.preference_key (keys rows)
key_mem [] m = elim m [ ]
key_mem (r ∷ rows) (Memᴰ.head e) = Memᴰ.head (ap (λ x. x.preference_key) e)
key_mem (r ∷ rows) (Memᴰ.tail m) = Memᴰ.tail (key_mem rows m)

-- In rows with distinct keys, a row has the score of its key.
pub score_at-mem :
    (rows : List AdaptivePreference) {row : AdaptivePreference}
    → Distinct (keys rows)
    → Memᴰ row rows
    → score_at row.preference_key rows ≡ row.historical_score
unfolding score_at
score_at-mem [] h m = elim m [ ]
score_at-mem (r ∷ rows) {row} h (Memᴰ.head e) = rw e (rw (text_eq_refl r.preference_key) refl)
score_at-mem (r ∷ rows) {row} h (Memᴰ.tail m) =
    elim (Bool-cases (text_eq r.preference_key row.preference_key)) [
      | inl e ↦ absurd (
          All-mem (λ k. r.preference_key ≢ k) (keys rows) h.0 (key_mem rows m)
            (text_eq→ r.preference_key row.preference_key e))
      | inr e ↦ rw e (score_at-mem rows h.1 m)
    ]
