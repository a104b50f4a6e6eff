-- ===== src/Session/Preferences/Built.antt =====
-- What BuildAdaptiveRoutingPreferences of internal/session/run_adaptive.go returns.
use tmuxicate.Prelude.{◌≡◌, List}
use tmuxicate.Prelude.Int.{pos, ◌+ℤ◌}
use tmuxicate.Text.{Text}
use tmuxicate.Protocol.Documents.{AdaptivePreference}
use tmuxicate.Session.Adaptive.{Observation}
use tmuxicate.Session.Preferences.Scores.{total_score_of}

-- The scores of a row against the observations.
abbrev pub IsScored : List Observation → AdaptivePreference → Type 0
IsScored os p =
    (p.historical_score ≡ total_score_of p.preference_key os (pos 0))
    × (p.total_score ≡ p.historical_score +ℤ p.manual_weight)
