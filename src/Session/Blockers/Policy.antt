-- ===== src/Session/Blockers/Policy.antt =====
-- The decisions of the blocker policy of internal/session/task_cmd.go.
use tmuxicate.Prelude.{◌≡◌, ◌↔◌, true, arith}
use tmuxicate.Prelude.Int.{ℤ, int_lt}
use tmuxicate.Protocol.Enums.{WaitKind, BlockKind, BlockerAction}
use tmuxicate.Session.Blockers.{wait_action, block_action, select_blocker_action}

-- An automatic reroute is selected for a block of the kind reroute_needed below the ceiling, and for
-- nothing else.
pub select_blocker_action-reroute_iff :
    (w : WaitKind) (b : BlockKind) (count : ℤ) (ceiling : ℤ)
    → (select_blocker_action w b count ceiling ≡ BlockerAction.reroute)
      ↔ ((w ≡ WaitKind.unset) × (b ≡ BlockKind.reroute_needed) × (int_lt count ceiling ≡ true))
unfolding select_blocker_action wait_action block_action
select_blocker_action-reroute_iff w b count ceiling = (λ h. ground arith, λ h. ground arith)
