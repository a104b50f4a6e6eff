-- ===== src/Session/Routing/Rank.antt =====
-- rankCandidates of internal/session/run.go.
use mathlib.Core.List.{Perm}
use tmuxicate.Prelude.{◌≡◌, List, [], ◌∷◌, All, All-map, false, arith, ◌≤◌}
use tmuxicate.Prelude.Int.{int_lt}
use tmuxicate.Prelude.Sorting.{IsOrder, IsSorted, sort-IsSorted, sort-perm}
use tmuxicate.Session.Routing.{Candidate, ranks_before, rank_candidates}

rank_order : IsOrder ranks_before
unfolding ranks_before
rank_order = record { asym = λ x y h. ground arith; trans = λ x y z h k. ground arith }

pub rank_candidates-IsSorted : (cs : List Candidate) → IsSorted ranks_before (rank_candidates cs)
unfolding rank_candidates
rank_candidates-IsSorted cs = sort-IsSorted ranks_before rank_order cs

-- `b` may stand behind `a`: its priority is not higher, and with the same priority it does not stand
-- earlier in the configuration.
pub record Follows (a b : Candidate) : Type 0 where
  pub priority : int_lt a.agent.route_priority b.agent.route_priority ≡ false
  pub index : a.agent.route_priority ≡ b.agent.route_priority → a.index ≤ b.index

abbrev pub Descends : List Candidate → Type 0
Descends [] = Unit
Descends (c ∷ cs) = All (Follows c) cs × Descends cs

not_before-Follows : (a b : Candidate) → ranks_before b a ≡ false → Follows a b
unfolding ranks_before
not_before-Follows a b h = record { priority = ground arith; index = λ e. ground arith }

sorted-Descends : (cs : List Candidate) → IsSorted ranks_before cs → Descends cs
sorted-Descends [] h = tt
sorted-Descends (c ∷ cs) h = (All-map (not_before-Follows c) cs h.0, sorted-Descends cs h.1)

-- rankCandidates permutes the candidates, and no candidate comes after one of lower priority, or
-- after one of the same priority that stands later in the configuration.
pub rank_candidates-Descends :
    (cs : List Candidate) → Perm (rank_candidates cs) cs × Descends (rank_candidates cs)
unfolding rank_candidates
rank_candidates-Descends cs =
    (sort-perm ranks_before cs, sorted-Descends (rank_candidates cs) (rank_candidates-IsSorted cs))
