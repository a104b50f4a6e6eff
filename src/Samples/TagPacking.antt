-- ===== src/Samples/TagPacking.antt =====
-- Formats for lists and for the enumerations of a blocker case.
use tmuxicate.Prelude.{ℕ, zero, suc, ◌≡◌, refl, ap, List, [], ◌∷◌, Option, none, some, length}
use tmuxicate.Text.{Text}
use tmuxicate.Protocol.Enums.{
  WaitKind, BlockKind, DeclaredState, BlockerAction, BlockerStatus, ResolutionAction,
}
use tmuxicate.Samples.Packing.{Packing, numbers, texts, pairs}

mapped : {A B : Type 0} → (A → B) → Option (A × Text) → Option (B × Text)
mapped f none = none
mapped f (some r) = some (f r.0, r.1)

-- A packing of `B` from one of `A` that stands for it.
pub via :
    {A B : Type 0}
    → Packing A
    → (to : B → A) (from : A → B) → ((b : B) → from (to b) ≡ b)
    → Packing B
unfolding mapped
via p to from back = record {
  put = λ b rest. p.put (to b) rest;
  get = λ t. mapped from (p.get t);
  law = λ b rest. rw (p.law (to b) rest) (ap (λ x. some (x, rest)) (back b));
}

module _ {A : Type 0} (p : Packing A) where
  put_all : List A → Text → Text
  put_all [] rest = rest
  put_all (a ∷ as') rest = p.put a (put_all as' rest)

  cons_all : Option (A × Text) → (Text → Option (List A × Text)) → Option (List A × Text)
  cons_all none later = none
  cons_all (some r) later = mapped (λ rest. r.0 ∷ rest) (later r.1)

  get_all : ℕ → Text → Option (List A × Text)
  unfolding cons_all mapped
  get_all zero t = some ([], t)
  get_all (suc n) t = cons_all (p.get t) (get_all n)

  all-law : (xs : List A) (rest : Text) → get_all (length xs) (put_all xs rest) ≡ some (xs, rest)
  unfolding get_all put_all cons_all mapped
  all-law [] rest = refl
  all-law (a ∷ xs) rest = rw (p.law a (put_all xs rest)) (rw (all-law xs rest) refl)

  get_list : Text → Option (List A × Text)
  get_list [] = none
  get_list (n ∷ t) = get_all n t

  pub lists : Packing (List A)
  unfolding get_list
  lists = record { put = λ xs rest. length xs ∷ put_all xs rest; get = get_list; law = all-law }

-- An enumeration as a number with a text.
pub tags : Packing (ℕ × Text)
tags = pairs numbers texts

wait_tag : WaitKind → ℕ × Text
wait_tag WaitKind.unset = (0, [])
wait_tag WaitKind.dependency_reply = (1, [])
wait_tag WaitKind.external_event = (2, [])
wait_tag (WaitKind.other t) = (3, t)

wait_of_tag : ℕ × Text → WaitKind
wait_of_tag (zero, t) = WaitKind.unset
wait_of_tag (suc zero, t) = WaitKind.dependency_reply
wait_of_tag (suc (suc zero), t) = WaitKind.external_event
wait_of_tag (n, t) = WaitKind.other t

wait_back : (k : WaitKind) → wait_of_tag (wait_tag k) ≡ k
unfolding wait_of_tag wait_tag
wait_back WaitKind.unset = refl
wait_back WaitKind.dependency_reply = refl
wait_back WaitKind.external_event = refl
wait_back (WaitKind.other t) = refl

pub wait_packing : Packing WaitKind
wait_packing = via tags wait_tag wait_of_tag wait_back

block_tag : BlockKind → ℕ × Text
block_tag BlockKind.unset = (0, [])
block_tag BlockKind.agent_clarification = (1, [])
block_tag BlockKind.reroute_needed = (2, [])
block_tag BlockKind.human_decision = (3, [])
block_tag BlockKind.unsupported = (4, [])
block_tag (BlockKind.other t) = (5, t)

block_of_tag : ℕ × Text → BlockKind
block_of_tag (zero, t) = BlockKind.unset
block_of_tag (suc zero, t) = BlockKind.agent_clarification
block_of_tag (suc (suc zero), t) = BlockKind.reroute_needed
block_of_tag (suc (suc (suc zero)), t) = BlockKind.human_decision
block_of_tag (suc (suc (suc (suc zero))), t) = BlockKind.unsupported
block_of_tag (n, t) = BlockKind.other t

block_back : (k : BlockKind) → block_of_tag (block_tag k) ≡ k
unfolding block_of_tag block_tag
block_back BlockKind.unset = refl
block_back BlockKind.agent_clarification = refl
block_back BlockKind.reroute_needed = refl
block_back BlockKind.human_decision = refl
block_back BlockKind.unsupported = refl
block_back (BlockKind.other t) = refl

pub block_packing : Packing BlockKind
block_packing = via tags block_tag block_of_tag block_back

declared_tag : DeclaredState → ℕ × Text
declared_tag DeclaredState.wait = (0, [])
declared_tag DeclaredState.block = (1, [])
declared_tag (DeclaredState.other t) = (2, t)

declared_of_tag : ℕ × Text → DeclaredState
declared_of_tag (zero, t) = DeclaredState.wait
declared_of_tag (suc zero, t) = DeclaredState.block
declared_of_tag (n, t) = DeclaredState.other t

declared_back : (k : DeclaredState) → declared_of_tag (declared_tag k) ≡ k
unfolding declared_of_tag declared_tag
declared_back DeclaredState.wait = refl
declared_back DeclaredState.block = refl
declared_back (DeclaredState.other t) = refl

pub declared_packing : Packing DeclaredState
declared_packing = via tags declared_tag declared_of_tag declared_back

action_tag : BlockerAction → ℕ × Text
action_tag BlockerAction.watch = (0, [])
action_tag BlockerAction.clarification_request = (1, [])
action_tag BlockerAction.reroute = (2, [])
action_tag BlockerAction.escalate = (3, [])
action_tag (BlockerAction.other t) = (4, t)

action_of_tag : ℕ × Text → BlockerAction
action_of_tag (zero, t) = BlockerAction.watch
action_of_tag (suc zero, t) = BlockerAction.clarification_request
action_of_tag (suc (suc zero), t) = BlockerAction.reroute
action_of_tag (suc (suc (suc zero)), t) = BlockerAction.escalate
action_of_tag (n, t) = BlockerAction.other t

action_back : (k : BlockerAction) → action_of_tag (action_tag k) ≡ k
unfolding action_of_tag action_tag
action_back BlockerAction.watch = refl
action_back BlockerAction.clarification_request = refl
action_back BlockerAction.reroute = refl
action_back BlockerAction.escalate = refl
action_back (BlockerAction.other t) = refl

pub action_packing : Packing BlockerAction
action_packing = via tags action_tag action_of_tag action_back

status_tag : BlockerStatus → ℕ × Text
status_tag BlockerStatus.active = (0, [])
status_tag BlockerStatus.escalated = (1, [])
status_tag BlockerStatus.resolved = (2, [])
status_tag (BlockerStatus.other t) = (3, t)

status_of_tag : ℕ × Text → BlockerStatus
status_of_tag (zero, t) = BlockerStatus.active
status_of_tag (suc zero, t) = BlockerStatus.escalated
status_of_tag (suc (suc zero), t) = BlockerStatus.resolved
status_of_tag (n, t) = BlockerStatus.other t

status_back : (k : BlockerStatus) → status_of_tag (status_tag k) ≡ k
unfolding status_of_tag status_tag
status_back BlockerStatus.active = refl
status_back BlockerStatus.escalated = refl
status_back BlockerStatus.resolved = refl
status_back (BlockerStatus.other t) = refl

pub status_packing : Packing BlockerStatus
status_packing = via tags status_tag status_of_tag status_back

resolution_tag : ResolutionAction → ℕ × Text
resolution_tag ResolutionAction.manual_reroute = (0, [])
resolution_tag ResolutionAction.partial_replan = (1, [])
resolution_tag ResolutionAction.clarify = (2, [])
resolution_tag ResolutionAction.dismiss = (3, [])
resolution_tag (ResolutionAction.other t) = (4, t)

resolution_of_tag : ℕ × Text → ResolutionAction
resolution_of_tag (zero, t) = ResolutionAction.manual_reroute
resolution_of_tag (suc zero, t) = ResolutionAction.partial_replan
resolution_of_tag (suc (suc zero), t) = ResolutionAction.clarify
resolution_of_tag (suc (suc (suc zero)), t) = ResolutionAction.dismiss
resolution_of_tag (n, t) = ResolutionAction.other t

resolution_back : (k : ResolutionAction) → resolution_of_tag (resolution_tag k) ≡ k
unfolding resolution_of_tag resolution_tag
resolution_back ResolutionAction.manual_reroute = refl
resolution_back ResolutionAction.partial_replan = refl
resolution_back ResolutionAction.clarify = refl
resolution_back ResolutionAction.dismiss = refl
resolution_back (ResolutionAction.other t) = refl

pub resolution_packing : Packing ResolutionAction
resolution_packing = via tags resolution_tag resolution_of_tag resolution_back
