-- ===== src/Session/Blockers/Bound.antt =====
-- Histories of declarations on one source task, internal/session/task_cmd.go, and their reroutes.
use tmuxicate.Prelude.{
  ok_value, ℕ, suc, ◌≤◌, ◌<◌, ◌≡◌, refl, sym, ap, subst, ◌∙◌, ◌^◌, Bool, true, false, ◌++◌, List,
  [], ◌∷◌, Option, none, some, Result, ok, err, if◌then◌else◌, All, arith,
}
use tmuxicate.Prelude.Int.{ℤ, pos, int_lt, inc, inc-pos}
use tmuxicate.Text.{Text}
use tmuxicate.Protocol.Enums.{WaitKind, BlockKind, BlockerAction}
use tmuxicate.Protocol.Documents.{BlockerCase, BlockerAttempt, ChildTask, Time}
use tmuxicate.Session.Blockers.{
  Context, Declaration, wait_action, block_action, select_blocker_action, starting_case,
  resolve_blocker_ceiling, prepare_blocker_case, wait_kind_of, block_kind_of, reroute_attempt,
  record_action, record_blocker,
}

-- One call of recordCoordinatorBlocker, with what rerouteBlockerTask returns in it.
pub record Event : Type 0 where
  pub context : Context
  pub declaration : Declaration
  pub rerouted : Result ChildTask
  pub reason : Text
  pub now : Time

-- The case is persisted when the call succeeds.
abbrev persisted : Option BlockerCase → Result BlockerCase → Option BlockerCase
persisted before (ok after) = some after
persisted before (err e) = before

abbrev pub declare_in : Option BlockerCase → Event → Option BlockerCase
declare_in stored e = persisted stored (
    record_blocker (record e.context { blocker_case = stored }) e.declaration e.rerouted e.reason
      e.now)

-- The stored case after a history of calls.
unfoldable pub replay : Option BlockerCase → List Event → Option BlockerCase
replay stored [] = stored
replay stored (e ∷ es) = replay (declare_in stored e) es

is_reroute : BlockerAction → Bool
is_reroute BlockerAction.reroute = true
is_reroute _ = false

-- How many attempts are reroutes.
unfoldable pub count_reroutes : List BlockerAttempt → ℕ
unfolding is_reroute
count_reroutes [] = 0
count_reroutes (a ∷ xs) =
    let rest = count_reroutes xs in if is_reroute a.action then suc rest else rest

count_reroutes-append :
    (xs : List BlockerAttempt) (t : ChildTask) (reason : Text) (now : Time)
    → count_reroutes (xs ++ reroute_attempt t reason now ∷ []) ≡ suc (count_reroutes xs)
unfolding count_reroutes is_reroute
count_reroutes-append [] t reason now = refl
count_reroutes-append (a ∷ xs) t reason now =
    let ih = count_reroutes-append xs t reason now in ground arith

-- The counter agrees with the attempts that are on record, and is at most `m`.
pub record CountsUpTo (m : ℕ) (doc : BlockerCase) : Type 0 where
  pub counted : doc.reroute_count ≡ pos (count_reroutes doc.attempts)
  pub bound : count_reroutes doc.attempts ≤ m

abbrev pub StoredUpTo : ℕ → Option BlockerCase → Type 0
StoredUpTo m none = Unit
StoredUpTo m (some doc) = CountsUpTo m doc

-- The ceiling that the configuration of a call gives.
abbrev pub ceiling_of : Event → ℤ
ceiling_of e = resolve_blocker_ceiling e.context.cfg e.context.source_task

-- A reroute is only selected below the ceiling.
select-reroute :
    (w : WaitKind) (b : BlockKind) (count : ℤ) (ceiling : ℤ)
    → select_blocker_action w b count ceiling ≡ BlockerAction.reroute
    → int_lt count ceiling ≡ true
unfolding select_blocker_action wait_action block_action
select-reroute w b count ceiling h = ground arith

prepared :
    (m : ℕ) (c : Context) (d : Declaration) (reason : Text) (now : Time)
    (stored : Option BlockerCase)
    → c.blocker_case ≡ stored
    → StoredUpTo m stored
    → CountsUpTo m (prepare_blocker_case c d reason now)
unfolding prepare_blocker_case starting_case count_reroutes
prepared m c d reason now none e h = rw e (record { counted = refl; bound = omega arith })
prepared m c d reason now (some doc) e h = rw e (record { counted = h.counted; bound = h.bound })

acted :
    (m : ℕ) (a : BlockerAction) (doc : BlockerCase) (rerouted : Result ChildTask) (reason : Text)
    (now : Time) (after : BlockerCase)
    → CountsUpTo m doc
    → (a ≡ BlockerAction.reroute → count_reroutes doc.attempts < m)
    → m < 2 ^ 63
    → record_action a doc rerouted reason now ≡ ok after
    → CountsUpTo m after
unfolding record_action
acted m BlockerAction.watch doc rerouted reason now after v below h eq =
    subst (CountsUpTo m) (ok_value eq) (record { counted = v.counted; bound = v.bound })
acted m BlockerAction.clarification_request doc rerouted reason now after v below h eq =
    subst (CountsUpTo m) (ok_value eq) (record { counted = v.counted; bound = v.bound })
acted m BlockerAction.escalate doc rerouted reason now after v below h eq =
    subst (CountsUpTo m) (ok_value eq) (record { counted = v.counted; bound = v.bound })
acted m BlockerAction.reroute doc (ok task) reason now after v below h eq =
    let le = below refl in
    subst (CountsUpTo m) (ok_value eq) (record {
      counted =
          ap inc v.counted
          ∙ inc-pos _ (omega arith)
          ∙ ap pos (sym (count_reroutes-append doc.attempts task reason now));
      bound = rw (count_reroutes-append doc.attempts task reason now) (omega arith);
    })
acted m BlockerAction.reroute doc (err e) reason now after v below h eq = cc
acted m (BlockerAction.other t) doc rerouted reason now after v below h eq = cc

-- The action that is selected for a case within the bound.
selected_below :
    (m : ℕ) (c : Context) (d : Declaration) (reason : Text) (now : Time)
    → CountsUpTo m (prepare_blocker_case c d reason now)
    → int_lt (pos m) (resolve_blocker_ceiling c.cfg c.source_task) ≡ false
    → (prepare_blocker_case c d reason now).selected_action ≡ BlockerAction.reroute
    → count_reroutes (prepare_blocker_case c d reason now).attempts < m
unfolding prepare_blocker_case
selected_below m c d reason now v le h =
    let lt = select-reroute (wait_kind_of d) (block_kind_of d) _ _ h in
    let same = v.counted in ground arith

recorded :
    (m : ℕ) (c : Context) (d : Declaration) (rerouted : Result ChildTask) (reason : Text)
    (now : Time)
    → m < 2 ^ 63
    → int_lt (pos m) (resolve_blocker_ceiling c.cfg c.source_task) ≡ false
    → StoredUpTo m c.blocker_case
    → (after : BlockerCase) → record_blocker c d rerouted reason now ≡ ok after
    → CountsUpTo m after
unfolding record_blocker
recorded m c d rerouted reason now h le v after eq =
    let p = prepared m c d reason now c.blocker_case refl v in
    acted m _ _ rerouted reason now after p (selected_below m c d reason now p le) h eq

persisted_lem :
    (m : ℕ) (stored : Option BlockerCase) (r : Result BlockerCase)
    → ((after : BlockerCase) → r ≡ ok after → CountsUpTo m after)
    → StoredUpTo m stored
    → StoredUpTo m (persisted stored r)
persisted_lem m stored (ok after) f v = f after refl
persisted_lem m stored (err e) f v = v

declared :
    (m : ℕ) (stored : Option BlockerCase) (e : Event)
    → m < 2 ^ 63
    → int_lt (pos m) (ceiling_of e) ≡ false
    → StoredUpTo m stored
    → StoredUpTo m (declare_in stored e)
declared m stored e h le v =
    persisted_lem m stored _
      (recorded m (record e.context { blocker_case = stored }) e.declaration e.rerouted e.reason
        e.now h le v)
      v

-- However the declarations, failures and outcomes of reroutes come: when `m` is below 2 ^ 63, no call
-- sees a ceiling above it and the history starts without a case or within the bound, the stored case
-- never has more than `m` reroute attempts, and its reroute_count is their number.
pub replay-CountsUpTo :
    (m : ℕ) (stored : Option BlockerCase) (es : List Event)
    → m < 2 ^ 63
    → All (λ e. int_lt (pos m) (ceiling_of e) ≡ false) es
    → StoredUpTo m stored
    → StoredUpTo m (replay stored es)
unfolding replay
replay-CountsUpTo m stored [] h le v = v
replay-CountsUpTo m stored (e ∷ es) h le v =
    replay-CountsUpTo m (declare_in stored e) es h le.1 (declared m stored e h le.0 v)
