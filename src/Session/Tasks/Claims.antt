-- ===== src/Session/Tasks/Claims.antt =====
-- The claims of TaskAccept of internal/session/task_cmd.go.
use tmuxicate.Prelude.{
  ◌≡◌, refl, sym, ap, ◌∙◌, true, false, not, Bool-cases, inl, inr, Result, Error, ok, err, some,
  subst, reject_if, reject_if-eq-ok, ok_value, msg,
}
use tmuxicate.Prelude.Int.{inc}
use tmuxicate.Text.{Text}
use tmuxicate.Protocol.Enums.{FolderState}
use tmuxicate.Protocol.Documents.{Receipt, Envelope, Time}
use tmuxicate.Mailbox.Files.{Files, FilePath}
use tmuxicate.Mailbox.Io.{World, Io, ◌>>=◌, ◌>>◌, lift}
use tmuxicate.Config.{ResolvedConfig}
use tmuxicate.Mailbox.Store.{read_receipt, update_receipt}
use tmuxicate.Mailbox.Store.Effects.{result_rule, quiet_result, lift-result}
use tmuxicate.Mailbox.Store.Held.{Held, update-Held, read_receipt-value}
use tmuxicate.Session.Tasks.{
  TaskServices, ReadResult, claim, claim_if, claimed, claimed_by_another, is_claimable_kind,
  accept_event, is_unread, read_msg, task_accept, resolve_target_agent,
}
use tmuxicate.Session.Tasks.Accepted.{WritesNoMail, read_receipt-files}
use tmuxicate.Session.Tasks.Reads.{ReadClaimed, OnFile, read_msg-ReadClaimed}

-- The receipt with a claim of the agent at the time.
abbrev pub taken : Time → Text → Receipt → Receipt
taken now agent r = record r {
  claimed_by = some agent;
  claimed_at = some now;
  revision = inc r.revision;
}

claimed-taken :
    (now : Time) (agent : Text) (r : Receipt)
    → claimed_by_another agent (claimed now agent r).claimed_by ≡ false
    → claimed now agent r ≡ taken now agent r
claimed-taken now agent r h = elim (Bool-cases (claimed_by_another agent r.claimed_by)) [
  | inl e ↦ let no : claimed_by_another agent r.claimed_by ≡ false = rw e at h in cc
  | inr e ↦ rw e refl
]

module _ (services : TaskServices) (agent id : Text) (p : FilePath) (folder : FolderState)
    (r : Receipt) where
  -- Where a call has succeeded, the receipt is claimed by the agent.
  abbrev pub Taken : Result (Unit {0}) → Files → Type 0
  Taken result files =
      result ≡ ok tt → Held services.receipts agent id p folder (taken services.now agent r) files

  pub failed-Taken : (files : Files) (e : Error) → Taken (err e) files
  failed-Taken files e h = cc

  check-Taken :
      (a : Receipt) (v : World)
      → let r' = claimed services.now agent r in
        a ≡ r'
        → Held services.receipts agent id p folder r' v.files
        → Taken
            (reject_if (claimed_by_another agent a.claimed_by) (msg "message already claimed"))
            v.files
  check-Taken a v same h good =
      let mine =
        ap (λ x. claimed_by_another agent x.claimed_by) (sym same)
        ∙ reject_if-eq-ok (claimed_by_another agent a.claimed_by) _ good in
      subst (λ x. Held services.receipts agent id p folder x v.files)
        (claimed-taken services.now agent r mine) h

  pub claim-Taken :
      (w : World)
      → Held services.receipts agent id p folder r w.files
      → Taken (claim services agent id w).0 (claim services agent id w).1.files
  unfolding claim
  claim-Taken w h =
      let fn = claimed services.now agent in
      let after = update-Held services.receipts agent id p folder fn r w h in
      result_rule Taken (update_receipt services.receipts agent id fn) _ w
        (λ e v q. failed-Taken v.files e)
        λ _ v q.
          let held =
            subst (λ t. t.0 ≡ ok tt → Held services.receipts agent id p folder (fn r) t.1.files) q
              after refl in
          quiet_result Taken (read_receipt services.receipts agent id) _ v
            (read_receipt-files services agent id v) (failed-Taken v.files)
            λ a u e same.
              check-Taken a u
                (read_receipt-value services.receipts agent id p folder (fn r) v u held e)
                (subst (Held services.receipts agent id p folder (fn r)) (sym same) held)

module _ (services : TaskServices) (quiet : WritesNoMail services) (target agent id : Text)
    (stable : (w v : World) (cfg : ResolvedConfig)
      → services.load_config w ≡ (ok cfg, v)
      → (resolve_target_agent cfg target ≡ ok agent) × (resolve_target_agent cfg agent ≡ ok agent))
    (p : FilePath) (folder : FolderState) (r : Receipt) where
  abbrev Claims : Result (Unit {0}) → Files → Type 0
  Claims = Taken services agent id p folder r

  abbrev Unclaimed : Files → Type 0
  Unclaimed = Held services.receipts agent id p folder r

  -- The steps of TaskAccept behind the resolution of the agent.
  abbrev accepting : Text → Io (Unit {0})
  accepting name = do
    result ← read_msg services name id
    lift (reject_if (not (is_claimable_kind result.kind)) (msg "message is not a task"))
    claim_if services result.requires_claim name id
    services.append_event name (accept_event services.now name id result.thread)

  claim_then-Taken :
      (a : ReadResult) (v : World)
      → a.requires_claim ≡ true
      → Unclaimed v.files
      → let end =
          (do
            claim_if services a.requires_claim agent id
            services.append_event agent (accept_event services.now agent id a.thread))
            v in
        Claims end.0 end.1.files
  unfolding claim_if
  claim_then-Taken a v required h =
      let after = claim-Taken services agent id p folder r v h in
      rw required (
        result_rule Claims (claim services agent id) _ v
          (λ e u q. failed-Taken services agent id p folder r u.files e)
          λ x u q good.
            subst (Held services.receipts agent id p folder (taken services.now agent r))
              (sym (quiet.append_event-files agent _ u))
              (subst (λ t. Claims t.0 t.1.files) q after refl))

  accepting-Taken :
      (v : World) (env : Envelope)
      → is_unread r.folder_state ≡ false
      → env.requires_claim ≡ true
      → OnFile services id env v.files
      → Unclaimed v.files
      → Claims (accepting agent v).0 (accepting agent v).1.files
  accepting-Taken v env read required stored h =
      let before =
        read_msg-ReadClaimed services quiet target agent id stable p folder r v env read required
          stored h in
      result_rule Claims (read_msg services agent id) _ v
        (λ e u q. failed-Taken services agent id p folder r u.files e)
        λ a u q.
          let (same, good) = subst (λ t. ReadClaimed v.files t.0 t.1.files) q before in
          quiet_result Claims (lift (reject_if (not (is_claimable_kind a.kind)) _)) _ u refl
            (failed-Taken services agent id p folder r u.files)
            λ _ u1 _ s1. claim_then-Taken a u1 (good a refl) (subst Unclaimed (sym (s1 ∙ same)) h)

  -- On a message that requires a claim, for an agent whose receipt of it has been read, a TaskAccept
  -- that succeeds leaves the receipt in its place as it was but for
  -- the claim: it is claimed by that agent at the time of the call, with the next revision. Assumed is
  -- that the configuration resolves the target and the agent to the agent.
  pub task_accept-claims :
      (w : World) (env : Envelope)
      → is_unread r.folder_state ≡ false
      → env.requires_claim ≡ true
      → OnFile services id env w.files
      → Held services.receipts agent id p folder r w.files
      → (task_accept services target id w).0 ≡ ok tt
      → Held services.receipts agent id p folder
          (taken services.now agent r)
          (task_accept services target id w).1.files
  unfolding task_accept
  task_accept-claims w env read required stored h =
      quiet_result Claims services.load_config _ w (quiet.load_config-files w)
        (failed-Taken services agent id p folder r w.files)
        λ cfg w1 e1 s1.
          quiet_result Claims (lift (resolve_target_agent cfg target)) _ w1 refl
            (failed-Taken services agent id p folder r w1.files)
            λ name w2 e2 s2.
              subst (λ n. Claims (accepting n w2).0 (accepting n w2).1.files)
                (ok_value
                  (sym (stable w w1 cfg e1).0 ∙ lift-result (resolve_target_agent cfg target) e2))
                (accepting-Taken w2 env read required
                  (subst (OnFile services id env) (sym (s2 ∙ s1)) stored)
                  (subst Unclaimed (sym (s2 ∙ s1)) h))
