-- ===== src/Session/Resolution/Refined.antt =====
-- BlockerResolve of internal/session/blocker_resolve.go as one step on the table of blocker cases.
use tmuxicate.Prelude.{
  ◌≡◌, refl, sym, ap, ◌∙◌, ◌⊎◌, inl, inr, true, false, not, some, Result, ok, err, is_ok, reject_if,
  reject_if-eq-ok, msg, ok_value, if◌then◌else◌, ◌&&◌,
}
use tmuxicate.Text.{text_eq}
use tmuxicate.Protocol.Enums.{ResolutionAction, BlockerStatus}
use tmuxicate.Protocol.Documents.{BlockerCase, BlockerResolution}
use tmuxicate.Mailbox.Files.{Files}
use tmuxicate.Mailbox.Io.{World, Io, continue, ◌>>=◌, lift}
use tmuxicate.Mailbox.Store.Effects.{result_rule, quiet_result, lift-result}
use tmuxicate.Mailbox.Coordinator.{read_case, update_case}
use tmuxicate.Mailbox.Coordinator.Tables.{Table, IsSame, IsPut}
use tmuxicate.Mailbox.Coordinator.Cases.{accept_case, case_table, read_case-row, read_case-files}
use tmuxicate.Mailbox.Coordinator.Updates.{update_case-Updates}
use tmuxicate.Session.Services.{Services}
use tmuxicate.Session.ResolveOptions.{ResolveOpts, validate_resolve_opts}
use tmuxicate.Session.Resolution.{
  Resolved, is_escalated, after_reroute, after_replan, resolved_case, resolve_action,
  blocker_resolve,
}
use tmuxicate.Session.Resolution.Cases.{KeepsCases, resolve_action-Keeps}

some_value : {A : Type 0} {a b : A} → some a ≡ some b → a ≡ b
some_value h = cc

escalated_of : (s : BlockerStatus) → not (is_escalated s) ≡ false → s ≡ BlockerStatus.escalated
escalated_of BlockerStatus.escalated h = refl
escalated_of BlockerStatus.active h = cc
escalated_of BlockerStatus.resolved h = cc
escalated_of (BlockerStatus.other t) h = cc

-- The second half of a sequence that succeeds.
last_part :
    {A B : Type 0} (m : Io A) (f : A → Io B) (w : World) {b : B} {w' : World}
    → (m >>= f) w ≡ (ok b, w')
    → (a : A) × (w1 : World) × (f a w1 ≡ (ok b, w'))
unfolding ◌>>=◌
last_part {A} {B} m f w {b} {w'} h = go (m w).0 (m w).1 h
  where
    go :
        (r : Result A) (w1 : World)
        → continue r f w1 ≡ (ok b, w')
        → (a : A) × (w2 : World) × (f a w2 ≡ (ok b, w'))
    go (ok a) w1 e = (a, w1, e)
    go (err x) w1 e = absurd (cc e)

-- The action of a result's resolution.
action_or : ResolutionAction → Result Resolved → ResolutionAction
action_or default (ok r) = r.resolution.action
action_or default (err e) = default

-- What the action hands on if it succeeds is a resolution by that action.
resolved_action :
    (services : Services) (action : ResolutionAction) (o : ResolveOpts) (doc : BlockerCase)
    (w w' : World) {r : Resolved}
    → resolve_action services action o doc w ≡ (ok r, w')
    → r.resolution.action ≡ o.action
unfolding resolve_action after_reroute after_replan action_or
resolved_action services ResolutionAction.manual_reroute o doc w w' h =
    let (_, _, h1) = last_part _ _ w h in
    let (_, _, h2) = last_part _ _ _ h1 in
    let (_, _, h3) = last_part _ _ _ h2 in
    let (task, w4, h4) = last_part _ _ _ h3 in sym (ap (λ x. action_or o.action x.0) h4)
resolved_action services ResolutionAction.clarify o doc w w' h =
    let (_, _, h1) = last_part _ _ w h in
    let (message, w2, h2) = last_part _ _ _ h1 in sym (ap (λ x. action_or o.action x.0) h2)
resolved_action services ResolutionAction.partial_replan o doc w w' h =
    let (_, _, h1) = last_part _ _ w h in
    let (_, _, h2) = last_part _ _ _ h1 in
    let (_, _, h3) = last_part _ _ _ h2 in
    let (_, _, h4) = last_part _ _ _ h3 in
    let (_, _, h5) = last_part _ _ _ h4 in
    let (_, _, h6) = last_part _ _ _ h5 in sym (ap (λ x. action_or o.action x.0) h6)
resolved_action services ResolutionAction.dismiss o doc w w' h =
    sym (ap (λ x. action_or o.action x.0) h)
resolved_action services (ResolutionAction.other t) o doc w w' h = absurd (cc h)

-- What resolving a case may do to the table: nothing and fail, or, for valid options and an escalated
-- case, put the case back as resolved by the action of the options with its count of reroutes.
abbrev pub ResolvesCase :
    ResolveOpts → Table BlockerCase → Result (Unit {0}) → Table BlockerCase → Type 0
ResolvesCase o before r after =
    (IsSame before after × (is_ok r ≡ false))
    ⊎ ((old : BlockerCase) × (doc : BlockerCase) × (resolution : BlockerResolution)
        × (validate_resolve_opts o ≡ ok tt)
        × (before o.run_id o.source_task_id ≡ some old)
        × (old.status ≡ BlockerStatus.escalated)
        × (doc.status ≡ BlockerStatus.resolved)
        × (doc.resolution ≡ some resolution)
        × (resolution.action ≡ o.action)
        × (doc.reroute_count ≡ old.reroute_count)
        × (accept_case o.run_id o.source_task_id doc ≡ true)
        × IsPut o.run_id o.source_task_id doc before after)

module _ (services : Services) (laws : KeepsCases services) where
  abbrev cases : Files → Table BlockerCase
  cases files = case_table services.documents files

  -- The update at the end, after steps that left the table alone.
  finish :
      (o : ResolveOpts) (start : Files) (doc : BlockerCase) (r : Resolved) (w : World)
      → validate_resolve_opts o ≡ ok tt
      → cases start o.run_id o.source_task_id ≡ some doc
      → doc.status ≡ BlockerStatus.escalated
      → r.resolution.action ≡ o.action
      → IsSame (cases start) (cases w.files)
      → let (e, w') =
          update_case services.documents o.run_id o.source_task_id
            (λ existing. ok (resolved_case r services.now existing))
            w in
        ResolvesCase o (cases start) e (cases w'.files)
  unfolding resolved_case
  finish o start doc r w valid row escalated action same =
      elim (update_case-Updates services.documents o.run_id o.source_task_id
        (λ existing. ok (resolved_case r services.now existing)) w) [
          | inl (stay, bad) ↦ inl (λ run t. stay run t ∙ same run t, bad)
          | inr (old, made, there, by, fits, put) ↦
              let old_is : doc ≡ old =
                some_value (sym row ∙ sym (same o.run_id o.source_task_id) ∙ there) in
              let made_is : resolved_case r services.now old ≡ made = ok_value by in
              inr (
                doc,
                made,
                r.resolution,
                valid,
                row,
                escalated,
                ap (λ d. d.status) (sym made_is),
                ap (λ d. d.resolution) (sym made_is),
                action,
                ap (λ d. d.reroute_count) (sym made_is) ∙ ap (λ d. d.reroute_count) (sym old_is),
                fits,
                λ run t.
                    put run t
                    ∙ ap
                        (λ x.
                          if text_eq o.run_id run && text_eq o.source_task_id t
                          then some made
                          else x)
                        (same run t),
              )
        ]

  -- Whatever system calls and services fail, BlockerResolve changes no blocker case and fails, or,
  -- for valid options and an escalated case, puts that case back as resolved by the action of the
  -- options, with its count of reroutes, and changes no other case.
  pub blocker_resolve-ResolvesCase :
      (o : ResolveOpts) (w : World)
      → let (r, w') = blocker_resolve services o w in
        ResolvesCase o (cases w.files) r (cases w'.files)
  unfolding blocker_resolve
  blocker_resolve-ResolvesCase o w =
      let Post =
        λ (r : Result (Unit {0})) (fs : Files). ResolvesCase o (cases w.files) r (cases fs) in
      result_rule Post (lift (validate_resolve_opts o)) _ w
        (λ e w1 p. inl (λ run t. ap (λ v. cases v.1.files run t) (sym p), refl))
        λ _ w1 valid.
          let s1 : w1.files ≡ w.files = sym (ap (λ v. v.1.files) valid) in
          quiet_result Post (read_case services.documents o.run_id o.source_task_id) _ w1
            (read_case-files services.documents o.run_id o.source_task_id w1)
            (λ e. inl (λ run t. ap (λ fs. cases fs run t) s1, refl))
            λ doc w2 read s2.
              quiet_result Post
                (lift
                  (reject_if (not (is_escalated doc.status)) (msg "blocker case is not escalated")))
                _ w2 refl (λ e. inl (λ run t. ap (λ fs. cases fs run t) (s2 ∙ s1), refl))
                λ _ w3 passed s3.
                  let same : IsSame (cases w.files) (cases w3.files) =
                    λ run t. ap (λ fs. cases fs run t) (s3 ∙ s2 ∙ s1) in
                  let row =
                    ap (λ fs. cases fs o.run_id o.source_task_id) (sym s1)
                    ∙ read_case-row services.documents o.run_id o.source_task_id w1 w2 read in
                  let escalated =
                    escalated_of doc.status (reject_if-eq-ok _ _ (lift-result _ passed)) in
                  let kept = (resolve_action-Keeps services laws o.action o doc).same w3 in
                  result_rule Post (resolve_action services o.action o doc) _ w3
                    (λ e w4 p. inl (
                      λ run t. ap (λ v. cases v.1.files run t) (sym p) ∙ kept run t ∙ same run t,
                      refl,
                    ))
                    λ r w4 done.
                      finish o w.files doc r w4 (lift-result _ valid) row escalated
                        (resolved_action services o.action o doc w3 w4 done)
                        (λ run t.
                          ap (λ v. cases v.1.files run t) (sym done) ∙ kept run t ∙ same run t)
