-- ===== src/Mailbox/Coordinator/Tables.antt =====
-- The documents of one part of the runs of internal/mailbox/coordinator_store.go as an abstract table.
use tmuxicate.Prelude.{
  ◌≡◌, ◌≢◌, refl, sym, ap, ◌∙◌, subst, ◌⊎◌, inl, inr, Bool, true, false, ◌&&◌, Option, none, some,
  Result, ok, err, wrapped, arith, is_ok, if◌then◌else◌, String, reject_if, msg, Bool-cases,
  and_parts, reject_if-eq-ok,
}
use tmuxicate.Text.{Text, text_eq, text_eq→}
use tmuxicate.Mailbox.Files.{
  Files, FilePath, RunPart, run_part, run_part_eq_refl, path_eq, read_at, write_at,
  read_at-write_at,
}
use tmuxicate.Mailbox.Io.{wrapped_io, World, Io, lift, syscall, exists}
use tmuxicate.Mailbox.Write.{write_file_atomically, write-outcome}
use tmuxicate.Mailbox.Store.{Codec}
use tmuxicate.Mailbox.Store.Effects.{
  quiet_result, syscall-files, exists-files, lift-result, wrapped-result,
}
use tmuxicate.Mailbox.Coordinator.{save, write_part, new_at}

-- What a run holds, by the task that names the document.
abbrev pub Table : Type 0 → Type 0
Table A = Text → Text → Option A

-- One document is put in place of what was there; no other changes.
abbrev pub IsPut : {A : Type 0} → Text → Text → A → Table A → Table A → Type 0
IsPut run task doc before after =
    (r t : Text) → after r t ≡ (if text_eq run r && text_eq task t then some doc else before r t)

abbrev pub IsSame : {A : Type 0} → Table A → Table A → Type 0
IsSame before after = (r t : Text) → after r t ≡ before r t

-- What creating a document may do: nothing and fail, or put it where there was none.
abbrev pub Creates : {A : Type 0} → Text → Text → A → Table A → Result (Unit {0}) → Table A → Type 0
Creates run task doc before r after =
    (IsSame before after × (is_ok r ≡ false))
    ⊎ ((before run task ≡ none) × IsPut run task doc before after)

-- What updating a document may do: nothing and fail, or put what the function makes of it.
abbrev pub Updates :
    {A : Type 0}
    → (A → Bool)
    → (A → Result A)
    → Text
    → Text
    → Table A
    → Result (Unit {0})
    → Table A
    → Type 0
Updates {A} accept fn run task before r after =
    (IsSame before after × (is_ok r ≡ false))
    ⊎ ((old : A) × (doc : A) × (before run task ≡ some old)
        × (fn old ≡ ok doc)
        × (accept doc ≡ true)
        × IsPut run task doc before after)

module _ {A : Type 0} (yaml : Codec A) where
  -- The document that a file holds, if it is accepted.
  abbrev pub accepted : (A → Bool) → Result A → Option A
  accepted accept (err e) = none
  accepted accept (ok doc) = if accept doc then some doc else none

  abbrev pub held : (A → Bool) → Option Text → Option A
  held accept none = none
  held accept (some content) = accepted accept (yaml.unmarshal content)

  -- The table that the files of a part are; `accept` tests a document against its place.
  unfoldable pub table : RunPart → (Text → Text → A → Bool) → Files → Table A
  table part accept files run task = held (accept run task) (read_at (run_part part run task) files)

  abbrev pub IsSaved : FilePath → A → Files → Result (Unit {0}) → Files → Type 0
  IsSaved path doc before r after =
      ((after ≡ before) × (is_ok r ≡ false))
      ⊎ ((content : Text) × (yaml.unmarshal content ≡ ok doc)
          × (after ≡ write_at path content before))

  wrapped_not_ok :
      (context : String) (r : Result (Unit {0})) → r ≢ ok tt → is_ok (wrapped context r) ≡ false
  wrapped_not_ok context (ok tt') bad = absurd (bad refl)
  wrapped_not_ok context (err e) bad = refl

  wrapped_write :
      (context : String) (path : FilePath) (content : Text) (doc : A) (before : Files) (w : World)
      → w.files ≡ before
      → yaml.unmarshal content ≡ ok doc
      → let (r, w') = wrapped_io context (write_file_atomically path content) w in
        IsSaved path doc before r w'.files
  unfolding wrapped_io
  wrapped_write context path content doc before w same good = elim (write-outcome path content w) [
    | inl e ↦ inr (content, good, e ∙ ap (write_at path content) same)
    | inr (e, bad) ↦ inl (e ∙ same, wrapped_not_ok context _ bad)
  ]

  pub save-IsSaved :
      (path : FilePath) (doc : A) (before : Files) (w : World)
      → w.files ≡ before
      → let (r, w') = save yaml path doc w in IsSaved path doc before r w'.files
  unfolding save
  save-IsSaved path doc before w same =
      quiet_result (IsSaved path doc before) (lift (wrapped "marshal" (yaml.marshal doc))) _ w refl
        (λ e. inl (same, refl))
        λ content w1 got s1.
          wrapped_write "write" path content doc before w1 (s1 ∙ same)
            (yaml.round_trip doc content (wrapped-result _ _ (lift-result _ got)))

  pub write_part-IsSaved :
      (path : FilePath) (doc : A) (before : Files) (w : World)
      → w.files ≡ before
      → let (r, w') = write_part yaml path doc w in IsSaved path doc before r w'.files
  unfolding write_part
  write_part-IsSaved path doc before w same =
      quiet_result (IsSaved path doc before) (syscall "create dir") _ w
        (syscall-files "create dir" w) (λ e. inl (same, refl))
        λ _ w1 _ s1. save-IsSaved path doc before w1 (s1 ∙ same)

  -- A saved document is put into the table, if its place accepts it.
  pub IsSaved-IsPut :
      (part : RunPart) (accept : Text → Text → A → Bool) (run task content : Text) (doc : A)
      (before : Files)
      → yaml.unmarshal content ≡ ok doc
      → accept run task doc ≡ true
      → IsPut run task doc
          (table part accept before)
          (table part accept (write_at (run_part part run task) content before))
  unfolding table path_eq
  IsSaved-IsPut part accept run task content doc before good fits r t =
      let p = run_part part run task in
      rw (read_at-write_at p (run_part part r t) content before) (
        rw (run_part_eq_refl part) (elim (Bool-cases (text_eq run r && text_eq task t)) [
          | inl e ↦
              let (same_run, same_task) = and_parts (text_eq run r) (text_eq task t) e in
              rw e (
                rw (sym (text_eq→ run r same_run), sym (text_eq→ task t same_task), good, fits)
                  refl)
          | inr e ↦ rw e refl
        ]))

  -- A table is the same over the same files.
  pub table-IsSame :
      (part : RunPart) (accept : Text → Text → A → Bool) (before after : Files)
      → after ≡ before
      → IsSame (table part accept before) (table part accept after)
  table-IsSame part accept before after e r t = ap (λ fs. table part accept fs r t) e

  -- A save under the key of the document is a put, or nothing and a failure.
  pub IsSaved-cases :
      (part : RunPart) (accept : Text → Text → A → Bool) (run task : Text) (doc : A)
      (before after : Files) (r : Result (Unit {0}))
      → accept run task doc ≡ true
      → IsSaved (run_part part run task) doc before r after
      → (IsSame (table part accept before) (table part accept after) × (is_ok r ≡ false))
        ⊎ IsPut run task doc (table part accept before) (table part accept after)
  IsSaved-cases part accept run task doc before after r fits (inl (same, bad)) =
      inl (table-IsSame part accept before after same, bad)
  IsSaved-cases part accept run task doc before after r fits (inr (content, good, written)) = inr (
      subst (λ fs. IsPut run task doc (table part accept before) (table part accept fs))
        (sym written) (IsSaved-IsPut part accept run task content doc before good fits))

  stat-files : (path : FilePath) (w : World) → (wrapped_io "stat" (exists path) w).1.files ≡ w.files
  unfolding wrapped_io
  stat-files path w = exists-files path w

  stat-free :
      (path : FilePath) (w w' : World) (there : Bool)
      → wrapped_io "stat" (exists path) w ≡ (ok there, w')
      → there ≡ false
      → read_at path w.files ≡ none
  unfolding wrapped_io exists
  stat-free path w w' there got free = ground arith

  absent :
      (part : RunPart) (accept : Text → Text → A → Bool) (run task : Text) (before : Files)
      → read_at (run_part part run task) before ≡ none
      → table part accept before run task ≡ none
  unfolding table
  absent part accept run task before free = rw free refl

  -- A write behind the test for an earlier document puts the document where there was none.
  pub new_at-Creates :
      (part : RunPart) (accept : Text → Text → A → Bool) (run task : Text) (doc : A)
      (write : Io (Unit {0})) (before : Files) (w : World)
      → w.files ≡ before
      → accept run task doc ≡ true
      → ((v : World)
          → v.files ≡ before
          → let (r, v') = write v in IsSaved (run_part part run task) doc before r v'.files)
      → let (r, w') = new_at (run_part part run task) write w in
        Creates run task doc (table part accept before) r (table part accept w'.files)
  unfolding new_at
  new_at-Creates part accept run task doc write before w same fits saves =
      let path = run_part part run task in
      let Post = λ (r : Result (Unit {0})) (fs : Files).
        Creates run task doc (table part accept before) r (table part accept fs) in
      quiet_result Post (wrapped_io "stat" (exists path)) _ w (stat-files path w)
        (λ e. inl (table-IsSame part accept before w.files same, refl))
        λ there w1 got s1.
          quiet_result Post (lift (reject_if there (msg "already exists"))) _ w1 refl
            (λ e. inl (table-IsSame part accept before w1.files (s1 ∙ same), refl))
            λ _ w2 passed s2.
              let free =
                stat-free path w w1 there got (reject_if-eq-ok there _ (lift-result _ passed)) in
              elim (IsSaved-cases part accept run task doc before (write w2).1.files (write w2).0
                fits (saves w2 (s2 ∙ s1 ∙ same))) [
                  | inl stay ↦ inl stay
                  | inr put ↦ inr (
                    absent part accept run task before
                        (subst (λ fs. read_at path fs ≡ none) same free),
                    put,
                  )
                ]
