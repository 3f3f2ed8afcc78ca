-- ===== src/Clis/Again.antt =====
-- A second refresh of the CLIs with the same token.
use mathlib.Core.Path.{subst}
use coding_agents_databricks.Base.{
  String, ◌≡◌, refl, sym, ap, ◌∙◌, Bool, true, false, Option, none, some, List, [], ◌∷◌, All,
  Result, ok, err, string_has_eq, arith, eq_iff, inl, inr, Error, if_cases, Result-cases, map,
}
use coding_agents_databricks.Base.Parse.{Text}
use coding_agents_databricks.Base.Dict.{find}
use coding_agents_databricks.Clis.{
  File, Faults, Edit, Home, RefreshResult, update_file, read_and_edit, write_edited,
  atomic_write_text, update_cli, note_outcome, refresh_each, no_report, update_all,
}
use coding_agents_databricks.Clis.Report.{
  HaveOwnNames, file_after, outcome_of, names_of, is_updated, is_skipped, is_failed,
  update_all_report, update_all-IsAlone, find-update_cli, IsAlone,
}

-- What an updater writes, it would leave as it is.
abbrev pub IsRepeatable : Edit → File → Type 0
IsRepeatable edit f = (u : Text) → edit f.content ≡ ok (some u) → edit u ≡ ok none

-- A file that an updater leaves as it is.
abbrev pub IsDone : Edit → File → Type 0
IsDone edit f = (f.is_private ≡ true) × (edit f.content ≡ ok none)

abbrev faults_of : Option Error → Option Error → Option Error → Option Error → Faults
faults_of c r p s = record { chmod = c; read = r; replace = p; finish = s }

written-IsDone :
    (c r p s : Option Error) (edit : Edit) (f : File) (o : Result (Option Text)) (b : Bool)
    → f.is_private ≡ true
    → edit f.content ≡ o
    → IsRepeatable edit f
    → (write_edited (faults_of c r p s) o f).0 ≡ ok b
    → IsDone edit (write_edited (faults_of c r p s) o f).1
unfolding write_edited atomic_write_text
written-IsDone c r p s edit f (err e) b q g i h = absurd cc
written-IsDone c r p s edit f (ok none) b q g i h = (q, g)
written-IsDone c r none none edit f (ok (some u)) b q g i h = (refl, i u g)
written-IsDone c r none (some e) edit f (ok (some u)) b q g i h = absurd cc
written-IsDone c r (some e) s edit f (ok (some u)) b q g i h = absurd cc

updated-IsDone :
    (c r p s : Option Error) (edit : Edit) (f : File) (b : Bool)
    → IsRepeatable edit f
    → (update_file (faults_of c r p s) edit f).0 ≡ ok b
    → IsDone edit (update_file (faults_of c r p s) edit f).1
unfolding update_file read_and_edit
updated-IsDone none none p s edit f b i h =
    written-IsDone none none p s edit (record f { is_private = true }) (edit f.content) b refl refl
      i h
updated-IsDone none (some e) p s edit f b i h = absurd cc
updated-IsDone (some e) r p s edit f b i h = absurd cc

-- An update that does not raise leaves a file that is done.
update_file-IsDone :
    (faults : Faults) (edit : Edit) (f : File) (b : Bool)
    → IsRepeatable edit f
    → (update_file faults edit f).0 ≡ ok b
    → IsDone edit (update_file faults edit f).1
update_file-IsDone faults = updated-IsDone faults.chmod faults.read faults.replace faults.finish

-- On such a file, an updater that may read it does nothing.
update_file_done :
    (faults : Faults) (edit : Edit) (f : File)
    → faults.chmod ≡ none
    → faults.read ≡ none
    → IsDone edit f
    → update_file faults edit f ≡ (ok false, f)
unfolding update_file read_and_edit write_edited
update_file_done faults edit f c r (p, e) =
    rw (c, update_file)
      (rw r (rw e (ap (λ b. (ok false, record { content = f.content; is_private = b })) (sym p))))

abbrev pub AreRepeatable : Home → List (String × Edit) → Type 0
AreRepeatable home targets =
    All (λ t. (f : File) → find t.0 home ≡ some f → IsRepeatable t.1 f) targets

-- What a second refresh does to a target whose file comes from a first one.
module _ (again : String → Faults)
    (readable : (name : String) → ((again name).chmod ≡ none) × ((again name).read ≡ none)) where
  abbrev QuietOn : String × Edit → Option File → Type 0
  QuietOn t o = (outcome_of (again t.0) t.1 o ≡ ok false) × (file_after (again t.0) t.1 o ≡ o)

  abbrev IsQuiet : Home → String × Edit → Type 0
  IsQuiet home t = QuietOn t (find t.0 home)

  quiet :
      (faults : Faults) (name : String) (edit : Edit) (before after : Option File)
      → ((f : File) → before ≡ some f → IsRepeatable edit f)
      → is_failed (outcome_of faults edit before) ≡ false
      → after ≡ file_after faults edit before
      → (outcome_of (again name) edit after ≡ ok false)
        × (file_after (again name) edit after ≡ after)
  unfolding outcome_of file_after
  quiet faults name edit none after i o e = rw e (refl, refl)
  quiet faults name edit (some f) after i o e = elim (Result-cases (update_file faults edit f).0) [
    | inl (x, h) ↦ absurd (ground (arith, o, h))
    | inr (b, h) ↦
        let g = (update_file faults edit f).1 in
        let d =
          update_file_done (again name) edit g (readable name).0 (readable name).1
            (update_file-IsDone faults edit f b (i f refl) h) in
        rw e (ap (λ x. x.0) d, ap (λ x. some x.1) d)
  ]

  nothing_failed :
      (faults : String → Faults) (targets : List (String × Edit)) (home : Home)
      → names_of faults is_failed targets home ≡ []
      → All (λ t. is_failed (outcome_of (faults t.0) t.1 (find t.0 home)) ≡ false) targets
  unfolding names_of
  nothing_failed faults [] home h = tt
  nothing_failed faults ((name, edit) ∷ targets) home h =
      let rest = names_of faults is_failed targets home in
      elim (if_cases (is_failed (outcome_of (faults name) edit (find name home))) (name ∷ rest) rest
        [] h) [ inl (t, e) ↦ absurd cc | inr (f, e) ↦ (f, nothing_failed faults targets home e) ]

  all-IsQuiet :
      (faults : String → Faults) (targets : List (String × Edit)) (home after : Home)
      → AreRepeatable home targets
      → All (λ t. is_failed (outcome_of (faults t.0) t.1 (find t.0 home)) ≡ false) targets
      → All (IsAlone faults home after) targets
      → All (IsQuiet after) targets
  all-IsQuiet faults [] home after i o a = tt
  all-IsQuiet faults ((name, edit) ∷ targets) home after (i, is) (o, os) (a, later) = (
    quiet (faults name) name edit (find name home) (find name after) i o a,
    all-IsQuiet faults targets home after is os later,
  )

  -- The report and the files of a refresh of targets with nothing to do.
  quiet_names :
      (targets : List (String × Edit)) (home : Home)
      → All (IsQuiet home) targets
      → (names_of again is_updated targets home ≡ [])
        × (names_of again is_skipped targets home ≡ map (λ t. t.0) targets)
        × (names_of again is_failed targets home ≡ [])
  unfolding names_of
  quiet_names [] home q = (refl, refl, refl)
  quiet_names ((name, edit) ∷ targets) home ((o, e), later) =
      let (u, s, f) = quiet_names targets home later in
      (rw o u, rw o (ap (λ ns. name ∷ ns) s), rw o f)

  quiet_step :
      (name : String) (edit : Edit) (home : Home) (j : String)
      → IsQuiet home (name, edit)
      → find j (update_cli (again name) name edit home).1 ≡ find j home
  quiet_step name edit home j (o, e) =
      find-update_cli (again name) name j edit home ∙ ground (arith, e, eq_iff name j)

  IsQuiet-ext :
      (targets : List (String × Edit)) (home next : Home)
      → ((j : String) → find j next ≡ find j home)
      → All (IsQuiet home) targets
      → All (IsQuiet next) targets
  IsQuiet-ext [] home next e q = tt
  IsQuiet-ext (t ∷ targets) home next e (q, later) =
      (subst (QuietOn t) (sym (e t.0)) q, IsQuiet-ext targets home next e later)

  find_quiet :
      (targets : List (String × Edit)) (home : Home) (report : RefreshResult) (j : String)
      → All (IsQuiet home) targets
      → find j (refresh_each again targets home report).1 ≡ find j home
  unfolding refresh_each
  find_quiet [] home report j q = refl
  find_quiet ((name, edit) ∷ targets) home report j (q, later) =
      let home1 = (update_cli (again name) name edit home).1 in
      find_quiet targets home1 (note_outcome name (update_cli (again name) name edit home).0 report)
        j (IsQuiet-ext targets home home1 (λ i. quiet_step name edit home i q) later)
      ∙ quiet_step name edit home j q

  -- A refresh whose report names no failure, of targets with names of their own: what is written is
  -- what the updaters leave, so that a second one skips every target and changes no file.
  pub update_all_again :
      (faults : String → Faults) (targets : List (String × Edit)) (home : Home)
      → HaveOwnNames targets
      → AreRepeatable home targets
      → (update_all true faults targets home).0.failed ≡ []
      → let after = (update_all true faults targets home).1 in
        ((update_all true again targets after).0
          ≡ record { updated = []; skipped = map (λ t. t.0) targets; failed = [] })
        × ((j : String) → find j (update_all true again targets after).1 ≡ find j after)
  unfolding update_all
  update_all_again faults targets home d i h =
      let after = (update_all true faults targets home).1 in
      let f : names_of faults is_failed targets home ≡ [] =
        sym (ap (λ r. r.failed) (update_all_report faults targets home d)) ∙ h in
      let q : All (IsQuiet after) targets =
        all-IsQuiet faults targets home after i (nothing_failed faults targets home f)
          (update_all-IsAlone faults targets home d) in
      let (u, s, n) = quiet_names targets after q in
      (
        update_all_report again targets after d ∙ rw u (rw s (rw n refl)),
        λ j. find_quiet targets after no_report j q,
      )
