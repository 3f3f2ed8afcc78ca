-- ===== src/Clis/Report.antt =====
-- What one refresh of the CLIs comes to: each target by itself, and the report of all.
use coding_agents_databricks.Base.{
  String, ◌≡◌, refl, sym, ap, ◌∙◌, Bool, true, false, Option, none, some, List, [], ◌∷◌, ◌++◌, All,
  Result, ok, err, ◌==◌, string_has_eq, if◌then◌else◌, arith, eq_iff, Option-cases, inl, inr,
}
use coding_agents_databricks.Base.Dict.{find, find-store}
use coding_agents_databricks.Clis.{
  File, Faults, Edit, Home, RefreshResult, update_file, update_cli, store_result, note_outcome,
  refresh_each, no_report, update_all,
}

-- Each target has a name of its own.
abbrev pub HaveOwnNames : List (String × Edit) → Type 0
HaveOwnNames [] = Unit
HaveOwnNames ((name, edit) ∷ targets) =
    All (λ t. (name == t.0) ≡ false) targets × HaveOwnNames targets

-- What a target alone makes of its file, if there is one.
unfoldable pub file_after : Faults → Edit → Option File → Option File
file_after faults edit none = none
file_after faults edit (some f) = some (update_file faults edit f).1

unfoldable pub outcome_of : Faults → Edit → Option File → Result Bool
outcome_of faults edit none = ok false
outcome_of faults edit (some f) = (update_file faults edit f).0

-- the targets whose updater alone returns this, in order
unfoldable pub names_of :
    (String → Faults) → (Result Bool → Bool) → List (String × Edit) → Home → List String
names_of faults p [] home = []
names_of faults p ((name, edit) ∷ targets) home =
    let rest = names_of faults p targets home in
    if p (outcome_of (faults name) edit (find name home)) then name ∷ rest else rest

abbrev pub is_updated : Result Bool → Bool
is_updated (ok true) = true
is_updated _ = false

abbrev pub is_skipped : Result Bool → Bool
is_skipped (ok false) = true
is_skipped _ = false

abbrev pub is_failed : Result Bool → Bool
is_failed (err e) = true
is_failed _ = false

update_cli-outcome_of :
    (faults : Faults) (name : String) (edit : Edit) (home : Home)
    → (update_cli faults name edit home).0 ≡ outcome_of faults edit (find name home)
unfolding update_cli store_result outcome_of
update_cli-outcome_of faults name edit home = elim (Option-cases (find name home)) [
  | inl n ↦ rw (n, update_cli) refl
  | inr (f, s) ↦ rw (s, update_cli) refl
]

pub find-update_cli :
    (faults : Faults) (name j : String) (edit : Edit) (home : Home)
    → find j (update_cli faults name edit home).1
      ≡ (if name == j then file_after faults edit (find name home) else find j home)
unfolding update_cli store_result file_after
find-update_cli faults name j edit home = elim (Option-cases (find name home)) [
  | inl n ↦ rw (n, update_cli) (ground (arith, n, eq_iff name j))
  | inr (f, s) ↦ rw (s, update_cli) (find-store name j (update_file faults edit f).1 home)
]

append_snoc {ℓ} : {A : Type ℓ} (xs ys : List A) (x : A) → (xs ++ x ∷ []) ++ ys ≡ xs ++ x ∷ ys
append_snoc [] ys x = refl
append_snoc (z ∷ xs) ys x = ap (λ l. z ∷ l) (append_snoc xs ys x)

append_empty {ℓ} : {A : Type ℓ} (xs : List A) → xs ++ [] ≡ xs
append_empty [] = refl
append_empty (x ∷ xs) = ap (λ l. x ∷ l) (append_empty xs)

names_of-ext :
    (faults : String → Faults) (p : Result Bool → Bool) (targets : List (String × Edit))
    (h k : Home)
    → All (λ t. find t.0 h ≡ find t.0 k) targets
    → names_of faults p targets h ≡ names_of faults p targets k
unfolding names_of
names_of-ext faults p [] h k e = refl
names_of-ext faults p ((name, edit) ∷ targets) h k (e, later) =
    rw e (rw (names_of-ext faults p targets h k later) refl)

-- An update leaves the files of the others.
pub others_stay :
    (faults : Faults) (name : String) (edit : Edit) (home : Home) (targets : List (String × Edit))
    → All (λ t. (name == t.0) ≡ false) targets
    → All (λ t. find t.0 (update_cli faults name edit home).1 ≡ find t.0 home) targets
others_stay faults name edit home [] d = tt
others_stay faults name edit home ((j, e) ∷ targets) (d, later) = (
  find-update_cli faults name j edit home ∙ rw d refl,
  others_stay faults name edit home targets later,
)

-- `report` with further names
abbrev pub extend : RefreshResult → List String → List String → List String → RefreshResult
extend report updated skipped failed = record {
  updated = report.updated ++ updated;
  skipped = report.skipped ++ skipped;
  failed = report.failed ++ failed;
}

module _ (faults : String → Faults) where
  abbrev names : (Result Bool → Bool) → List (String × Edit) → Home → List String
  names p targets home = names_of faults p targets home

  note_outcome-extend :
      (name : String) (o : Result Bool) (report : RefreshResult) (us ss fs : List String)
      → extend (note_outcome name o report) us ss fs
        ≡ extend report
            (if is_updated o then name ∷ us else us)
            (if is_skipped o then name ∷ ss else ss)
            (if is_failed o then name ∷ fs else fs)
  unfolding note_outcome
  note_outcome-extend name (err e) report us ss fs = rw (append_snoc report.failed fs name) refl
  note_outcome-extend name (ok true) report us ss fs = rw (append_snoc report.updated us name) refl
  note_outcome-extend name (ok false) report us ss fs = rw (append_snoc report.skipped ss name) refl

  extend_nil : (report : RefreshResult) → extend report [] [] [] ≡ report
  extend_nil report =
      rw (append_empty report.updated)
        (rw (append_empty report.skipped) (rw (append_empty report.failed) refl))

  refresh_each-extend :
      (targets : List (String × Edit)) (home : Home) (report : RefreshResult)
      → HaveOwnNames targets
      → (refresh_each faults targets home report).0
        ≡ extend report
            (names is_updated targets home)
            (names is_skipped targets home)
            (names is_failed targets home)
  unfolding refresh_each names_of
  refresh_each-extend [] home report d = sym (extend_nil report)
  refresh_each-extend ((name, edit) ∷ targets) home report (d, later) =
      let home1 = (update_cli (faults name) name edit home).1 in
      let o = (update_cli (faults name) name edit home).0 in
      let same = λ (p : Result Bool → Bool).
        names_of-ext faults p targets home1 home
          (others_stay (faults name) name edit home targets d) in
      refresh_each-extend targets home1 (note_outcome name o report) later
      ∙ note_outcome-extend name o report (names is_updated targets home1)
          (names is_skipped targets home1) (names is_failed targets home1)
      ∙ rw (same is_updated) (
          rw (same is_skipped) (
            rw (same is_failed) (
              ap
                (λ x.
                  extend report
                    (if is_updated x
                      then name ∷ names is_updated targets home
                      else names is_updated targets home)
                    (if is_skipped x
                      then name ∷ names is_skipped targets home
                      else names is_skipped targets home)
                    (if is_failed x
                      then name ∷ names is_failed targets home
                      else names is_failed targets home))
                (update_cli-outcome_of (faults name) name edit home))))

  -- The report of a refresh lists, in the order of the targets, which updater alone would have
  -- written, had nothing to do, or raised.
  pub update_all_report :
      (targets : List (String × Edit)) (home : Home)
      → HaveOwnNames targets
      → (update_all true faults targets home).0 ≡ record {
        updated = names is_updated targets home;
        skipped = names is_skipped targets home;
        failed = names is_failed targets home;
      }
  unfolding update_all
  update_all_report targets home d = refresh_each-extend targets home no_report d

  stays :
      (j : String) (targets : List (String × Edit)) (home : Home) (report : RefreshResult)
      → All (λ t. (j == t.0) ≡ false) targets
      → find j (refresh_each faults targets home report).1 ≡ find j home
  unfolding refresh_each
  stays j [] home report d = refl
  stays j ((name, edit) ∷ targets) home report (d, later) =
      stays j targets (update_cli (faults name) name edit home).1 _ later
      ∙ find-update_cli (faults name) name j edit home
      ∙ ground (arith, d, eq_iff j name, eq_iff name j)

  -- A file that no target is about stays.
  pub find-update_all_other :
      (j : String) (targets : List (String × Edit)) (home : Home)
      → All (λ t. (j == t.0) ≡ false) targets
      → find j (update_all true faults targets home).1 ≡ find j home
  unfolding update_all
  find-update_all_other j targets home d = stays j targets home no_report d

  -- Every file is what its updater alone makes of it.
  abbrev pub IsAlone : Home → Home → String × Edit → Type 0
  IsAlone home after t = find t.0 after ≡ file_after (faults t.0) t.1 (find t.0 home)

  IsAlone-ext :
      (h k after : Home) (targets : List (String × Edit))
      → All (λ t. find t.0 h ≡ find t.0 k) targets
      → All (IsAlone h after) targets
      → All (IsAlone k after) targets
  IsAlone-ext h k after [] e a = tt
  IsAlone-ext h k after ((name, edit) ∷ targets) (e, es) (a, later) =
      (a ∙ ap (file_after (faults name) edit) e, IsAlone-ext h k after targets es later)

  alone :
      (targets : List (String × Edit)) (home : Home) (report : RefreshResult)
      → HaveOwnNames targets
      → All (IsAlone home (refresh_each faults targets home report).1) targets
  unfolding refresh_each
  alone [] home report d = tt
  alone ((name, edit) ∷ targets) home report (d, later) =
      let home1 = (update_cli (faults name) name edit home).1 in
      let o = (update_cli (faults name) name edit home).0 in
      (
        stays name targets home1 (note_outcome name o report) d
            ∙ find-update_cli (faults name) name name edit home
            ∙ ground (arith, eq_iff name name),
        IsAlone-ext home1 home (refresh_each faults targets home1 (note_outcome name o report)).1
            targets (others_stay (faults name) name edit home targets d)
            (alone targets home1 (note_outcome name o report) later),
      )

  pub update_all-IsAlone :
      (targets : List (String × Edit)) (home : Home)
      → HaveOwnNames targets
      → All (IsAlone home (update_all true faults targets home).1) targets
  unfolding update_all
  update_all-IsAlone targets home d = alone targets home no_report d
