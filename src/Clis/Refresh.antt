-- ===== src/Clis/Refresh.antt =====
-- cli_auth.py: a refresh of every CLI, and what a rotation of the token makes of its report.
use coding_agents_databricks.Base.{
  ℕ, String, ◌≡◌, refl, sym, ap, ◌∙◌, Bool, true, false, ◌&&◌, Option, none, some, List, [], ◌∷◌,
  All, Result, ok, err, string_has_eq, arith, ◌⊎◌, inl, inr, Option-cases, Error, some_inj,
}
use coding_agents_databricks.Base.Parse.{Text}
use coding_agents_databricks.Base.Dict.{find}
use coding_agents_databricks.Rotation.{Rotator, Action, delete_token, adopt, revoke_old, truthy}
use coding_agents_databricks.Clis.{
  File, Faults, Edit, Home, RefreshResult, is_ok, update_file, read_and_edit, write_edited,
  atomic_write_text, update_all,
}
use coding_agents_databricks.Clis.Report.{
  file_after, names_of, is_updated, is_skipped, is_failed, IsAlone, update_all_report,
  update_all-IsAlone,
}
use coding_agents_databricks.Clis.Again.{update_all_again}
use coding_agents_databricks.Clis.Targets.{updaters, update_cli_tokens}
use coding_agents_databricks.Clis.Documents.{Documents}
use coding_agents_databricks.Clis.Repeatable.{
  IsClean, AreReadable, updaters-HaveOwnNames, updaters-AreRepeatable,
}

abbrev pub cli_names : List String
cli_names = "claude" ∷ "pi" ∷ "codex" ∷ "opencode" ∷ "opencode_provider" ∷ "gemini" ∷ "hermes" ∷ []

-- After a refresh in which no updater failed, a second one with the same token, which has no line
-- break and no comma, skips every CLI and changes no file, provided that it may read the files. The
-- JSON files are read back as they were written, and the lines of the YAML file end with line feeds.
pub update_cli_tokens_again :
    (C : Documents) (faults again : String → Faults) (token : String) (home : Home)
    → IsClean token
    → AreReadable C token home
    → ((name : String) → ((again name).chmod ≡ none) × ((again name).read ≡ none))
    → (update_cli_tokens C true faults token home).0.failed ≡ []
    → let after = (update_cli_tokens C true faults token home).1 in
      ((update_cli_tokens C true again token after).0
        ≡ record { updated = []; skipped = cli_names; failed = [] })
      × ((j : String) → find j (update_cli_tokens C true again token after).1 ≡ find j after)
unfolding update_cli_tokens updaters
update_cli_tokens_again C faults again token home clean readable access h =
    update_all_again again access faults (updaters C token) home (updaters-HaveOwnNames C token)
      (updaters-AreRepeatable C token home clean readable) h

-- Every CLI is refreshed by itself, whatever happens to the others: its file is what its updater
-- alone makes of it, and it is reported as updated, skipped or failed by what that returns or raises.
pub update_cli_tokens-IsAlone :
    (C : Documents) (faults : String → Faults) (token : String) (home : Home)
    → ((update_cli_tokens C true faults token home).0 ≡ record {
      updated = names_of faults is_updated (updaters C token) home;
      skipped = names_of faults is_skipped (updaters C token) home;
      failed = names_of faults is_failed (updaters C token) home;
    })
      × All (IsAlone faults home (update_cli_tokens C true faults token home).1) (updaters C token)
unfolding update_cli_tokens
update_cli_tokens-IsAlone C faults token home = (
  update_all_report faults (updaters C token) home (updaters-HaveOwnNames C token),
  update_all-IsAlone faults (updaters C token) home (updaters-HaveOwnNames C token),
)

write_private :
    (c r p s : Option Error) (o : Result (Option Text)) (f : File)
    → f.is_private ≡ true
    → (write_edited (record { chmod = c; read = r; replace = p; finish = s }) o f).1.is_private
      ≡ true
unfolding write_edited atomic_write_text
write_private c r p s (err e) f h = h
write_private c r p s (ok none) f h = h
write_private c r none none (ok (some u)) f h = refl
write_private c r none (some e) (ok (some u)) f h = refl
write_private c r (some e) s (ok (some u)) f h = h

private_after :
    (c r p s : Option Error) (edit : Edit) (f : File)
    → c ≡ none
    → (update_file (record { chmod = c; read = r; replace = p; finish = s }) edit f).1.is_private
      ≡ true
unfolding update_file read_and_edit
private_after none none p s edit f e =
    write_private none none p s (edit f.content) (record f { is_private = true }) refl
private_after none (some x) p s edit f e = refl
private_after (some x) r p s edit f e = absurd cc

file_after-private :
    (faults : Faults) (edit : Edit) (o : Option File) (f : File)
    → faults.chmod ≡ none
    → file_after faults edit o ≡ some f
    → f.is_private ≡ true
unfolding file_after
file_after-private faults edit none f e h = absurd cc
file_after-private faults edit (some g) f e h =
    ap (λ x. x.is_private) (sym (some_inj h))
    ∙ private_after faults.chmod faults.read faults.replace faults.finish edit g e

all_private :
    (faults : String → Faults) (home after : Home) (targets : List (String × Edit))
    → ((name : String) → (faults name).chmod ≡ none)
    → All (IsAlone faults home after) targets
    → All (λ t. (f : File) → find t.0 after ≡ some f → f.is_private ≡ true) targets
all_private faults home after [] e a = tt
all_private faults home after ((name, edit) ∷ targets) e (a, later) = (
  λ f h. file_after-private (faults name) edit (find name home) f (e name) (sym a ∙ h),
  all_private faults home after targets e later,
)

-- If the modes of the files can be changed, every file of a CLI that exists has the mode 0600 after a
-- refresh, whatever else fails: the reading, the document in it, or the write.
pub update_cli_tokens_keeps_private :
    (C : Documents) (faults : String → Faults) (token : String) (home : Home)
    → ((name : String) → (faults name).chmod ≡ none)
    → All
        (λ t.
          (f : File)
          → find t.0 (update_cli_tokens C true faults token home).1 ≡ some f
          → f.is_private ≡ true)
        (updaters C token)
update_cli_tokens_keeps_private C faults token home e =
    all_private faults home (update_cli_tokens C true faults token home).1 (updaters C token) e
      (update_cli_tokens-IsAlone C faults token home).1

abbrev pub NotRevoking : Action → Type 0
NotRevoking (delete_token _ _) = ⊥
NotRevoking _ = Unit

revoke_old-cases :
    (old : Option String) (token : String) (b : Bool)
    → All NotRevoking (revoke_old old token b) ⊎ (b ≡ true)
unfolding revoke_old
revoke_old-cases old token true = inr refl
revoke_old-cases old token false = elim (Option-cases (truthy old)) [
  | inl n ↦ inl (rw (n, revoke_old) tt)
  | inr (o, e) ↦ inl (rw (e, revoke_old) tt)
]

is_ok-failed : (report : RefreshResult) → is_ok report ≡ true → report.failed ≡ []
unfolding is_ok
is_ok-failed report h = at_names report.failed h
  where
    at_names :
        (names : List String) → (elim names [ [] ↦ true | _ ∷ _ ↦ false ]) ≡ true → names ≡ []
    at_names [] e = refl
    at_names (name ∷ names) e = absurd cc

-- Once a token was minted, a rotation revokes the old one only if the refresh got its lock, no
-- updater would fail alone, and the configuration file was written.
pub revoked_after_refresh :
    (C : Documents) (acquired : Bool) (faults : String → Faults) (token token_id : String) (now : ℕ)
    (config_ok : Bool) (home : Home) (r : Rotator)
    → All NotRevoking
        (adopt token token_id now config_ok
          (is_ok (update_cli_tokens C acquired faults token home).0)
          r).2
      ⊎ ((acquired ≡ true)
          × (config_ok ≡ true)
          × (names_of faults is_failed (updaters C token) home ≡ []))
unfolding adopt update_cli_tokens update_all is_ok
revoked_after_refresh C false faults token token_id now config_ok home r =
    elim (revoke_old-cases r.current_token_id token (config_ok && false)) [
      | inl a ↦ inl (tt, a)
      | inr e ↦ absurd (ground (arith, e))
    ]
revoked_after_refresh C true faults token token_id now config_ok home r =
    let report = (update_all true faults (updaters C token) home).0 in
    elim (revoke_old-cases r.current_token_id token (config_ok && is_ok report)) [
      | inl a ↦ inl (tt, a)
      | inr e ↦ inr (
        refl,
        ground (arith, e),
        sym (
              ap (λ x. x.failed)
                (update_all_report faults (updaters C token) home (updaters-HaveOwnNames C token)))
            ∙ is_ok-failed report (ground (arith, e)),
      )
    ]
