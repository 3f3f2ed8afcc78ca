-- ===== src/Clis.antt =====
-- cli_auth.py: the literal tokens in the files of the CLIs. A file is the text that it holds and
-- whether its mode is 0600; each updater reads and rewrites one file, and the rewrite is one step,
-- since the new text replaces the old one under another name. `json.loads` and `json.dumps` with
-- the indentation of two are outside, as the record Documents.
pub mod Documents
pub mod Opencode
pub mod Lines
pub mod Dotenv
pub mod Hermes
pub mod Targets
pub mod Report
pub mod Again
pub mod Repeatable
pub mod Refresh
use coding_agents_databricks.Base.{
  String, Bool, true, false, Option, none, some, List, [], ◌∷◌, ◌++◌, Result, ok, err, Error,
  runtime_error, if◌then◌else◌,
}
use coding_agents_databricks.Base.Parse.{Text}
use coding_agents_databricks.Base.Dict.{Dict, find, store}

pub record File : Type 0 where
  pub content : Text
  pub is_private : Bool

-- What the file system refuses to an updater, with the class of the exception: to change the mode,
-- to
-- read, to replace the file, or a step after that (the sync of the directory, a last `chmod`).
pub record Faults : Type 0 where
  pub chmod : Option Error
  pub read : Option Error
  pub replace : Option Error
  pub finish : Option Error

abbrev pub no_faults : Faults
no_faults = record { chmod = none; read = none; replace = none; finish = none }

-- What an updater makes of a text: an exception, the text as it is, or another one.
abbrev pub Edit : Type 0
Edit = Text → Result (Option Text)

-- `_atomic_write_text`, and what an updater returns after it
unfoldable pub atomic_write_text : Faults → Text → File → Result Bool × File
atomic_write_text faults text f = elim faults.replace [
  | some e ↦ (err e, f)
  | none ↦
      let written : File = record { content = text; is_private = true } in
      elim faults.finish [ some e ↦ (err e, written) | none ↦ (ok true, written) ]
]

-- what an updater does once the text is read
unfoldable pub write_edited : Faults → Result (Option Text) → File → Result Bool × File
write_edited faults (err e) f = (err e, f)
write_edited faults (ok none) f = (ok false, f)
write_edited faults (ok (some text)) f = atomic_write_text faults text f

unfoldable pub read_and_edit : Faults → Edit → File → Result Bool × File
read_and_edit faults edit f = elim faults.read [
  | some e ↦ (err e, f)
  | none ↦ write_edited faults (edit f.content) f
]

-- What the updaters share, on a file that exists: `_ensure_private`, the reading and the rewrite.
unfoldable pub update_file : Faults → Edit → File → Result Bool × File
update_file faults edit f = elim faults.chmod [
  | some e ↦ (err e, f)
  | none ↦ read_and_edit faults edit (record f { is_private = true })
]

-- The files under the home directory, each by the name of the CLI that reads it. A name without a
-- file is one whose path does not exist.
abbrev pub Home : Type 0
Home = Dict File

unfoldable pub store_result : String → Home → Result Bool × File → Result Bool × Home
store_result name home (outcome, f) = (outcome, store name f home)

-- An updater, with what it raises as a value.
unfoldable pub update_cli : Faults → String → Edit → Home → Result Bool × Home
update_cli faults name edit home = elim (find name home) [
  | none ↦ (ok false, home)
  | some f ↦ store_result name home (update_file faults edit f)
]

-- `CLIAuthRefreshResult`
pub record RefreshResult : Type 0 where
  pub updated : List String
  pub skipped : List String
  pub failed : List String

-- `CLIAuthRefreshResult.ok`
unfoldable pub is_ok : RefreshResult → Bool
is_ok report = elim report.failed [ [] ↦ true | _ ∷ _ ↦ false ]

unfoldable pub note_outcome : String → Result Bool → RefreshResult → RefreshResult
note_outcome name (err e) report = record report { failed = report.failed ++ name ∷ [] }
note_outcome name (ok true) report = record report { updated = report.updated ++ name ∷ [] }
note_outcome name (ok false) report = record report { skipped = report.skipped ++ name ∷ [] }

-- the loop over `updaters`, with the faults that each of them meets
unfoldable pub refresh_each :
    (String → Faults) → List (String × Edit) → Home → RefreshResult → RefreshResult × Home
refresh_each faults [] home report = (report, home)
refresh_each faults ((name, edit) ∷ targets) home report =
    let (outcome, home') = update_cli (faults name) name edit home in
    refresh_each faults targets home' (note_outcome name outcome report)

abbrev pub no_report : RefreshResult
no_report = record { updated = []; skipped = []; failed = [] }

-- `update_cli_tokens`, given whether the lock was free in time
unfoldable pub update_all :
    Bool → (String → Faults) → List (String × Edit) → Home → RefreshResult × Home
update_all false faults targets home = (record no_report { failed = "refresh_lock" ∷ [] }, home)
update_all true faults targets home = refresh_each faults targets home no_report
