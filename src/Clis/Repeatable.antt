-- ===== src/Clis/Repeatable.antt =====
-- cli_auth.py: what every updater writes, it would leave as it is.
use mathlib.Core.Path.{subst}
use mathlib.Core.Option
use coding_agents_databricks.Base.{
  none_of, String, ◌≡◌, refl, sym, ◌∙◌, false, Option, none, some, [], ◌∷◌, All, Result, ok, err,
  string_has_eq, arith, inl, inr, nat_eq, ok_inj, some_inj, ◌>>=◌, >>=-eq-ok, json_error,
  Option-cases,
}
use coding_agents_databricks.Base.Text.{codes}
use coding_agents_databricks.Base.Parse.{Text, is_line_break}
use coding_agents_databricks.Base.Dict.{find}
use coding_agents_databricks.Config.{universal}
use coding_agents_databricks.Config.Sections.Lines.{NoBreak}
use coding_agents_databricks.Json.{Value}
use coding_agents_databricks.Clis.{File, Home}
use coding_agents_databricks.Clis.Report.{HaveOwnNames}
use coding_agents_databricks.Clis.Again.{IsRepeatable, AreRepeatable}
use coding_agents_databricks.Clis.Targets.{updaters}
use coding_agents_databricks.Clis.Documents.{
  Documents, Change, edit_document, update_claude, update_pi,
}
use coding_agents_databricks.Clis.Opencode.{update_opencode, update_opencode_provider_headers}
use coding_agents_databricks.Clis.Documents.Fixed.{IsFixed, update_opencode-IsFixed}
use coding_agents_databricks.Clis.Opencode.Providers.{update_opencode_provider_headers-IsFixed}
use coding_agents_databricks.Clis.Documents.Settings.{update_claude-IsFixed, update_pi-IsFixed}
use coding_agents_databricks.Clis.Dotenv.{update_codex, update_gemini}
use coding_agents_databricks.Clis.Dotenv.Again.{replace_dotenv_key_again}
use coding_agents_databricks.Clis.Hermes.Again.{IsPlain, update_hermes_again}

-- A token without line breaks and commas.
abbrev pub IsClean : String → Type 0
IsClean token = All (λ c. (is_line_break c ≡ false) × (nat_eq c b',' ≡ false)) (codes token)

-- What is written of the document in a file is read as that document.
abbrev pub ReadsBack : Documents → Change → Option File → Type 0
ReadsBack C change none = Unit
ReadsBack C change (some f) =
    (v w : Value)
    → C.loads (universal false f.content) ≡ some v
    → change v ≡ ok (some w)
    → C.loads (universal false (C.dumps w)) ≡ some w

-- what a document was changed to, if the file was
abbrev IsChanged : Documents → Change → Option Value → Text → Type 0
IsChanged C change o u =
    (v : Value) × (w : Value) × (o ≡ some v) × (change v ≡ ok (some w)) × (C.dumps w ≡ u)

map-IsChanged :
    (C : Documents) (change : Change) (v : Value) (changed : Option Value) (u : Text)
    → change v ≡ ok changed
    → Option.map C.dumps changed ≡ some u
    → IsChanged C change (some v) u
map-IsChanged C change v none u c e = absurd cc
map-IsChanged C change v (some w) u c e = (v, w, refl, c, some_inj e)

edit_of : Documents → Change → Option Value → Result (Option Text)
edit_of C change none = err json_error
edit_of C change (some v) = change v >>= λ changed. ok (Option.map C.dumps changed)

edit_of-IsChanged :
    (C : Documents) (change : Change) (o : Option Value) (u : Text)
    → edit_of C change o ≡ ok (some u)
    → IsChanged C change o u
unfolding edit_of
edit_of-IsChanged C change none u h = absurd cc
edit_of-IsChanged C change (some v) u h =
    let (changed, c, rest) = >>=-eq-ok (change v) _ h in
    map-IsChanged C change v changed u c (ok_inj rest)

edit_document-edit_of :
    (C : Documents) (change : Change) (t : Text)
    → edit_document C change t ≡ edit_of C change (C.loads (universal false t))
unfolding edit_document edit_of
edit_document-edit_of C change t = elim (Option-cases (C.loads (universal false t))) [
  | inl n ↦ rw (n, edit_document) refl
  | inr (v, e) ↦ rw (e, edit_document) refl
]

edit_document-none :
    (C : Documents) (change : Change) (t : Text) (v : Value)
    → C.loads (universal false t) ≡ some v
    → change v ≡ ok none
    → edit_document C change t ≡ ok none
unfolding edit_document
edit_document-none C change t v e c = rw (e, edit_document) (rw c refl)

document_repeats :
    (C : Documents) (change : Change) (f : File)
    → IsFixed change
    → ReadsBack C change (some f)
    → IsRepeatable (edit_document C change) f
document_repeats C change f fixed back u h =
    let (v, w, e, c, d) =
      edit_of-IsChanged C change (C.loads (universal false f.content)) u
        (sym (edit_document-edit_of C change f.content) ∙ h) in
    subst (λ x. edit_document C change x ≡ ok none) d
      (edit_document-none C change (C.dumps w) w (back v w e c) (fixed v w c))

clean_breaks :
    (t : Text)
    → All (λ c. (is_line_break c ≡ false) × (nat_eq c b',' ≡ false)) t
    → NoBreak t × All IsPlain t × All (λ c. nat_eq c b',' ≡ false) t
unfolding is_line_break
clean_breaks [] a = ((tt, tt), tt, tt)
clean_breaks (c ∷ t) ((b, n), later) =
    let ((f, r), p, k) = clean_breaks t later in
    let f1 : nat_eq c 10 ≡ false = ground (arith, b) in
    let r1 : nat_eq c 13 ≡ false = ground (arith, b) in
    (((f1, f), (r1, r)), (b ∙ sym f1, p), (n, k))

pub updaters-HaveOwnNames : (C : Documents) (token : String) → HaveOwnNames (updaters C token)
unfolding updaters
updaters-HaveOwnNames C token = (
  (refl, (refl, (refl, (refl, (refl, (refl, tt)))))),
  (
    (refl, (refl, (refl, (refl, (refl, tt))))),
    (
      (refl, (refl, (refl, (refl, tt)))),
      ((refl, (refl, (refl, tt))), ((refl, (refl, tt)), ((refl, tt), (tt, tt)))),
    ),
  ),
)

-- What is assumed of the files before a refresh: their documents are read back as they are written,
-- and the lines of the YAML file end with line feeds.
abbrev pub AreReadable : Documents → String → Home → Type 0
AreReadable C token home =
    ReadsBack C (update_claude token) (find "claude" home)
    × ReadsBack C (update_pi token) (find "pi" home)
    × ReadsBack C (update_opencode token) (find "opencode" home)
    × ReadsBack C (update_opencode_provider_headers token) (find "opencode_provider" home)
    × ((f : File) → find "hermes" home ≡ some f → All IsPlain (universal false f.content))

openai_breaks : NoBreak (codes "OPENAI_API_KEY")
openai_breaks = (
  none_of (λ c. nat_eq c 10) (codes "OPENAI_API_KEY") refl,
  none_of (λ c. nat_eq c 13) (codes "OPENAI_API_KEY") refl,
)

gemini_breaks : NoBreak (codes "GEMINI_API_KEY")
gemini_breaks = (
  none_of (λ c. nat_eq c 10) (codes "GEMINI_API_KEY") refl,
  none_of (λ c. nat_eq c 13) (codes "GEMINI_API_KEY") refl,
)

pub updaters-AreRepeatable :
    (C : Documents) (token : String) (home : Home)
    → IsClean token
    → AreReadable C token home
    → AreRepeatable home (updaters C token)
unfolding updaters update_codex update_gemini
updaters-AreRepeatable C token home clean (claude, pi, opencode, provider, hermes) =
    let (breaks, plain, comma) = clean_breaks (codes token) clean in
    let document =
      λ (change : Change) (o : Option File) (fixed : IsFixed change) (back : ReadsBack C change o)
          (f : File) (e : o ≡ some f).
        document_repeats C change f fixed (subst (ReadsBack C change) e back) in
    (
      document (update_claude token) (find "claude" home) (update_claude-IsFixed token comma)
          claude,
      (
        document (update_pi token) (find "pi" home) (update_pi-IsFixed token) pi,
        (
          λ f e.
              replace_dotenv_key_again b'O' (codes "PENAI_API_KEY") (codes token) openai_breaks
                breaks f.content,
          (
            document (update_opencode token) (find "opencode" home) (update_opencode-IsFixed token)
                opencode,
            (
              document (update_opencode_provider_headers token) (find "opencode_provider" home)
                  (update_opencode_provider_headers-IsFixed token) provider,
              (
                λ f e.
                    replace_dotenv_key_again b'G' (codes "EMINI_API_KEY") (codes token)
                      gemini_breaks breaks f.content,
                (
                  λ f e u h.
                      update_hermes_again (codes token) breaks plain f.content u (hermes f e) h,
                  tt,
                ),
              ),
            ),
          ),
        ),
      ),
    )
