-- ===== src/Config.antt =====
-- utils.py and pat_rotator.py: the sections of ~/.databrickscfg that a rewrite keeps, and the
-- environments that leave one source of credentials. A file is the list of its code points; its
-- lock is the one step that a rewrite is.
pub mod Sections
pub mod Environment
use mathlib.Core.List.{reverse}
use coding_agents_databricks.Base.{
  ℕ, Bool, true, false, ◌&&◌, ◌||◌, Option, none, some, List, [], ◌∷◌, ◌++◌, nat_eq, if◌then◌else◌,
  String,
}
use coding_agents_databricks.Base.Text.{codes, is_prefix}
use coding_agents_databricks.Base.Parse.{Text, strip, same_text}
use coding_agents_databricks.Base.Dict.{Dict, store, pop}

-- The universal newlines of a text file; `cr` tells that a carriage return stands just before.
unfoldable pub universal : Bool → Text → Text
universal cr [] = []
universal cr (c ∷ cs) = elim (nat_eq c 13) [
  | true ↦ 10 ∷ universal true cs
  | false ↦ elim (cr && nat_eq c 10) [ true ↦ universal false cs | false ↦ c ∷ universal false cs ]
]

unfoldable pub put_first : ℕ → List Text → List Text
put_first c [] = (c ∷ []) ∷ []
put_first c (line ∷ lines) = (c ∷ line) ∷ lines

-- `readlines()`: each line with its newline
unfoldable pub readlines : Text → List Text
readlines [] = []
readlines (c ∷ cs) = elim (nat_eq c 10) [
  | true ↦ (c ∷ []) ∷ readlines cs
  | false ↦ put_first c (readlines cs)
]

unfoldable pub concat : List Text → Text
concat [] = []
concat (line ∷ lines) = line ++ concat lines

-- Is the stripped line the header of a section?
unfoldable pub is_header : Text → Bool
is_header stripped = is_prefix (codes "[") stripped && is_prefix (codes "]") (reverse stripped)

-- `in_default` after a line
unfoldable pub enter : Bool → Text → Bool
enter in_default stripped =
    if is_header stripped then same_text stripped (codes "[DEFAULT]") else in_default

-- the lines outside the section DEFAULT
unfoldable pub keep : Bool → List Text → List Text
keep in_default [] = []
keep in_default (line ∷ lines) =
    let now = enter in_default (strip line) in
    let rest = keep now lines in if now then rest else line ∷ rest

-- the text between newlines, if there is some
unfoldable pub wrap : Text → Text
wrap [] = []
wrap (c ∷ cs) = 10 ∷ ((c ∷ cs) ++ 10 ∷ [])

-- `read_non_default_databrickscfg_sections`, given the file, if it can be read
unfoldable pub read_sections : Option Text → Text
read_sections none = []
read_sections (some content) =
    wrap (strip (concat (keep false (readlines (universal false content)))))

-- the section DEFAULT, followed by the other ones
unfoldable pub with_default : Text → Text → Text → Text
with_default host token preserved =
    codes "[DEFAULT]"
    ++ 10 ∷ ((codes "host = " ++ host) ++ 10 ∷ ((codes "token = " ++ token) ++ 10 ∷ preserved))

-- What happens to a write: the lock or the atomic replacement fails, or the change of the mode
-- after it, or nothing.
pub data Write : Type 0 where
  write_fails chmod_fails write_works : Write

-- `_write_databrickscfg`: the result and the file afterwards
unfoldable pub write_databrickscfg : Write → Text → Text → Option Text → Bool × Option Text
write_databrickscfg write_fails host token file = (false, file)
write_databrickscfg chmod_fails host token file =
    (false, some (with_default host token (read_sections file)))
write_databrickscfg write_works host token file =
    (true, some (with_default host token (read_sections file)))

-- the file after the writes of several tokens
unfoldable pub write_all : Text → List (Write × Text) → Option Text → Option Text
write_all host [] file = file
write_all host ((w, token) ∷ writes) file =
    write_all host writes (write_databrickscfg w host token file).1

-- `ensure_https`
unfoldable pub ensure_https : Text → Text
ensure_https [] = []
ensure_https (c ∷ cs) =
    if is_prefix (codes "http://") (c ∷ cs) || is_prefix (codes "https://") (c ∷ cs)
    then c ∷ cs
    else codes "https://" ++ c ∷ cs

abbrev pub oauth_env_vars : List String
oauth_env_vars = "DATABRICKS_CLIENT_ID" ∷ "DATABRICKS_CLIENT_SECRET" ∷ []

abbrev pub profile_shadowing_env_vars : List String
profile_shadowing_env_vars =
    "DATABRICKS_TOKEN" ∷ "DATABRICKS_HOST" ∷ "DATABRICKS_WORKSPACE_ID" ∷ "DATABRICKS_APP_NAME"
    ∷ "DATABRICKS_APP_URL" ∷ "DATABRICKS_CLIENT_ID" ∷ "DATABRICKS_CLIENT_SECRET" ∷ []

-- `for key in keys: env[key] = ""`
unfoldable pub blank_all : List String → Dict String → Dict String
blank_all [] env = env
blank_all (key ∷ keys) env = blank_all keys (store key "" env)

-- `for key in keys: env.pop(key, None)`
unfoldable pub pop_all : List String → Dict String → Dict String
pop_all [] env = env
pop_all (key ∷ keys) env = pop_all keys (pop key env)

-- `pat_only_env`
unfoldable pub pat_only_env : Dict String → Dict String
pat_only_env env = blank_all oauth_env_vars env

-- `databrickscfg_only_env`
unfoldable pub databrickscfg_only_env : Dict String → Dict String
databrickscfg_only_env env =
    pop_all (oauth_env_vars ++ "DATABRICKS_HOST" ∷ "DATABRICKS_TOKEN" ∷ []) env

-- `config_profile_env`
unfoldable pub config_profile_env : String → Dict String → Dict String
config_profile_env profile env =
    pop_all profile_shadowing_env_vars (store "DATABRICKS_CONFIG_PROFILE" profile env)
