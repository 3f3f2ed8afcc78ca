-- ===== src/Clis/Dotenv.antt =====
-- cli_auth.py: `_replace_dotenv_key`, and the two updaters that are a call of it. The pattern's `^`
-- and `$` stand at the ends of the lines between line feeds, and `.*` is what is between them.
pub mod Again
use coding_agents_databricks.Base.{
  Bool, true, false, Option, none, some, List, [], ◌∷◌, ◌++◌, any, map, ok, err, value_error,
  nat_eq, if◌then◌else◌,
}
use coding_agents_databricks.Base.Text.{codes, is_prefix}
use coding_agents_databricks.Base.Parse.{Text, same_text}
use coding_agents_databricks.Config.{universal, readlines, concat}
use coding_agents_databricks.Clis.{Edit}

-- the newline at the end of a line, if it has one
unfoldable pub line_end : Text → Text
line_end [] = []
line_end (c ∷ []) = if nat_eq c 10 then 10 ∷ [] else []
line_end (c ∷ d ∷ cs) = line_end (d ∷ cs)

unfoldable pub has_key : Text → Text → Bool
has_key key line = is_prefix (key ++ codes "=") line

unfoldable pub key_line : Text → Text → Text
key_line key value = key ++ codes "=" ++ value

-- `pattern.sub` on one line
unfoldable pub replace_line : Text → Text → Text → Text
replace_line key value line = if has_key key line then key_line key value ++ line_end line else line

unfoldable pub replace_lines : Text → Text → Text → Text
replace_lines key value content = concat (map (replace_line key value) (readlines content))

unfoldable pub if_different : Text → Text → Option Text
if_different content new = if same_text new content then none else some new

-- `_replace_dotenv_key` on what the file holds
unfoldable pub replace_dotenv_key : Text → Text → Edit
replace_dotenv_key key value text =
    let content = universal false text in
    if any (has_key key) (readlines content)
    then ok (if_different content (replace_lines key value content))
    else err value_error

-- `_update_codex`
unfoldable pub update_codex : Text → Edit
update_codex token = replace_dotenv_key (codes "OPENAI_API_KEY") token

-- `_update_gemini`
unfoldable pub update_gemini : Text → Edit
update_gemini token = replace_dotenv_key (codes "GEMINI_API_KEY") token
