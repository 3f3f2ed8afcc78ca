-- ===== src/Clis/Hermes.antt =====
-- cli_auth.py: `_update_hermes`, which follows the blocks of a YAML file by their indentation.
pub mod Indented
pub mod Key
pub mod Again
pub mod Owned
use mathlib.Core.List.{reverse}
use coding_agents_databricks.Base.{
  ℕ, zero, suc, ◌+◌, Bool, true, false, ◌&&◌, ◌||◌, not, Option, none, some, List, [], ◌∷◌, ◌++◌,
  ok, err, value_error, leb, nat_eq, if◌then◌else◌,
}
use coding_agents_databricks.Base.Text.{codes, is_prefix}
use coding_agents_databricks.Base.Parse.{Text, strip, same_text, is_line_break}
use coding_agents_databricks.Base.Url.{
  Url, urlsplit, partition, or_empty, port, hostname, no_userinfo,
}
use coding_agents_databricks.Config.{universal, put_first, concat}
use coding_agents_databricks.Clis.{Edit}
use coding_agents_databricks.Clis.Dotenv.{if_different}

-- `splitlines(keepends=True)` of a text without carriage returns
unfoldable pub lines_with_ends : Text → List Text
lines_with_ends [] = []
lines_with_ends (c ∷ cs) = elim (is_line_break c) [
  | true ↦ (c ∷ []) ∷ lines_with_ends cs
  | false ↦ put_first c (lines_with_ends cs)
]

-- What the loop knows: for each indentation the last `base_url` of the open block, the number of
-- trusted blocks, and that of refreshed keys.
pub record Blocks : Type 0 where
  pub trusted_by_indent : List (ℕ × Bool)
  pub trusted_blocks : ℕ
  pub refreshed_keys : ℕ

-- the spaces at the front
unfoldable pub indent_of : Text → ℕ
indent_of [] = 0
indent_of (c ∷ cs) = let n = indent_of cs in if nat_eq c 32 then suc n else 0

unfoldable pub spaces : ℕ → Text
spaces zero = []
spaces (suc n) = 32 ∷ spaces n

-- the indentations that a line with this one closes
unfoldable pub drop_deeper : ℕ → List (ℕ × Bool) → List (ℕ × Bool)
drop_deeper indent [] = []
drop_deeper indent ((known, b) ∷ ks) =
    let rest = drop_deeper indent ks in if leb known indent then (known, b) ∷ rest else rest

unfoldable pub close_blocks : ℕ → Text → List (ℕ × Bool) → List (ℕ × Bool)
close_blocks indent stripped known =
    if is_prefix (codes "-") stripped then [] else drop_deeper indent known

-- `trusted_by_indent[indent] = trusted`
unfoldable pub set_trusted : ℕ → Bool → List (ℕ × Bool) → List (ℕ × Bool)
set_trusted indent trusted [] = (indent, trusted) ∷ []
set_trusted indent trusted ((known, b) ∷ ks) =
    if nat_eq known indent
    then (known, trusted) ∷ ks
    else (known, b) ∷ set_trusted indent trusted ks

-- the truth of `trusted_by_indent.get(indent)`
unfoldable pub is_trusted : ℕ → List (ℕ × Bool) → Bool
is_trusted indent [] = false
is_trusted indent ((known, b) ∷ ks) = if nat_eq known indent then b else is_trusted indent ks

-- `text.split(" #", 1)[0]`
unfoldable pub before_comment : Text → Text
before_comment [] = []
before_comment (c ∷ cs) =
    let rest = before_comment cs in if is_prefix (codes " #") (c ∷ cs) then [] else c ∷ rest

unfoldable pub lstrip_of : (ℕ → Bool) → Text → Text
lstrip_of drop [] = []
lstrip_of drop (c ∷ cs) = let rest = lstrip_of drop cs in if drop c then rest else c ∷ cs

unfoldable pub rstrip_of : (ℕ → Bool) → Text → Text
rstrip_of drop text = reverse (lstrip_of drop (reverse text))

abbrev pub is_quote : ℕ → Bool
is_quote c = nat_eq c b'\'' || nat_eq c b'"'

-- the value of a line that begins with `base_url:`
unfoldable pub base_url_of : Text → Text
base_url_of stripped =
    let value = strip (before_comment (or_empty (partition (nat_eq b':') stripped).1)) in
    rstrip_of (nat_eq b'/') (rstrip_of is_quote (lstrip_of is_quote value))

-- `CONTENT_FILTER_PROXY_URL` is http://127.0.0.1:4000.
unfoldable pub is_proxy_port : Option (Option ℕ) → Bool
is_proxy_port (some (some n)) = nat_eq n 4000
is_proxy_port _ = false

unfoldable pub is_root : Text → Bool
is_root path = same_text path [] || same_text path (codes "/")

unfoldable pub is_proxy : Url → Bool
is_proxy url =
    same_text url.scheme (codes "http")
    && (same_text (hostname url) (codes "127.0.0.1")
        || same_text (hostname url) (codes "localhost"))
    && is_proxy_port (port url)
    && is_root url.path
    && no_userinfo url
    && same_text url.query []
    && same_text url.fragment []

-- `trusted`
unfoldable pub is_proxy_url : Text → Bool
is_proxy_url text = elim (urlsplit text) [ none ↦ false | some url ↦ is_proxy url ]

unfoldable pub ends_with_newline : Text → Bool
ends_with_newline [] = false
ends_with_newline (c ∷ []) = nat_eq c 10
ends_with_newline (c ∷ d ∷ cs) = ends_with_newline (d ∷ cs)

unfoldable pub api_key_line : ℕ → Text → Text → Text
api_key_line indent token line =
    spaces indent
    ++ (codes "api_key: " ++ (token ++ (if ends_with_newline line then 10 ∷ [] else [])))

unfoldable pub count_trusted : Bool → ℕ → ℕ
count_trusted trusted n = if trusted then suc n else n

-- a line that is neither blank nor a comment, once blocks are closed
unfoldable pub visit_open : Text → Text → Text → ℕ → Blocks → Text × Blocks
visit_open token line stripped indent st =
    if is_prefix (codes "base_url:") stripped
    then (
      line,
      record st {
        trusted_by_indent =
            set_trusted indent (is_proxy_url (base_url_of stripped)) st.trusted_by_indent;
        trusted_blocks = count_trusted (is_proxy_url (base_url_of stripped)) st.trusted_blocks;
      },
    )
    else if is_prefix (codes "api_key:") stripped && is_trusted indent st.trusted_by_indent
    then (api_key_line indent token line, record st { refreshed_keys = suc st.refreshed_keys })
    else (line, st)

unfoldable pub skips_line : Text → Bool
skips_line stripped = same_text stripped [] || is_prefix (codes "#") stripped

unfoldable pub close : Text → Text → Blocks → Blocks
close line stripped st = record st {
  trusted_by_indent = close_blocks (indent_of line) stripped st.trusted_by_indent;
}

-- one iteration of the loop
unfoldable pub visit_line : Text → Text → Blocks → Text × Blocks
visit_line token line st =
    if skips_line (strip line)
    then (line, st)
    else visit_open token line (strip line) (indent_of line) (close line (strip line) st)

unfoldable pub visit_lines : Text → List Text → Blocks → List Text × Blocks
visit_lines token [] st = ([], st)
visit_lines token (line ∷ lines) st =
    let (line', st') = visit_line token line st in
    let (lines', last) = visit_lines token lines st' in (line' ∷ lines', last)

abbrev pub no_blocks : Blocks
no_blocks = record { trusted_by_indent = []; trusted_blocks = 0; refreshed_keys = 0 }

-- `_update_hermes` on what the file holds
unfoldable pub update_hermes : Text → Edit
update_hermes token text =
    let content = universal false text in
    let (lines, st) = visit_lines token (lines_with_ends content) no_blocks in
    if nat_eq st.trusted_blocks 0
    then ok none
    else if nat_eq st.refreshed_keys st.trusted_blocks
    then ok (if_different content (concat lines))
    else err value_error
