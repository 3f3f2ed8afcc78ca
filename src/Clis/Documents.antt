-- ===== src/Clis/Documents.antt =====
-- cli_auth.py: the updaters of JSON files: what they share, `_update_claude` with claude_otel.py's
-- refresh of the headers, and `_update_pi`. The loop over the keys of a dict takes them in the order
-- of the source's text.
pub mod Loop
pub mod Headers
pub mod Fixed
pub mod Settings
use Prim.Native.Char.{code}
use mathlib.Core.List.{reverse}
use mathlib.Core.Option
use coding_agents_databricks.Base.{
  String, Bool, true, false, ◌&&◌, ◌||◌, not, Option, none, some, List, [], ◌∷◌, any, map, Result,
  ok, err, type_error, attribute_error, value_error, json_error, ◌>>=◌, ◌==◌, nat_eq, string_has_eq,
  if◌then◌else◌,
}
use coding_agents_databricks.Base.Text.{codes, is_prefix, contains}
use coding_agents_databricks.Base.Parse.{Text}
use coding_agents_databricks.Config.{universal}
use coding_agents_databricks.Json.{
  Value, Fields, Items, obj, arr, str, float, int, bool, null, field, end, cons, nil, get, get_or,
  has, put, is_text, truthy, as_dict, same_key, hashable,
}
use coding_agents_databricks.Proxy.Response.{is_in}
use coding_agents_databricks.Clis.{Edit}

-- `json.load` of a text file, with `none` for a `JSONDecodeError`, and `json.dumps(v, indent=2)`
pub record Documents : Type 0 where
  pub loads : Text → Option Value
  pub dumps : Value → Text

-- What an updater makes of a document.
abbrev pub Change : Type 0
Change = Value → Result (Option Value)

-- the reading with universal newlines, the change, and the text that is written
unfoldable pub edit_document : Documents → Change → Edit
edit_document C change text = elim (C.loads (universal false text)) [
  | none ↦ err json_error
  | some v ↦ change v >>= λ changed. ok (Option.map C.dumps changed)
]

-- `str.startswith`
unfoldable pub text_starts_with : String → String → Bool
text_starts_with p s = is_prefix (codes p) (codes s)

-- `str.endswith`
unfoldable pub text_ends_with : String → String → Bool
text_ends_with p s = is_prefix (reverse (codes p)) (reverse (codes s))

unfoldable mutual
  -- `a == b` of documents whose keys come in the same order
  pub same_value : Value → Value → Bool
  same_value (obj a) (obj b) = same_fields a b
  same_value (arr a) (arr b) = same_items a b
  same_value (str s) (str t) = s == t
  same_value (obj a) _ = false
  same_value (arr a) _ = false
  same_value a b = same_key a b

  pub same_fields : Fields → Fields → Bool
  same_fields end end = true
  same_fields (field k v a) (field j w b) = k == j && same_value v w && same_fields a b
  same_fields _ _ = false

  pub same_items : Items → Items → Bool
  same_items nil nil = true
  same_items (cons v a) (cons w b) = same_value v w && same_items a b
  same_items _ _ = false

-- `a + b` of texts
abbrev pub str_append : String → String → String
str_append String.[] t = t
str_append (String.◌∷◌ c s) t = String.◌∷◌ c (str_append s t)

-- `headers.split(",")`
unfoldable pub split_commas : String → List String
split_commas String.[] = String.[] ∷ []
split_commas (String.◌∷◌ c s) = elim (nat_eq (code c) b',') [
  | true ↦ String.[] ∷ split_commas s
  | false ↦ elim (split_commas s) [
    | [] ↦ String.◌∷◌ c String.[] ∷ []
    | part ∷ parts ↦ String.◌∷◌ c part ∷ parts
  ]
]

-- `",".join(parts)`
unfoldable pub join_commas : List String → String
join_commas [] = ""
join_commas (part ∷ []) = part
join_commas (part ∷ next ∷ parts) = str_append part (str_append "," (join_commas (next ∷ parts)))

unfoldable pub is_bearer : String → Bool
is_bearer part = text_starts_with "Authorization=Bearer " part

unfoldable pub bearer : String → String
bearer token = str_append "Authorization=Bearer " token

unfoldable pub replace_part : String → String → String
replace_part token part = if is_bearer part then bearer token else part

-- the parts with the new token, which is put at the end if no part had one
unfoldable pub replace_parts : String → List String → List String
replace_parts token [] = bearer token ∷ []
replace_parts token (part ∷ parts) =
    let rest = replace_parts token parts in
    if is_bearer part then bearer token ∷ map (replace_part token) parts else part ∷ rest

-- `_replace_authorization`
unfoldable pub replace_authorization : String → String → String
replace_authorization token headers = join_commas (replace_parts token (split_commas headers))

-- on a value that may be no text
unfoldable pub replace_header : String → Value → Result Value
replace_header token (str headers) = ok (str (replace_authorization token headers))
replace_header token _ = err attribute_error

-- the keys of `OTEL_SIGNALS`
abbrev pub otel_keys : List String
otel_keys =
    "OTEL_EXPORTER_OTLP_TRACES_HEADERS" ∷ "OTEL_EXPORTER_OTLP_LOGS_HEADERS"
    ∷ "OTEL_EXPORTER_OTLP_METRICS_HEADERS" ∷ []

-- A loop over keys that rewrites the values of those that are there, with whether one has changed.
unfoldable pub rewrite_each :
    (String → Value → Result (Bool × Value)) → List String → Bool → Fields → Result (Bool × Fields)
rewrite_each rewrite [] changed fs = ok (changed, fs)
rewrite_each rewrite (k ∷ ks) changed fs = elim (get k fs) [
  | none ↦ rewrite_each rewrite ks changed fs
  | some v ↦ rewrite k v >>= λ r. rewrite_each rewrite ks (changed || r.0) (put k r.1 fs)
]

-- a header in `refresh_claude_otel_token`, whose result the updater does not use
unfoldable pub refresh_header : String → String → Value → Result (Bool × Value)
refresh_header token k v = replace_header token v >>= λ w. ok (false, w)

-- `refresh_claude_otel_token` on an `env` that is no dict
unfoldable pub refresh_foreign : List String → Value → Result Bool
refresh_foreign [] env = ok false
refresh_foreign (k ∷ ks) env =
    is_in k env >>= λ found. if found then err type_error else refresh_foreign ks env

unfoldable pub is_otel_key : String → Bool
is_otel_key k = text_starts_with "OTEL_EXPORTER_OTLP_" k && text_ends_with "_HEADERS" k

unfoldable pub has_otel : Fields → Bool
has_otel end = false
has_otel (field k v env) = is_otel_key k || has_otel env

abbrev pub static_key : String
static_key = "ANTHROPIC_AUTH_TOKEN"

unfoldable pub set_static : String → Fields → Fields
set_static token env = if has static_key env then put static_key (str token) env else env

-- the end of `_update_claude`: the settings before and after, with whether a token has its place
unfoldable pub finish_claude : Bool → Fields → Fields → Result (Option Value)
finish_claude has_credential original settings =
    if not (truthy (get_or null "apiKeyHelper" settings)) && not has_credential
    then err value_error
    else if same_fields settings original
    then ok none
    else ok (some (obj settings))

unfoldable pub claude_env : String → Fields → Option Value → Result (Option Value)
claude_env token settings none = finish_claude false settings settings
claude_env token settings (some (obj env)) =
    rewrite_each (refresh_header token) otel_keys false (set_static token env) >>= λ r.
    finish_claude (has static_key env || has_otel env) settings (put "env" (obj r.1) settings)
claude_env token settings (some env) =
    refresh_foreign otel_keys env >>= λ _. finish_claude false settings settings

-- `_update_claude`
unfoldable pub update_claude : String → Change
update_claude token v = as_dict v >>= λ settings. claude_env token settings (get "env" settings)

-- the key of a provider
unfoldable pub pi_key : String → Option Value → Fields → Result (Option Fields)
pi_key token (some (str api_key)) provider =
    if text_starts_with "!" api_key || api_key == token
    then ok none
    else ok (some (put "apiKey" (str token) provider))
pi_key token _ provider = err value_error

-- the provider of `_update_pi`: a new one, if it changes
unfoldable pub pi_provider : String → Option Value → Result (Option Fields)
pi_provider token none = ok none
pi_provider token (some null) = ok none
pi_provider token (some (obj provider)) = pi_key token (get "apiKey" provider) provider
pi_provider token (some _) = err value_error

-- the document with a new provider
unfoldable pub put_provider : Fields → Fields → Fields → Value
put_provider config providers provider =
    obj (put "providers" (obj (put "databricks-claude" (obj provider) providers)) config)

-- `_update_pi`
unfoldable pub update_pi : String → Change
update_pi token v = as_dict v >>= λ config.
    as_dict (get_or (obj end) "providers" config) >>= λ providers.
    pi_provider token (get "databricks-claude" providers) >>= λ provider.
    ok (Option.map (put_provider config providers) provider)
