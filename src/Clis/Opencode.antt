-- ===== src/Clis/Opencode.antt =====
-- cli_auth.py: `_update_opencode` and `_update_opencode_provider_headers`. The loop over the set of the
-- managed ids takes them in the order of the source's text; every failure in it is the same ValueError,
-- and no id reads what another one wrote.
pub mod Providers
pub mod Credentials
use Prim.Native.Char.{code}
use mathlib.Core.List.{reverse}
use mathlib.Core.Option
use coding_agents_databricks.Base.{
  String, Bool, true, false, ◌&&◌, ◌||◌, not, Option, none, some, List, [], ◌∷◌, any, map, Result,
  ok, err, type_error, attribute_error, value_error, json_error, ◌>>=◌, ◌==◌, nat_eq, string_has_eq,
  if◌then◌else◌,
}
use coding_agents_databricks.Base.Text.{codes, is_prefix, contains}
use coding_agents_databricks.Base.Parse.{Text}
use coding_agents_databricks.Config.{universal}
use coding_agents_databricks.Json.{
  Value, Fields, Items, obj, arr, str, float, int, bool, null, field, end, cons, nil, get, get_or,
  has, put, is_text, truthy, as_dict, same_key, hashable,
}
use coding_agents_databricks.Proxy.Response.{is_in}
use coding_agents_databricks.Clis.{Edit}
use coding_agents_databricks.Clis.Documents.{Change, rewrite_each, str_append, text_starts_with}

-- `_CODA_OPENCODE_PROVIDER_IDS`
abbrev pub opencode_provider_ids : List String
opencode_provider_ids =
    "databricks" ∷ "databricks-anthropic" ∷ "databricks-openai" ∷ "databricks-google"
    ∷ "databricks-oss" ∷ []

-- `is_opencode_api_credential`
unfoldable pub is_opencode_api_credential : Value → Bool
is_opencode_api_credential (obj cred) = is_text "api" (get_or null "type" cred) && has "key" cred
is_opencode_api_credential _ = false

unfoldable pub set_key : String → Value → Bool × Value
set_key token (obj cred) =
    if is_text token (get_or null "key" cred)
    then (false, obj cred)
    else (true, obj (put "key" (str token) cred))
set_key token cred = (false, cred)

-- one provider of `_update_opencode`
unfoldable pub rotate_credential : String → String → Value → Result (Bool × Value)
rotate_credential token provider_id provider =
    if is_opencode_api_credential provider then ok (set_key token provider) else err value_error

unfoldable pub items_managed : List String → Items → Result Bool
items_managed ids nil = ok false
items_managed ids (cons x xs) =
    let rest = items_managed ids xs in
    (if hashable x then rest else err type_error) >>= λ found.
    ok (any (λ k. is_text k x) ids || found)

-- `_CODA_OPENCODE_PROVIDER_IDS.intersection(v)` of what is no dict, and `v[provider_id]` then. No
-- id is one character, as those of a text are.
unfoldable pub not_a_dict : Value → Result (Option Value)
not_a_dict (arr xs) =
    items_managed opencode_provider_ids xs >>= λ found. if found then err type_error else ok none
not_a_dict (str s) = ok none
not_a_dict _ = err type_error

unfoldable pub if_changed : (Fields → Value) → Bool × Fields → Option Value
if_changed document (changed, fs) = if changed then some (document fs) else none

-- `_update_opencode`
unfoldable pub update_opencode : String → Change
update_opencode token (obj auth) =
    rewrite_each (rotate_credential token) opencode_provider_ids false auth >>= λ r.
    ok (if_changed obj r)
update_opencode token auth = not_a_dict auth

-- `_CODA_OPENCODE_REQUIRED_AUTH_HEADER_IDS`
unfoldable pub requires_header : String → Bool
requires_header provider_id = provider_id == "databricks" || provider_id == "databricks-anthropic"

-- `options["apiKey"]`, where it is a text
unfoldable pub rotate_api_key : String → String → Fields → Bool × Fields
rotate_api_key token api_key options =
    if not (text_starts_with "{" api_key) && not (api_key == token)
    then (true, put "apiKey" (str token) options)
    else (false, options)

-- `headers["Authorization"]`, where it is a text: the headers with a new one, if they change
unfoldable pub rotate_authorization : String → String → Fields → Option Fields
rotate_authorization token authorization headers =
    if not (contains "{env:" authorization) && not (authorization == str_append "Bearer " token)
    then some (put "Authorization" (str (str_append "Bearer " token)) headers)
    else none

unfoldable pub without_header : String → Result (Option Fields)
without_header provider_id = if requires_header provider_id then err value_error else ok none

-- what may stand at `headers["Authorization"]`
unfoldable pub header_at : String → String → Option Value → Fields → Result (Option Fields)
header_at token provider_id none headers = without_header provider_id
header_at token provider_id (some (str authorization)) headers =
    ok (rotate_authorization token authorization headers)
header_at token provider_id (some _) headers = err value_error

-- what may stand at `options.get("headers")`, and the new headers
unfoldable pub rotate_headers : String → String → Option Value → Result (Option Fields)
rotate_headers token provider_id (some (obj headers)) =
    header_at token provider_id (get "Authorization" headers) headers
rotate_headers token provider_id (some null) = without_header provider_id
rotate_headers token provider_id none = without_header provider_id
rotate_headers token provider_id (some _) = err value_error

unfoldable pub put_headers : Bool × Fields → Option Fields → Bool × Fields
put_headers options none = options
put_headers (changed, options) (some headers) = (true, put "headers" (obj headers) options)

unfoldable pub key_at : String → String → Option Value → Fields → Result (Bool × Fields)
key_at token provider_id (some (str api_key)) options =
    rotate_headers token provider_id (get "headers" options) >>= λ headers.
    ok (put_headers (rotate_api_key token api_key options) headers)
key_at token provider_id _ options = err value_error

unfoldable pub options_at : String → String → Option Value → Fields → Result (Bool × Value)
options_at token provider_id (some (obj options)) provider =
    key_at token provider_id (get "apiKey" options) options >>= λ r.
    ok (r.0, obj (put "options" (obj r.1) provider))
options_at token provider_id _ provider = err value_error

-- one provider of `_update_opencode_provider_headers`
unfoldable pub rotate_provider : String → String → Value → Result (Bool × Value)
rotate_provider token provider_id (obj provider) =
    options_at token provider_id (get "options" provider) provider
rotate_provider token provider_id _ = err value_error

unfoldable pub rotate_providers : String → Fields → Option Value → Result (Option Value)
rotate_providers token config (some (obj providers)) =
    rewrite_each (rotate_provider token) opencode_provider_ids false providers >>= λ r.
    ok (if_changed (λ fs. obj (put "provider" (obj fs) config)) r)
rotate_providers token config _ = ok none

-- `_update_opencode_provider_headers`
unfoldable pub update_opencode_provider_headers : String → Change
update_opencode_provider_headers token v =
    as_dict v >>= λ config. rotate_providers token config (get "provider" config)
