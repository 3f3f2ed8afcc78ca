-- ===== src/Proxy/Request.antt =====
-- content_filter_proxy.py: `sanitize_tool_schemas` and `strip_unsupported_sampling_params`. The
-- source changes the parsed request in place; the model returns the changed request. What is raised
-- here leaves `do_POST`, so that a half-changed request is never sent.
pub mod Tools
pub mod TopLevel
use coding_agents_databricks.Base.{
  String, Bool, true, false, ◌||◌, Option, none, some, List, [], ◌∷◌, any, ◌==◌, if◌then◌else◌,
  string_has_eq, Result, ok, err, type_error, attribute_error, ◌>>=◌,
}
use coding_agents_databricks.Base.Text.{contains, lower_contains}
use coding_agents_databricks.Json.{
  Value, Items, Fields, str, arr, obj, nil, cons, null, get, get_or, has, put, remove, is_text,
  truthy, iterate, as_dict,
}
use coding_agents_databricks.Proxy.Schema.{strip}

has_text : String → Items → Bool
has_text s nil = false
has_text s (cons x xs) = is_text s x || has_text s xs

-- `if "parameters" in func: func["parameters"] = ...`, for each type that `func` may have
unfoldable pub clean_function : Value → Result Value
unfolding has_text
clean_function (obj fs) =
    ok (obj (elim (get "parameters" fs) [ some v ↦ put "parameters" (strip v) fs | none ↦ fs ]))
clean_function (str s) = if contains "parameters" s then err type_error else ok (str s)
clean_function (arr xs) = if has_text "parameters" xs then err type_error else ok (arr xs)
clean_function _ = err type_error

-- A tool without `function` is left alone: `tool.get("function", {})` is then a new object.
unfoldable pub clean_tool_fields : Fields → Result Value
clean_tool_fields fs = elim (get "function" fs) [
  | none ↦ ok (obj fs)
  | some f ↦ clean_function f >>= λ g. ok (obj (put "function" g fs))
]

unfoldable pub clean_tool : Value → Result Value
unfolding clean_tool_fields
clean_tool tool = do fs ← as_dict tool; clean_tool_fields fs

unfoldable pub clean_tools : Items → Result Items
clean_tools nil = ok nil
clean_tools (cons tool rest) = do
  tool' ← clean_tool tool
  rest' ← clean_tools rest
  ok (cons tool' rest')

-- `for tool in data.get("tools", []) or []`; over what is no list, the items are not tools.
unfoldable pub clean_tool_list : Fields → Result Fields
clean_tool_list data' = elim (get "tools" data') [
  | none ↦ ok data'
  | some (arr tools) ↦ clean_tools tools >>= λ tools'. ok (put "tools" (arr tools') data')
  | some other ↦
      if truthy other then (iterate other >>= λ xs. clean_tools xs >>= λ _. ok data') else ok data'
]

-- `(data.get("model") or "").lower()`: the text whose lower case is searched
unfoldable pub model_name : Fields → Result String
model_name data' =
    let model = get_or null "model" data' in
    if truthy model then elim model [ str s ↦ ok s | _ ↦ err attribute_error ] else ok ""

-- `for key in names: if key in data: del data[key]`
unfoldable pub remove_all : List String → Fields → Fields
remove_all [] fs = fs
remove_all (k ∷ ks) fs = remove_all ks (remove k fs)

-- `GPT_REASONING_KEYS`
abbrev pub reasoning_keys : List String
reasoning_keys = "reasoningSummary" ∷ "reasoning_effort" ∷ []

-- `sanitize_tool_schemas`
unfoldable pub sanitize_tool_schemas : Fields → Result Fields
sanitize_tool_schemas data' = do
  with_tools ← clean_tool_list data'
  let without_stream = remove_all ("stream_options" ∷ []) with_tools
  model ← model_name without_stream
  let gpt =
      if lower_contains "gpt" model
      then remove_all reasoning_keys without_stream
      else without_stream
  ok (remove "$schema" gpt)

-- `_MODEL_UNSUPPORTED_SAMPLING["claude-opus-4-8"]`
abbrev pub sampling_keys : List String
sampling_keys = "temperature" ∷ "top_p" ∷ "top_k" ∷ []

-- `strip_unsupported_sampling_params`
unfoldable pub strip_unsupported_sampling_params : Fields → Result Fields
strip_unsupported_sampling_params data' = do
  model ← model_name data'
  ok (if lower_contains "claude-opus-4-8" model then remove_all sampling_keys data' else data')
