-- ===== src/Proxy/Response.antt =====
-- content_filter_proxy.py: `fix_response_data` with its helpers, on a response or on one chunk of a
-- stream. The text form of JSON is a parameter, since that of its numbers is not modelled.
pub mod Reasons
use Prim.Native.String.{◌++◌ as str_append}
use coding_agents_databricks.Base.{
  String, Bool, true, false, ◌&&◌, ◌||◌, Option, none, some, if◌then◌else◌, Result, ok, err,
  type_error, attribute_error, ◌>>=◌,
}
use coding_agents_databricks.Base.Text.{contains}
use coding_agents_databricks.Json.{
  Value, Items, Fields, null, str, arr, obj, nil, cons, end, get_or, has, put, remove, is_text,
  truthy, iterate, as_dict,
}

-- `json.loads` on a text, with `none` for a `JSONDecodeError`, and `json.dumps`
pub record Codec : Type 0 where
  pub loads : String → Option Value
  pub dumps : Value → String

has_text : String → Items → Bool
has_text s nil = false
has_text s (cons x xs) = is_text s x || has_text s xs

-- `k in v`
unfoldable pub is_in : String → Value → Result Bool
unfolding has_text
is_in k (obj fs) = ok (has k fs)
is_in k (arr xs) = ok (has_text k xs)
is_in k (str s) = ok (contains k s)
is_in k _ = err type_error

-- `v[k]` for a text `k`, on what is no dict
unfoldable pub as_mapping : Value → Result Fields
as_mapping (obj fs) = ok fs
as_mapping _ = err type_error

-- `choice[k] = v` for an object that stands at `k` and was changed in place; the empty object that
-- `choice.get(k, {})` makes is lost.
unfoldable pub put_back : String → Fields → Fields → Fields
put_back k fs choice = if has k choice then put k (obj fs) choice else choice

abbrev pub remapped_name : String
remapped_name = "databricks-tool-call"

module _ (C : Codec) where
  open C use {loads, dumps}

  -- `json.loads(args_str)`, with what the handler catches
  unfoldable pub parse_arguments : Value → Option Value
  parse_arguments (str s) = loads s
  parse_arguments _ = none

  -- the call with the name and the arguments that its arguments hold
  unfoldable pub renamed : Fields → Fields → Option Value → Value
  renamed call func (some (obj args)) =
      if has "name" args
      then obj (
          put "function"
            (obj (
              put "arguments" (str (dumps (obj (remove "name" args))))
                (put "name" (get_or null "name" args) func)))
            call)
      else obj call
  renamed call func _ = obj call

  -- `remap_tool_call`
  unfoldable pub remap_tool_call : Value → Result Value
  remap_tool_call tool_call = do
    call ← as_dict tool_call
    func ← as_dict (get_or (obj end) "function" call)
    ok (
        if is_text remapped_name (get_or null "name" func)
        then renamed call func (parse_arguments (get_or (str "") "arguments" func))
        else obj call)

  unfoldable pub remap_all : Items → Result Items
  remap_all nil = ok nil
  remap_all (cons tc rest) = do
    tc' ← remap_tool_call tc
    rest' ← remap_all rest
    ok (cons tc' rest')

  block_text : Value → String
  block_text (obj block) =
      if is_text "text" (get_or null "type" block)
      then elim (get_or null "text" block) [ str s ↦ s | _ ↦ "" ]
      else ""
  block_text _ = ""

  unfoldable pub join_blocks : Items → String
  unfolding block_text
  join_blocks nil = ""
  join_blocks (cons block rest) = str_append (block_text block) (join_blocks rest)

  -- `_flatten_content_blocks`
  unfoldable pub flatten_content_blocks : Value → Value
  flatten_content_blocks (arr blocks) = str (join_blocks blocks)
  flatten_content_blocks content = content

  -- `if "content" in part: part["content"] = ...`
  unfoldable pub flatten_part : Value → Result Fields
  flatten_part part = do
    present ← is_in "content" part
    if present
        then (as_mapping part >>= λ fs.
            ok (put "content" (flatten_content_blocks (get_or null "content" fs)) fs))
        else as_dict part

  -- `part["tool_calls"] = [remap_tool_call(tc) for tc in tool_calls]`, if there are some
  unfoldable pub remap_part : Fields → Result Fields
  remap_part part =
      let calls = get_or (arr nil) "tool_calls" part in
      if truthy calls
      then (iterate calls >>= λ tcs.
          remap_all tcs >>= λ tcs'. ok (put "tool_calls" (arr tcs') part))
      else ok part

  -- the finish reason of a choice whose part calls tools
  unfoldable pub fix_reason : Bool → Fields → Fields
  fix_reason calls choice =
      if is_text "stop" (get_or null "finish_reason" choice) && calls
      then put "finish_reason" (str "tool_calls") choice
      else choice

  -- what is done for `message`, and again for `delta`
  unfoldable pub fix_part : String → Fields → Result Fields
  fix_part name choice = do
    flat ← flatten_part (get_or (obj end) name choice)
    part ← remap_part flat
    ok (fix_reason (truthy (get_or (arr nil) "tool_calls" flat)) (put_back name part choice))

  unfoldable pub fix_choice : Value → Result Value
  fix_choice v = do
    choice ← as_dict v
    with_message ← fix_part "message" choice
    with_delta ← fix_part "delta" with_message
    ok (obj with_delta)

  unfoldable pub fix_choices : Items → Result Items
  fix_choices nil = ok nil
  fix_choices (cons choice rest) = do
    choice' ← fix_choice choice
    rest' ← fix_choices rest
    ok (cons choice' rest')

  -- `for choice in data.get("choices", [])`; over what is no list, the items are texts, and the
  -- first raises.
  unfoldable pub fix_response_fields : Fields → Result Fields
  fix_response_fields data' = elim (get_or (arr nil) "choices" data') [
    | arr choices ↦ fix_choices choices >>= λ fixed.
        ok (if has "choices" data' then put "choices" (arr fixed) data' else data')
    | other ↦ iterate other >>= λ items. fix_choices items >>= λ _. ok data'
  ]

  -- `fix_response_data`
  unfoldable pub fix_response_data : Value → Result Value
  fix_response_data (obj data') = fix_response_fields data' >>= λ fixed. ok (obj fixed)
  fix_response_data other = ok other
