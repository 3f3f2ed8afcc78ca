-- ===== src/Proxy/Stream/Calls.antt =====
-- content_filter_proxy.py: what `SSEProcessor` keeps of the tool calls of a stream, and how one chunk
-- changes it. The source changes the parsed chunk in place; the model returns the changed chunk.
use Prim.Native.String.{◌++◌ as str_append}
use coding_agents_databricks.Base.{
  ℕ, zero, suc, String, Bool, true, false, Option, none, some, List, [], ◌∷◌, ◌++◌, if◌then◌else◌,
  Result, ok, err, type_error, ◌>>=◌,
}
use coding_agents_databricks.Base.Int.{pos}
use coding_agents_databricks.Json.{
  Value, Items, Fields, null, str, arr, obj, int, nil, cons, end, field, get_or, has, put, remove,
  is_text, iterate, as_dict, hashable, same_key,
}
use coding_agents_databricks.Proxy.Response.{
  Codec, is_in, as_mapping, put_back, remapped_name, parse_arguments,
}

-- an entry of `_tool_state`; a name that is not resolved is null
pub record ToolState : Type 0 where
  pub args_buffer : Value
  pub resolved_name : Value
  pub buffered_lines : List String

-- `_tool_state`, by the index of the call
abbrev pub States : Type 0
States = List (Value × ToolState)

unfoldable pub find_state : Value → States → Option ToolState
find_state idx [] = none
find_state idx ((j, t) ∷ states) = if same_key j idx then some t else find_state idx states

unfoldable pub set_state : Value → ToolState → States → States
set_state idx t [] = (idx, t) ∷ []
set_state idx t ((j, u) ∷ states) =
    if same_key j idx then (j, t) ∷ states else (j, u) ∷ set_state idx t states

unfoldable pub drop_state : Value → States → States
drop_state idx [] = []
drop_state idx ((j, t) ∷ states) =
    let rest = drop_state idx states in if same_key j idx then rest else (j, t) ∷ rest

-- A key that is no text or number raises.
unfoldable pub check_key : Value → Result (Unit {0})
check_key idx = if hashable idx then ok tt else err type_error

-- `dict.pop(idx, None)`, which does not look at the key if the dict is empty
unfoldable pub pop_state : Value → States → Result States
pop_state idx [] = ok []
pop_state idx ((j, t) ∷ states) = check_key idx >>= λ _. ok (drop_state idx ((j, t) ∷ states))

abbrev pub is_null : Value → Bool
is_null null = true
is_null _ = false

-- `s[n:]`
unfoldable pub skip : ℕ → String → String
skip zero s = s
skip (suc n) String.[] = String.[]
skip (suc n) (String.◌∷◌ c s) = skip n s

-- `a += b` of what is then given to `json.loads`: of two texts their join; all else raises a
-- `TypeError`, here or there.
unfoldable pub extend : Value → Value → Result Value
extend (str a) (str b) = ok (str (str_append a b))
extend _ _ = err type_error

unfoldable pub map_items : (Value → Result Value) → Items → Result Items
map_items f nil = ok nil
map_items f (cons x xs) = do y ← f x; ys ← map_items f xs; ok (cons y ys)

-- `for x in fs.get(k, [])`, where `f` changes `x` in place and raises on a text
unfoldable pub map_list : (Value → Result Value) → String → Fields → Result Fields
map_list f k fs = elim (get_or (arr nil) k fs) [
  | arr xs ↦ map_items f xs >>= λ ys. ok (if has k fs then put k (arr ys) fs else fs)
  | other ↦ iterate other >>= λ xs. map_items f xs >>= λ _. ok fs
]

-- `if "name" in func and func["name"] == ...: func["name"] = real_name`
unfoldable pub rename_function : Value → Value → Result Value
rename_function real_name func = do
  named ← is_in "name" func
  if named
      then (as_mapping func >>= λ f. ok (
          if is_text remapped_name (get_or null "name" f)
          then obj (put "name" real_name f)
          else obj f))
      else ok func

-- `if "arguments" in func: func["arguments"] = ""`
unfoldable pub clear_arguments : Value → Result Value
clear_arguments func = do
  present ← is_in "arguments" func
  if present then (as_mapping func >>= λ f. ok (obj (put "arguments" (str "") f))) else ok func

unfoldable pub rewrite_call : Value → Value → Value → Result Value
rewrite_call idx real_name tc = as_dict tc >>= λ call.
    if same_key (get_or (int (pos 0)) "index" call) idx
    then (rename_function real_name (get_or (obj end) "function" call) >>= λ f.
        clear_arguments f >>= λ g.
        ok (obj (if has "function" call then put "function" g call else call)))
    else ok tc

unfoldable pub rewrite_choice : Value → Value → Value → Result Value
rewrite_choice idx real_name v = do
  choice ← as_dict v
  delta ← as_dict (get_or (obj end) "delta" choice)
  delta' ← map_list (rewrite_call idx real_name) "tool_calls" delta
  ok (obj (put_back "delta" delta' choice))

-- the event that sends all arguments of a call at once
unfoldable pub args_event : Value → String → Value
args_event idx arguments =
    let call =
      field "index" idx (field "function" (obj (field "arguments" (str arguments) end)) end) in
    let delta = field "tool_calls" (arr (cons (obj call) nil)) end in
    let choice = field "delta" (obj delta) (field "finish_reason" null end) in
    obj (field "choices" (arr (cons (obj choice) nil)) end)

-- What a call of a chunk comes to: the states, and whether the chunk has to wait; or the states and
-- the lines that a resolved name sets free.
pub data Visit : Type 0 where
  go_on : States → Bool → Visit
  resolved : States → List String → Visit

module _ (C : Codec) where
  open C use {loads, dumps}

  abbrev pub data_line : Value → String
  data_line v = str_append "data: " (dumps v)

  unfoldable pub rewrite_line : Value → Value → String → Result String
  rewrite_line idx real_name line = elim (loads (skip 6 line)) [
    | none ↦ ok line
    | some v ↦ as_dict v >>= λ e.
        map_list (rewrite_choice idx real_name) "choices" e >>= λ e'. ok (data_line (obj e'))
  ]

  unfoldable pub rewrite_lines : Value → Value → List String → Result (List String)
  rewrite_lines idx real_name [] = ok []
  rewrite_lines idx real_name (line ∷ lines) = do
    line' ← rewrite_line idx real_name line
    lines' ← rewrite_lines idx real_name lines
    ok (line' ∷ lines')

  -- `_flush_tool_buffer`, on the lines that wait for the call
  unfoldable pub flush_tool_buffer : Value → Value → Fields → List String → Result (List String)
  flush_tool_buffer idx real_name cleaned_args lines = do
    lines' ← rewrite_lines idx real_name lines
    ok (lines' ++ data_line (args_event idx (dumps (obj cleaned_args))) ∷ [])

  -- a call with a name
  unfoldable pub visit_named : States → Bool → Value → Value → Result Visit
  visit_named states needs idx func = as_mapping func >>= λ f.
      if is_text remapped_name (get_or null "name" f)
      then (check_key idx >>= λ _. ok (
          go_on
            (set_state idx
              (record {
                args_buffer = get_or (str "") "arguments" f;
                resolved_name = null;
                buffered_lines = [];
              })
              states)
            true))
      else (pop_state idx states >>= λ states'. ok (go_on states' needs))

  -- the arguments that came so far, if they are all there and have a name
  unfoldable pub resolve_name : States → Value → ToolState → Option Value → Result Visit
  resolve_name states idx t (some (obj args)) =
      if has "name" args
      then (flush_tool_buffer idx (get_or null "name" args) (remove "name" args) t.buffered_lines
          >>= λ lines. ok (
              resolved
                (set_state idx
                  (record t { resolved_name = get_or null "name" args; buffered_lines = [] })
                  states)
                lines))
      else ok (go_on (set_state idx t states) true)
  resolve_name states idx t _ = ok (go_on (set_state idx t states) true)

  -- more arguments of a call whose name is not resolved
  unfoldable pub extend_call : States → Value → Value → ToolState → Result Visit
  extend_call states idx func t = do
    f ← as_dict func
    buffer ← extend t.args_buffer (get_or (str "") "arguments" f)
    resolve_name states idx (record t { args_buffer = buffer }) (parse_arguments C buffer)

  -- a call without a name
  unfoldable pub visit_pending : States → Bool → Value → Value → Result Visit
  visit_pending states needs idx func = check_key idx >>= λ _. elim (find_state idx states) [
    | none ↦ ok (go_on states needs)
    | some t ↦
        if is_null t.resolved_name then extend_call states idx func t else ok (go_on states needs)
  ]

  unfoldable pub visit_call : States → Bool → Value → Result Visit
  visit_call states needs tc = as_dict tc >>= λ call.
      let idx = get_or (int (pos 0)) "index" call in
      let func = get_or (obj end) "function" call in
      is_in "name" func >>= λ named.
      if named then visit_named states needs idx func else visit_pending states needs idx func

  unfoldable pub visit_calls : States → Bool → Items → Result Visit
  visit_calls states needs nil = ok (go_on states needs)
  visit_calls states needs (cons tc rest) = visit_call states needs tc >>= λ v. elim v [
    | go_on states' needs' ↦ visit_calls states' needs' rest
    | resolved states' lines ↦ ok (resolved states' lines)
  ]

  unfoldable pub visit_choice : States → Bool → Fields → Result Visit
  visit_choice states needs choice = do
    delta ← as_dict (get_or (obj end) "delta" choice)
    calls ← iterate (get_or (arr nil) "tool_calls" delta)
    visit_calls states needs calls

  -- the finish reason of a choice in a stream that has called tools
  unfoldable pub mark_choice : States → Fields → Value
  mark_choice [] choice = obj choice
  mark_choice (_ ∷ _) choice =
      if is_text "stop" (get_or null "finish_reason" choice)
      then obj (put "finish_reason" (str "tool_calls") choice)
      else obj choice

  -- The loop over the choices, which ends early when a name is resolved.
  unfoldable pub visit_choices : States → Bool → Items → Result (Items × Visit)
  visit_choices states needs nil = ok (nil, go_on states needs)
  visit_choices states needs (cons v rest) = as_dict v >>= λ choice.
      visit_choice states needs choice >>= λ visit. elim visit [
        | resolved states' lines ↦ ok (cons v rest, resolved states' lines)
        | go_on states' needs' ↦ visit_choices states' needs' rest >>= λ (rest', visit').
            ok (cons (mark_choice states' choice) rest', visit')
      ]
