-- ===== src/Proxy/Messages.antt =====
-- content_filter_proxy.py: `sanitize_messages`, which takes empty text blocks and orphaned tool
-- results out of a conversation. A message is the `dict` of its fields. The log lines are not
-- modelled, but for what they raise; `pass_num` is only logged and counts the passes.
pub mod Blocks
pub mod Message
pub mod Passes
pub mod Orphans
pub mod Roles
pub mod Document
use coding_agents_databricks.Base.{
  ℕ, zero, suc, ◌+◌, String, Bool, true, false, ◌&&◌, ◌||◌, not, Option, none, some, List, [], ◌∷◌,
  length, ◌==◌, if◌then◌else◌, nat_has_eq, Result, ok, err, type_error, attribute_error, ◌>>=◌,
}
use coding_agents_databricks.Base.Text.{is_blank}
use coding_agents_databricks.Json.{
  Value, Items, Fields, null, str, arr, obj, nil, cons, get, get_or, put, is_text, truthy, iterate,
  as_dict, hashable, member,
}

-- `if v: s.add(v)`
unfoldable pub add_key : Value → List Value → Result (List Value)
add_key v ids = if truthy v then (if hashable v then ok (v ∷ ids) else err type_error) else ok ids

-- the blocks of type `tool_use`, and the `id` of each
unfoldable pub tool_use_ids : Items → List Value → Result (List Value)
unfolding add_key
tool_use_ids nil ids = ok ids
tool_use_ids (cons (obj block) rest) ids = do
  ids' ←
      if is_text "tool_use" (get_or null "type" block)
      then add_key (get_or null "id" block) ids
      else ok ids
  tool_use_ids rest ids'
tool_use_ids (cons _ rest) ids = tool_use_ids rest ids

-- the `id` of each entry of `tool_calls`
unfoldable pub tool_call_ids : Items → List Value → Result (List Value)
unfolding add_key as_dict
tool_call_ids nil ids = ok ids
tool_call_ids (cons tc rest) ids = do
  call ← as_dict tc
  ids' ← add_key (get_or null "id" call) ids
  tool_call_ids rest ids'

-- `for tc in msg.get("tool_calls") or []`
unfoldable pub calls : Fields → Result Items
calls msg = let v = get_or null "tool_calls" msg in if truthy v then iterate v else ok nil

unfoldable pub content_ids : Value → Result (List Value)
content_ids (arr blocks) = tool_use_ids blocks []
content_ids _ = ok []

-- `_extract_tool_ids_from_message`
unfoldable pub extract_tool_ids : Fields → Result (List Value)
extract_tool_ids msg = do
  ids ← content_ids (get_or null "content" msg)
  tcs ← calls msg
  tool_call_ids tcs ids

-- the blocks of type `tool_result`, and the `tool_use_id` of each
unfoldable pub tool_result_refs : Items → List Value → Result (List Value)
unfolding add_key
tool_result_refs nil refs = ok refs
tool_result_refs (cons (obj block) rest) refs = do
  refs' ←
      if is_text "tool_result" (get_or null "type" block)
      then add_key (get_or null "tool_use_id" block) refs
      else ok refs
  tool_result_refs rest refs'
tool_result_refs (cons _ rest) refs = tool_result_refs rest refs

unfoldable pub content_refs : Value → Result (List Value)
content_refs (arr blocks) = tool_result_refs blocks []
content_refs _ = ok []

-- `_extract_tool_refs_from_message`
unfoldable pub extract_tool_refs : Fields → Result (List Value)
extract_tool_refs msg = do
  refs ← content_refs (get_or null "content" msg)
  if is_text "tool" (get_or (str "") "role" msg)
      then add_key (get_or null "tool_call_id" msg) refs
      else ok refs

-- `', '.join(types)` wants the type of each block to be a text.
unfoldable pub join_types : Items → Result (Unit {0})
join_types nil = ok tt
join_types (cons (obj block) rest) = elim (get_or (str "?") "type" block) [
  | str _ ↦ join_types rest
  | _ ↦ err type_error
]
join_types (cons _ rest) = join_types rest

unfoldable pub describe_content : Value → Result (Unit {0})
describe_content (arr blocks) = join_types blocks
describe_content _ = ok tt

-- One round of the loop that logs the structure of the messages.
unfoldable pub describe : Value → Result Fields
describe v = do
  msg ← as_dict v
  _ ← extract_tool_ids msg
  _ ← extract_tool_refs msg
  _ ← describe_content (get_or null "content" msg)
  ok msg

unfoldable pub describe_all : Items → Result (List Fields)
describe_all nil = ok []
describe_all (cons v vs) = do msg ← describe v; msgs ← describe_all vs; ok (msg ∷ msgs)

-- Does the pass keep a block, given the ids of the last assistant message?
unfoldable pub keep_block : List Value → Fields → Result Bool
keep_block ids block =
    let type = get_or null "type" block in
    let ref = get_or null "tool_use_id" block in
    if is_text "text" type
    then (elim (get_or (str "") "text" block) [
      | str text ↦ ok (not (is_blank text))
      | _ ↦ err attribute_error
    ])
    else if is_text "tool_result" type && truthy ref
    then member ref ids
    else ok true

unfoldable pub filter_blocks : List Value → Items → Result Items
filter_blocks ids nil = ok nil
filter_blocks ids (cons (obj block) rest) = do
  keep ← keep_block ids block
  filtered ← filter_blocks ids rest
  ok (if keep then cons (obj block) filtered else filtered)
filter_blocks ids (cons v rest) = do filtered ← filter_blocks ids rest; ok (cons v filtered)

abbrev pub role_of : Fields → Value
role_of msg = get_or (str "") "role" msg

abbrev pub is_assistant : Fields → Bool
is_assistant msg = is_text "assistant" (role_of msg)

-- An assistant message stays when its blocks are gone; any other is dropped.
unfoldable pub with_blocks : Items → Fields → Option Fields
with_blocks nil msg = if is_assistant msg then some (put "content" (arr nil) msg) else none
with_blocks blocks msg = some (put "content" (arr blocks) msg)

-- the branch `elif role == "tool"`
unfoldable pub clean_tool_message : List Value → Fields → Result (Option Fields)
clean_tool_message ids msg =
    let ref = get_or null "tool_call_id" msg in
    if truthy ref
    then (member ref ids >>= λ known. ok (if known then some msg else none))
    else ok (some msg)

-- the branches on a content that is null or a text
unfoldable pub clean_text_message : Value → Fields → Option Fields
clean_text_message null msg =
    if is_assistant msg && not (truthy (get_or null "tool_calls" msg))
    then some (put "content" (str ".") msg)
    else some msg
clean_text_message (str text) msg =
    if is_blank text
    then (if is_assistant msg then some (put "content" (str ".") msg) else none)
    else some msg
clean_text_message _ msg = some msg

unfoldable pub clean_content : List Value → Value → Fields → Result (Option Fields)
clean_content ids (arr blocks) msg = do
  filtered ← filter_blocks ids blocks
  ok (with_blocks filtered msg)
clean_content ids content msg =
    if is_text "tool" (role_of msg)
    then clean_tool_message ids msg
    else ok (clean_text_message content msg)

-- The body of the pass's loop: the message as it is kept, or `none` for `continue`.
unfoldable pub clean_message : List Value → Fields → Result (Option Fields)
clean_message ids msg = clean_content ids (get_or null "content" msg) msg

-- The ids of the last assistant message of the cleaned list, which is held here latest first.
unfoldable pub last_ids : List Fields → Result (List Value)
last_ids [] = ok []
last_ids (msg ∷ earlier) =
    let rest = last_ids earlier in if is_assistant msg then extract_tool_ids msg else rest

-- The loop of the pass, from a cleaned list on: what it appends.
unfoldable pub pass_from : List Fields → List Fields → Result (List Fields)
pass_from cleaned [] = ok []
pass_from cleaned (msg ∷ rest) = last_ids cleaned >>= λ ids. clean_message ids msg >>= λ kept.
    elim kept [
      | none ↦ pass_from cleaned rest
      | some msg' ↦ pass_from (msg' ∷ cleaned) rest >>= λ rest'. ok (msg' ∷ rest')
    ]

-- `_sanitize_single_pass`
abbrev pub sanitize_single_pass : List Fields → Result (List Fields)
sanitize_single_pass messages = pass_from [] messages

-- `while len(result) != prev_len and pass_num < 5`, with the passes that are left; `prev_len` is
-- `none` for the -1 of the start.
unfoldable pub sanitize_loop : ℕ → Option ℕ → List Fields → Result (List Fields)
sanitize_loop zero prev_len result = ok result
sanitize_loop (suc left) prev_len result =
    let again = sanitize_single_pass result >>= sanitize_loop left (some (length result)) in
    if elim prev_len [ none ↦ false | some n ↦ length result == n ] then ok result else again

abbrev pub max_passes : ℕ
max_passes = 5

unfoldable pub to_items : List Fields → Items
to_items [] = nil
to_items (msg ∷ rest) = cons (obj msg) (to_items rest)

-- `sanitize_messages`
unfoldable pub sanitize_messages : Value → Result Value
unfolding to_items
sanitize_messages (arr messages) = do
  described ← describe_all messages
  result ← sanitize_loop max_passes none described
  ok (arr (to_items result))
sanitize_messages messages = ok messages
