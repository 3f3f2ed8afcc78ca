-- ===== src/Proxy/Stream.antt =====
-- content_filter_proxy.py: `SSEProcessor`, line by line, and the loop of `do_POST` that feeds it.
pub mod Calls
pub mod Ordinary
pub mod Faults
use Prim.Native.Char.{code}
use Prim.Native.String.{◌++◌ as str_append}
use coding_agents_databricks.Base.{
  String, Bool, true, false, Option, none, some, List, [], ◌∷◌, ◌++◌, nat_eq, if◌then◌else◌, Result,
  ok, err, ◌>>=◌, ◌==◌, string_has_eq,
}
use coding_agents_databricks.Base.Text.{codes}
use coding_agents_databricks.Base.Parse.{strip, same_text}
use coding_agents_databricks.Json.{
  Value, Items, Fields, arr, obj, nil, get_or, has, put, iterate, as_dict,
}
use coding_agents_databricks.Proxy.Response.{Codec, fix_response_data}
use coding_agents_databricks.Proxy.Stream.Calls.{
  ToolState, States, is_null, Visit, go_on, resolved, data_line, visit_choices,
}

pub record Processor : Type 0 where
  pub tool_state : States
  pub pending_flush : List String

-- what `SSEProcessor()` makes
abbrev pub new_processor : Processor
new_processor = record { tool_state = []; pending_flush = [] }

-- `line[len(prefix):]` if `line.startswith(prefix)`
unfoldable pub after_prefix : String → String → Option String
after_prefix String.[] line = some line
after_prefix (String.◌∷◌ p ps) String.[] = none
after_prefix (String.◌∷◌ p ps) (String.◌∷◌ c cs) =
    if nat_eq (code p) (code c) then after_prefix ps cs else none

-- the test for the payload that ends a stream
unfoldable pub is_done : String → Bool
is_done payload = same_text (strip (codes payload)) (codes "[DONE]")

-- The first call whose name is not resolved keeps the line.
unfoldable pub buffer_line : String → States → Option States
buffer_line line [] = none
buffer_line line ((idx, t) ∷ states) =
    let later : Option States = elim (buffer_line line states) [
      | none ↦ none
      | some states' ↦ some ((idx, t) ∷ states')
    ] in
    if is_null t.resolved_name
    then some ((idx, record t { buffered_lines = t.buffered_lines ++ line ∷ [] }) ∷ states)
    else later

module _ (C : Codec) where
  open C use {loads}

  -- the fixed chunk, sent at once
  unfoldable pub forward : List String → Value → Processor → Result (List String × Processor)
  forward flushed chunk p =
      fix_response_data C chunk >>= λ fixed. ok (flushed ++ data_line C fixed ∷ [], p)

  -- what becomes of a chunk whose calls were visited
  unfoldable pub finish_chunk :
      String → Processor → Value → Visit → Result (List String × Processor)
  finish_chunk line p chunk (resolved states flushed) =
      forward flushed chunk (record p { tool_state = states })
  finish_chunk line p chunk (go_on states false) =
      forward [] chunk (record p { tool_state = states })
  finish_chunk line p chunk (go_on states true) = elim (buffer_line line states) [
    | none ↦ forward [] chunk (record p { tool_state = states })
    | some states' ↦ ok ([], record p { tool_state = states' })
  ]

  -- a chunk; over `choices` that are no list, the items are texts, and the first raises
  unfoldable pub process_chunk : String → Fields → Processor → Result (List String × Processor)
  process_chunk line chunk p = elim (get_or (arr nil) "choices" chunk) [
    | arr choices ↦ visit_choices C p.tool_state false choices >>= λ (choices', visit).
        finish_chunk line p
          (obj (if has "choices" chunk then put "choices" (arr choices') chunk else chunk)) visit
    | other ↦ iterate other >>= λ choices.
        visit_choices C p.tool_state false choices >>= λ (_, visit).
        finish_chunk line p (obj chunk) visit
  ]

  unfoldable pub process_payload : String → String → Processor → Result (List String × Processor)
  process_payload line payload p =
      if is_done payload
      then ok (p.pending_flush ++ line ∷ [], record p { pending_flush = [] })
      else elim (loads payload) [
        | none ↦ ok (line ∷ [], p)
        | some v ↦ as_dict v >>= λ chunk. process_chunk line chunk p
      ]

  -- `process_line`
  unfoldable pub process_line : String → Processor → Result (List String × Processor)
  process_line line p = elim (after_prefix "data: " line) [
    | none ↦ ok (line ∷ [], p)
    | some payload ↦ process_payload line payload p
  ]

  -- the lines that wait, in the order of `_tool_state`
  unfoldable pub waiting : States → List String
  waiting [] = []
  waiting ((idx, t) ∷ states) = t.buffered_lines ++ waiting states

  -- `flush_remaining`, after which the processor is not used
  unfoldable pub flush_remaining : Processor → List String
  flush_remaining p = waiting p.tool_state ++ p.pending_flush

  -- The loop over the stripped lines of a response, and the flush after it; an empty line is passed
  -- on as it is.
  unfoldable pub send_stream : List String → Processor → Result (List String)
  send_stream [] p = ok (flush_remaining p)
  send_stream (line ∷ lines) p =
      (if line == "" then ok ("" ∷ [], p) else process_line line p) >>= λ (out, p').
      send_stream lines p' >>= λ rest. ok (out ++ rest)
