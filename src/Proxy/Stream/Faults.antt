-- ===== src/Proxy/Stream/Faults.antt =====
-- Where the lines that `SSEProcessor` sends are not those of one whole call.
use Prim.Native.String.{◌++◌ as str_append}
use mathlib.Core.List.{append_assoc, append-nil}
use coding_agents_databricks.Base.{
  ℕ, String, ◌≡◌, refl, ap, ◌∙◌, true, false, some, List, [], ◌∷◌, ◌++◌, ok, ◌==◌, string_has_eq,
}
use coding_agents_databricks.Base.Int.{pos}
use coding_agents_databricks.Json.{
  Value, Items, Fields, null, str, arr, obj, int, nil, cons, end, field, remove,
}
use coding_agents_databricks.Proxy.Response.{Codec}
use coding_agents_databricks.Proxy.Stream.Calls.{ToolState, data_line, args_event}
use coding_agents_databricks.Proxy.Stream.{
  Processor, after_prefix, is_done, process_payload, process_line, waiting, flush_remaining,
  send_stream,
}

-- A chunk that brings `fragment` of the arguments of the call `idx`, and the call that waits for it.
abbrev pub fragment_call : Value → String → Value
fragment_call idx fragment =
    obj (field "index" idx (field "function" (obj (field "arguments" (str fragment) end)) end))

abbrev pub fragment_choices : Value → String → Items
fragment_choices idx fragment =
    cons
      (obj (
        field "delta" (obj (field "tool_calls" (arr (cons (fragment_call idx fragment) nil)) end))
          end))
      nil

abbrev pub fragment_chunk : Value → String → Fields
fragment_chunk idx fragment = field "choices" (arr (fragment_choices idx fragment)) end

abbrev pub waiting_call : Value → List String → ToolState
waiting_call buffer lines = record {
  args_buffer = buffer;
  resolved_name = null;
  buffered_lines = lines;
}

module _ (C : Codec) where
  open C use {loads, dumps}

  abbrev named_call : Value → String → ToolState
  named_call buffer name = record {
    args_buffer = buffer;
    resolved_name = str name;
    buffered_lines = [];
  }

  abbrev freed_lines : ℕ → Fields → List String → List String
  freed_lines n args flushed =
      flushed ++ data_line C (args_event (int (pos n)) (dumps (obj (remove "name" args)))) ∷ []

  done_line :
      (p : Processor) (line payload : String)
      → after_prefix "data: " line ≡ some payload
      → is_done payload ≡ true
      → process_line C line p ≡ ok (p.pending_flush ++ line ∷ [], record p { pending_flush = [] })
  unfolding process_line process_payload
  done_line p line payload e d = rw (e, d, process_line) refl

  -- The line that ends a stream does not take along the lines that wait for a call: they are sent
  -- after it.
  pub buffered_after_done :
      (p : Processor) (line payload : String)
      → after_prefix "data: " line ≡ some payload
      → is_done payload ≡ true
      → line == "" ≡ false
      → send_stream C (line ∷ []) p ≡ ok (p.pending_flush ++ line ∷ waiting C p.tool_state)
  unfolding send_stream flush_remaining
  buffered_after_done p line payload e d l =
      rw (l, done_line p line payload e d)
        (ap ok (
          ap (λ w. (p.pending_flush ++ line ∷ []) ++ w) (append-nil (waiting C p.tool_state))
          ∙ append_assoc p.pending_flush (line ∷ []) (waiting C p.tool_state)))
