-- ===== src/Tests/Stream.antt =====
-- Responses and streams: content_filter_proxy.py.
use mathlib.Core.Path.{subst}
use coding_agents_databricks.Base.{
  ◌≡◌, refl, sym, Option, none, some, ok, List, [], ◌∷◌, String, if◌then◌else◌, ◌==◌, string_has_eq,
  arith,
}
use coding_agents_databricks.Base.Parse.{strip, same_text}
use coding_agents_databricks.Json.{
  Value, Items, Fields, str, arr, obj, nil, cons, end, field, get, get_or, has, put, remove, truthy,
  iterate, as_dict,
}
use coding_agents_databricks.Proxy.Response.{
  Codec, flatten_content_blocks, join_blocks, flatten_part, is_in, as_mapping, put_back, remap_part,
  remap_all, remap_tool_call, renamed, parse_arguments, fix_reason, fix_part, fix_choice,
  fix_choices, fix_response_fields, fix_response_data,
}
use coding_agents_databricks.Proxy.Response.Reasons.{AreFixed, fix_response_fields-AreFixed}
use coding_agents_databricks.Proxy.Stream.Calls.{
  visit_choices, visit_choice, visit_calls, mark_choice,
}
use coding_agents_databricks.Proxy.Stream.{
  new_processor, after_prefix, is_done, send_stream, process_line, process_payload, process_chunk,
  finish_chunk, forward, flush_remaining, waiting,
}
use coding_agents_databricks.Proxy.Stream.Ordinary.Visits.{AllItems, IsOrdinary}
use coding_agents_databricks.Proxy.Stream.Ordinary.{
  send_stream-eq-fix_lines, fix_lines, IsOrdinaryLine,
}

abbrev choice_of : Fields → String → Fields
choice_of message reason = field "message" (obj message) (field "finish_reason" (str reason) end)

abbrev response : Fields → Fields
response choice = field "choices" (arr (cons (obj choice) nil)) end

abbrev tool_call : String → String → Value
tool_call name arguments =
    obj
      (field "function" (obj (field "name" (str name) (field "arguments" (str arguments) end))) end)

-- a call whose name is in its arguments, with a content of blocks
abbrev answer : Fields
answer = response (
    choice_of
      (field "content"
        (arr (cons (obj (field "type" (str "text") (field "text" (str "hi") end))) nil))
        (field "tool_calls"
          (arr (cons (tool_call "databricks-tool-call" "{\"name\": \"bash\"}") nil)) end))
      "stop")

abbrev fixed_answer : Fields
fixed_answer = response (
    choice_of
      (field "content" (str "hi") (field "tool_calls" (arr (cons (tool_call "bash" "{}") nil)) end))
      "tool_calls")

-- a chunk of a text
abbrev text_chunk : Fields
text_chunk =
    response (
      field "delta" (obj (field "content" (str "hi") end)) (field "finish_reason" (str "stop") end))

-- The texts that the runs read and write.
abbrev reads : String → Option Value
reads s =
    if s == "{\"name\": \"bash\"}"
    then some (obj (field "name" (str "bash") end))
    else if s == "text"
    then some (obj text_chunk)
    else if s == "{\"name\": \"ls\"}"
    then some (obj (field "name" (str "ls") end))
    else none

abbrev writes : Value → String
writes (obj end) = "{}"
writes _ = "text"

abbrev codec : Codec
codec = record { loads = reads; dumps = writes }

answer_is_fixed : fix_response_fields codec answer ≡ ok fixed_answer
unfolding fix_response_fields fix_choices fix_choice fix_part flatten_part remap_part remap_all
    remap_tool_call renamed parse_arguments fix_reason flatten_content_blocks join_blocks is_in
    as_mapping put_back get_or get has put remove truthy iterate as_dict
answer_is_fixed = refl

fix_response_fields-AreFixed_example : AreFixed (
    cons
      (obj (
        choice_of
          (field "content"
            (str "hi")
            (field "tool_calls" (arr (cons (tool_call "bash" "{}") nil)) end))
          "tool_calls"))
      nil)
unfolding get
fix_response_fields-AreFixed_example =
    fix_response_fields-AreFixed codec answer fixed_answer
      (cons
        (obj (
          choice_of
            (field "content" (str "hi")
              (field "tool_calls" (arr (cons (tool_call "bash" "{}") nil)) end))
            "tool_calls"))
        nil)
      answer_is_fixed refl

abbrev stream : List String
stream = "data: text" ∷ "" ∷ "data: [DONE]" ∷ []

stream_is_sent : send_stream codec stream new_processor ≡ ok stream
unfolding send_stream process_line process_payload process_chunk finish_chunk forward
    flush_remaining waiting after_prefix is_done visit_choices visit_choice visit_calls iterate
    as_dict get_or get has put fix_response_data fix_response_fields fix_choices fix_choice fix_part
    flatten_part remap_part remap_all fix_reason flatten_content_blocks is_in as_mapping put_back
    truthy same_text strip mark_choice
stream_is_sent = refl

text_line :
    (line payload : String) (chunk : Fields) (choices : Items)
    → after_prefix "data: " line ≡ some payload
    → reads payload ≡ some (obj chunk)
    → get "choices" chunk ≡ some (arr choices)
    → AllItems IsOrdinary choices
    → IsOrdinaryLine codec line
text_line line payload chunk choices a l g o payload' chunk' choices' a' l' g' =
    let p : payload ≡ payload' = ground (arith, a, a') in
    let c : chunk ≡ chunk' =
      ground (arith, l, subst (λ s. reads s ≡ some (obj chunk')) (sym p) l') in
    subst (AllItems IsOrdinary)
      (ground (arith, g, subst (λ f. get "choices" f ≡ some (arr choices')) (sym c) g')) o

other_line :
    (line payload : String)
    → after_prefix "data: " line ≡ some payload
    → reads payload ≡ none
    → IsOrdinaryLine codec line
other_line line payload a l payload' chunk' choices' a' l' g' =
    let p : payload ≡ payload' = ground (arith, a, a') in
    absurd (ground (arith, l, subst (λ s. reads s ≡ some (obj chunk')) (sym p) l'))

send_stream-eq-fix_lines_example : fix_lines codec stream ≡ ok stream
unfolding after_prefix get
send_stream-eq-fix_lines_example =
    send_stream-eq-fix_lines codec stream stream
      (
        text_line "data: text" "text" text_chunk
            (cons
              (obj (
                field "delta" (obj (field "content" (str "hi") end))
                  (field "finish_reason" (str "stop") end)))
              nil)
            refl refl refl ((λ delta calls d c. absurd (ground (arith, d, c))), tt),
        (
          (λ payload chunk choices a. absurd (ground (arith, a))),
          (other_line "data: [DONE]" "[DONE]" refl refl, tt),
        ),
      )
      stream_is_sent

-- A call whose arguments are sent as two parts, the first of which waits.
abbrev freed : List String
freed = "data: no json" ∷ []
