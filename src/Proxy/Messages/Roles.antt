-- ===== src/Proxy/Messages/Roles.antt =====
-- What a pass keeps of the conversation: its order, its assistant messages and their tool calls.
use coding_agents_databricks.Base.{
  ◌≡◌, refl, false, none, List, [], ◌∷◌, arith, Result, ok, if◌then◌else◌,
}
use coding_agents_databricks.Json.{Value, Fields, null}
use coding_agents_databricks.Proxy.Messages.{
  is_assistant, role_of, extract_tool_ids, clean_message, clean_content, clean_text_message,
  clean_tool_message, with_blocks, sanitize_single_pass,
}
use coding_agents_databricks.Proxy.Messages.Message.{
  role_of-Cleaned, extract_tool_ids-Cleaned, assistant_not_tool,
}
use coding_agents_databricks.Proxy.Messages.Passes.{Passed, done, keep, drop, pass_from-Passed}

-- The tool calls of each assistant message, in order.
pub assistant_calls : List Fields → List (Result (List Value))
assistant_calls [] = []
assistant_calls (msg ∷ rest) =
    let later = assistant_calls rest in
    if is_assistant msg then extract_tool_ids msg ∷ later else later

dropped_is_no_assistant :
    (ids : List Value) (v : Value) (msg : Fields)
    → clean_content ids v msg ≡ ok none
    → is_assistant msg ≡ false
unfolding clean_content clean_text_message clean_tool_message with_blocks
dropped_is_no_assistant ids null msg h = ground (arith, assistant_not_tool (role_of msg))
dropped_is_no_assistant ids _ msg h = ground (arith, assistant_not_tool (role_of msg))

assistant_calls-Passed :
    {cleaned ms rs : List Fields} → Passed cleaned ms rs → assistant_calls rs ≡ assistant_calls ms
unfolding assistant_calls clean_message
assistant_calls-Passed (done cleaned) = refl
assistant_calls-Passed (keep ids msg msg' e c p) =
    ground (arith, role_of-Cleaned c, extract_tool_ids-Cleaned c, assistant_calls-Passed p)
assistant_calls-Passed (drop ids msg e d p) =
    ground (arith, dropped_is_no_assistant ids _ msg d, assistant_calls-Passed p)

-- A pass drops no assistant message, and each keeps its tool calls.
pub assistant_calls-sanitize_single_pass :
    (ms rs : List Fields)
    → sanitize_single_pass ms ≡ ok rs
    → assistant_calls rs ≡ assistant_calls ms
assistant_calls-sanitize_single_pass ms rs h = assistant_calls-Passed (pass_from-Passed [] ms rs h)
