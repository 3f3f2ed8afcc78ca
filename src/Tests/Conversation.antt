-- ===== src/Tests/Conversation.antt =====
-- Conversations: content_filter_proxy.py.
use coding_agents_databricks.Base.{◌≡◌, none, List, [], ◌∷◌, String}
use coding_agents_databricks.Json.{Value, Items, Fields, str, arr, obj, nil, cons, end, field}
use coding_agents_databricks.Proxy.Messages.{sanitize_single_pass, sanitize_loop, max_passes}
use coding_agents_databricks.Proxy.Messages.Passes.{sanitize_loop-max_passes}

abbrev text_block : String → Value
text_block s = obj (field "type" (str "text") (field "text" (str s) end))

abbrev message : String → Value → Fields
message role content = field "role" (str role) (field "content" content end)

abbrev call_block : Value
call_block = obj (field "type" (str "tool_use") (field "id" (str "t1") end))

abbrev result_block : String → Value
result_block id = obj (field "type" (str "tool_result") (field "tool_use_id" (str id) end))

-- a call, its answer, an answer to no call, an empty block and an empty message
abbrev conversation : List Fields
conversation =
    message "user" (str "hi")
    ∷ message "assistant" (arr (cons (text_block " ") (cons call_block nil)))
    ∷ message "user" (arr (cons (result_block "t1") (cons (result_block "t9") nil)))
    ∷ message "user" (str " ")
    ∷ message "assistant" (str "")
    ∷ []

abbrev sanitized : List Fields
sanitized =
    message "user" (str "hi")
    ∷ message "assistant" (arr (cons call_block nil))
    ∷ message "user" (arr (cons (result_block "t1") nil))
    ∷ message "assistant" (str ".")
    ∷ []

abbrev as_items : List Fields → Items
as_items [] = nil
as_items (m ∷ ms) = cons (obj m) (as_items ms)

sanitize_loop-max_passes_example :
    sanitize_loop max_passes none conversation ≡ sanitize_single_pass conversation
sanitize_loop-max_passes_example = sanitize_loop-max_passes conversation

-- the answer to a call `t9` that nobody made, with its content as a list
abbrev listed_answer : Fields
listed_answer =
    field "role" (str "tool")
      (field "tool_call_id" (str "t9") (field "content" (arr (cons (text_block "42") nil)) end))
