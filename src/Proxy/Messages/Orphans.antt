-- ===== src/Proxy/Messages/Orphans.antt =====
-- What a client of the upstream model sees in sanitized messages: no text that says nothing, and no
-- tool result without the call that it answers.
use mathlib.Core.Path.{subst}
use coding_agents_databricks.Base.{
  ◌≡◌, refl, ap, ◌∙◌, sym, true, false, some, List, [], ◌∷◌, arith, ok, >>=-eq-ok, if◌then◌else◌,
}
use coding_agents_databricks.Base.Text.{is_blank}
use coding_agents_databricks.Json.{
  Value, Items, Fields, null, bool, int, float, str, arr, obj, nil, cons, get_or, is_text, truthy,
  member,
}
use coding_agents_databricks.Proxy.Messages.{
  filter_blocks, role_of, is_assistant, with_blocks, clean_tool_message, clean_text_message,
  clean_content, clean_message, last_ids, sanitize_single_pass,
}
use coding_agents_databricks.Proxy.Messages.Blocks.{
  AreKept, Known, filter_blocks-Filtered, Filtered-AreKept,
}
use coding_agents_databricks.Proxy.Messages.Message.{
  content_of, content_of-put, assistant_not_tool, with_blocks-put, Cleaned, clean_message_idem,
}
use coding_agents_databricks.Proxy.Messages.Passes.{Passed, done, keep, drop, pass_from-Passed}

-- A message of role `tool` answers a call, if it names any.
abbrev pub AnswersCall : List Value → Fields → Type 0
AnswersCall ids msg =
    is_text "tool" (role_of msg) ≡ true
    → truthy (get_or null "tool_call_id" msg) ≡ true
    → Known ids (get_or null "tool_call_id" msg)

-- Of a message with the given content: every block says something and answers a call, only an
-- assistant has an empty list of blocks, only an assistant with tool calls has no content, and a
-- text says something, but for an answer to a call.
abbrev pub IsSettled : List Value → Value → Fields → Type 0
IsSettled ids (arr nil) msg = is_assistant msg ≡ true
IsSettled ids (arr (cons x xs)) msg = AreKept ids (cons x xs)
IsSettled ids null msg =
    AnswersCall ids msg × (is_assistant msg ≡ true → truthy (get_or null "tool_calls" msg) ≡ true)
IsSettled ids (str text) msg =
    AnswersCall ids msg × (is_text "tool" (role_of msg) ≡ false → is_blank text ≡ false)
IsSettled ids _ msg = AnswersCall ids msg

-- Each message is settled by the tool calls of the last assistant message before it.
abbrev pub AreSettled : List Fields → List Fields → Type 0
AreSettled cleaned [] = Unit
AreSettled cleaned (msg ∷ rest) =
    ((ids : List Value) × (last_ids cleaned ≡ ok ids) × IsSettled ids (content_of msg) msg)
    × AreSettled (msg ∷ cleaned) rest

blocks-IsSettled :
    (ids : List Value) (ys : Items) (msg : Fields)
    → AreKept ids ys
    → with_blocks ys msg ≡ some msg
    → IsSettled ids (arr ys) msg
unfolding with_blocks
blocks-IsSettled ids nil msg k h = ground arith
blocks-IsSettled ids (cons y ys) msg k h = k

fixed_AnswersCall :
    (ids : List Value) (v : Value) (msg : Fields)
    → (if is_text "tool" (role_of msg)
        then clean_tool_message ids msg
        else ok (clean_text_message v msg))
      ≡ ok (some msg)
    → AnswersCall ids msg
unfolding clean_tool_message member
fixed_AnswersCall ids v msg h t r = ground arith

dot_says : is_blank "." ≡ false
unfolding is_blank
dot_says = refl

-- A message that a pass leaves alone is settled.
fixed-IsSettled :
    (ids : List Value) (v : Value) (msg : Fields)
    → content_of msg ≡ v
    → clean_content ids v msg ≡ ok (some msg)
    → IsSettled ids v msg
unfolding clean_content clean_text_message
fixed-IsSettled ids (arr xs) msg e h =
    let (ys, f, w) = >>=-eq-ok (filter_blocks ids xs) _ h in
    let k : with_blocks ys msg ≡ some msg = ground arith in
    let p = (with_blocks-put ys msg msg k).0 in
    let c : content_of msg ≡ arr ys = ap content_of p ∙ content_of-put (arr ys) msg in
    let s : arr ys ≡ arr xs = sym c ∙ e in
    subst (λ v. IsSettled ids v msg) s
      (blocks-IsSettled ids ys msg (Filtered-AreKept (filter_blocks-Filtered ids xs ys f)) k)
fixed-IsSettled ids null msg e h = (
  fixed_AnswersCall ids null msg h,
  λ a. ground (arith, content_of-put (str ".") msg, assistant_not_tool (role_of msg) a),
)
fixed-IsSettled ids (str text) msg e h = (
  fixed_AnswersCall ids (str text) msg h,
  λ t. ground (arith, content_of-put (str ".") msg, dot_says),
)
fixed-IsSettled ids (bool b) msg e h = fixed_AnswersCall ids (bool b) msg h
fixed-IsSettled ids (int n) msg e h = fixed_AnswersCall ids (int n) msg h
fixed-IsSettled ids (float m n) msg e h = fixed_AnswersCall ids (float m n) msg h
fixed-IsSettled ids (obj fs) msg e h = fixed_AnswersCall ids (obj fs) msg h

Cleaned-IsSettled :
    {ids : List Value} {msg msg' : Fields}
    → Cleaned ids msg msg'
    → IsSettled ids (content_of msg') msg'
unfolding clean_message
Cleaned-IsSettled {ids} {msg} {msg'} c =
    fixed-IsSettled ids (content_of msg') msg' refl (clean_message_idem c)

Passed-AreSettled : {cleaned ms rs : List Fields} → Passed cleaned ms rs → AreSettled cleaned rs
Passed-AreSettled (done cleaned) = tt
Passed-AreSettled (keep ids msg msg' e c p) = ((ids, e, Cleaned-IsSettled c), Passed-AreSettled p)
Passed-AreSettled (drop ids msg e d p) = Passed-AreSettled p

-- After a pass every message is settled: no empty text is left, and each tool result answers a tool
-- call of the last assistant message before it.
pub sanitize_single_pass-AreSettled :
    (ms rs : List Fields) → sanitize_single_pass ms ≡ ok rs → AreSettled [] rs
sanitize_single_pass-AreSettled ms rs h = Passed-AreSettled (pass_from-Passed [] ms rs h)
