-- ===== src/Proxy/Messages/Message.antt =====
-- One message of a pass: what the kept message holds, and that cleaning it again changes nothing.
use coding_agents_databricks.Base.{
  String, ◌≡◌, refl, sym, ap, true, false, some, List, [], arith, ok, >>=-eq-ok, ◌==◌, eq_iff,
  if◌then◌else◌, Bool-cases, inl, inr, ◌∙◌, ◌⊎◌, string_has_eq,
}
use coding_agents_databricks.Base.Text.{is_blank}
use coding_agents_databricks.Json.{
  Value, Items, Fields, null, bool, int, float, str, arr, obj, nil, cons, get_or, put, is_text,
  member,
}
use coding_agents_databricks.Json.Lookup.{get-put, put-put}
use coding_agents_databricks.Proxy.Messages.{
  filter_blocks, role_of, is_assistant, with_blocks, clean_tool_message, clean_text_message,
  clean_content, clean_message, extract_tool_ids, content_ids, calls,
}
use coding_agents_databricks.Proxy.Messages.Blocks.{
  Filtered, filter_blocks-Filtered, filter_blocks_idem, tool_use_ids-Filtered,
}

abbrev pub content_of : Fields → Value
content_of msg = get_or null "content" msg

-- The answer at another key, after the content was written.
pub get_or-put_content :
    (d v : Value) (k : String) (msg : Fields)
    → ("content" == k) ≡ false
    → get_or d k (put "content" v msg) ≡ get_or d k msg
unfolding get_or
get_or-put_content d v k msg n = ground (arith, get-put "content" k v msg)

pub content_of-put : (v : Value) (msg : Fields) → content_of (put "content" v msg) ≡ v
unfolding get_or
content_of-put v msg = ground (arith, get-put "content" "content" v msg)

pub role_of-put : (v : Value) (msg : Fields) → role_of (put "content" v msg) ≡ role_of msg
role_of-put v msg = get_or-put_content (str "") v "role" msg refl

-- How a message comes through a pass: its blocks are filtered, or it stays as it is, or a text that
-- says nothing is replaced.
pub data Cleaned (ids : List Value) (msg msg' : Fields) : Type 0 where
  blocks :
      (xs ys : Items)
      → content_of msg ≡ arr xs
      → Filtered ids xs ys
      → with_blocks ys msg ≡ some msg'
      → Cleaned ids msg msg'
  same : clean_message ids msg ≡ ok (some msg) → msg' ≡ msg → Cleaned ids msg msg'
  dot :
      is_assistant msg ≡ true
      → content_ids (content_of msg) ≡ ok []
      → msg' ≡ put "content" (str ".") msg
      → Cleaned ids msg msg'

tool_message_same :
    (ids : List Value) (msg msg' : Fields)
    → clean_tool_message ids msg ≡ ok (some msg')
    → msg' ≡ msg
unfolding clean_tool_message member
tool_message_same ids msg msg' h = ground arith

text_message_cases :
    (v : Value) (msg msg' : Fields)
    → clean_text_message v msg ≡ some msg'
    → (msg' ≡ msg)
      ⊎ ((is_assistant msg ≡ true) × (content_ids v ≡ ok []) × (msg' ≡ put "content" (str ".") msg))
unfolding clean_text_message content_ids
text_message_cases null msg msg' h = ground arith
text_message_cases (str s) msg msg' h = ground arith
text_message_cases (arr xs) msg msg' h = ground arith
text_message_cases _ msg msg' h = ground arith

pub clean_message-Cleaned :
    (ids : List Value) (msg msg' : Fields)
    → clean_message ids msg ≡ ok (some msg')
    → Cleaned ids msg msg'
unfolding clean_message clean_content
clean_message-Cleaned ids msg msg' h = split (content_of msg) refl h
  where
    stays : msg' ≡ msg → Cleaned ids msg msg'
    stays e = same (cc) e

    other :
        (c : Value)
        → content_of msg ≡ c
        → (is_text "tool" (role_of msg) ≡ true) ⊎ (is_text "tool" (role_of msg) ≡ false)
        → (if is_text "tool" (role_of msg)
            then clean_tool_message ids msg
            else ok (clean_text_message c msg))
          ≡ ok (some msg')
        → Cleaned ids msg msg'
    other c e (inl t) k = stays (tool_message_same ids msg msg' (rw t at k))
    other c e (inr n) k = elim (text_message_cases c msg msg' (ground arith)) [
      | inl s ↦ stays s
      | inr (a, b, d) ↦ dot a (rw e b) d
    ]

    split :
        (c : Value)
        → content_of msg ≡ c
        → clean_content ids c msg ≡ ok (some msg')
        → Cleaned ids msg msg'
    split (arr xs) e k =
        let (ys, f, w) = >>=-eq-ok (filter_blocks ids xs) _ k in
        blocks xs ys e (filter_blocks-Filtered ids xs ys f) (ground arith)
    split null e k = other null e (Bool-cases _) k
    split (str s) e k = other (str s) e (Bool-cases _) k
    split (bool b) e k = other (bool b) e (Bool-cases _) k
    split (int n) e k = other (int n) e (Bool-cases _) k
    split (float m n) e k = other (float m n) e (Bool-cases _) k
    split (obj fs) e k = other (obj fs) e (Bool-cases _) k

pub with_blocks-put :
    (ys : Items) (msg msg' : Fields)
    → with_blocks ys msg ≡ some msg'
    → (msg' ≡ put "content" (arr ys) msg) × (with_blocks ys msg' ≡ some msg')
unfolding with_blocks
with_blocks-put nil msg msg' h =
    ground (arith, put-put "content" (arr nil) (arr nil) msg, role_of-put (arr nil) msg)
with_blocks-put (cons y ys) msg msg' h =
    ground (arith, put-put "content" (arr (cons y ys)) (arr (cons y ys)) msg)

pub assistant_not_tool : (v : Value) → is_text "assistant" v ≡ true → is_text "tool" v ≡ false
assistant_not_tool (str s) h =
    ground (arith, eq_iff s "assistant", eq_iff s "tool", eq_iff "tool" "assistant")
assistant_not_tool null h = refl
assistant_not_tool _ h = refl

dot_again :
    (ids : List Value) (msg : Fields)
    → is_assistant msg ≡ true
    → clean_message ids (put "content" (str ".") msg) ≡ ok (some (put "content" (str ".") msg))
unfolding clean_message clean_content clean_text_message is_blank
dot_again ids msg a =
    rw (content_of-put (str ".") msg)
      (rw (role_of-put (str ".") msg, assistant_not_tool (role_of msg) a) refl)

-- Cleaning a cleaned message again, after the same assistant message, changes nothing.
pub clean_message_idem :
    {ids : List Value} {msg msg' : Fields}
    → Cleaned ids msg msg'
    → clean_message ids msg' ≡ ok (some msg')
unfolding clean_message clean_content
clean_message_idem {msg} {msg'} (blocks xs ys e f w) =
    let (p, q) = with_blocks-put ys msg msg' w in
    let c : content_of msg' ≡ arr ys = ap content_of p ∙ content_of-put (arr ys) msg in
    rw (c, filter_blocks_idem f) (rw q)
clean_message_idem {msg} {msg'} (same h e) = rw e h
clean_message_idem {ids} {msg} (dot a b e) = rw e (dot_again ids msg a)

-- A cleaned message has its role and its tool calls.
pub role_of-Cleaned :
    {ids : List Value} {msg msg' : Fields} → Cleaned ids msg msg' → role_of msg' ≡ role_of msg
role_of-Cleaned {ids} {msg} {msg'} (blocks xs ys e f w) =
    rw ((with_blocks-put ys msg msg' w).0) (role_of-put (arr ys) msg)
role_of-Cleaned (same h e) = ap role_of e
role_of-Cleaned {ids} {msg} (dot a b e) = rw e (role_of-put (str ".") msg)

calls-put : (v : Value) (msg : Fields) → calls (put "content" v msg) ≡ calls msg
unfolding calls
calls-put v msg = rw (get_or-put_content null v "tool_calls" msg refl)

extract_tool_ids_of_content :
    (v : Value) (msg : Fields)
    → content_ids v ≡ content_ids (content_of msg)
    → extract_tool_ids (put "content" v msg) ≡ extract_tool_ids msg
unfolding extract_tool_ids
extract_tool_ids_of_content v msg h = rw (calls-put v msg, content_of-put v msg, h)

pub extract_tool_ids-Cleaned :
    {ids : List Value} {msg msg' : Fields}
    → Cleaned ids msg msg'
    → extract_tool_ids msg' ≡ extract_tool_ids msg
unfolding content_ids
extract_tool_ids-Cleaned {ids} {msg} {msg'} (blocks xs ys e f w) =
    rw ((with_blocks-put ys msg msg' w).0)
      (extract_tool_ids_of_content (arr ys) msg (rw e (tool_use_ids-Filtered f [])))
extract_tool_ids-Cleaned (same h e) = ap extract_tool_ids e
extract_tool_ids-Cleaned {ids} {msg} (dot a b e) =
    rw e (extract_tool_ids_of_content (str ".") msg (sym b))
