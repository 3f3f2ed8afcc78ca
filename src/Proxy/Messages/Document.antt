-- ===== src/Proxy/Messages/Document.antt =====
-- `sanitize_messages` as a whole, on the messages of a request.
use coding_agents_databricks.Base.{◌≡◌, refl, ap, true, some, List, ok, ◌∙◌}
use mathlib.Core.Path.{subst}
use coding_agents_databricks.Json.{
  Value, Items, Fields, arr, null, get_or, put, is_text, truthy, cons,
}
use coding_agents_databricks.Proxy.Messages.{
  role_of, filter_blocks, clean_message, clean_content, with_blocks,
}
use coding_agents_databricks.Proxy.Messages.Blocks.{Known}
use coding_agents_databricks.Proxy.Messages.Message.{content_of, get_or-put_content, role_of-put}
use coding_agents_databricks.Proxy.Messages.Orphans.{AnswersCall}

-- A message of role `tool` whose content is a list of blocks of which some are kept is kept even if
-- the `tool_call_id` that it names is none of the known ids.
pub listed_answer_is_kept :
    (ids : List Value) (msg : Fields) (xs : Items) (y : Value) (ys : Items)
    → content_of msg ≡ arr xs
    → filter_blocks ids xs ≡ ok (cons y ys)
    → is_text "tool" (role_of msg) ≡ true
    → truthy (get_or null "tool_call_id" msg) ≡ true
    → ¬ Known ids (get_or null "tool_call_id" msg)
    → (msg' : Fields) × (clean_message ids msg ≡ ok (some msg')) × ¬ AnswersCall ids msg'
unfolding clean_message clean_content with_blocks
listed_answer_is_kept ids msg xs y ys c f t r unknown =
    let v = arr (cons y ys) in
    let q = get_or-put_content null v "tool_call_id" msg refl in
    let t' : is_text "tool" (role_of (put "content" v msg)) ≡ true =
      ap (is_text "tool") (role_of-put v msg) ∙ t in
    (
      put "content" v msg,
      rw (c, f) refl,
      λ a. unknown (subst (Known ids) q (a t' (ap truthy q ∙ r))),
    )
