-- ===== src/Proxy/Messages/Blocks.antt =====
-- The content blocks that a pass keeps.
use coding_agents_databricks.Base.{
  String, ◌≡◌, refl, Bool, true, false, List, any, arith, Result, ok, >>=-eq-ok, eq_iff,
  if◌then◌else◌,
}
use mathlib.Core.Path.{subst, fun_ext}
use coding_agents_databricks.Base.Text.{is_blank}
use coding_agents_databricks.Json.{
  Value, Items, Fields, null, str, obj, nil, cons, get_or, is_text, truthy, same_key, member,
}
use coding_agents_databricks.Proxy.Messages.{keep_block, filter_blocks, tool_use_ids}

-- `v in ids`
abbrev pub Known : List Value → Value → Type 0
Known ids v = any (same_key v) ids ≡ true

-- A text block says something, and a tool result answers an id of the list, if it names any.
abbrev pub IsKept : List Value → Value → Type 0
IsKept ids (obj block) =
    ((text : String)
      → is_text "text" (get_or null "type" block) ≡ true
      → get_or (str "") "text" block ≡ str text
      → is_blank text ≡ false)
    × (is_text "tool_result" (get_or null "type" block) ≡ true
        → truthy (get_or null "tool_use_id" block) ≡ true
        → Known ids (get_or null "tool_use_id" block))
IsKept ids _ = Unit

abbrev pub AreKept : List Value → Items → Type 0
AreKept ids nil = Unit
AreKept ids (cons v rest) = IsKept ids v × AreKept ids rest

is_text_apart : (v : Value) → is_text "tool_result" v ≡ true → is_text "text" v ≡ false
is_text_apart (str s) h =
    ground (arith, eq_iff s "tool_result", eq_iff s "text", eq_iff "text" "tool_result")
is_text_apart null h = ground arith
is_text_apart _ h = ground arith

is_text_apart_tool_use :
    (v : Value)
    → is_text "tool_use" v ≡ true
    → (is_text "text" v ≡ false) × (is_text "tool_result" v ≡ false)
is_text_apart_tool_use (str s) h = ground (
  arith,
  eq_iff s "tool_use",
  eq_iff s "text",
  eq_iff s "tool_result",
  eq_iff "text" "tool_use",
  eq_iff "tool_result" "tool_use",
)
is_text_apart_tool_use null h = ground arith
is_text_apart_tool_use _ h = ground arith

keep_block-IsKept :
    (ids : List Value) (block : Fields) → keep_block ids block ≡ ok true → IsKept ids (obj block)
unfolding keep_block member
keep_block-IsKept ids block h =
    ((λ text t e. ground arith), (λ r t. ground (arith, is_text_apart (get_or null "type" block))))

keep_block_of_tool_use :
    (ids : List Value) (block : Fields)
    → is_text "tool_use" (get_or null "type" block) ≡ true
    → keep_block ids block ≡ ok true
unfolding keep_block
keep_block_of_tool_use ids block h =
    ground (arith, is_text_apart_tool_use (get_or null "type" block))

-- The pass keeps the block, or a member of the content that is no block.
abbrev Keeps : List Value → Value → Type 0
Keeps ids (obj block) = keep_block ids block ≡ ok true
Keeps ids _ = Unit

-- What `filter_blocks` does, member by member.
pub data Filtered (ids : List Value) : Items → Items → Type 0 where
  done : Filtered ids nil nil
  keep :
      (v : Value) {xs ys : Items}
      → Keeps ids v
      → Filtered ids xs ys
      → Filtered ids (cons v xs) (cons v ys)
  drop :
      (block : Fields) {xs ys : Items}
      → keep_block ids block ≡ ok false
      → Filtered ids xs ys
      → Filtered ids (cons (obj block) xs) ys

Filtered-block :
    (ids : List Value) (block : Fields) (rest zs ys : Items) (k : Bool)
    → keep_block ids block ≡ ok k
    → Filtered ids rest zs
    → ◌≡◌ {A = Result Items} (ok (if k then cons (obj block) zs else zs)) (ok ys)
    → Filtered ids (cons (obj block) rest) ys
Filtered-block ids block rest zs ys true e f h =
    subst (Filtered ids (cons (obj block) rest)) (cc) (keep (obj block) e f)
Filtered-block ids block rest zs ys false e f h =
    subst (Filtered ids (cons (obj block) rest)) (cc) (drop block e f)

pub filter_blocks-Filtered :
    (ids : List Value) (xs ys : Items) → filter_blocks ids xs ≡ ok ys → Filtered ids xs ys
unfolding filter_blocks
filter_blocks-Filtered ids nil ys h = subst (Filtered ids nil) (cc) done
filter_blocks-Filtered ids (cons (obj block) rest) ys h =
    let (k, ek, r) = >>=-eq-ok (keep_block ids block) _ h in
    let (zs, ez, r') = >>=-eq-ok (filter_blocks ids rest) _ r in
    Filtered-block ids block rest zs ys k ek (filter_blocks-Filtered ids rest zs ez) r'
filter_blocks-Filtered ids (cons null rest) ys h =
    let (zs, ez, r) = >>=-eq-ok (filter_blocks ids rest) _ h in
    subst (Filtered ids (cons null rest)) (cc)
      (keep null tt (filter_blocks-Filtered ids rest zs ez))
filter_blocks-Filtered ids (cons v rest) ys h =
    let (zs, ez, r) = >>=-eq-ok (filter_blocks ids rest) _ h in
    subst (Filtered ids (cons v rest)) (cc) (keep v tt (filter_blocks-Filtered ids rest zs ez))

Keeps-IsKept : (ids : List Value) (v : Value) → Keeps ids v → IsKept ids v
Keeps-IsKept ids (obj block) h = keep_block-IsKept ids block h
Keeps-IsKept ids null h = tt
Keeps-IsKept ids _ h = tt

pub Filtered-AreKept : {ids : List Value} {xs ys : Items} → Filtered ids xs ys → AreKept ids ys
Filtered-AreKept done = tt
Filtered-AreKept {ids} (keep v k f) = (Keeps-IsKept ids v k, Filtered-AreKept f)
Filtered-AreKept (drop block e f) = Filtered-AreKept f

-- Filtering what has been filtered keeps all of it.
pub filter_blocks_idem :
    {ids : List Value} {xs ys : Items} → Filtered ids xs ys → filter_blocks ids ys ≡ ok ys
unfolding filter_blocks
filter_blocks_idem done = refl
filter_blocks_idem (keep (obj block) k f) = rw (k, filter_blocks_idem f)
filter_blocks_idem (keep null k f) = rw (filter_blocks_idem f)
filter_blocks_idem (keep _ k f) = rw (filter_blocks_idem f)
filter_blocks_idem (drop block e f) = filter_blocks_idem f

-- No tool call is filtered out.
pub tool_use_ids-Filtered :
    {ids : List Value} {xs ys : Items} (f : Filtered ids xs ys) (acc : List Value)
    → tool_use_ids ys acc ≡ tool_use_ids xs acc
unfolding tool_use_ids
tool_use_ids-Filtered done acc = refl
tool_use_ids-Filtered (keep (obj block) k f) acc = rw (fun_ext (tool_use_ids-Filtered f))
tool_use_ids-Filtered (keep null k f) acc = tool_use_ids-Filtered f acc
tool_use_ids-Filtered (keep _ k f) acc = tool_use_ids-Filtered f acc
tool_use_ids-Filtered {ids} (drop block e f) acc =
    ground (arith, keep_block_of_tool_use ids block, tool_use_ids-Filtered f acc)
