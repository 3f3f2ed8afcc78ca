-- ===== src/Proxy/Request/Tools.antt =====
-- The parameters of every tool of a sanitized request are clean.
use coding_agents_databricks.Base.{
  ◌≡◌, refl, Option, none, some, [], ◌∷◌, arith, ok, ◌>>=◌, >>=-eq-ok, string_has_eq, Option-cases,
  inl, inr,
}
use mathlib.Core.Path.{subst}
use coding_agents_databricks.Json.{
  Value, Items, Fields, str, arr, obj, nil, cons, null, get, put, as_dict,
}
use coding_agents_databricks.Json.Lookup.{get-put, get-remove}
use coding_agents_databricks.Proxy.Schema.{strip}
use coding_agents_databricks.Proxy.Schema.Strip.{IsClean, strip-IsClean}
use coding_agents_databricks.Proxy.Request.TopLevel.{get-remove_all}
use coding_agents_databricks.Proxy.Request.{
  clean_function, clean_tool, clean_tools, clean_tool_list, model_name, remove_all,
  sanitize_tool_schemas, reasoning_keys,
}

-- The parameters, where the tool is an object whose `function` is an object that has some.
abbrev pub HasCleanParameters : Value → Type 0
HasCleanParameters (obj fs) =
    (gs : Fields) (v : Value)
    → get "function" fs ≡ some (obj gs)
    → get "parameters" gs ≡ some v
    → IsClean v
HasCleanParameters _ = Unit

abbrev pub HaveCleanParameters : Items → Type 0
HaveCleanParameters nil = Unit
HaveCleanParameters (cons x xs) = HasCleanParameters x × HaveCleanParameters xs

clean_function_strips :
    (f : Value) (gs : Fields) (v : Value)
    → clean_function f ≡ ok (obj gs)
    → get "parameters" gs ≡ some v
    → (w : Value) × (strip w ≡ v)
unfolding clean_function
clean_function_strips (obj fs) gs v h p = elim (Option-cases (get "parameters" fs)) [
  | inl e ↦ absurd (ground arith)
  | inr (w, e) ↦ (w, ground (arith, get-put "parameters" "parameters" (strip w) fs))
]
clean_function_strips (str s) gs v h p = absurd (ground arith)
clean_function_strips (arr xs) gs v h p = absurd (ground arith)
clean_function_strips null gs v h p = absurd (ground arith)
clean_function_strips _ gs v h p = absurd (ground arith)

clean_function_of_bind :
    (f : Value) (es fs gs : Fields)
    → (clean_function f >>= λ g. ok (obj (put "function" g es))) ≡ ok (obj fs)
    → get "function" fs ≡ some (obj gs)
    → clean_function f ≡ ok (obj gs)
clean_function_of_bind f es fs gs h p =
    let (g, e, r) = >>=-eq-ok (clean_function f) _ h in
    ground (arith, get-put "function" "function" g es)

clean_tool_function :
    (x : Value) (fs gs : Fields)
    → clean_tool x ≡ ok (obj fs)
    → get "function" fs ≡ some (obj gs)
    → (f : Value) × (clean_function f ≡ ok (obj gs))
unfolding clean_tool as_dict
clean_tool_function (obj es) fs gs h p = elim (Option-cases (get "function" es)) [
  | inl e ↦ absurd (ground arith)
  | inr (f, e) ↦ (f, clean_function_of_bind f es fs gs (ground arith) p)
]
clean_tool_function null fs gs h p = absurd (ground arith)
clean_tool_function _ fs gs h p = absurd (ground arith)

clean_tool-HasCleanParameters : (x y : Value) → clean_tool x ≡ ok y → HasCleanParameters y
clean_tool-HasCleanParameters x (obj fs) h = λ gs v p q.
    let (f, e) = clean_tool_function x fs gs h p in
    let (w, r) = clean_function_strips f gs v e q in subst IsClean r (strip-IsClean w)
clean_tool-HasCleanParameters x null h = tt
clean_tool-HasCleanParameters x _ h = tt

clean_tools-HaveCleanParameters : (xs ys : Items) → clean_tools xs ≡ ok ys → HaveCleanParameters ys
unfolding clean_tools
clean_tools-HaveCleanParameters nil nil h = tt
clean_tools-HaveCleanParameters nil (cons y ys) h = cc
clean_tools-HaveCleanParameters (cons x xs) nil h = tt
clean_tools-HaveCleanParameters (cons x xs) (cons y ys) h =
    let (x', e, r) = >>=-eq-ok (clean_tool x) _ h in
    let (xs', e', r') = >>=-eq-ok (clean_tools xs) _ r in
    (clean_tool-HasCleanParameters x y (cc), clean_tools-HaveCleanParameters xs ys (cc))

clean_tool_list-HaveCleanParameters :
    (o : Option Value) (d w : Fields) (ts : Items)
    → get "tools" d ≡ o
    → clean_tool_list d ≡ ok w
    → get "tools" w ≡ some (arr ts)
    → HaveCleanParameters ts
unfolding clean_tool_list
clean_tool_list-HaveCleanParameters none d w ts e h p = absurd (ground arith)
clean_tool_list-HaveCleanParameters (some (arr xs)) d w ts e h p =
    let k : (clean_tools xs >>= λ tools'. ok (put "tools" (arr tools') d)) ≡ ok w = ground arith in
    let (ys, ey, r) = >>=-eq-ok (clean_tools xs) _ k in
    subst HaveCleanParameters (ground (arith, get-put "tools" "tools" (arr ys) d))
      (clean_tools-HaveCleanParameters xs ys ey)
clean_tool_list-HaveCleanParameters (some null) d w ts e h p = absurd (grind arith)
clean_tool_list-HaveCleanParameters (some _) d w ts e h p = absurd (grind arith)

-- In a request that went through `sanitize_tool_schemas`, the parameters of each tool's function
-- hold no rejected keyword and no range bound of an integer schema, at any depth.
pub sanitize_tool_schemas-HaveCleanParameters :
    (d d' : Fields) (ts : Items)
    → sanitize_tool_schemas d ≡ ok d'
    → get "tools" d' ≡ some (arr ts)
    → HaveCleanParameters ts
unfolding sanitize_tool_schemas
sanitize_tool_schemas-HaveCleanParameters d d' ts h p =
    let (w, ew, r) = >>=-eq-ok (clean_tool_list d) _ h in
    let s : Fields = remove_all ("stream_options" ∷ []) w in
    let (name, en, r') = >>=-eq-ok (model_name s) _ r in
    clean_tool_list-HaveCleanParameters (get "tools" d) d w ts refl ew (
      ground (
        arith,
        get-remove_all ("stream_options" ∷ []) "tools" w,
        get-remove_all reasoning_keys "tools" s,
        get-remove "$schema" "tools" s,
        get-remove "$schema" "tools" (remove_all reasoning_keys s),
      ))
