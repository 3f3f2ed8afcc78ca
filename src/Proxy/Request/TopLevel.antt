-- ===== src/Proxy/Request/TopLevel.antt =====
-- The fields of a sanitized request other than `tools`: which are removed, and that no other
-- changes.
use coding_agents_databricks.Base.{
  String, ◌≡◌, refl, ◌∙◌, false, ◌&&◌, ◌||◌, none, List, [], ◌∷◌, any, arith, ok, >>=-eq-ok, ◌==◌,
  eq_iff, if◌then◌else◌, string_has_eq,
}
use coding_agents_databricks.Json.{Fields, get, get_or, remove}
use coding_agents_databricks.Base.Text.{lower_contains}
use coding_agents_databricks.Json.Lookup.{get-put, get-remove}
use coding_agents_databricks.Proxy.Request.{
  clean_tool_list, model_name, remove_all, sanitize_tool_schemas, reasoning_keys, sampling_keys,
  strip_unsupported_sampling_params,
}

pub get-remove_all :
    (ks : List String) (j : String) (fs : Fields)
    → get j (remove_all ks fs) ≡ (if any (λ k. k == j) ks then none else get j fs)
unfolding remove_all
get-remove_all [] j fs = refl
get-remove_all (k ∷ ks) j fs =
    ground (arith, get-remove_all ks j (remove k fs), get-remove k j fs, eq_iff k j)

pub get-clean_tool_list :
    (d e : Fields) (k : String)
    → clean_tool_list d ≡ ok e
    → ("tools" == k) ≡ false
    → get k e ≡ get k d
unfolding clean_tool_list
get-clean_tool_list d e k h n = grind (arith, get-put)

model_name_of_get : (d e : Fields) → get "model" d ≡ get "model" e → model_name d ≡ model_name e
unfolding model_name get_or
model_name_of_get d e h = cc

-- With its model's name, a request that is sanitized has lost `stream_options`, `$schema` and, if
-- the name holds "gpt", the two reasoning fields; every other field but `tools` is as it was.
pub get-sanitize_tool_schemas :
    (d d' : Fields) (k : String)
    → sanitize_tool_schemas d ≡ ok d'
    → ("tools" == k) ≡ false
    → (name : String) × (model_name d ≡ ok name)
      × (get k d' ≡ (
          if "stream_options" == k
            || "$schema" == k
            || lower_contains "gpt" name && any (λ j. j == k) reasoning_keys
          then none
          else get k d))
unfolding sanitize_tool_schemas
get-sanitize_tool_schemas d d' k h n =
    let (w, ew, r) = >>=-eq-ok (clean_tool_list d) _ h in
    let s : Fields = remove_all ("stream_options" ∷ []) w in
    let (name, en, r') = >>=-eq-ok (model_name s) _ r in
    (
      name,
      model_name_of_get d s (
            ground (
              arith,
              get-remove_all ("stream_options" ∷ []) "model" w,
              get-clean_tool_list d w "model" ew refl,
            ))
          ∙ en,
      ground (
        arith,
        get-clean_tool_list d w k ew n,
        get-remove_all ("stream_options" ∷ []) k w,
        get-remove_all reasoning_keys k s,
        get-remove "$schema" k s,
        get-remove "$schema" k (remove_all reasoning_keys s),
      ),
    )

-- With its model's name, a request has lost the three sampling fields if the name holds that of the
-- model which rejects them; every other field, and of any other model every field, is as it was.
pub get-strip_unsupported_sampling_params :
    (d d' : Fields) (k : String)
    → strip_unsupported_sampling_params d ≡ ok d'
    → (name : String) × (model_name d ≡ ok name)
      × (get k d' ≡ (
          if lower_contains "claude-opus-4-8" name && any (λ j. j == k) sampling_keys
          then none
          else get k d))
unfolding strip_unsupported_sampling_params
get-strip_unsupported_sampling_params d d' k h =
    let (name, en, r) = >>=-eq-ok (model_name d) _ h in
    (name, en, ground (arith, get-remove_all sampling_keys k d))
