-- ===== src/Proxy/Schema.antt =====
-- content_filter_proxy.py: `strip_unsupported_schema_keys`, the JSON Schema keywords that are taken
-- out of every tool's parameters.
pub mod Strip
pub mod Lost
use coding_agents_databricks.Base.{
  String, Bool, ◌||◌, Option, none, some, List, [], ◌∷◌, any, ◌==◌, if◌then◌else◌, string_has_eq,
}
use coding_agents_databricks.Json.{
  Value, Items, Fields, null, bool, int, float, str, arr, obj, nil, cons, end, field, get, get_or,
  remove, is_text,
}

-- `GEMINI_UNSUPPORTED_SCHEMA_KEYS`
abbrev pub unsupported_keys : List String
unsupported_keys =
    "$schema" ∷ "$ref" ∷ "$defs" ∷ "$id" ∷ "$comment" ∷ "additionalProperties" ∷ "exclusiveMinimum"
    ∷ "exclusiveMaximum" ∷ "multipleOf" ∷ "minLength" ∷ "maxLength" ∷ "pattern" ∷ "minItems"
    ∷ "maxItems" ∷ "uniqueItems" ∷ "minProperties" ∷ "maxProperties" ∷ "patternProperties" ∷ []

-- `k in GEMINI_UNSUPPORTED_SCHEMA_KEYS`
unfoldable pub unsupported : String → Bool
unsupported k = any (λ j. j == k) unsupported_keys

-- `cleaned.get("type") == "integer"`
unfoldable pub is_integer_schema : Fields → Bool
unfolding get_or
is_integer_schema fs = is_text "integer" (get_or null "type" fs)

-- the bounds of an integer property
unfoldable pub drop_bounds : Fields → Fields
drop_bounds fs = if is_integer_schema fs then remove "maximum" (remove "minimum" fs) else fs

unfoldable mutual
  pub strip : Value → Value
  strip null = null
  strip (bool b) = bool b
  strip (int n) = int n
  strip (float m e) = float m e
  strip (str s) = str s
  strip (arr xs) = arr (strip_items xs)
  strip (obj fs) = obj (drop_bounds (strip_fields fs))

  pub strip_items : Items → Items
  strip_items nil = nil
  strip_items (cons x xs) = cons (strip x) (strip_items xs)

  pub strip_fields : Fields → Fields
  strip_fields end = end
  strip_fields (field k v fs) =
      let rest = strip_fields fs in if unsupported k then rest else field k (strip v) rest

-- The object that `strip` makes of an object.
abbrev pub strip_object : Fields → Fields
strip_object fs = drop_bounds (strip_fields fs)
