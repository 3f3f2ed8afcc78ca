-- ===== src/Proxy/Schema/Lost.antt =====
-- What a stripped object answers at each key, and the tool parameters that stripping loses: below
-- `properties` the keys are names of parameters, and `strip` takes them for keywords.
use mathlib.Core.Option
use coding_agents_databricks.Base.{
  String, ◌≡◌, refl, true, ◌&&◌, ◌||◌, none, some, arith, ◌==◌, if◌then◌else◌, false, string_has_eq,
}
use coding_agents_databricks.Json.{Items, Fields, str, arr, obj, nil, cons, get}
use coding_agents_databricks.Proxy.Schema.{
  unsupported, is_integer_schema, strip, strip_items, strip_fields, strip_object,
}
use coding_agents_databricks.Proxy.Schema.Strip.{get-drop_bounds, get-strip_fields}

is_integer_schema-strip_fields :
    (fs : Fields) → is_integer_schema (strip_fields fs) ≡ is_integer_schema fs
unfolding is_integer_schema unsupported strip
is_integer_schema-strip_fields fs = ground (arith, get-strip_fields "type" fs)

-- The answer of a stripped object at a key: none for a rejected keyword, none for a range bound of
-- an integer schema, and otherwise the stripped answer of the object.
pub get-strip_object :
    (k : String) (fs : Fields)
    → get k (strip_object fs) ≡ (
        if unsupported k
        then none
        else if is_integer_schema fs && (k == "minimum" || k == "maximum")
        then none
        else Option.map strip (get k fs))
get-strip_object k fs = ground (
  arith,
  get-drop_bounds k (strip_fields fs),
  is_integer_schema-strip_fields fs,
  get-strip_fields k fs,
)

abbrev pub AreTexts : Items → Type 0
AreTexts nil = Unit
AreTexts (cons (str _) xs) = AreTexts xs
AreTexts (cons _ _) = ⊥

strip_items_of_AreTexts : (xs : Items) → AreTexts xs → strip_items xs ≡ xs
unfolding strip
strip_items_of_AreTexts nil h = ground arith
strip_items_of_AreTexts (cons (str s) xs) h = ground (arith, strip_items_of_AreTexts xs h)
strip_items_of_AreTexts (cons _ xs) h = absurd h

supported_names : (unsupported "properties" ≡ false) × (unsupported "required" ≡ false)
unfolding unsupported
supported_names = (refl, refl)

-- In an object with `properties` and a `required` list of texts, a property that is named like a
-- rejected keyword is removed, and `required` is as it was, whether or not it names the property.
pub strip_loses_parameter :
    (k : String) (fs ps : Fields) (names : Items)
    → unsupported k ≡ true
    → get "properties" fs ≡ some (obj ps)
    → get "required" fs ≡ some (arr names)
    → AreTexts names
    → (get "properties" (strip_object fs) ≡ some (obj (strip_object ps)))
      × (get k (strip_object ps) ≡ none)
      × (get "required" (strip_object fs) ≡ some (arr names))
unfolding strip
strip_loses_parameter k fs ps names u hp hr ht = ground (
  arith,
  supported_names,
  get-strip_object "properties" fs,
  get-strip_object "required" fs,
  get-strip_object k ps,
  strip_items_of_AreTexts names ht,
)
