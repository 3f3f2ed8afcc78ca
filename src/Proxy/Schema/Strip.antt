-- ===== src/Proxy/Schema/Strip.antt =====
-- A stripped schema has no keyword that the gateway rejects, at any depth, and a schema that has
-- none is left as it is.
use mathlib.Core.Option
use coding_agents_databricks.Base.{
  String, ◌≡◌, refl, true, false, ◌&&◌, ◌||◌, none, arith, ◌==◌, eq_iff, if◌then◌else◌,
  string_has_eq, Bool-cases, inl, inr, ap,
}
use coding_agents_databricks.Json.{
  Value, Items, Fields, null, bool, int, float, str, arr, obj, nil, cons, end, field, get, get_or,
  remove,
}
use coding_agents_databricks.Json.Lookup.{get-remove, remove_of_none}
use coding_agents_databricks.Proxy.Schema.{
  unsupported, is_integer_schema, drop_bounds, strip, strip_items, strip_fields,
}

-- An integer schema has no range bound.
abbrev pub IsUnbounded : Fields → Type 0
IsUnbounded fs = is_integer_schema fs ≡ true → (get "minimum" fs ≡ none) × (get "maximum" fs ≡ none)

abbrev mutual
  pub IsClean : Value → Type 0
  IsClean null = Unit
  IsClean (bool _) = Unit
  IsClean (int _) = Unit
  IsClean (float _ _) = Unit
  IsClean (str _) = Unit
  IsClean (arr xs) = AreClean xs
  IsClean (obj fs) = IsUnbounded fs × HasCleanFields fs

  pub AreClean : Items → Type 0
  AreClean nil = Unit
  AreClean (cons x xs) = IsClean x × AreClean xs

  pub HasCleanFields : Fields → Type 0
  HasCleanFields end = Unit
  HasCleanFields (field k v fs) = (unsupported k ≡ false) × IsClean v × HasCleanFields fs

remove-HasCleanFields :
    (k : String) (fs : Fields) → HasCleanFields fs → HasCleanFields (remove k fs)
unfolding remove
remove-HasCleanFields k end h = tt
remove-HasCleanFields k (field j v fs) h = ground (arith, remove-HasCleanFields k fs h.2)

drop_bounds-HasCleanFields : (fs : Fields) → HasCleanFields fs → HasCleanFields (drop_bounds fs)
unfolding drop_bounds
drop_bounds-HasCleanFields fs h = elim (Bool-cases (is_integer_schema fs)) [
  | inl e ↦
      rw e (
        remove-HasCleanFields "maximum" (remove "minimum" fs)
          (remove-HasCleanFields "minimum" fs h))
  | inr e ↦ rw e h
]

-- The bounds and the type of an object after `drop_bounds`.
pub get-drop_bounds :
    (k : String) (fs : Fields)
    → get k (drop_bounds fs)
      ≡ (if is_integer_schema fs && (k == "minimum" || k == "maximum") then none else get k fs)
unfolding drop_bounds
get-drop_bounds k fs = ground (
  arith,
  get-remove "maximum" k (remove "minimum" fs),
  get-remove "minimum" k fs,
  eq_iff "maximum" k,
  eq_iff "minimum" k,
  eq_iff k "maximum",
  eq_iff k "minimum",
)

drop_bounds-IsUnbounded : (fs : Fields) → IsUnbounded (drop_bounds fs)
unfolding is_integer_schema get_or
drop_bounds-IsUnbounded fs =
    ground
      (arith, get-drop_bounds "type" fs, get-drop_bounds "minimum" fs, get-drop_bounds "maximum" fs)

mutual
  unfolding strip

  strip_value-IsClean : (v : Value) → IsClean (strip v)
  strip_value-IsClean null = tt
  strip_value-IsClean (bool _) = tt
  strip_value-IsClean (int _) = tt
  strip_value-IsClean (float _ _) = tt
  strip_value-IsClean (str _) = tt
  strip_value-IsClean (arr xs) = strip_items-AreClean xs
  strip_value-IsClean (obj fs) = (
    drop_bounds-IsUnbounded (strip_fields fs),
    drop_bounds-HasCleanFields (strip_fields fs) (strip_fields-HasCleanFields fs),
  )

  strip_items-AreClean : (xs : Items) → AreClean (strip_items xs)
  strip_items-AreClean nil = tt
  strip_items-AreClean (cons x xs) = (strip_value-IsClean x, strip_items-AreClean xs)

  strip_fields-HasCleanFields : (fs : Fields) → HasCleanFields (strip_fields fs)
  strip_fields-HasCleanFields end = tt
  strip_fields-HasCleanFields (field k v fs) =
      ground (arith, strip_value-IsClean v, strip_fields-HasCleanFields fs)

-- What is stripped holds no rejected keyword, and no range bound of an integer schema, at any depth.
pub strip-IsClean : (v : Value) → IsClean (strip v)
strip-IsClean v = strip_value-IsClean v

drop_bounds_of_IsUnbounded : (fs : Fields) → IsUnbounded fs → drop_bounds fs ≡ fs
unfolding drop_bounds
drop_bounds_of_IsUnbounded fs h = elim (Bool-cases (is_integer_schema fs)) [
  | inl e ↦ rw (e, remove_of_none "minimum" fs (h e).0) (remove_of_none "maximum" fs (h e).1)
  | inr e ↦ rw e
]

mutual
  unfolding strip

  keep_value : (v : Value) → IsClean v → strip v ≡ v
  keep_value null h = refl
  keep_value (bool _) h = refl
  keep_value (int _) h = refl
  keep_value (float _ _) h = refl
  keep_value (str _) h = refl
  keep_value (arr xs) h = ap arr (keep_items xs h)
  keep_value (obj fs) h = rw (keep_fields fs h.1) (ap obj (drop_bounds_of_IsUnbounded fs h.0))

  keep_items : (xs : Items) → AreClean xs → strip_items xs ≡ xs
  keep_items nil h = refl
  keep_items (cons x xs) h = cc (keep_value x h.0, keep_items xs h.1)

  keep_fields : (fs : Fields) → HasCleanFields fs → strip_fields fs ≡ fs
  keep_fields end h = refl
  keep_fields (field k v fs) h = rw h.0 (cc (keep_value v h.1, keep_fields fs h.2))

-- A schema with nothing to strip is unchanged, so stripping twice is stripping once.
pub strip_of_IsClean : (v : Value) → IsClean v → strip v ≡ v
strip_of_IsClean v h = keep_value v h

pub get-strip_fields :
    (k : String) (fs : Fields)
    → get k (strip_fields fs) ≡ (if unsupported k then none else Option.map strip (get k fs))
unfolding strip get
get-strip_fields k end = ground arith
get-strip_fields k (field j v fs) = ground (arith, eq_iff j k, get-strip_fields k fs)
