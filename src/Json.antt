-- ===== src/Json.antt =====
-- Python's values of a JSON document (`json.loads`), and what the proxy does with them: `dict.get`,
-- `{**d, k: v}`, `del d[k]`, truth values, iteration, equality of the members of a `set`.
-- An object is kept in insertion order. A `float` m e is the finite double m * 2^e; the documents
-- hold no NaN and no infinity.
pub mod Lookup
use Prim.Native.Nat.{◌*◌, ◌^◌}
use coding_agents_databricks.Base.{
  ℕ, ◌+◌, String, Bool, true, false, ◌&&◌, ◌||◌, not, Option, none, some, List, [], ◌∷◌, any,
  Result, ok, err, type_error, attribute_error, ◌>>=◌, ◌==◌, if◌then◌else◌, nat_has_eq,
  string_has_eq,
}
use coding_agents_databricks.Base.Int.{ℤ, pos, pos_part, neg_part}

mutual
  -- the members of an object, in order
  pub data Fields : Type 0 where
    field : String → Value → Fields → Fields
    end : Fields

  -- the members of an array
  pub data Items : Type 0 where
    cons : Value → Items → Items
    nil : Items

  pub data Value : Type 0 where
    obj : Fields → Value
    arr : Items → Value
    str : String → Value
    float : ℤ → ℤ → Value
    int : ℤ → Value
    bool : Bool → Value
    null : Value

-- `d.get(k)`
unfoldable pub get : String → Fields → Option Value
get k end = none
get k (field j v fs) = if j == k then some v else get k fs

-- `d.get(k, default)`
unfoldable pub get_or : Value → String → Fields → Value
get_or d k fs = elim (get k fs) [ some v ↦ v | none ↦ d ]

-- `k in d`
unfoldable pub has : String → Fields → Bool
has k fs = elim (get k fs) [ some v ↦ true | none ↦ false ]

-- `{**d, k: v}`, and `d[k] = v`
unfoldable pub put : String → Value → Fields → Fields
put k v end = field k v end
put k v (field j w fs) = if j == k then field j v fs else field j w (put k v fs)

-- `d.pop(k, None)`, and `del d[k]` where `k` is there
unfoldable pub remove : String → Fields → Fields
remove k end = end
remove k (field j v fs) = let rest = remove k fs in if j == k then rest else field j v rest

-- `isinstance(v, str) and v == s`; comparing another type with a text gives `False`
abbrev pub is_text : String → Value → Bool
is_text s (str t) = t == s
is_text s _ = false

-- `bool(v)`
unfoldable pub truthy : Value → Bool
truthy null = false
truthy (bool b) = b
truthy (int n) = not (pos_part n + neg_part n == 0)
truthy (float m e) = not (pos_part m + neg_part m == 0)
truthy (str s) = not (s == "")
truthy (arr nil) = false
truthy (arr _) = true
truthy (obj end) = false
truthy (obj _) = true

unfoldable pub keys : Fields → Items
keys end = nil
keys (field k v fs) = cons (str k) (keys fs)

unfoldable pub chars : String → Items
chars String.[] = nil
chars (String.◌∷◌ c s) = cons (str (String.◌∷◌ c String.[])) (chars s)

-- `for x in v`
unfoldable pub iterate : Value → Result Items
unfolding keys chars
iterate (arr xs) = ok xs
iterate (obj fs) = ok (keys fs)
iterate (str s) = ok (chars s)
iterate _ = err type_error

-- `v.get(...)` is there on a `dict` alone
unfoldable pub as_dict : Value → Result Fields
as_dict (obj fs) = ok fs
as_dict _ = err attribute_error

-- A member of a `set` is hashable.
unfoldable pub hashable : Value → Bool
hashable (arr _) = false
hashable (obj _) = false
hashable _ = true

-- A number as m * 2^e. Python's `True` is 1.
numeric : Value → Option (ℤ × ℤ)
numeric (bool b) = some ((if b then pos 1 else pos 0), pos 0)
numeric (int n) = some (n, pos 0)
numeric (float m e) = some (m, e)
numeric _ = none

same_number : ℤ × ℤ → ℤ × ℤ → Bool
same_number (m, e) (n, f) =
    let a = 2 ^ (pos_part e + neg_part f) in
    let b = 2 ^ (pos_part f + neg_part e) in
    pos_part m * a == pos_part n * b && neg_part m * a == neg_part n * b

-- `a == b` of hashable values
unfoldable pub same_key : Value → Value → Bool
unfolding numeric same_number
same_key null null = true
same_key (str s) (str t) = s == t
same_key a b = elim (numeric a) [
  | none ↦ false
  | some x ↦ elim (numeric b) [ none ↦ false | some y ↦ same_number x y ]
]

-- `v in s` for a `set` of hashable values
unfoldable pub member : Value → List Value → Result Bool
unfolding hashable
member v ids = if hashable v then ok (any (same_key v) ids) else err type_error
