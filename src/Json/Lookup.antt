-- ===== src/Json/Lookup.antt =====
-- The laws of `dict` operations on JSON objects.
use coding_agents_databricks.Base.{
  String, ◌≡◌, refl, true, false, none, some, arith, eq_iff, ◌==◌, string_has_eq, if◌then◌else◌,
}
use coding_agents_databricks.Json.{
  Value, Fields, end, field, obj, arr, str, float, int, bool, null, get, put, remove, numeric,
  same_number, same_key, hashable,
}

pub get-put :
    (k j : String) (v : Value) (fs : Fields)
    → get j (put k v fs) ≡ (if k == j then some v else get j fs)
unfolding get put
get-put k j v end = refl
get-put k j v (field i w fs) = ground (arith, eq_iff k j, eq_iff i k, eq_iff i j, get-put k j v fs)

pub get-remove :
    (k j : String) (fs : Fields) → get j (remove k fs) ≡ (if k == j then none else get j fs)
unfolding get remove
get-remove k j end = ground arith
get-remove k j (field i w fs) =
    ground (arith, eq_iff k j, eq_iff i k, eq_iff i j, get-remove k j fs)

pub put-put : (k : String) (v w : Value) (fs : Fields) → put k v (put k w fs) ≡ put k v fs
unfolding put
put-put k v w end = ground (arith, eq_iff k k)
put-put k v w (field i x fs) = ground (arith, put-put k v w fs)

-- Writing the value that is there changes nothing.
pub put-get : (k : String) (v : Value) (fs : Fields) → get k fs ≡ some v → put k v fs ≡ fs
unfolding get put
put-get k v end h = cc
put-get k v (field i w fs) h = ground (arith, put-get k v fs)

pub remove_of_none : (k : String) (fs : Fields) → get k fs ≡ none → remove k fs ≡ fs
unfolding get remove
remove_of_none k end h = refl
remove_of_none k (field i w fs) h = ground (arith, remove_of_none k fs)

-- A value that is hashable equals itself.
pub same_key_refl : (v : Value) → hashable v ≡ true → same_key v v ≡ true
unfolding same_key numeric same_number hashable
same_key_refl null h = refl
same_key_refl (str s) h = ground (arith, eq_iff s s)
same_key_refl (obj fs) h = absurd cc
same_key_refl (arr xs) h = absurd cc
same_key_refl (int n) h = ground arith
same_key_refl (float m e) h = ground arith
same_key_refl (bool true) h = refl
same_key_refl (bool false) h = refl
