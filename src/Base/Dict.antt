-- ===== src/Base/Dict.antt =====
-- Python's `dict` with texts as keys, in insertion order.
use Prim.Native.Nat.{◌+◌, ◌≤◌}
use Prim.Native.String.{String}
use mathlib.Core.Path.{◌≡◌, refl}
use mathlib.Core.Option.{Option, none, some}
use mathlib.Core.List.{List, [], ◌∷◌}
use native.Mathlib.Omega.{arith}
use text.Mathlib.TextEquality.{eq_iff}
use coding_agents_databricks.Base.Tests.{◌==◌, string_has_eq, if◌then◌else◌}
use coding_agents_databricks.Base.Lists.{length}

abbrev pub Dict {ℓ} : Type ℓ → Type ℓ
Dict V = List (String × V)

module _ {ℓ} {V : Type ℓ} where
  -- `d.get(k)`
  unfoldable pub find : String → Dict V → Option V
  find k [] = none
  find k ((j, v) ∷ d) = if k == j then some v else find k d

  -- `d[k] = v`
  unfoldable pub store : String → V → Dict V → Dict V
  store k v [] = (k, v) ∷ []
  store k v ((j, w) ∷ d) = if k == j then (j, v) ∷ d else (j, w) ∷ store k v d

  -- `d.pop(k, None)`
  unfoldable pub pop : String → Dict V → Dict V
  pop k [] = []
  pop k ((j, w) ∷ d) = let rest = pop k d in if k == j then rest else (j, w) ∷ rest

  pub find-store :
      (k j : String) (v : V) (d : Dict V)
      → find j (store k v d) ≡ (if k == j then some v else find j d)
  unfolding find store
  find-store k j v [] = ground (arith, eq_iff k j, eq_iff j k)
  find-store k j v ((i, w) ∷ d) =
      ground (arith, eq_iff k j, eq_iff j k, eq_iff k i, eq_iff j i, find-store k j v d)

  pub find-pop :
      (k j : String) (d : Dict V) → find j (pop k d) ≡ (if k == j then none else find j d)
  unfolding find pop
  find-pop k j [] = ground arith
  find-pop k j ((i, w) ∷ d) =
      ground (arith, eq_iff k j, eq_iff j k, eq_iff k i, eq_iff j i, find-pop k j d)

  pub length-store : (k : String) (v : V) (d : Dict V) → length (store k v d) ≤ length d + 1
  unfolding store
  length-store k v [] = omega arith
  length-store k v ((j, w) ∷ d) = ground (arith, length-store k v d)

  pub length-pop : (k : String) (d : Dict V) → length (pop k d) ≤ length d
  unfolding pop
  length-pop k [] = omega arith
  length-pop k ((j, w) ∷ d) = ground (arith, length-pop k d)

  pub pop_absent : (k : String) (d : Dict V) → find k d ≡ none → pop k d ≡ d
  unfolding find pop
  pop_absent k [] h = refl
  pop_absent k ((j, w) ∷ d) h = ground (arith, pop_absent k d)

  -- Taking out a key that was put in anew leaves the dict as it was.
  pub pop-store : (k : String) (v : V) (d : Dict V) → find k d ≡ none → pop k (store k v d) ≡ d
  unfolding find store pop
  pop-store k v [] h = ground (arith, eq_iff k k)
  pop-store k v ((j, w) ∷ d) h = ground (arith, pop-store k v d)

  pub length-store_present :
      (k : String) (v w : V) (d : Dict V) → find k d ≡ some w → length (store k v d) ≡ length d
  unfolding find store
  length-store_present k v w [] h = ground arith
  length-store_present k v w ((j, u) ∷ d) h = ground (arith, length-store_present k v w d)
