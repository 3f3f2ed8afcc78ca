-- ===== src/Base/Lists.antt =====
-- Lists measured by native numbers, under the library's names, and predicates on lists.
use Prim.Native.Nat.{ℕ, suc, ◌+◌}
use mathlib.Core.Path.{◌≡◌}
use mathlib.Core.Bool.{Bool, true, false, ◌||◌, not}
use mathlib.Core.List.{List, [], ◌∷◌, ◌++◌}
use native.Mathlib.Omega.{arith}

module _ {ℓ} {A : Type ℓ} where
  abbrev pub length : List A → ℕ
  length [] = 0
  length (x ∷ xs) = suc (length xs)

  -- Does some member pass the test?
  abbrev pub any : (A → Bool) → List A → Bool
  any p [] = false
  any p (x ∷ xs) = p x || any p xs

  pub length-append : (xs ys : List A) → length (xs ++ ys) ≡ length xs + length ys
  length-append [] ys = omega arith
  length-append (x ∷ xs) ys = omega (arith, length-append xs ys)

module _ {ℓ κ} {A : Type ℓ} where
  -- Every member has the property.
  abbrev pub All : (A → Type κ) → List A → Type κ
  All P [] = Unit
  All P (x ∷ xs) = P x × All P xs

-- A test that no member passes.
pub none_of {ℓ} :
    {A : Type ℓ} (p : A → Bool) (xs : List A) → any p xs ≡ false → All (λ x. p x ≡ false) xs
none_of p [] h = tt
none_of p (x ∷ xs) h = (ground (arith, h), none_of p xs (ground (arith, h)))

-- A test that every member passes.
pub all_of {ℓ} :
    {A : Type ℓ} (p : A → Bool) (xs : List A)
    → any (λ x. not (p x)) xs ≡ false
    → All (λ x. p x ≡ true) xs
all_of p [] h = tt
all_of p (x ∷ xs) h = (ground (arith, h), all_of p xs (ground (arith, h)))
