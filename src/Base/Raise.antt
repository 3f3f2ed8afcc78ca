-- ===== src/Base/Raise.antt =====
-- Python code that may raise: a value, or the exception's class.
use mathlib.Core.Path.{◌≡◌, refl}
use mathlib.Core.Bool.{Bool, true, false}
use mathlib.Core.Option.{Option, some}
use mathlib.Core.Logic.{◌⊎◌, inl, inr}
use coding_agents_databricks.Base.Tests.{if◌then◌else◌}

-- The exceptions that the modelled code can raise.
pub data Error : Type 0 where
  attribute_error type_error key_error json_error value_error runtime_error : Error

pub data Result {ℓ} (T : Type ℓ) : Type ℓ where
  err : Error → Result T
  ok : T → Result T

module _ {ℓ κ} {T : Type ℓ} {U : Type κ} where
  -- What is raised leaves the block.
  infixl 10 ◌>>=◌
  abbrev pub ◌>>=◌ : Result T → (T → Result U) → Result U
  ◌>>=◌ r next = elim r [ ok t ↦ next t | err e ↦ err e ]

  -- A block that returned had a value at its first step, and the rest returned.
  pub >>=-eq-ok :
      (r : Result T) (next : T → Result U) {u : U}
      → r >>= next ≡ ok u
      → (t : T) × (r ≡ ok t) × (next t ≡ ok u)
  >>=-eq-ok (err e) next returned = cc
  >>=-eq-ok (ok t) next returned = (t, refl, returned)

pub Result-cases {ℓ} :
    {T : Type ℓ} (r : Result T) → ((e : Error) × (r ≡ err e)) ⊎ ((t : T) × (r ≡ ok t))
Result-cases (err e) = inl (e, refl)
Result-cases (ok t) = inr (t, refl)

pub ok_inj {ℓ} : {A : Type ℓ} {a b : A} → ◌≡◌ {A = Result A} (ok a) (ok b) → a ≡ b
ok_inj h = cc

pub some_inj {ℓ} : {A : Type ℓ} {a b : A} → ◌≡◌ {A = Option A} (some a) (some b) → a ≡ b
some_inj h = cc

-- A test that came out as a value took one of its branches.
pub if_cases {ℓ} :
    {A : Type ℓ} (b : Bool) (x y r : A)
    → (if b then x else y) ≡ r
    → ((b ≡ true) × (x ≡ r)) ⊎ ((b ≡ false) × (y ≡ r))
if_cases true x y r h = inl (refl, h)
if_cases false x y r h = inr (refl, h)
