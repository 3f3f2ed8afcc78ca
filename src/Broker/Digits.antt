-- ===== src/Broker/Digits.antt =====
-- The digits of a port, and the characters of a capability.
use Prim.Native.Nat.{◌/◌, ◌%◌, ◌<◌}
use coding_agents_databricks.Base.{
  ℕ, zero, suc, ◌+◌, ◌≡◌, refl, ap, ◌∙◌, true, false, ◌||◌, List, [], ◌∷◌, ◌++◌, All, ltb, nat_eq,
  arith, Bool-cases, inl, inr,
}
use coding_agents_databricks.Base.Parse.{Text, is_digit}
use coding_agents_databricks.Base.Url.{number}
use coding_agents_databricks.Base.Url.Parts.{is_unsafe}
use coding_agents_databricks.Broker.Client.{decimal_on, decimal, is_capability_char}

abbrev pub IsDigits : Text → Type 0
IsDigits t = All (λ c. is_digit c ≡ true) t

digit_is : (d : ℕ) → d < 10 → is_digit (b'0' + d) ≡ true
unfolding is_digit
digit_is d h = ground arith

pub decimal_on-IsDigits :
    (fuel n : ℕ) (rest : Text) → IsDigits rest → IsDigits (decimal_on fuel n rest)
unfolding decimal_on
decimal_on-IsDigits zero n rest a = a
decimal_on-IsDigits (suc fuel) n rest a = elim (Bool-cases (ltb n 10)) [
  | inl t ↦ rw (t, decimal_on) (digit_is n (ground (arith, t)), a)
  | inr f ↦
      rw (f, decimal_on)
        (decimal_on-IsDigits fuel (n / 10) ((b'0' + n % 10) ∷ rest)
          (digit_is (n % 10) (omega arith), a))
]

-- On enough fuel, the digits are read as the number.
number-decimal_on :
    (fuel n : ℕ) (rest : Text) → n < fuel → number 0 (decimal_on fuel n rest) ≡ number n rest
unfolding decimal_on number
number-decimal_on zero n rest h = absurd (omega (arith, h))
number-decimal_on (suc fuel) n rest h = elim (Bool-cases (ltb n 10)) [
  | inl t ↦ rw (t, decimal_on) (ap (λ k. number k rest) (omega arith))
  | inr f ↦
      rw (f, decimal_on)
        (number-decimal_on fuel (n / 10) ((b'0' + n % 10) ∷ rest) (ground (arith, f))
          ∙ ap (λ k. number k rest) (omega arith))
]

pub number-decimal : (n : ℕ) → number 0 (decimal n) ≡ n
unfolding decimal number
number-decimal n = number-decimal_on (suc n) n [] (omega arith)

decimal_on_cons :
    (fuel n c : ℕ) (rest : Text) → (d : ℕ) × (ds : Text) × (decimal_on fuel n (c ∷ rest) ≡ d ∷ ds)
unfolding decimal_on
decimal_on_cons zero n c rest = (c, rest, refl)
decimal_on_cons (suc fuel) n c rest = elim (Bool-cases (ltb n 10)) [
  | inl t ↦ (b'0' + n, c ∷ rest, rw (t, decimal_on) refl)
  | inr f ↦
      let (d, ds, e) = decimal_on_cons fuel (n / 10) (b'0' + n % 10) (c ∷ rest) in
      (d, ds, rw (f, decimal_on) e)
]

pub decimal_cons : (n : ℕ) → (d : ℕ) × (ds : Text) × (decimal n ≡ d ∷ ds)
unfolding decimal decimal_on
decimal_cons n = elim (Bool-cases (ltb n 10)) [
  | inl t ↦ (b'0' + n, [], rw (t, decimal_on) refl)
  | inr f ↦
      let (d, ds, e) = decimal_on_cons n (n / 10) (b'0' + n % 10) [] in
      (d, ds, rw (f, decimal_on) e)
]

-- What a character of a capability is not.
abbrev pub IsOrdinary : ℕ → Type 0
IsOrdinary c =
    (is_unsafe c ≡ false)
    × (nat_eq c b'/' ≡ false)
    × (nat_eq b'#' c ≡ false)
    × (nat_eq b'?' c ≡ false)

pub ordinary : (c : ℕ) → is_capability_char c ≡ true → IsOrdinary c
unfolding is_capability_char is_digit
ordinary c h = (ground (arith, h), ground (arith, h), ground (arith, h), ground (arith, h))

-- What a digit is not.
abbrev pub IsPlainDigit : ℕ → Type 0
IsPlainDigit c =
    (is_unsafe c ≡ false)
    × ((nat_eq c b'/' || nat_eq c b'?' || nat_eq c b'#') ≡ false)
    × ((nat_eq c b'[' || nat_eq c b']') ≡ false)
    × (nat_eq b'@' c ≡ false)

pub plain_digit : (c : ℕ) → is_digit c ≡ true → IsPlainDigit c
unfolding is_digit
plain_digit c h = (ground (arith, h), ground (arith, h), ground (arith, h), ground (arith, h))

pub All_map {ℓ κ ι} :
    {A : Type ℓ} {P : A → Type κ} {Q : A → Type ι}
    → ((a : A) → P a → Q a)
    → (xs : List A) → All P xs
    → All Q xs
All_map f [] a = tt
All_map f (x ∷ xs) (a, later) = (f x a, All_map f xs later)

pub All_append {ℓ κ} :
    {A : Type ℓ} (P : A → Type κ) (xs ys : List A) → All P xs → All P ys → All P (xs ++ ys)
All_append P [] ys a b = b
All_append P (x ∷ xs) ys (a, later) b = (a, All_append P xs ys later b)
