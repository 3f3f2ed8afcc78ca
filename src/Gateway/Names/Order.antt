-- ===== src/Gateway/Names/Order.antt =====
-- The order of a picker: newest version first.
use mathlib.Core.Path.{subst, subst⁻¹}
use mathlib.Core.List.{Perm}
use mathlib.Core.List.Perm
use coding_agents_databricks.Base.{
  ℕ, ◌≡◌, refl, Bool, true, false, List, [], ◌∷◌, All, arith, if◌then◌else◌, Bool-cases, inl, inr,
}
use coding_agents_databricks.Base.Parse.{Text, same_text, same_text_eq}
use coding_agents_databricks.Gateway.Names.{
  version_key, lex_leb, key_leb, insert_newest, newest_first,
}

pub lex_refl : (a : List ℕ) → lex_leb a a ≡ true
unfolding lex_leb
lex_refl [] = refl
lex_refl (x ∷ a) = ground (arith, lex_refl a)

pub lex_total : (a b : List ℕ) → lex_leb a b ≡ false → lex_leb b a ≡ true
unfolding lex_leb
lex_total [] b h = ground (arith, h)
lex_total (x ∷ a) [] h = refl
lex_total (x ∷ a) (y ∷ b) h = ground (arith, h, lex_total a b)

pub lex_trans : (a b c : List ℕ) → lex_leb a b ≡ true → lex_leb b c ≡ true → lex_leb a c ≡ true
unfolding lex_leb
lex_trans [] b c h k = refl
lex_trans (x ∷ a) [] c h k = ground (arith, h)
lex_trans (x ∷ a) (y ∷ b) [] h k = ground (arith, k)
lex_trans (x ∷ a) (y ∷ b) (z ∷ c) h k = ground (arith, h, k, lex_trans a b c)

pub lex_antisym : (a b : List ℕ) → lex_leb a b ≡ true → lex_leb b a ≡ true → same_text a b ≡ true
unfolding lex_leb same_text
lex_antisym [] [] h k = refl
lex_antisym [] (y ∷ b) h k = ground (arith, k)
lex_antisym (x ∷ a) [] h k = ground (arith, h)
lex_antisym (x ∷ a) (y ∷ b) h k = ground (arith, h, k, lex_antisym a b)

pub same_refl : (a : List ℕ) → same_text a a ≡ true
unfolding same_text
same_refl [] = refl
same_refl (x ∷ a) = ground (arith, same_refl a)

pub same_sym : (a b : List ℕ) → same_text a b ≡ same_text b a
unfolding same_text
same_sym [] [] = refl
same_sym [] (y ∷ b) = refl
same_sym (x ∷ a) [] = refl
same_sym (x ∷ a) (y ∷ b) = ground (arith, same_sym a b)

key_total : (m n : Text) → key_leb m n ≡ false → key_leb n m ≡ true
unfolding key_leb
key_total m n h = ground (
  arith,
  h,
  same_sym (version_key m) (version_key n),
  lex_total m n,
  lex_total (version_key m) (version_key n),
)

-- `(u, m) <= (v, n)`
abbrev pair_leb : (u v m n : List ℕ) → Bool
pair_leb u v m n = if same_text u v then lex_leb m n else lex_leb u v

pair_trans :
    (u v w m n p : List ℕ)
    → pair_leb u v m n ≡ true
    → pair_leb v w n p ≡ true
    → pair_leb u w m p ≡ true
pair_trans u v w m n p h k = elim (Bool-cases (same_text u v)) [
  | inl a ↦
      subst⁻¹ (λ x. pair_leb x w m p ≡ true) (same_text_eq u v a)
        (ground (arith, a, h, k, lex_trans m n p))
  | inr a ↦ elim (Bool-cases (same_text v w)) [
    | inl b ↦ subst (λ x. pair_leb u x m p ≡ true) (same_text_eq v w b) (ground (arith, a, h))
    | inr b ↦ elim (Bool-cases (same_text u w)) [
      | inl c ↦
          let e = same_text_eq u w c in
          absurd (
            ground (
              arith,
              a,
              b,
              h,
              k,
              lex_antisym u v (ground (arith, a, h))
                  (subst⁻¹ (λ x. lex_leb v x ≡ true) e (ground (arith, b, k))),
            ))
      | inr c ↦ ground (arith, a, b, c, h, k, lex_trans u v w)
    ]
  ]
]

key_trans : (m n p : Text) → key_leb m n ≡ true → key_leb n p ≡ true → key_leb m p ≡ true
unfolding key_leb
key_trans m n p = pair_trans (version_key m) (version_key n) (version_key p) m n p

key_refl : (m : Text) → key_leb m m ≡ true
unfolding key_leb
key_refl m = ground (arith, same_refl (version_key m), lex_refl m)

-- No model is newer than the first, and so on for the others.
abbrev pub NewestFirst : List Text → Type 0
NewestFirst [] = Unit
NewestFirst (m ∷ models) = All (λ n. key_leb n m ≡ true) models × NewestFirst models

All-older :
    (m n : Text) (models : List Text)
    → key_leb n m ≡ true
    → All (λ p. key_leb p n ≡ true) models
    → All (λ p. key_leb p m ≡ true) models
All-older m n [] h a = tt
All-older m n (p ∷ models) h (a, later) = (key_trans p n m a h, All-older m n models h later)

pub All-insert_newest :
    (P : Text → Type 0) (m : Text) (models : List Text)
    → P m
    → All P models
    → All P (insert_newest m models)
unfolding insert_newest
All-insert_newest P m [] h a = (h, tt)
All-insert_newest P m (n ∷ models) h (a, later) = elim (Bool-cases (key_leb n m)) [
  | inl t ↦ rw t (h, (a, later))
  | inr f ↦ rw f (a, All-insert_newest P m models h later)
]

pub All-newest_first :
    (P : Text → Type 0) (models : List Text) → All P models → All P (newest_first models)
unfolding newest_first
All-newest_first P [] a = tt
All-newest_first P (m ∷ models) (a, later) =
    All-insert_newest P m (newest_first models) a (All-newest_first P models later)

insert_newest-NewestFirst :
    (m : Text) (models : List Text) → NewestFirst models → NewestFirst (insert_newest m models)
unfolding insert_newest
insert_newest-NewestFirst m [] s = (tt, tt)
insert_newest-NewestFirst m (n ∷ models) (a, s) = elim (Bool-cases (key_leb n m)) [
  | inl t ↦ rw t ((t, All-older m n models t a), (a, s))
  | inr f ↦ rw f (
    All-insert_newest (λ p. key_leb p n ≡ true) m models (key_total n m f) a,
    insert_newest-NewestFirst m models s,
  )
]

pub newest_first-NewestFirst : (models : List Text) → NewestFirst (newest_first models)
unfolding newest_first
newest_first-NewestFirst [] = tt
newest_first-NewestFirst (m ∷ models) =
    insert_newest-NewestFirst m (newest_first models) (newest_first-NewestFirst models)
