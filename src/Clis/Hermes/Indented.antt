-- ===== src/Clis/Hermes/Indented.antt =====
-- A line that is indented by spaces and ends with a newline: what `strip` and the tests of
-- `_update_hermes` make of it.
use mathlib.Core.List.{reverse, reverse_aux}
use coding_agents_databricks.Base.{
  ℕ, zero, suc, ◌≡◌, refl, ap, ◌∙◌, Bool, true, false, [], ◌∷◌, ◌++◌, inl, inr, nat_eq, Bool-cases,
  if◌then◌else◌,
}
use coding_agents_databricks.Base.Text.{codes, is_space}
use coding_agents_databricks.Base.Parse.{Text, lstrip, strip}
use coding_agents_databricks.Clis.Lines.{NoNewline}
use coding_agents_databricks.Clis.Hermes.{indent_of, spaces, ends_with_newline}

reverse_aux-append2 : (xs r s : Text) → reverse_aux (xs ++ r) s ≡ reverse_aux r (reverse_aux xs s)
reverse_aux-append2 [] r s = refl
reverse_aux-append2 (x ∷ xs) r s = reverse_aux-append2 xs r (x ∷ s)

lstrip-spaces : (n : ℕ) (t : Text) → lstrip (spaces n ++ t) ≡ lstrip t
unfolding lstrip spaces is_space
lstrip-spaces zero t = refl
lstrip-spaces (suc n) t = lstrip-spaces n t

pub indent_spaces :
    (n : ℕ) (c : ℕ) (t : Text) → nat_eq c 32 ≡ false → indent_of (spaces n ++ c ∷ t) ≡ n
unfolding indent_of spaces
indent_spaces zero c t h = rw h refl
indent_spaces (suc n) c t h = ap suc (indent_spaces n c t h)

lstrip-append :
    (xs : Text) (h : ℕ) (ys : Text)
    → is_space h ≡ false
    → lstrip (xs ++ h ∷ ys) ≡ lstrip xs ++ h ∷ ys
unfolding lstrip
lstrip-append [] h ys n = rw (n, lstrip) refl
lstrip-append (x ∷ xs) h ys n = elim (Bool-cases (is_space x)) [
  | inl t ↦ rw (t, lstrip) (lstrip-append xs h ys n)
  | inr f ↦ rw (f, lstrip) refl
]

reverse_aux-append : (xs r s : Text) → reverse_aux xs (r ++ s) ≡ reverse_aux xs r ++ s
reverse_aux-append [] r s = refl
reverse_aux-append (x ∷ xs) r s = reverse_aux-append xs (x ∷ r) s

-- What is stripped on the right keeps what stands before it up to a colon.
pub strip_api_key :
    (n : ℕ) (t : Text)
    → (rest : Text) × (strip (spaces n ++ (codes "api_key:" ++ t)) ≡ codes "api_key:" ++ rest)
unfolding strip lstrip is_space
strip_api_key n t = (
  reverse (lstrip (reverse t)),
  ap (λ x. reverse (lstrip (reverse x))) (lstrip-spaces n (codes "api_key:" ++ t))
      ∙ ap (λ x. reverse (lstrip x))
          (reverse_aux-append2 (codes "api_key:") t []
            ∙ reverse_aux-append t [] (reverse (codes "api_key:")))
      ∙ ap reverse (lstrip-append (reverse t) b':' (reverse (codes "api_key")) refl)
      ∙ reverse_aux-append2 (lstrip (reverse t)) (reverse (codes "api_key:")) [],
)

pub ends_snoc : (t : Text) → ends_with_newline (t ++ 10 ∷ []) ≡ true
unfolding ends_with_newline
ends_snoc [] = refl
ends_snoc (c ∷ []) = refl
ends_snoc (c ∷ d ∷ t) = ends_snoc (d ∷ t)

pub ends_none : (t : Text) → NoNewline t → ends_with_newline (t ++ []) ≡ false
unfolding ends_with_newline
ends_none [] n = refl
ends_none (c ∷ []) (n, later) = n
ends_none (c ∷ d ∷ t) (n, later) = ends_none (d ∷ t) later

abbrev pub newline_if : Bool → Text
newline_if b = if b then 10 ∷ [] else []

pub ends-newline_if :
    (t : Text) (b : Bool) → NoNewline t → ends_with_newline (t ++ newline_if b) ≡ b
ends-newline_if t true n = ends_snoc t
ends-newline_if t false n = ends_none t n

pub spaces-NoNewline : (n : ℕ) (t : Text) → NoNewline t → NoNewline (spaces n ++ t)
unfolding spaces
spaces-NoNewline zero t a = a
spaces-NoNewline (suc n) t a = (refl, spaces-NoNewline n t a)
