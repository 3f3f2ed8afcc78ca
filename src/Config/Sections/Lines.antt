-- ===== src/Config/Sections/Lines.antt =====
-- Lines and strips of the texts of sections.
use mathlib.Core.List.{reverse, reverse_aux}
use coding_agents_databricks.Base.{
  ℕ, ◌≡◌, refl, ap, ◌∙◌, false, List, [], ◌∷◌, ◌++◌, All, nat_eq, Bool-cases, inl, inr,
}
use coding_agents_databricks.Base.Text.{is_space}
use coding_agents_databricks.Base.Parse.{Text, strip, lstrip}
use coding_agents_databricks.Config.{universal, put_first, readlines, concat}

-- no line feed, and no carriage return
abbrev pub NoBreak : Text → Type 0
NoBreak t = All (λ c. nat_eq c 10 ≡ false) t × All (λ c. nat_eq c 13 ≡ false) t

abbrev pub NoReturn : Text → Type 0
NoReturn t = All (λ c. nat_eq c 13 ≡ false) t

pub universal_of_NoReturn : (t : Text) → NoReturn t → universal false t ≡ t
unfolding universal
universal_of_NoReturn [] n = refl
universal_of_NoReturn (c ∷ cs) (n, ns) =
    rw (n, universal) (ap (λ u. c ∷ u) (universal_of_NoReturn cs ns))

concat-put_first : (c : ℕ) (lines : List Text) → concat (put_first c lines) ≡ c ∷ concat lines
unfolding concat put_first
concat-put_first c [] = refl
concat-put_first c (line ∷ lines) = refl

pub concat-readlines : (t : Text) → concat (readlines t) ≡ t
unfolding readlines concat
concat-readlines [] = refl
concat-readlines (c ∷ cs) = elim (Bool-cases (nat_eq c 10)) [
  | inl t ↦ rw (t, readlines) (ap (λ u. c ∷ u) (concat-readlines cs))
  | inr f ↦
      rw (f, readlines) (concat-put_first c (readlines cs) ∙ ap (λ u. c ∷ u) (concat-readlines cs))
]

pub readlines-line :
    (line rest : Text)
    → All (λ c. nat_eq c 10 ≡ false) line
    → readlines (line ++ 10 ∷ rest) ≡ (line ++ 10 ∷ []) ∷ readlines rest
unfolding readlines put_first
readlines-line [] rest n = refl
readlines-line (c ∷ line) rest (n, ns) = rw (n, readlines, readlines-line line rest ns) refl

reverse_aux-append : (xs r s : Text) → reverse_aux xs (r ++ s) ≡ reverse_aux xs r ++ s
reverse_aux-append [] r s = refl
reverse_aux-append (x ∷ xs) r s = reverse_aux-append xs (x ∷ r) s

reverse_aux-snoc : (xs r : Text) (y : ℕ) → reverse_aux (xs ++ y ∷ []) r ≡ y ∷ reverse_aux xs r
reverse_aux-snoc [] r y = refl
reverse_aux-snoc (x ∷ xs) r y = reverse_aux-snoc xs (x ∷ r) y

pub reverse_aux-reverse_aux : (xs r : Text) → reverse (reverse_aux xs r) ≡ reverse_aux r xs
reverse_aux-reverse_aux [] r = refl
reverse_aux-reverse_aux (x ∷ xs) r = reverse_aux-reverse_aux xs (x ∷ r)

lstrip-snoc : (xs : Text) (h : ℕ) → is_space h ≡ false → lstrip (xs ++ h ∷ []) ≡ lstrip xs ++ h ∷ []
unfolding lstrip
lstrip-snoc [] h n = rw (n, lstrip) refl
lstrip-snoc (x ∷ xs) h n = elim (Bool-cases (is_space x)) [
  | inl t ↦ rw (t, lstrip) (lstrip-snoc xs h n)
  | inr f ↦ rw (f, lstrip) refl
]

lstrip_nonspace : (h : ℕ) (xs : Text) → is_space h ≡ false → lstrip (h ∷ xs) ≡ h ∷ xs
unfolding lstrip
lstrip_nonspace h xs n = rw (n, lstrip) refl

-- A text that begins with no space still does once it is stripped.
pub strip_nonspace :
    (h : ℕ) (xs : Text) → is_space h ≡ false → (ys : Text) × (strip (h ∷ xs) ≡ h ∷ ys)
unfolding strip
strip_nonspace h xs n = (
  reverse (lstrip (reverse xs)),
  ap (λ t. reverse (lstrip (reverse t))) (lstrip_nonspace h xs n)
      ∙ ap (λ t. reverse (lstrip t)) (reverse_aux-append xs [] (h ∷ []))
      ∙ ap reverse (lstrip-snoc (reverse xs) h n)
      ∙ reverse_aux-snoc (lstrip (reverse xs)) [] h,
)

lstrip_back : (r : Text) (d : ℕ) (ds : Text) → r ≡ d ∷ ds → is_space d ≡ false → lstrip (10 ∷ r) ≡ r
unfolding lstrip is_space
lstrip_back r d ds e n = rw e (lstrip_nonspace d ds n)

-- What no section could be told from: a text that begins with a bracket and does not end with a
-- space is the strip of itself before a newline.
pub strip_line :
    (t : Text) (d : ℕ) (ds : Text)
    → reverse (b'[' ∷ t) ≡ d ∷ ds
    → is_space d ≡ false
    → strip ((b'[' ∷ t) ++ 10 ∷ []) ≡ b'[' ∷ t
unfolding strip is_space
strip_line t d ds e n =
    ap (λ u. reverse (lstrip (reverse u))) (lstrip_nonspace b'[' (t ++ 10 ∷ []) refl)
    ∙ ap (λ u. reverse (lstrip u)) (reverse_aux-snoc (b'[' ∷ t) [] 10)
    ∙ ap (λ u. reverse u) (lstrip_back (reverse (b'[' ∷ t)) d ds e n)
    ∙ reverse_aux-reverse_aux (b'[' ∷ t) []

pub universal-append :
    (xs ys : Text) → NoReturn xs → universal false (xs ++ ys) ≡ xs ++ universal false ys
unfolding universal
universal-append [] ys n = refl
universal-append (c ∷ xs) ys (n, ns) =
    rw (n, universal) (ap (λ u. c ∷ u) (universal-append xs ys ns))
