-- ===== src/Clis/Lines.antt =====
-- The lines of a text whose lines are rewritten one by one.
use coding_agents_databricks.Base.{
  ℕ, ◌≡◌, refl, sym, ap, ◌∙◌, Bool, true, false, ◌&&◌, List, [], ◌∷◌, ◌++◌, ◌⊎◌, inl, inr, All,
  nat_eq, Bool-cases, arith,
}
use coding_agents_databricks.Base.Parse.{Text}
use coding_agents_databricks.Config.{universal, put_first, readlines, concat}
use coding_agents_databricks.Config.Sections.Lines.{NoReturn, readlines-line, universal_of_NoReturn}

abbrev pub NoNewline : Text → Type 0
NoNewline t = All (λ c. nat_eq c 10 ≡ false) t

-- a line with its newline
abbrev pub IsLine : Text → Type 0
IsLine l = (body : Text) × NoNewline body × (l ≡ body ++ 10 ∷ [])

-- a last line, which has none
abbrev pub IsLast : Text → Type 0
IsLast l = (c : ℕ) × (cs : Text) × NoNewline (c ∷ cs) × (l ≡ c ∷ cs)

abbrev pub AreLines : List Text → Type 0
AreLines [] = Unit
AreLines (l ∷ []) = IsLine l ⊎ IsLast l
AreLines (l ∷ m ∷ ls) = IsLine l × AreLines (m ∷ ls)

IsLine-cons : (c : ℕ) (l : Text) → nat_eq c 10 ≡ false → IsLine l → IsLine (c ∷ l)
IsLine-cons c l n (body, b, e) = (c ∷ body, (n, b), ap (λ t. c ∷ t) e)

IsLast-cons : (c : ℕ) (l : Text) → nat_eq c 10 ≡ false → IsLast l → IsLast (c ∷ l)
IsLast-cons c l n (d, ds, b, e) = (c, d ∷ ds, (n, b), ap (λ t. c ∷ t) e)

put_first-AreLines :
    (c : ℕ) (ls : List Text) → nat_eq c 10 ≡ false → AreLines ls → AreLines (put_first c ls)
unfolding put_first
put_first-AreLines c [] n a = inr (c, [], (n, tt), refl)
put_first-AreLines c (l ∷ []) n (inl a) = inl (IsLine-cons c l n a)
put_first-AreLines c (l ∷ []) n (inr a) = inr (IsLast-cons c l n a)
put_first-AreLines c (l ∷ m ∷ ls) n (a, later) = (IsLine-cons c l n a, later)

newline-AreLines :
    (c : ℕ) (ls : List Text) → nat_eq c 10 ≡ true → AreLines ls → AreLines ((c ∷ []) ∷ ls)
newline-AreLines c ls t a =
    let e : c ≡ 10 = ground (arith, t) in before ls ([], tt, ap (λ d. d ∷ []) e) a
  where
    before : {l : Text} (ls : List Text) → IsLine l → AreLines ls → AreLines (l ∷ ls)
    before [] i a = inl i
    before (m ∷ ls) i a = (i, a)

pub readlines-AreLines : (t : Text) → AreLines (readlines t)
unfolding readlines
readlines-AreLines [] = tt
readlines-AreLines (c ∷ cs) = elim (Bool-cases (nat_eq c 10)) [
  | inl t ↦ rw (t, readlines) (newline-AreLines c (readlines cs) t (readlines-AreLines cs))
  | inr f ↦ rw (f, readlines) (put_first-AreLines c (readlines cs) f (readlines-AreLines cs))
]

readlines_last : (c : ℕ) (cs : Text) → NoNewline (c ∷ cs) → readlines (c ∷ cs) ≡ (c ∷ cs) ∷ []
unfolding readlines put_first
readlines_last c [] (n, _) = rw (n, readlines) refl
readlines_last c (d ∷ cs) (n, later) = rw (n, readlines) (rw (readlines_last d cs later) refl)

readlines_line : (l : Text) → IsLine l → (rest : Text) → readlines (l ++ rest) ≡ l ∷ readlines rest
unfolding readlines
readlines_line l (body, n, e) rest =
    ap (λ t. readlines (t ++ rest)) e
    ∙ ap readlines (snoc body rest)
    ∙ readlines-line body rest n
    ∙ ap (λ t. t ∷ readlines rest) (sym e)
  where
    snoc : (body rest : Text) → (body ++ 10 ∷ []) ++ rest ≡ body ++ 10 ∷ rest
    snoc [] rest = refl
    snoc (c ∷ body) rest = ap (λ t. c ∷ t) (snoc body rest)

pub append_nil : (t : Text) → t ++ [] ≡ t
append_nil [] = refl
append_nil (c ∷ t) = ap (λ u. c ∷ u) (append_nil t)

-- Lines that are joined are read as those lines.
pub readlines-concat : (ls : List Text) → AreLines ls → readlines (concat ls) ≡ ls
unfolding readlines concat
readlines-concat [] a = refl
readlines-concat (l ∷ []) (inl i) = readlines_line l i []
readlines-concat (l ∷ []) (inr (c, cs, n, e)) =
    ap readlines (append_nil l ∙ e) ∙ readlines_last c cs n ∙ ap (λ t. t ∷ []) (sym e)
readlines-concat (l ∷ m ∷ ls) (i, a) =
    readlines_line l i (concat (m ∷ ls)) ∙ ap (λ ms. l ∷ ms) (readlines-concat (m ∷ ls) a)

-- Another text in the place of a line ends as that line does.
abbrev pub Keeps : Text → Text → Type 0
Keeps l m = (IsLine l → IsLine m) × (IsLast l → IsLast m)

abbrev pub KeepEach : List Text → List Text → Type 0
KeepEach [] [] = Unit
KeepEach (l ∷ ls) (m ∷ ms) = Keeps l m × KeepEach ls ms
KeepEach _ _ = ⊥

pub AreLines-KeepEach : (ls ms : List Text) → KeepEach ls ms → AreLines ls → AreLines ms
AreLines-KeepEach [] [] k a = tt
AreLines-KeepEach [] (m ∷ ms) k a = absurd k
AreLines-KeepEach (l ∷ ls) [] k a = absurd k
AreLines-KeepEach (l ∷ []) (m ∷ []) (k, ks) (inl i) = inl (k.0 i)
AreLines-KeepEach (l ∷ []) (m ∷ []) (k, ks) (inr i) = inr (k.1 i)
AreLines-KeepEach (l ∷ []) (m ∷ n ∷ ms) (k, ks) a = absurd ks
AreLines-KeepEach (l ∷ o ∷ ls) (m ∷ []) (k, ks) a = absurd ks
AreLines-KeepEach (l ∷ o ∷ ls) (m ∷ n ∷ ms) (k, ks) (i, a) =
    (k.0 i, AreLines-KeepEach (o ∷ ls) (n ∷ ms) ks a)

universal-NoReturn : (cr : Bool) (t : Text) → NoReturn (universal cr t)
unfolding universal
universal-NoReturn cr [] = tt
universal-NoReturn cr (c ∷ cs) = elim (Bool-cases (nat_eq c 13)) [
  | inl t ↦ rw (t, universal) (refl, universal-NoReturn true cs)
  | inr f ↦ elim (Bool-cases (cr && nat_eq c 10)) [
    | inl s ↦ rw (f, universal) (rw s (universal-NoReturn false cs))
    | inr s ↦ rw (f, universal) (rw s (f, universal-NoReturn false cs))
  ]
]

-- what holds of every character
module _ (P : ℕ → Type 0) where
  pub All-append : (s t : Text) → All P s → All P t → All P (s ++ t)
  All-append [] t n m = m
  All-append (c ∷ s) t (n, ns) m = (n, All-append s t ns m)

  pub All-concat : (ls : List Text) → All (All P) ls → All P (concat ls)
  unfolding concat
  All-concat [] a = tt
  All-concat (l ∷ ls) (a, later) = All-append l (concat ls) a (All-concat ls later)

  All-put_first : (c : ℕ) (ls : List Text) → P c → All (All P) ls → All (All P) (put_first c ls)
  unfolding put_first
  All-put_first c [] n a = ((n, tt), tt)
  All-put_first c (l ∷ ls) n (a, later) = ((n, a), later)

  pub All-readlines : (t : Text) → All P t → All (All P) (readlines t)
  unfolding readlines
  All-readlines [] n = tt
  All-readlines (c ∷ cs) (n, later) = elim (Bool-cases (nat_eq c 10)) [
    | inl t ↦ rw (t, readlines) ((n, tt), All-readlines cs later)
    | inr f ↦ rw (f, readlines) (All-put_first c (readlines cs) n (All-readlines cs later))
  ]

-- The lines that a text file is read as, and those that are written in their place.
abbrev pub lines_read : Text → List Text
lines_read text = readlines (universal false text)

pub lines_read-NoReturn : (text : Text) → All NoReturn (lines_read text)
lines_read-NoReturn text =
    All-readlines (λ c. nat_eq c 13 ≡ false) (universal false text) (universal-NoReturn false text)

pub universal-concat : (ms : List Text) → All NoReturn ms → universal false (concat ms) ≡ concat ms
universal-concat ms a =
    universal_of_NoReturn (concat ms) (All-concat (λ c. nat_eq c 13 ≡ false) ms a)

-- Lines that end as those that were read are read again as they were written.
pub lines_read-concat :
    (text : Text) (ms : List Text)
    → KeepEach (lines_read text) ms
    → All NoReturn ms
    → lines_read (concat ms) ≡ ms
lines_read-concat text ms k a =
    ap readlines (universal-concat ms a)
    ∙ readlines-concat ms
        (AreLines-KeepEach (lines_read text) ms k (readlines-AreLines (universal false text)))
