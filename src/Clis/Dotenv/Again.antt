-- ===== src/Clis/Dotenv/Again.antt =====
-- `_replace_dotenv_key` leaves what it has rewritten.
use mathlib.Core.Path.{subst}
use coding_agents_databricks.Base.{
  ℕ, ◌≡◌, refl, sym, ap, ◌∙◌, true, false, List, [], ◌∷◌, ◌++◌, ◌⊎◌, inl, inr, All, nat_eq,
  Bool-cases, arith, none, some, any, map, ok, err, ok_inj, some_inj, if_cases, value_error,
}
use coding_agents_databricks.Base.Text.{codes, is_prefix}
use coding_agents_databricks.Base.Parse.{Text, same_text}
use coding_agents_databricks.Config.{universal, readlines, concat}
use coding_agents_databricks.Config.Sections.Lines.{NoBreak, NoReturn}
use coding_agents_databricks.Gateway.Names.Order.{same_refl}
use coding_agents_databricks.Clis.Lines.{
  append_nil, NoNewline, Keeps, KeepEach, All-append, lines_read, lines_read-NoReturn,
  lines_read-concat, universal-concat,
}
use coding_agents_databricks.Clis.Dotenv.{
  line_end, has_key, key_line, replace_line, replace_lines, if_different, replace_dotenv_key,
}

line_end_cases : (l : Text) → (line_end l ≡ []) ⊎ (line_end l ≡ 10 ∷ [])
unfolding line_end
line_end_cases [] = inl refl
line_end_cases (c ∷ []) = ground arith
line_end_cases (c ∷ d ∷ cs) = line_end_cases (d ∷ cs)

line_end-line : (l : Text) → NoNewline l → line_end (l ++ 10 ∷ []) ≡ 10 ∷ []
unfolding line_end
line_end-line [] n = refl
line_end-line (c ∷ []) n = refl
line_end-line (c ∷ d ∷ cs) (n, later) = line_end-line (d ∷ cs) later

line_end-last : (l : Text) → NoNewline l → line_end (l ++ []) ≡ []
unfolding line_end
line_end-last [] n = refl
line_end-last (c ∷ []) (n, later) = rw n refl
line_end-last (c ∷ d ∷ cs) (n, later) = line_end-last (d ∷ cs) later

line_end-append : (l m : Text) → NoNewline l → line_end (l ++ line_end m) ≡ line_end m
line_end-append l m n = elim (line_end_cases m) [
  | inl e ↦ rw e (line_end-last l n)
  | inr e ↦ rw e (line_end-line l n)
]

is_prefix-append : (p t : Text) → is_prefix p (p ++ t) ≡ true
unfolding is_prefix
is_prefix-append [] t = refl
is_prefix-append (c ∷ p) t = ground (arith, is_prefix-append p t)

end_NoReturn : (l : Text) → NoReturn (line_end l)
end_NoReturn l = elim (line_end_cases l) [
  | inl e ↦ subst NoReturn (sym e) tt
  | inr e ↦ subst NoReturn (sym e) (refl, tt)
]

pub append_assoc : (r s t : Text) → (r ++ s) ++ t ≡ r ++ (s ++ t)
append_assoc [] s t = refl
append_assoc (c ∷ r) s t = ap (λ u. c ∷ u) (append_assoc r s t)

pub if_different-some : (content r new : Text) → if_different content r ≡ some new → r ≡ new
unfolding if_different
if_different-some content r new h =
    elim (if_cases (same_text r content) none (some r) (some new) h) [
      | inl (t, e) ↦ absurd cc
      | inr (f, e) ↦ some_inj e
    ]

-- A key that is no empty text, and a value, without line breaks.
module _ (k : ℕ) (ks value : Text) (key_breaks : NoBreak (k ∷ ks))
    (value_breaks : NoBreak value) where
  abbrev key : Text
  key = k ∷ ks

  abbrev written : Text
  written = key_line key value

  written-NoNewline : NoNewline written
  unfolding key_line
  written-NoNewline =
      All-append (λ c. nat_eq c 10 ≡ false) (key ++ codes "=") value
        (All-append (λ c. nat_eq c 10 ≡ false) key (codes "=") key_breaks.0 (refl, tt))
        value_breaks.0

  written-NoReturn : NoReturn written
  unfolding key_line
  written-NoReturn =
      All-append (λ c. nat_eq c 13 ≡ false) (key ++ codes "=") value
        (All-append (λ c. nat_eq c 13 ≡ false) key (codes "=") key_breaks.1 (refl, tt))
        value_breaks.1

  written-has_key : (t : Text) → has_key key (written ++ t) ≡ true
  unfolding has_key key_line
  written-has_key t =
      ap (is_prefix (key ++ codes "=")) (append_assoc (key ++ codes "=") value t)
      ∙ is_prefix-append (key ++ codes "=") (value ++ t)

  -- what a line that has the key becomes
  replaced : (l : Text) → has_key key l ≡ true → replace_line key value l ≡ written ++ line_end l
  unfolding replace_line
  replaced l h = rw (h, replace_line) refl

  kept : (l : Text) → has_key key l ≡ false → replace_line key value l ≡ l
  unfolding replace_line
  kept l h = rw (h, replace_line) refl

  replaced_again :
      (l : Text) → replace_line key value (replace_line key value l) ≡ replace_line key value l
  replaced_again l = elim (Bool-cases (has_key key l)) [
    | inl t ↦
        ap (replace_line key value) (replaced l t)
        ∙ replaced (written ++ line_end l) (written-has_key (line_end l))
        ∙ ap (λ e. written ++ e) (line_end-append written l written-NoNewline)
        ∙ sym (replaced l t)
    | inr f ↦ ap (replace_line key value) (kept l f)
  ]

  replaced-has_key :
      (l : Text) → has_key key l ≡ true → has_key key (replace_line key value l) ≡ true
  replaced-has_key l h = ap (has_key key) (replaced l h) ∙ written-has_key (line_end l)

  replaced-Keeps : (l : Text) → Keeps l (replace_line key value l)
  unfolding key_line line_end
  replaced-Keeps l = elim (Bool-cases (has_key key l)) [
    | inl t ↦ (
      λ (body, n, e). (
        written,
        written-NoNewline,
        replaced l t ∙ ap (λ x. written ++ x) (ap line_end e ∙ line_end-line body n),
      ),
      λ (c, cs, n, e). (
        k,
        ks ++ codes "=" ++ value,
        written-NoNewline,
        replaced l t
            ∙ ap (λ x. written ++ x)
                (ap line_end (e ∙ sym (append_nil (c ∷ cs))) ∙ line_end-last (c ∷ cs) n)
            ∙ append_nil written,
      ),
    )
    | inr f ↦ subst (Keeps l) (sym (kept l f)) (λ i. i, λ i. i)
  ]

  replaced-NoReturn : (l : Text) → NoReturn l → NoReturn (replace_line key value l)
  replaced-NoReturn l n = elim (Bool-cases (has_key key l)) [
    | inl t ↦ subst NoReturn (sym (replaced l t)) (
        All-append (λ c. nat_eq c 13 ≡ false) written (line_end l) written-NoReturn
          (end_NoReturn l))
    | inr f ↦ subst NoReturn (sym (kept l f)) n
  ]

  map_again :
      (ls : List Text)
      → map (replace_line key value) (map (replace_line key value) ls)
        ≡ map (replace_line key value) ls
  map_again [] = refl
  map_again (l ∷ ls) =
      ap (λ x. x ∷ map (replace_line key value) (map (replace_line key value) ls))
        (replaced_again l)
      ∙ ap (λ ms. replace_line key value l ∷ ms) (map_again ls)

  map-KeepEach : (ls : List Text) → KeepEach ls (map (replace_line key value) ls)
  map-KeepEach [] = tt
  map-KeepEach (l ∷ ls) = (replaced-Keeps l, map-KeepEach ls)

  map-NoReturn : (ls : List Text) → All NoReturn ls → All NoReturn (map (replace_line key value) ls)
  map-NoReturn [] a = tt
  map-NoReturn (l ∷ ls) (a, later) = (replaced-NoReturn l a, map-NoReturn ls later)

  any_again :
      (ls : List Text)
      → any (has_key key) ls ≡ true
      → any (has_key key) (map (replace_line key value) ls) ≡ true
  any_again [] h = h
  any_again (l ∷ ls) h = ground (arith, h, replaced-has_key l, any_again ls)

  written_fixed :
      (ls : List Text)
      → any (has_key key) ls ≡ true
      → let ms = map (replace_line key value) ls in
        readlines (universal false (concat ms)) ≡ ms
        → universal false (concat ms) ≡ concat ms
        → replace_dotenv_key key value (concat ms) ≡ ok none
  unfolding replace_dotenv_key replace_lines if_different
  written_fixed ls h e u =
      let ms = map (replace_line key value) ls in
      rw (u, replace_dotenv_key)
        (rw (sym (ap readlines u) ∙ e)
          (rw (any_again ls h) (rw (map_again ls) (rw (same_refl (concat ms)) refl))))

  -- The file that was written is one that the key's line is in, and that stays as it is.
  pub replace_dotenv_key_again :
      (text new : Text)
      → replace_dotenv_key key value text ≡ ok (some new)
      → replace_dotenv_key key value new ≡ ok none
  unfolding replace_dotenv_key replace_lines if_different
  replace_dotenv_key_again text new h =
      elim (if_cases (any (has_key key) (lines_read text))
        (ok (if_different (universal false text) (replace_lines key value (universal false text))))
        (err value_error) (ok (some new)) h) [
          | inl (t, e) ↦
              let ms = map (replace_line key value) (lines_read text) in
              let a = map-NoReturn (lines_read text) (lines_read-NoReturn text) in
              let b : readlines (universal false (concat ms)) ≡ ms =
                lines_read-concat text ms (map-KeepEach (lines_read text)) a in
              subst (λ x. replace_dotenv_key key value x ≡ ok none)
                (if_different-some (universal false text) (concat ms) new (ok_inj e))
                (written_fixed (lines_read text) t b (universal-concat ms a))
          | inr (f, e) ↦ absurd cc
        ]
