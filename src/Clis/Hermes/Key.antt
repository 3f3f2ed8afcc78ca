-- ===== src/Clis/Hermes/Key.antt =====
-- The line of a key in a trusted block: the loop of `_update_hermes` reads it as what it wrote.
use mathlib.Core.Path.{subst}
use coding_agents_databricks.Base.{
  ℕ, zero, suc, ◌≡◌, refl, sym, ap, ◌∙◌, Bool, true, false, [], ◌∷◌, ◌++◌, ◌⊎◌, inl, inr, All,
  Bool-cases, arith,
}
use coding_agents_databricks.Base.Text.{codes, is_prefix}
use coding_agents_databricks.Base.Parse.{Text, strip, same_text}
use coding_agents_databricks.Config.Sections.Lines.{NoBreak}
use coding_agents_databricks.Clis.Lines.{append_nil, Keeps, NoNewline, All-append}
use coding_agents_databricks.Clis.Dotenv.Again.{append_assoc}
use coding_agents_databricks.Clis.Hermes.{
  Blocks, drop_deeper, indent_of, spaces, close, close_blocks, is_trusted, ends_with_newline,
  api_key_line, visit_open, skips_line, visit_line,
}
use coding_agents_databricks.Clis.Hermes.Indented.{
  indent_spaces, strip_api_key, ends_snoc, ends_none, newline_if, ends-newline_if, spaces-NoNewline,
}

module _ (token : Text) (breaks : NoBreak token) where
  -- the line of a key before its newline
  abbrev body : ℕ → Text
  body n = spaces n ++ (codes "api_key: " ++ token)

  body-NoNewline : (n : ℕ) → NoNewline (body n)
  body-NoNewline n =
      spaces-NoNewline n (codes "api_key: " ++ token)
        (refl, (refl, (refl, (refl, (refl, (refl, (refl, (refl, (refl, breaks.0)))))))))

  line_is_body :
      (n : ℕ) (line : Text)
      → api_key_line n token line ≡ body n ++ newline_if (ends_with_newline line)
  unfolding api_key_line
  line_is_body n line =
      sym
        (append_assoc (spaces n) (codes "api_key: " ++ token) (newline_if (ends_with_newline line)))

  key_line_again :
      (n : ℕ) (line : Text)
      → api_key_line n token (api_key_line n token line) ≡ api_key_line n token line
  unfolding api_key_line
  key_line_again n line =
      ap (λ b. spaces n ++ (codes "api_key: " ++ (token ++ newline_if b)))
        (ap ends_with_newline (line_is_body n line)
          ∙ ends-newline_if (body n) (ends_with_newline line) (body-NoNewline n))

  no_dash : (s : Text) → is_prefix (codes "api_key:") s ≡ true → is_prefix (codes "-") s ≡ false
  unfolding is_prefix
  no_dash [] h = refl
  no_dash (c ∷ s) h = ground (arith, h)

  abbrev refreshed : ℕ → Blocks → Blocks
  refreshed n st = record {
    trusted_by_indent = drop_deeper n st.trusted_by_indent;
    trusted_blocks = st.trusted_blocks;
    refreshed_keys = suc st.refreshed_keys;
  }

  strip_written :
      (n : ℕ) (line : Text)
      → (rest : Text) × (strip (api_key_line n token line) ≡ codes "api_key:" ++ rest)
  unfolding api_key_line
  strip_written n line = strip_api_key n (32 ∷ (token ++ newline_if (ends_with_newline line)))

  indent_written : (n : ℕ) (line : Text) → indent_of (api_key_line n token line) ≡ n
  unfolding api_key_line
  indent_written n line = indent_spaces n b'a' _ refl

  open_written :
      (n : ℕ) (line rest : Text) (st : Blocks)
      → is_trusted n st.trusted_by_indent ≡ true
      → visit_open token line (codes "api_key:" ++ rest) n st
        ≡ (api_key_line n token line, record st { refreshed_keys = suc st.refreshed_keys })
  unfolding visit_open is_prefix
  open_written n line rest st h = rw h refl

  -- The line of a key in a trusted block is the one that the loop would write.
  visit_written :
      (n : ℕ) (line : Text) (st : Blocks)
      → is_trusted n (drop_deeper n st.trusted_by_indent) ≡ true
      → visit_line token (api_key_line n token line) st
        ≡ (api_key_line n token line, refreshed n st)
  unfolding visit_line skips_line close close_blocks is_prefix same_text
  visit_written n line st h =
      let (rest, e) = strip_written n line in
      rw (e, visit_line)
        (rw (indent_written n line) (
          open_written n (api_key_line n token line) rest
            (record st { trusted_by_indent = drop_deeper n st.trusted_by_indent }) h
          ∙ ap (λ l. (l, refreshed n st)) (key_line_again n line)))

  -- What an iteration does: it leaves the line, or it writes that of a key.
  visit_cases :
      (line : Text) (st : Blocks)
      → ((visit_line token line st).0 ≡ line)
        ⊎ ((is_trusted (indent_of line) (drop_deeper (indent_of line) st.trusted_by_indent) ≡ true)
            × (visit_line token line st
                ≡ (api_key_line (indent_of line) token line, refreshed (indent_of line) st)))
  unfolding visit_line visit_open close close_blocks
  visit_cases line st = elim (Bool-cases (skips_line (strip line))) [
    | inl a ↦ inl (rw (a, visit_line) refl)
    | inr a ↦ elim (Bool-cases (is_prefix (codes "base_url:") (strip line))) [
      | inl b ↦ inl (rw (a, visit_line) (rw (b, visit_open) refl))
      | inr b ↦ elim (Bool-cases (is_prefix (codes "api_key:") (strip line))) [
        | inl c ↦
            let d = no_dash (strip line) c in
            elim (Bool-cases
              (is_trusted (indent_of line) (drop_deeper (indent_of line) st.trusted_by_indent))) [
                | inl t ↦ inr (t, rw (a, visit_line) (rw (b, visit_open) (rw c (rw d (rw t refl)))))
                | inr f ↦ inl (rw (a, visit_line) (rw (b, visit_open) (rw c (rw d (rw f refl)))))
              ]
        | inr c ↦ inl (rw (a, visit_line) (rw (b, visit_open) (rw c refl)))
      ]
    ]
  ]

  pub visit_again :
      (line : Text) (st : Blocks)
      → visit_line token (visit_line token line st).0 st ≡ visit_line token line st
  visit_again line st = elim (visit_cases line st) [
    | inl e ↦ ap (λ l. visit_line token l st) e
    | inr (t, e) ↦
        ap (λ r. visit_line token r.0 st) e ∙ visit_written (indent_of line) line st t ∙ sym e
  ]

  body_not_empty : (n : ℕ) → (c : ℕ) × (cs : Text) × (body n ≡ c ∷ cs)
  unfolding spaces
  body_not_empty zero = (b'a', _, refl)
  body_not_empty (suc n) = (32, _, refl)

  written-Keeps : (line : Text) → Keeps line (api_key_line (indent_of line) token line)
  written-Keeps line = (
    λ (l, n, e). (
      body (indent_of line),
      body-NoNewline (indent_of line),
      line_is_body (indent_of line) line
          ∙ ap (λ b. body (indent_of line) ++ newline_if b) (ap ends_with_newline e ∙ ends_snoc l),
    ),
    λ (c, cs, n, e).
        let (d, ds, e1) = body_not_empty (indent_of line) in
        (
          d,
          ds,
          subst NoNewline e1 (body-NoNewline (indent_of line)),
          line_is_body (indent_of line) line
              ∙ ap (λ b. body (indent_of line) ++ newline_if b)
                  (ap ends_with_newline (e ∙ sym (append_nil (c ∷ cs))) ∙ ends_none (c ∷ cs) n)
              ∙ append_nil (body (indent_of line))
              ∙ e1,
        ),
  )

  pub visit-Keeps : (line : Text) (st : Blocks) → Keeps line (visit_line token line st).0
  visit-Keeps line st = elim (visit_cases line st) [
    | inl e ↦ subst (Keeps line) (sym e) (λ i. i, λ i. i)
    | inr (t, e) ↦ subst (Keeps line) (sym (ap (λ r. r.0) e)) (written-Keeps line)
  ]

  -- What holds of the characters of a key's line.
  module _ (P : ℕ → Type 0) (fixed : All P (10 ∷ codes "api_key: ")) (ok_token : All P token) where
    spaces-All : (n : ℕ) (t : Text) → All P t → All P (spaces n ++ t)
    unfolding spaces
    spaces-All zero t a = a
    spaces-All (suc n) t a = (fixed.1.1.1.1.1.1.1.1.1.0, spaces-All n t a)

    newline_if-All : (b : Bool) → All P (newline_if b)
    newline_if-All true = (fixed.0, tt)
    newline_if-All false = tt

    written-All : (n : ℕ) (line : Text) → All P (api_key_line n token line)
    unfolding api_key_line
    written-All n line =
        spaces-All n (codes "api_key: " ++ (token ++ newline_if (ends_with_newline line))) (
          All-append P (codes "api_key: ") _ fixed.1
            (All-append P token _ ok_token (newline_if-All (ends_with_newline line))))

    pub visit-All : (line : Text) (st : Blocks) → All P line → All P (visit_line token line st).0
    visit-All line st n = elim (visit_cases line st) [
      | inl e ↦ subst (All P) (sym e) n
      | inr (t, e) ↦ subst (All P) (sym (ap (λ r. r.0) e)) (written-All (indent_of line) line)
    ]
