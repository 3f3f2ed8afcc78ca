-- ===== src/Clis/Hermes/Again.antt =====
-- `_update_hermes` leaves what it has rewritten.
use mathlib.Core.Path.{subst}
use coding_agents_databricks.Base.{
  ℕ, ◌≡◌, refl, sym, ap, ◌∙◌, true, false, List, [], ◌∷◌, inl, inr, All, nat_eq, Bool-cases, none,
  some, ok, err, ok_inj, if_cases, value_error, if◌then◌else◌,
}
use coding_agents_databricks.Base.Text.{codes}
use coding_agents_databricks.Base.Parse.{Text, is_line_break}
use coding_agents_databricks.Config.{universal, readlines, concat, put_first}
use coding_agents_databricks.Config.Sections.Lines.{NoBreak, NoReturn}
use coding_agents_databricks.Clis.Lines.{
  KeepEach, All-concat, All-readlines, lines_read, lines_read-NoReturn, lines_read-concat,
  universal-concat,
}
use coding_agents_databricks.Gateway.Names.Order.{same_refl}
use coding_agents_databricks.Clis.Dotenv.{if_different}
use coding_agents_databricks.Clis.Dotenv.Again.{if_different-some}
use coding_agents_databricks.Clis.Hermes.Key.{visit_again, visit-Keeps, visit-All}
use coding_agents_databricks.Clis.Hermes.{
  Blocks, lines_with_ends, visit_line, visit_lines, no_blocks, update_hermes,
}

-- no line break but the line feed
abbrev pub IsPlain : ℕ → Type 0
IsPlain c = is_line_break c ≡ nat_eq c 10

lines_with_ends-plain : (t : Text) → All IsPlain t → lines_with_ends t ≡ readlines t
unfolding lines_with_ends readlines
lines_with_ends-plain [] a = refl
lines_with_ends-plain (c ∷ cs) (a, later) = elim (Bool-cases (nat_eq c 10)) [
  | inl t ↦
      rw (a ∙ t, lines_with_ends)
        (rw (t, readlines) (ap (λ ls. (c ∷ []) ∷ ls) (lines_with_ends-plain cs later)))
  | inr f ↦
      rw (a ∙ f, lines_with_ends)
        (rw (f, readlines) (ap (put_first c) (lines_with_ends-plain cs later)))
]

module _ (token : Text) (breaks : NoBreak token) where
  visit_lines_again :
      (lines : List Text) (st : Blocks)
      → visit_lines token (visit_lines token lines st).0 st ≡ visit_lines token lines st
  unfolding visit_lines
  visit_lines_again [] st = refl
  visit_lines_again (line ∷ lines) st = rw (visit_again token breaks line st) (
      ap (λ r. ((visit_line token line st).0 ∷ r.0, r.1))
        (visit_lines_again lines (visit_line token line st).1))

  lines-KeepEach : (lines : List Text) (st : Blocks) → KeepEach lines (visit_lines token lines st).0
  unfolding visit_lines
  lines-KeepEach [] st = tt
  lines-KeepEach (line ∷ lines) st =
      (visit-Keeps token breaks line st, lines-KeepEach lines (visit_line token line st).1)

  lines-All :
      (P : ℕ → Type 0)
      → All P (10 ∷ codes "api_key: ")
      → All P token
      → (lines : List Text) (st : Blocks) → All (All P) lines
      → All (All P) (visit_lines token lines st).0
  unfolding visit_lines
  lines-All P fixed t [] st a = tt
  lines-All P fixed t (line ∷ lines) st (a, later) = (
    visit-All token breaks P fixed t line st a,
    lines-All P fixed t lines (visit_line token line st).1 later,
  )

  update_written :
      (lines : List Text)
      → let r = visit_lines token lines no_blocks in
        nat_eq r.1.trusted_blocks 0 ≡ false
        → nat_eq r.1.refreshed_keys r.1.trusted_blocks ≡ true
        → universal false (concat r.0) ≡ concat r.0
        → lines_with_ends (concat r.0) ≡ r.0
        → update_hermes token (concat r.0) ≡ ok none
  unfolding update_hermes if_different
  update_written lines b k u e =
      rw (u, update_hermes)
        (rw e (
          rw (visit_lines_again lines no_blocks)
            (rw b (rw k (rw (same_refl (concat (visit_lines token lines no_blocks).0)) refl)))))

  written_as_read :
      (text : Text)
      → let r = visit_lines token (lines_read text) no_blocks in
        All IsPlain token
        → All IsPlain (universal false text)
        → nat_eq r.1.trusted_blocks 0 ≡ false
        → nat_eq r.1.refreshed_keys r.1.trusted_blocks ≡ true
        → update_hermes token (concat r.0) ≡ ok none
  unfolding is_line_break
  written_as_read text plain p b k =
      let ms = (visit_lines token (lines_read text) no_blocks).0 in
      let n : All NoReturn ms =
        lines-All (λ c. nat_eq c 13 ≡ false)
          (refl, (refl, (refl, (refl, (refl, (refl, (refl, (refl, (refl, (refl, tt))))))))))
          breaks.1 (lines_read text) no_blocks (lines_read-NoReturn text) in
      let q : All (All IsPlain) ms =
        lines-All IsPlain
          (refl, (refl, (refl, (refl, (refl, (refl, (refl, (refl, (refl, (refl, tt)))))))))) plain
          (lines_read text) no_blocks (All-readlines IsPlain (universal false text) p) in
      let u = universal-concat ms n in
      update_written (lines_read text) b k u (
        lines_with_ends-plain (concat ms) (All-concat IsPlain ms q)
        ∙ sym (ap readlines u)
        ∙ lines_read-concat text ms (lines-KeepEach (lines_read text) no_blocks) n)

  pub update_hermes_again :
      All IsPlain token
      → (text new : Text) → All IsPlain (universal false text)
      → update_hermes token text ≡ ok (some new)
      → update_hermes token new ≡ ok none
  unfolding update_hermes
  update_hermes_again plain text new p h =
      let content = universal false text in
      let e : visit_lines token (lines_with_ends content) no_blocks
          ≡ visit_lines token (lines_read text) no_blocks =
        ap (λ ls. visit_lines token ls no_blocks) (lines_with_ends-plain content p) in
      let r = visit_lines token (lines_with_ends content) no_blocks in
      let rest =
        if nat_eq r.1.refreshed_keys r.1.trusted_blocks
        then ok (if_different content (concat r.0))
        else err value_error in
      elim (if_cases (nat_eq r.1.trusted_blocks 0) (ok none) rest (ok (some new)) h) [
        | inl (t, e1) ↦ absurd cc
        | inr (b, e1) ↦
            elim (if_cases (nat_eq r.1.refreshed_keys r.1.trusted_blocks)
              (ok (if_different content (concat r.0))) (err value_error) (ok (some new)) e1) [
                | inl (k, e2) ↦
                    subst (λ x. update_hermes token x ≡ ok none)
                      (sym (ap (λ x. concat x.0) e)
                        ∙ if_different-some content (concat r.0) new (ok_inj e2))
                      (written_as_read text plain p
                        (sym (ap (λ x. nat_eq x.1.trusted_blocks 0) e) ∙ b)
                        (sym (ap (λ x. nat_eq x.1.refreshed_keys x.1.trusted_blocks) e) ∙ k))
                | inr (k, e2) ↦ absurd cc
              ]
      ]
