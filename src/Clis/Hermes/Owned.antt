-- ===== src/Clis/Hermes/Owned.antt =====
-- Which keys `_update_hermes` takes for those of the local proxy, told from the lines above them.
use coding_agents_databricks.Base.{
  ℕ, ◌≡◌, refl, sym, ap, ◌∙◌, Bool, true, false, ◌&&◌, ◌||◌, not, List, [], ◌∷◌, ltb, leb, nat_eq,
  if◌then◌else◌, arith, Bool-cases, inl, inr, none, some, ok, err, ok_inj, if_cases, value_error,
}
use coding_agents_databricks.Base.Text.{codes, is_prefix}
use coding_agents_databricks.Base.Parse.{Text, strip}
use coding_agents_databricks.Config.{universal, concat}
use coding_agents_databricks.Clis.Dotenv.{if_different}
use coding_agents_databricks.Clis.Dotenv.Again.{if_different-some}
use coding_agents_databricks.Clis.Hermes.{
  Blocks, indent_of, is_trusted, drop_deeper, set_trusted, close_blocks, close, is_proxy_url,
  base_url_of, api_key_line, skips_line, visit_open, visit_line, visit_lines, no_blocks,
  lines_with_ends, update_hermes,
}

-- Is the nearest line above with a base URL at this indentation that of the proxy, with no list item
-- and no line of a smaller indentation in between? The nearest line comes first; blank lines and
-- comments do not count.
unfoldable pub is_owned : ℕ → List Text → Bool
is_owned indent [] = false
is_owned indent (line ∷ above) =
    let further = is_owned indent above in
    let shallower = ltb (indent_of line) indent in
    let declares = is_prefix (codes "base_url:") (strip line) && nat_eq (indent_of line) indent in
    if skips_line (strip line)
    then further
    else if is_prefix (codes "-") (strip line) || shallower
    then false
    else if declares
    then is_proxy_url (base_url_of (strip line))
    else further

-- The lines with the new token in those of the keys that are owned.
unfoldable pub rewrite_owned : Text → List Text → List Text → List Text
rewrite_owned token above [] = []
rewrite_owned token above (line ∷ lines) =
    let rest = rewrite_owned token (line ∷ above) lines in
    if not (skips_line (strip line))
      && is_prefix (codes "api_key:") (strip line)
      && is_owned (indent_of line) above
    then api_key_line (indent_of line) token line ∷ rest
    else line ∷ rest

is_trusted-drop_deeper :
    (i n : ℕ) (ks : List (ℕ × Bool))
    → is_trusted i (drop_deeper n ks) ≡ (if leb i n then is_trusted i ks else false)
unfolding is_trusted drop_deeper
is_trusted-drop_deeper i n [] = ground arith
is_trusted-drop_deeper i n ((k, b) ∷ ks) = ground (arith, is_trusted-drop_deeper i n ks)

is_trusted-set_trusted :
    (i n : ℕ) (b : Bool) (ks : List (ℕ × Bool))
    → is_trusted i (set_trusted n b ks) ≡ (if nat_eq n i then b else is_trusted i ks)
unfolding is_trusted set_trusted
is_trusted-set_trusted i n b [] = ground arith
is_trusted-set_trusted i n b ((k, c) ∷ ks) = ground (arith, is_trusted-set_trusted i n b ks)

is_trusted-nil : (i : ℕ) → is_trusted i [] ≡ false
unfolding is_trusted
is_trusted-nil i = refl

-- The loop knows of the lines above what they tell.
abbrev Knows : Blocks → List Text → Type 0
Knows st above = (i : ℕ) → is_trusted i st.trusted_by_indent ≡ is_owned i above

Knows-no_blocks : Knows no_blocks []
unfolding is_trusted is_owned
Knows-no_blocks i = refl

dash_alone :
    (s : Text)
    → is_prefix (codes "-") s ≡ true
    → (is_prefix (codes "base_url:") s ≡ false) × (is_prefix (codes "api_key:") s ≡ false)
unfolding is_prefix
dash_alone [] h = (refl, refl)
dash_alone (c ∷ s) h = (ground (arith, h), ground (arith, h))

base_alone :
    (s : Text) → is_prefix (codes "base_url:") s ≡ true → is_prefix (codes "api_key:") s ≡ false
unfolding is_prefix
base_alone [] h = refl
base_alone (c ∷ s) h = ground (arith, h)

-- What an iteration writes and knows.
abbrev Step : Text → Text → List Text → Blocks → Text × Blocks → Type 0
Step token line above st r =
    (r.0 ≡ (
      if not (skips_line (strip line))
        && is_prefix (codes "api_key:") (strip line)
        && is_owned (indent_of line) above
      then api_key_line (indent_of line) token line
      else line))
    × Knows r.1 (line ∷ above)

visit_step :
    (token line : Text) (above : List Text) (st : Blocks)
    → Knows st above
    → Step token line above st (visit_line token line st)
unfolding visit_line visit_open close close_blocks is_owned
visit_step token line above st k =
    let n = indent_of line in
    let ks = st.trusted_by_indent in
    let s = strip line in
    let t = is_trusted-drop_deeper n n ks in
    elim (Bool-cases (skips_line s)) [
      | inl a ↦ (ground (arith, a), λ i. ground (arith, a, k i))
      | inr a ↦ elim (Bool-cases (is_prefix (codes "-") s)) [
        | inl d ↦
            let (b, c) = dash_alone s d in
            (ground (arith, a, b, c), λ i. ground (arith, a, b, c, d, is_trusted-nil i))
        | inr d ↦ elim (Bool-cases (is_prefix (codes "base_url:") s)) [
          | inl b ↦ (
            ground (arith, a, b, base_alone s b),
            λ i. ground (
              arith,
              a,
              b,
              d,
              k i,
              is_trusted-drop_deeper i n ks,
              is_trusted-set_trusted i n (is_proxy_url (base_url_of s)) (drop_deeper n ks),
            ),
          )
          | inr b ↦ (
            ground (arith, a, b, d, t, k n),
            λ i. ground (arith, a, b, d, t, k n, k i, is_trusted-drop_deeper i n ks),
          )
        ]
      ]
    ]

rewrite_from :
    (token : Text) (lines above : List Text) (st : Blocks)
    → Knows st above
    → (visit_lines token lines st).0 ≡ rewrite_owned token above lines
unfolding visit_lines rewrite_owned
rewrite_from token [] above st k = refl
rewrite_from token (line ∷ lines) above st k =
    let (e, k') = visit_step token line above st k in
    let later = rewrite_from token lines (line ∷ above) (visit_line token line st).1 k' in
    ground (arith, e, later)

-- What the file was made of, if it was rewritten.
visited :
    (token text new : Text)
    → update_hermes token text ≡ ok (some new)
    → concat (visit_lines token (lines_with_ends (universal false text)) no_blocks).0 ≡ new
unfolding update_hermes
visited token text new h =
    let content = universal false text in
    let r = visit_lines token (lines_with_ends content) no_blocks in
    let write = ok (if_different content (concat r.0)) in
    let refreshed = nat_eq r.1.refreshed_keys r.1.trusted_blocks in
    elim (if_cases (nat_eq r.1.trusted_blocks 0) (ok none)
      (if refreshed then write else err value_error) (ok (some new)) h) [
        | inl (t, e) ↦ absurd cc
        | inr (b, e) ↦ elim (if_cases refreshed write (err value_error) (ok (some new)) e) [
          | inl (k, e1) ↦ if_different-some content (concat r.0) new (ok_inj e1)
          | inr (k, e1) ↦ absurd cc
        ]
      ]

-- A file that is rewritten gets the token in exactly the keys that are owned, those whose nearest base
-- URL above at the same indentation, with no list item and no line of a smaller indentation in
-- between, is that of the local proxy; every other line stays as it is.
pub update_hermes-rewrite_owned :
    (token text new : Text)
    → update_hermes token text ≡ ok (some new)
    → new ≡ concat (rewrite_owned token [] (lines_with_ends (universal false text)))
update_hermes-rewrite_owned token text new h =
    sym (visited token text new h)
    ∙ ap concat
        (rewrite_from token (lines_with_ends (universal false text)) [] no_blocks Knows-no_blocks)
