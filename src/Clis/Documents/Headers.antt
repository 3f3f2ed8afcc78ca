-- ===== src/Clis/Documents/Headers.antt =====
-- The Authorization part of a list of headers, `_replace_authorization`.
use Prim.Native.Char.{code, Char}
use coding_agents_databricks.Base.{
  String, ◌≡◌, refl, true, false, List, [], ◌∷◌, All, nat_eq, map, arith, Bool-cases, inl, inr, ap,
  ◌∙◌,
}
use coding_agents_databricks.Base.Text.{codes, is_prefix}
use coding_agents_databricks.Clis.Documents.{
  str_append, split_commas, join_commas, text_starts_with, is_bearer, bearer, replace_part,
  replace_parts, replace_authorization,
}

abbrev pub NoComma : String → Type 0
NoComma s = All (λ c. nat_eq c b',' ≡ false) (codes s)

split_alone : (s : String) → NoComma s → split_commas s ≡ s ∷ []
unfolding split_commas
split_alone String.[] n = refl
split_alone (String.◌∷◌ c s) (n, later) = rw (n, split_commas) (rw (split_alone s later) refl)

split_at :
    (s t : String) → NoComma s → split_commas (str_append s (str_append "," t)) ≡ s ∷ split_commas t
unfolding split_commas
split_at String.[] t n = refl
split_at (String.◌∷◌ c s) t (n, later) = rw (n, split_commas) (rw (split_at s t later) refl)

split-join :
    (part : String) (parts : List String)
    → All NoComma (part ∷ parts)
    → split_commas (join_commas (part ∷ parts)) ≡ part ∷ parts
unfolding join_commas
split-join part [] (n, later) = split_alone part n
split-join part (next ∷ parts) (n, later) =
    split_at part (join_commas (next ∷ parts)) n
    ∙ ap (λ ps. part ∷ ps) (split-join next parts later)

split-cons :
    (c : Char) (s : String)
    → nat_eq (code c) b',' ≡ false
    → All NoComma (split_commas s)
    → All NoComma (split_commas (String.◌∷◌ c s))
unfolding split_commas
split-cons c s f h = rw (f, split_commas) (first c (split_commas s) f h)
  where
    first :
        (c : Char) (parts : List String)
        → nat_eq (code c) b',' ≡ false
        → All NoComma parts
        → All NoComma (elim parts [
          | [] ↦ String.◌∷◌ c String.[] ∷ []
          | part ∷ parts ↦ String.◌∷◌ c part ∷ parts
        ])
    first c [] f h = ((f, tt), tt)
    first c (part ∷ parts) f (n, later) = ((f, n), later)

split-NoComma : (s : String) → All NoComma (split_commas s)
unfolding split_commas
split-NoComma String.[] = (tt, tt)
split-NoComma (String.◌∷◌ c s) = elim (Bool-cases (nat_eq (code c) b',')) [
  | inl t ↦ rw (t, split_commas) (tt, split-NoComma s)
  | inr f ↦ split-cons c s f (split-NoComma s)
]

is_bearer-bearer : (token : String) → is_bearer (bearer token) ≡ true
unfolding is_bearer bearer text_starts_with is_prefix
is_bearer-bearer token = refl

bearer-NoComma : (token : String) → NoComma token → NoComma (bearer token)
unfolding bearer
bearer-NoComma token n = ground arith

map-NoComma :
    (token : String) (parts : List String)
    → NoComma token
    → All NoComma parts
    → All NoComma (map (replace_part token) parts)
unfolding replace_part
map-NoComma token [] n h = tt
map-NoComma token (part ∷ parts) n (p, later) = elim (Bool-cases (is_bearer part)) [
  | inl t ↦ rw t (bearer-NoComma token n, map-NoComma token parts n later)
  | inr f ↦ rw f (p, map-NoComma token parts n later)
]

replace_parts-NoComma :
    (token : String) (parts : List String)
    → NoComma token
    → All NoComma parts
    → All NoComma (replace_parts token parts)
unfolding replace_parts
replace_parts-NoComma token [] n h = (bearer-NoComma token n, tt)
replace_parts-NoComma token (part ∷ parts) n (p, later) = elim (Bool-cases (is_bearer part)) [
  | inl t ↦ rw (t, replace_parts) (bearer-NoComma token n, map-NoComma token parts n later)
  | inr f ↦ rw (f, replace_parts) (p, replace_parts-NoComma token parts n later)
]

map-map :
    (token : String) (parts : List String)
    → map (replace_part token) (map (replace_part token) parts) ≡ map (replace_part token) parts
unfolding replace_part
map-map token [] = refl
map-map token (part ∷ parts) = elim (Bool-cases (is_bearer part)) [
  | inl t ↦ rw t (rw (is_bearer-bearer token) (ap (λ ps. bearer token ∷ ps) (map-map token parts)))
  | inr f ↦ rw f (rw f (ap (λ ps. part ∷ ps) (map-map token parts)))
]

replace_parts-replace_parts :
    (token : String) (parts : List String)
    → replace_parts token (replace_parts token parts) ≡ replace_parts token parts
unfolding replace_parts
replace_parts-replace_parts token [] = rw (is_bearer-bearer token, replace_parts) refl
replace_parts-replace_parts token (part ∷ parts) = elim (Bool-cases (is_bearer part)) [
  | inl t ↦
      rw (t, replace_parts)
        (rw (is_bearer-bearer token, replace_parts)
          (ap (λ ps. bearer token ∷ ps) (map-map token parts)))
  | inr f ↦
      rw (f, replace_parts)
        (rw (f, replace_parts) (ap (λ ps. part ∷ ps) (replace_parts-replace_parts token parts)))
]

replaced-split :
    (token : String) (parts : List String)
    → NoComma token
    → All NoComma parts
    → split_commas (join_commas (replace_parts token parts)) ≡ replace_parts token parts
unfolding replace_parts
replaced-split token [] n h = split-join (bearer token) [] (bearer-NoComma token n, tt)
replaced-split token (part ∷ parts) n h = elim (Bool-cases (is_bearer part)) [
  | inl t ↦
      rw (t, replace_parts)
        (split-join (bearer token) (map (replace_part token) parts)
          (bearer-NoComma token n, map-NoComma token parts n (h.1)))
  | inr f ↦
      rw (f, replace_parts)
        (split-join part (replace_parts token parts)
          (h.0, replace_parts-NoComma token parts n (h.1)))
]

-- The refresh of a list of headers that was refreshed with the token changes nothing.
pub replace_authorization_again :
    (token headers : String)
    → NoComma token
    → replace_authorization token (replace_authorization token headers)
      ≡ replace_authorization token headers
unfolding replace_authorization
replace_authorization_again token headers n =
    ap (λ ps. join_commas (replace_parts token ps))
      (replaced-split token (split_commas headers) n (split-NoComma headers))
    ∙ ap join_commas (replace_parts-replace_parts token (split_commas headers))
