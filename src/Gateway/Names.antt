-- ===== src/Gateway/Names.antt =====
-- gateway_models.py: the ids of models, their versions and families, and the order of a picker.
pub mod Order
use coding_agents_databricks.Base.{
  ℕ, ◌+◌, ◌-◌, ◌*◌, Bool, true, false, ◌&&◌, ◌||◌, Option, none, some, List, [], ◌∷◌, ◌++◌, map,
  any, ltb, nat_eq, if◌then◌else◌,
}
use mathlib.Core.Option
use coding_agents_databricks.Base.Text.{codes, lower_code, is_infix}
use coding_agents_databricks.Base.Parse.{Text, strip, same_text, is_digit}

-- `text[len(prefix):]` if `text.startswith(prefix)`
unfoldable pub after : Text → Text → Option Text
after [] text = some text
after (p ∷ ps) [] = none
after (p ∷ ps) (c ∷ cs) = elim (nat_eq p c) [ true ↦ after ps cs | false ↦ none ]

-- the text without the prefix, or all of it
unfoldable pub without : Text → Text → Text
without prefix text = elim (after prefix text) [ some rest ↦ rest | none ↦ text ]

-- what follows the last slash, if there is one
unfoldable pub after_slash : Text → Option Text
after_slash [] = none
after_slash (c ∷ cs) = elim (after_slash cs) [
  | some tail ↦ some tail
  | none ↦ if nat_eq c b'/' then some cs else none
]

-- `_canonical`
unfoldable pub canonical : Text → Text
canonical model_id =
    let last : Text = elim (after_slash model_id) [ some tail ↦ tail | none ↦ model_id ] in
    without (codes "databricks-") (without (codes "system.ai.") (map lower_code (strip last)))

-- `\d+(?:-\d+)*` up to the end of the text, as its numbers; `n` is the number being read, and
-- `has_digit` tells that it has a digit.
unfoldable pub version_parts : ℕ → Bool → Text → Option (List ℕ)
version_parts n has_digit [] = if has_digit then some (n ∷ []) else none
version_parts n has_digit (c ∷ cs) = elim (is_digit c) [
  | true ↦ version_parts (n * 10 + (c - b'0')) true cs
  | false ↦ elim (nat_eq c b'-' && has_digit) [
    | true ↦ Option.map (λ parts. n ∷ parts) (version_parts 0 false cs)
    | false ↦ none
  ]
]

-- `_VERSION_TAIL_RE.search`, which takes the first place where the pattern fits
unfoldable pub version_tail : Text → Option (List ℕ)
version_tail [] = none
version_tail (c ∷ cs) = elim (version_parts 0 false (c ∷ cs)) [
  | some parts ↦ some parts
  | none ↦ version_tail cs
]

-- `version_key`
unfoldable pub version_key : Text → List ℕ
version_key model = elim (version_tail (canonical model)) [ some parts ↦ parts | none ↦ [] ]

-- `a <= b` of tuples of numbers, and of texts
unfoldable pub lex_leb : List ℕ → List ℕ → Bool
lex_leb [] b = true
lex_leb (x ∷ a) [] = false
lex_leb (x ∷ a) (y ∷ b) = ltb x y || nat_eq x y && lex_leb a b

-- `(version_key(m), m) <= (version_key(n), n)`
unfoldable pub key_leb : Text → Text → Bool
key_leb m n =
    if same_text (version_key m) (version_key n)
    then lex_leb m n
    else lex_leb (version_key m) (version_key n)

unfoldable pub insert_newest : Text → List Text → List Text
insert_newest m [] = m ∷ []
insert_newest m (n ∷ models) =
    let rest = insert_newest m models in if key_leb n m then m ∷ n ∷ models else n ∷ rest

-- `_newest_first`; models with the same key are the same text
unfoldable pub newest_first : List Text → List Text
newest_first [] = []
newest_first (m ∷ models) = insert_newest m (newest_first models)

-- `[m for m in models if test(m)]`
unfoldable pub select : (Text → Bool) → List Text → List Text
select test [] = []
select test (m ∷ models) = let rest = select test models in if test m then m ∷ rest else rest

-- `DEFAULT_FAMILY_ORDER` and `OPT_IN_FAMILIES`
abbrev pub default_family_order : List Text
default_family_order = codes "sonnet" ∷ codes "opus" ∷ codes "haiku" ∷ []

abbrev pub opt_in_families : List Text
opt_in_families = codes "fable" ∷ []

-- `offered_families`, given ENABLE_FABLE_MODELS or its default
unfoldable pub offered_families : Text → List Text
offered_families enable_fable =
    if any (same_text (map lower_code (strip enable_fable)))
      (codes "true" ∷ codes "1" ∷ codes "yes" ∷ [])
    then default_family_order ++ opt_in_families
    else default_family_order

-- `f"claude-{family}-"`
abbrev pub family_name : Text → Text
family_name family = codes "claude-" ++ family ++ codes "-"

-- `family_models`
unfoldable pub family_models : Text → List Text → List Text
family_models family models = newest_first (select (is_infix (family_name family)) models)

abbrev pub first_or : Text → List Text → Text
first_or fallback [] = fallback
first_or fallback (m ∷ models) = m

-- `family_model`
unfoldable pub family_model : Text → List Text → Text → Text
family_model family models fallback = first_or fallback (family_models family models)

-- the first model of the first family that has one; an id is not empty, and so is true
unfoldable pub first_of_families : List Text → List Text → Option Text
first_of_families [] models = none
first_of_families (family ∷ families) models =
    elim (select (is_infix (family_name family)) models) [
      | [] ↦ first_of_families families models
      | m ∷ _ ↦ some m
    ]

-- `preferred_model`
unfoldable pub preferred_model : Text → Text → List Text → Text
preferred_model enable_fable requested models =
    if any (same_text requested) models
    then requested
    else elim (first_of_families (offered_families enable_fable) models) [
      | some m ↦ m
      | none ↦ first_or requested models
    ]
