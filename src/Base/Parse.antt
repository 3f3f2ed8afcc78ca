-- ===== src/Base/Parse.antt =====
-- What the source uses of Python to read numbers and fields out of a text, on its code points:
-- `str.strip`, `str.split`, `str.splitlines` and `int(text, 10)`. Of the digits that `int` takes,
-- the ASCII ones are modelled.
use Prim.Native.Nat.{ℕ, zero, suc, ◌+◌, ◌-◌, ◌*◌}
use mathlib.Core.Path.{◌≡◌, refl}
use native.Mathlib.Omega.{arith}
use mathlib.Core.Bool.{Bool, true, false, ◌&&◌, ◌||◌}
use mathlib.Core.Option
use mathlib.Core.Option.{Option, none, some}
use mathlib.Core.List.{List, [], ◌∷◌, reverse}
use coding_agents_databricks.Base.Tests.{leb, nat_eq, if◌then◌else◌}
use coding_agents_databricks.Base.Int.{ℤ, pos, negsuc}
use coding_agents_databricks.Base.Text.{is_space}

abbrev pub Text : Type 0
Text = List ℕ

unfoldable pub lstrip : Text → Text
unfolding is_space
lstrip [] = []
lstrip (c ∷ cs) = let rest = lstrip cs in if is_space c then rest else c ∷ cs

unfoldable pub strip : Text → Text
unfolding lstrip
strip text = reverse (lstrip (reverse (lstrip text)))

-- The pieces between separators that are not empty; `piece` is the open one, reversed.
unfoldable pub pieces : (ℕ → Bool) → Text → Text → List Text
pieces sep [] [] = []
pieces sep (c ∷ piece) [] = reverse (c ∷ piece) ∷ []
pieces sep [] (c ∷ cs) = pieces sep (if sep c then [] else c ∷ []) cs
pieces sep (d ∷ piece) (c ∷ cs) = elim (sep c) [
  | true ↦ reverse (d ∷ piece) ∷ pieces sep [] cs
  | false ↦ pieces sep (c ∷ d ∷ piece) cs
]

-- `text.split()`
unfoldable pub split : Text → List Text
unfolding pieces is_space
split text = pieces is_space [] text

unfoldable pub is_line_break : ℕ → Bool
is_line_break c =
    leb 10 c && leb c 13 || leb 28 c && leb c 30 || nat_eq c 133 || nat_eq c 8232 || nat_eq c 8233

-- `text.splitlines()`, without the empty lines
unfoldable pub splitlines : Text → List Text
unfolding pieces is_line_break
splitlines text = pieces is_line_break [] text

unfoldable pub is_digit : ℕ → Bool
is_digit c = leb b'0' c && leb c b'9'

-- Digits with single underscores between them; `after` tells that a digit stands just before.
unfoldable pub digits : ℕ → Bool → Text → Option ℕ
unfolding is_digit
digits n after [] = if after then some n else none
digits n after (c ∷ cs) = elim (is_digit c) [
  | true ↦ digits (n * 10 + (c - b'0')) true cs
  | false ↦ elim (nat_eq c b'_' && after) [ true ↦ digits n false cs | false ↦ none ]
]

negate : ℕ → ℤ
negate zero = pos 0
negate (suc n) = negsuc n

signed : Text → Option ℤ
signed [] = none
signed (c ∷ cs) =
    if nat_eq c b'-'
    then Option.map negate (digits 0 false cs)
    else if nat_eq c b'+'
    then Option.map pos (digits 0 false cs)
    else Option.map pos (digits 0 false (c ∷ cs))

-- `int(text, 10)`, and `none` for a `ValueError`
unfoldable pub parse_int : Text → Option ℤ
unfolding signed negate strip digits
parse_int text = signed (strip text)

unfoldable pub same_text : Text → Text → Bool
same_text [] [] = true
same_text (a ∷ s) (b ∷ t) = nat_eq a b && same_text s t
same_text _ _ = false

pub same_text_eq : (s t : Text) → same_text s t ≡ true → s ≡ t
unfolding same_text
same_text_eq [] [] h = refl
same_text_eq [] (b ∷ t) h = absurd (ground (arith, h))
same_text_eq (a ∷ s) [] h = absurd (ground (arith, h))
same_text_eq (a ∷ s) (b ∷ t) h = ground (arith, h, same_text_eq s t)
