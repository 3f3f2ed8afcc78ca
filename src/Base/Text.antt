-- ===== src/Base/Text.antt =====
-- What the source uses of Python's `str`, on the code points of a text.
use Prim.Native.Nat.{ℕ, ◌+◌}
use Prim.Native.Char.{code}
use Prim.Native.String.{String}
use mathlib.Core.Bool.{Bool, true, false, ◌&&◌, ◌||◌}
use mathlib.Core.List.{List, [], ◌∷◌, map}
use coding_agents_databricks.Base.Tests.{leb, nat_eq, if◌then◌else◌}

abbrev pub codes : String → List ℕ
codes String.[] = []
codes (String.◌∷◌ c s) = code c ∷ codes s

-- `str.isspace` of one character: the characters that `str.strip` removes.
unfoldable pub is_space : ℕ → Bool
is_space c =
    leb 9 c && leb c 13
    || leb 28 c && leb c 32
    || nat_eq c 133
    || nat_eq c 160
    || nat_eq c 5760
    || leb 8192 c && leb c 8202
    || nat_eq c 8232
    || nat_eq c 8233
    || nat_eq c 8239
    || nat_eq c 8287
    || nat_eq c 12288

all_space : List ℕ → Bool
all_space [] = true
all_space (c ∷ cs) = is_space c && all_space cs

-- `s.strip() == ""`
unfoldable pub is_blank : String → Bool
unfolding is_space all_space
is_blank s = all_space (codes s)

-- `str.lower` on ASCII letters.
abbrev pub lower_code : ℕ → ℕ
lower_code c = if leb b'A' c && leb c b'Z' then c + 32 else c

unfoldable pub lower : String → List ℕ
lower s = map lower_code (codes s)

unfoldable pub is_prefix : List ℕ → List ℕ → Bool
is_prefix [] ys = true
is_prefix (x ∷ xs) [] = false
is_prefix (x ∷ xs) (y ∷ ys) = nat_eq x y && is_prefix xs ys

-- `needle in text`
unfoldable pub is_infix : List ℕ → List ℕ → Bool
unfolding is_prefix
is_infix xs [] = is_prefix xs []
is_infix xs (y ∷ ys) = is_prefix xs (y ∷ ys) || is_infix xs ys

unfoldable pub contains : String → String → Bool
unfolding is_infix
contains needle text = is_infix (codes needle) (codes text)

-- `needle in text.lower()`
unfoldable pub lower_contains : String → String → Bool
unfolding is_infix lower
lower_contains needle text = is_infix (codes needle) (lower text)
