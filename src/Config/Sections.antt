-- ===== src/Config/Sections.antt =====
-- The sections that are not rewritten, over any number of writes.
pub mod Lines
use mathlib.Core.Path.{subst}
use mathlib.Core.List.{reverse, reverse_aux}
use coding_agents_databricks.Base.{
  ℕ, ◌≡◌, true, false, Option, none, List, [], ◌∷◌, ◌++◌, All, nat_eq, Bool-cases, if◌then◌else◌,
  ◌⊎◌,
}
use coding_agents_databricks.Base.Text.{codes, is_space}
use coding_agents_databricks.Base.Parse.{Text, strip, same_text}
use coding_agents_databricks.Config.{readlines, is_header, Write, write_fails}

-- The lines of sections of which none is DEFAULT.
abbrev pub IsKept : Text → Type 0
IsKept line = same_text (strip line) (codes "[DEFAULT]") ≡ false

-- The first line is the header of a section.
abbrev pub Opens : List Text → Type 0
Opens [] = ⊥
Opens (line ∷ lines) = is_header (strip line) ≡ true

-- Sections other than DEFAULT, from the first bracket to the last character that is no space.
pub record IsSections (t : Text) : Type 0 where
  pub first : Text
  pub last : ℕ
  pub others : Text
  pub begins : t ≡ b'[' ∷ first
  pub ends : reverse t ≡ last ∷ others
  pub last_is_no_space : is_space last ≡ false
  pub no_return : All (λ c. nat_eq c 13 ≡ false) t
  pub opens : Opens (readlines (t ++ 10 ∷ []))
  pub kept : All IsKept (readlines (t ++ 10 ∷ []))

abbrev header_line : Text
header_line = codes "[DEFAULT]" ++ 10 ∷ []

abbrev host_line : Text → Text
host_line host = codes "host = " ++ (host ++ 10 ∷ [])

abbrev token_line : Text → Text
token_line token = codes "token = " ++ (token ++ 10 ∷ [])

-- no sections, or some
abbrev pub Kept : Text → Type 0
Kept t = (t ≡ []) ⊎ IsSections t

-- the token of the last write that replaced the file
abbrev pub last_written : Text → List (Write × Text) → Text
last_written token [] = token
last_written token ((write_fails, other) ∷ writes) = last_written token writes
last_written token ((_, other) ∷ writes) = last_written other writes
