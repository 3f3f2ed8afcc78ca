-- ===== src/Tests/Config.antt =====
-- The configuration file and the environments: utils.py and pat_rotator.py.
use coding_agents_databricks.Base.{◌≡◌, refl, some, [], ◌∷◌, ◌++◌, string_has_eq}
use coding_agents_databricks.Base.Text.{codes, is_prefix, is_space}
use coding_agents_databricks.Base.Parse.{Text, strip, lstrip, same_text}
use coding_agents_databricks.Config.{
  universal, put_first, readlines, concat, is_header, enter, keep, wrap, read_sections,
}

-- a profile that the rotation does not own
abbrev profile : Text
profile = codes "[omnigents-host]" ++ 10 ∷ codes "client_id = x"

-- A comment above the first section is kept by the first rewrite, behind DEFAULT.
read_sections-comment :
    read_sections (some (codes "# note" ++ 10 ∷ codes "[DEFAULT]" ++ 10 ∷ codes "host = h"))
    ≡ 10 ∷ codes "# note" ++ 10 ∷ []
unfolding read_sections universal readlines put_first keep enter is_header strip lstrip is_space
    is_prefix same_text concat wrap
read_sections-comment = refl
