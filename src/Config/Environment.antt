-- ===== src/Config/Environment.antt =====
-- The environments that leave one source of credentials.
use coding_agents_databricks.Base.{String, Bool, List, any, ◌==◌, string_has_eq}
use coding_agents_databricks.Base.Dict.{Dict}

abbrev pub among : List String → String → Bool
among keys k = any (λ key. key == k) keys
