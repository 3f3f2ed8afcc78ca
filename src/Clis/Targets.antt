-- ===== src/Clis/Targets.antt =====
-- cli_auth.py: the updaters of `update_cli_tokens`, each with its edit.
use coding_agents_databricks.Base.{String, Bool, List, [], ◌∷◌}
use coding_agents_databricks.Base.Text.{codes}
use coding_agents_databricks.Clis.{Faults, Edit, Home, RefreshResult, update_all}
use coding_agents_databricks.Clis.Documents.{Documents, edit_document, update_claude, update_pi}
use coding_agents_databricks.Clis.Opencode.{update_opencode, update_opencode_provider_headers}
use coding_agents_databricks.Clis.Dotenv.{update_codex, update_gemini}
use coding_agents_databricks.Clis.Hermes.{update_hermes}

-- `updaters`
unfoldable pub updaters : Documents → String → List (String × Edit)
updaters C token =
    ("claude", edit_document C (update_claude token))
    ∷ ("pi", edit_document C (update_pi token))
    ∷ ("codex", update_codex (codes token))
    ∷ ("opencode", edit_document C (update_opencode token))
    ∷ ("opencode_provider", edit_document C (update_opencode_provider_headers token))
    ∷ ("gemini", update_gemini (codes token))
    ∷ ("hermes", update_hermes (codes token))
    ∷ []

-- `update_cli_tokens`, given whether the lock was free in time
unfoldable pub update_cli_tokens :
    Documents → Bool → (String → Faults) → String → Home → RefreshResult × Home
update_cli_tokens C acquired faults token home = update_all acquired faults (updaters C token) home
