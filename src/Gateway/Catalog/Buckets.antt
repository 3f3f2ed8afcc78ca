-- ===== src/Gateway/Catalog/Buckets.antt =====
-- Which models the buckets of a catalog hold, whatever their order.
use coding_agents_databricks.Base.{◌≡◌, Bool, ◌&&◌, not, List, any}
use coding_agents_databricks.Base.Text.{codes, is_infix}
use coding_agents_databricks.Base.Parse.{Text, same_text}
use coding_agents_databricks.Gateway.Names.{offered_families, family_name}
use coding_agents_databricks.Gateway.Metadata.{Metadata, serves_api_type}
use coding_agents_databricks.Gateway.Catalog.{Catalog, has_spec, oss_ids}

-- `model in models`
abbrev pub offers : Text → List Text → Bool
offers model models = any (same_text model) models

-- Is the id one of the families'?
abbrev pub in_families : List Text → Text → Bool
in_families families m = any (λ family. is_infix (family_name family) m) families

-- What a picker of each dialect is to offer, of the models that are known.
abbrev pub for_anthropic : Text → Metadata → Text → Bool
for_anthropic enable_fable metadata m =
    serves_api_type metadata m (codes "anthropic/v1/messages")
    && in_families (offered_families enable_fable) m

abbrev pub for_openai : Metadata → Text → Bool
for_openai metadata m =
    is_infix (codes "gpt-") m
    && (not (is_infix (codes "gpt-oss") m)
        && serves_api_type metadata m (codes "openai/v1/responses"))

abbrev pub for_gemini : Metadata → Text → Bool
for_gemini metadata m =
    is_infix (codes "gemini-") m && serves_api_type metadata m (codes "gemini/v1/generateContent")

-- The buckets hold these models of `ids`.
abbrev pub HoldsExactly : Text → Metadata → List Text → Catalog → Type 0
HoldsExactly enable_fable metadata ids c =
    (m : Text)
    → (offers m c.anthropic ≡ (offers m ids && for_anthropic enable_fable metadata m))
      × (offers m c.openai ≡ (offers m ids && for_openai metadata m))
      × (offers m c.gemini ≡ (offers m ids && for_gemini metadata m))
      × (offers m c.oss ≡ (offers m ids && has_spec (oss_ids metadata) m))
