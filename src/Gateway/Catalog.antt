-- ===== src/Gateway/Catalog.antt =====
-- gateway_models.py: `discover_model_catalog`. Of the specs of the open models their ids are modelled,
-- not the context windows, which are read from descriptions through floats.
pub mod Buckets
use coding_agents_databricks.Base.{
  ℕ, Bool, true, false, ◌&&◌, ◌||◌, not, Option, none, some, List, [], ◌∷◌, ◌++◌, map, any, nat_eq,
  if◌then◌else◌, Result, ok, err, ◌>>=◌, String,
}
use coding_agents_databricks.Base.Text.{codes, is_prefix, is_infix}
use coding_agents_databricks.Base.Parse.{Text, same_text, is_digit}
use coding_agents_databricks.Json.{Value}
use coding_agents_databricks.Gateway.Names.{
  after, canonical, newest_first, select, offered_families, family_models,
}
use coding_agents_databricks.Gateway.Metadata.{
  Entry, Metadata, serves_api_type, fetch_foundation_models,
}
use coding_agents_databricks.Gateway.Claude.{ClaudeSpec, anthropic_specs}
use coding_agents_databricks.Gateway.Services.{
  sorted_set, list_model_services, configured_model_ids,
}

abbrev pub native_api_types : List Text
native_api_types =
    codes "anthropic/v1/messages"
    ∷ codes "openai/v1/responses"
    ∷ codes "gemini/v1/generateContent"
    ∷ []

abbrev pub non_chat_markers : List Text
non_chat_markers = codes "embedding" ∷ codes "embed" ∷ codes "rerank" ∷ []

abbrev pub oss_static_families : List Text
oss_static_families = codes "kimi-" ∷ codes "glm-" ∷ []

-- the names of OSS_OUTPUT_LIMITS
abbrev pub limited_models : List Text
limited_models = map codes (
    "glm-5-2" ∷ "inkling" ∷ "kimi-k2-7-code" ∷ "gpt-oss-120b" ∷ "gpt-oss-20b" ∷ "qwen35-122b-a10b"
    ∷ "qwen3-next-80b-a3b-instruct" ∷ "llama-4-maverick" ∷ "meta-llama-3-1-8b-instruct"
    ∷ "meta-llama-3-3-70b-instruct" ∷ "gemma-3-12b" ∷ [])

-- Is one of the parts in the text?
abbrev pub has_any : List Text → Text → Bool
has_any parts text = any (λ part. is_infix part text) parts

-- what follows `gpt-` in `^gpt-\d(?:-|$)`
gpt_version : Text → Bool
gpt_version [] = false
gpt_version (c ∷ []) = is_digit c
gpt_version (c ∷ d ∷ cs) = is_digit c && nat_eq d b'-'

unfoldable pub is_gpt : Text → Bool
unfolding gpt_version
is_gpt name = elim (after (codes "gpt-") name) [ none ↦ false | some rest ↦ gpt_version rest ]

-- Does `discover_oss_specs` leave the endpoint in?
unfoldable pub is_oss : Text → Entry → Bool
is_oss name e =
    not (
      is_prefix (codes "claude-") name
      || is_prefix (codes "gemini-") name
      || is_gpt name
      || has_any non_chat_markers name)
    && (e.gateway_v2
        && any (same_text (codes "mlflow/v1/chat/completions")) e.api_types
        && not (any (λ t. any (same_text t) native_api_types) e.api_types))

-- the ids of `discover_oss_specs`, in the order of the metadata
unfoldable pub oss_ids : Metadata → List Text
oss_ids [] = []
oss_ids ((name, e) ∷ metadata) =
    let ids = oss_ids metadata in if is_oss name e then e.id ∷ ids else ids

-- the endpoints that the gateway serves, under the names of requests
unfoldable pub gateway_ids : Metadata → List Text
gateway_ids [] = []
gateway_ids ((name, e) ∷ metadata) =
    let ids = gateway_ids metadata in
    if e.gateway_v2 && is_prefix (codes "databricks-") e.id && not (has_any non_chat_markers name)
    then (codes "system.ai." ++ name) ∷ ids
    else ids

-- an id with a spec, its own or one of the static ones
unfoldable pub has_spec : List Text → Text → Bool
has_spec specs model =
    any (λ id. same_text (canonical id) (canonical model)) specs
    || (has_any oss_static_families (canonical model)
        || any (same_text (canonical model)) limited_models)

unfoldable pub claude_models : List Text → List Text → List Text
claude_models [] models = []
claude_models (family ∷ families) models =
    family_models family models ++ claude_models families models

pub record Catalog : Type 0 where
  pub anthropic : List Text
  pub anthropic_specs : List ClaudeSpec
  pub openai : List Text
  pub gemini : List Text
  pub oss : List Text

-- the buckets of the ids
unfoldable pub bucket : Text → Metadata → List Text → Catalog
bucket enable_fable metadata ids =
    let claude =
      claude_models (offered_families enable_fable)
        (select (λ m. serves_api_type metadata m (codes "anthropic/v1/messages")) ids) in
    record {
      anthropic = claude;
      anthropic_specs = anthropic_specs claude metadata;
      openai = newest_first (
          select
            (λ m.
              is_infix (codes "gpt-") m
              && (not (is_infix (codes "gpt-oss") m)
                  && serves_api_type metadata m (codes "openai/v1/responses")))
            ids);
      gemini = newest_first (
          select
            (λ m.
              is_infix (codes "gemini-") m
              && serves_api_type metadata m (codes "gemini/v1/generateContent"))
            ids);
      oss = select (has_spec (oss_ids metadata)) ids;
    }

-- `discover_model_catalog`, given the answers for the pages of services and for the endpoints, the
-- configured list, and ENABLE_FABLE_MODELS
unfoldable pub discover_model_catalog :
    (Option Value → Option Value) → Option Value → Option Value → Text → Result Catalog
discover_model_catalog get_page endpoints configured enable_fable =
    list_model_services get_page >>= λ listed.
    let metadata = fetch_foundation_models endpoints in
    ok (
      bucket enable_fable metadata
        (sorted_set (listed ++ (gateway_ids metadata ++ configured_model_ids configured))))
