-- ===== src/Tests/Gateway.antt =====
-- Models of the gateway: gateway_models.py.
use coding_agents_databricks.Base.{◌≡◌, refl, true, Option, some, List, [], ◌∷◌, All, ok, arith}
use coding_agents_databricks.Base.Text.{codes, is_infix}
use coding_agents_databricks.Base.Parse.{Text, strip, same_text, is_digit}
use coding_agents_databricks.Json.{
  Value, Items, Fields, str, arr, obj, bool, cons, nil, end, field, get, get_or, hashable,
}
use coding_agents_databricks.Gateway.Names.{
  after, without, after_slash, canonical, version_parts, version_tail, version_key, lex_leb,
  key_leb, insert_newest, newest_first, select, family_models, offered_families, preferred_model,
  first_of_families,
}
use coding_agents_databricks.Gateway.Claude.{
  claude_model_capabilities, claude_version, number, leading, minor, opus_policy, claude_fallback,
}
use coding_agents_databricks.Gateway.Services.{read_page, list_model_services}
use coding_agents_databricks.Gateway.Services.Listing.{
  Ascending, IsSystem, list_model_services_returns,
}
use coding_agents_databricks.Gateway.Catalog.{Catalog}

abbrev served : List Text
served =
    codes "system.ai.claude-opus-4-8"
    ∷ codes "system.ai.claude-sonnet-5"
    ∷ codes "system.ai.claude-opus-4-10"
    ∷ []

family_models-opus :
    family_models (codes "opus") served
    ≡ codes "system.ai.claude-opus-4-10" ∷ codes "system.ai.claude-opus-4-8" ∷ []
unfolding family_models newest_first insert_newest select key_leb version_key version_tail
    version_parts canonical after_slash without after strip lex_leb same_text is_digit is_infix
family_models-opus = refl

preferred_model-sonnet :
    preferred_model (codes "false") (codes "gone") served ≡ codes "system.ai.claude-sonnet-5"
unfolding preferred_model first_of_families offered_families select is_infix strip same_text
preferred_model-sonnet = refl

claude_model_capabilities-opus :
    claude_model_capabilities (codes "databricks-claude-opus-4-5") ≡ claude_fallback
unfolding claude_model_capabilities claude_version number leading minor opus_policy canonical
    after_slash without after strip is_digit
claude_model_capabilities-opus = refl

-- A gateway that answers every request with the same page and the same token.
abbrev page : Fields
page =
    field "model_services"
      (arr (
        cons (obj (field "name" (str "model-services/system.ai.gpt-5") end))
          (cons (obj (field "name" (str "other.model") end)) nil)))
      (field "next_page_token" (str "more") end)

abbrev endless : Option Value → Option Value
endless page_token = some (obj page)

endless_has_tokens :
    (page_token : Option Value) (services : Items) (token : Value)
    → read_page (endless page_token) ≡ some (services, token)
    → hashable token ≡ true
unfolding read_page get_or get hashable
endless_has_tokens page_token services (str s) h = refl
endless_has_tokens page_token services (arr xs) h = absurd (ground (arith, h))
endless_has_tokens page_token services (obj fs) h = absurd (ground (arith, h))
endless_has_tokens page_token services _ h = refl

list_model_services_returns_example :
    (ids : List Text) × (list_model_services endless ≡ ok ids) × Ascending ids × All IsSystem ids
list_model_services_returns_example = list_model_services_returns endless endless_has_tokens

-- an endpoint that takes requests of the OpenAI dialect alone
abbrev endpoint : Value
endpoint = obj (
    field "name" (str "databricks-gpt-5") (
      field "config"
        (obj (
          field "served_entities"
            (arr (
              cons
                (obj (
                  field "foundation_model"
                    (obj (
                      field "ai_gateway_v2_supported" (bool true)
                        (field "api_types" (arr (cons (str "openai/v1/responses") nil)) end)))
                    end))
                nil))
            end))
        end))

abbrev listing : Option Value
listing = some (obj (field "endpoints" (arr (cons endpoint nil)) end))
