-- ===== src/Gateway/Services.antt =====
-- gateway_models.py: `list_model_services` and `configured_model_ids`.
pub mod Listing
use coding_agents_databricks.Base.{
  ℕ, zero, suc, Bool, true, false, not, Option, none, some, List, [], ◌∷◌, ◌++◌, if◌then◌else◌,
  Result, ok, err, ◌>>=◌, String, type_error,
}
use coding_agents_databricks.Base.Text.{codes, is_prefix}
use coding_agents_databricks.Base.Parse.{Text, strip, same_text}
use coding_agents_databricks.Json.{
  Value, Items, Fields, null, str, arr, obj, cons, nil, get_or, truthy, member,
}
use coding_agents_databricks.Gateway.Names.{without, lex_leb}

-- `sorted(set(ids))`, one id at a time
unfoldable pub insert_id : Text → List Text → List Text
insert_id id [] = id ∷ []
insert_id id (other ∷ ids) =
    let rest = insert_id id ids in
    if same_text id other
    then other ∷ ids
    else if lex_leb id other
    then id ∷ other ∷ ids
    else other ∷ rest

unfoldable pub sorted_set : List Text → List Text
sorted_set [] = []
sorted_set (id ∷ ids) = insert_id id (sorted_set ids)

abbrev pub system_prefix : Text
system_prefix = codes "system.ai."

-- the name of a service, if it is one of the system's
unfoldable pub named_id : Value → List Text
named_id (str s) =
    let name = without (codes "model-services/") (strip (codes s)) in
    if is_prefix system_prefix name then name ∷ [] else []
named_id _ = []

unfoldable pub service_id : Value → List Text
service_id (obj service) = named_id (get_or null "name" service)
service_id _ = []

unfoldable pub service_ids : Items → List Text
service_ids nil = []
service_ids (cons service rest) = service_id service ++ service_ids rest

-- the services of a page and the token of the next one, unless the loop ends with the answer
unfoldable pub read_page : Option Value → Option (Items × Value)
read_page (some (obj payload)) = elim (get_or (arr nil) "model_services" payload) [
  | arr services ↦ some (services, get_or null "next_page_token" payload)
  | _ ↦ none
]
read_page _ = none

module _ (get_json : Option Value → Option Value) where
  -- The loop over the pages, where `get_json` is the answer to a request for the page of a token: at
  -- most `pages` requests are left, and `seen` are the tokens that have come.
  unfoldable pub list_pages : ℕ → Option Value → List Value → Result (List Text)
  list_pages zero page_token seen = ok []
  list_pages (suc pages) page_token seen = elim (read_page (get_json page_token)) [
    | none ↦ ok []
    | some (services, token) ↦ elim (truthy token) [
      | false ↦ ok (service_ids services)
      | true ↦ member token seen >>= λ again. elim again [
        | true ↦ ok (service_ids services)
        | false ↦
            list_pages pages (some token) (token ∷ seen) >>= λ ids. ok (service_ids services ++ ids)
      ]
    ]
  ]

  -- `list_model_services`, with the default of `max_pages`
  unfoldable pub list_model_services : Result (List Text)
  list_model_services = list_pages 20 none [] >>= λ ids. ok (sorted_set ids)

-- the ids of a configured list
unfoldable pub configured_ids : Items → List Text
configured_ids nil = []
configured_ids (cons (str s) rest) =
    let ids = configured_ids rest in
    if is_prefix system_prefix (strip (codes s)) then strip (codes s) ∷ ids else ids
configured_ids (cons _ rest) = configured_ids rest

-- `configured_model_ids`, given what `json.loads` makes of CODA_GATEWAY_MODEL_CATALOG: nothing of an
-- empty text or of one that is no JSON
unfoldable pub configured_model_ids : Option Value → List Text
configured_model_ids (some (arr values)) = sorted_set (configured_ids values)
configured_model_ids _ = []
