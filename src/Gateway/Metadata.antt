-- ===== src/Gateway/Metadata.antt =====
-- gateway_models.py: what the gateway tells of its models (`fetch_foundation_models`). The answer of
-- the request is given: `none` is an error, or a status that is not 200.
use coding_agents_databricks.Base.{
  Bool, true, false, ◌&&◌, Option, none, some, List, [], ◌∷◌, ◌++◌, any, if◌then◌else◌,
}
use coding_agents_databricks.Base.Text.{codes}
use coding_agents_databricks.Base.Parse.{Text, strip, same_text}
use coding_agents_databricks.Json.{
  Value, Items, Fields, null, str, arr, obj, bool, cons, nil, end, get_or,
}
use coding_agents_databricks.Gateway.Names.{canonical}

-- an endpoint; `reasoning` is what its capabilities say of OpenAI reasoning
pub record Entry : Type 0 where
  pub id : Text
  pub api_types : List Text
  pub gateway_v2 : Bool
  pub description : Text
  pub capabilities : Fields
  pub reasoning : Bool

-- the endpoints by their canonical names
abbrev pub Metadata : Type 0
Metadata = List (Text × Entry)

unfoldable pub find_entry : Text → Metadata → Option Entry
find_entry name [] = none
find_entry name ((key, e) ∷ metadata) =
    if same_text key name then some e else find_entry name metadata

-- `metadata.setdefault(name, e)`
unfoldable pub set_default : Text → Entry → Metadata → Metadata
set_default name e [] = (name, e) ∷ []
set_default name e ((key, old) ∷ metadata) =
    let rest = set_default name e metadata in
    if same_text key name then (key, old) ∷ metadata else (key, old) ∷ rest

-- `v is True`
abbrev pub is_true : Value → Bool
is_true (bool true) = true
is_true _ = false

-- `v if isinstance(v, dict) else {}`
abbrev pub dict_or_empty : Value → Fields
dict_or_empty (obj fs) = fs
dict_or_empty _ = end

-- the texts among the members of a list, and none of another value
text_items : Items → List Text
text_items nil = []
text_items (cons (str s) xs) = codes s ∷ text_items xs
text_items (cons _ xs) = text_items xs

unfoldable pub texts : Value → List Text
unfolding text_items
texts (arr xs) = text_items xs
texts _ = []

-- what the entities of an endpoint have told so far
pub record Served : Type 0 where
  pub types : List Text
  pub about : Text
  pub v2 : Bool

-- the first description that is not empty
first_about : Text → Value → Text
first_about [] (str s) = codes s
first_about about _ = about

unfoldable pub serve : Served → Value → Served
unfolding first_about
serve s (obj entity) = elim (get_or null "foundation_model" entity) [
  | obj fm ↦
      if is_true (get_or null "ai_gateway_v2_supported" fm)
      then record {
        types = s.types ++ texts (get_or null "api_types" fm);
        about = first_about s.about (get_or null "description" fm);
        v2 = true;
      }
      else s
  | _ ↦ s
]
serve s _ = s

unfoldable pub serve_all : Served → Items → Served
serve_all s nil = s
serve_all s (cons entity rest) = serve_all (serve s entity) rest

-- an endpoint with its name and its entities
abbrev make_entry : Text → Fields → Served → Entry
make_entry name capabilities s = record {
  id = name;
  api_types = s.types;
  gateway_v2 = s.v2;
  description = s.about;
  capabilities = capabilities;
  reasoning = is_true (get_or null "openai_reasoning" capabilities);
}

unfoldable pub read_endpoint : Value → Metadata → Metadata
read_endpoint (obj endpoint) metadata = elim (get_or null "name" endpoint) [
  | str s ↦ elim (get_or null "served_entities" (dict_or_empty (get_or null "config" endpoint))) [
    | arr entities ↦
        let name = strip (codes s) in
        set_default (canonical name)
          (make_entry name (dict_or_empty (get_or null "capabilities" endpoint))
            (serve_all (record { types = []; about = []; v2 = false }) entities))
          metadata
    | _ ↦ metadata
  ]
  | _ ↦ metadata
]
read_endpoint _ metadata = metadata

unfoldable pub read_endpoints : Items → Metadata → Metadata
read_endpoints nil metadata = metadata
read_endpoints (cons endpoint rest) metadata = read_endpoints rest (read_endpoint endpoint metadata)

-- `fetch_foundation_models`
unfoldable pub fetch_foundation_models : Option Value → Metadata
fetch_foundation_models (some (obj payload)) = elim (get_or null "endpoints" payload) [
  | arr endpoints ↦ read_endpoints endpoints []
  | _ ↦ []
]
fetch_foundation_models _ = []

-- `serves_api_type`
unfoldable pub serves_api_type : Metadata → Text → Text → Bool
serves_api_type metadata model api_type = elim (find_entry (canonical model) metadata) [
  | none ↦ true
  | some e ↦
      e.gateway_v2
      && (elim e.api_types [ [] ↦ true | _ ∷ _ ↦ any (same_text api_type) e.api_types ])
]
