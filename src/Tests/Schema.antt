-- ===== src/Tests/Schema.antt =====
-- Tool schemas and the request's fields: content_filter_proxy.py.
use coding_agents_databricks.Base.{◌≡◌, refl, none, some, ok}
use coding_agents_databricks.Base.Int.{pos}
use coding_agents_databricks.Base.Text.{lower_contains}
use coding_agents_databricks.Json.{
  Items, Fields, null, int, str, arr, obj, nil, cons, end, field, get, get_or, put, remove, as_dict,
  truthy,
}
use coding_agents_databricks.Proxy.Schema.{
  unsupported, is_integer_schema, drop_bounds, strip, strip_object,
}
use coding_agents_databricks.Proxy.Schema.Strip.{IsClean, strip-IsClean}
use coding_agents_databricks.Proxy.Schema.Lost.{strip_loses_parameter}
use coding_agents_databricks.Proxy.Request.{
  clean_tool_list, clean_tools, clean_tool, clean_function, remove_all, model_name,
  sanitize_tool_schemas, strip_unsupported_sampling_params,
}
use coding_agents_databricks.Proxy.Request.Tools.{
  HaveCleanParameters, sanitize_tool_schemas-HaveCleanParameters,
}

-- the schema of a search tool, whose parameter is named `pattern`
abbrev search_parameters : Fields
search_parameters = field "pattern" (obj (field "type" (str "string") end)) end

abbrev search_schema : Fields
search_schema = field "type" (str "object") (
    field "properties" (obj search_parameters)
      (field "required" (arr (cons (str "pattern") nil)) end))

abbrev count_schema : Fields
count_schema =
    field "type" (str "integer")
      (field "minimum" (int (pos 1)) (field "maxItems" (int (pos 3)) (field "title" (str "n") end)))

strip-count_schema :
    strip (obj count_schema) ≡ obj (field "type" (str "integer") (field "title" (str "n") end))
unfolding strip unsupported drop_bounds is_integer_schema remove get
strip-count_schema = refl

strip-IsClean_example : IsClean (strip (obj count_schema))
strip-IsClean_example = strip-IsClean (obj count_schema)

abbrev plain_schema : Fields
plain_schema = field "type" (str "string") end

strip_loses_parameter_example :
    (get "properties" (strip_object search_schema) ≡ some (obj (strip_object search_parameters)))
    × (get "pattern" (strip_object search_parameters) ≡ none)
    × (get "required" (strip_object search_schema) ≡ some (arr (cons (str "pattern") nil)))
unfolding unsupported get
strip_loses_parameter_example =
    strip_loses_parameter "pattern" search_schema search_parameters (cons (str "pattern") nil) refl
      refl refl tt

-- a request with one tool and fields that are removed
abbrev request : Fields
request = field "model" (str "databricks-GPT-5") (
    field "stream_options" null (
      field "reasoning_effort" (str "low") (
        field "tools"
          (arr (
            cons (obj (field "function" (obj (field "parameters" (obj count_schema) end)) end))
              nil))
          end)))

abbrev clean_tool_items : Items
clean_tool_items =
    cons
      (obj (
        field "function"
          (obj (
            field "parameters" (obj (field "type" (str "integer") (field "title" (str "n") end)))
              end))
          end))
      nil

abbrev clean_request : Fields
clean_request = field "model" (str "databricks-GPT-5") (field "tools" (arr clean_tool_items) end)

sanitize-request : sanitize_tool_schemas request ≡ ok clean_request
unfolding sanitize_tool_schemas clean_tool_list clean_tools clean_tool clean_function model_name
    remove_all strip unsupported drop_bounds is_integer_schema remove get put as_dict truthy get_or
    lower_contains
sanitize-request = refl

sanitize_tool_schemas-HaveCleanParameters_example : HaveCleanParameters clean_tool_items
unfolding get
sanitize_tool_schemas-HaveCleanParameters_example =
    sanitize_tool_schemas-HaveCleanParameters request clean_request clean_tool_items
      sanitize-request refl

abbrev warm_request : Fields
warm_request = field "model" (str "global.anthropic.claude-opus-4-8") (field "temperature" null end)

abbrev cool_request : Fields
cool_request = field "model" (str "global.anthropic.claude-opus-4-8") end

strip-warm_request : strip_unsupported_sampling_params warm_request ≡ ok cool_request
unfolding strip_unsupported_sampling_params model_name remove_all remove get get_or truthy
    lower_contains
strip-warm_request = refl
