-- ===== src/Lib.antt =====
-- Coding agents on Databricks Apps: a web application that runs terminal sessions with coding
-- agents, and a proxy between the agents and the model gateway. The agents' requests pass the proxy,
-- which repairs what the gateway would refuse. The web application lets its owner in, starts a
-- session for a browser if the capacity controller admits it, buffers the output until the browser
-- fetches it, and removes sessions that are no longer polled. The first access token comes from its
-- owner or from a script and is exchanged at once; a thread replaces it again and again, and writes it
-- into the configuration file that others share and into the files of the agents. A broker hands tokens of the application to local
-- processes. A catalog of the models that the gateway serves decides what the pickers of the agents
-- offer.
--
-- The files, with the code that they are about:
--   Base and its children: shared names, Python's numbers, texts and dicts as the code uses them
--   Json: JSON values with Python's `==`, truth and `get`; the fields of an object are a list in
--     which the first field of a name counts
--   Proxy/Schema: `strip_unsupported_schema_keys` of content_filter_proxy.py
--   Proxy/Request: `sanitize_tool_schemas` and `strip_unsupported_sampling_params` of the same file
--   Proxy/Messages: `sanitize_messages`, `_sanitize_single_pass` and the two extractions of ids
--   Proxy/Response: `remap_tool_call`, `_flatten_content_blocks` and `fix_response_data`
--   Proxy/Stream: `SSEProcessor`, with the calls of a stream in Proxy/Stream/Calls, and the loop of
--     `do_POST` over the lines of a stream
--   Capacity/Cgroup: the readings of resource_capacity.py, with the files as a function from paths
--   Capacity/Controller: `BrowserCapacityController` of resource_capacity.py
--   Sessions: the table of sessions of app.py and `create_session`, as its two locked sections with
--     what other requests do between them; Sessions/Slots has a step for each locked section, and its
--     runs are the interleavings of any number of requests
--   Sessions/Polling: `emit_output`, `get_output`, `get_output_batch`, `heartbeat`,
--     `attach_session` and `cleanup_stale_sessions` of app.py
--   Sessions/Requests: `send_input`, `resize_terminal`, `close_session` and the WebSocket handlers
--   Auth: `check_authorization`, `_check_ws_authorization` and `authorize_request` of app.py
--   Rotation: `PATRotator` of pat_rotator.py
--   Clis: `update_cli_tokens` of cli_auth.py: Clis/Documents and Clis/Opencode are the updaters of JSON
--     files, Clis/Dotenv and Clis/Hermes those of texts by lines, Clis/Refresh what a refresh comes to
--   Broker: the request handler and the shutdown of sp_token_broker.py, with its client in
--     Broker/Client; Broker/Shutdown has an event
--     for each atomic part of a request, of a worker and of a shutdown
--   Gateway/Names: ids, versions and families of models, of gateway_models.py
--   Gateway/Metadata, Gateway/Claude, Gateway/Services: the endpoints of the gateway, the policy for
--     the Claude models, and the listing of services, of the same file
--   Gateway/Catalog: `discover_model_catalog` of the same file
--   Bootstrap: `_bootstrap_pat`, `configure_pat` and `inject_pat` of app.py
--   Owner: `_owner_from_apps_api`, `get_token_owner` and the later attempts, of app.py
--   Config: the sections of ~/.databrickscfg and the shapings of the environment, of utils.py, with
--     the rewrite of the file in pat_rotator.py
--   Tests: runs at concrete inputs
--
-- How the code is represented. A function that may raise returns a Result with the kind of
-- exception. A JSON number is an integer or a mantissa with a power of two; there is no NaN.
-- `lower` and `int` know the ASCII letters and digits. `urlsplit` refuses every host in
-- brackets, as its uses do. The text form of JSON, `json.loads` and
-- `json.dumps`, is the record Codec, of which nothing is assumed, and for the files of the CLIs the
-- record Documents, of which a theorem says what it assumes. The floats of the controller are a
-- record of operations, with the laws of an order that the code relies on. Times are whole ticks.
-- Logging is left out but for what it may raise. The `while` of `sanitize_messages` is given the
-- five passes that the code allows, the paging of `list_model_services` its twenty requests, and the
-- digits of a port as many steps as the port, which is enough; every other loop
-- follows a list.
--
-- Not modelled: the proxy's HTTP server but for its loop over the lines of a stream; processes,
-- PTYs and threads; the locks themselves, of which each locked section is one step; the requests to
-- the gateway and the numbers in the specs of open models; the environment of a terminal, the
-- helper that picks a token, the setup of the agents, telemetry, scripts and the front end.
pub mod Base
pub mod Json
pub mod Proxy
pub mod Capacity
pub mod Sessions
pub mod Rotation
pub mod Auth
pub mod Broker
pub mod Clis
pub mod Gateway
pub mod Config
pub mod Bootstrap
pub mod Owner
mod Tests
