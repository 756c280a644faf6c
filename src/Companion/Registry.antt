-- ===== src/Companion/Registry.antt =====
-- src/orchestrator/companion.py: `ToolRegistry`. A tool's name that is no text counts as unusable.
use unison_orchestrator.Prelude.{
  String, not, Option, none, some, List, [], ◌∷◌, if◌then◌else◌, ◌==◌, sorted, texts_eq,
}
use unison_orchestrator.Prelude.Json.{
  Json, null, arr, str, obj, Items, nil, cons, Fields, end, get, truthy, dict,
}
use unison_orchestrator.Prelude.Dict.{Dict, insert, contains}
use unison_orchestrator.Companion.Types.{
  ToolDescriptor, Request, capabilities_get, capabilities_post, mcp_discovery, Reply, unusable,
  State, Config, Act, ◌>>=◌, ◌>>◌, return, raise, lift, read, change, send, as_dict, as_list,
  as_loop, value_or, py_or, body_dict,
}

abbrev pub new_tool : String → Json → Json → Json → Json → ToolDescriptor
new_tool name description parameters source mcp_server = record {
  name = name;
  description = description;
  parameters = parameters;
  source = source;
  scope = none;
  mcp_server = mcp_server;
}

-- `as_llm_tool`
abbrev as_llm_tool : ToolDescriptor → Json
as_llm_tool t = obj (
    dict (
      ("type", str "function")
      ∷ ("name", str (t.name))
      ∷ ("description", t.description)
      ∷ ("parameters", t.parameters)
      ∷ []))

-- `list_llm_tools`
unfoldable pub list_llm_tools : Dict ToolDescriptor → Items
list_llm_tools [] = nil
list_llm_tools ((_, t) ∷ tools) = cons (as_llm_tool t) (list_llm_tools tools)

abbrev pub keep_tool : ToolDescriptor → State → State
keep_tool t s = record s { tools = insert t.name t s.tools }

-- `register_skill_tool`
unfoldable pub register_skill_tool : String → Json → Json → State → State
register_skill_tool name description parameters s =
    if contains name s.tools
    then s
    else keep_tool (new_tool name description parameters (str "skill") null) s

abbrev no_parameters : Json
no_parameters = obj (dict (("type", str "object") ∷ ("properties", obj end) ∷ []))

-- Keep a tool under its name, if it has one.
unfoldable pub keep_named : Json → (String → ToolDescriptor) → Act (Unit {0})
keep_named (str name) t = if name == "" then return tt else change (keep_tool (t name))
keep_named v t = if truthy v then raise unusable else return tt

-- `register_mcp_tools`
unfoldable pub register_mcp_tools : Json → Items → Act (Unit {0})
register_mcp_tools server_id nil = return tt
register_mcp_tools server_id (cons (obj tool) rest) = do
  keep_named (value_or null (get "name" tool)) λ name.
      new_tool name (value_or (str "") (get "description" tool))
        (value_or no_parameters (get "parameters" tool)) (str "mcp") server_id
  register_mcp_tools server_id rest
register_mcp_tools server_id (cons _ rest) = register_mcp_tools server_id rest

-- The loop of `refresh_from_context_graph`.
unfoldable pub keep_capabilities : Items → Act (Unit {0})
keep_capabilities nil = return tt
keep_capabilities (cons (obj cap) rest) = do
  keep_named (py_or (value_or null (get "name" cap)) (value_or null (get "id" cap))) λ name.
      new_tool name (value_or (str "") (get "description" cap))
        (py_or (value_or null (get "parameters" cap))
          (py_or (value_or null (get "schema" cap)) no_parameters))
        (value_or (str "mcp") (get "source" cap))
        (py_or (value_or null (get "server_id" cap)) (value_or null (get "mcp_server" cap)))
  keep_capabilities rest
keep_capabilities (cons _ rest) = keep_capabilities rest

-- The capabilities of an answer that counts.
unfoldable pub keep_answered : Option Fields → Act (Unit {0})
unfolding keep_capabilities
keep_answered none = return tt
keep_answered (some body) = do
  items ← lift (
      as_loop (
        py_or (value_or null (get "capabilities" body))
          (py_or (value_or null (get "items" body)) (arr nil))))
  keep_capabilities items

-- The loop of `refresh_from_mcp`.
unfoldable pub keep_servers : Items → Act (Unit {0})
unfolding register_mcp_tools
keep_servers nil = return tt
keep_servers (cons v rest) = do
  server ← lift (as_dict v)
  let server_id = py_or (value_or null (get "id" server)) (value_or null (get "name" server))
  tools ← lift (as_loop (py_or (value_or null (get "tools" server)) (arr nil)))
  register_mcp_tools (py_or server_id (str "mcp")) tools
  keep_servers rest

-- `data if isinstance(data, list) else data.get("servers", [])`
abbrev pub servers_of : Json → Json
servers_of (arr l) = arr l
servers_of (obj d) = value_or (arr nil) (get "servers" d)
servers_of _ = arr nil

-- What is published of a tool.
abbrev manifest_of : ToolDescriptor → Json
manifest_of t = obj (
    dict (
      ("name", str (t.name))
      ∷ ("description", t.description)
      ∷ ("parameters", t.parameters)
      ∷ ("source", t.source)
      ∷ ("mcp_server", t.mcp_server)
      ∷ (
        "scope",
        str (elim (t.scope) [ some s ↦ if s == "" then "global" else s | none ↦ "global" ]),
      )
      ∷ []))

unfoldable pub tool_names : Dict ToolDescriptor → List String
tool_names [] = []
tool_names ((_, t) ∷ tools) = t.name ∷ tool_names tools

unfoldable pub manifest : Dict ToolDescriptor → Items
manifest [] = nil
manifest ((_, t) ∷ tools) = cons (manifest_of t) (manifest tools)

abbrev pub published : List String → State → State
published names s = record s { last_published = names }

module _ (answer : List Request → Reply) (config : Config) where
  -- `refresh_from_context_graph`
  unfoldable pub refresh_from_context_graph : Act (Unit {0})
  unfolding keep_answered
  refresh_from_context_graph = do
    reply ← send answer capabilities_get
    keep_answered (body_dict reply)

  -- `refresh_from_mcp`
  unfoldable pub refresh_from_mcp : Act (Unit {0})
  unfolding keep_servers
  refresh_from_mcp = if not config.mcp_url then return tt else (do
    reply ← send answer mcp_discovery
    if not reply.success
        then return tt
        else (do servers ← lift (as_list (servers_of reply.body)); keep_servers servers))

  -- `publish_to_context_graph`
  unfoldable pub publish_to_context_graph : Act (Unit {0})
  unfolding tool_names manifest
  publish_to_context_graph = do
    s ← read
    let names = sorted (tool_names s.tools)
    if texts_eq names s.last_published then return tt else (do
      reply ← send answer (capabilities_post (manifest s.tools))
      if reply.success then change (published names) else return tt)

  -- The three calls that a session and each turn begin with.
  unfoldable pub refresh : Act (Unit {0})
  unfolding refresh_from_context_graph refresh_from_mcp publish_to_context_graph
  refresh = do refresh_from_mcp; refresh_from_context_graph; publish_to_context_graph
