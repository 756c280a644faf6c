-- ===== src/Companion/Dispatch.antt =====
-- src/orchestrator/companion.py: `_execute_single_tool` with the update service and the MCP
-- servers, and `_execute_tool_calls`.
use Prim.Native.String
use unison_orchestrator.Prelude.{
  first_chars, String, Bool, false, not, Option, none, some, List, [], ◌∷◌, if◌then◌else◌, leb,
  lower, contains_text, starts_with, ◌==◌, Result, ok, err,
}
use unison_orchestrator.Prelude.Json.{
  Json, null, int, arr, str, obj, Items, nil, cons, Fields, end, get, truthy, dict, is_text,
  dict_or_empty,
}
use unison_orchestrator.Prelude.Dict.{lookup}
use unison_orchestrator.Companion.Types.{
  ToolDescriptor, Request, mcp_discovery, mcp_call, update_call, Reply, CompanionError, unusable,
  Config, Python, Act, ◌>>=◌, return, raise, lift, read, send, as_dict, as_list, value_or, py_or,
  text_for,
}
use unison_orchestrator.Companion.Registry.{servers_of}
use unison_orchestrator.Companion.Recall.{set_default}
use unison_orchestrator.Companion.Executor.{
  failure, base_of, has_tool, policy_allows_tool, propose_prompt_update, apply_prompt_update,
  rollback_prompt_update, context_get, storage_put_tool, workflow_recall, workflow_design,
}

-- The base URL of the first server with the tool.
unfoldable pub server_with : String → Items → Result CompanionError (Option Json)
unfolding has_tool
server_with name nil = ok none
server_with name (cons (obj server) rest) =
    let later = server_with name rest in
    let base = base_of server in
    elim (as_list (py_or (value_or null (get "tools" server)) (arr nil))) [
      | err e ↦ if truthy base then err e else later
      | ok tools ↦ if not (truthy base) then later else elim (has_tool name tools) [
        | err e ↦ err e
        | ok found ↦ if found then ok (some base) else later
      ]
    ]
server_with name (cons _ rest) = err unusable

-- `call.get("function")`, if it is a dict
abbrev function_of : Fields → Fields
function_of call = dict_or_empty (get "function" call)

-- The name of the tool that is called.
unfoldable pub call_name : Fields → Json
call_name call =
    py_or (value_or null (get "name" (function_of call))) (value_or null (get "name" call))

-- What a tool call leaves: the message for the model, and the note of the activity.
pub record ToolOutcome : Type 0 where
  pub message : Json
  pub activity : Json

-- The tool comes from an MCP server.
abbrev pub is_mcp : Option ToolDescriptor → Bool
is_mcp (some t) = is_text "mcp" (some t.source)
is_mcp none = false

module _ (python : Python) (answer : List Request → Reply) (config : Config) where
  -- `dict(arguments or {})`
  abbrev arguments_dict : Json → Result CompanionError Fields
  arguments_dict (obj d) = ok d
  arguments_dict v =
      if truthy v then elim (python.dict_from v) [ some d ↦ ok d | none ↦ err unusable ] else ok end

  unfoldable pub update_tool : String → Json → Json → Act Json
  unfolding first_chars
  update_tool name arguments person = do
    d ← lift (arguments_dict arguments)
    reply ← send answer (update_call name (set_default "person_id" person d))
    if not reply.success
        then return (
            failure (String.◌++◌ "update service unavailable: " (text_for python.shown reply.body)))
        else if leb 400 reply.status
        then return (
            obj (
              dict (
                (
                  "error",
                  str (
                      String.◌++◌ "update service error ("
                        (String.◌++◌ (python.shown (int reply.status)) ")")),
                )
                ∷ ("detail", str (first_chars 500 (text_for python.shown reply.body)))
                ∷ [])))
        else return (reply.body)

  -- The call of the tool at the server that has it.
  unfoldable pub call_mcp_tool : String → Json → Result CompanionError (Option Json) → Act Json
  call_mcp_tool name arguments (err e) =
      return (failure (String.◌++◌ "mcp discovery failed: " python.complaint))
  call_mcp_tool name arguments (ok none) =
      return (failure (String.◌++◌ "mcp tool " (String.◌++◌ name " not found")))
  call_mcp_tool name arguments (ok (some base)) = do
    reply ← send answer (mcp_call base name arguments)
    if reply.success
        then return (reply.body)
        else return
            (failure (String.◌++◌ "mcp tool call failed: " (text_for python.shown reply.body)))

  -- The servers of the registry's answer that have the tool.
  abbrev server_in : String → Json → Result CompanionError (Option Json)
  server_in name body = elim (as_list (servers_of body)) [
    | err e ↦ err e
    | ok servers ↦ server_with name servers
  ]

  -- `_execute_mcp_tool`
  unfoldable pub execute_mcp_tool : String → Json → Act Json
  unfolding server_with call_mcp_tool
  execute_mcp_tool name arguments =
      if not config.mcp_url then return (failure "no MCP registry configured") else (do
        reply ← send answer mcp_discovery
        if reply.success
            then call_mcp_tool name arguments (server_in name reply.body)
            else return
                (failure (String.◌++◌ "mcp discovery failed: " (text_for python.shown reply.body))))

  -- A tool of the registry, where it comes from an MCP server.
  unfoldable pub registry_tool : String → Json → Act Json
  unfolding execute_mcp_tool
  registry_tool name arguments = do
    s ← read
    if is_mcp (lookup name s.tools)
        then execute_mcp_tool name arguments
        else return (failure (String.◌++◌ "tool " (String.◌++◌ name " not supported yet")))

  -- A tool with arguments in a dict.
  unfoldable pub on_dict : (Fields → Act Json) → Json → Act Json
  on_dict f arguments = do d ← lift (as_dict arguments); f d

  -- `_execute_single_tool`, for a name
  unfoldable pub named_tool : String → Json → Json → Act Json
  unfolding on_dict propose_prompt_update apply_prompt_update rollback_prompt_update context_get
      storage_put_tool workflow_recall workflow_design update_tool registry_tool
  named_tool name arguments person =
      if name == "propose_prompt_update"
      then on_dict (λ d. propose_prompt_update python answer config d person) arguments
      else if name == "apply_prompt_update"
      then on_dict (λ d. apply_prompt_update python answer config d person) arguments
      else if name == "rollback_prompt_update"
      then on_dict (λ d. rollback_prompt_update python answer config d person) arguments
      else if name == "context.get"
      then on_dict (λ d. context_get python answer config d) arguments
      else if name == "storage.put"
      then on_dict (λ d. storage_put_tool python answer config d) arguments
      else if name == "workflow.recall"
      then on_dict (λ d. workflow_recall python answer config d person) arguments
      else if name == "workflow.design"
      then on_dict (λ d. workflow_design python answer config d person) arguments
      else if starts_with "updates." name
      then update_tool name arguments person
      else registry_tool name arguments

  -- `_execute_single_tool`
  unfoldable pub execute_single_tool : Json → Json → Json → Act Json
  unfolding named_tool
  execute_single_tool (str name) arguments person =
      if name == "" then return (failure "missing tool name") else named_tool name arguments person
  execute_single_tool v arguments person =
      if truthy v then raise unusable else return (failure "missing tool name")

  -- The arguments of a call, parsed where they are a text.
  abbrev parsed : Json → Json
  parsed (str s) = elim (python.loads s) [ some v ↦ v | none ↦ obj end ]
  parsed v = v

  abbrev outcome_of : Json → Json → Json → ToolOutcome
  outcome_of id name result =
      let text = text_for python.shown result in
      record {
        message = obj (
            dict (
              ("role", str "tool")
              ∷ ("tool_call_id", id)
              ∷ ("name", name)
              ∷ ("content", str text)
              ∷ []));
        activity = obj (
            dict (
              ("tool", name)
              ∷ ("status", str (if contains_text "error" (lower text) then "error" else "ok"))
              ∷ ("result", result)
              ∷ []));
      }

  -- The arguments of a call.
  unfoldable pub call_arguments : Fields → Json
  call_arguments call =
      parsed (py_or (value_or null (get "arguments" (function_of call))) (str "{}"))

  -- A call of a tool: the policy is asked first.
  unfoldable pub execute_tool_call : Fields → Json → Json → Act ToolOutcome
  unfolding policy_allows_tool execute_single_tool call_name call_arguments
  execute_tool_call call person event_id = do
    let name = call_name call
    allowed ←
        policy_allows_tool python answer config (text_for python.shown (py_or name (str "unknown")))
          person event_id
    if not allowed
        then return (outcome_of (value_or null (get "id" call)) name (failure "policy denied"))
        else (do
          result ← execute_single_tool name (call_arguments call) person
          return (outcome_of (value_or null (get "id" call)) name result))

  -- `_execute_tool_calls`
  unfoldable pub execute_tool_calls : Items → Json → Json → Act (List ToolOutcome)
  unfolding execute_tool_call
  execute_tool_calls nil person event_id = return []
  execute_tool_calls (cons (obj call) rest) person event_id = do
    outcome ← execute_tool_call call person event_id
    later ← execute_tool_calls rest person event_id
    return (outcome ∷ later)
  execute_tool_calls (cons _ rest) person event_id = execute_tool_calls rest person event_id
