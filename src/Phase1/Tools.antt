-- ===== src/Phase1/Tools.antt =====
-- phase1/tool_runtime.py: the execution of a tool call. The actuation service, `json.dumps` and
-- Python's `str` of a value that is no text are arguments; texts are ASCII where they are lowered.
use unison_orchestrator.Prelude.{
  ℕ, String, Bool, true, false, not, ◌||◌, Option, none, some, [], ◌∷◌, if◌then◌else◌, nat_eq, ◌==◌,
  elem, any, strip, lower, contains_text,
}
use unison_orchestrator.Prelude.Json.{
  Json, null, bool, int, str, arr, obj, nil, Fields, end, get, dict_or_empty, dict, is_text,
  text_of, truthy,
}
use unison_orchestrator.Phase1.Memory.{text_or_empty, Reply, is_success, or_null}

pub record ToolExecutionResult : Type 0 where
  pub tool_call_id : String
  pub ok : Bool
  pub result : Fields
  pub error : Option String

abbrev pub refused : String → String → Fields → ToolExecutionResult
refused call_id error result = record {
  tool_call_id = call_id;
  ok = false;
  result = result;
  error = some error;
}

abbrev text_or_null : Option String → Json
text_or_null (some s) = str s
text_or_null none = null

-- The body as a dict.
abbrev body_obj : Json → Fields
body_obj (obj b) = b
body_obj v = dict (("body", v) ∷ [])

-- `detail` where it is a dict or a text.
abbrev detail_of : Option Json → Json
detail_of (some (obj d)) = obj d
detail_of (some (str s)) = str s
detail_of _ = null

abbrev body_or_empty : Json → Json
body_or_empty body = if truthy body then body else obj end

-- `action == "open_url"` and a URL that is not blank.
abbrev pub url_of : Fields → Option String
url_of args =
    if is_text "open_url" (get "action" args)
    then elim (text_of (get "url" args)) [
      | some u ↦ if strip u == "" then none else some u
      | none ↦ none
    ]
    else none

-- The request to the actuation service.
abbrev pub browse_payload : String → Option String → String → String → Option String → Fields
browse_payload call_id trace_id person url session_id = dict (
    ("action_id", str call_id)
    ∷ ("trace_id", text_or_null trace_id)
    ∷ ("person_id", str person)
    ∷ ("url", str (strip url))
    ∷ ("session_id", text_or_null session_id)
    ∷ ("risk_level", str "low")
    ∷ ("actions", arr nil)
    ∷ [])

-- A status among those that count as unavailable.
abbrev unavailable_status : ℕ → Bool
unavailable_status n = any (nat_eq n) (404 ∷ 500 ∷ 501 ∷ 502 ∷ 503 ∷ 504 ∷ [])

module _ {S : Type 0} (py_str : Json → String) (dumps : Json → String)
    (post : S → Fields → Reply × S) where
  -- `json.dumps(detail)` of a dict, or the text.
  abbrev detail_text : Json → String
  detail_text (obj d) = dumps (obj d)
  detail_text (str s) = s
  detail_text _ = ""

  abbrev is_unavailable : Bool → ℕ → Json → Bool
  is_unavailable ok status body =
      not ok
      || unavailable_status status
      || contains_text "vdi_unavailable" (lower (py_str (obj (body_obj body))))
      || contains_text "vdi_unavailable"
          (lower (detail_text (detail_of (get "detail" (body_obj body)))))

  -- The answer to a browse.
  unfoldable pub answer : String → String → Reply → ToolExecutionResult
  answer call_id name (ok, status, body) =
      if is_success ok status
      then record {
        tool_call_id = call_id;
        ok = true;
        result =
            dict (
              ("tool_name", str name) ∷ ("status", int status) ∷ ("body", body_or_empty body) ∷ []);
        error = none;
      }
      else refused call_id (if is_unavailable ok status body then "not_available" else "vdi_failed")
          (dict (
            ("tool_name", str name)
            ∷ ("status", int status)
            ∷ ("body", obj (body_obj body))
            ∷ ("detail", detail_of (get "detail" (body_obj body)))
            ∷ []))

  -- The branch of `vdi.use_computer`.
  unfoldable pub use_computer :
      String
      → Fields
      → Option String
      → Option String
      → Option String
      → Option S
      → ToolExecutionResult × Option S
  unfolding answer
  use_computer call_id args person trace_id session_id none = (
    refused call_id "not_available" (
        dict (
          ("tool_name", str "vdi.use_computer")
          ∷ ("detail", str "actuation service not configured")
          ∷ [])),
    none,
  )
  use_computer call_id args none trace_id session_id (some s) = (
    refused call_id "missing_person_id" (dict (("tool_name", str "vdi.use_computer") ∷ [])),
    some s,
  )
  use_computer call_id args (some p) trace_id session_id (some s) =
      if p == ""
      then (
        refused call_id "missing_person_id" (dict (("tool_name", str "vdi.use_computer") ∷ [])),
        some s,
      )
      else elim (url_of args) [
        | none ↦ (
          refused call_id "invalid_args" (
              dict (
                ("tool_name", str "vdi.use_computer")
                ∷ (
                  "expected",
                  obj (dict (("action", str "open_url") ∷ ("url", str "https://...") ∷ [])),
                )
                ∷ ("got", obj args)
                ∷ [])),
          some s,
        )
        | some url ↦
            let (reply, t) = post s (browse_payload call_id trace_id p url session_id) in
            (answer call_id "vdi.use_computer" reply, some t)
      ]

  -- `Phase1ToolRuntime.execute`. The last argument is the actuation service, if there is one.
  unfoldable pub execute :
      Fields
      → Option String
      → Option String
      → Option String
      → Option S
      → ToolExecutionResult × Option S
  unfolding use_computer
  execute call person trace_id session_id service =
      let call_id = text_or_empty py_str (get "tool_call_id" call) in
      let name = text_or_empty py_str (get "tool_name" call) in
      let auth = dict_or_empty (get "authorization" call) in
      if not (is_text "allow" (get "policy_decision" auth))
      then (
        refused call_id "not_authorized" (
            dict (
              ("tool_name", str name)
              ∷ ("policy_decision", or_null (get "policy_decision" auth))
              ∷ ("reason", text_or_null (text_of (get "reason" auth)))
              ∷ [])),
        service,
      )
      else if name == "noop"
      then (
        record {
          tool_call_id = call_id;
          ok = true;
          result = dict (("ok", bool true) ∷ []);
          error = none;
        },
        service,
      )
      else if name == "vdi.use_computer"
      then use_computer call_id (dict_or_empty (get "args" call)) person trace_id session_id service
      else if elem name
          ("system.open_url" ∷ "system.search" ∷ "context.query" ∷ "context.upsert" ∷ [])
      then (
        refused call_id "not_available"
            (dict (("tool_name", str name) ∷ ("detail", str "tool not implemented") ∷ [])),
        service,
      )
      else (refused call_id "unknown_tool" (dict (("tool_name", str name) ∷ [])), service)
