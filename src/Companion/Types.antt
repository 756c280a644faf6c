-- ===== src/Companion/Types.antt =====
-- src/orchestrator/companion.py: the companion's state, the calls that it makes of others, and the
-- steps that make them. An answer depends on all calls so far, the newest first. A call that
-- raises in httpx has an answer that is not ok, with the exception's text for its body. A person's
-- id that is no text stands under its text.
use unison_orchestrator.Prelude.{
  ℕ, String, Bool, Option, none, some, List, ◌∷◌, if◌then◌else◌, Result, ok, err, ◌==◌,
}
use unison_orchestrator.Prelude.Json.{Json, arr, str, obj, Items, nil, Fields, end}
use unison_orchestrator.Prelude.Dict.{Dict}
pub use unison_orchestrator.Prelude.Json.{value_or, py_or, text_for}

pub record ToolDescriptor : Type 0 where
  pub name : String
  pub description : Json
  pub parameters : Json
  pub source : Json
  pub scope : Option String
  pub mcp_server : Json

-- A turn that `_remember_turn` keeps.
pub record Turn : Type 0 where
  pub messages : Items
  pub response : Fields
  pub event_id : Json

-- A call of a service. The comment says which.
pub data Request : Type 0 where
  -- `evaluate_capability`, of a tool, a person and an event
  policy_check : String → Json → Json → Request
  -- `clients.inference.post("/inference/request", ...)`
  inference : Fields → Request
  -- `clients.context.get("/capabilities")` and `.post`
  capabilities_get : Request
  capabilities_post : Items → Request
  -- `/conversation/{person_id}/{session_id}`
  conversation_get : Json → Json → Request
  conversation_post : Json → Json → Fields → Request
  -- `/kv/get` and `/kv/set`
  kv_get : Json → Request
  kv_set : String → Json → Request
  -- `/dashboard/{person_id}`
  dashboard_get : Json → Request
  dashboard_put : Json → Fields → Request
  -- `clients.storage.put("/kv/{key}", ...)`
  storage_put : Json → Json → Request
  -- the MCP registry, and a tool of the server at a base URL
  mcp_discovery : Request
  mcp_call : Json → String → Json → Request
  -- the update service
  update_call : String → Fields → Request
  -- the prompt engine of a person
  engine_propose : Json → String → Items → String → String → Request
  engine_apply : Json → Json → Bool → Request
  engine_rollback : Json → String → Request
  -- the renderer, the speech service and the context graph
  experience : Fields → Request
  speech : Fields → Request
  graph_update : Fields → Request
  graph_trace : Fields → Request
  graph_search : Fields → Request
  -- The rest are calls of the skills: `/profile/{person_id}`,
  profile_get : Json → Request
  profile_post : Json → Json → Request
  -- the capability resolver, with an intent or a capability,
  capability_resolve : Json → Request
  capability_run : Json → Fields → Request
  -- a person's grants, an action, the telemetry of an action (with the service it goes to),
  grants_get : Json → Request
  actuate : Fields → Request
  actuation_telemetry : String → Fields → Request
  -- and the inference service's `/ready`
  inference_ready : Request

pub record Reply : Type 0 where
  pub success : Bool
  pub status : ℕ
  pub body : Json

pub data CompanionError : Type 0 where
  -- A value is of a type that the code cannot use there.
  unusable : CompanionError
  -- A prompt engine raised.
  engine_failed : Json → CompanionError
  -- `ValueError` and `RuntimeError`, with their text
  value_error : String → CompanionError
  runtime_error : String → CompanionError

pub record State : Type 0 where
  pub tools : Dict ToolDescriptor
  pub last_published : List String
  -- By person and session.
  pub memory : Dict (List Turn)
  -- The persons with an engine.
  pub engines : Dict Bool
  -- The proposals of a person, by their id.
  pub proposals : Dict (Dict Json)
  -- The calls made, the newest first.
  pub log : List Request

-- What the environment of the process says.
pub record Config : Type 0 where
  pub boundaries : Bool
  pub mcp_url : Bool
  pub renderer_url : Bool
  pub speech_url : Bool
  pub graph_url : Bool
  pub max_tokens : ℕ

-- What is used of Python's library.
pub record Python : Type 0 where
  -- `str(v)`, for a value that is no text
  pub shown : Json → String
  -- `json.loads`
  pub loads : String → Option Json
  -- `dict(v)`, for a value that is no dict
  pub dict_from : Json → Option Fields
  -- `list(v)`, for a value that is no list
  pub items_from : Json → Option Items
  -- `int(v)`
  pub int_from : Json → Option Json
  -- the text of the exception that an unusable value raises
  pub complaint : String
  -- `==`
  pub same : Json → Json → Bool
  -- whether a time lies more than some days back
  pub stale : Json → Json → Bool
  -- the time some days back, as it is written
  pub since : Json → Json
  -- `time.time()`
  pub now : Json
  -- `uuid4`, for an event and a session without an id
  pub new_event : String
  pub new_session : String
  -- `compile_injected_system_prompt`, of a person, a session and an intent
  pub system_prompt : Json → Json → String → String
  -- `uuid4`, for the next step of a workflow with so many
  pub new_id : ℕ → String

-- A step of the companion, which may raise; what was done before it raised stays done.
abbrev pub Act {ℓ} : Type ℓ → Type ℓ
Act A = State → Result CompanionError A × State

module _ {ℓ κ} {A : Type ℓ} {B : Type κ} where
  unfoldable pub next :
      (A → Act B) → Result CompanionError A × State → Result CompanionError B × State
  next f (ok a, s) = f a s
  next f (err e, s) = (err e, s)

  infixl 5 ◌>>=◌
  unfoldable pub ◌>>=◌ : Act A → (A → Act B) → Act B
  unfolding next
  ◌>>=◌ m f = λ s. next f (m s)

infixl 5 ◌>>◌
unfoldable pub ◌>>◌ {ℓ} : {B : Type ℓ} → Act (Unit {0}) → Act B → Act B
unfolding ◌>>=◌
m >> k = m >>= λ _. k

unfoldable pub return {ℓ} : {A : Type ℓ} → A → Act A
return a s = (ok a, s)

unfoldable pub raise {ℓ} : {A : Type ℓ} → CompanionError → Act A
raise e s = (err e, s)

unfoldable pub lift {ℓ} : {A : Type ℓ} → Result CompanionError A → Act A
lift r s = (r, s)

unfoldable pub read : Act State
read s = (ok s, s)

unfoldable pub change : (State → State) → Act (Unit {0})
change f s = (ok tt, f s)

-- Make a call, and have its answer.
unfoldable pub send : (List Request → Reply) → Request → Act Reply
send answer q s = (ok (answer (q ∷ s.log)), record s { log = q ∷ s.log })

-- `v.get`, on a value that may be no dict
abbrev pub as_dict : Json → Result CompanionError Fields
as_dict (obj d) = ok d
as_dict _ = err unusable

-- A list to go through.
abbrev pub as_list : Json → Result CompanionError Items
as_list (arr l) = ok l
as_list (obj end) = ok nil
as_list (str s) = if s == "" then ok nil else err unusable
as_list _ = err unusable

-- A list to go through by a loop that passes over what is no dict, as the keys of a dict are.
abbrev pub as_loop : Json → Result CompanionError Items
as_loop (arr l) = ok l
as_loop (obj _) = ok nil
as_loop (str _) = ok nil
as_loop _ = err unusable

-- The dict of an answer that counts.
abbrev pub body_dict : Reply → Option Fields
body_dict r = if r.success then elim (r.body) [ obj d ↦ some d | _ ↦ none ] else none
