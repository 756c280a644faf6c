-- ===== src/Companion/Context.antt =====
-- src/orchestrator/context_client.py: conversations, dashboards and the governed context of a
-- prompt.
use unison_orchestrator.Prelude.{
  ℕ, String, ◌&&◌, Option, none, some, List, [], ◌∷◌, if◌then◌else◌, nat_eq, is_empty, texts_eq,
  map, Result, ok, err,
}
use unison_orchestrator.Prelude.Json.{
  Json, null, arr, str, obj, Items, nil, cons, Fields, end, field, get, truthy, dict, to_items,
}
use unison_orchestrator.Companion.Types.{
  Request, conversation_get, conversation_post, kv_get as kv_get_request,
  dashboard_get as dashboard_get_request, dashboard_put as dashboard_put_request, Reply, Act, ◌>>=◌,
  return, send, value_or, py_or, text_for, body_dict,
}

-- `messages if isinstance(messages, list) else []`
abbrev pub list_or_empty : Option Json → Items
list_or_empty (some (arr l)) = l
list_or_empty _ = nil

module _ (answer : List Request → Reply) where
  -- `kv_get`
  unfoldable pub kv_get : List String → Act Reply
  kv_get keys = send answer (kv_get_request (arr (to_items (map str keys))))

  -- `store_conversation_turn`
  unfoldable pub store_conversation_turn : Json → Json → Items → Fields → Json → Act Reply
  store_conversation_turn person session messages response summary = send answer (
      conversation_post person session (
        dict (
          ("person_id", person)
          ∷ ("session_id", session)
          ∷ ("messages", arr messages)
          ∷ ("response", obj response)
          ∷ ("summary", summary)
          ∷ [])))

  -- `load_conversation_messages`
  unfoldable pub load_conversation_messages : Json → Json → Act Items
  load_conversation_messages person session = do
    reply ← send answer (conversation_get person session)
    return (elim (body_dict reply) [ some body ↦ list_or_empty (get "messages" body) | none ↦ nil ])

  -- `dashboard_get`
  unfoldable pub dashboard_get : Json → Act Json
  dashboard_get person = do
    reply ← send answer (dashboard_get_request person)
    return (elim (body_dict reply) [
      | some body ↦ py_or (value_or null (get "dashboard" body)) (obj end)
      | none ↦ obj end
    ])

  -- `dashboard_put`
  unfoldable pub dashboard_put : Json → Fields → Act Reply
  dashboard_put person dashboard = send answer (dashboard_put_request person dashboard)

pub record GovernedContextSnapshot : Type 0 where
  pub records : Items
  pub privacy : Fields

pub data ContextError : Type 0 where
  context_choice_required : ContextError
  -- `RuntimeError`, with its text
  runtime_error : String → ContextError
  -- a value that cannot be gone through
  type_error : ContextError

-- The dicts of a list.
unfoldable pub only_dicts : Items → Items
only_dicts nil = nil
only_dicts (cons (obj d) rest) = cons (obj d) (only_dicts rest)
only_dicts (cons _ rest) = only_dicts rest

unfoldable pub keys_of : Fields → List String
keys_of end = []
keys_of (field k v d) = k ∷ keys_of d

unfoldable pub letters : String → List String
letters String.[] = []
letters (String.◌∷◌ c s) = String.◌∷◌ c String.[] ∷ letters s

module _ (shown : Json → String) where
  unfoldable pub texts_for : Items → List String
  texts_for nil = []
  texts_for (cons v rest) = text_for shown v ∷ texts_for rest

  -- `tuple(str(item) for item in v or ())`
  unfoldable pub spaces_in : Json → Result ContextError (List String)
  unfolding texts_for keys_of letters
  spaces_in (arr l) = ok (texts_for l)
  spaces_in (obj d) = ok (keys_of d)
  spaces_in (str s) = ok (letters s)
  spaces_in v = if truthy v then err type_error else ok []

  -- `governed_prompt_context`, where `post` asks the context service.
  unfoldable pub governed_prompt_context :
      (Fields → Reply)
      → String
      → List String
      → String
      → String
      → Result ContextError GovernedContextSnapshot
  unfolding spaces_in only_dicts
  governed_prompt_context post person space_ids query purpose =
      if is_empty space_ids
      then err context_choice_required
      else let reply = post (
          dict (
            ("person_id", str person)
            ∷ ("space_ids", arr (to_items (map str space_ids)))
            ∷ ("query", str query)
            ∷ ("purpose", str purpose)
            ∷ [])) in
        if reply.success && nat_eq reply.status 200
        then elim (reply.body) [
          | obj body ↦ elim (get "records" body) [
            | some (arr records) ↦ elim (get "privacy" body) [
              | some (obj privacy) ↦
                  elim (spaces_in (value_or null (get "active_space_ids" privacy))) [
                    | err e ↦ err e
                    | ok returned ↦
                        if texts_eq returned space_ids
                        then ok record { records = only_dicts records; privacy = privacy }
                        else err (
                            runtime_error
                              "governed context response changed the requested boundary")
                  ]
              | _ ↦ err (runtime_error "governed context response malformed")
            ]
            | _ ↦ err (runtime_error "governed context response malformed")
          ]
          | _ ↦ refused reply.status
        ]
        else refused reply.status
    where
      refused : ℕ → Result ContextError GovernedContextSnapshot
      refused status =
          if nat_eq status 409
          then err context_choice_required
          else err (runtime_error "governed context unavailable")
