-- ===== src/Skills/Comms.antt =====
-- src/orchestrator/skills.py: communications, which the capability resolver carries out, and their
-- record in the context graph.
use unison_orchestrator.Prelude.{
  String, Bool, true, not, Option, none, some, List, [], ◌∷◌, ◌++◌, if◌then◌else◌, Result, ok, err,
}
use unison_orchestrator.Prelude.Json.{
  Json, null, bool, str, arr, obj, Items, nil, cons, Fields, get, truthy, dict, py_or, value_or,
  text_for, dict_or_empty,
}
use unison_orchestrator.Companion.Types.{
  Request, capability_resolve, capability_run, graph_update, graph_trace, Reply, CompanionError,
  unusable, runtime_error, Python, Act, ◌>>=◌, ◌>>◌, return, raise, lift, send, body_dict,
}
use unison_orchestrator.Companion.Context.{list_or_empty, keys_of, letters}
use unison_orchestrator.Skills.Types.{
  SkillConfig, payload_or_empty, name_of, refusal, attempt, error_with, text_of_error,
}

-- The texts among some values.
unfoldable pub texts_among : Items → List String
texts_among nil = []
texts_among (cons (str s) rest) = s ∷ texts_among rest
texts_among (cons _ rest) = texts_among rest

-- The texts that `for t in v or []` gives.
unfoldable pub looped_texts : Json → Result CompanionError (List String)
unfolding texts_among keys_of letters
looped_texts (arr l) = ok (texts_among l)
looped_texts (obj d) = ok (keys_of d)
looped_texts (str s) = ok (letters s)
looped_texts v = if truthy v then err unusable else ok []

module _ (python : Python) where
  -- The tags of some cards, with their providers where those are asked for.
  unfoldable pub tags_of_cards : Bool → Items → Result CompanionError (List String)
  unfolding looped_texts
  tags_of_cards providers nil = ok []
  tags_of_cards providers (cons (obj card) rest) =
      let later = tags_of_cards providers rest in
      let provider = value_or null (get "provider" card) in
      let named : List String =
        if providers
        then (if truthy provider then text_for python.shown provider ∷ [] else [])
        else [] in
      elim (looped_texts (value_or null (get "tags" card))) [
        | err e ↦ err e
        | ok tags ↦ elim later [ err e ↦ err e | ok more ↦ ok (named ++ tags ++ more) ]
      ]
  tags_of_cards providers (cons _ rest) = tags_of_cards providers rest

  module _ (answer : List Request → Reply) (config : SkillConfig) where
    abbrev one : Fields → Json
    one d = arr (cons (obj d) nil)

    -- The update of the context graph and the trace, which is sent once the update was.
    unfoldable pub post_graph : Json → String → String → Fields → Fields → Act (Unit {0})
    post_graph person dimension event value metadata = do
      reply ← send answer (
          graph_update (
            dict (
              ("user_id", person)
              ∷ ("session_id", str "")
              ∷ ("dimensions", one (dict (("name", str dimension) ∷ ("value", obj value) ∷ [])))
              ∷ [])))
      if not reply.success then return tt else (do
        _ ← send answer (
            graph_trace (
              dict (
                ("user_id", person)
                ∷ ("trace", one (dict (("event", str event) ∷ ("metadata", obj metadata) ∷ [])))
                ∷ [])))
        return tt)

    unfoldable pub post_comms :
        Json → String → Items → Fields → Result CompanionError (List String) → Act (Unit {0})
    unfolding post_graph
    post_comms person intent cards extra (err e) = return tt
    post_comms person intent cards extra (ok found) =
        let tags = arr (config.listed_set found) in
        post_graph person "comms" intent
          (dict (
            ("cards", arr cards)
            ∷ ("origin_intent", str intent)
            ∷ ("tags", tags)
            ∷ ("created_at", python.now)
            ∷ ("extra", obj extra)
            ∷ []))
          (dict (
            ("tags", tags)
            ∷ ("cards", arr cards)
            ∷ ("created_at", python.now)
            ∷ ("extra", obj extra)
            ∷ []))

    -- `_log_comms_context`
    unfoldable pub log_comms_context : Json → String → Json → Fields → Act (Unit {0})
    unfolding post_comms
    log_comms_context person intent cards extra =
        let listed = list_or_empty (some cards) in
        if config.graph_url
        then post_comms person intent listed extra (tags_of_cards true listed)
        else return tt

    abbrev failed : String → Reply → CompanionError
    failed what reply = runtime_error (error_with python what reply.status)

    -- `result if isinstance(result, dict) else {"result": result}`
    abbrev result_of : Json → Fields
    result_of (obj d) = d
    result_of v = dict (("result", v) ∷ [])

    unfoldable pub run_result : Reply → Option Fields → Act Fields
    run_result reply none = raise (failed "capability run failed: " reply)
    run_result reply (some body) = return (result_of (value_or null (get "result" body)))

    unfoldable pub run_capability : Json → Fields → Act Fields
    unfolding run_result
    run_capability id args = do
      reply ← send answer (capability_run id args)
      run_result reply (body_dict reply)

    -- The candidate of the resolver's answer.
    abbrev candidate_of : Option Fields → Option Fields
    candidate_of none = none
    candidate_of (some body) = elim (get "candidate" body) [ some (obj c) ↦ some c | _ ↦ none ]

    unfoldable pub run_candidate : String → Fields → Reply → Option Fields → Act Fields
    unfolding run_capability
    run_candidate intent args reply none = raise (failed "capability resolve failed: " reply)
    run_candidate intent args reply (some candidate) =
        run_capability
          (py_or (value_or null (get "id" (dict_or_empty (get "manifest" candidate)))) (str intent))
          args

    -- `_capability_resolve_and_run`
    unfoldable pub resolve_and_run : String → Fields → Act Fields
    unfolding run_candidate
    resolve_and_run intent args =
        if not config.capability
        then raise (runtime_error "capability resolver client not configured")
        else (do
          reply ← send answer (capability_resolve (str intent))
          run_candidate intent args reply (candidate_of (body_dict reply)))

    -- `cards` of the answer are logged, or none where the handler logs none.
    unfoldable pub report :
        Json
        → String
        → Bool
        → (Fields → Fields)
        → (Fields → Fields)
        → Result CompanionError Fields
        → Act Fields
    unfolding log_comms_context
    report person intent with_cards extra done (err e) = return (refusal (text_of_error python e))
    report person intent with_cards extra done (ok body) = do
      log_comms_context person intent
          (if with_cards then value_or null (get "cards" body) else arr nil) (extra body)
      return (done body)

    -- The common course of a handler, once its arguments are accepted.
    unfoldable pub communicate :
        Json → String → Bool → Fields → (Fields → Fields) → (Fields → Fields) → Act Fields
    unfolding report resolve_and_run
    communicate person intent with_cards args extra done = do
      outcome ← attempt (resolve_and_run intent args)
      report person intent with_cards extra done outcome

    unfoldable pub check_for : Option String → Json → Act Fields
    unfolding communicate
    check_for none channel = return (refusal "missing person_id")
    check_for (some person) channel =
        let channels = dict (("channel", channel) ∷ []) in
        communicate (str person) "comms.check" true
          (dict (("person_id", str person) ∷ ("channel", channel) ∷ [])) (λ _. channels)
          λ body. dict (
            ("ok", bool true)
            ∷ ("person_id", str person)
            ∷ ("channel", channel)
            ∷ ("messages", value_or null (get "messages" body))
            ∷ ("cards", value_or null (get "cards" body))
            ∷ [])

    -- `handler_comms_check`
    unfoldable pub comms_check : Fields → Act Fields
    unfolding check_for
    comms_check envelope = do
      payload ← lift (payload_or_empty envelope)
      check_for (name_of (get "person_id" payload))
          (py_or (value_or null (get "channel" payload)) (str "email"))

    unfoldable pub summarize_for : Option String → Json → Act Fields
    unfolding communicate
    summarize_for none window = return (refusal "missing person_id")
    summarize_for (some person) window =
        communicate (str person) "comms.summarize" true
          (dict (("person_id", str person) ∷ ("window", window) ∷ []))
          (λ _. dict (("window", window) ∷ []))
          λ body. dict (
            ("ok", bool true)
            ∷ ("person_id", str person)
            ∷ ("summary", value_or null (get "summary" body))
            ∷ ("cards", value_or null (get "cards" body))
            ∷ [])

    -- `handler_comms_summarize`
    unfoldable pub comms_summarize : Fields → Act Fields
    unfolding summarize_for
    comms_summarize envelope = do
      payload ← lift (payload_or_empty envelope)
      summarize_for (name_of (get "person_id" payload))
          (py_or (value_or null (get "window" payload)) (str "today"))
