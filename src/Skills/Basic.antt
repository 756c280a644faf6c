-- ===== src/Skills/Basic.antt =====
-- src/orchestrator/skills.py: echo, inference, summaries, `context.get` and `storage.put`.
use Prim.Native.String
use unison_orchestrator.Prelude.{
  String, not, ◌||◌, Option, none, some, List, [], ◌∷◌, if◌then◌else◌,
}
use unison_orchestrator.Prelude.Json.{
  Json, null, int, float, str, arr, obj, Fields, end, get, truthy, dict, value_or,
}
use unison_orchestrator.Companion.Types.{
  Request, inference, kv_get as kv_get_request, storage_put as storage_put_request, Reply,
  value_error, runtime_error, Python, Act, ◌>>=◌, return, raise, lift, send, as_dict, body_dict,
}
use unison_orchestrator.Skills.Types.{payload_of, name_of, error_with}

unfoldable pub echo : Fields → Act Fields
echo envelope = return (dict (("echo", value_or (obj end) (get "payload" envelope)) ∷ []))

unfoldable pub summarize_doc : Fields → Act Fields
summarize_doc _ =
    return (dict (("summary", str "This is a placeholder summary for summarize.doc.") ∷ []))

abbrev inference_payload : Json → Json → Fields → Fields
inference_payload intent prompt payload = dict (
    ("intent", intent)
    ∷ ("prompt", prompt)
    ∷ ("provider", value_or null (get "provider" payload))
    ∷ ("model", value_or null (get "model" payload))
    ∷ ("max_tokens", value_or (int 1000) (get "max_tokens" payload))
    ∷ ("temperature", value_or (float "0.7") (get "temperature" payload))
    ∷ [])

abbrev failed_inference : String → Json → Fields
failed_inference e event_id = dict (("error", str e) ∷ ("event_id", event_id) ∷ [])

abbrev inferred : Json → Fields → Fields
inferred event_id body = dict (
    ("inference_result", value_or (str "") (get "result" body))
    ∷ ("provider", value_or null (get "provider" body))
    ∷ ("model", value_or null (get "model" body))
    ∷ ("event_id", event_id)
    ∷ [])

module _ (python : Python) (answer : List Request → Reply) where
  -- `handler_inference`
  unfoldable pub run_inference : Fields → Act Fields
  run_inference envelope = do
    let event_id = value_or (str python.new_event) (get "event_id" envelope)
    payload ← lift (payload_of envelope)
    let prompt = value_or (str "") (get "prompt" payload)
    if not (truthy prompt)
        then return (failed_inference "Missing prompt for inference" event_id)
        else (do
          reply ← send answer (
              inference
                (inference_payload (value_or (str "") (get "intent" envelope)) prompt payload))
          if not reply.success || not (truthy reply.body)
              then return (
                  failed_inference
                    (String.◌++◌ (error_with python "Inference service unavailable (" reply.status)
                      ")")
                    event_id)
              else (do body ← lift (as_dict reply.body); return (inferred event_id body)))

  -- The dict of a service's answer.
  unfoldable pub dict_or_raise : String → Reply → Option Fields → Act Fields
  dict_or_raise e reply (some body) = return body
  dict_or_raise e reply none = raise (runtime_error (error_with python e reply.status))

  unfoldable pub get_keys : Option Json → Act Fields
  unfolding dict_or_raise
  get_keys (some (arr keys)) = do
    reply ← send answer (kv_get_request (arr keys))
    dict_or_raise "Context service error: " reply (body_dict reply)
  get_keys _ = raise (value_error "context.get requires 'keys' list in payload")

  -- `handler_context_get`
  unfoldable pub context_get : Fields → Act Fields
  unfolding get_keys
  context_get envelope = do payload ← lift (payload_of envelope); get_keys (get "keys" payload)

  unfoldable pub put_value : Option String → Json → Act Fields
  unfolding dict_or_raise
  put_value none value = raise (value_error "storage.put requires 'key' string in payload")
  put_value (some key) null = raise (value_error "storage.put requires 'value' in payload")
  put_value (some key) value = do
    reply ← send answer (storage_put_request (str key) value)
    dict_or_raise "Storage service error: " reply (body_dict reply)

  -- `handler_storage_put`
  unfoldable pub storage_put : Fields → Act Fields
  unfolding put_value
  storage_put envelope = do
    payload ← lift (payload_of envelope)
    put_value (name_of (get "key" payload)) (value_or null (get "value" payload))
