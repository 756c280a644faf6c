-- ===== src/Companion/Downstream.antt =====
-- src/orchestrator/companion.py: `_emit_downstream_impl` and `_log_context_graph_impl`, the best
-- effort at showing, speaking and recording a turn.
use unison_orchestrator.Prelude.{String, not, none, some, List, [], ◌∷◌, map, if◌then◌else◌}
use unison_orchestrator.Prelude.Json.{
  Json, null, arr, str, obj, Items, nil, cons, Fields, get, put, truthy, dict, to_items,
}
use unison_orchestrator.Companion.Types.{
  Request, experience, speech, graph_update, graph_trace, Reply, Config, Python, Act, ◌>>=◌, return,
  send, value_or, py_or, body_dict,
}
use unison_orchestrator.Companion.Recall.{set_default}

-- What a turn leaves for the other surfaces.
pub record Surface : Type 0 where
  pub text : Json
  pub tool_activity : Items
  pub person_id : Json
  pub session_id : Json
  pub cards : Json
  pub origin_intent : Json
  pub tags : List String

abbrev pub tag_items : List String → Json
tag_items tags = arr (to_items (map str tags))

-- `d[k] = v` where v counts as true.
abbrev put_truthy : String → Json → Fields → Fields
put_truthy k v d = if truthy v then put k v d else d

module _ (python : Python) where
  abbrev marked : Surface → Fields → Fields
  marked turn d =
      put_truthy "tags" (tag_items turn.tags) (put_truthy "origin_intent" turn.origin_intent d)

  abbrev experience_of : Surface → Fields
  experience_of turn = marked turn (
      put_truthy "cards" turn.cards (
        dict (
          ("text", turn.text)
          ∷ ("tool_activity", arr turn.tool_activity)
          ∷ ("person_id", turn.person_id)
          ∷ ("session_id", turn.session_id)
          ∷ ("ts", python.now)
          ∷ [])))

  abbrev graph_value : Surface → Fields
  graph_value turn = put "created_at" python.now (
      marked turn (
        dict (
          ("transcript", py_or turn.text (str ""))
          ∷ ("tool_activity", arr turn.tool_activity)
          ∷ ("cards", py_or turn.cards (arr nil))
          ∷ [])))

  module _ (answer : List Request → Reply) (config : Config) where
    -- The URL of the spoken text, where the speech service gives one.
    unfoldable pub spoken : Surface → Act Json
    spoken turn = if not config.speech_url then return null else (do
      reply ← send answer (
          speech (
            dict (
              ("text", turn.text)
              ∷ ("person_id", turn.person_id)
              ∷ ("session_id", turn.session_id)
              ∷ [])))
      return (elim (body_dict reply) [ some d ↦ value_or null (get "audio_url" d) | none ↦ null ]))

    -- `_emit_downstream`
    unfoldable pub emit_downstream : Surface → Act (Unit {0})
    unfolding spoken
    emit_downstream turn = if not (truthy turn.text) then return tt else (do
      audio_url ← spoken turn
      if not config.renderer_url then return tt else (do
        _ ← send answer (experience (put_truthy "audio_url" audio_url (experience_of turn)))
        return tt))

    -- `_log_context_graph`: the trace is sent once the update was
    unfoldable pub log_context_graph : Surface → Act (Unit {0})
    log_context_graph turn = if not config.graph_url then return tt else (do
      let value = graph_value turn
      reply ← send answer (
          graph_update (
            dict (
              ("user_id", turn.person_id)
              ∷ ("session_id", turn.session_id)
              ∷ (
                "dimensions",
                arr (
                    cons (obj (dict (("name", str "conversation") ∷ ("value", obj value) ∷ [])))
                      nil),
              )
              ∷ [])))
      if not reply.success then return tt else (do
        _ ← send answer (
            graph_trace (
              dict (
                ("user_id", turn.person_id)
                ∷ (
                  "trace",
                  arr (
                      cons
                        (obj (
                          dict (
                            ("event", py_or turn.origin_intent (str "conversation.turn"))
                            ∷ ("metadata", obj (set_default "session_id" turn.session_id value))
                            ∷ [])))
                        nil),
                )
                ∷ [])))
        return tt))
