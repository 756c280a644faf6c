-- ===== src/Skills/Dashboard.antt =====
-- src/orchestrator/skills.py: `dashboard.refresh`.
use unison_orchestrator.Prelude.{
  String, true, false, not, Option, none, some, List, [], ◌∷◌, if◌then◌else◌, map, Result, ok, err,
}
use unison_orchestrator.Prelude.Json.{
  Json, null, bool, str, arr, obj, Items, nil, cons, Fields, end, get, truthy, dict, py_or,
  value_or, to_items,
}
use unison_orchestrator.Companion.Types.{
  Request, profile_get, experience, Reply, CompanionError, unusable, Python, Act, ◌>>=◌, ◌>>◌,
  return, lift, send, as_dict, body_dict,
}
use unison_orchestrator.Companion.Context.{list_or_empty, only_dicts, dashboard_get, dashboard_put}
use unison_orchestrator.Companion.Memory.{joined}
use unison_orchestrator.Companion.Recall.{take_items, set_default}
use unison_orchestrator.Skills.Types.{SkillConfig, payload_or_empty, refusal, dict_in, attempt}
use unison_orchestrator.Skills.Comms.{tags_of_cards, post_graph, resolve_and_run}

abbrev card : String → String → String → String → String → String → Json
card id type title text tool tag = obj (
    dict (
      ("id", str id)
      ∷ ("type", str type)
      ∷ ("title", str title)
      ∷ ("body", str text)
      ∷ ("tool_activity", str tool)
      ∷ ("origin_intent", str "dashboard.refresh")
      ∷ ("tags", arr (to_items (map str ("dashboard" ∷ tag ∷ []))))
      ∷ []))

-- The cards that stand for cards that nobody gave.
abbrev pub stub_cards : Items
stub_cards =
    cons
      (card "dashboard-1" "summary" "Your morning briefing" "Schedule, comms, and tasks summarized."
        "calendar.refresh" "briefing")
      (cons
        (card "dashboard-2" "comms" "Messages to respond to" "2 priority replies pending."
          "comms.triage" "comms")
        nil)

-- `xs + ys`, of lists
abbrev pub as_cards : Json → Result CompanionError Items
as_cards (arr l) = ok l
as_cards _ = err unusable

-- The cards to show: those given, or the stubs.
abbrev pub own_cards : Json → Json
own_cards given = py_or given (arr stub_cards)

-- The preferences in a profile's dashboard.
unfoldable pub preferences_of : Option Fields → Result CompanionError Json
preferences_of none = ok (obj end)
preferences_of (some body) = elim (dict_in (get "profile" body)) [
  | err e ↦ err e
  | ok profile ↦ elim (as_dict (value_or (obj end) (get "dashboard" profile))) [
    | err e ↦ err e
    | ok dashboard ↦ ok (value_or (obj end) (get "preferences" dashboard))
  ]
]

-- The cards of a channel, where asking for them raised nothing.
abbrev pub cards_out : Result CompanionError Fields → Items
cards_out (err e) = nil
cards_out (ok body) = only_dicts (list_or_empty (get "cards" body))

module _ (python : Python) (answer : List Request → Reply) (config : SkillConfig) where
  -- The loop over the channels.
  unfoldable pub channel_cards : Json → List String → Act Items
  channel_cards person [] = return nil
  channel_cards person (channel ∷ channels) = do
    outcome ← attempt (
        resolve_and_run python answer config "comms.check"
          (dict (("person_id", person) ∷ ("channel", str channel) ∷ [])))
    later ← channel_cards person channels
    return (joined (cards_out outcome) later)

  -- `dict(card)` of each card, up to the first that raises.
  unfoldable pub copies : Items → List Fields
  copies nil = []
  copies (cons (obj c) rest) = c ∷ copies rest
  copies (cons v rest) =
      let later = copies rest in elim (python.dict_from v) [ none ↦ [] | some c ↦ c ∷ later ]

  -- The experiences sent to the renderer, up to the first that raises.
  unfoldable pub emit_cards : Json → List Fields → Act (Unit {0})
  emit_cards person [] = return tt
  emit_cards person (c ∷ rest) = do
    reply ←
        send answer (experience (set_default "ts" python.now (set_default "person_id" person c)))
    if reply.success then emit_cards person rest else return tt

  unfoldable pub log_refresh : Json → Items → Result CompanionError (List String) → Act (Unit {0})
  log_refresh person cards (err e) = return tt
  log_refresh person cards (ok found) =
      let tags = arr (config.listed_set found) in
      post_graph python answer config person "dashboard" "dashboard.refresh"
        (dict (
          ("cards", arr cards)
          ∷ ("origin_intent", str "dashboard.refresh")
          ∷ ("tags", tags)
          ∷ ("created_at", python.now)
          ∷ []))
        (dict (("cards", arr cards) ∷ ("tags", tags) ∷ ("created_at", python.now) ∷ []))

  -- What follows once the cards are known.
  unfoldable pub publish_refresh : Json → Json → Items → Items → Act Fields
  unfolding copies emit_cards log_refresh
  publish_refresh person prefs cards shown = do
    _ ← dashboard_put answer person (
        dict (
          ("cards", arr shown)
          ∷ ("preferences", prefs)
          ∷ ("person_id", person)
          ∷ ("updated_at", python.now)
          ∷ []))
    if config.renderer_url then emit_cards person (copies cards) else return tt
    if config.graph_url
        then log_refresh person shown (tags_of_cards python false shown)
        else return tt
    return (dict (("ok", bool true) ∷ ("person_id", person) ∷ ("cards", arr shown) ∷ []))

  unfoldable pub refresh_for : Json → Json → Act Fields
  unfolding preferences_of channel_cards publish_refresh
  refresh_for person given = do
    reply ← send answer (profile_get person)
    prefs ← lift (preferences_of (body_dict reply))
    board ← dashboard_get answer person
    existing ← lift (as_dict board)
    comms ← if config.capability then channel_cards person ("email" ∷ "unison" ∷ []) else return nil
    cards ← lift (as_cards (own_cards given))
    before ← lift (as_cards (py_or (value_or null (get "cards" existing)) (arr nil)))
    publish_refresh person prefs cards (take_items 10 (joined (joined cards comms) before))

  -- `handler_dashboard_refresh`
  unfoldable pub dashboard_refresh : Fields → Act Fields
  unfolding refresh_for
  dashboard_refresh envelope = do
    payload ← lift (payload_or_empty envelope)
    let person = value_or null (get "person_id" payload)
    if not (truthy person)
        then return (refusal "missing person_id")
        else refresh_for person (value_or null (get "cards" payload))
