-- ===== src/Skills/Messages.antt =====
-- src/orchestrator/skills.py: the skills that answer, compose and attend to meetings.
use unison_orchestrator.Prelude.{
  String, true, false, not, Option, none, some, List, [], ◌∷◌, if◌then◌else◌,
}
use unison_orchestrator.Prelude.Json.{
  Json, null, bool, str, arr, obj, cons, Fields, get, truthy, dict, py_or, value_or,
}
use unison_orchestrator.Companion.Types.{Request, Reply, Python, Act, ◌>>=◌, return, lift}
use unison_orchestrator.Skills.Types.{SkillConfig, payload_or_empty, name_of, refusal}
use unison_orchestrator.Skills.Comms.{communicate}

module _ (python : Python) (answer : List Request → Reply) (config : SkillConfig) where
  unfoldable pub reply_to : Option String → Option String → Option String → Json → Act Fields
  reply_to none thread message text = return (refusal "missing person_id")
  reply_to (some person) none message text = return (refusal "missing thread_id")
  reply_to (some person) (some thread) none text = return (refusal "missing message_id")
  reply_to (some person) (some thread) (some message) text =
      communicate python answer config (str person) "comms.reply" false
        (dict (
          ("person_id", str person)
          ∷ ("thread_id", str thread)
          ∷ ("message_id", str message)
          ∷ ("body", text)
          ∷ []))
        (λ _. dict (("thread_id", str thread) ∷ ("message_id", str message) ∷ []))
        λ body. dict (
          ("ok", bool true)
          ∷ ("person_id", str person)
          ∷ ("thread_id", str thread)
          ∷ ("message_id", str message)
          ∷ ("response", obj body)
          ∷ [])

  -- `handler_comms_reply`
  unfoldable pub comms_reply : Fields → Act Fields
  unfolding reply_to
  comms_reply envelope = do
    payload ← lift (payload_or_empty envelope)
    reply_to (name_of (get "person_id" payload)) (name_of (get "thread_id" payload))
        (name_of (get "message_id" payload)) (py_or (value_or null (get "body" payload)) (str ""))

  unfoldable pub compose_to : Option String → Json → Json → Json → Json → Act Fields
  compose_to none channel recipients subject text = return (refusal "missing person_id")
  compose_to (some person) channel (arr (cons r rs)) subject text =
      if not (truthy subject)
      then return (refusal "subject required")
      else communicate python answer config (str person) "comms.compose" false
          (dict (
            ("person_id", str person)
            ∷ ("channel", channel)
            ∷ ("recipients", arr (cons r rs))
            ∷ ("subject", subject)
            ∷ ("body", text)
            ∷ []))
          (λ body. dict (
            ("channel", channel)
            ∷ ("tags", value_or null (get "tags" body))
            ∷ ("recipients", arr (cons r rs))
            ∷ []))
          λ body. dict (
            ("ok", bool true)
            ∷ ("person_id", str person)
            ∷ ("channel", channel)
            ∷ ("response", obj body)
            ∷ [])
  compose_to (some person) channel _ subject text = return (refusal "recipients required")

  -- `handler_comms_compose`
  unfoldable pub comms_compose : Fields → Act Fields
  unfolding compose_to
  comms_compose envelope = do
    payload ← lift (payload_or_empty envelope)
    compose_to (name_of (get "person_id" payload))
        (py_or (value_or null (get "channel" payload)) (str "email"))
        (value_or null (get "recipients" payload))
        (py_or (value_or null (get "subject" payload)) (str ""))
        (py_or (value_or null (get "body" payload)) (str ""))

  -- The handlers of meetings, which differ in their intent. The person is not checked.
  unfoldable pub attend : String → Fields → Act Fields
  attend intent envelope = do
    payload ← lift (payload_or_empty envelope)
    let person = value_or null (get "person_id" payload)
    let meeting = py_or (value_or null (get "meeting_id" payload)) (str "meeting-1")
    communicate python answer config person intent true
        (dict (("person_id", person) ∷ ("meeting_id", meeting) ∷ []))
        (λ _. dict (("meeting_id", meeting) ∷ []))
        λ body. dict (
          ("ok", bool true)
          ∷ ("person_id", person)
          ∷ ("cards", value_or null (get "cards" body))
          ∷ [])

  abbrev pub comms_join_meeting : Fields → Act Fields
  comms_join_meeting = attend "comms.join_meeting"

  abbrev pub comms_prepare_meeting : Fields → Act Fields
  comms_prepare_meeting = attend "comms.prepare_meeting"

  abbrev pub comms_debrief_meeting : Fields → Act Fields
  comms_debrief_meeting = attend "comms.debrief_meeting"
