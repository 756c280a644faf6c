-- ===== src/Skills/Registered.antt =====
-- src/orchestrator/skills.py: `build_skill_state`, the tools that the companion is given and the
-- handler of each skill. Four tools are registered twice, as in the source.
use unison_orchestrator.Prelude.{String, false, List, [], ◌∷◌, map}
use unison_orchestrator.Prelude.Json.{Json, bool, int, str, arr, obj, Fields, end, dict, to_items}
use unison_orchestrator.Prelude.Dict.{Dict}
use unison_orchestrator.Companion.Types.{
  Request, Reply, State, Config, Python, Act, ◌>>=◌, lift, as_dict,
}
use unison_orchestrator.Companion.Registry.{register_skill_tool}
use unison_orchestrator.Skills.Types.{SkillConfig}
use unison_orchestrator.Skills.Basic.{echo, summarize_doc, run_inference, context_get, storage_put}
use unison_orchestrator.Skills.Person.{
  person_enroll, person_verify, person_update_prefs, wakeword_update,
}
use unison_orchestrator.Skills.Action.{proposed_action}
use unison_orchestrator.Skills.Comms.{comms_check, comms_summarize}
use unison_orchestrator.Skills.Messages.{
  comms_reply, comms_compose, comms_join_meeting, comms_prepare_meeting, comms_debrief_meeting,
}
use unison_orchestrator.Skills.Dashboard.{dashboard_refresh}
use unison_orchestrator.Skills.Startup.{
  caps_report, startup_prompt_plan, companion_turn, workflow_design, workflow_recall,
}

-- A tool's name, description and parameters.
pub record SkillTool : Type 0 where
  pub tool_name : String
  pub description : String
  pub properties : Fields
  pub required : List String

abbrev texts : List String → Json
texts l = arr (to_items (map str l))

-- The schema of a value of a type.
abbrev typed : String → Json
typed t = obj (dict (("type", str t) ∷ []))

abbrev one_of : List String → Json
one_of l = obj (dict (("type", str "string") ∷ ("enum", texts l) ∷ []))

abbrev list_of : Json → Json
list_of items = obj (dict (("type", str "array") ∷ ("items", items) ∷ []))

abbrev object_of : Fields → List String → Json
object_of properties required = obj (
    dict
      (("type", str "object") ∷ ("properties", obj properties) ∷ ("required", texts required) ∷ []))

-- Properties that are texts.
abbrev strings : List String → Fields
strings names = dict (map (λ (n : String). (n, typed "string")) names)

-- A schema that requires nothing has no list for it.
abbrev pub schema : Fields → List String → Json
schema properties [] = obj (dict (("type", str "object") ∷ ("properties", obj properties) ∷ []))
schema properties (r ∷ rs) = object_of properties (r ∷ rs)

-- A tool whose parameters are required texts.
abbrev text_tool : String → String → List String → SkillTool
text_tool name description names = record {
  tool_name = name;
  description = description;
  properties = strings names;
  required = names;
}

abbrev tool : String → String → Fields → List String → SkillTool
tool name description properties required = record {
  tool_name = name;
  description = description;
  properties = properties;
  required = required;
}

abbrev memory_tools : List SkillTool
memory_tools =
    tool "context.get" "Fetch one or more context keys for the active person"
      (dict (("keys", list_of (typed "string")) ∷ [])) ("keys" ∷ [])
    ∷ text_tool "storage.put" "Store a value by key in the storage service" ("key" ∷ "value" ∷ [])
    ∷ tool "workflow.recall" "Recall recent workflow-related views and cards for the current person"
        (dict (
          ("person_id", typed "string")
          ∷ ("query", typed "string")
          ∷ ("time_hint_days", obj (dict (("type", str "integer") ∷ ("minimum", int 1) ∷ [])))
          ∷ ("tags_hint", list_of (typed "string"))
          ∷ []))
        ("person_id" ∷ [])
    ∷ tool "workflow.design" "Design or review a named workflow for the current person"
        (dict (
          ("person_id", typed "string")
          ∷ ("workflow_id", typed "string")
          ∷ ("project_id", typed "string")
          ∷ ("mode", one_of ("design" ∷ "review" ∷ []))
          ∷ (
            "changes",
            list_of (
                object_of
                  (dict (
                    ("op", typed "string")
                    ∷ ("title", typed "string")
                    ∷ ("position", typed "integer")
                    ∷ ("id", typed "string")
                    ∷ []))
                  ("op" ∷ [])),
          )
          ∷ []))
        ("person_id" ∷ "workflow_id" ∷ [])
    ∷ []

abbrev prompt_tools : List SkillTool
prompt_tools =
    tool "propose_prompt_update"
      "Propose a persistent update to the user-owned prompt config (does not apply changes)."
      (dict (
        ("target", one_of ("identity" ∷ "priorities" ∷ []))
        ∷ (
          "ops",
          list_of (
              object_of
                (dict (
                  ("op", one_of ("add" ∷ "replace" ∷ "remove" ∷ []))
                  ∷ ("path", typed "string")
                  ∷ ("value", obj end)
                  ∷ []))
                ("op" ∷ "path" ∷ [])),
        )
        ∷ ("rationale", typed "string")
        ∷ ("risk", one_of ("low" ∷ "medium" ∷ "high" ∷ []))
        ∷ []))
      ("target" ∷ "ops" ∷ "rationale" ∷ "risk" ∷ [])
    ∷ tool "apply_prompt_update"
        "Apply a previously proposed prompt update; may require explicit approval for high-risk changes."
        (dict (
          ("proposal_id", typed "string")
          ∷ ("approved", obj (dict (("type", str "boolean") ∷ ("default", bool false) ∷ [])))
          ∷ []))
        ("proposal_id" ∷ [])
    ∷ text_tool "rollback_prompt_update"
        "Rollback prompt configuration to a previous snapshot tarball." ("snapshot" ∷ [])
    ∷ []

abbrev job_tool : String → String → SkillTool
job_tool name description = text_tool name description ("job_id" ∷ [])

abbrev update_tools : List SkillTool
update_tools =
    tool "updates.check" "Check for available updates across OS, UnisonOS, and model planes." end []
    ∷ tool "updates.plan"
        "Create an update plan for a selection and constraints (may require approval)."
        (dict (("selection", typed "object") ∷ ("constraints", typed "object") ∷ []))
        ("selection" ∷ "constraints" ∷ [])
    ∷ text_tool "updates.apply" "Apply a previously created update plan." ("plan_id" ∷ [])
    ∷ job_tool "updates.status" "Get status for an update job."
    ∷ job_tool "updates.pause" "Pause an update job."
    ∷ job_tool "updates.resume" "Resume an update job."
    ∷ job_tool "updates.cancel" "Cancel an update job."
    ∷ tool "updates.rollback" "Rollback to last-known-good versions (or a specific target)."
        (dict (("target", obj end) ∷ [])) []
    ∷ text_tool "updates.whats_new" "Summarize highlights between versions."
        ("from_version" ∷ "to_version" ∷ [])
    ∷ tool "updates.get_policy" "Get update policy." end []
    ∷ tool "updates.set_policy" "Patch update policy."
        (dict (("policy_patch", typed "object") ∷ [])) ("policy_patch" ∷ [])
    ∷ []

abbrev pub comms_tools : List SkillTool
comms_tools =
    tool "comms.check" "Check for new/unread communications and produce priority cards"
      (strings ("person_id" ∷ "channel" ∷ [])) ("person_id" ∷ [])
    ∷ tool "comms.summarize" "Summarize communications over a window or topic"
        (strings ("person_id" ∷ "window" ∷ [])) ("person_id" ∷ [])
    ∷ []

abbrev pub message_tools : List SkillTool
message_tools =
    text_tool "comms.reply" "Reply to an existing thread/message"
      ("person_id" ∷ "thread_id" ∷ "message_id" ∷ "body" ∷ [])
    ∷ tool "comms.compose" "Compose and send a new communication"
        (dict (
          ("person_id", typed "string")
          ∷ ("channel", typed "string")
          ∷ ("recipients", list_of (typed "string"))
          ∷ ("subject", typed "string")
          ∷ ("body", typed "string")
          ∷ []))
        ("person_id" ∷ "recipients" ∷ "subject" ∷ "body" ∷ [])
    ∷ []

abbrev pub action_tools : List SkillTool
action_tools =
    tool "proposed_action" "Propose a structured Action Envelope for actuation"
      (dict (
        ("person_id", typed "string")
        ∷ (
          "target",
          object_of (strings ("device_id" ∷ "device_class" ∷ "location" ∷ "endpoint" ∷ []))
              ("device_id" ∷ "device_class" ∷ []),
        )
        ∷ (
          "intent",
          object_of
              (dict (
                ("name", typed "string")
                ∷ ("parameters", typed "object")
                ∷ ("human_readable", typed "string")
                ∷ []))
              ("name" ∷ "parameters" ∷ []),
        )
        ∷ ("risk_level", one_of ("low" ∷ "medium" ∷ "high" ∷ []))
        ∷ ("constraints", typed "object")
        ∷ ("policy_context", typed "object")
        ∷ ("telemetry_channel", typed "object")
        ∷ ("provenance", typed "object")
        ∷ []))
      ("person_id" ∷ "target" ∷ "intent" ∷ [])
    ∷ []

abbrev pub meeting_tools : List SkillTool
meeting_tools =
    tool "comms.join_meeting" "Join a meeting by meeting id/link"
      (strings ("person_id" ∷ "meeting_id" ∷ "join_url" ∷ [])) ("person_id" ∷ "meeting_id" ∷ [])
    ∷ text_tool "comms.prepare_meeting" "Prepare a meeting (agenda/participants)"
        ("person_id" ∷ "meeting_id" ∷ [])
    ∷ tool "comms.debrief_meeting" "Debrief after a meeting"
        (strings ("person_id" ∷ "meeting_id" ∷ "summary" ∷ [])) ("person_id" ∷ "meeting_id" ∷ [])
    ∷ []

unfoldable pub register_all : List SkillTool → State → State
register_all [] s = s
register_all (t ∷ ts) s =
    register_all ts
      (register_skill_tool t.tool_name (str t.description) (schema t.properties t.required) s)

-- The registrations, in their order.
unfoldable pub register_tools : State → State
register_tools s = register_all message_tools (
    register_all comms_tools (
      register_all meeting_tools (
        register_all action_tools (
          register_all message_tools (
            register_all update_tools (
              register_all comms_tools
                (register_all prompt_tools (register_all memory_tools s))))))))

module _ (python : Python) (answer : List Request → Reply) (config : Config)
    (skill : SkillConfig) where
  -- A handler that answers with what another function gives back.
  abbrev as_fields : (Fields → Act Json) → Fields → Act Fields
  as_fields handler envelope = handler envelope >>= λ v. lift (as_dict v)

  -- `skills`: the handler of each
  unfoldable pub skills : Dict (Fields → Act Fields)
  skills =
      ("echo", echo)
      ∷ ("summarize.doc", summarize_doc)
      ∷ ("summarize.document", summarize_doc)
      ∷ ("analyze.code", run_inference python answer)
      ∷ ("translate.text", run_inference python answer)
      ∷ ("generate.idea", run_inference python answer)
      ∷ ("context.get", context_get python answer)
      ∷ ("storage.put", storage_put python answer)
      ∷ ("companion.turn", companion_turn python answer config)
      ∷ ("person.enroll", person_enroll python answer)
      ∷ ("person.verify", person_verify python answer)
      ∷ ("person.update_prefs", person_update_prefs python answer)
      ∷ ("dashboard.refresh", dashboard_refresh python answer skill)
      ∷ ("workflow.design", as_fields (workflow_design python answer config))
      ∷ ("workflow.recall", as_fields (workflow_recall python answer config))
      ∷ ("wakeword.update", wakeword_update python answer)
      ∷ ("comms.check", comms_check python answer skill)
      ∷ ("comms.summarize", comms_summarize python answer skill)
      ∷ ("comms.reply", comms_reply python answer skill)
      ∷ ("comms.compose", comms_compose python answer skill)
      ∷ ("comms.join_meeting", comms_join_meeting python answer skill)
      ∷ ("comms.prepare_meeting", comms_prepare_meeting python answer skill)
      ∷ ("comms.debrief_meeting", comms_debrief_meeting python answer skill)
      ∷ ("caps.report", caps_report python answer)
      ∷ ("startup.prompt.plan", startup_prompt_plan python answer skill)
      ∷ ("proposed_action", proposed_action python answer skill)
      ∷ []
