-- ===== src/Skills/Advertised.antt =====
-- src/orchestrator/skills.py, companion.py: the tools that the model is told of, and what calling
-- them does.
use Prim.Native.String
use unison_orchestrator.Prelude.{
  String, Bool, true, false, ◌||◌, List, [], ◌∷◌, elem, starts_with, ok, map, ◌++◌, ◌≡◌,
}
use unison_orchestrator.Prelude.Json.{Json}
use unison_orchestrator.Prelude.Dict.{Dict, lookup, contains}
use unison_orchestrator.Companion.Types.{ToolDescriptor, Request, Reply, State, Config, Python}
use unison_orchestrator.Companion.Executor.{failure}
use unison_orchestrator.Companion.Dispatch.{is_mcp, named_tool}
use unison_orchestrator.Skills.Registered.{
  SkillTool, message_tools, comms_tools, meeting_tools, action_tools, register_tools,
}

-- The names that `_execute_single_tool` has a branch for.
abbrev branch_names : List String
branch_names =
    "propose_prompt_update" ∷ "apply_prompt_update" ∷ "rollback_prompt_update" ∷ "context.get"
    ∷ "storage.put" ∷ "workflow.recall" ∷ "workflow.design" ∷ []

abbrev has_branch : String → Bool
has_branch name = elem name branch_names || starts_with "updates." name

-- No tool of the registry comes from an MCP server.
abbrev Native : Dict ToolDescriptor → Type 0
Native tools = (name : String) → is_mcp (lookup name tools) ≡ false

-- The tools that are registered and have no branch.
abbrev pub unsupported_names : List String
unsupported_names =
    "comms.check" ∷ "comms.summarize" ∷ "comms.reply" ∷ "comms.compose" ∷ "comms.join_meeting"
    ∷ "comms.prepare_meeting" ∷ "comms.debrief_meeting" ∷ "proposed_action" ∷ []

abbrev AllOf : (String → Type 0) → List String → Type 0
AllOf P [] = Unit
AllOf P (n ∷ ns) = P n × AllOf P ns

abbrev names_of : List SkillTool → List String
names_of ts = map (λ (t : SkillTool). t.tool_name) ts

-- The names in the last four lists that are registered.
abbrev outer_names : List String
outer_names =
    names_of message_tools
    ++ names_of comms_tools
    ++ names_of meeting_tools
    ++ names_of action_tools

module _ (python : Python) (answer : List Request → Reply) (config : Config) where
  -- A registered tool without a branch.
  abbrev Unsupported : State → String → Type 0
  Unsupported s name =
      (contains name (register_tools s).tools ≡ true)
      × ((arguments person : Json)
          → named_tool python answer config name arguments person (register_tools s) ≡ (
            ok (failure (String.◌++◌ "tool " (String.◌++◌ name " not supported yet"))),
            register_tools s,
          ))
