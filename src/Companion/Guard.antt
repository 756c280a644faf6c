-- ===== src/Companion/Guard.antt =====
-- src/orchestrator/companion.py: a tool acts only once the policy was asked about it.
use unison_orchestrator.Prelude.{
  String, Bool, true, false, ◌&&◌, ◌||◌, Option, none, some, List, [], ◌∷◌, if◌then◌else◌, arith,
  ◌≡◌, refl, ◌∙◌, ◌==◌,
}
use unison_orchestrator.Companion.Types
use unison_orchestrator.Companion.Types.{
  Request, Reply, CompanionError, State, Config, Python, Act, body_dict, next, ◌>>=◌, ◌>>◌, return,
  raise, lift, read, change, send,
}
use unison_orchestrator.Companion.Executor.{verdict}
use unison_orchestrator.Companion.Kept.{Keeps, send-Keeps}

-- Whether a call is the act of a tool, or of a skill that is no tool.
unfoldable pub is_act : Request → Bool
is_act (Types.kv_get _) = true
is_act (Types.kv_set _ _) = true
is_act (Types.dashboard_get _) = true
is_act (Types.dashboard_put _ _) = true
is_act (Types.storage_put _ _) = true
is_act (Types.mcp_call _ _ _) = true
is_act (Types.update_call _ _) = true
is_act (Types.engine_propose _ _ _ _ _) = true
is_act (Types.engine_apply _ _ _) = true
is_act (Types.engine_rollback _ _) = true
is_act (Types.profile_post _ _) = true
is_act (Types.capability_run _ _) = true
is_act (Types.actuate _) = true
is_act _ = false

-- Whether an act is one of the tool's.
unfoldable pub acts_for : String → Request → Bool
acts_for tool (Types.kv_get _) = tool == "context.get" || tool == "workflow.design"
acts_for tool (Types.kv_set _ _) = tool == "workflow.design"
acts_for tool (Types.dashboard_get _) = tool == "workflow.recall"
acts_for tool (Types.dashboard_put _ _) = tool == "workflow.recall" || tool == "workflow.design"
acts_for tool (Types.storage_put _ _) = tool == "storage.put"
acts_for tool (Types.mcp_call _ name _) = tool == name
acts_for tool (Types.update_call name _) = tool == name
acts_for tool (Types.engine_propose _ _ _ _ _) = tool == "propose_prompt_update"
acts_for tool (Types.engine_apply _ _ _) = tool == "apply_prompt_update"
acts_for tool (Types.engine_rollback _ _) = tool == "rollback_prompt_update"
acts_for tool _ = false

module _ (answer : List Request → Reply) where
  -- The tool that the policy was asked about last, unless it was denied.
  unfoldable pub permitted_tool : List Request → Option String
  unfolding verdict
  permitted_tool [] = none
  permitted_tool (Types.policy_check name person event ∷ log) =
      if verdict (answer (Types.policy_check name person event ∷ log)) then some name else none
  permitted_tool (_ ∷ log) = permitted_tool log

  abbrev may : Option String → Request → Bool
  may (some tool) q = acts_for tool q
  may none q = false

  -- Every act is one of the tool that the policy was asked about last, and did not deny.
  unfoldable pub is_guarded : List Request → Bool
  unfolding is_act acts_for permitted_tool
  is_guarded [] = true
  is_guarded (q ∷ log) = (if is_act q then may (permitted_tool log) q else true) && is_guarded log

  abbrev pub Guarded : List Request → Type 0
  Guarded log = is_guarded log ≡ true

  -- The policy lets the tool run.
  abbrev pub Under : String → List Request → Type 0
  Under tool log = (permitted_tool log ≡ some tool) × Guarded log

  unfoldable pub is_policy : Request → Bool
  is_policy (Types.policy_check _ _ _) = true
  is_policy _ = false

  permitted_later :
      (q : Request) (log : List Request)
      → is_policy q ≡ false
      → permitted_tool (q ∷ log) ≡ permitted_tool log
  unfolding permitted_tool is_policy
  permitted_later (Types.policy_check _ _ _) log h = absurd (ground (arith, h))
  permitted_later _ log h = refl

  act-not_policy : (tool : String) (q : Request) → acts_for tool q ≡ true → is_policy q ≡ false
  unfolding acts_for is_policy
  act-not_policy tool (Types.policy_check _ _ _) h = absurd (ground (arith, h))
  act-not_policy tool _ h = refl

  -- A call that no tool makes keeps what was guarded.
  pub send-Guarded : (q : Request) → is_act q ≡ false → Keeps Guarded (send answer q)
  unfolding is_guarded
  send-Guarded q h = send-Keeps answer q (λ log p. ground (arith, p))

  -- Neither does it take a tool's permission away, unless it asks for one.
  pub send-aside :
      (tool : String) (q : Request)
      → is_act q ≡ false
      → is_policy q ≡ false
      → Keeps (Under tool) (send answer q)
  unfolding is_guarded
  send-aside tool q h n =
      send-Keeps answer q (λ log p. (permitted_later q log n ∙ p.0, ground (arith, p.1)))

  -- A tool that is permitted may act.
  pub send-act :
      (tool : String) (q : Request) → acts_for tool q ≡ true → Keeps (Under tool) (send answer q)
  unfolding is_guarded
  send-act tool q h =
      send-Keeps answer q
        (λ log p. (permitted_later q log (act-not_policy tool q h) ∙ p.0, ground (arith, p.0, p.1)))
