-- ===== src/Companion/Guarded.antt =====
-- src/orchestrator/companion.py: whatever the services answer, a turn's tools act only as the
-- policy lets them, and not at all within the boundaries of phase 1.
use unison_orchestrator.Prelude.{
  Bool, true, false, ◌||◌, Option, none, some, List, [], ◌∷◌, arith, ◌≡◌,
}
use unison_orchestrator.Prelude.Json.{Json, Items, Fields}
use unison_orchestrator.Companion.Types.{Request, Reply, State, Config, Python, send}
use unison_orchestrator.Companion.Session.{Who, ToolStage, run_tools, tool_stage}
use unison_orchestrator.Companion.Process.{finish_turn, answer_body, answer_turn, process_turn}
use unison_orchestrator.Companion.Kept.{
  Keeps, next-Keeps, then-Keeps, return-Keeps, lift-Keeps, send-Keeps,
}
use unison_orchestrator.Companion.Guard.{is_act, Guarded, is_guarded, send-Guarded}
use unison_orchestrator.Companion.Aside.{
  steps, refresh-Keeps, load_memory-Keeps, remember_turn-Keeps, emit_downstream-Keeps,
  log_context_graph-Keeps,
}
use unison_orchestrator.Companion.Executed.{execute_tool_calls-Keeps}

-- What calls that are no acts keep, and the stage of the tools too, a turn keeps.
module _ (python : Python) (answer : List Request → Reply) (config : Config)
    (P : List Request → Type 0)
    (send-P : (q : Request) → is_act q ≡ false → Keeps P (send answer q))
    (stage-P : (w : Who) (p : Fields) (a m : Items) (b : Fields)
      → Keeps P (tool_stage python answer config w p a m b)) where
  finish_turn-Keeps :
      (w : Who) (o : Json) (p : Fields) (m : Items) (g : ToolStage)
      → Keeps P (finish_turn python answer config w o p m g)
  unfolding finish_turn
  finish_turn-Keeps w o p m g = next-Keeps (lift-Keeps _) λ text.
      then-Keeps (search (remember_turn-Keeps answer P send-P)) (
        next-Keeps (lift-Keeps _) λ tags.
          then-Keeps (emit_downstream-Keeps answer P send-P python config _)
            (then-Keeps (log_context_graph-Keeps answer P send-P python config _) (return-Keeps _)))

  answer_body-Keeps :
      (w : Who) (o : Json) (p : Fields) (a m : Items) (r : Reply) (b : Option Fields)
      → Keeps P (answer_body python answer config w o p a m r b)
  unfolding answer_body
  answer_body-Keeps w o p a m r none = return-Keeps _
  answer_body-Keeps w o p a m r (some b) =
      next-Keeps (stage-P w p a m b) (λ g. finish_turn-Keeps w o p m g)

  answer_turn-Keeps :
      (w : Who) (o : Json) (p : Fields) (m : Json)
      → Keeps P (answer_turn python answer config w o p m)
  unfolding answer_turn is_act
  answer_turn-Keeps w o p m =
      search (steps, load_memory-Keeps answer P send-P, send-P, answer_body-Keeps) depth 12

  process_turn-Keeps : (envelope : Fields) → Keeps P (process_turn python answer config envelope)
  unfolding process_turn
  process_turn-Keeps envelope = next-Keeps (lift-Keeps _) λ payload.
      then-Keeps (refresh-Keeps answer P send-P config) (search (steps, answer_turn-Keeps))

module _ (python : Python) (answer : List Request → Reply) (config : Config) where
  run_tools-Keeps :
      (w : Who) (p : Fields) (a m : Items) (b : Fields) (c : Json)
      → Keeps (Guarded answer) (run_tools python answer config w p a m b c)
  unfolding run_tools is_act
  run_tools-Keeps w p a m b c = next-Keeps (lift-Keeps _) λ calls.
      next-Keeps (execute_tool_calls-Keeps python answer config calls _ _)
        λ outcomes. search (steps, send-Guarded answer)

  tool_stage-Keeps :
      (w : Who) (p : Fields) (a m : Items) (b : Fields)
      → Keeps (Guarded answer) (tool_stage python answer config w p a m b)
  unfolding tool_stage
  tool_stage-Keeps w p a m b = search (steps, run_tools-Keeps)

  -- Whatever the services answer, and whether or not the turn raises: if every act so far was one of
  -- the tool that the policy was asked about last and did not deny, that is so after a turn.
  pub process_turn-Guarded :
      (envelope : Fields) (s : State)
      → is_guarded answer s.log ≡ true
      → is_guarded answer (process_turn python answer config envelope s).1.log ≡ true
  process_turn-Guarded envelope s g =
      (process_turn-Keeps python answer config (Guarded answer) (send-Guarded answer)
          tool_stage-Keeps envelope).kept
        s g

-- Whether a tool acted.
unfoldable pub has_acted : List Request → Bool
unfolding is_act
has_acted [] = false
has_acted (q ∷ log) = is_act q || has_acted log

module _ (python : Python) (answer : List Request → Reply) (config : Config) where
  abbrev Quiet : List Request → Type 0
  Quiet log = has_acted log ≡ false

  send-Quiet : (q : Request) → is_act q ≡ false → Keeps Quiet (send answer q)
  unfolding has_acted
  send-Quiet q h = send-Keeps answer q (λ log p. ground (arith, p))

  stage-Quiet :
      config.boundaries ≡ true
      → (w : Who) (p : Fields) (a m : Items) (b : Fields)
      → Keeps Quiet (tool_stage python answer config w p a m b)
  unfolding tool_stage
  stage-Quiet h w p a m b = rw h (search steps)

  -- Within the boundaries of phase 1 a turn makes no act of a tool, whatever the model asks for,
  -- whatever the services answer, and whether or not it raises.
  pub process_turn-Quiet :
      (envelope : Fields) (s : State)
      → config.boundaries ≡ true
      → has_acted s.log ≡ false
      → has_acted (process_turn python answer config envelope s).1.log ≡ false
  process_turn-Quiet envelope s h q =
      (process_turn-Keeps python answer config Quiet send-Quiet (stage-Quiet h) envelope).kept s q
