-- ===== src/Companion/Executed.antt =====
-- src/orchestrator/companion.py: the execution of a tool call acts as the tool that the policy was
-- asked about.
use mathlib.Core.Path.{subst}
use unison_orchestrator.Prelude.{
  String, Bool, true, false, Option, none, some, List, ◌∷◌, Result, ok, err, arith, ◌≡◌, refl, sym,
  ◌==◌, eq_iff, eq_refl,
}
use unison_orchestrator.Prelude.Json.{
  text_of, get, Json, null, bool, int, negative, float, str, arr, obj, Items, nil, cons, Fields,
}
use unison_orchestrator.Companion.Types.{
  policy_check, next, py_or, text_for, Request, Reply, State, Config, Python, Act, ◌>>=◌, return,
  send,
}
use unison_orchestrator.Companion.Executor.{
  verdict, policy_allows_tool, Proposal, keep_proposal, engine_answer, propose_valid,
  propose_prompt_update, apply_known, apply_valid, apply_prompt_update, rollback_valid,
  rollback_prompt_update, context_keys, context_get, storage_put_tool, workflow_recall,
  workflow_design,
}
use unison_orchestrator.Companion.Dispatch.{
  call_name, call_arguments, update_tool, call_mcp_tool, execute_mcp_tool, registry_tool, on_dict,
  named_tool, execute_single_tool, execute_tool_call, execute_tool_calls,
}
use unison_orchestrator.Companion.Kept.{
  Keeps, next-Keeps, then-Keeps, if-Keeps, if_eq-Keeps, return-Keeps, raise-Keeps, lift-Keeps,
  read-Keeps, change-Keeps,
}
use unison_orchestrator.Companion.Guard.{
  is_act, acts_for, is_policy, Guarded, is_guarded, permitted_tool, Under, send-aside, send-act,
}
use unison_orchestrator.Companion.Aside.{steps}
use unison_orchestrator.Companion.Tools.{recall-Keeps, apply_workflow_design-Keeps}

module _ (python : Python) (answer : List Request → Reply) (config : Config) where
  engine_answer-Keeps :
      (t : String) (p : Json) (q : Request)
      → acts_for t q ≡ true
      → Keeps (Under answer t) (engine_answer python answer config p q)
  unfolding engine_answer
  engine_answer-Keeps t p q h =
      then-Keeps (change-Keeps _ (λ s p. p))
        (next-Keeps (send-act answer t q h) (λ r. if-Keeps _ (return-Keeps _) (raise-Keeps _)))

  keep_proposal-Keeps :
      (t : String) (p : Json) (d : Fields)
      → Keeps (Under answer t) (keep_proposal python answer config p d)
  unfolding keep_proposal
  keep_proposal-Keeps t p d = then-Keeps (change-Keeps _ (λ s p. p)) (return-Keeps _)

  propose_valid-Keeps :
      (p : Json) (r : Result String Proposal)
      → Keeps (Under answer "propose_prompt_update") (propose_valid python answer config p r)
  unfolding propose_valid acts_for
  propose_valid-Keeps p (err e) = return-Keeps _
  propose_valid-Keeps p (ok v) =
      next-Keeps (engine_answer-Keeps _ p _ refl)
        (λ body. next-Keeps (lift-Keeps _) (λ d. keep_proposal-Keeps _ p d))

  apply_known-Keeps :
      (p : Json) (i : String) (b : Bool) (o : Option Json)
      → Keeps (Under answer "apply_prompt_update") (apply_known python answer config p i b o)
  unfolding apply_known acts_for
  apply_known-Keeps p i b none = return-Keeps _
  apply_known-Keeps p i b (some v) = engine_answer-Keeps _ p _ refl

  apply_valid-Keeps :
      (p : Json) (r : Result String (String × Bool))
      → Keeps (Under answer "apply_prompt_update") (apply_valid python answer config p r)
  unfolding apply_valid
  apply_valid-Keeps p (err e) = return-Keeps _
  apply_valid-Keeps p (ok (i, b)) = next-Keeps read-Keeps (λ s. apply_known-Keeps p i b _)

  rollback_valid-Keeps :
      (p : Json) (o : Option String)
      → Keeps (Under answer "rollback_prompt_update") (rollback_valid python answer config p o)
  unfolding rollback_valid acts_for
  rollback_valid-Keeps p none = return-Keeps _
  rollback_valid-Keeps p (some s) = if-Keeps _ (return-Keeps _) (engine_answer-Keeps _ p _ refl)

  context_keys-Keeps :
      (v : Json) → Keeps (Under answer "context.get") (context_keys python answer config v)
  unfolding context_keys acts_for
  context_keys-Keeps (arr l) = search (steps, send-act)
  context_keys-Keeps _ = return-Keeps _

  storage_put_tool-Keeps :
      (d : Fields) → Keeps (Under answer "storage.put") (storage_put_tool python answer config d)
  unfolding storage_put_tool acts_for
  storage_put_tool-Keeps d = search (steps, send-act)

  update_tool-Keeps :
      (t : String) (a p : Json) → Keeps (Under answer t) (update_tool python answer config t a p)
  unfolding update_tool acts_for
  update_tool-Keeps t a p =
      next-Keeps (lift-Keeps _)
        (λ d. next-Keeps (send-act answer t _ (eq_refl t)) (λ r. search steps))

  call_mcp_tool-Keeps :
      (t : String) (a : Json) (r : _)
      → Keeps (Under answer t) (call_mcp_tool python answer config t a r)
  unfolding call_mcp_tool acts_for
  call_mcp_tool-Keeps t a (err e) = return-Keeps _
  call_mcp_tool-Keeps t a (ok none) = return-Keeps _
  call_mcp_tool-Keeps t a (ok (some b)) =
      next-Keeps (send-act answer t _ (eq_refl t)) (λ r. search steps)

  execute_mcp_tool-Keeps :
      (t : String) (a : Json) → Keeps (Under answer t) (execute_mcp_tool python answer config t a)
  unfolding execute_mcp_tool is_act is_policy
  execute_mcp_tool-Keeps t a = search (steps, send-aside, call_mcp_tool-Keeps)

  registry_tool-Keeps :
      (t : String) (a : Json) → Keeps (Under answer t) (registry_tool python answer config t a)
  unfolding registry_tool
  registry_tool-Keeps t a = search (steps, execute_mcp_tool-Keeps)

  -- A tool under its own name.
  as_named :
      (t name : String) {m : Act Json}
      → (t == name) ≡ true
      → Keeps (Under answer name) m
      → Keeps (Under answer t) m
  as_named t name {m} e h = subst (λ x. Keeps (Under answer x) m) (sym ((eq_iff t name).0 e)) h

  on_dict-Keeps :
      (t : String) (f : Fields → Act Json) (a : Json)
      → ((d : Fields) → Keeps (Under answer t) (f d))
      → Keeps (Under answer t) (on_dict python answer config f a)
  unfolding on_dict
  on_dict-Keeps t f a h = next-Keeps (lift-Keeps _) h

  named_tool-Keeps :
      (t : String) (a p : Json) → Keeps (Under answer t) (named_tool python answer config t a p)
  unfolding named_tool propose_prompt_update apply_prompt_update rollback_prompt_update context_get
      workflow_recall workflow_design
  named_tool-Keeps t a p =
      if_eq-Keeps _ (λ e. on_dict-Keeps t _ a λ d. as_named t _ e (propose_valid-Keeps p _))
        λ _.
          if_eq-Keeps _ (λ e. on_dict-Keeps t _ a λ d. as_named t _ e (apply_valid-Keeps p _))
            λ _.
              if_eq-Keeps _
                (λ e.
                  on_dict-Keeps t _ a
                    λ d. as_named t _ e (rollback_valid-Keeps p (text_of (get "snapshot" d))))
                λ _.
                  if_eq-Keeps _
                    (λ e. on_dict-Keeps t _ a λ d. as_named t _ e (context_keys-Keeps _))
                    λ _.
                      if_eq-Keeps _
                        (λ e. on_dict-Keeps t _ a λ d. as_named t _ e (storage_put_tool-Keeps d))
                        λ _.
                          if_eq-Keeps _
                            (λ e.
                              on_dict-Keeps t _ a
                                λ d. as_named t _ e (recall-Keeps python answer config _ _ _ _))
                            λ _.
                              if_eq-Keeps _
                                (λ e. on_dict-Keeps t _ a λ d.
                                  as_named t _ e
                                    (apply_workflow_design-Keeps python answer config _ _ _ _ _))
                                λ _. if-Keeps _ (update_tool-Keeps t a p) (registry_tool-Keeps t a)

  -- The name that the policy is asked about.
  abbrev asked_name : Json → String
  asked_name v = text_for python.shown (py_or v (str "unknown"))

  asked_name-str : (n : String) → (n == "") ≡ false → asked_name (str n) ≡ n
  asked_name-str n e = ground (arith, e)

  execute_single_tool-Keeps :
      (v a p : Json)
      → Keeps (Under answer (asked_name v)) (execute_single_tool python answer config v a p)
  unfolding execute_single_tool
  execute_single_tool-Keeps (str n) a p =
      if_eq-Keeps _ (λ _. return-Keeps _)
        (λ e.
          subst (λ x. Keeps (Under answer x) (named_tool python answer config n a p))
            (sym (asked_name-str n e)) (named_tool-Keeps n a p))
  execute_single_tool-Keeps null a p = search steps
  execute_single_tool-Keeps (bool _) a p = search steps
  execute_single_tool-Keeps (int _) a p = search steps
  execute_single_tool-Keeps (negative _) a p = search steps
  execute_single_tool-Keeps (float _) a p = search steps
  execute_single_tool-Keeps (arr _) a p = search steps
  execute_single_tool-Keeps (obj _) a p = search steps

  -- What runs once the policy was asked: as the tool, where it is let run.
  asked-Keeps {ℓ} :
      {A : Type ℓ} (name : String) (p e : Json) (k : Bool → Act A)
      → Keeps (Under answer name) (k true)
      → Keeps (Guarded answer) (k false)
      → Keeps (Guarded answer) (policy_allows_tool python answer config name p e >>= k)
  unfolding policy_allows_tool ◌>>=◌ next send return is_guarded permitted_tool is_act
  asked-Keeps name p e k ht hf = record {
    kept = λ s g. go (record s { log = policy_check name p e ∷ s.log }) refl g _ refl;
  }
    where
      go :
          (s : State) {log : List Request}
          → s.log ≡ policy_check name p e ∷ log
          → Guarded answer (policy_check name p e ∷ log)
          → (v : Bool) → verdict (answer (policy_check name p e ∷ log)) ≡ v
          → Guarded answer (k v s).1.log
      go s {log} l g true h =
          let may : permitted_tool answer (policy_check name p e ∷ log) ≡ some name =
            ground (arith, h) in
          (ht.kept s (subst (Under answer name) (sym l) (may, g))).1
      go s {log} l g false h = hf.kept s (subst (Guarded answer) (sym l) g)

  execute_tool_call-Keeps :
      (c : Fields) (p e : Json)
      → Keeps (Guarded answer) (execute_tool_call python answer config c p e)
  unfolding execute_tool_call
  execute_tool_call-Keeps c p e =
      asked-Keeps _ p e _
        (next-Keeps
          (execute_single_tool-Keeps (call_name c) (call_arguments python answer config c) p)
          (λ r. return-Keeps _))
        (return-Keeps _)

  pub execute_tool_calls-Keeps :
      (l : Items) (p e : Json)
      → Keeps (Guarded answer) (execute_tool_calls python answer config l p e)
  unfolding execute_tool_calls
  execute_tool_calls-Keeps nil p e = return-Keeps _
  execute_tool_calls-Keeps (cons (obj c) l) p e =
      next-Keeps (execute_tool_call-Keeps c p e)
        (λ o. next-Keeps (execute_tool_calls-Keeps l p e) (λ r. return-Keeps _))
  execute_tool_calls-Keeps (cons _ l) p e = execute_tool_calls-Keeps l p e
