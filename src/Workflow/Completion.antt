-- ===== src/Workflow/Completion.antt =====
-- `execute`: a completed plan stays completed, a provider is not called twice for one key, and a
-- failed step recovers on retry.
use mathlib.Core.List.{reverse}
use unison_orchestrator.Prelude.{
  String, Bool, true, false, some, ◌≡◌, arith, Bool-cases, Option-cases, inl, inr, Result, ok, err,
}
use unison_orchestrator.Prelude.Dict.{Dict, lookup, lookup-insert_self}
use unison_orchestrator.Prelude.Json.{Json}
use unison_orchestrator.Workflow.Provider.{FakeProvider, Digest, provider_execute, pending_failure}
use unison_orchestrator.Workflow.Types.{completed, Execution, OutcomeEvidence, Engine, EngineError}
use unison_orchestrator.Workflow.Cases.{
  cancel-unknown, cancel-known, execute-cached, execute-fresh, execute-unknown,
}
use unison_orchestrator.Workflow.Engine.{
  StepEnd, done, blocked, missing, failure, evidence, cancel, cancel_with, compensate_all, execute,
  execute_new, conclude, run_steps,
}

-- A provider that has answered a key gives the same receipt again, and notes no second call.
pub provider_execute_twice :
    (digest : Digest) (action : String) (payload again : Dict Json) (key : String)
    (p : FakeProvider) {r : String}
    → (provider_execute digest action payload key p).0 ≡ ok r
    → let p' = (provider_execute digest action payload key p).1 in
      provider_execute digest action again key p' ≡ (ok r, p')
unfolding provider_execute
provider_execute_twice digest action payload again key p h =
    elim (Option-cases (lookup key p.receipts)) [
      | inr (r, e) ↦ ground arith
      | inl e ↦ elim (Option-cases (pending_failure p.fail_once)) [
        | inr (f, q) ↦ absurd (ground arith)
        | inl q ↦
            ground (
              arith,
              lookup-insert_self key (digest p.provider_id p.kind action payload) p.receipts,
            )
      ]
    ]

-- Only the loop's end concludes with the state `completed`.
abbrev Kept : String → Result EngineError OutcomeEvidence × Engine → Type 0
Kept id (ok ev, e) = ev.state ≡ completed → lookup id e.outcomes ≡ some ev
Kept id (err f, e) = Unit

cancel_with-Kept :
    (id : String) (x : Execution) (e : Engine) (r : Bool × Dict FakeProvider)
    → Kept id (cancel_with id x e r)
unfolding cancel_with evidence
cancel_with-Kept id x e (false, ps) = tt
cancel_with-Kept id x e (true, ps) = λ h. absurd (ground (arith, h))

cancel-Kept : (id : String) (e : Engine) → Kept id (cancel id e)
cancel-Kept id e = elim (Option-cases (lookup id e.executions)) [
  | inl q ↦ rw (cancel-unknown id e q) tt
  | inr (x, q) ↦
      rw (cancel-known id e q)
        (cancel_with-Kept id x e (compensate_all (reverse x.receipts) e.providers))
]

conclude-Kept :
    (id : String) (e : Engine) (r : StepEnd × Execution × Dict FakeProvider)
    → Kept id (conclude id e r)
unfolding conclude evidence
conclude-Kept id e (done, x, ps) = λ h. lookup-insert_self id _ e.outcomes
conclude-Kept id e (blocked, x, ps) = λ h. absurd (ground (arith, h))
conclude-Kept id e (missing, x, ps) = tt
conclude-Kept id e (failure r, x, ps) = λ h. absurd (ground (arith, h))

execute_new-Kept :
    (digest : Digest) (id : String) (e : Engine) (x : Execution)
    → Kept id (execute_new digest id e x)
unfolding execute_new
execute_new-Kept digest id e x = elim (Bool-cases x.cancelled) [
  | inl c ↦ simp c (cancel-Kept id e)
  | inr c ↦ simp c (conclude-Kept id e (run_steps digest x.plan.steps x e.providers))
]

execute-Kept : (digest : Digest) (id : String) (e : Engine) → Kept id (execute digest id e)
execute-Kept digest id e = elim (Option-cases (lookup id e.outcomes)) [
  | inr (o, q) ↦ rw (execute-cached digest id e q) (λ h. q)
  | inl q ↦ elim (Option-cases (lookup id e.executions)) [
    | inl r ↦ rw (execute-unknown digest id e q r) tt
    | inr (x, r) ↦ rw (execute-fresh digest id e q r) (execute_new-Kept digest id e x)
  ]
]

again :
    (digest : Digest) (id : String) (r : Result EngineError OutcomeEvidence × Engine)
    {ev : OutcomeEvidence}
    → Kept id r
    → r.0 ≡ ok ev
    → ev.state ≡ completed
    → execute digest id r.1 ≡ (ok ev, r.1)
again digest id (ok o, e) k h c =
    rw (execute-cached digest id e (k (ground (arith, h, c)))) (ground (arith, h))
again digest id (err f, e) k h c = absurd (ground (arith, h))

-- Once a call has reported completion, every further call returns the same evidence and changes
-- nothing: no provider is called again.
pub execute_twice :
    (digest : Digest) (id : String) (e : Engine) {ev : OutcomeEvidence}
    → (execute digest id e).0 ≡ ok ev
    → ev.state ≡ completed
    → execute digest id (execute digest id e).1 ≡ (ok ev, (execute digest id e).1)
execute_twice digest id e h c = again digest id (execute digest id e) (execute-Kept digest id e) h c
