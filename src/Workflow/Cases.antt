-- ===== src/Workflow/Cases.antt =====
-- `cancel` and `execute`, by what the engine has for the plan.
use mathlib.Core.List.{reverse}
use unison_orchestrator.Prelude.{String, none, some, ◌≡◌, ok, err}
use unison_orchestrator.Prelude.Dict.{lookup}
use unison_orchestrator.Workflow.Provider.{Digest}
use unison_orchestrator.Workflow.Types.{Execution, OutcomeEvidence, Engine, key_error}
use unison_orchestrator.Workflow.Engine.{cancel, cancel_with, compensate_all, execute, execute_new}

pub cancel-unknown :
    (id : String) (e : Engine) → lookup id e.executions ≡ none → cancel id e ≡ (err key_error, e)
unfolding cancel
cancel-unknown id e q = rw (q, cancel)

pub cancel-known :
    (id : String) (e : Engine) {x : Execution}
    → lookup id e.executions ≡ some x
    → cancel id e ≡ cancel_with id x e (compensate_all (reverse x.receipts) e.providers)
unfolding cancel
cancel-known id e q = rw (q, cancel)

pub execute-cached :
    (digest : Digest) (id : String) (e : Engine) {o : OutcomeEvidence}
    → lookup id e.outcomes ≡ some o
    → execute digest id e ≡ (ok o, e)
unfolding execute
execute-cached digest id e q = rw (q, execute)

pub execute-fresh :
    (digest : Digest) (id : String) (e : Engine) {x : Execution}
    → lookup id e.outcomes ≡ none
    → lookup id e.executions ≡ some x
    → execute digest id e ≡ execute_new digest id e x
unfolding execute
execute-fresh digest id e q r = rw (q, execute) (rw r)

pub execute-unknown :
    (digest : Digest) (id : String) (e : Engine)
    → lookup id e.outcomes ≡ none
    → lookup id e.executions ≡ none
    → execute digest id e ≡ (err key_error, e)
unfolding execute
execute-unknown digest id e q r = rw (q, execute) (rw r)
