-- ===== src/PowerOn/Tests.antt =====
-- A wait for a renderer that is ready in the third round.
use unison_orchestrator.Prelude.{
  ℕ, Bool, true, Option, none, some, [], ◌∷◌, ◌≡◌, ◌↔◌, ◌*◌, if◌then◌else◌, nat_eq, arith,
}
use unison_orchestrator.Prelude.Json.{bool, Fields, dict}
use unison_orchestrator.PowerOn.Polling.{wait_renderer_ready}
use unison_orchestrator.PowerOn.Waits.{ReadyIn, wait_renderer_ready_ends}

abbrev clock : ℕ → ℕ
clock k = 250 * k

abbrev answer : ℕ → Option (ℕ × Fields)
answer k = if nat_eq k 2 then some (200, dict (("ready", bool true) ∷ [])) else none

wait_renderer_ready_ends_example :
    (b : Bool) × (wait_renderer_ready clock answer 0 1000 5 ≡ some b)
    × ((b ≡ true) ↔ ReadyIn clock answer 1000 0)
wait_renderer_ready_ends_example =
    wait_renderer_ready_ends clock answer 0 1000 4 (λ k. omega arith) (omega arith) (omega arith)
