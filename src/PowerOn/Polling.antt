-- ===== src/PowerOn/Polling.antt =====
-- src/orchestrator/power_on/controller.py, `_wait_renderer_ready`. The clock, in milliseconds, is
-- read before each round; `clock n` is the reading before round n, and `answer n` the status and
-- the body of the renderer in that round, or nothing where asking raised or the body is no dict.
use unison_orchestrator.Prelude.{
  ℕ, zero, suc, Bool, true, false, ◌&&◌, Option, none, some, if◌then◌else◌, ltb, nat_eq, ◌+◌,
}
use unison_orchestrator.Prelude.Json.{Fields, get, has_truthy}

-- `max(0.1, timeout_s)`
abbrev pub wait_ms : ℕ → ℕ
wait_ms timeout = if ltb timeout 100 then 100 else timeout

abbrev pub says_ready : Option (ℕ × Fields) → Bool
says_ready none = false
says_ready (some (status, body)) = nat_eq status 200 && has_truthy (get "ready" body)

module _ (clock : ℕ → ℕ) (answer : ℕ → Option (ℕ × Fields)) where
  -- The rounds from round n on: whether the renderer was ready, or nothing where the fuel runs out.
  unfoldable pub poll : ℕ → ℕ → ℕ → Option Bool
  poll deadline n zero = none
  poll deadline n (suc fuel) =
      let later = poll deadline (suc n) fuel in
      if ltb (clock n) deadline
      then (if says_ready (answer n) then some true else later)
      else some false

  -- `_wait_renderer_ready`, from a start and a timeout
  unfoldable pub wait_renderer_ready : ℕ → ℕ → ℕ → Option Bool
  unfolding poll
  wait_renderer_ready start timeout fuel = poll (start + wait_ms timeout) 0 fuel
