-- ===== src/PowerOn.antt =====
-- src/orchestrator/power_on/controller.py: what a start comes to. The answers of the services are
-- arguments, none where asking raised; so is what waiting for the renderer, in Polling, came to.
-- The manifest enters through the reading that speech is enabled.
pub mod Gates
pub mod Polling
pub mod Waits
mod Tests
use unison_orchestrator.Prelude.{
  ℕ, String, Bool, true, false, not, ◌&&◌, ◌||◌, Option, none, some, List, [], ◌∷◌, if◌then◌else◌,
  nat_eq, ◌==◌, all,
}
use unison_orchestrator.Prelude.Json.{Fields, get, has_truthy}

pub record HealthResult : Type 0 where
  pub name : String
  pub reached : Bool
  pub status : ℕ

abbrev pub is_healthy : HealthResult → Bool
is_healthy h = h.reached && nat_eq h.status 200

-- `_core_service_checks`
unfoldable pub core_service_checks : Option (List HealthResult) → Bool
core_service_checks (some health) = all is_healthy health
core_service_checks none = false

-- `_auth_bootstrap_check`: ready, and bootstrap required
unfoldable pub auth_bootstrap_check : Option (ℕ × Fields) → Bool × Bool
auth_bootstrap_check none = (false, false)
auth_bootstrap_check (some (status, body)) =
    if nat_eq status 200
    then (
      not (has_truthy (get "bootstrap_required" body)),
      has_truthy (get "bootstrap_required" body),
    )
    else (false, false)

-- `_check_speech_ready`, without its reason, of the status that the endpoint answered with, if there
-- is an endpoint and it answered.
unfoldable pub check_speech_ready : Option ℕ → Bool
check_speech_ready none = false
check_speech_ready (some status) = nat_eq status 200

pub record PowerOnResult : Type 0 where
  pub renderer_ready : Bool
  pub core_ready : Bool
  pub auth_ready : Bool
  pub bootstrap_required : Bool
  pub onboarding_required : Bool
  pub stage : String
  pub speech_ready : Bool

-- `run`, from the answers.
unfoldable pub run :
    Bool → Bool → Option (List HealthResult) → Option ℕ → Option (ℕ × Fields) → PowerOnResult
unfolding core_service_checks auth_bootstrap_check check_speech_ready
run renderer_ready speech_enabled health speech auth =
    let core_ready = core_service_checks health in
    let speech_ready = speech_enabled && check_speech_ready speech in
    let auth_ready = (auth_bootstrap_check auth).0 in
    let bootstrap_required = (auth_bootstrap_check auth).1 in
    record {
      renderer_ready = renderer_ready;
      core_ready = core_ready;
      auth_ready = auth_ready;
      bootstrap_required = bootstrap_required;
      onboarding_required =
          bootstrap_required
          || not renderer_ready
          || not core_ready
          || (speech_enabled && not speech_ready);
      stage =
          if bootstrap_required
          then "AUTH_BOOTSTRAP_REQUIRED"
          else if not core_ready
          then "CORE_SERVICES_DEGRADED"
          else if speech_enabled && not speech_ready
          then "SPEECH_UNAVAILABLE"
          else if not renderer_ready
          then "RENDERER_UNAVAILABLE"
          else "READY_LISTENING";
      speech_ready = speech_ready;
    }
