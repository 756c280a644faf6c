-- ===== src/PowerOn/Gates.antt =====
-- When a start is reported as ready.
use unison_orchestrator.Prelude.{
  ℕ, String, Bool, true, false, not, ◌&&◌, ◌||◌, Option, none, List, if◌then◌else◌, ◌==◌, ◌≡◌, refl,
}
use unison_orchestrator.Prelude.Json.{Fields}
use unison_orchestrator.PowerOn.{
  HealthResult, run, core_service_checks, auth_bootstrap_check, check_speech_ready,
}

stage_ready :
    (bootstrap core enabled speech renderer : Bool)
    → let stage : String =
        if bootstrap
        then "AUTH_BOOTSTRAP_REQUIRED"
        else if not core
        then "CORE_SERVICES_DEGRADED"
        else if enabled && not speech
        then "SPEECH_UNAVAILABLE"
        else if not renderer
        then "RENDERER_UNAVAILABLE"
        else "READY_LISTENING" in
      (stage == "READY_LISTENING")
      ≡ not (bootstrap || not renderer || not core || (enabled && not speech))
stage_ready true core enabled speech renderer = refl
stage_ready false false enabled speech true = refl
stage_ready false false enabled speech false = refl
stage_ready false true true false true = refl
stage_ready false true true false false = refl
stage_ready false true true true true = refl
stage_ready false true true true false = refl
stage_ready false true false speech true = refl
stage_ready false true false speech false = refl

-- Whatever the services answer: the start is reported as listening exactly if no onboarding is
-- required.
pub run_ready :
    (renderer enabled : Bool) (health : Option (List HealthResult)) (speech : Option ℕ)
    (auth : Option (ℕ × Fields))
    → let result = run renderer enabled health speech auth in
      (result.stage == "READY_LISTENING") ≡ not result.onboarding_required
unfolding run
run_ready renderer enabled health speech auth =
    stage_ready (auth_bootstrap_check auth).1 (core_service_checks health) enabled
      (enabled && check_speech_ready speech) renderer

-- If asking the auth service raises, auth is not ready, and the start is still reported as
-- listening whenever renderer, core services and an enabled speech are ready.
pub run_auth_unreachable :
    (renderer enabled : Bool) (health : Option (List HealthResult)) (speech : Option ℕ)
    → let result = run renderer enabled health speech none in
      (result.auth_ready ≡ false)
      × ((result.stage == "READY_LISTENING")
          ≡ not (not renderer || not result.core_ready || (enabled && not result.speech_ready)))
unfolding run auth_bootstrap_check
run_auth_unreachable renderer enabled health speech = (
  refl,
  stage_ready false (core_service_checks health) enabled (enabled && check_speech_ready speech)
      renderer,
)
