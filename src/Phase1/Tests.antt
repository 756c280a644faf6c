-- ===== src/Phase1/Tests.antt =====
-- Concrete runs of the onboarding and of the memory operations.
use unison_orchestrator.Prelude.{
  ◌++◌, ◌==◌, ◌⊎◌, ◌||◌, contains_text, ok, length, ◌≤◌, starts_with, Option, false, ℕ, suc, arith,
  split_on, String, true, none, some, [], ◌∷◌, ◌≡◌, refl, strip, lower,
}
use unison_orchestrator.Prelude.Json.{
  is_text, int, arr, Json, null, bool, str, obj, nil, cons, Fields, end, get, put, dict,
  dict_or_empty,
}
use unison_orchestrator.Phase1.Memory.{Reply, World, deep_merge, read_profile, upserted, execute}
use unison_orchestrator.Phase1.Merge.{merged, get-deep_merge}
use unison_orchestrator.Phase1.Writes.{execute_writes}
use unison_orchestrator.Phase1.Parts.{part, value_after}
use unison_orchestrator.Phase1.Onboarding.{
  norm, finishes, greets, is_filler, verbosity_of, density_of, turn_of, onboarding_patch,
  profile_patch,
}
use unison_orchestrator.Phase1.Reply.{apply_patches}
use unison_orchestrator.Phase1.Progress.{turn_advances, is_completed}
use unison_orchestrator.Phase1.Completes.{after, onboarding_completes}
use unison_orchestrator.Phase1.Planner.{
  authorization_of, is_allowlisted, domain_allowlist, harden, normalize_plan,
}
use unison_orchestrator.Phase1.Stub.{
  validated, create_intent, ensure_vdi_tool_call, default_renderer_directives,
}
use unison_orchestrator.Phase1.Tools
use unison_orchestrator.Phase1.Stub.{onboarding_state}
use unison_orchestrator.Phase1.StubPlan.{create_plan}
use unison_orchestrator.Phase1.Model.{
  PlannerConfig, planner_mode, planner_fallback, extract_json_object, answer_text, plan_request,
}
use unison_orchestrator.Phase1.Plan.{PlannerPython, PlannerIds, plan}
use unison_orchestrator.Phase1.PlanSafety.{plan-execute}
use unison_orchestrator.Phase1.Planned.{plan_returns}
use unison_orchestrator.Phase1.Directives.{IsAllowed, default_renderer_directives-IsAllowed}

abbrev shown : Json → String
shown v = "?"

abbrev base : Fields
base =
    dict (("name", str "Ada") ∷ ("preferences", obj (dict (("verbosity", str "normal") ∷ []))) ∷ [])

abbrev change : Fields
change = dict (("preferences", obj (dict (("visual_density", str "dense") ∷ []))) ∷ [])

get-deep_merge_example :
    get "preferences" (deep_merge base change)
    ≡ merged
        (some (obj (dict (("visual_density", str "dense") ∷ []))))
        (some (obj (dict (("verbosity", str "normal") ∷ []))))
unfolding get
get-deep_merge_example = get-deep_merge "preferences" base change (refl, tt)

turn_advances_example :
    (get "stage" (
        dict_or_empty (
          get "onboarding" (
            apply_patches
              (profile_patch (onboarding_patch true "done" null) "Complete onboarding" ∷ [])
              end)))
      ≡ some (str "done"))
    × (get "completed" (
          dict_or_empty (
            get "onboarding" (
              apply_patches
                (profile_patch (onboarding_patch true "done" null) "Complete onboarding" ∷ [])
                end)))
        ≡ some (bool true))
unfolding turn_of get norm strip lower finishes
turn_advances_example =
    turn_advances shown "skip" end
      (profile_patch (onboarding_patch true "done" null) "Complete onboarding" ∷ []) refl

onboarding_completes_example :
    let p = after shown "ok" (after shown "High" (after shown "min" (after shown "Ada" end))) in
    (is_completed p ≡ true)
    × (get "preferred_name" p ≡ some (str "Ada"))
    × (get "verbosity" (dict_or_empty (get "preferences" p)) ≡ some (str "minimal"))
    × (get "visual_density" (dict_or_empty (get "preferences" p)) ≡ some (str "dense"))
unfolding get strip norm lower finishes greets is_filler verbosity_of density_of
onboarding_completes_example =
    onboarding_completes shown end "Ada" "min" "High" "ok" "minimal" "dense" refl refl (refl, refl)
      refl (refl, refl) refl (refl, refl) refl refl

-- A service that keeps every profile it is given for one person.
abbrev fetch : Fields → String → Reply
fetch s p = (true, 200, obj (dict (("ok", bool true) ∷ ("profile", obj s) ∷ [])))

abbrev post : Fields → String → Fields → Reply × Fields
post s p profile = ((true, 200, null), profile)

abbrev start : World Fields
start = record { service = base; invalidated = [] }

abbrev upsert_op : Fields
upsert_op = dict (
    ("op_id", str "m1")
    ∷ ("op", str "upsert")
    ∷ ("target", str "profile")
    ∷ ("payload", obj change)
    ∷ [])

execute_writes_example :
    let after = (execute shown fetch post upsert_op true (some "ada") start).1 in
    let old = read_profile (fetch start.service "ada") in
    let new = read_profile (fetch (after.service) "ada") in
    (get "preferences" (part upsert_op new)
      ≡ value_after "preferences" upsert_op (part upsert_op old))
    × (((is_text "profile" (get "target" upsert_op) || "preferences" == "preferences") ≡ true)
        ⊎ (get "preferences" new ≡ get "preferences" old))
    × (after.invalidated ≡ start.invalidated ++ "ada" ∷ [])
unfolding execute get deep_merge put upserted read_profile
execute_writes_example =
    execute_writes shown fetch post "preferences" upsert_op true "ada" start _
      (λ s p profile _. refl) refl refl refl (refl, tt) (refl, (refl, tt))

-- A model that allows itself a browse to a host off the allowlist.
abbrev evil_call : Fields
evil_call = dict (
    ("tool_call_id", str "t1")
    ∷ ("tool_name", str "vdi.use_computer")
    ∷ ("args", obj (dict (("action", str "open_url") ∷ ("url", str "http://evil.test/") ∷ [])))
    ∷ ("authorization", obj (dict (("policy_decision", str "allow") ∷ [])))
    ∷ [])

abbrev evil_plan : Fields
evil_plan = dict (("tool_calls", arr (cons (obj evil_call) nil)) ∷ [])

abbrev host : String → String
host url = "evil.test"

abbrev hardened_call : Fields
hardened_call =
    put "authorization" (obj (authorization_of host "example.com" "http://evil.test/")) evil_call

abbrev count_post : ℕ → Fields → Reply × ℕ
count_post n payload = ((true, 200, null), suc n)

abbrev planner_python : (Json → String) → PlannerPython
planner_python dumps = record {
  shown = shown;
  dumps = dumps;
  loads = λ t. ok (obj evil_plan);
  same = λ a b. true;
  hostname = host;
  injected = λ person session. "prompt";
  check_intent = λ intent. none;
  check_plan = λ out. none;
}

abbrev planner_config : PlannerConfig
planner_config = record {
  disable_inference = none;
  mode = none;
  fallback = some " Stub";
  provider = none;
  inference_provider = some "local";
  model = none;
  max_tokens = ok (int 900);
  temperature = ok (int 0);
  has_clients = true;
}

abbrev planner_ids : PlannerIds
planner_ids = record {
  intent_id = "i1";
  plan_id = "p1";
  call_id = "t1";
  memory_id = λ n. "m";
  first_id = "t2";
  second_id = "t3";
}

abbrev completed_profile : Option Fields
completed_profile = some (dict (("onboarding", obj (dict (("completed", bool true) ∷ []))) ∷ []))

plan-execute_example :
    (Tools.execute shown shown count_post hardened_call (some "ada") none none (some 0)).1 ≡ some 0
unfolding plan validated harden put get authorization_of is_allowlisted normalize_plan
    ensure_vdi_tool_call domain_allowlist split_on strip lower create_intent planner_mode
    onboarding_state extract_json_object answer_text plan_request starts_with contains_text
    default_renderer_directives
plan-execute_example =
    plan-execute (planner_python shown) "example.com" planner_config planner_ids "stub"
      (λ asked. (true, 200, obj (dict (("result", str "a plan") ∷ [])))) count_post "look" "text"
      completed_profile (some "ada") "s1" [] (create_intent "i1" "look" "text")
      (put "planner_model" (str "local:qwen2.5")
        (dict (("tool_calls", arr (cons (obj hardened_call) nil)) ∷ [])))
      0 hardened_call "http://evil.test/" (some "ada") none none (some 0)
      (λ v e. absurd (ground (arith, e))) refl refl refl refl

plan_returns_example :
    let after =
      plan
        (planner_python shown)
        "example.com"
        planner_config
        planner_ids
        "stub"
        (λ asked. (false, 503, null))
        "look"
        "text"
        completed_profile
        none
        "s1"
        [] in
    ((out : Fields) × (after.0 ≡ ok (create_intent "i1" "look" "text", out)))
    × (length (after.1) ≤ 2)
unfolding planner_fallback strip lower create_plan onboarding_state get default_renderer_directives
plan_returns_example =
    plan_returns (planner_python shown) "example.com" planner_config planner_ids "stub"
      (λ asked. (false, 503, null)) "look" "text" completed_profile none "s1" [] _ refl refl refl
      refl

abbrev fast_profile : Option Fields
fast_profile = some (dict (("preferences", obj (dict (("pacing_wpm", int 500) ∷ []))) ∷ []))

default_renderer_directives-IsAllowed_example :
    IsAllowed true (default_renderer_directives "voice" fast_profile (some "loud") none)
unfolding get
default_renderer_directives-IsAllowed_example =
    default_renderer_directives-IsAllowed "voice" fast_profile (some "loud") none

abbrev open_intent : Fields
open_intent =
    dict (("intent_id", str "i1") ∷ ("normalized_text", str "open https://example.com/a).") ∷ [])

abbrev onboarded : Option Fields
onboarded = some (dict (("onboarding", obj (dict (("completed", bool true) ∷ []))) ∷ []))
