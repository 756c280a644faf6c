-- ===== src/Skills/Tests.antt =====
-- src/orchestrator/skills.py: runs, with services that give one profile and accept all else.
use Prim.Native.String
use unison_orchestrator.Prelude.{
  ◌+◌, ◌≤◌, String, true, false, Option, none, some, List, [], ◌∷◌, ok, ◌≡◌, refl, starts_with,
}
use unison_orchestrator.Prelude.Json.{
  Json, null, int, str, arr, obj, nil, cons, Fields, end, dict, get, put,
}
use unison_orchestrator.Prelude.Dict.{lookup, contains, insert}
use unison_orchestrator.Companion.Types
use unison_orchestrator.Companion.Types.{
  Request, Reply, State, Config, Python, Act, ◌>>=◌, ◌>>◌, next, return, lift, send, body_dict,
}
use unison_orchestrator.Companion.Registry.{register_skill_tool}
use unison_orchestrator.Skills.Types.{SkillConfig, payload_of}
use unison_orchestrator.Skills.Person.{person_verify, verify, check_pin}
use unison_orchestrator.Skills.Action.{
  valid_action, granted_reference, grants_actuation, any_actuation, with_consent, actuation_body,
  post_telemetry, publish_actuation_telemetry, pass_on, propose, proposed_action,
}
use unison_orchestrator.Skills.Registered.{register_all, register_tools, skills}
use unison_orchestrator.Skills.Still.{actuations}
use unison_orchestrator.Skills.Actuated.{allowed, skill-actuations}
use unison_orchestrator.Skills.Verified.{says_verified, Known, person_verify-Known}

abbrev python : Python
python = record {
  shown = λ _. "shown";
  loads = λ _. none;
  dict_from = λ _. none;
  items_from = λ _. none;
  int_from = λ v. some v;
  complaint = "unusable";
  same = λ a b. true;
  stale = λ a b. false;
  since = λ v. v;
  now = int 1;
  new_event = "event";
  new_session = "session";
  system_prompt = λ _ _ _. "prompt";
  new_id = λ _. "step";
}

abbrev config : Config
config = record {
  boundaries = false;
  mcp_url = false;
  renderer_url = false;
  speech_url = false;
  graph_url = false;
  max_tokens = 256;
}

abbrev skill : SkillConfig
skill = record {
  graph_url = true;
  renderer_url = false;
  experience_url = true;
  capability = false;
  actuation = true;
  consent = true;
  locale = "en_US.UTF-8";
  new_action = "action";
  listed_set = λ _. nil;
}

abbrev fresh : State
fresh = record {
  tools = [];
  last_published = [];
  memory = [];
  engines = [];
  proposals = [];
  log = [];
}

abbrev accepted : Json → Reply
accepted body = record { success = true; status = 200; body = body }

abbrev object : String → Json → Json
object k v = obj (dict ((k, v) ∷ []))

-- One profile, with a pin, and two grants.
abbrev answer : List Request → Reply
answer (Types.profile_get _ ∷ _) =
    accepted (object "profile" (object "auth" (object "pin" (str "1234"))))
answer (Types.grants_get _ ∷ _) = accepted (
    object "grants" (
      arr (
        cons (object "scopes" (arr (cons (str "calendar.read") nil))) (
          cons
            (obj
              (dict (("scopes", arr (cons (str "actuation.light") nil)) ∷ ("id", str "g2") ∷ [])))
            nil))))
answer _ = accepted (obj end)

-- The same, with a context service that cannot be reached.
abbrev silent : List Request → Reply
silent (Types.profile_get _ ∷ _) = record { success = false; status = 503; body = null }
silent log = answer log

abbrev envelope : List (String × Json) → Fields
envelope payload = dict (("payload", obj (dict payload)) ∷ [])

abbrev light_on : Fields
light_on = envelope (
    ("person_id", str "ann")
    ∷ ("target", obj (dict (("device_id", str "lamp") ∷ ("device_class", str "light") ∷ [])))
    ∷ ("intent", object "name" (str "on"))
    ∷ [])

abbrev consents : List Request → Option Json
consents [] = none
consents (Types.actuate body ∷ _) = get "policy_context" body
consents (_ ∷ log) = consents log

-- The action is passed on with the grant for actuation.
granted :
    consents (proposed_action python answer skill light_on fresh).1.log
    ≡ some (object "consent_reference" (str "g2"))
unfolding get put proposed_action valid_action propose with_consent granted_reference
    grants_actuation any_actuation pass_on actuation_body publish_actuation_telemetry post_telemetry
    ◌>>=◌ ◌>>◌ next return lift send starts_with
granted = refl

skill-actuations_example :
    actuations (proposed_action python answer skill light_on fresh).1.log
    ≤ allowed "proposed_action" light_on + 0
unfolding skills lookup actuations
skill-actuations_example =
    skill-actuations python answer skill config "proposed_action"
      (proposed_action python answer skill) light_on fresh refl refl

allowed_once : allowed "proposed_action" light_on ≡ 1
unfolding allowed get
allowed_once = refl

-- The tool is one of those that the model is told of.
advertised : contains "proposed_action" (register_tools fresh).tools ≡ true
unfolding register_tools register_all register_skill_tool lookup insert
advertised = refl

abbrev hey_computer : List (String × Json)
hey_computer = ("person_id", str "ann") ∷ ("wakeword", str "hey computer") ∷ []

abbrev pin_given : Fields
pin_given = envelope (("person_id", str "ann") ∷ ("verification_token", str "1234") ∷ [])

is_verified : says_verified (person_verify python answer pin_given fresh).0 ≡ true
unfolding says_verified person_verify verify check_pin ◌>>=◌ next lift send return get
is_verified = refl

person_verify-Known_example :
    (payload : Fields) × (payload_of pin_given ≡ ok payload) × Known python answer payload fresh
person_verify-Known_example = person_verify-Known python answer pin_given fresh is_verified
