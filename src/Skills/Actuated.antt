-- ===== src/Skills/Actuated.antt =====
-- src/orchestrator/skills.py: which skills have the actuation service act, and how often.
use mathlib.Core.Path.{subst}
use mathlib.Core.Option.{some-injective}
use unison_orchestrator.Prelude.{
  ℕ, ◌+◌, ◌≤◌, String, Bool, true, false, not, ◌&&◌, Option, none, some, List, [], ◌∷◌,
  if◌then◌else◌, is_some, elem, All, Result, ok, err, arith, ◌==◌, eq_iff, Bool-cases, Option-cases,
  Result-cases, inl, inr, ◌≡◌, refl,
}
use unison_orchestrator.Prelude.Json.{Json, str, obj, Fields, end, field, get, value_or, py_or}
use unison_orchestrator.Prelude.Dict.{Dict, lookup}
use unison_orchestrator.Companion.Types
use unison_orchestrator.Companion.Types.{
  Request, Reply, State, CompanionError, Config, Python, Act, ◌>>=◌, ◌>>◌, next, return, raise,
  lift, send, as_dict,
}
use unison_orchestrator.Companion.Kept.{Keeps, next-Keeps, if-Keeps, return-Keeps, lift-Keeps}
use unison_orchestrator.Companion.Aside.{steps}
use unison_orchestrator.Skills.Types.{SkillConfig, payload_or_empty, name_of}
use unison_orchestrator.Skills.Action.{
  Action, dict_with, has_device, has_name, valid_action, with_consent, post_telemetry,
  publish_actuation_telemetry, pass_on, propose, proposed_action,
}
use unison_orchestrator.Skills.Registered.{skills}
use unison_orchestrator.Skills.Still.{
  actuations, is_actuate, Still, send-Still, echo-Keeps, summarize_doc-Keeps, run_inference-Keeps,
  context_get-Keeps, storage_put-Keeps, person_enroll-Keeps, person_verify-Keeps,
  person_update_prefs-Keeps, wakeword_update-Keeps,
}
use unison_orchestrator.Skills.StillComms.{
  comms_check-Keeps, comms_summarize-Keeps, comms_reply-Keeps, comms_compose-Keeps, attend-Keeps,
  dashboard_refresh-Keeps, caps_report-Keeps, startup_prompt_plan-Keeps,
}

-- What holds of each entry holds of the one that is found.
lookup-All {ℓ κ} :
    {V : Type ℓ} (P : String → V → Type κ) (k : String) (d : Dict V) {v : V}
    → All (λ (e : String × V). P e.0 e.1) d
    → lookup k d ≡ some v
    → P k v
unfolding lookup
lookup-All P k [] h e = absurd (ground (arith, e))
lookup-All P k ((j, w) ∷ d) {v} h e = elim (Bool-cases (j == k)) [
  | inl q ↦
      (let same : w ≡ v = some-injective w v (ground (arith, q, e)) in
        subst (P k) same (subst (λ x. P x w) ((eq_iff j k).0 q) h.0))
  | inr q ↦ lookup-All P k d h.1 (ground (arith, q, e))
]

-- A text that is not empty.
abbrev is_name : Option Json → Bool
is_name (some (str s)) = not (s == "")
is_name _ = false

-- A dict with a key.
abbrev has_key : String → Option Json → Bool
has_key k (some (obj d)) = is_some (get k d)
has_key k _ = false

-- The payload names a person, a device with its class, and what is intended.
abbrev is_proper : Option Json → Bool
is_proper (some (obj payload)) =
    is_name (get "person_id" payload)
    && (has_key "device_id" (get "target" payload)
        && (has_key "device_class" (get "target" payload) && has_key "name" (get "intent" payload)))
is_proper _ = false

-- How many actuations a call of a skill may ask for.
unfoldable pub allowed : String → Fields → ℕ
allowed name envelope =
    if name == "proposed_action" && is_proper (get "payload" envelope) then 1 else 0

-- The skills that the companion's functions carry out.
abbrev pub companion_skills : List String
companion_skills = "companion.turn" ∷ "workflow.design" ∷ "workflow.recall" ∷ []

named-is_name : (o : Option Json) (p : String) → name_of o ≡ some p → is_name o ≡ true
named-is_name (some (str s)) p h = ground (arith, h)
named-is_name none p h = absurd (ground (arith, h))
named-is_name (some _) p h = absurd (ground (arith, h))

device-has_key :
    (o : Option Json) (d : Fields)
    → dict_with has_device o ≡ some d
    → (has_key "device_id" o ≡ true) × (has_key "device_class" o ≡ true)
device-has_key (some (obj d)) p h = (ground (arith, h), ground (arith, h))
device-has_key none p h = absurd (ground (arith, h))
device-has_key (some _) p h = absurd (ground (arith, h))

intent-has_key :
    (o : Option Json) (d : Fields) → dict_with has_name o ≡ some d → has_key "name" o ≡ true
intent-has_key (some (obj d)) p h = ground (arith, h)
intent-has_key none p h = absurd (ground (arith, h))
intent-has_key (some _) p h = absurd (ground (arith, h))

-- What passes the checks is proper.
valid_action-is_proper :
    (payload : Fields) (r : String × Fields × Fields)
    → valid_action payload ≡ ok r
    → is_proper (some (obj payload)) ≡ true
unfolding valid_action
valid_action-is_proper payload r h = elim (Option-cases (name_of (get "person_id" payload))) [
  | inl e ↦ absurd (ground (arith, h, e))
  | inr (p, e) ↦ elim (Option-cases (dict_with has_device (get "target" payload))) [
    | inl f ↦ absurd (ground (arith, h, e, f))
    | inr (t, f) ↦ elim (Option-cases (dict_with has_name (get "intent" payload))) [
      | inl g ↦ absurd (ground (arith, h, e, f, g))
      | inr (i, g) ↦ ground (
        arith,
        named-is_name (get "person_id" payload) p e,
        (device-has_key (get "target" payload) t f).0,
        (device-has_key (get "target" payload) t f).1,
        intent-has_key (get "intent" payload) i g,
      )
    ]
  ]
]

-- A payload that is not what stands in the envelope is empty, and so not proper.
payload-is_proper :
    (o : Option Json) (d : Fields)
    → as_dict (py_or (value_or (obj end) o) (obj end)) ≡ ok d
    → is_proper (some (obj d)) ≡ true
    → is_proper o ≡ true
unfolding get
payload-is_proper (some (obj (field j v c))) d h k = cc
payload-is_proper (some (obj end)) d h k = absurd (ground (arith, h, k))
payload-is_proper none d h k = absurd (ground (arith, h, k))
payload-is_proper (some v) d h k = absurd (ground (arith, h, k))

-- A step that asks for no more than one actuation.
record AtMostOne {A : Type 0} (m : Act A) : Type 0 where
  bound : (s : State) → actuations (m s).1.log ≤ 1 + actuations s.log

Still-AtMostOne : {A : Type 0} {m : Act A} → ((n : ℕ) → Keeps (Still n) m) → AtMostOne m
Still-AtMostOne h = record { bound = λ s. omega (arith, (h (actuations s.log)).kept s refl) }

-- Steps that ask for none, and one that asks for at most one.
next-AtMostOne :
    {A B : Type 0} {m : Act A} {f : A → Act B}
    → ((n : ℕ) → Keeps (Still n) m)
    → ((a : A) → AtMostOne (f a))
    → AtMostOne (m >>= f)
unfolding ◌>>=◌ next
next-AtMostOne {A} {B} {m} {f} h k = record {
  bound = λ s. go s (m s) ((h (actuations s.log)).kept s refl);
}
  where
    go :
        (s : State) (r : Result CompanionError A × State)
        → actuations r.1.log ≡ actuations s.log
        → actuations (next f r).1.log ≤ 1 + actuations s.log
    go s (ok a, t) e = omega (arith, e, (k a).bound t)
    go s (err x, t) e = omega (arith, e)

actuations_grow : (q : Request) (log : List Request) → actuations (q ∷ log) ≤ 1 + actuations log
unfolding actuations
actuations_grow (Types.actuate _) log = omega arith
actuations_grow _ log = omega arith

send-AtMostOne :
    (answer : List Request → Reply) {A : Type 0} (q : Request) {f : Reply → Act A}
    → ((r : Reply) (n : ℕ) → Keeps (Still n) (f r))
    → AtMostOne (send answer q >>= f)
unfolding ◌>>=◌ next send
send-AtMostOne answer q {f} h = record {
  bound = λ s. omega (
    arith,
    actuations_grow q s.log,
    (h (answer (q ∷ s.log)) (actuations (q ∷ s.log))).kept (record s { log = q ∷ s.log }) refl,
  );
}

module _ (python : Python) (answer : List Request → Reply) (config : SkillConfig) where
  with_consent-Keeps :
      (n : ℕ) (p : String) (d : Fields) → Keeps (Still n) (with_consent python answer config p d)
  unfolding with_consent is_actuate
  with_consent-Keeps n p d = search (steps, send-Still answer n) depth 12

  post_telemetry-Keeps :
      (n : ℕ) (l : List String) (d : Fields)
      → Keeps (Still n) (post_telemetry python answer config l d)
  unfolding post_telemetry is_actuate
  post_telemetry-Keeps n [] d = return-Keeps _
  post_telemetry-Keeps n (t ∷ ts) d =
      next-Keeps (search (send-Still answer n))
        λ r. if-Keeps _ (post_telemetry-Keeps n ts d) (return-Keeps _)

  if_bound :
      {A : Type 0} (t : Bool) {a b : Act A}
      → AtMostOne a
      → AtMostOne b
      → AtMostOne (if t then a else b)
  if_bound true h k = h
  if_bound false h k = k

  pass_on-AtMostOne : (e p : Fields) (a : Action) → AtMostOne (pass_on python answer config e p a)
  unfolding pass_on publish_actuation_telemetry
  pass_on-AtMostOne e p a =
      search (if_bound, Still-AtMostOne, send-AtMostOne, steps, post_telemetry-Keeps) depth 12

  propose-AtMostOne :
      (e p : Fields) (r : Result String (String × Fields × Fields))
      → AtMostOne (propose python answer config e p r)
  unfolding propose
  propose-AtMostOne e p (err x) = Still-AtMostOne λ n. return-Keeps _
  propose-AtMostOne e p (ok (q, t, i)) =
      next-AtMostOne (λ n. lift-Keeps _)
        λ given. next-AtMostOne (λ n. with_consent-Keeps n q given) λ c. pass_on-AtMostOne e p _

  proposed-AtMostOne : (e : Fields) → AtMostOne (proposed_action python answer config e)
  unfolding proposed_action
  proposed-AtMostOne e =
      next-AtMostOne (λ n. lift-Keeps _) λ p. propose-AtMostOne e p (valid_action p)

  -- An envelope that is not proper has nothing done.
  proposed_idle :
      (e : Fields) (s : State)
      → is_proper (get "payload" e) ≡ false
      → (proposed_action python answer config e s).1 ≡ s
  unfolding proposed_action propose ◌>>=◌ lift next return
  proposed_idle e s h = elim (Result-cases (payload_or_empty e)) [
    | inr (x, q) ↦ rw q refl
    | inl (d, q) ↦ elim (Result-cases (valid_action d)) [
      | inr (x, v) ↦ rw (q, v) refl
      | inl (r, v) ↦ absurd (
          ground (arith, h, payload-is_proper (get "payload" e) d q (valid_action-is_proper d r v)))
    ]
  ]

  -- A handler that asks for no more actuations than its skill may.
  abbrev Bounded : String → (Fields → Act Fields) → Type 0
  Bounded name handler =
      (e : Fields) (s : State) → actuations (handler e s).1.log ≤ allowed name e + actuations s.log

  proposed-Bounded : Bounded "proposed_action" (proposed_action python answer config)
  unfolding allowed
  proposed-Bounded e s = elim (Bool-cases (is_proper (get "payload" e))) [
    | inl h ↦ rw h ((proposed-AtMostOne e).bound s)
    | inr h ↦ rw (h, proposed_idle e s h) (omega arith)
  ]

  Still-Bounded :
      (name : String) (h : Fields → Act Fields)
      → ((n : ℕ) (e : Fields) → Keeps (Still n) (h e))
      → Bounded name h
  Still-Bounded name h k e s = omega (arith, (k (actuations s.log) e).kept s refl)

  infixr 4 ◌&◌
  ◌&◌ {ℓ κ} : {A : Type ℓ} {B : Type κ} → A → B → A × B
  a & b = (a, b)

  -- The skills' handlers, each with the bound of its name.
  table :
      (companion : Config)
      → All
          (λ (entry : String × (Fields → Act Fields)).
            elem entry.0 companion_skills ≡ false → Bounded entry.0 entry.1)
          (skills python answer companion config)
  unfolding skills
  table companion =
      (λ _. Still-Bounded _ _ λ n. echo-Keeps answer n python)
      & (λ _. Still-Bounded _ _ λ n. summarize_doc-Keeps answer n python)
      & (λ _. Still-Bounded _ _ λ n. summarize_doc-Keeps answer n python)
      & (λ _. Still-Bounded _ _ λ n. run_inference-Keeps answer n python)
      & (λ _. Still-Bounded _ _ λ n. run_inference-Keeps answer n python)
      & (λ _. Still-Bounded _ _ λ n. run_inference-Keeps answer n python)
      & (λ _. Still-Bounded _ _ λ n. context_get-Keeps answer n python)
      & (λ _. Still-Bounded _ _ λ n. storage_put-Keeps answer n python)
      & (λ h. absurd (ground (arith, h)))
      & (λ _. Still-Bounded _ _ λ n. person_enroll-Keeps answer n python)
      & (λ _. Still-Bounded _ _ λ n. person_verify-Keeps answer n python)
      & (λ _. Still-Bounded _ _ λ n. person_update_prefs-Keeps answer n python)
      & (λ _. Still-Bounded _ _ λ n. dashboard_refresh-Keeps python answer config n)
      & (λ h. absurd (ground (arith, h)))
      & (λ h. absurd (ground (arith, h)))
      & (λ _. Still-Bounded _ _ λ n. wakeword_update-Keeps answer n python)
      & (λ _. Still-Bounded _ _ λ n. comms_check-Keeps python answer config n)
      & (λ _. Still-Bounded _ _ λ n. comms_summarize-Keeps python answer config n)
      & (λ _. Still-Bounded _ _ λ n. comms_reply-Keeps python answer config n)
      & (λ _. Still-Bounded _ _ λ n. comms_compose-Keeps python answer config n)
      & (λ _. Still-Bounded _ _ λ n. attend-Keeps python answer config n "comms.join_meeting")
      & (λ _. Still-Bounded _ _ λ n. attend-Keeps python answer config n "comms.prepare_meeting")
      & (λ _. Still-Bounded _ _ λ n. attend-Keeps python answer config n "comms.debrief_meeting")
      & (λ _. Still-Bounded _ _ λ n. caps_report-Keeps python answer config n)
      & (λ _. Still-Bounded _ _ λ n. startup_prompt_plan-Keeps python answer config n)
      & (λ _. proposed-Bounded)
      & tt

  -- Of the skills that the companion's functions do not carry out, only proposed_action asks the
  -- actuation service to act: at most once in a call, and only where the payload names a person, a
  -- target with a device and its class, and what is intended; whatever the services answer, and
  -- whether or not the call raises.
  pub skill-actuations :
      (companion : Config) (name : String) (handler : Fields → Act Fields) (e : Fields) (s : State)
      → lookup name (skills python answer companion config) ≡ some handler
      → elem name companion_skills ≡ false
      → actuations (handler e s).1.log ≤ allowed name e + actuations s.log
  skill-actuations companion name handler e s found other =
      lookup-All (λ n h. elem n companion_skills ≡ false → Bounded n h) name
        (skills python answer companion config) (table companion) found other e s
