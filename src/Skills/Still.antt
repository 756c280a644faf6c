-- ===== src/Skills/Still.antt =====
-- src/orchestrator/skills.py: the skills on profiles and keys do not ask for an actuation.
use unison_orchestrator.Prelude.{
  ℕ, suc, String, Bool, true, false, Option, none, some, List, [], ◌∷◌, arith, ◌≡◌, refl,
}
use unison_orchestrator.Prelude.Json.{Json, null, arr, obj, Fields}
use unison_orchestrator.Companion.Types
use unison_orchestrator.Companion.Types.{
  Request, Reply, State, CompanionError, Config, Python, Act, ◌>>=◌, ◌>>◌, next, return, raise,
  lift, send,
}
use unison_orchestrator.Companion.Kept.{Keeps, return-Keeps, raise-Keeps, send-Keeps}
use unison_orchestrator.Companion.Aside.{steps}
use unison_orchestrator.Skills.Types.{attempt}
use unison_orchestrator.Skills.Basic.{
  echo, summarize_doc, run_inference, dict_or_raise, get_keys, context_get, put_value, storage_put,
}
use unison_orchestrator.Skills.Person.{
  enroll, person_enroll, check_pin, verify, person_verify, write_profile, update_read, update_prefs,
  person_update_prefs, set_wakeword, update_wakeword, wakeword_update,
}

-- How often the actuation service was asked to act.
unfoldable pub actuations : List Request → ℕ
actuations [] = 0
actuations (Types.actuate _ ∷ log) = suc (actuations log)
actuations (_ ∷ log) = actuations log

unfoldable pub is_actuate : Request → Bool
is_actuate (Types.actuate _) = true
is_actuate _ = false

abbrev pub Still : ℕ → List Request → Type 0
Still n log = actuations log ≡ n

actuations_later :
    (q : Request) (log : List Request)
    → is_actuate q ≡ false
    → actuations (q ∷ log) ≡ actuations log
unfolding actuations is_actuate
actuations_later (Types.actuate _) log h = absurd (ground (arith, h))
actuations_later _ log h = refl

pub attempt-Keeps {ι} :
    {P : List Request → Type ι} {A : Type 0} {m : Act A} → Keeps P m → Keeps P (attempt m)
unfolding attempt
attempt-Keeps h = record { kept = h.kept }

module _ (answer : List Request → Reply) (n : ℕ) where
  pub send-Still : (q : Request) → is_actuate q ≡ false → Keeps (Still n) (send answer q)
  send-Still q h = send-Keeps answer q λ log e. ground (arith, actuations_later q log h, e)

  module _ (python : Python) where
    pub echo-Keeps : (e : Fields) → Keeps (Still n) (echo e)
    unfolding echo
    echo-Keeps e = return-Keeps _

    pub summarize_doc-Keeps : (e : Fields) → Keeps (Still n) (summarize_doc e)
    unfolding summarize_doc
    summarize_doc-Keeps e = return-Keeps _

    pub run_inference-Keeps : (e : Fields) → Keeps (Still n) (run_inference python answer e)
    unfolding run_inference is_actuate
    run_inference-Keeps e = search (steps, send-Still) depth 12

    dict_or_raise-Keeps :
        (e : String) (r : Reply) (o : Option Fields)
        → Keeps (Still n) (dict_or_raise python answer e r o)
    unfolding dict_or_raise
    dict_or_raise-Keeps e r none = raise-Keeps _
    dict_or_raise-Keeps e r (some b) = return-Keeps _

    get_keys-Keeps : (o : Option Json) → Keeps (Still n) (get_keys python answer o)
    unfolding get_keys is_actuate
    get_keys-Keeps (some (arr l)) = search (steps, send-Still, dict_or_raise-Keeps)
    get_keys-Keeps _ = raise-Keeps _

    pub context_get-Keeps : (e : Fields) → Keeps (Still n) (context_get python answer e)
    unfolding context_get
    context_get-Keeps e = search (steps, get_keys-Keeps)

    put_value-Keeps : (o : Option String) (v : Json) → Keeps (Still n) (put_value python answer o v)
    unfolding put_value is_actuate
    put_value-Keeps none v = raise-Keeps _
    put_value-Keeps (some k) null = raise-Keeps _
    put_value-Keeps (some k) _ = search (steps, send-Still, dict_or_raise-Keeps)

    pub storage_put-Keeps : (e : Fields) → Keeps (Still n) (storage_put python answer e)
    unfolding storage_put
    storage_put-Keeps e = search (steps, put_value-Keeps)

    enroll-Keeps :
        (o : Option String) (p : Option Json) → Keeps (Still n) (enroll python answer o p)
    unfolding enroll is_actuate
    enroll-Keeps none p = return-Keeps _
    enroll-Keeps (some k) (some (obj d)) = search (steps, send-Still)
    enroll-Keeps (some k) _ = return-Keeps _

    check_pin-Keeps :
        (p : String) (t : Json) (r : Reply) (o : Option Fields)
        → Keeps (Still n) (check_pin python answer p t r o)
    unfolding check_pin
    check_pin-Keeps p t r none = return-Keeps _
    check_pin-Keeps p t r (some b) = search steps

    verify-Keeps : (o : Option String) (t : Json) → Keeps (Still n) (verify python answer o t)
    unfolding verify is_actuate
    verify-Keeps none t = return-Keeps _
    verify-Keeps (some p) t = search (steps, send-Still, check_pin-Keeps)

    write_profile-Keeps :
        (p : String) (d r : Fields) → Keeps (Still n) (write_profile python answer p d r)
    unfolding write_profile is_actuate
    write_profile-Keeps p d r = search (steps, send-Still)

    update_read-Keeps :
        (p : String) (u : Fields) (r : Reply) (o : Option Fields)
        → Keeps (Still n) (update_read python answer p u r o)
    unfolding update_read
    update_read-Keeps p u r none = return-Keeps _
    update_read-Keeps p u r (some b) = search (steps, write_profile-Keeps)

    update_prefs-Keeps :
        (o : Option String) (u : Option Json) → Keeps (Still n) (update_prefs python answer o u)
    unfolding update_prefs is_actuate
    update_prefs-Keeps none u = return-Keeps _
    update_prefs-Keeps (some p) (some (obj u)) = search (steps, send-Still, update_read-Keeps)
    update_prefs-Keeps (some p) _ = return-Keeps _

    update_wakeword-Keeps :
        (o : Option String) (w : String) → Keeps (Still n) (update_wakeword python answer o w)
    unfolding update_wakeword set_wakeword is_actuate
    update_wakeword-Keeps none w = return-Keeps _
    update_wakeword-Keeps (some p) w = search (steps, send-Still, write_profile-Keeps) depth 12

    pub person_enroll-Keeps : (e : Fields) → Keeps (Still n) (person_enroll python answer e)
    unfolding person_enroll
    person_enroll-Keeps e = search (steps, enroll-Keeps)

    pub person_verify-Keeps : (e : Fields) → Keeps (Still n) (person_verify python answer e)
    unfolding person_verify
    person_verify-Keeps e = search (steps, verify-Keeps)

    pub person_update_prefs-Keeps :
        (e : Fields) → Keeps (Still n) (person_update_prefs python answer e)
    unfolding person_update_prefs
    person_update_prefs-Keeps e = search (steps, update_prefs-Keeps)

    pub wakeword_update-Keeps : (e : Fields) → Keeps (Still n) (wakeword_update python answer e)
    unfolding wakeword_update
    wakeword_update-Keeps e = search (steps, update_wakeword-Keeps)
