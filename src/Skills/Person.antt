-- ===== src/Skills/Person.antt =====
-- src/orchestrator/skills.py: the skills that read and write a person's profile.
use Prim.Native.Char.{code}
use unison_orchestrator.Prelude.{
  ℕ, suc, String, Bool, true, false, ◌&&◌, ◌||◌, Option, none, some, List, [], ◌∷◌, if◌then◌else◌,
  ltb, ◌==◌, strip, is_space, text_length,
}
use unison_orchestrator.Prelude.Json.{
  Json, null, bool, str, obj, Fields, end, field, get, put, truthy, dict, py_or, value_or, text_for,
}
use unison_orchestrator.Companion.Types.{
  Request, profile_get, profile_post, Reply, Python, Act, ◌>>=◌, return, lift, send, body_dict,
}
use unison_orchestrator.Skills.Types.{
  payload_of, payload_or_empty, name_of, refusal, dict_in, error_with,
}

abbrev pub done_for : String → Fields
done_for person = dict (("ok", bool true) ∷ ("person_id", str person) ∷ [])

-- `{**d, **updates}`
unfoldable pub merged : Fields → Fields → Fields
merged d end = d
merged d (field k v updates) = merged (put k v d) updates

-- The words of a text; `inside` says whether the text before ends within one.
unfoldable pub count_words : Bool → String → ℕ
count_words inside String.[] = 0
count_words inside (String.◌∷◌ c s) =
    let after = count_words false s in
    let within = count_words true s in
    if is_space (code c) then after else if inside then within else suc within

-- `not wakeword or len(wakeword.split()) > 3 or len(wakeword) > 24`
abbrev pub is_bad_wakeword : String → Bool
is_bad_wakeword w = w == "" || ltb 3 (count_words false w) || ltb 24 (text_length w)

-- `profile.get("auth", {}).get("pin")`, or `None` where that raises
abbrev pub pin_in : Json → Json
pin_in (obj profile) = elim (value_or (obj end) (get "auth" profile)) [
  | obj auth ↦ value_or null (get "pin" auth)
  | _ ↦ null
]
pin_in _ = null

abbrev pub verified : String → Fields
verified person =
    dict (("ok", bool true) ∷ ("person_id", str person) ∷ ("verified", bool true) ∷ [])

abbrev pub not_verified : Fields
not_verified =
    dict (("ok", bool false) ∷ ("verified", bool false) ∷ ("error", str "verification_failed") ∷ [])

module _ (python : Python) (answer : List Request → Reply) where
  unfoldable pub enroll : Option String → Option Json → Act Fields
  enroll none profile = return (refusal "invalid-person-id")
  enroll (some person) (some (obj profile)) = do
    reply ← send answer (profile_post (str person) (obj profile))
    if reply.success
        then return (done_for person)
        else return (
            dict (
              ("ok", bool false)
              ∷ ("error", str (error_with python "context error " reply.status))
              ∷ ("body", reply.body)
              ∷ []))
  enroll (some person) _ = return (refusal "invalid-profile")

  -- `handler_person_enroll`
  unfoldable pub person_enroll : Fields → Act Fields
  unfolding enroll
  person_enroll envelope = do
    payload ← lift (payload_of envelope)
    enroll (name_of (get "person_id" payload)) (get "profile" payload)

  unfoldable pub check_pin : String → Json → Reply → Option Fields → Act Fields
  check_pin person token reply none =
      return (refusal (error_with python "context error " reply.status))
  check_pin person token reply (some body) =
      let pin = pin_in (py_or (value_or null (get "profile" body)) (obj end)) in
      if truthy pin && python.same token pin then return (verified person) else return not_verified

  unfoldable pub verify : Option String → Json → Act Fields
  unfolding check_pin
  verify none token = return (refusal "invalid-person-id")
  verify (some person) token = do
    reply ← send answer (profile_get (str person))
    check_pin person token reply (body_dict reply)

  -- `handler_person_verify`
  unfoldable pub person_verify : Fields → Act Fields
  unfolding verify
  person_verify envelope = do
    payload ← lift (payload_of envelope)
    verify (name_of (get "person_id" payload)) (value_or null (get "verification_token" payload))

  -- Write a profile, and answer with a dict where that succeeds.
  unfoldable pub write_profile : String → Fields → Fields → Act Fields
  write_profile person profile done = do
    reply ← send answer (profile_post (str person) (obj profile))
    if reply.success
        then return done
        else return (refusal (error_with python "context error " reply.status))

  unfoldable pub update_read : String → Fields → Reply → Option Fields → Act Fields
  unfolding write_profile
  update_read person updates reply none =
      return (refusal (error_with python "context error " reply.status))
  update_read person updates reply (some body) = do
    profile ← lift (dict_in (get "profile" body))
    write_profile person (merged profile updates) (done_for person)

  unfoldable pub update_prefs : Option String → Option Json → Act Fields
  unfolding update_read
  update_prefs none updates = return (refusal "invalid-person-id")
  update_prefs (some person) (some (obj updates)) = do
    reply ← send answer (profile_get (str person))
    update_read person updates reply (body_dict reply)
  update_prefs (some person) _ = return (refusal "invalid-updates")

  -- `handler_person_update_prefs`
  unfoldable pub person_update_prefs : Fields → Act Fields
  unfolding update_prefs
  person_update_prefs envelope = do
    payload ← lift (payload_of envelope)
    update_prefs (name_of (get "person_id" payload)) (get "profile_updates" payload)

  -- The profile of an answer; none where the service gives none.
  abbrev pub profile_or_none : Option Fields → Option Json
  profile_or_none none = none
  profile_or_none (some body) = get "profile" body

  unfoldable pub set_wakeword : String → String → Act Fields
  unfolding write_profile
  set_wakeword person wakeword = do
    reply ← send answer (profile_get (str person))
    profile ← lift (dict_in (profile_or_none (body_dict reply)))
    voice ← lift (dict_in (get "voice" profile))
    write_profile person (put "voice" (obj (put "wakeword" (str wakeword) voice)) profile)
        (dict (("ok", bool true) ∷ ("person_id", str person) ∷ ("wakeword", str wakeword) ∷ []))

  unfoldable pub update_wakeword : Option String → String → Act Fields
  unfolding set_wakeword
  update_wakeword none wakeword = return (refusal "missing person_id")
  update_wakeword (some person) wakeword =
      if is_bad_wakeword wakeword
      then return (refusal "invalid wakeword")
      else set_wakeword person wakeword

  -- `handler_wakeword_update`
  unfoldable pub wakeword_update : Fields → Act Fields
  unfolding update_wakeword
  wakeword_update envelope = do
    payload ← lift (payload_or_empty envelope)
    let wakeword =
        py_or (value_or null (get "wakeword" payload))
          (py_or (value_or null (get "keyword" payload)) (str ""))
    update_wakeword (name_of (get "person_id" payload)) (strip (text_for python.shown wakeword))
