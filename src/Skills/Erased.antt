-- ===== src/Skills/Erased.antt =====
-- src/orchestrator/skills.py: what a new wakeword writes when the profile cannot be read.
use unison_orchestrator.Prelude.{
  String, false, none, some, List, ◌∷◌, strip, ok, arith, eq_iff, ◌≡◌, ◌≢◌, refl, Bool-cases, inl,
  inr,
}
use unison_orchestrator.Prelude.Json.{
  null, str, obj, Fields, end, get, put, get-put, py_or, value_or, text_for,
}
use unison_orchestrator.Companion.Types.{
  Request, profile_get, profile_post, Reply, State, Python, ◌>>=◌, next, return, lift, send,
  body_dict,
}
use unison_orchestrator.Skills.Types.{payload_or_empty, name_of}
use unison_orchestrator.Skills.Person.{
  is_bad_wakeword, write_profile, set_wakeword, update_wakeword, wakeword_update,
}

-- The wakeword that a payload asks for.
abbrev wakeword_in : Python → Fields → String
wakeword_in python payload = strip (
    text_for python.shown (
      py_or (value_or null (get "wakeword" payload))
        (py_or (value_or null (get "keyword" payload)) (str ""))))

module _ (python : Python) (answer : List Request → Reply) where
  write_profile_log :
      (person : String) (d done : Fields) (s : State)
      → (write_profile python answer person d done s).1.log
        ≡ profile_post (str person) (obj d) ∷ s.log
  unfolding write_profile ◌>>=◌ next send return
  write_profile_log person d done s =
      elim (Bool-cases (answer (profile_post (str person) (obj d) ∷ s.log)).success) [
        | inl e ↦ rw (write_profile, e) refl
        | inr e ↦ rw (write_profile, e) refl
      ]

  set_log :
      (person w : String) (s : State)
      → body_dict (answer (profile_get (str person) ∷ s.log)) ≡ none
      → (set_wakeword python answer person w s).1.log
        ≡ profile_post (str person) (obj (put "voice" (obj (put "wakeword" (str w) end)) end))
          ∷ profile_get (str person)
          ∷ s.log
  unfolding set_wakeword ◌>>=◌ next lift send get
  set_log person w s h =
      rw (set_wakeword, h)
        (write_profile_log person (put "voice" (obj (put "wakeword" (str w) end)) end) _
          (record s { log = profile_get (str person) ∷ s.log }))

  written_log :
      (envelope payload : Fields) (person : String) (s : State)
      → payload_or_empty envelope ≡ ok payload
      → name_of (get "person_id" payload) ≡ some person
      → is_bad_wakeword (wakeword_in python payload) ≡ false
      → body_dict (answer (profile_get (str person) ∷ s.log)) ≡ none
      → (wakeword_update python answer envelope s).1.log
        ≡ profile_post
            (str person)
            (obj (put "voice" (obj (put "wakeword" (str (wakeword_in python payload)) end)) end))
          ∷ profile_get (str person)
          ∷ s.log
  unfolding wakeword_update update_wakeword ◌>>=◌ next lift
  written_log envelope payload person s e f g h =
      rw (wakeword_update, e, f, update_wakeword, g)
        (set_log person (wakeword_in python payload) s h)

  -- When the service gives no profile, an accepted wakeword is written all the same: as a profile
  -- that has the wakeword, and nothing else that the person's profile held.
  pub wakeword_update_erases :
      (envelope payload : Fields) (person : String) (s : State)
      → payload_or_empty envelope ≡ ok payload
      → name_of (get "person_id" payload) ≡ some person
      → is_bad_wakeword (wakeword_in python payload) ≡ false
      → body_dict (answer (profile_get (str person) ∷ s.log)) ≡ none
      → (written : Fields) × (voice : Fields) × ((wakeword_update python answer envelope s).1.log
          ≡ profile_post (str person) (obj written) ∷ profile_get (str person) ∷ s.log)
        × (get "voice" written ≡ some (obj voice))
        × (get "wakeword" voice ≡ some (str (wakeword_in python payload)))
        × ((k : String) → "voice" ≢ k → get k written ≡ none)
  unfolding get put
  wakeword_update_erases envelope payload person s e f g h = (
    put "voice" (obj voice) end,
    voice,
    written_log envelope payload person s e f g h,
    refl,
    refl,
    λ k ne. ground (arith, get-put "voice" k (obj voice) end, eq_iff "voice" k, ne),
  )
    where
      voice : Fields
      voice = put "wakeword" (str (wakeword_in python payload)) end
