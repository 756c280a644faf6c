-- ===== src/Skills/Verified.antt =====
-- src/orchestrator/skills.py: who counts as verified, and what an update of a profile writes.
use unison_orchestrator.Prelude.{
  String, Bool, true, false, ◌&&◌, Option, none, some, List, ◌∷◌, Result, ok, err, arith,
  Bool-cases, Option-cases, Result-cases, inl, inr, ◌≡◌, refl, sym, ap, ◌∙◌,
}
use unison_orchestrator.Prelude.Json.{
  Json, null, bool, str, obj, Fields, end, get, truthy, py_or, value_or,
}
use unison_orchestrator.Companion.Types.{
  Request, profile_get, Reply, CompanionError, State, Python, ◌>>=◌, next, return, lift, send,
  body_dict,
}
use unison_orchestrator.Skills.Types.{payload_of, name_of, refusal}
use unison_orchestrator.Skills.Person.{pin_in, not_verified, check_pin, verify, person_verify}

-- The pin of the profile in a body.
abbrev pub pin_of : Fields → Json
pin_of body = pin_in (py_or (value_or null (get "profile" body)) (obj end))

-- The answer says that the person is verified.
unfoldable pub says_verified : Result CompanionError Fields → Bool
says_verified (ok d) = elim (get "verified" d) [ some (bool b) ↦ b | _ ↦ false ]
says_verified (err e) = false

module _ (python : Python) (answer : List Request → Reply) where
  -- The pin of the body counts as true, and the token is it.
  abbrev pub Matches : Json → Fields → Type 0
  Matches token body = (truthy (pin_of body) ≡ true) × (python.same token (pin_of body) ≡ true)

  checked :
      (person : String) (token : Json) (r : Reply) (o : Option Fields) (s : State)
      → says_verified (check_pin python answer person token r o s).0 ≡ true
      → (body : Fields) × (o ≡ some body) × Matches token body
  unfolding check_pin return get says_verified
  checked person token r none s h = absurd (ground (arith, h))
  checked person token r (some body) s h =
      elim (Bool-cases (truthy (pin_of body) && python.same token (pin_of body))) [
        | inl e ↦ (body, refl, (ground (arith, e), ground (arith, e)))
        | inr e ↦
            (let r : (check_pin python answer person token r (some body) s).0 ≡ ok not_verified =
                rw (check_pin, e) refl in
              absurd (ground (arith, ap says_verified (sym r) ∙ h)))
      ]

  -- The profile that the service gives has a pin for the person, and the token is it.
  abbrev pub Known : Fields → State → Type 0
  Known payload s =
      (person : String) × (body : Fields) × (name_of (get "person_id" payload) ≡ some person)
      × (body_dict (answer (profile_get (str person) ∷ s.log)) ≡ some body)
      × Matches (value_or null (get "verification_token" payload)) body

  -- An answer that says that a person is verified is one to a payload that names a person whose
  -- profile, as the service gives it then, has a pin that counts as true and that is the token.
  pub person_verify-Known :
      (e : Fields) (s : State)
      → says_verified (person_verify python answer e s).0 ≡ true
      → (payload : Fields) × (payload_of e ≡ ok payload) × Known payload s
  unfolding person_verify verify ◌>>=◌ next lift send return says_verified get
  person_verify-Known e s h = elim (Result-cases (payload_of e)) [
    | inr (x, q) ↦
        (let r : (person_verify python answer e s).0 ≡ err x = rw (person_verify, q) refl in
          absurd (ground (arith, ap says_verified (sym r) ∙ h)))
    | inl (payload, q) ↦ elim (Option-cases (name_of (get "person_id" payload))) [
      | inl n ↦
          (let r : (person_verify python answer e s).0 ≡ ok (refusal "invalid-person-id") =
              rw (person_verify, q, verify, n) refl in
            absurd (ground (arith, ap says_verified (sym r) ∙ h)))
      | inr (person, n) ↦
          (let token = value_or null (get "verification_token" payload) in
            let reply = answer (profile_get (str person) ∷ s.log) in
            let after = record s { log = profile_get (str person) ∷ s.log } in
            let r : (person_verify python answer e s).0
                ≡ (check_pin python answer person token reply (body_dict reply) after).0 =
              rw (person_verify, q, verify, n) refl in
            let (body, b, m) =
              checked person token reply (body_dict reply) after (ap says_verified (sym r) ∙ h) in
            (payload, q, (person, body, n, b, m)))
    ]
  ]
