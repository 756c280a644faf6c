-- ===== src/Phase1/Safety.antt =====
-- From a planner model's answer to the actuation service.
use mathlib.Core.Path.{subst}
use unison_orchestrator.Prelude.{
  ℕ, String, Bool, true, false, Option, none, some, if◌then◌else◌, ◌≡◌, refl, sym, ap, ◌∙◌, arith,
  ◌==◌, eq_iff, strip, Bool-cases, inl, inr, ok,
}
use unison_orchestrator.Prelude.Json.{
  items_or_empty, Json, str, Fields, get, put, dict_or_empty, is_text, truthy,
}
use unison_orchestrator.Phase1.Memory.{Reply, text_or_empty}
use unison_orchestrator.Phase1.Planner.{is_allowlisted, harden, normalize_plan}
use unison_orchestrator.Phase1.Stub.{PlannerError, ensure_vdi_tool_call, validated}
use unison_orchestrator.Phase1.Tools.{execute, use_computer, url_of}
use unison_orchestrator.Phase1.Browse.{
  Guarded, AllGuarded, calls, nth_call, nth_call-Guarded, harden-AllGuarded, ensure-AllGuarded,
  calls-normalize_plan, args_of, allows,
}

url_of_blank : (args : Fields) → get "url" args ≡ some (str "") → url_of args ≡ none
unfolding strip
url_of_blank args e = elim (Bool-cases (is_text "open_url" (get "action" args))) [
  | inl o ↦ rw (o, url_of, e) refl
  | inr o ↦ rw (o, url_of) refl
]

module _ (hostname : String → String) (domains : String) where
  pub validated-AllGuarded :
      (same : Option Json → Option Json → Bool) (check : Fields → Option PlannerError)
      (id model : String) (directives intent : Fields) (raw : String) (parsed out : Fields)
      → validated hostname domains same check id model directives intent raw parsed ≡ ok out
      → AllGuarded hostname domains (calls hostname domains out)
  unfolding validated
  validated-AllGuarded same check id model directives intent raw parsed out e =
      let first = put "planner_model" (str model) parsed in
      let done =
        ensure_vdi_tool_call hostname domains id intent raw
          (normalize_plan (harden hostname domains first)) in
      let made : done ≡ out = ground (arith, e) in
      subst (λ x. AllGuarded hostname domains (calls hostname domains x)) made
        (ensure-AllGuarded hostname domains id intent raw
          (normalize_plan (harden hostname domains first))
          (subst (AllGuarded hostname domains)
            (sym (calls-normalize_plan hostname domains (harden hostname domains first)))
            (harden-AllGuarded hostname domains first)))

module _ {S : Type 0} (py_str dumps : Json → String) (post : S → Fields → Reply × S) where
  -- With an empty URL the service is not called.
  use_computer_blank :
      (id : String) (args : Fields) (person trace_id session_id : Option String)
      (service : Option S)
      → get "url" args ≡ some (str "")
      → (use_computer py_str dumps post id args person trace_id session_id service).1 ≡ service
  unfolding use_computer
  use_computer_blank id args person trace_id session_id none e = refl
  use_computer_blank id args none trace_id session_id (some s) e = refl
  use_computer_blank id args (some p) trace_id session_id (some s) e = elim (Bool-cases (p == "")) [
    | inl b ↦ rw b refl
    | inr b ↦ rw (b, url_of_blank args e) refl
  ]

  -- A call that is not allowed does not reach the service.
  execute_refused :
      (tc : Fields) (person trace_id session_id : Option String) (service : Option S)
      → allows tc ≡ false
      → (execute py_str dumps post tc person trace_id session_id service).1 ≡ service
  unfolding execute
  execute_refused tc person trace_id session_id service e = rw e refl

  execute_via :
      (tc : Fields) (person trace_id session_id : Option String) (service : Option S)
      → (use_computer py_str dumps post
          (text_or_empty py_str (get "tool_call_id" tc))
          (args_of tc)
          person
          trace_id
          session_id
          service).1
        ≡ service
      → (execute py_str dumps post tc person trace_id session_id service).1 ≡ service
  unfolding execute
  execute_via tc person trace_id session_id service h = ground (arith, h)

  execute_other :
      (tc : Fields) (person trace_id session_id : Option String) (service : Option S)
      → (text_or_empty py_str (get "tool_name" tc) == "vdi.use_computer") ≡ false
      → (execute py_str dumps post tc person trace_id session_id service).1 ≡ service
  unfolding execute
  execute_other tc person trace_id session_id service e = ground (arith, e)

  -- `str` gives the name of the browsing tool for that text only.
  abbrev pub Plain : Type 0
  Plain =
      (v : Json)
      → (py_str v == "vdi.use_computer") ≡ true
      → is_text "vdi.use_computer" (some v) ≡ true

  named_tool :
      Plain
      → (v : Option Json) → (text_or_empty py_str v == "vdi.use_computer") ≡ true
      → is_text "vdi.use_computer" v ≡ true
  named_tool plain none e = absurd (ground (arith, e))
  named_tool plain (some (str s)) e =
      ground (arith, e, eq_iff s "vdi.use_computer", eq_iff "vdi.use_computer" s)
  named_tool plain (some v) e = elim (Bool-cases (truthy v)) [
    | inl t ↦ plain v (subst (λ b. ((if b then py_str v else "") == "vdi.use_computer") ≡ true) t e)
    | inr t ↦
        let never : ("" == "vdi.use_computer") ≡ true =
          subst (λ b. ((if b then py_str v else "") == "vdi.use_computer") ≡ true) t e in
        absurd (ground (arith, never))
  ]

  -- A guarded call to a URL off the allowlist does not reach the service.
  pub execute-Guarded :
      (hostname : String → String) (domains url : String) (tc : Fields)
      (person trace_id session_id : Option String) (service : Option S)
      → Plain
      → Guarded hostname domains tc
      → get "url" (args_of tc) ≡ some (str url)
      → is_allowlisted hostname domains url ≡ false
      → (execute py_str dumps post tc person trace_id session_id service).1 ≡ service
  unfolding Guarded
  execute-Guarded hostname domains url tc person trace_id session_id service plain g u h =
      elim (Bool-cases (url == "")) [
        | inl b ↦ execute_via tc person trace_id session_id service (
            use_computer_blank _ (args_of tc) person trace_id session_id service
              (u ∙ ap (λ x. some (str x)) ((eq_iff url "").0 b)))
        | inr b ↦
            elim (Bool-cases (text_or_empty py_str (get "tool_name" tc) == "vdi.use_computer")) [
              | inl n ↦
                  execute_refused tc person trace_id session_id service
                    (g url (named_tool plain (get "tool_name" tc) n) u b h)
              | inr n ↦ execute_other tc person trace_id session_id service n
            ]
      ]

  -- Whatever object a planner model answers: if the plan is accepted, executing any tool call of it
  -- whose URL is off the allowlist leaves the actuation service as it was. Python's `str`
  -- gives the name of the browsing tool for that text only.
  pub validated-execute :
      (hostname : String → String) (domains : String) (same : Option Json → Option Json → Bool)
      (check : Fields → Option PlannerError) (id model : String) (directives intent : Fields)
      (raw : String) (parsed out : Fields) (n : ℕ) (tc : Fields) (url : String)
      (person trace_id session_id : Option String) (service : Option S)
      → Plain
      → validated hostname domains same check id model directives intent raw parsed ≡ ok out
      → nth_call n (items_or_empty (get "tool_calls" out)) ≡ some tc
      → get "url" (dict_or_empty (get "args" tc)) ≡ some (str url)
      → is_allowlisted hostname domains url ≡ false
      → (execute py_str dumps post tc person trace_id session_id service).1 ≡ service
  unfolding calls
  validated-execute hostname domains same check id model directives intent raw parsed out n tc url
        person trace_id session_id service plain e at u h =
      execute-Guarded hostname domains url tc person trace_id session_id service plain
        (nth_call-Guarded hostname domains n (calls hostname domains out) tc
          (validated-AllGuarded hostname domains same check id model directives intent raw parsed
            out e)
          at)
        u h
