-- ===== src/PolicyGate/Closed.antt =====
-- The gate fails closed.
use mathlib.Core.Path.{subst}
use unison_orchestrator.Prelude.{
  ap, sym, ◌∙◌, Option, if◌then◌else◌, ◌&&◌, Option-cases, Result-cases, Result, Bool, true, false,
  none, some, String, ◌≡◌, ◌↔◌, refl, arith, ltb, ok, err, inl, inr,
}
use unison_orchestrator.Prelude.Json.{Json, bool, obj, Fields, end, get, truthy}
use unison_orchestrator.PolicyGate.{
  PolicyDecision, PolicyReply, scopes_of, answered, decision_of, is_true, check, check_remote,
}

-- The service was reached, with a status below 400 and a dict whose decision is a dict that allows
-- the action.
unfoldable pub Granted : PolicyReply → Type 0
Granted r =
    (body decision : Fields) × (r.reached ≡ true)
    × (ltb r.status 400 ≡ true)
    × (r.body ≡ obj body)
    × (get "decision" body ≡ some (obj decision))
    × (get "allowed" decision ≡ some (bool true))

answered_some :
    (reached low : Bool) (v : Json) (body : Fields)
    → (if reached && low then elim v [ obj b ↦ some b | _ ↦ none ] else none) ≡ some body
    → (reached ≡ true) × (low ≡ true) × (v ≡ obj body)
answered_some true true (obj b) body e =
    (refl, refl, ap (λ o. elim o [ some d ↦ obj d | none ↦ obj b ]) e)
answered_some true true v body e = absurd (ground (arith, e))
answered_some true false v body e = absurd (ground (arith, e))
answered_some false low v body e = absurd (ground (arith, e))

is_true-some : (o : Option Json) → is_true o ≡ true → o ≡ some (bool true)
is_true-some (some (bool true)) e = refl
is_true-some (some (bool false)) e = absurd (ground (arith, e))
is_true-some (some v) e = absurd (ground (arith, e))
is_true-some none e = absurd (ground (arith, e))

ok_same : {b c : Fields} → Path (Result String Fields) (ok b) (ok c) → b ≡ c
ok_same {b} h = ap (λ r. elim r [ ok x ↦ x | err _ ↦ b ]) h

denied : (d : Fields) → end ≡ d → is_true (get "allowed" d) ≡ true → ⊥
unfolding get
denied d e t =
    let never : false ≡ true = subst (λ x. is_true (get "allowed" x) ≡ true) (sym e) t in
    absurd (ground (arith, never))

empty_decision :
    (b : Bool) (d : Fields)
    → Path (Result String Fields) (if b then err "AttributeError" else ok end) (ok d)
    → end ≡ d
empty_decision true d e = absurd (ground (arith, e))
empty_decision false d e = ok_same e

decision_some :
    (o : Option Json) (d : Fields)
    → decision_of o ≡ ok d
    → is_true (get "allowed" d) ≡ true
    → o ≡ some (obj d)
decision_some (some (obj x)) d e t = ap (λ y. some (obj y)) (ok_same e)
decision_some none d e t = absurd (denied d (ok_same e) t)
decision_some (some v) d e t = absurd (denied d (empty_decision (truthy v) d e) t)

-- What the code looks at.
grants : PolicyReply → Bool
grants r = elim (answered r) [
  | none ↦ false
  | some body ↦ elim (decision_of (get "decision" body)) [
    | err _ ↦ false
    | ok d ↦ is_true (get "allowed" d)
  ]
]

check-grants :
    (py_str : Json → String) (policy_context args : Fields) (r : PolicyReply) (d : PolicyDecision)
    → check py_str false policy_context args (some r) ≡ ok d
    → d.allowed ≡ grants r
unfolding check check_remote grants
check-grants py_str policy_context args r d e =
    elim (Result-cases (scopes_of (get "scopes" policy_context))) [
      | inl (scopes, s) ↦ ground (arith, e, s)
      | inr (x, s) ↦ ground (arith, e, s)
    ]

decided-Granted :
    (r : PolicyReply) (body : Fields) (res : Result String Fields)
    → answered r ≡ some body
    → decision_of (get "decision" body) ≡ res
    → elim res [ err _ ↦ false | ok d ↦ is_true (get "allowed" d) ] ≡ true
    → Granted r
unfolding Granted
decided-Granted r body (err x) there e t = absurd (ground (arith, t))
decided-Granted r body (ok d) there e t =
    let (a, b, c) = answered_some r.reached (ltb r.status 400) r.body body there in
    (body, d, a, b, c, decision_some (get "decision" body) d e t, is_true-some (get "allowed" d) t)

grants-Granted : (r : PolicyReply) → (grants r ≡ true) ↔ Granted r
unfolding grants Granted
grants-Granted r = (
  λ h. elim (Option-cases (answered r)) [
    | inl e ↦ absurd (ground (arith, rw (grants, e) at h))
    | inr (body, e) ↦
        decided-Granted r body (decision_of (get "decision" body)) e refl (rw (grants, e) at h)
  ],
  λ (body, decision, reached, low, there, found, allowed).
      rw (grants, reached, low, there, found, allowed) refl,
)

-- With clients, and unless the gate is told to fail open: when it decides, it allows an action
-- exactly if the policy service was reached and answered with a status below 400 and a dict whose
-- decision is a dict with true for allowed.
pub check_closed :
    (py_str : Json → String) (policy_context args : Fields) (r : PolicyReply) (d : PolicyDecision)
    → check py_str false policy_context args (some r) ≡ ok d
    → (d.allowed ≡ true) ↔ Granted r
check_closed py_str policy_context args r d e =
    let same = check-grants py_str policy_context args r d e in
    (λ h. (grants-Granted r).0 (sym same ∙ h), λ g. same ∙ (grants-Granted r).1 g)
