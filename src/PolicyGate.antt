-- ===== src/PolicyGate.antt =====
-- src/orchestrator/interaction/policy_gate.py: the gate in front of a proposed action. The reply of
-- the policy service is an argument, as is Python's `str` of a value that is no text. The fields
-- that PolicyDecision takes by default are none; texts are ASCII where they are lowered.
pub mod Closed
mod Tests
use Prim.Native.String
use unison_orchestrator.Prelude.{
  ℕ, String, Bool, true, false, not, ◌&&◌, ◌||◌, Option, none, some, if◌then◌else◌, ltb, ◌==◌, ◌≡◌,
  refl, arith, eq_iff, lower, contains_text, Bool-cases, inl, inr, Result, ok, err,
}
use unison_orchestrator.Prelude.Json.{
  Json, bool, str, arr, obj, Items, nil, cons, Fields, end, field, get, truthy,
}

pub record PolicyDecision : Type 0 where
  pub allowed : Bool
  pub require_confirmation : Option Bool
  pub reason : Option String
  pub required_scopes : Items

-- The policy service's answer.
pub record PolicyReply : Type 0 where
  pub reached : Bool
  pub status : ℕ
  pub body : Json

-- `d.get(k, False) is True`
abbrev pub is_true : Option Json → Bool
is_true (some (bool b)) = b
is_true _ = false

-- `body.get("decision") or {}`; a decision that is no dict makes the next line raise.
abbrev pub decision_of : Option Json → Result String Fields
decision_of none = ok end
decision_of (some (obj d)) = ok d
decision_of (some v) = if truthy v then err "AttributeError" else ok end

characters_of : String → Items
characters_of String.[] = nil
characters_of (String.◌∷◌ c s) = cons (str (String.◌∷◌ c String.[])) (characters_of s)

keys_in : Fields → Items
keys_in end = nil
keys_in (field k v d) = cons (str k) (keys_in d)

-- `list(scopes or [])`: a text gives its characters, a dict its keys, and a number raises.
unfoldable pub scopes_of : Option Json → Result String Items
unfolding characters_of keys_in
scopes_of none = ok nil
scopes_of (some (arr items)) = ok items
scopes_of (some (str s)) = ok (characters_of s)
scopes_of (some (obj d)) = ok (keys_in d)
scopes_of (some v) = if truthy v then err "TypeError" else ok nil

-- The decision, if its scopes are there.
abbrev pub scoped : Result String Items → (Items → PolicyDecision) → Result String PolicyDecision
scoped (ok scopes) f = ok (f scopes)
scoped (err e) f = err e

-- The dict of a reply that counts.
abbrev pub answered : PolicyReply → Option Fields
answered r =
    if r.reached && ltb r.status 400 then elim (r.body) [ obj b ↦ some b | _ ↦ none ] else none

module _ (py_str : Json → String) where
  abbrev reason_of : Option Json → String
  reason_of (some (str s)) = if s == "" then "policy" else s
  reason_of (some v) = if truthy v then py_str v else "policy"
  reason_of none = "policy"

  -- `check` with clients. `fail_open` is the reading of UNISON_POLICY_FAIL_OPEN.
  unfoldable pub check_remote : Bool → Fields → PolicyReply → Result String PolicyDecision
  unfolding scopes_of
  check_remote fail_open policy_context r = elim (answered r) [
    | some body ↦ elim (decision_of (get "decision" body)) [
      | err e ↦ err e
      | ok d ↦ scoped (scopes_of (get "scopes" policy_context)) (λ scopes. record {
        allowed = is_true (get "allowed" d);
        require_confirmation = some (is_true (get "require_confirmation" d));
        reason = some (reason_of (get "reason" d));
        required_scopes = scopes;
      })
    ]
    | none ↦ scoped (scopes_of (get "scopes" policy_context)) (λ scopes. record {
      allowed = fail_open;
      require_confirmation = some false;
      reason =
          some (
            if fail_open then "policy_unavailable_fail_open" else "policy_unavailable_fail_closed");
      required_scopes = scopes;
    })
  ]

  abbrev text_arg : Option Json → String
  text_arg (some (str s)) = s
  text_arg (some v) = py_str v
  text_arg none = ""

  -- `check` without clients
  unfoldable pub check_stub : Fields → PolicyDecision
  check_stub args =
      if contains_text "deny:" (lower (text_arg (get "text" args)))
      then record {
        allowed = false;
        require_confirmation = some false;
        reason = some "stub deny rule matched";
        required_scopes = nil;
      }
      else record {
        allowed = true;
        require_confirmation = none;
        reason = none;
        required_scopes = nil;
      }

  -- `check`: the reply is there if there are clients.
  unfoldable pub check : Bool → Fields → Fields → Option PolicyReply → Result String PolicyDecision
  unfolding check_remote check_stub
  check fail_open policy_context args none = ok (check_stub args)
  check fail_open policy_context args (some r) = check_remote fail_open policy_context r
