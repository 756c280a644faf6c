-- ===== src/PolicyGate/Tests.antt =====
-- Runs of the policy gate.
use unison_orchestrator.Prelude.{true, false, some, [], ◌∷◌, ◌≡◌, ◌↔◌, refl, String}
use unison_orchestrator.Prelude.Json.{Json, bool, obj, nil, end, dict, get}
use unison_orchestrator.PolicyGate.{PolicyDecision, PolicyReply, check, check_remote, scopes_of}
use unison_orchestrator.PolicyGate.Closed.{check_closed, Granted}

abbrev shown : Json → String
shown v = "?"

abbrev yes : PolicyReply
yes = record {
  reached = true;
  status = 200;
  body = obj (dict (("decision", obj (dict (("allowed", bool true) ∷ []))) ∷ []));
}

abbrev granted : PolicyDecision
granted = record {
  allowed = true;
  require_confirmation = some false;
  reason = some "policy";
  required_scopes = nil;
}

check_closed_example : (true ≡ true) ↔ Granted yes
unfolding check check_remote scopes_of get
check_closed_example = check_closed shown end end yes granted refl
