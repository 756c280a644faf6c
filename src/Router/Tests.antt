-- ===== src/Router/Tests.antt =====
-- src/router.py: runs, with scores in thousandths and numbers for handlers.
use unison_orchestrator.Prelude.{
  starts_with, split_on, lower, contains_text, ℕ, String, ◌≡◌, refl, Option, none, some, List, [],
  ◌∷◌, Result, ok, err, ◌>>=◌,
}
use unison_orchestrator.Prelude.Json.{get, str, arr, null, dict, cons, nil}
use unison_orchestrator.Prelude.Dict.{Dict, lookup, insert}
use unison_orchestrator.Router.Runtime.{Milli, milli_runtime, Milli-IsOrdered}
use unison_orchestrator.Router.Types.{
  RoutingContext, RouteCandidate, RouteError, type_error, Rule, rule_based, score_based,
}
use unison_orchestrator.Router.Rules.{rule_route, matches_rule, prefix_candidate, rule_candidate}
use unison_orchestrator.Router.Score.{candidates, default_weights, breakdown_candidate, score_route}
use unison_orchestrator.Router.Hybrid.{hybrid_route}
use unison_orchestrator.Router.Service.{new_router, set_strategy, add_routing_rule, route, metric}
use unison_orchestrator.Router.Best.{first_best}
use unison_orchestrator.Router.Highest.{score_route-first_best}
use unison_orchestrator.Router.Matched.{Routed, rule_route-Routed}
use unison_orchestrator.Router.Routed.{route-registered}
use unison_orchestrator.Router.Counters.{
  Call, routing, adding_rule, setting_strategy, after_calls, IsBalanced, after_calls-IsBalanced,
}

abbrev skills : Dict ℕ
skills = ("echo", 1) ∷ ("summarize.doc", 2) ∷ ("analyze.image", 3) ∷ []

abbrev context_of : String → String → RoutingContext Milli
context_of intent role = record {
  intent = intent;
  payload = dict (("priority", str "high") ∷ []);
  user = dict (("roles", arr (cons (str role) nil)) ∷ []);
  source = "web";
  event_id = "event";
  timestamp = some 36_000_000;
}

abbrev office_rule : Rule
office_rule = record {
  id = some "office";
  intent_prefix = some "summarize";
  skill_id = some "analyze.image";
  priority = none;
  conditions = some record {
    sources = some ("web" ∷ []);
    required_roles = some ("admin" ∷ []);
    payload_conditions = some (("priority", str "high") ∷ []);
    time_window = some record { start = some 9; stop = some 17 };
  };
}

abbrev request : RoutingContext Milli
request = context_of "summarize.doc.short" "admin"

abbrev broken : RoutingContext Milli
broken = record request { user = dict (("roles", null) ∷ []) }

chosen : Result RouteError (Option (RouteCandidate Milli ℕ)) → Option (String × Milli)
chosen (ok (some c)) = some (c.skill_id, c.score)
chosen _ = none

-- The rule sends the request elsewhere; without it the prefix does; another role skips the rule.
rule_runs :
    (chosen (rule_route (office_rule ∷ []) request skills) ≡ some ("analyze.image", some 1000))
    × (chosen (rule_route [] request skills) ≡ some ("summarize.doc", some 800))
    × (chosen (rule_route (office_rule ∷ []) (context_of "summarize.doc.short" "user") skills)
        ≡ some ("summarize.doc", some 800))
    × (matches_rule broken office_rule ≡ err type_error)
unfolding chosen rule_route matches_rule starts_with get lookup
rule_runs = (refl, refl, refl, refl)

score_runs :
    (chosen (score_route default_weights request skills) ≡ some ("summarize.doc", some 562))
    × (chosen (hybrid_route (office_rule ∷ []) default_weights request skills)
        ≡ some ("analyze.image", some 1000))
    × (chosen (hybrid_route [] default_weights request skills) ≡ some ("summarize.doc", some 800))
unfolding chosen score_route hybrid_route get lookup starts_with split_on lower contains_text
    rule_route
score_runs = (refl, refl, refl)

score_route-first_best_example :
    score_route default_weights request skills
    ≡ (candidates default_weights request skills >>= λ cs. ok (first_best cs))
score_route-first_best_example =
    score_route-first_best Milli-IsOrdered default_weights request skills

abbrev best : RouteCandidate Milli ℕ
best = breakdown_candidate request "summarize.doc" 2 (some 562) (some 100)

rule_route-Routed_example :
    Routed (office_rule ∷ []) request skills (some (rule_candidate office_rule "analyze.image" 3))
unfolding rule_route get lookup starts_with
rule_route-Routed_example = rule_route-Routed (office_rule ∷ []) request skills refl

route-registered_example : lookup "summarize.doc" skills ≡ some 2
unfolding route get lookup starts_with rule_route
route-registered_example =
    route-registered (some 0) (some 5) request skills (new_router rule_based)
      {c = prefix_candidate "summarize.doc" 2} (refl, (refl, (refl, tt))) refl

abbrev calls : List (Call Milli ℕ)
calls =
    adding_rule office_rule
    ∷ routing (some 0) (some 5) request skills
    ∷ setting_strategy score_based
    ∷ routing (some 7) (some 9) request []
    ∷ routing (some 9) (some 9) broken skills
    ∷ []

after_calls-IsBalanced_example : IsBalanced 3 (after_calls calls (new_router rule_based)).metrics
after_calls-IsBalanced_example = after_calls-IsBalanced rule_based calls

calls_run :
    let m = (after_calls calls (new_router rule_based)).metrics in
    (metric "routing_success" m ≡ 1)
    × (metric "routing_no_match" m ≡ 1)
    × (metric "routing_errors" m ≡ 1)
    × (metric "routing_score_based" m ≡ 1)
unfolding after_calls lookup insert get starts_with route set_strategy score_route add_routing_rule
    rule_route
calls_run = (refl, refl, refl, refl)
