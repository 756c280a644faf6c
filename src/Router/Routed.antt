-- ===== src/Router/Routed.antt =====
-- src/router.py: whatever the strategy, what a request is routed to is registered.
use mathlib.Core.Path.{subst}
use unison_orchestrator.Prelude.{
  String, ◌≡◌, refl, sym, inl, inr, Bool, true, false, Option, none, some, List, [], ◌∷◌, arith,
  if◌then◌else◌, All, All-split, Result, bind_ok, ok, err, ◌>>=◌,
}
use unison_orchestrator.Prelude.Dict.{Dict, lookup, Unique, lookup-Unique}
use unison_orchestrator.Router.Runtime.{Runtime}
use unison_orchestrator.Router.Types.{RoutingContext, RouteCandidate, RouteError, Rule}
use unison_orchestrator.Router.Rules.{registered, rule_route}
use unison_orchestrator.Router.Score.{
  candidates, insert_by_score, sort_by_score, first_of, score_route,
}
use unison_orchestrator.Router.Hybrid.{is_sure, better_of, hybrid_route}
use unison_orchestrator.Router.Service.{
  StrategyRouter, rule_router, score_router, hybrid_router, Router, strategy_route, decision, route,
}
use unison_orchestrator.Router.Matched.{
  RuleFound, first_at, all_skipped, PrefixFound, prefix_at, no_prefix, rule_route-Routed,
}
use unison_orchestrator.Router.Winner.{Scored, candidates-Scored}

module _ {ℓ κ} {F : Type ℓ} {H : Type κ} where
  -- The candidate's skill is registered, with the candidate's handler.
  abbrev pub Registered : Dict H → RouteCandidate F H → Type κ
  Registered skills c = lookup c.skill_id skills ≡ some c.handler

  -- What holds of the candidate, where there is one.
  abbrev InOption {ι} : (RouteCandidate F H → Type ι) → Option (RouteCandidate F H) → Type ι
  InOption P none = Unit
  InOption P (some c) = P c

registered-lookup {κ} :
    {H : Type κ} (o : Option String) (skills : Dict H) {k : String} {h : H}
    → registered o skills ≡ some (k, h)
    → lookup k skills ≡ some h
registered-lookup none skills e = absurd (ground (arith, e))
registered-lookup (some j) skills {k} {h} e = ground (arith, e)

module _ {ℓ κ} {F : Type ℓ} {H : Type κ} ⦃r : Runtime F⦄ where
  All-insert_by_score {ι} :
      (P : RouteCandidate F H → Type ι) (c : RouteCandidate F H) (cs : List (RouteCandidate F H))
      → P c
      → All P cs
      → All P (insert_by_score c cs)
  unfolding insert_by_score
  All-insert_by_score P c [] p a = (p, tt)
  All-insert_by_score P c (d ∷ ds) p a =
      go (r.lt c.score d.score) (All-insert_by_score P c ds p a.1)
    where
      go :
          (t : Bool)
          → All P (insert_by_score c ds)
          → All P (if t then d ∷ insert_by_score c ds else c ∷ d ∷ ds)
      go true b = (a.0, b)
      go false b = (p, a)

  All-sort {ι} :
      (P : RouteCandidate F H → Type ι) (cs : List (RouteCandidate F H))
      → All P cs
      → All P (sort_by_score cs)
  unfolding sort_by_score
  All-sort P [] a = tt
  All-sort P (c ∷ cs) a = All-insert_by_score P c (sort_by_score cs) a.0 (All-sort P cs a.1)

  first_of-InOption {ι} :
      (P : RouteCandidate F H → Type ι) (cs : List (RouteCandidate F H))
      → All P cs
      → InOption P (first_of cs)
  first_of-InOption P [] a = tt
  first_of-InOption P (c ∷ cs) a = a.0

  RuleFound-Registered :
      (context : RoutingContext F) (skills : Dict H) (rules : List Rule)
      (o : Option (RouteCandidate F H))
      → RuleFound context skills rules o
      → InOption (Registered skills) o
  RuleFound-Registered context skills rules o (all_skipped a e) =
      subst (InOption (Registered skills)) (sym e) tt
  RuleFound-Registered context skills rules o (first_at before after rule k h l a m g e) =
      subst (InOption (Registered skills)) (sym e) (registered-lookup rule.skill_id skills g)

  PrefixFound-Registered :
      (intent : String) (skills : Dict H) (o : Option (RouteCandidate F H))
      → Unique skills
      → PrefixFound intent skills o
      → InOption (Registered skills) o
  PrefixFound-Registered intent skills o u (no_prefix a e) =
      subst (InOption (Registered skills)) (sym e) tt
  PrefixFound-Registered intent skills o u (prefix_at before after k h l a s e) =
      let here = subst (All (λ x. lookup x.0 skills ≡ some x.1)) l (lookup-Unique skills u) in
      subst (InOption (Registered skills)) (sym e) ((All-split _ before ((k, h) ∷ after) here).1).0

  rule_route-Registered :
      (rules : List Rule) (context : RoutingContext F) (skills : Dict H)
      {o : Option (RouteCandidate F H)}
      → Unique skills
      → rule_route rules context skills ≡ ok o
      → InOption (Registered skills) o
  rule_route-Registered rules context skills {o} u e =
      elim (rule_route-Routed rules context skills e) [
        | inl (found, _) ↦ RuleFound-Registered context skills rules o found
        | inr (_, found) ↦ PrefixFound-Registered context.intent skills o u found
      ]

  Scored-Registered :
      (weights : Dict F) (context : RoutingContext F) (skills : Dict H)
      (cs : List (RouteCandidate F H))
      → All (Scored (λ e. lookup e.0 skills ≡ some e.1) weights context) cs
      → All (Registered skills) cs
  Scored-Registered weights context skills [] a = tt
  Scored-Registered weights context skills (c ∷ cs) a =
      (a.0.0, Scored-Registered weights context skills cs a.1)

  score_route-Registered :
      (weights : Dict F) (context : RoutingContext F) (skills : Dict H)
      {o : Option (RouteCandidate F H)}
      → Unique skills
      → score_route weights context skills ≡ ok o
      → InOption (Registered skills) o
  unfolding score_route
  score_route-Registered weights context skills {o} u e =
      let (cs, found, first) =
        bind_ok (candidates weights context skills) (λ cs. ok (first_of (sort_by_score cs))) e in
      let scored =
        candidates-Scored (λ x. lookup x.0 skills ≡ some x.1) weights context skills
          (lookup-Unique skills u) found in
      let same : first_of (sort_by_score cs) ≡ o = ground (arith, first) in
      let registered = Scored-Registered weights context skills cs scored in
      subst (InOption (Registered skills)) same (
        first_of-InOption (Registered skills) (sort_by_score cs)
          (All-sort (Registered skills) cs registered))

  better_of-Registered :
      (skills : Dict H) (a b : Option (RouteCandidate F H))
      → InOption (Registered skills) a
      → InOption (Registered skills) b
      → InOption (Registered skills) (better_of a b)
  better_of-Registered skills (some c) (some d) ha hb = go (r.le d.score c.score)
    where
      go : (t : Bool) → InOption (Registered skills) (if t then some c else some d)
      go true = ha
      go false = hb
  better_of-Registered skills (some c) none ha hb = ha
  better_of-Registered skills none (some d) ha hb = hb
  better_of-Registered skills none none ha hb = tt

  hybrid_route-Registered :
      (rules : List Rule) (weights : Dict F) (context : RoutingContext F) (skills : Dict H)
      {o : Option (RouteCandidate F H)}
      → Unique skills
      → hybrid_route rules weights context skills ≡ ok o
      → InOption (Registered skills) o
  unfolding hybrid_route
  hybrid_route-Registered rules weights context skills {o} u e =
      let (a, ea, rest) =
        bind_ok (rule_route rules context skills)
          (λ by_rule.
            if is_sure by_rule
            then ok by_rule
            else (score_route weights context skills >>= λ by_score.
                ok (better_of by_rule by_score)))
          e in
      go a (is_sure a) (rule_route-Registered rules context skills u ea) rest
    where
      go :
          (a : Option (RouteCandidate F H)) (t : Bool)
          → InOption (Registered skills) a
          → (if t
              then ok a
              else (score_route weights context skills >>= λ by_score. ok (better_of a by_score)))
            ≡ ok o
          → InOption (Registered skills) o
      go a true ha e =
          let same : a ≡ o = ground (arith, e) in subst (InOption (Registered skills)) same ha
      go a false ha e =
          let (b, eb, last) =
            bind_ok (score_route weights context skills) (λ by_score. ok (better_of a by_score))
              e in
          let same : better_of a b ≡ o = ground (arith, last) in
          subst (InOption (Registered skills)) same (
            better_of-Registered skills a b ha (score_route-Registered weights context skills u eb))

  strategy_route-Registered :
      (strategy : StrategyRouter F) (context : RoutingContext F) (skills : Dict H)
      {o : Option (RouteCandidate F H)}
      → Unique skills
      → strategy_route strategy context skills ≡ ok o
      → InOption (Registered skills) o
  strategy_route-Registered (rule_router rules) = rule_route-Registered rules
  strategy_route-Registered (score_router weights) = score_route-Registered weights
  strategy_route-Registered (hybrid_router rules weights) = hybrid_route-Registered rules weights

  -- Whatever the strategy, its rules and its weights, a request that is routed goes to a skill that
  -- is registered, with the handler that it is registered with.
  pub route-registered :
      (started ended : F) (context : RoutingContext F) (skills : Dict H) (s : Router F)
      {c : RouteCandidate F H}
      → Unique skills
      → (route started ended context skills s).0 ≡ some c
      → lookup c.skill_id skills ≡ some c.handler
  unfolding route decision
  route-registered started ended context skills s {c} u e =
      go (strategy_route s.router context skills)
        (λ o m. strategy_route-Registered s.router context skills u m) e
    where
      go :
          (m : Result RouteError (Option (RouteCandidate F H)))
          → ((o : Option (RouteCandidate F H)) → m ≡ ok o → InOption (Registered skills) o)
          → decision m ≡ some c
          → lookup c.skill_id skills ≡ some c.handler
      go (ok o) h e = subst (InOption (Registered skills)) e (h o refl)
      go (err x) h e = absurd (ground (arith, e))
