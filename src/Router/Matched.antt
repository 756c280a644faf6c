-- ===== src/Router/Matched.antt =====
-- src/router.py: which rule or prefix the rule-based router follows, as a relation that does not
-- mention its loops.
use mathlib.Core.Path.{subst}
use unison_orchestrator.Prelude.{
  String, ◌≡◌, refl, ◌∙◌, ap, ◌⊎◌, inl, inr, Bool, true, false, Option, none, some, List, [], ◌∷◌,
  ◌++◌, arith, if◌then◌else◌, is_some, All, Result, ok, err, ◌>>=◌, starts_with,
}
use unison_orchestrator.Prelude.Dict.{Dict}
use unison_orchestrator.Router.Runtime.{Runtime}
use unison_orchestrator.Router.Types.{RoutingContext, RouteCandidate, RouteError, Rule}
use unison_orchestrator.Router.Rules.{
  matches_rule, registered, rule_candidate, prefix_candidate, first_rule, first_prefix, rule_route,
}

-- A registered skill whose id is no prefix of the intent.
abbrev pub NoPrefix {κ} : {H : Type κ} → String → String × H → Type 0
NoPrefix intent e = starts_with e.0 intent ≡ false

module _ {ℓ κ} {F : Type ℓ} {H : Type κ} ⦃r : Runtime F⦄ where
  -- A rule that does not match, or whose skill is not registered.
  abbrev pub Skipped : RoutingContext F → Dict H → Rule → Type κ
  Skipped context skills rule =
      (matches_rule context rule ≡ ok false)
      ⊎ ((matches_rule context rule ≡ ok true) × (registered rule.skill_id skills ≡ none))

  -- The first rule that is not skipped, and its candidate.
  pub data RuleFound (context : RoutingContext F) (skills : Dict H) (rules : List Rule)
      (o : Option (RouteCandidate F H)) : Type (ℓ ⊔ κ) where
    first_at :
        (before after : List Rule) (rule : Rule) (k : String) (h : H)
        → rules ≡ before ++ rule ∷ after
        → All (Skipped context skills) before
        → matches_rule context rule ≡ ok true
        → registered rule.skill_id skills ≡ some (k, h)
        → o ≡ some (rule_candidate rule k h)
        → RuleFound context skills rules o
    all_skipped : All (Skipped context skills) rules → o ≡ none → RuleFound context skills rules o

  -- The first registered prefix of the intent, and its candidate.
  pub data PrefixFound (intent : String) (skills : Dict H) (o : Option (RouteCandidate F H))
      : Type (ℓ ⊔ κ) where
    prefix_at :
        (before after : Dict H) (k : String) (h : H)
        → skills ≡ before ++ (k, h) ∷ after
        → All (NoPrefix intent) before
        → starts_with k intent ≡ true
        → o ≡ some (prefix_candidate k h)
        → PrefixFound intent skills o
    no_prefix : All (NoPrefix intent) skills → o ≡ none → PrefixFound intent skills o

  -- What the rules and the registered skills ask for.
  abbrev pub Routed :
      List Rule → RoutingContext F → Dict H → Option (RouteCandidate F H) → Type (ℓ ⊔ κ)
  Routed rules context skills o =
      (RuleFound context skills rules o × (is_some o ≡ true))
      ⊎ (RuleFound context skills rules none × PrefixFound context.intent skills o)

  skip :
      (context : RoutingContext F) (skills : Dict H) (rule : Rule) (rules : List Rule)
      {o : Option (RouteCandidate F H)}
      → Skipped context skills rule
      → RuleFound context skills rules o
      → RuleFound context skills (rule ∷ rules) o
  skip context skills rule rules s (first_at before after rule' k h l a m g e) =
      first_at (rule ∷ before) after rule' k h (ap (λ x. rule ∷ x) l) (s, a) m g e
  skip context skills rule rules s (all_skipped a e) = all_skipped (s, a) e

  rule_step :
      (context : RoutingContext F) (skills : Dict H) (rule : Rule) (rules : List Rule)
      {o : Option (RouteCandidate F H)} (m : Result RouteError Bool) (g : Option (String × H))
      → matches_rule context rule ≡ m
      → registered rule.skill_id skills ≡ g
      → (first_rule context rules skills ≡ ok o → RuleFound context skills rules o)
      → (m >>= λ hit.
          if hit
          then elim g [
            | some (k, h) ↦ ok (some (rule_candidate rule k h))
            | none ↦ first_rule context rules skills
          ]
          else first_rule context rules skills)
        ≡ ok o
      → RuleFound context skills (rule ∷ rules) o
  rule_step context skills rule rules (err x) g em eg later e = absurd (ground (arith, e))
  rule_step context skills rule rules (ok false) g em eg later e =
      skip context skills rule rules (inl em) (later e)
  rule_step context skills rule rules (ok true) none em eg later e =
      skip context skills rule rules (inr (em, eg)) (later e)
  rule_step context skills rule rules (ok true) (some (k, h)) em eg later e =
      first_at [] rules rule k h refl tt em eg (ground (arith, e))

  first_rule-RuleFound :
      (context : RoutingContext F) (skills : Dict H) (rules : List Rule)
      {o : Option (RouteCandidate F H)}
      → first_rule context rules skills ≡ ok o
      → RuleFound context skills rules o
  unfolding first_rule
  first_rule-RuleFound context skills [] e = all_skipped tt (ground (arith, e))
  first_rule-RuleFound context skills (rule ∷ rules) e =
      rule_step context skills rule rules (matches_rule context rule)
        (registered rule.skill_id skills) refl refl (first_rule-RuleFound context skills rules) e

  first_prefix-PrefixFound :
      (intent : String) (skills : Dict H) → PrefixFound intent skills (first_prefix intent skills)
  unfolding first_prefix
  first_prefix-PrefixFound intent [] = no_prefix tt refl
  first_prefix-PrefixFound intent ((k, h) ∷ skills) =
      go (starts_with k intent) (first_prefix intent skills) refl
        (first_prefix-PrefixFound intent skills)
    where
      go :
          (t : Bool) (o : Option (RouteCandidate F H))
          → starts_with k intent ≡ t
          → PrefixFound intent skills o
          → PrefixFound intent ((k, h) ∷ skills) (if t then some (prefix_candidate k h) else o)
      go true o e f = prefix_at [] skills k h refl tt e refl
      go false o e (no_prefix a q) = no_prefix (e, a) q
      go false o e (prefix_at before after j i l a s q) =
          prefix_at ((k, h) ∷ before) after j i (ap (λ x. (k, h) ∷ x) l) (e, a) s q

  -- When the rule-based router returns, it returns what the rules ask for: the candidate of the
  -- first rule that matches and whose skill is registered; where there is none, that of the first
  -- registered prefix of the intent; and where there is none either, nothing.
  pub rule_route-Routed :
      (rules : List Rule) (context : RoutingContext F) (skills : Dict H)
      {o : Option (RouteCandidate F H)}
      → rule_route rules context skills ≡ ok o
      → Routed rules context skills o
  unfolding rule_route
  rule_route-Routed rules context skills {o} e = go (first_rule context rules skills) refl e
    where
      go :
          (m : Result RouteError (Option (RouteCandidate F H)))
          → first_rule context rules skills ≡ m
          → (m >>= λ found. elim found [
            | some c ↦ ok (some c)
            | none ↦ ok (first_prefix context.intent skills)
          ])
            ≡ ok o
          → Routed rules context skills o
      go (err x) m e = absurd (ground (arith, e))
      go (ok (some c)) m e =
          inl (first_rule-RuleFound context skills rules (m ∙ e), ground (arith, e))
      go (ok none) m e =
          let same : first_prefix context.intent skills ≡ o = ground (arith, e) in
          inr (
            first_rule-RuleFound context skills rules m,
            subst (PrefixFound context.intent skills) same
                (first_prefix-PrefixFound context.intent skills),
          )
