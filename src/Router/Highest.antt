-- ===== src/Router/Highest.antt =====
-- src/router.py: the score-based router returns the first of the highest scores.
use mathlib.Core.Path.{subst}
use unison_orchestrator.Prelude.{
  String, ◌≡◌, refl, sym, ◌∙◌, ap, inl, inr, true, some, List, [], ◌∷◌, arith, Bool-cases, All,
  Result, bind_ok, ok, err, ◌>>=◌,
}
use unison_orchestrator.Prelude.Dict.{Dict, lookup}
use unison_orchestrator.Router.Runtime.{Runtime, ◌≼◌, IsOrdered}
use unison_orchestrator.Router.Types.{RoutingContext, RouteCandidate, RouteError}
use unison_orchestrator.Router.Score.{
  calculate_score, candidates, sort_by_score, first_of, score_route,
}
use unison_orchestrator.Router.Best.{
  IsNumber, first_best, best_of, best_of-All, first_of-sort, le-best_of,
}
use unison_orchestrator.Router.Winner.{Scored, candidates-Scored, candidates-le}

-- Nothing is asked of an entry.
abbrev AnyEntry {κ} : {H : Type κ} → String × H → Type 0
AnyEntry e = Unit

all-AnyEntry {κ} : {H : Type κ} (skills : Dict H) → All AnyEntry skills
all-AnyEntry [] = tt
all-AnyEntry (e ∷ skills) = (tt, all-AnyEntry skills)

module _ {ℓ κ} {F : Type ℓ} {H : Type κ} ⦃r : Runtime F⦄ where
  module _ (laws : IsOrdered F) where
    open laws use {le_trans, le_total, lt-eq-not-le, refl_of_lt}

    Scored-IsNumber {ι} :
        (P : String × H → Type ι) (weights : Dict F) (context : RoutingContext F)
        (cs : List (RouteCandidate F H))
        → All (Scored P weights context) cs
        → All IsNumber cs
    Scored-IsNumber P weights context [] a = tt
    Scored-IsNumber P weights context (c ∷ cs) a =
        ((refl_of_lt r.tenth c.score a.0.2).1, Scored-IsNumber P weights context cs a.1)

    candidates-IsNumber :
        (weights : Dict F) (context : RoutingContext F) (skills : Dict H)
        {cs : List (RouteCandidate F H)}
        → candidates weights context skills ≡ ok cs
        → All IsNumber cs
    candidates-IsNumber weights context skills e =
        Scored-IsNumber AnyEntry weights context _
          (candidates-Scored AnyEntry weights context skills (all-AnyEntry skills) e)

    -- Collecting, sorting and taking the head returns what one pass over the candidates in their
    -- order keeps, which changes its mind for a higher score alone: of equal scores, the first.
    pub score_route-first_best :
        (weights : Dict F) (context : RoutingContext F) (skills : Dict H)
        → score_route weights context skills
          ≡ (candidates weights context skills >>= λ cs. ok (first_best cs))
    unfolding score_route
    score_route-first_best weights context skills =
        go (candidates weights context skills)
          (λ cs e. candidates-IsNumber weights context skills e)
      where
        go :
            (found : Result RouteError (List (RouteCandidate F H)))
            → ((cs : List (RouteCandidate F H)) → found ≡ ok cs → All IsNumber cs)
            → (found >>= λ cs. ok (first_of (sort_by_score cs)))
              ≡ (found >>= λ cs. ok (first_best cs))
        go (ok cs) n = ap (λ o. ok o) (first_of-sort laws cs (n cs refl))
        go (err x) n = refl

    highest_in :
        (weights : Dict F) (context : RoutingContext F) (skills : Dict H)
        (cs : List (RouteCandidate F H)) {c : RouteCandidate F H} (k : String) {h : H} {s : F}
        → candidates weights context skills ≡ ok cs
        → first_best cs ≡ some c
        → lookup k skills ≡ some h
        → calculate_score weights context k ≡ ok s
        → s ≼ s
        → (calculate_score weights context c.skill_id ≡ ok c.score)
          × (r.lt r.tenth c.score ≡ true)
          × (s ≼ c.score)
    unfolding first_best
    highest_in weights context skills [] k e b l es n = absurd (ground (arith, b))
    highest_in weights context skills (d ∷ ds) {c} k {h} {s} e b l es n =
        let scored = candidates-Scored AnyEntry weights context skills (all-AnyEntry skills) e in
        let nums = Scored-IsNumber AnyEntry weights context (d ∷ ds) scored in
        let won : best_of d ds ≡ c = ground (arith, b) in
        let best =
          subst (Scored AnyEntry weights context) won
            (best_of-All (Scored AnyEntry weights context) d ds scored.0 scored.1) in
        let top =
          subst (λ w. All (λ x. x.score ≼ w.score) (d ∷ ds)) won
            (le-best_of laws d ds nums.0 nums.1) in
        let over : s ≼ c.score = elim (Bool-cases (r.lt r.tenth s)) [
          | inl t ↦ candidates-le weights context k skills {h = h} e top l es t
          | inr t ↦
              (let (tenth_num, c_num) = refl_of_lt r.tenth c.score best.2 in
                ground (
                  arith,
                  best.2,
                  lt-eq-not-le r.tenth s tenth_num n,
                  lt-eq-not-le r.tenth c.score tenth_num c_num,
                  le_total r.tenth s tenth_num n,
                  le_total r.tenth c.score tenth_num c_num,
                  le_trans s r.tenth c.score,
                ))
        ] in
        (best.1, best.2, over)

    -- When the score-based router returns a candidate, its score is the one that is computed for its
    -- skill, is above the threshold, and no registered skill whose score is a number scores higher.
    pub score_route-highest :
        (weights : Dict F) (context : RoutingContext F) (skills : Dict H) {c : RouteCandidate F H}
        (k : String) {h : H} {s : F}
        → score_route weights context skills ≡ ok (some c)
        → lookup k skills ≡ some h
        → calculate_score weights context k ≡ ok s
        → s ≼ s
        → (calculate_score weights context c.skill_id ≡ ok c.score)
          × (r.lt r.tenth c.score ≡ true)
          × (s ≼ c.score)
    score_route-highest weights context skills {c} k {h} {s} e l es n =
        let (cs, found, first) =
          bind_ok (candidates weights context skills) (λ cs. ok (first_best cs))
            (sym (score_route-first_best weights context skills) ∙ e) in
        highest_in weights context skills cs {c = c} k {h = h} found (ground (arith, first)) l es n
