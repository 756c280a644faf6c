-- ===== src/Router/Best.antt =====
-- src/router.py: which candidate the score-based router takes, against one pass over the
-- candidates that keeps the best so far.
use unison_orchestrator.Prelude.{
  ◌≡◌, refl, ◌∙◌, ap, Bool, true, false, Option, none, some, List, [], ◌∷◌, arith, if◌then◌else◌,
  All,
}
use unison_orchestrator.Router.Runtime.{Runtime, ◌≼◌, IsOrdered}
use unison_orchestrator.Router.Types.{RouteCandidate}
use unison_orchestrator.Router.Score.{insert_by_score, sort_by_score, first_of}

module _ {ℓ κ} {F : Type ℓ} {H : Type κ} ⦃r : Runtime F⦄ where
  -- A candidate against the best of the later ones: it stays unless a later one is better.
  unfoldable pick : RouteCandidate F H → Option (RouteCandidate F H) → Option (RouteCandidate F H)
  pick c none = some c
  pick c (some d) = if r.lt c.score d.score then some d else some c

  -- The best so far, in one pass.
  unfoldable pub best_of : RouteCandidate F H → List (RouteCandidate F H) → RouteCandidate F H
  best_of best [] = best
  best_of best (c ∷ cs) =
      let kept : RouteCandidate F H = if r.lt best.score c.score then c else best in best_of kept cs

  unfoldable pub first_best : List (RouteCandidate F H) → Option (RouteCandidate F H)
  unfolding best_of
  first_best [] = none
  first_best (c ∷ cs) = some (best_of c cs)

  abbrev pub IsNumber : RouteCandidate F H → Type 0
  IsNumber c = c.score ≼ c.score

  abbrev NumberIn : Option (RouteCandidate F H) → Type 0
  NumberIn none = Unit
  NumberIn (some c) = IsNumber c

  first_of-insert_by_score :
      (c : RouteCandidate F H) (cs : List (RouteCandidate F H))
      → first_of (insert_by_score c cs) ≡ pick c (first_of cs)
  unfolding insert_by_score pick
  first_of-insert_by_score c [] = refl
  first_of-insert_by_score c (d ∷ ds) = ground arith

  either {ι} :
      (P : RouteCandidate F H → Type ι) (t : Bool) (b c : RouteCandidate F H)
      → P b
      → P c
      → P (if t then c else b)
  either P true b c pb pc = pc
  either P false b c pb pc = pb

  -- What holds of every candidate holds of the best.
  pub best_of-All {ι} :
      (P : RouteCandidate F H → Type ι) (b : RouteCandidate F H) (cs : List (RouteCandidate F H))
      → P b
      → All P cs
      → P (best_of b cs)
  unfolding best_of
  best_of-All P b [] pb ps = pb
  best_of-All P b (c ∷ cs) pb ps =
      best_of-All P (if r.lt b.score c.score then c else b) cs
        (either P (r.lt b.score c.score) b c pb ps.0) ps.1

  module _ (laws : IsOrdered F) where
    open laws use {le_trans, le_total, lt-eq-not-le}

    pick_transitive :
        (b c d : RouteCandidate F H)
        → IsNumber b
        → IsNumber c
        → IsNumber d
        → (if r.lt c.score d.score then pick b (some d) else pick b (some c))
          ≡ (if r.lt b.score c.score then pick c (some d) else pick b (some d))
    unfolding pick
    pick_transitive b c d nb nc nd = ground (
      arith,
      lt-eq-not-le b.score c.score nb nc,
      lt-eq-not-le c.score d.score nc nd,
      lt-eq-not-le b.score d.score nb nd,
      le_total b.score c.score nb nc,
      le_total c.score d.score nc nd,
      le_total b.score d.score nb nd,
      le_trans b.score c.score d.score,
      le_trans d.score c.score b.score,
      le_trans d.score b.score c.score,
      le_trans c.score b.score d.score,
    )

    pick_step :
        (b c m n : RouteCandidate F H) (o : Option (RouteCandidate F H))
        → IsNumber b
        → IsNumber c
        → NumberIn o
        → pick c o ≡ some m
        → pick b o ≡ some n
        → pick b (some m) ≡ some (if r.lt b.score c.score then m else n)
    unfolding pick
    pick_step b c m n none nb nc _ ec eb = ground arith
    pick_step b c m n (some d) nb nc nd ec eb = ground (arith, pick_transitive b c d nb nc nd)

    first_best-NumberIn :
        (cs : List (RouteCandidate F H)) → All IsNumber cs → NumberIn (first_best cs)
    unfolding first_best
    first_best-NumberIn [] ns = tt
    first_best-NumberIn (c ∷ cs) ns = best_of-All IsNumber c cs ns.0 ns.1

    kept_best :
        (t : Bool) (b c : RouteCandidate F H) (cs : List (RouteCandidate F H))
        → (if t then best_of c cs else best_of b cs) ≡ best_of (if t then c else b) cs
    kept_best true b c cs = refl
    kept_best false b c cs = refl

    pick-first_best :
        (b : RouteCandidate F H) (cs : List (RouteCandidate F H))
        → IsNumber b
        → All IsNumber cs
        → pick b (first_best cs) ≡ some (best_of b cs)
    unfolding pick first_best best_of
    pick-first_best b [] nb ns = refl
    pick-first_best b (c ∷ cs) nb ns =
        pick_step b c (best_of c cs) (best_of b cs) (first_best cs) nb ns.0
          (first_best-NumberIn cs ns.1) (pick-first_best c cs ns.0 ns.1)
          (pick-first_best b cs nb ns.1)
        ∙ ap some (kept_best (r.lt b.score c.score) b c cs)

    pub first_of-sort :
        (cs : List (RouteCandidate F H))
        → All IsNumber cs
        → first_of (sort_by_score cs) ≡ first_best cs
    unfolding sort_by_score first_best
    first_of-sort [] ns = refl
    first_of-sort (c ∷ cs) ns =
        first_of-insert_by_score c (sort_by_score cs)
        ∙ ap (pick c) (first_of-sort cs ns.1)
        ∙ pick-first_best c cs ns.0 ns.1

    le-kept :
        (b c : RouteCandidate F H) {kept : RouteCandidate F H}
        → IsNumber b
        → IsNumber c
        → kept ≡ (if r.lt b.score c.score then c else b)
        → (b.score ≼ kept.score) × (c.score ≼ kept.score)
    le-kept b c nb nc e =
        ground (arith, lt-eq-not-le b.score c.score nb nc, le_total b.score c.score nb nc)

    -- The best of a pass is not below where the pass began, nor below any that it saw.
    pub le-best_of :
        (b : RouteCandidate F H) (cs : List (RouteCandidate F H))
        → IsNumber b
        → All IsNumber cs
        → (b.score ≼ (best_of b cs).score) × All (λ c. c.score ≼ (best_of b cs).score) cs
    unfolding best_of
    le-best_of b [] nb ns = (nb, tt)
    le-best_of b (c ∷ cs) nb ns =
        let k : RouteCandidate F H = if r.lt b.score c.score then c else b in
        let (old, new) = le-kept b c {kept = k} nb ns.0 refl in
        let (up, rest) =
          le-best_of (if r.lt b.score c.score then c else b) cs
            (either IsNumber (r.lt b.score c.score) b c nb ns.0) ns.1 in
        (le_trans _ _ _ old up, (le_trans _ _ _ new up, rest))
