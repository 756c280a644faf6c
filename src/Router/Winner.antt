-- ===== src/Router/Winner.antt =====
-- src/router.py: the candidates of the score-based router, and the one that it returns.
use mathlib.Core.Path.{subst}
use unison_orchestrator.Prelude.{
  String, ◌≡◌, refl, sym, inl, inr, Bool, true, false, some, List, [], ◌∷◌, arith, if◌then◌else◌,
  Bool-cases, All, Result, ok, err, ◌>>=◌, ◌==◌, eq_iff,
}
use unison_orchestrator.Prelude.Dict.{Dict, lookup}
use unison_orchestrator.Router.Runtime.{Runtime, ◌≼◌}
use unison_orchestrator.Router.Types.{RoutingContext, RouteCandidate, RouteError}
use unison_orchestrator.Router.Score.{
  calculate_score, scored_candidate, breakdown_candidate, candidates, user_preference_score,
}

module _ {ℓ κ} {F : Type ℓ} {H : Type κ} ⦃r : Runtime F⦄ where
  -- What the loop over the skills adds for one skill to the candidates of the later ones.
  data Added (score : Result RouteError F) (k : String) (h : H)
      (rest cs : List (RouteCandidate F H)) : Type (ℓ ⊔ κ) where
    above :
        (c : RouteCandidate F H)
        → score ≡ ok c.score
        → r.lt r.tenth c.score ≡ true
        → c.skill_id ≡ k
        → c.handler ≡ h
        → cs ≡ c ∷ rest
        → Added score k h rest cs
    below : (s : F) → score ≡ ok s → r.lt r.tenth s ≡ false → cs ≡ rest → Added score k h rest cs

  abbrev AddedTo :
      Result RouteError F
      → String
      → H
      → Result RouteError (List (RouteCandidate F H))
      → List (RouteCandidate F H)
      → Type (ℓ ⊔ κ)
  AddedTo score k h later cs =
      (rest : List (RouteCandidate F H)) × (later ≡ ok rest) × Added score k h rest cs

  above_step :
      (preference : Result RouteError F) (context : RoutingContext F) (k : String) (h : H) (s : F)
      (later : Result RouteError (List (RouteCandidate F H))) {cs : List (RouteCandidate F H)}
      → r.lt r.tenth s ≡ true
      → ((preference >>= λ p. ok (breakdown_candidate context k h s p)) >>= λ c.
          later >>= λ cs. ok (c ∷ cs))
        ≡ ok cs
      → AddedTo (ok s) k h later cs
  unfolding breakdown_candidate
  above_step (ok p) context k h s (ok rest) t e =
      (rest, refl, above (breakdown_candidate context k h s p) refl t refl refl (ground (arith, e)))
  above_step (ok p) context k h s (err x) t e = absurd (ground (arith, e))
  above_step (err x) context k h s later t e = absurd (ground (arith, e))

  added_step :
      (score preference : Result RouteError F) (context : RoutingContext F) (k : String) (h : H)
      (later : Result RouteError (List (RouteCandidate F H))) {cs : List (RouteCandidate F H)}
      → (score >>= λ s.
          if r.lt r.tenth s
          then ((preference >>= λ p. ok (breakdown_candidate context k h s p)) >>= λ c.
              later >>= λ cs. ok (c ∷ cs))
          else later)
        ≡ ok cs
      → AddedTo score k h later cs
  added_step (err x) preference context k h later e = absurd (ground (arith, e))
  added_step (ok s) preference context k h later {cs} e = go (r.lt r.tenth s) refl e
    where
      go :
          (t : Bool)
          → r.lt r.tenth s ≡ t
          → (if t
              then ((preference >>= λ p. ok (breakdown_candidate context k h s p)) >>= λ c.
                  later >>= λ cs. ok (c ∷ cs))
              else later)
            ≡ ok cs
          → AddedTo (ok s) k h later cs
      go true t e = above_step preference context k h s later t e
      go false t e = (cs, e, below s refl t refl)

  candidates-Added :
      (weights : Dict F) (context : RoutingContext F) (k : String) (h : H) (skills : Dict H)
      {cs : List (RouteCandidate F H)}
      → candidates weights context ((k, h) ∷ skills) ≡ ok cs
      → AddedTo (calculate_score weights context k) k h (candidates weights context skills) cs
  unfolding candidates scored_candidate
  candidates-Added weights context k h skills e =
      added_step (calculate_score weights context k) (user_preference_score context k) context k h
        (candidates weights context skills) e

  -- A candidate of an entry that P holds of, with its score above the threshold.
  abbrev pub Scored {ι} :
      (String × H → Type ι) → Dict F → RoutingContext F → RouteCandidate F H → Type (ℓ ⊔ ι)
  Scored P weights context c =
      P (c.skill_id, c.handler)
      × (calculate_score weights context c.skill_id ≡ ok c.score)
      × (r.lt r.tenth c.score ≡ true)

  Scored-next {ι} :
      (P : String × H → Type ι) (weights : Dict F) (context : RoutingContext F) (k : String) (h : H)
      {rest cs : List (RouteCandidate F H)}
      → P (k, h)
      → Added (calculate_score weights context k) k h rest cs
      → All (Scored P weights context) rest
      → All (Scored P weights context) cs
  Scored-next P weights context k h p (above c e t ek eh l) found =
      let entry : Path (String × H) (k, h) (c.skill_id, c.handler) = ground (arith, ek, eh) in
      let score : calculate_score weights context c.skill_id ≡ ok c.score =
        subst (λ j. calculate_score weights context j ≡ ok c.score) (sym ek) e in
      subst (All (Scored P weights context)) (sym l) ((subst P entry p, score, t), found)
  Scored-next P weights context k h p (below s e t l) found =
      subst (All (Scored P weights context)) (sym l) found

  -- Every candidate has a registered skill, its handler and its score, which is above the threshold.
  pub candidates-Scored {ι} :
      (P : String × H → Type ι) (weights : Dict F) (context : RoutingContext F) (skills : Dict H)
      {cs : List (RouteCandidate F H)}
      → All P skills
      → candidates weights context skills ≡ ok cs
      → All (Scored P weights context) cs
  unfolding candidates
  candidates-Scored P weights context [] {cs} ps e =
      let nothing : [] ≡ cs = ground (arith, e) in subst (All (Scored P weights context)) nothing tt
  candidates-Scored P weights context ((k, h) ∷ skills) ps e =
      let (rest, later, added) = candidates-Added weights context k h skills e in
      Scored-next P weights context k h ps.0 added
        (candidates-Scored P weights context skills ps.1 later)

  Added-le :
      {score : Result RouteError F} {k : String} {h : H} {rest cs : List (RouteCandidate F H)}
      {s top : F}
      → Added score k h rest cs
      → All (λ c. c.score ≼ top) cs
      → score ≡ ok s
      → r.lt r.tenth s ≡ true
      → s ≼ top
  Added-le {s} {top} (above c e t ek eh l) a es t' =
      let same : c.score ≡ s = ground (arith, e, es) in
      subst (λ x. x ≼ top) same (subst (All (λ c. c.score ≼ top)) l a).0
  Added-le (below x e t l) a es t' = absurd (ground (arith, e, es, t, t'))

  Added-rest {ι} :
      (P : RouteCandidate F H → Type ι) {score : Result RouteError F} {k : String} {h : H}
      {rest cs : List (RouteCandidate F H)}
      → Added score k h rest cs
      → All P cs
      → All P rest
  Added-rest P (above c e t ek eh l) a = (subst (All P) l a).1
  Added-rest P (below x e t l) a = subst (All P) l a

  -- What bounds every candidate bounds the score of each skill that is above the threshold.
  pub candidates-le :
      (weights : Dict F) (context : RoutingContext F) (k : String) (skills : Dict H)
      {cs : List (RouteCandidate F H)} {h : H} {s top : F}
      → candidates weights context skills ≡ ok cs
      → All (λ c. c.score ≼ top) cs
      → lookup k skills ≡ some h
      → calculate_score weights context k ≡ ok s
      → r.lt r.tenth s ≡ true
      → s ≼ top
  unfolding lookup
  candidates-le weights context k [] e a l es t = absurd (ground (arith, l))
  candidates-le weights context k ((j, i) ∷ skills) {cs} {h} {s} {top} e a l es t =
      let (rest, later, added) = candidates-Added weights context j i skills e in
      elim (Bool-cases (j == k)) [
        | inl q ↦ Added-le added a (rw ((eq_iff j k).0 q) es) t
        | inr q ↦
            candidates-le weights context k skills {h = h} later
              (Added-rest (λ c. c.score ≼ top) added a) (ground arith) es t
      ]
