-- ===== src/Router/Score.antt =====
-- `ScoreBasedRouter` of src/router.py: every registered skill gets a score, and the highest score
-- above the threshold wins.
use unison_orchestrator.Prelude.{
  text_length, String, Bool, false, not, ◌&&◌, ◌||◌, Option, none, some, List, [], ◌∷◌,
  if◌then◌else◌, is_some, is_empty, length, ◌==◌, elem, starts_with, contains_text, split_on, lower,
  Result, ok, err, ◌>>=◌,
}
use unison_orchestrator.Prelude.Json.{Fields, get}
use unison_orchestrator.Prelude.Dict.{Dict, lookup}
use unison_orchestrator.Router.Runtime.{Runtime, min_of}
use unison_orchestrator.Router.Types.{
  RoutingContext, score_breakdown, RouteCandidate, RouteError, key_error,
}
use unison_orchestrator.Router.Rules.{role_in}

-- A list of words as a set: the last of equal words stays.
unfoldable pub set_of : List String → List String
set_of [] = []
set_of (w ∷ ws) = let rest = set_of ws in if elem w ws then rest else w ∷ rest

unfoldable pub intersection : List String → List String → List String
intersection [] other = []
intersection (w ∷ ws) other =
    let rest = intersection ws other in if elem w other then w ∷ rest else rest

unfoldable pub union : List String → List String → List String
union [] other = other
union (w ∷ ws) other = let rest = union ws other in if elem w other then rest else w ∷ rest

-- `set(s.lower().split('.'))`
unfoldable pub words : String → List String
unfolding set_of
words s = set_of (split_on b'.' (lower s))

-- Some preferred word stands in the skill's id.
unfoldable pub mentions : List String → String → Bool
mentions [] skill_id = false
mentions (w ∷ ws) skill_id = contains_text w skill_id || mentions ws skill_id

abbrev source_mappings : List (String × List String)
source_mappings =
    ("io-speech", "echo" ∷ "translate" ∷ [])
    ∷ ("io-vision", "analyze" ∷ "generate" ∷ [])
    ∷ ("web", "summarize" ∷ "analyze" ∷ [])
    ∷ []

module _ {ℓ} {F : Type ℓ} ⦃r : Runtime F⦄ where
  jaccard : List String → List String → F
  unfolding intersection union
  jaccard a b =
      let both = union a b in
      if is_empty both then r.nought else r.ratio (length (intersection a b)) (length both)

  -- `_intent_similarity`
  unfoldable pub intent_similarity : String → String → F
  unfolding words text_length jaccard
  intent_similarity intent skill_id =
      if starts_with skill_id intent
      then if intent == skill_id
        then r.one
        else r.add r.seven_tenths
            (r.mul r.three_tenths (r.ratio (text_length skill_id) (text_length intent)))
      else if not (is_empty (words intent)) && not (is_empty (words skill_id))
      then r.mul (jaccard (words intent) (words skill_id)) r.half
      else r.nought

  source_score : String → String → List (String × List String) → F → F
  unfolding mentions
  source_score source skill_id [] score = score
  source_score source skill_id ((name, preferred) ∷ rest) score =
      let scored : F =
        if source == name && mentions preferred skill_id
        then r.add score r.three_tenths
        else score in
      source_score source skill_id rest scored

  payload_score : Fields → String → F → F
  payload_score payload skill_id score =
      if is_some (get "prompt" payload) && contains_text "inference" skill_id
      then r.add score r.fifth
      else if is_some (get "key" payload) && contains_text "storage" skill_id
      then r.add score r.fifth
      else if is_some (get "keys" payload) && contains_text "context" skill_id
      then r.add score r.fifth
      else score

  -- `_context_match_score`
  unfoldable pub context_match_score : RoutingContext F → String → F
  unfolding source_score payload_score
  context_match_score context skill_id =
      let score = source_score context.source skill_id source_mappings r.nought in
      min_of r.one (payload_score context.payload skill_id score)

  -- `_user_preference_score`
  unfoldable pub user_preference_score : RoutingContext F → String → Result RouteError F
  unfolding role_in
  user_preference_score context skill_id =
      let user_roles = get "roles" context.user in
      role_in "admin" user_roles >>= λ admin.
      if admin
      then ok r.tenth
      else role_in "developer" user_roles >>= λ developer.
          if developer
          then if contains_text "analyze" skill_id || contains_text "generate" skill_id
            then ok r.tenth
            else ok r.nought
          else role_in "user" user_roles >>= λ user.
              if user && (contains_text "echo" skill_id || contains_text "translate" skill_id)
              then ok r.tenth
              else ok r.nought

  abbrev pub default_weights : Dict F
  default_weights =
      ("intent_similarity", r.half)
      ∷ ("context_match", r.three_tenths)
      ∷ ("user_preference", r.fifth)
      ∷ []

  abbrev weight : String → Dict F → Result RouteError F
  weight k weights = elim (lookup k weights) [ some w ↦ ok w | none ↦ err (key_error k) ]

  -- `_calculate_score`
  unfoldable pub calculate_score : Dict F → RoutingContext F → String → Result RouteError F
  unfolding intent_similarity context_match_score user_preference_score
  calculate_score weights context skill_id =
      user_preference_score context skill_id >>= λ preference.
      weight "intent_similarity" weights >>= λ wi. weight "context_match" weights >>= λ wc.
      weight "user_preference" weights >>= λ wu.
      let total =
        r.add
          (r.add (r.mul (intent_similarity context.intent skill_id) wi)
            (r.mul (context_match_score context skill_id) wc))
          (r.mul preference wu) in
      ok (min_of r.one total)

module _ {ℓ κ} {F : Type ℓ} {H : Type κ} ⦃r : Runtime F⦄ where
  -- A candidate with the breakdown of its score.
  unfoldable pub breakdown_candidate : RoutingContext F → String → H → F → F → RouteCandidate F H
  unfolding intent_similarity context_match_score
  breakdown_candidate context k h score preference = record {
    skill_id = k;
    handler = h;
    score = score;
    metadata =
        score_breakdown (intent_similarity context.intent k) (context_match_score context k)
          preference;
    strategy_used = "score_based";
  }

  -- The candidate of a skill, with `_get_score_breakdown` computed anew.
  unfoldable pub scored_candidate :
      RoutingContext F → String → H → F → Result RouteError (RouteCandidate F H)
  unfolding user_preference_score breakdown_candidate
  scored_candidate context k h score = user_preference_score context k >>= λ preference.
      ok (breakdown_candidate context k h score preference)

  -- The loop over the skills: the candidates above the threshold, in the order of registration.
  unfoldable pub candidates :
      Dict F → RoutingContext F → Dict H → Result RouteError (List (RouteCandidate F H))
  unfolding calculate_score scored_candidate
  candidates weights context [] = ok []
  candidates weights context ((k, h) ∷ skills) =
      let later = candidates weights context skills in
      calculate_score weights context k >>= λ score.
      if r.lt r.tenth score
      then (scored_candidate context k h score >>= λ c. later >>= λ cs. ok (c ∷ cs))
      else later

  unfoldable pub insert_by_score :
      RouteCandidate F H → List (RouteCandidate F H) → List (RouteCandidate F H)
  insert_by_score c [] = c ∷ []
  insert_by_score c (d ∷ ds) =
      let rest = insert_by_score c ds in if r.lt c.score d.score then d ∷ rest else c ∷ d ∷ ds

  -- `sort(key=score, reverse=True)`, which is stable
  unfoldable pub sort_by_score : List (RouteCandidate F H) → List (RouteCandidate F H)
  unfolding insert_by_score
  sort_by_score [] = []
  sort_by_score (c ∷ cs) = insert_by_score c (sort_by_score cs)

  abbrev pub first_of : List (RouteCandidate F H) → Option (RouteCandidate F H)
  first_of [] = none
  first_of (c ∷ _) = some c

  -- `ScoreBasedRouter.route`
  unfoldable pub score_route :
      Dict F → RoutingContext F → Dict H → Result RouteError (Option (RouteCandidate F H))
  unfolding candidates sort_by_score
  score_route weights context skills =
      candidates weights context skills >>= λ cs. ok (first_of (sort_by_score cs))
