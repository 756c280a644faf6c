-- ===== src/Companion/Recall.antt =====
-- src/orchestrator/companion.py: `recall_workflow_from_dashboard`. An experience whose post raises
-- ends the loop that sends them, as the search ends at the first trace that is no dict of lists.
use unison_orchestrator.Prelude.{
  ℕ, suc, zero, String, Bool, true, false, not, ◌&&◌, ◌||◌, Option, none, some, List, [], ◌∷◌,
  if◌then◌else◌, lower, contains_text, Result, ok, err,
}
use unison_orchestrator.Prelude.Json.{
  Json, null, bool, int, negative, float, arr, str, obj, Items, nil, cons, Fields, end, get, put,
  truthy, dict,
}
use unison_orchestrator.Companion.Types.{
  Request, experience, graph_search, Reply, CompanionError, unusable, Config, Python, Act, ◌>>=◌,
  ◌>>◌, return, lift, send, as_dict, value_or, py_or, text_for,
}
use unison_orchestrator.Companion.Context.{list_or_empty, only_dicts, dashboard_get, dashboard_put}
use unison_orchestrator.Companion.Memory.{joined}

-- `x in xs`
unfoldable pub member : (Json → Json → Bool) → Json → Items → Bool
member same x nil = false
member same x (cons y ys) = same x y || member same x ys

-- `any(t in card_tags for t in tags)`
unfoldable pub shares : (Json → Json → Bool) → Items → Items → Bool
unfolding member
shares same nil card_tags = false
shares same (cons t ts) card_tags = member same t card_tags || shares same ts card_tags

unfoldable pub take_items : ℕ → Items → Items
take_items zero l = nil
take_items (suc n) nil = nil
take_items (suc n) (cons x xs) = cons x (take_items n xs)

-- `isinstance(v, (int, float))`
abbrev is_number : Json → Bool
is_number (bool _) = true
is_number (int _) = true
is_number (negative _) = true
is_number (float _) = true
is_number _ = false

-- The tags looked for: those of the hint, else those that the query suggests.
unfoldable pub tags_for : String → Option Items → Items
tags_for query (some (cons t ts)) = cons t ts
tags_for query _ =
    let lowered = lower query in
    let design = if contains_text "design" lowered then cons (str "design") nil else nil in
    let inferred =
      if contains_text "workflow" lowered then cons (str "workflow") design else design in
    elim inferred [ nil ↦ cons (str "workflow") nil | cons t ts ↦ cons t ts ]

-- The cards of a trace, and whether going through it raised nothing.
abbrev cards_of_metadata : Json → Items × Bool
cards_of_metadata (obj meta) = elim (value_or null (get "cards" meta)) [
  | arr l ↦ (l, true)
  | str _ ↦ (nil, true)
  | obj _ ↦ (nil, true)
  | v ↦ (nil, not (truthy v))
]
cards_of_metadata v = (nil, not (truthy v))

-- The cards of the traces, up to the first that raises.
unfoldable pub traced : Items → Items
unfolding only_dicts
traced nil = nil
traced (cons (obj trace) rest) =
    let later = traced rest in
    let (cards, fine) = cards_of_metadata (value_or null (get "metadata" trace)) in
    joined (only_dicts cards) (if fine then later else nil)
traced (cons _ rest) = nil

-- `d.setdefault(k, v)`
abbrev pub set_default : String → Json → Fields → Fields
set_default k v d = elim (get k d) [ some _ ↦ d | none ↦ put k v d ]

-- A card that is shown again, marked with its origin and the tag of workflows.
unfoldable pub recap : (Json → Json → Bool) → Fields → Fields
unfolding member
recap same base =
    let summary = set_default "origin_intent" (str "workflow.recall") base in
    let tags = list_or_empty (get "tags" summary) in
    put "tags"
      (arr (
        if member same (str "workflow") tags
        then tags
        else joined tags (cons (str "workflow") nil)))
      summary

module _ (python : Python) where
  -- The cards of the dashboard with one of the tags, that are not too old.
  unfoldable pub matching : Items → Json → Json → Items → Items
  unfolding shares
  matching tags days updated_at nil = nil
  matching tags days updated_at (cons (obj card) rest) =
      let later = matching tags days updated_at rest in
      let card_tags = list_or_empty (get "tags" card) in
      let created_at = py_or (value_or null (get "created_at" card)) updated_at in
      if not (shares python.same tags card_tags)
      then later
      else if is_number created_at && python.stale created_at days
      then later
      else cons (obj card) later
  matching tags days updated_at (cons _ rest) = matching tags days updated_at rest

  -- `dict(base)`
  abbrev copied : Json → Result CompanionError Fields
  copied (obj d) = ok d
  copied v = elim (python.dict_from v) [ some d ↦ ok d | none ↦ err unusable ]

  unfoldable pub recaps : Items → Act Items
  unfolding recap
  recaps nil = return nil
  recaps (cons v rest) = do
    base ← lift (copied v)
    later ← recaps rest
    return (cons (obj (recap python.same base)) later)

  module _ (answer : List Request → Reply) (config : Config) where
    -- The cards of matching traces.
    unfoldable pub searched : Json → Json → Items → Act Items
    unfolding traced
    searched person days tags = if not config.graph_url then return nil else (do
      reply ← send answer (
          graph_search (
            dict (
              ("user_id", person)
              ∷ ("tags", arr tags)
              ∷ ("since", python.since days)
              ∷ ("limit", int 20)
              ∷ [])))
      if not reply.success
          then return nil
          else return (elim (reply.body) [
            | obj data' ↦ traced (list_or_empty (get "traces" data'))
            | _ ↦ nil
          ]))

    -- The experiences sent to the renderer.
    unfoldable pub emit_recaps : Json → Items → Act (Unit {0})
    emit_recaps person nil = return tt
    emit_recaps person (cons (obj card) rest) = do
      let exp = set_default "person_id" person card
      let marked = set_default "origin_intent" (str "workflow.recall") exp
      let tagged =
          set_default "tags"
            (py_or (value_or null (get "tags" card)) (arr (cons (str "workflow") nil))) marked
      reply ← send answer (experience (set_default "ts" python.now tagged))
      if reply.success then emit_recaps person rest else return tt
    emit_recaps person (cons _ rest) = return tt

    abbrev summary_text : Items → String
    summary_text nil = "I couldn’t find any workflow cards to recall yet."
    summary_text (cons _ _) = "I’ve resurfaced your most recent workflow cards on the dashboard."

    -- `recall_workflow_from_dashboard`
    unfoldable pub recall_workflow_from_dashboard : Json → Json → Json → Option Items → Act Json
    unfolding matching recaps searched emit_recaps tags_for
    recall_workflow_from_dashboard person query days hint = do
      let tags = tags_for (text_for python.shown query) hint
      board ← dashboard_get answer person
      state ← lift (as_dict board)
      let cards = list_or_empty (get "cards" state)
      let matched = matching tags days (value_or null (get "updated_at" state)) cards
      found ← searched person days tags
      let chosen : Items = elim (joined matched found) [ nil ↦ cards | cons c cs ↦ cons c cs ]
      again ← recaps (take_items 3 chosen)
      _ ← dashboard_put answer person (
          dict (
            ("cards", arr again)
            ∷ ("preferences", py_or (value_or null (get "preferences" state)) (obj end))
            ∷ ("person_id", person)
            ∷ ("updated_at", python.now)
            ∷ []))
      if config.renderer_url then emit_recaps person again else return tt
      return (
          obj (
            dict (
              ("ok", bool true)
              ∷ ("person_id", person)
              ∷ ("cards", arr again)
              ∷ ("summary_text", str (summary_text again))
              ∷ [])))
