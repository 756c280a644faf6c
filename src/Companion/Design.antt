-- ===== src/Companion/Design.antt =====
-- src/orchestrator/companion.py: `apply_workflow_design`.
use Prim.Native.String
use unison_orchestrator.Prelude.{
  ℕ, suc, zero, String, Bool, true, false, not, ◌||◌, Option, none, some, List, [], ◌∷◌,
  if◌then◌else◌, ltb, elem, strip, ◌==◌, Result, ok, err, map,
}
use unison_orchestrator.Prelude.Json.{
  Json, null, bool, int, arr, str, obj, Items, nil, cons, Fields, end, get, put, truthy, dict,
  to_items, is_text,
}
use unison_orchestrator.Companion.Types.{
  Request, kv_set as kv_set_request, experience, Reply, CompanionError, unusable, Config, Python,
  Act, ◌>>=◌, ◌>>◌, return, lift, send, as_dict, value_or, py_or, body_dict, text_for,
}
use unison_orchestrator.Companion.Context.{list_or_empty, kv_get, dashboard_put}
use unison_orchestrator.Companion.Memory.{joined}
use unison_orchestrator.Companion.Recall.{set_default}

unfoldable pub items_length : Items → ℕ
items_length nil = 0
items_length (cons x xs) = suc (items_length xs)

-- `steps.insert(n, step)`
unfoldable pub insert_at : ℕ → Json → Items → Items
insert_at zero step steps = cons step steps
insert_at (suc n) step nil = cons step nil
insert_at (suc n) step (cons x xs) = cons x (insert_at n step xs)

-- A whole number from 0 on, which `True` and `False` are too.
abbrev pub position_of : Json → Option ℕ
position_of (int n) = some n
position_of (bool true) = some 1
position_of (bool false) = some 0
position_of _ = none

-- Where a step goes: at the position, if it is before the end, else at the end.
unfoldable pub place_step : Option ℕ → Json → Items → Items
unfolding insert_at
place_step (some n) step steps =
    if ltb n (items_length steps) then insert_at n step steps else joined steps (cons step nil)
place_step none step steps = joined steps (cons step nil)

-- `(v or "").strip()`
abbrev pub stripped : Json → Result CompanionError String
stripped (str s) = ok (strip s)
stripped v = if truthy v then err unusable else ok ""

-- The dedupe of the tags: the first of equal ones stays, and empty ones go.
unfoldable pub distinct_tags : List String → List String → List String
distinct_tags seen [] = []
distinct_tags seen (t ∷ ts) =
    let skipped = distinct_tags seen ts in
    let kept = distinct_tags (t ∷ seen) ts in if t == "" || elem t seen then skipped else t ∷ kept

-- "Renumber steps for display."
unfoldable pub renumbered : ℕ → Items → Items
renumbered n nil = nil
renumbered n (cons (obj step) rest) =
    cons (obj (put "order" (int n) step)) (renumbered (suc n) rest)
renumbered n (cons v rest) = cons v (renumbered (suc n) rest)

-- What a card shows of the steps.
unfoldable pub shown_steps : Items → Items
shown_steps nil = nil
shown_steps (cons (obj step) rest) =
    cons
      (obj (
        dict (
          ("order", value_or null (get "order" step))
          ∷ ("title", value_or null (get "title" step))
          ∷ [])))
      (shown_steps rest)
shown_steps (cons _ rest) = shown_steps rest

-- The text of a project, if it has one that is not blank.
abbrev project_text : Json → Option String
project_text (str s) = let t = strip s in if t == "" then none else some t
project_text _ = none

abbrev tags_of : String → Bool → Option String → List String
tags_of workflow_id review project = distinct_tags [] (
    "workflow"
    ∷ "planning"
    ∷ "workflow.design"
    ∷ (if review then "review" else "draft")
    ∷ String.◌++◌ "workflow:" workflow_id
    ∷ elim project [ some t ↦ String.◌++◌ "project:" t ∷ [] | none ↦ [] ])

module _ (python : Python) where
  -- The loop over the changes: the steps, and whether one was added.
  unfoldable pub changed_steps : Items → Items → Bool → Result CompanionError (Items × Bool)
  unfolding place_step
  changed_steps nil steps changed = ok (steps, changed)
  changed_steps (cons (obj change) rest) steps changed =
      if is_text "add_step" (get "op" change)
      then elim (stripped (value_or null (get "title" change))) [
        | err e ↦ err e
        | ok title ↦
            if title == ""
            then changed_steps rest steps changed
            else changed_steps rest
                (place_step (position_of (value_or null (get "position" change)))
                  (obj (
                    dict (
                      (
                        "id",
                        py_or (value_or null (get "id" change))
                            (str (python.new_id (items_length steps))),
                      )
                      ∷ ("title", str title)
                      ∷ [])))
                  steps)
                true
      ]
      else changed_steps rest steps changed
  changed_steps (cons _ rest) steps changed = changed_steps rest steps changed

  abbrev summary_card : String → Json → List String → Items → Fields
  summary_card workflow_id project tags steps = dict (
      ("id", str (String.◌++◌ "workflow-" (String.◌++◌ workflow_id "-summary")))
      ∷ ("type", str "workflow.summary")
      ∷ ("title", str (String.◌++◌ "Workflow: " workflow_id))
      ∷ (
        "body",
        str (String.◌++◌ (python.shown (int (items_length steps))) " step(s) in this workflow."),
      )
      ∷ ("tool_activity", str "workflow.design")
      ∷ ("origin_intent", str "workflow.design")
      ∷ ("tags", arr (to_items (map str tags)))
      ∷ ("workflow_id", str workflow_id)
      ∷ ("project_id", project)
      ∷ ("created_at", python.now)
      ∷ ("steps", arr (shown_steps steps))
      ∷ [])

  -- The document of a workflow, with its steps numbered.
  unfoldable pub designed : String → Json → Option String → Items → Fields → Fields
  unfolding renumbered
  designed workflow_id person project steps doc =
      let named = put "person_id" person (put "workflow_id" (str workflow_id) doc) in
      let placed : Fields = elim project [
        | some t ↦ put "project_id" (str t) named
        | none ↦ named
      ] in
      put "updated_at" python.now (put "steps" (arr (renumbered 1 steps)) placed)

  -- The document that is kept under a key.
  abbrev existing_of : String → Reply → Result CompanionError Fields
  existing_of key reply = elim (body_dict reply) [
    | none ↦ ok end
    | some body ↦ elim (as_dict (py_or (value_or null (get "values" body)) (obj end))) [
      | err e ↦ err e
      | ok values ↦ elim (value_or null (get key values)) [ obj d ↦ ok d | _ ↦ ok end ]
    ]
  ]

  module _ (answer : List Request → Reply) (config : Config) where
    -- The document is stored when designing or when there was a change.
    unfoldable pub store_design : String → Fields → Bool → Act Reply
    store_design key doc wanted =
        if wanted
        then send answer (kv_set_request key (obj doc))
        else return record { success = true; status = 200; body = null }

    -- The card's experience for the renderer; what it raises is caught.
    unfoldable pub emit_card : Json → Fields → Act (Unit {0})
    emit_card person card =
        if config.renderer_url
        then (do
          _ ←
              send answer
                (experience (set_default "ts" python.now (set_default "person_id" person card)))
          return tt)
        else return tt

    -- What follows once the document is stored.
    unfoldable pub publish_design : String → Json → Json → Bool → Fields → Items → Act Json
    unfolding distinct_tags shown_steps emit_card
    publish_design workflow_id person project review doc steps = do
      let tags = tags_of workflow_id review (project_text project)
      let card = summary_card workflow_id project tags steps
      _ ← dashboard_put answer person (
          dict (
            ("cards", arr (cons (obj card) nil))
            ∷ ("preferences", obj end)
            ∷ ("person_id", person)
            ∷ ("updated_at", python.now)
            ∷ []))
      emit_card person card
      return (
          obj (
            dict (
              ("ok", bool true)
              ∷ ("person_id", person)
              ∷ ("workflow_id", str workflow_id)
              ∷ ("project_id", project)
              ∷ ("mode", str (if review then "review" else "design"))
              ∷ ("workflow", obj doc)
              ∷ ("cards", arr (cons (obj card) nil))
              ∷ [])))

    abbrev context_error : Json → String → Reply → Json
    context_error person workflow_id reply = obj (
        dict (
          ("ok", bool false)
          ∷ ("error", str (String.◌++◌ "context error " (python.shown (int reply.status))))
          ∷ ("person_id", person)
          ∷ ("workflow_id", str workflow_id)
          ∷ []))

    -- `apply_workflow_design`, for an id that is not blank
    unfoldable pub design : String → Json → Json → Bool → Items → Act Json
    unfolding changed_steps designed store_design publish_design
    design workflow_id person project review changes = do
      let key =
          String.◌++◌ "workflow:"
            (String.◌++◌ (text_for python.shown person) (String.◌++◌ ":" workflow_id))
      found ← kv_get answer (key ∷ [])
      existing ← lift (existing_of key found)
      result ← lift (changed_steps changes (list_or_empty (get "steps" existing)) false)
      let steps = result.0
      let doc = designed workflow_id person (project_text project) steps existing
      stored ← store_design key doc (not review || result.1)
      if stored.success
          then publish_design workflow_id person project review doc (renumbered 1 steps)
          else return (context_error person workflow_id stored)

    -- `apply_workflow_design`, for an id that may be blank
    unfoldable pub design_named : Option String → Json → Json → Bool → Items → Act Json
    unfolding design
    design_named none person project review changes =
        return (obj (dict (("ok", bool false) ∷ ("error", str "invalid-workflow-id") ∷ [])))
    design_named (some id) person project review changes = design id person project review changes

    -- `apply_workflow_design`
    unfoldable pub apply_workflow_design : Json → Json → Json → Json → Json → Act Json
    unfolding design_named
    apply_workflow_design person workflow_id project mode changes =
        design_named (project_text workflow_id) person project (is_text "review" (some mode))
          (list_or_empty (some changes))
