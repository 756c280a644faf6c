-- ===== src/Workflow/Disclosure.antt =====
-- The payload that a provider gets: the fields that its kind of work needs, and no other content.
use unison_orchestrator.Prelude.{
  String, false, not, ◌&&◌, Option, none, some, List, [], ◌∷◌, ◌≡◌, refl, arith, elem, is_empty,
  if◌then◌else◌, eq_iff, ◌==◌, sorted, elem-sorted,
}
use unison_orchestrator.Prelude.Dict.{Dict, lookup, insert, erase, lookup-insert}
use unison_orchestrator.Prelude.Json.{Json, str, arr}
use unison_orchestrator.Workflow.Types.{
  WorkflowKind, calendar_coordination, email_triage_draft, reminder_commitment_review,
  household_coordination, contact_recall, document_web_research, travel_planning, WorkflowRequest,
}
use unison_orchestrator.Workflow.Plan.{minimal_fields, select, minimized_payload, items}

lookup-select :
    (k : String) (ks : List String) (content : Dict Json)
    → lookup k (select ks content) ≡ (if elem k ks then lookup k content else none)
unfolding select lookup
lookup-select k [] content = refl
lookup-select k (j ∷ ks) content =
    ground (arith, lookup-select k ks content, eq_iff j k, eq_iff k j)

erase_absent : (k : String) (d : Dict Json) → lookup k d ≡ none → erase k d ≡ d
unfolding erase lookup
erase_absent k [] h = refl
erase_absent k ((j, v) ∷ d) h = ground (arith, erase_absent k d)

-- No template needs a field of either name.
no_instructions :
    (k : WorkflowKind)
    → (elem "instructions" (minimal_fields k) ≡ false)
      × (elem "sponsored" (minimal_fields k) ≡ false)
unfolding minimal_fields
no_instructions calendar_coordination = (refl, refl)
no_instructions email_triage_draft = (refl, refl)
no_instructions reminder_commitment_review = (refl, refl)
no_instructions household_coordination = (refl, refl)
no_instructions contact_recall = (refl, refl)
no_instructions document_web_research = (refl, refl)
no_instructions travel_planning = (refl, refl)

-- What the payload may say of each key.
abbrev pub disclosed : WorkflowRequest → String → Option Json
disclosed request k =
    if "purpose" == k
    then some (str request.purpose)
    else if not (is_empty request.recipient_ids) && "recipient_ids" == k
    then some (arr (items request.recipient_ids))
    else if elem k (minimal_fields request.kind)
    then lookup k request.content
    else none

module _ (request : WorkflowRequest) where
  addressed : Dict Json
  addressed =
      let chosen = select (sorted (minimal_fields request.kind)) request.content in
      if is_empty request.recipient_ids
      then chosen
      else insert "recipient_ids" (arr (items request.recipient_ids)) chosen

  lookup-addressed :
      (k : String)
      → lookup k addressed ≡ (
          if not (is_empty request.recipient_ids) && "recipient_ids" == k
          then some (arr (items request.recipient_ids))
          else if elem k (minimal_fields request.kind)
          then lookup k request.content
          else none)
  unfolding addressed
  lookup-addressed k = ground (
    arith,
    lookup-select k (sorted (minimal_fields request.kind)) request.content,
    elem-sorted k (minimal_fields request.kind),
    lookup-insert "recipient_ids" k (arr (items request.recipient_ids))
        (select (sorted (minimal_fields request.kind)) request.content),
  )

  nothing_erased : erase "sponsored" (erase "instructions" addressed) ≡ addressed
  nothing_erased =
      rw
        (erase_absent "instructions" addressed
          (ground (arith, lookup-addressed "instructions", (no_instructions request.kind).0)))
        (erase_absent "sponsored" addressed
          (ground (arith, lookup-addressed "sponsored", (no_instructions request.kind).1)))

  -- The payload has exactly the purpose, the recipients if there are any, and those of the
  -- minimal fields of the request's kind that its content has; every other key is absent.
  pub lookup-minimized_payload :
      (k : String) → lookup k (minimized_payload request) ≡ disclosed request k
  unfolding minimized_payload addressed
  lookup-minimized_payload k = rw nothing_erased (
      ground (arith, lookup-insert "purpose" k (str request.purpose) addressed, lookup-addressed k))
