-- ===== src/Workflow/Planning.antt =====
-- `plan`: what a request has to satisfy, and what the new plan may touch.
use unison_orchestrator.Prelude.{
  ℕ, String, Bool, true, false, List, [], ◌∷◌, ◌≡◌, ◌≢◌, refl, arith, elem, is_empty, All, ok,
  Option-cases, inl, inr, is_some, eq_iff,
}
use unison_orchestrator.Prelude.Dict.{Dict, lookup, insert}
use unison_orchestrator.Prelude.Json.{Json}
use unison_orchestrator.Workflow.Provider.{FakeProvider}
use unison_orchestrator.Workflow.Types.{WorkflowRequest, WorkflowStep, TaskPlan, Engine}
use unison_orchestrator.Workflow.Plan.{
  plan, new_plan, new_step, new_execution, templates, is_subset,
}

-- Every text of one list is in the other.
abbrev pub Within : List String → List String → Type 0
Within xs ys = (s : String) → elem s xs ≡ true → elem s ys ≡ true

is_subset→Within : (xs ys : List String) → is_subset xs ys ≡ true → Within xs ys
is_subset→Within [] ys h s m = ground arith
is_subset→Within (x ∷ xs) ys h s m =
    ground (arith, is_subset→Within xs ys (ground arith) s, eq_iff s x)

-- Who asks for what, as the engine checks it.
pub record Permitted (signals_ok : Dict Json → Bool) (request : WorkflowRequest) (e : Engine)
    : Type 0 where
  pub person_aligned : signals_ok request.ranking_signals ≡ true
  pub has_context : is_empty request.context_space_ids ≡ false
  pub contexts : is_subset request.context_space_ids request.allowed_context_space_ids ≡ true
  pub recipients : is_subset request.recipient_ids request.allowed_recipient_ids ≡ true
  pub known : is_some (lookup (templates request.kind).provider_kind e.providers) ≡ true

pub plan_needs :
    (signals_ok : Dict Json → Bool) (id : String) (n : ℕ) (request : WorkflowRequest) (e : Engine)
    {p : TaskPlan} {e' : Engine}
    → plan signals_ok id n request e ≡ ok (p, e')
    → Permitted signals_ok request e
unfolding plan
plan_needs signals_ok id n request e h =
    elim (Option-cases (lookup (templates request.kind).provider_kind e.providers)) [
      | inl q ↦ absurd (ground arith)
      | inr (v, q) ↦ record {
        person_aligned = ground arith;
        has_context = ground arith;
        contexts = ground arith;
        recipients = ground arith;
        known = ground arith;
      }
    ]

pub plan_made :
    (signals_ok : Dict Json → Bool) (id : String) (n : ℕ) (request : WorkflowRequest) (e : Engine)
    {p : TaskPlan} {e' : Engine}
    → plan signals_ok id n request e ≡ ok (p, e')
    → (v : FakeProvider) × (p ≡ new_plan id request (new_step request v n))
      × (e' ≡ record e { executions = insert id (new_execution p request) e.executions })
unfolding plan
plan_made signals_ok id n request e h =
    elim (Option-cases (lookup (templates request.kind).provider_kind e.providers)) [
      | inl q ↦ absurd (ground arith)
      | inr (v, q) ↦ (v, ground arith, ground arith)
    ]

-- The step of a new plan addresses the recipients of the request, and nobody else.
abbrev pub Addresses : WorkflowRequest → TaskPlan → Type 0
Addresses request p = All (λ (s : WorkflowStep). s.recipient_ids ≡ request.recipient_ids) p.steps

-- A request that is planned names at least one context space, names only spaces and recipients
-- that it is allowed, and its plan has these spaces and recipients; planning changes no provider
-- and no outcome.
pub plan-Permitted :
    (signals_ok : Dict Json → Bool) (id : String) (n : ℕ) (request : WorkflowRequest) (e : Engine)
    {p : TaskPlan} {e' : Engine}
    → plan signals_ok id n request e ≡ ok (p, e')
    → (request.context_space_ids ≢ [])
      × Within request.context_space_ids request.allowed_context_space_ids
      × Within request.recipient_ids request.allowed_recipient_ids
      × (p.context_space_ids ≡ request.context_space_ids)
      × Addresses request p
      × (e'.providers ≡ e.providers)
      × (e'.outcomes ≡ e.outcomes)
unfolding new_plan new_step
plan-Permitted signals_ok id n request e {p} {e'} h =
    let g = plan_needs signals_ok id n request e h in
    let (v, made, stored) = plan_made signals_ok id n request e h in
    (
      λ empty. ground (arith, g.has_context, empty),
      is_subset→Within request.context_space_ids request.allowed_context_space_ids g.contexts,
      is_subset→Within request.recipient_ids request.allowed_recipient_ids g.recipients,
      rw made,
      rw made (refl, tt),
      rw stored,
      rw stored,
    )
