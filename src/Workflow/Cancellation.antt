-- ===== src/Workflow/Cancellation.antt =====
-- `cancel`: every receipt is compensated at its provider; and what a cancelled plan reports when it
-- had been completed before.
use mathlib.Core.Path.{subst}
use mathlib.Core.List.{reverse, reverse-cons, reverse-reverse}
use unison_orchestrator.Prelude.{
  String, Bool, true, false, some, List, [], ◌∷◌, ◌++◌, ◌≡◌, refl, sym, arith, Option-cases,
  Bool-cases, inl, inr, ◌∙◌, ap, ok, All, All-append, ◌==◌, eq_iff, eq_refl, if◌then◌else◌, is_some,
  elem, is_empty,
}
use unison_orchestrator.Prelude.Dict.{Dict, lookup, insert, lookup-insert, lookup-insert_self}
use unison_orchestrator.Workflow.Provider.{FakeProvider, Digest, compensate}
use unison_orchestrator.Workflow.Types.{cancelled, compensated, Execution, OutcomeEvidence, Engine}
use unison_orchestrator.Workflow.Cases.{execute-cached, cancel-known, cancel-unknown}
use unison_orchestrator.Workflow.Engine.{
  evidence, cancel, cancel_with, cancelled_execution, cancel_evidence, compensate_all, execute,
}

-- The provider of this kind has compensated the receipt.
abbrev pub Compensated : Dict FakeProvider → String × String → Type 0
Compensated ps (kind, receipt) =
    (p : FakeProvider) × (lookup kind ps ≡ some p) × (elem receipt p.compensations ≡ true)

abbrev pub HasProvider : Dict FakeProvider → String × String → Type 0
HasProvider ps (kind, receipt) = is_some (lookup kind ps) ≡ true

elem-append_left : (s : String) (xs ys : List String) → elem s xs ≡ true → elem s (xs ++ ys) ≡ true
elem-append_left s [] ys h = ground arith
elem-append_left s (x ∷ xs) ys h = ground (arith, elem-append_left s xs ys)

elem-append_last : (s : String) (xs : List String) → elem s (xs ++ s ∷ []) ≡ true
elem-append_last s [] = rw eq_refl
elem-append_last s (x ∷ xs) = ground (arith, elem-append_last s xs)

compensate-elem : (r : String) (p : FakeProvider) → elem r (compensate r p).compensations ≡ true
unfolding compensate
compensate-elem r p = elim (Bool-cases (elem r p.compensations)) [
  | inl e ↦ rw e e
  | inr e ↦ rw e (elem-append_last r p.compensations)
]

compensate-keeps :
    (r s : String) (p : FakeProvider)
    → elem s p.compensations ≡ true
    → elem s (compensate r p).compensations ≡ true
unfolding compensate
compensate-keeps r s p h = elim (Bool-cases (elem r p.compensations)) [
  | inl e ↦ rw e h
  | inr e ↦ rw e (elem-append_left s p.compensations (r ∷ []) h)
]

-- One more compensation leaves the others in place.
insert-Compensated :
    (kind r : String) (ps : Dict FakeProvider) (p : FakeProvider) (c : String × String)
    → lookup kind ps ≡ some p
    → Compensated ps c
    → Compensated (insert kind (compensate r p) ps) c
insert-Compensated kind r ps p (k, s) q (p', q', m) = elim (Bool-cases (kind == k)) [
  | inl e ↦ (
    compensate r p,
    ground (arith, lookup-insert kind k (compensate r p) ps),
    compensate-keeps r s p (ground (arith, eq_iff kind k, q, q', m)),
  )
  | inr e ↦ (p', ground (arith, lookup-insert kind k (compensate r p) ps), m)
]

insert-HasProvider :
    (kind : String) (v : FakeProvider) (ps : Dict FakeProvider) (c : String × String)
    → HasProvider ps c
    → HasProvider (insert kind v ps) c
insert-HasProvider kind v ps (k, s) h = ground (arith, lookup-insert kind k v ps)

All-map {ℓ κ ι} :
    {A : Type ℓ} (P : A → Type κ) (Q : A → Type ι) (xs : List A)
    → ((a : A) → P a → Q a)
    → All P xs
    → All Q xs
All-map P Q [] f h = tt
All-map P Q (x ∷ xs) f h = (f x h.0, All-map P Q xs f h.1)

All-reverse {ℓ κ} : {A : Type ℓ} (P : A → Type κ) (xs : List A) → All P xs → All P (reverse xs)
All-reverse P [] h = tt
All-reverse P (x ∷ xs) h =
    rw reverse-cons (All-append P (reverse xs) (x ∷ []) (All-reverse P xs h.1) (h.0, tt))

compensate_all-keeps :
    (rs : List (String × String)) (ps : Dict FakeProvider) (c : String × String)
    → Compensated ps c
    → Compensated (compensate_all rs ps).1 c
unfolding compensate_all
compensate_all-keeps [] ps c h = h
compensate_all-keeps ((kind, r) ∷ rs) ps c h = elim (Option-cases (lookup kind ps)) [
  | inl q ↦ rw (q, compensate_all) h
  | inr (p, q) ↦
      rw (q, compensate_all) (compensate_all-keeps rs _ c (insert-Compensated kind r ps p c q h))
]

compensate_all-step :
    (kind r : String) (rs : List (String × String)) (ps : Dict FakeProvider) {p : FakeProvider}
    → lookup kind ps ≡ some p
    → compensate_all ((kind, r) ∷ rs) ps ≡ compensate_all rs (insert kind (compensate r p) ps)
unfolding compensate_all
compensate_all-step kind r rs ps q = rw (q, compensate_all)

compensate_all_lem :
    (rs : List (String × String)) (ps : Dict FakeProvider)
    → All (HasProvider ps) rs
    → ((compensate_all rs ps).0 ≡ true) × All (Compensated (compensate_all rs ps).1) rs
compensate_all_lem [] ps h = (unfold compensate_all in refl, tt)
compensate_all_lem ((kind, r) ∷ rs) ps (has, h) = elim (Option-cases (lookup kind ps)) [
  | inl q ↦ absurd (ground arith)
  | inr (p, q) ↦
      let ps1 = insert kind (compensate r p) ps in
      let (all_done, each) = compensate_all_lem rs ps1 (
        All-map (HasProvider ps) (HasProvider ps1) rs (insert-HasProvider kind (compensate r p) ps)
          h) in
      subst
        (λ (z : Bool × Dict FakeProvider). (z.0 ≡ true) × All (Compensated z.1) ((kind, r) ∷ rs))
        (sym (compensate_all-step kind r rs ps q))
        (
          all_done,
          (
            compensate_all-keeps rs ps1 (kind, r)
                (compensate r p, lookup-insert_self kind _ ps, compensate-elem r p),
            each,
          ),
        )
]

cancel_with-true :
    (id : String) (x : Execution) (e : Engine) (r : Bool × Dict FakeProvider)
    → r.0 ≡ true
    → cancel_with id x e r ≡ (
      ok (cancel_evidence x),
      record e { providers = r.1; executions = insert id (cancelled_execution x) e.executions },
    )
unfolding cancel_with
cancel_with-true id x e (true, ps) h = refl
cancel_with-true id x e (false, ps) h = absurd (ground (arith, h))

cancel_evidence-state :
    (x : Execution)
    → (cancel_evidence x).state ≡ (if is_empty x.receipts then cancelled else compensated)
unfolding evidence
cancel_evidence-state x = elim (Bool-cases (is_empty x.receipts)) [
  | inl h ↦ ground (arith, h)
  | inr h ↦ ground (arith, h)
]

-- Cancelling a plan whose receipts all come from providers that are still there compensates every
-- receipt at the provider of its kind, marks the execution, changes no outcome, and reports
-- `compensated` if there was a receipt and `cancelled` if not.
pub cancel-Compensated :
    (id : String) (e : Engine) {x : Execution}
    → lookup id e.executions ≡ some x
    → All (HasProvider e.providers) x.receipts
    → (ev : OutcomeEvidence) × (e' : Engine) × (cancel id e ≡ (ok ev, e'))
      × (ev.state ≡ (if is_empty x.receipts then cancelled else compensated))
      × All (Compensated e'.providers) x.receipts
      × (e'.executions ≡ insert id (cancelled_execution x) e.executions)
      × (e'.outcomes ≡ e.outcomes)
cancel-Compensated id e {x} q h =
    let r = compensate_all (reverse x.receipts) e.providers in
    let (all_done, each) =
      compensate_all_lem (reverse x.receipts) e.providers (All-reverse _ x.receipts h) in
    (
      cancel_evidence x,
      record e { providers = r.1; executions = insert id (cancelled_execution x) e.executions },
      cancel-known id e q ∙ cancel_with-true id x e r all_done,
      cancel_evidence-state x,
      subst (All (Compensated r.1)) (reverse-reverse x.receipts)
          (All-reverse (Compensated r.1) (reverse x.receipts) each),
      refl,
      refl,
    )

cancel_with-outcomes :
    (id : String) (x : Execution) (e : Engine) (r : Bool × Dict FakeProvider)
    → (cancel_with id x e r).1.outcomes ≡ e.outcomes
unfolding cancel_with
cancel_with-outcomes id x e (true, ps) = refl
cancel_with-outcomes id x e (false, ps) = refl

cancel-outcomes : (id : String) (e : Engine) → (cancel id e).1.outcomes ≡ e.outcomes
cancel-outcomes id e = elim (Option-cases (lookup id e.executions)) [
  | inl q ↦ rw (cancel-unknown id e q)
  | inr (x, q) ↦ rw (cancel-known id e q) (cancel_with-outcomes id x e _)
]

-- A plan with a kept outcome reports that outcome for ever: executing it after it has been
-- cancelled returns the evidence of its completion, and changes nothing.
pub execute-cancel :
    (digest : Digest) (id : String) (e : Engine) {o : OutcomeEvidence}
    → lookup id e.outcomes ≡ some o
    → execute digest id (cancel id e).1 ≡ (ok o, (cancel id e).1)
execute-cancel digest id e q =
    execute-cached digest id (cancel id e).1 (ap (lookup id) (cancel-outcomes id e) ∙ q)
