-- ===== src/Household/Submission.antt =====
-- `submit`: when a task is accepted, and the check of running tasks, which compares the task id
-- with the ids of leases.
use unison_orchestrator.Prelude.{
  String, true, false, some, List, [], ◌∷◌, ◌++◌, ◌≡◌, ◌↔◌, arith, Option-cases, inl, inr, length,
  ltb, elem, ok, eq_refl,
}
use unison_orchestrator.Prelude.Dict.{Dict, lookup, insert, contains}
use unison_orchestrator.Household.{AssistantResourceQuota, ResourceLease, Scheduler, submit}

-- What `submit` asks of the state: a known assistant with room in its queue, a task id that is
-- not in the queue, and that is no lease id of the assistant.
pub record Accepts (s : Scheduler) (a t : String) : Type 0 where
  pub quota : AssistantResourceQuota
  pub queue : List String
  pub leases : Dict ResourceLease
  pub quota_eq : lookup a s.quotas ≡ some quota
  pub queue_eq : lookup a s.queues ≡ some queue
  pub active_eq : lookup a s.active ≡ some leases
  pub room : ltb (length queue) quota.max_queued_tasks ≡ true
  pub not_queued : elem t queue ≡ false
  pub no_lease : contains t leases ≡ false

abbrev pub accepted : {s : Scheduler} {a t : String} → Accepts s a t → Scheduler
accepted {s} {a} {t} r = record s { queues = insert a (r.queue ++ t ∷ []) s.queues }

accepts : {s : Scheduler} {a t : String} (r : Accepts s a t) → submit a t s ≡ ok (accepted r)
unfolding submit
accepts r = ground (arith, r.quota_eq, r.queue_eq, r.active_eq, r.room, r.not_queued, r.no_lease)

Accepts-of :
    (s : Scheduler) (a t : String) {s' : Scheduler}
    → submit a t s ≡ ok s'
    → (r : Accepts s a t) × (s' ≡ accepted r)
unfolding submit
Accepts-of s a t h = elim (Option-cases (lookup a s.quotas)) [
  | inl e ↦ absurd (ground arith)
  | inr (quota, e1) ↦ elim (Option-cases (lookup a s.queues)) [
    | inl e ↦ absurd (ground arith)
    | inr (queue, e2) ↦ elim (Option-cases (lookup a s.active)) [
      | inl e ↦ absurd (ground arith)
      | inr (leases, e3) ↦ (
        record {
          quota = quota;
          queue = queue;
          leases = leases;
          quota_eq = e1;
          queue_eq = e2;
          active_eq = e3;
          room = ground arith;
          not_queued = ground arith;
          no_lease = ground arith;
        },
        ground arith,
      )
    ]
  ]
]

-- A task is accepted exactly when the assistant is registered, its queue has room, and the task
-- id is neither in the queue nor a lease id of the assistant; the task then stands at the end of
-- the queue, and nothing else changes.
pub submit-eq-ok_iff :
    (s : Scheduler) (a t : String) (s' : Scheduler)
    → (submit a t s ≡ ok s') ↔ ((r : Accepts s a t) × (s' ≡ accepted r))
submit-eq-ok_iff s a t s' = (Accepts-of s a t, λ (r, e). rw e (accepts r))

elem-last : (t : String) (q : List String) → elem t (q ++ t ∷ []) ≡ true
elem-last t [] = rw eq_refl
elem-last t (x ∷ q) = ground (arith, elem-last t q)
