-- ===== src/Household/Dispatch.antt =====
-- What one round of `dispatch_next` does to an assistant whose entries are there.
use unison_orchestrator.Prelude.{
  String, Bool, true, false, Option, none, some, List, [], ◌∷◌, ◌≡◌, refl, length, ltb, is_some,
  arith,
}
use unison_orchestrator.Prelude.Dict.{Dict, lookup, insert}
use unison_orchestrator.Household.{
  AssistantResourceQuota, ResourceLease, Scheduler, skip, leased, visit, new_lease,
}

-- An assistant has an entry in each of the scheduler's dictionaries.
abbrev pub IsRegistered : Scheduler → String → Type 0
IsRegistered s a =
    (is_some (lookup a s.quotas) ≡ true)
    × (is_some (lookup a s.queues) ≡ true)
    × (is_some (lookup a s.active) ≡ true)

abbrev has_room : Option (List String) → Option (Dict ResourceLease) → AssistantResourceQuota → Bool
has_room (some (t ∷ q)) (some leases) quota = ltb (length leases) quota.max_concurrent_tasks
has_room _ _ quota = false

abbrev may_run_at :
    Option AssistantResourceQuota → Option (List String) → Option (Dict ResourceLease) → Bool
may_run_at (some quota) q l = has_room q l quota
may_run_at none q l = false

-- The assistant has a queued task, and fewer leases than its quota allows.
abbrev pub may_run : Scheduler → String → Bool
may_run s a = may_run_at (lookup a s.quotas) (lookup a s.queues) (lookup a s.active)

-- What `grant` needs: the quota, the queue's head and tail, and the leases.
pub record Ready (s : Scheduler) (a : String) : Type 0 where
  pub quota : AssistantResourceQuota
  pub task : String
  pub rest : List String
  pub leases : Dict ResourceLease
  pub quota_eq : lookup a s.quotas ≡ some quota
  pub queue_eq : lookup a s.queues ≡ some (task ∷ rest)
  pub active_eq : lookup a s.active ≡ some leases
  pub room : ltb (length leases) quota.max_concurrent_tasks ≡ true

-- The scheduler after the assistant's first task has become a lease.
abbrev pub granted : String → (a : String) (s : Scheduler) → Ready s a → Scheduler
granted id a s r = record s {
  queues = insert a r.rest s.queues;
  active = insert a (insert id (new_lease id a r.task r.quota) r.leases) s.active;
}

pub Ready_of_may_run : (s : Scheduler) (a : String) → may_run s a ≡ true → Ready s a
Ready_of_may_run s a h =
    go (lookup a s.quotas) (lookup a s.queues) (lookup a s.active) refl refl refl h
  where
    go :
        (q : Option AssistantResourceQuota) (w : Option (List String))
        (l : Option (Dict ResourceLease))
        → lookup a s.quotas ≡ q
        → lookup a s.queues ≡ w
        → lookup a s.active ≡ l
        → may_run_at q w l ≡ true
        → Ready s a
    go (some q) (some (t ∷ w)) (some l) eq ew el h = record {
      quota = q;
      task = t;
      rest = w;
      leases = l;
      quota_eq = eq;
      queue_eq = ew;
      active_eq = el;
      room = h;
    }
    go (some q) (some (t ∷ w)) none eq ew el h = cc
    go (some q) (some []) l eq ew el h = cc
    go (some q) none l eq ew el h = cc
    go none w l eq ew el h = cc

-- An assistant that may not run is passed over, and nothing changes.
pub visit-skip :
    (id a : String) (s : Scheduler)
    → IsRegistered s a
    → may_run s a ≡ false
    → visit id a s ≡ (skip, s)
unfolding visit
visit-skip id a s h e = ground arith

-- An assistant that may run gets a lease for its first task.
pub visit-leased :
    (id a : String) (s : Scheduler) (r : Ready s a)
    → visit id a s ≡ (leased (new_lease id a r.task r.quota), granted id a s r)
unfolding visit
visit-leased id a s r = ground (arith, r.quota_eq, r.queue_eq, r.active_eq, r.room)
