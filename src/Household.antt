-- ===== src/Household.antt =====
-- src/orchestrator/household_resources.py: the round-robin scheduler of assistants that share one
-- appliance. Methods return the value or the exception, and the state that the call left.
-- `AssistantResourceQuota` is unison_common's; it has the fields that the scheduler reads.
-- A lease id is a fresh UUID in the source, and an argument of `dispatch_next` here.
mod Dispatch
pub mod Invariant
pub mod Fairness
pub mod Restart
pub mod Reach
pub mod Submission
mod Tests
use mathlib.Core.Option
use mathlib.Core.List.{reverse}
use unison_orchestrator.Prelude.{
  ℕ, zero, suc, String, Bool, true, false, Option, none, some, List, [], ◌∷◌, ◌++◌, ◌||◌, length,
  is_empty, elem, ltb, leb, if◌then◌else◌, Result, ok, err, ◌>>=◌,
}
use unison_orchestrator.Prelude.Dict.{Dict, lookup, contains, insert, erase, values, sum_of}

pub record AssistantResourceQuota : Type 0 where
  pub assistant_instance_id : String
  pub max_concurrent_tasks : ℕ
  pub max_queued_tasks : ℕ
  pub cpu_units : ℕ
  pub memory_mb : ℕ

pub record ResourceLease : Type 0 where
  pub lease_id : String
  pub assistant_instance_id : String
  pub task_id : String
  pub cpu_units : ℕ
  pub memory_mb : ℕ

pub record Scheduler : Type 0 where
  pub total_concurrent_tasks : ℕ
  pub quotas : Dict AssistantResourceQuota
  pub queues : Dict (List String)
  pub active : Dict (Dict ResourceLease)
  pub rotation : List String

pub data SchedulerError : Type 0 where
  value_error unknown_assistant key_error index_error : SchedulerError
  quota_exceeded : String → SchedulerError

-- `HouseholdResourceScheduler.__init__`
pub init : ℕ → Result SchedulerError Scheduler
init total =
    if ltb total 1
    then err value_error
    else ok (record {
      total_concurrent_tasks = total;
      quotas = [];
      queues = [];
      active = [];
      rotation = [];
    })

pub register : AssistantResourceQuota → Scheduler → Scheduler
register quota s =
    let assistant = quota.assistant_instance_id in
    if contains assistant s.quotas
    then record s { quotas = insert assistant quota s.quotas }
    else record s {
      rotation = s.rotation ++ assistant ∷ [];
      queues = insert assistant [] s.queues;
      active = insert assistant [] s.active;
      quotas = insert assistant quota s.quotas;
    }

-- `d[k]`
abbrev item {ℓ} : {V : Type ℓ} → SchedulerError → Option V → Result SchedulerError V
item e none = err e
item e (some v) = ok v

abbrev require : String → Scheduler → Result SchedulerError AssistantResourceQuota
require assistant s = item unknown_assistant (lookup assistant s.quotas)

-- The check of the queue, then that of the active leases, whose keys are lease ids; then the
-- append.
pub enqueue : String → String → List String → Scheduler → Result SchedulerError Scheduler
enqueue assistant task queue s =
    if elem task queue
    then err (quota_exceeded "task is already scheduled")
    else (item key_error (lookup assistant s.active) >>= λ leases.
        if contains task leases
        then err (quota_exceeded "task is already scheduled")
        else ok (record s { queues = insert assistant (queue ++ task ∷ []) s.queues }))

pub submit : String → String → Scheduler → Result SchedulerError Scheduler
unfolding enqueue
submit assistant task s = do
  quota ← require assistant s
  queue ← item key_error (lookup assistant s.queues)
  if leb quota.max_queued_tasks (length queue)
      then err (quota_exceeded "assistant queue quota exhausted")
      else enqueue assistant task queue s

pub active_count : Scheduler → ℕ
active_count s = sum_of length s.active

-- How one round of the loop in `dispatch_next` ends.
pub data Round : Type 0 where
  skip : Round
  leased : ResourceLease → Round
  fault : SchedulerError → Round

abbrev new_lease : String → String → String → AssistantResourceQuota → ResourceLease
new_lease id assistant task quota = record {
  lease_id = id;
  assistant_instance_id = assistant;
  task_id = task;
  cpu_units = quota.cpu_units;
  memory_mb = quota.memory_mb;
}

-- From `task_id = ... popleft()` to `return lease`.
pub grant :
    String
    → String
    → AssistantResourceQuota
    → List String
    → Dict ResourceLease
    → Scheduler
    → Round × Scheduler
grant id assistant quota [] leases s = (skip, s)
grant id assistant quota (task ∷ rest) leases s =
    if leb quota.max_concurrent_tasks (length leases) then (skip, s) else (
      leased (new_lease id assistant task quota),
      record s {
        queues = insert assistant rest s.queues;
        active = insert assistant (insert id (new_lease id assistant task quota) leases) s.active;
      },
    )

-- The queue is read before the active leases, so an empty queue hides a missing entry.
pub visit_queue :
    String
    → String
    → AssistantResourceQuota
    → Option (List String)
    → Option (Dict ResourceLease)
    → Scheduler
    → Round × Scheduler
visit_queue id assistant quota none _ s = (fault key_error, s)
visit_queue id assistant quota (some []) _ s = (skip, s)
visit_queue id assistant quota (some (t ∷ q)) none s = (fault key_error, s)
visit_queue id assistant quota (some (t ∷ q)) (some leases) s =
    grant id assistant quota (t ∷ q) leases s

-- One round, after the rotation has moved `assistant` to its end.
pub visit : String → String → Scheduler → Round × Scheduler
unfolding visit_queue grant
visit id assistant s = elim (lookup assistant s.quotas) [
  | none ↦ (fault key_error, s)
  | some quota ↦
      visit_queue id assistant quota (lookup assistant s.queues) (lookup assistant s.active) s
]

-- `assistant = self._rotation[0]; self._rotation.rotate(-1)`, and the rest of the round.
pub round : String → List String → Scheduler → Round × Scheduler
round id [] s = (fault index_error, s)
round id (assistant ∷ rest) s = visit id assistant (record s { rotation = rest ++ assistant ∷ [] })

-- What a round means for the loop: `continue`, `return lease`, or an exception.
abbrev proceed :
    Round × Scheduler
    → (Scheduler → Result SchedulerError (Option ResourceLease) × Scheduler)
    → Result SchedulerError (Option ResourceLease) × Scheduler
proceed (skip, s) next = next s
proceed (leased lease, s) next = (ok (some lease), s)
proceed (fault e, s) next = (err e, s)

-- `for _ in range(n)`
pub dispatch_loop :
    String → ℕ → Scheduler → Result SchedulerError (Option ResourceLease) × Scheduler
dispatch_loop id zero s = (ok none, s)
dispatch_loop id (suc n) s = proceed (round id s.rotation s) (dispatch_loop id n)

pub dispatch_next : String → Scheduler → Result SchedulerError (Option ResourceLease) × Scheduler
dispatch_next id s =
    if leb s.total_concurrent_tasks (active_count s) || is_empty s.rotation
    then (ok none, s)
    else dispatch_loop id (length s.rotation) s

-- The first assistant that holds the lease loses it.
pub complete_in : String → Dict (Dict ResourceLease) → Option (Dict (Dict ResourceLease))
complete_in id [] = none
complete_in id ((assistant, leases) ∷ rest) =
    if contains id leases
    then some ((assistant, erase id leases) ∷ rest)
    else Option.map (λ d. (assistant, leases) ∷ d) (complete_in id rest)

pub complete : String → Scheduler → Bool × Scheduler
complete id s = elim (complete_in id s.active) [
  | none ↦ (false, s)
  | some d ↦ (true, record s { active = d })
]

-- `for lease in reversed(...): self._queues[assistant].appendleft(lease.task_id)`
pub requeue : String → List ResourceLease → Dict (List String) → Option (Dict (List String))
requeue assistant [] queues = some queues
requeue assistant (lease ∷ leases) queues = elim (lookup assistant queues) [
  | none ↦ none
  | some q ↦ requeue assistant leases (insert assistant (lease.task_id ∷ q) queues)
]

-- The loop over `self._active.items()`, which clears each entry that it has passed.
pub restart_entries :
    Dict (Dict ResourceLease)
    → Dict (List String)
    → Result SchedulerError (Unit {0}) × Dict (List String) × Dict (Dict ResourceLease)
restart_entries [] queues = (ok tt, queues, [])
restart_entries ((assistant, leases) ∷ rest) queues =
    elim (requeue assistant (reverse (values leases)) queues) [
      | none ↦ (err key_error, queues, (assistant, leases) ∷ rest)
      | some queues' ↦
          let (r, queues'', rest') = restart_entries rest queues' in
          (r, queues'', (assistant, []) ∷ rest')
    ]

pub restart : Scheduler → Result SchedulerError (Unit {0}) × Scheduler
restart s =
    let (r, queues, active) = restart_entries s.active s.queues in
    (r, record s { queues = queues; active = active })
