-- ===== src/Household/Tests.antt =====
-- Runs of the scheduler, and the theorems at concrete states.
use unison_orchestrator.Prelude.{String, List, [], ◌∷◌, ◌≡◌, ◌↔◌, refl, arith, ok, err}
use unison_orchestrator.Prelude.Dict.{lookup, insert}
use mathlib.Core.List.Perm
use unison_orchestrator.Household.{
  AssistantResourceQuota, ResourceLease, Scheduler, init, submit, dispatch_next, dispatch_loop,
  round, restart, restart_entries, visit, requeue, active_count, quota_exceeded,
}
use unison_orchestrator.Household.Invariant.{IsValid}
use unison_orchestrator.Household.Fairness.{Fair, dispatch_next-Fair}
use unison_orchestrator.Household.Restart.{recovered, restart_lem}
use unison_orchestrator.Household.Reach.{
  IsSound, Call, register_call, submit_call, dispatch_call, restart_call, calls, reachable-IsSound,
}
use unison_orchestrator.Household.Submission.{Accepts, accepted, submit-eq-ok_iff}

abbrev quota : String → AssistantResourceQuota
quota a = record {
  assistant_instance_id = a;
  max_concurrent_tasks = 2;
  max_queued_tasks = 2;
  cpu_units = 1;
  memory_mb = 64;
}

abbrev lease : ResourceLease
lease = record {
  lease_id = "l1";
  assistant_instance_id = "ann";
  task_id = "t1";
  cpu_units = 1;
  memory_mb = 64;
}

abbrev appliance : Scheduler
appliance = record {
  total_concurrent_tasks = 2;
  quotas = ("ann", quota "ann") ∷ ("bob", quota "bob") ∷ [];
  queues = ("ann", []) ∷ ("bob", "b1" ∷ []) ∷ [];
  active = ("ann", ("l1", lease) ∷ []) ∷ ("bob", []) ∷ [];
  rotation = "ann" ∷ "bob" ∷ [];
}

served_bob : (dispatch_next "l2" appliance).1.queues ≡ ("ann", []) ∷ ("bob", []) ∷ []
unfolding dispatch_next dispatch_loop round visit active_count insert lookup
served_bob = refl

restarted : (restart appliance).1.queues ≡ ("ann", "t1" ∷ []) ∷ ("bob", "b1" ∷ []) ∷ []
unfolding restart restart_entries requeue insert lookup
restarted = refl

appliance-IsValid : IsValid appliance
unfolding lookup active_count
appliance-IsValid = record {
  registered = ((refl, refl, refl), ((refl, refl, refl), tt));
  listed = Perm.refl _;
  bounded = omega arith;
}

dispatch_next-Fair_example : Fair "l2" appliance (dispatch_next "l2" appliance)
dispatch_next-Fair_example = dispatch_next-Fair "l2" appliance appliance-IsValid

restart_lem_example :
    ((restart appliance).0 ≡ ok tt)
    × (active_count (restart appliance).1 ≡ 0)
    × ((a : String)
        → lookup a (restart appliance).1.queues
          ≡ recovered (lookup a appliance.active) (lookup a appliance.queues))
unfolding lookup
restart_lem_example = restart_lem appliance (refl, (refl, tt)) (refl, (refl, tt))

abbrev session : List Call
session =
    register_call (quota "ann") ∷ submit_call "ann" "t1" ∷ dispatch_call "l1" ∷ restart_call ∷ []

reachable-IsSound_example : IsSound (
    calls session
      (record { total_concurrent_tasks = 2; quotas = []; queues = []; active = []; rotation = [] }))
unfolding init
reachable-IsSound_example = reachable-IsSound 2 session refl

appliance-Accepts : Accepts appliance "ann" "t1"
unfolding lookup
appliance-Accepts = record {
  quota = quota "ann";
  queue = [];
  leases = ("l1", lease) ∷ [];
  quota_eq = refl;
  queue_eq = refl;
  active_eq = refl;
  room = refl;
  not_queued = refl;
  no_lease = refl;
}

submit-eq-ok_iff_example :
    (submit "ann" "t2" appliance ≡ ok appliance)
    ↔ ((r : Accepts appliance "ann" "t2") × (appliance ≡ accepted r))
submit-eq-ok_iff_example = submit-eq-ok_iff appliance "ann" "t2" appliance

full_queue :
    submit "bob" "b3" (record appliance { queues = ("ann", []) ∷ ("bob", "b1" ∷ "b2" ∷ []) ∷ [] })
    ≡ err (quota_exceeded "assistant queue quota exhausted")
unfolding submit lookup
full_queue = refl
