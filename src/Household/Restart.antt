-- ===== src/Household/Restart.antt =====
-- `restart`: the interrupted tasks go to the front of their queues, in the order of their leases.
use mathlib.Core.List.{reverse, reverse-cons, reverse-reverse, map-append}
use unison_orchestrator.Prelude.{
  String, true, Option, none, some, List, [], ◌∷◌, ◌++◌, ◌≡◌, refl, ◌∙◌, map, arith, Option-cases,
  inl, inr, is_some, length, ok, eq_iff, ◌==◌, if◌then◌else◌, append_assoc,
}
use unison_orchestrator.Prelude.Dict.{
  Dict, lookup, insert, values, lookup-insert, lookup-insert_self, sum_of,
}
use unison_orchestrator.Household.{
  ResourceLease, Scheduler, active_count, restart, restart_entries, requeue,
}

abbrev pub task_ids : Dict ResourceLease → List String
task_ids leases = map (λ (l : ResourceLease). l.task_id) (values leases)

-- `appendleft` of each task in turn.
abbrev front : List ResourceLease → List String → List String
front [] q = q
front (l ∷ ls) q = front ls (l.task_id ∷ q)

front-reverse :
    (ls : List ResourceLease) (q : List String)
    → front ls q ≡ map (λ (l : ResourceLease). l.task_id) (reverse ls) ++ q
front-reverse [] q = refl
front-reverse (l ∷ ls) q =
    front-reverse ls (l.task_id ∷ q) ∙ simp (reverse-cons, map-append, append_assoc)

-- The queues after these updates.
puts : String → List ResourceLease → List String → Dict (List String) → Dict (List String)
puts a [] q qs = qs
puts a (l ∷ ls) q qs = puts a ls (l.task_id ∷ q) (insert a (l.task_id ∷ q) qs)

requeue-puts :
    (a : String) (ls : List ResourceLease) (q : List String) (qs : Dict (List String))
    → lookup a qs ≡ some q
    → requeue a ls qs ≡ some (puts a ls q qs)
unfolding requeue puts
requeue-puts a [] q qs e = refl
requeue-puts a (l ∷ ls) q qs e =
    rw (e, requeue)
      (requeue-puts a ls (l.task_id ∷ q) (insert a (l.task_id ∷ q) qs) (lookup-insert_self a _ qs))

lookup-puts :
    (a b : String) (ls : List ResourceLease) (q : List String) (qs : Dict (List String))
    → lookup a qs ≡ some q
    → lookup b (puts a ls q qs) ≡ (if a == b then some (front ls q) else lookup b qs)
unfolding puts
lookup-puts a b [] q qs e = ground (arith, eq_iff a b)
lookup-puts a b (l ∷ ls) q qs e = ground (
  arith,
  lookup-puts a b ls (l.task_id ∷ q) (insert a (l.task_id ∷ q) qs) (lookup-insert_self a _ qs),
  lookup-insert a b (l.task_id ∷ q) qs,
)

-- Each assistant has one entry among the active leases, and a queue.
abbrev pub Distinct {ℓ} : {V : Type ℓ} → Dict V → Type ℓ
Distinct [] = Unit
Distinct ((k, v) ∷ d) = (lookup k d ≡ none) × Distinct d

abbrev pub Queued : Dict (Dict ResourceLease) → Dict (List String) → Type 0
Queued [] qs = Unit
Queued ((k, v) ∷ d) qs = (is_some (lookup k qs) ≡ true) × Queued d qs

-- A queue after a restart: the assistant's interrupted tasks stand before it.
abbrev pub recovered : Option (Dict ResourceLease) → Option (List String) → Option (List String)
recovered (some leases) (some q) = some (task_ids leases ++ q)
recovered (some leases) none = none
recovered none q = q

Queued-puts :
    (d : Dict (Dict ResourceLease)) (a : String) (ls : List ResourceLease) (q : List String)
    (qs : Dict (List String))
    → lookup a qs ≡ some q
    → Queued d qs
    → Queued d (puts a ls q qs)
Queued-puts [] a ls q qs e h = tt
Queued-puts ((b, v) ∷ d) a ls q qs e h =
    (ground (arith, lookup-puts a b ls q qs e), Queued-puts d a ls q qs e h.1)

front-values :
    (l : Dict ResourceLease) (q : List String) → front (reverse (values l)) q ≡ task_ids l ++ q
front-values l q = front-reverse (reverse (values l)) q ∙ rw reverse-reverse

restart_entries_lem :
    (d : Dict (Dict ResourceLease)) (qs : Dict (List String))
    → Distinct d
    → Queued d qs
    → let (r, qs', d') = restart_entries d qs in
      (r ≡ ok tt)
      × (sum_of length d' ≡ 0)
      × ((a : String) → is_some (lookup a d') ≡ is_some (lookup a d))
      × ((a : String) → lookup a qs' ≡ recovered (lookup a d) (lookup a qs))
unfolding restart_entries lookup
restart_entries_lem [] qs h k = (refl, refl, λ a. refl, λ a. refl)
restart_entries_lem ((a, l) ∷ d) qs (new, h) (has, k) = elim (Option-cases (lookup a qs)) [
  | inl e ↦ absurd (ground arith)
  | inr (q, e) ↦
      rw (requeue-puts a (reverse (values l)) q qs e, restart_entries)
        (let qs1 = puts a (reverse (values l)) q qs in
          let (run, empty, kept, queued) =
            restart_entries_lem d qs1 h (Queued-puts d a (reverse (values l)) q qs e k) in
          (
            run,
            omega (arith, empty),
            λ b. ground (arith, kept b),
            λ b. ground (
              arith,
              queued b,
              eq_iff a b,
              lookup-puts a b (reverse (values l)) q qs e,
              front-values l q,
              new,
              e,
            ),
          ))
]

-- After a restart in a state where each assistant has one entry and a queue, nothing is raised,
-- no lease is out, and each queue is the tasks of the assistant's leases, in their order,
-- before what was queued.
pub restart_lem :
    (s : Scheduler)
    → Distinct s.active
    → Queued s.active s.queues
    → let (r, s') = restart s in
      (r ≡ ok tt)
      × (active_count s' ≡ 0)
      × ((a : String) → lookup a s'.queues ≡ recovered (lookup a s.active) (lookup a s.queues))
unfolding restart active_count
restart_lem s h k =
    let (run, empty, _, queued) = restart_entries_lem s.active s.queues h k in (run, empty, queued)

pub restart-kept :
    (s : Scheduler)
    → Distinct s.active
    → Queued s.active s.queues
    → (a : String) → is_some (lookup a (restart s).1.active) ≡ is_some (lookup a s.active)
unfolding restart
restart-kept s h k a = (restart_entries_lem s.active s.queues h k).2 a

-- The entries of the active leases stay the same, emptied.
restart_entries-Distinct :
    (d : Dict (Dict ResourceLease)) (qs : Dict (List String))
    → Distinct d
    → Queued d qs
    → Distinct (restart_entries d qs).2
unfolding restart_entries
restart_entries-Distinct [] qs h k = tt
restart_entries-Distinct ((a, l) ∷ d) qs (new, h) (has, k) = elim (Option-cases (lookup a qs)) [
  | inl e ↦ absurd (ground arith)
  | inr (q, e) ↦
      rw (requeue-puts a (reverse (values l)) q qs e, restart_entries)
        (let qs1 = puts a (reverse (values l)) q qs in
          let k1 = Queued-puts d a (reverse (values l)) q qs e k in
          (
            ground (arith, (restart_entries_lem d qs1 h k1).2 a),
            restart_entries-Distinct d qs1 h k1,
          ))
]

pub restart-Distinct :
    (s : Scheduler) → Distinct s.active → Queued s.active s.queues → Distinct (restart s).1.active
unfolding restart
restart-Distinct s h k = restart_entries-Distinct s.active s.queues h k
