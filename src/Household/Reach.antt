-- ===== src/Household/Reach.antt =====
-- Every state that a sequence of calls can reach satisfies the scheduler's invariant.
use mathlib.Core.List.{Perm, perm_append_comm}
use mathlib.Core.List.Perm
use mathlib.Core.Path.{subst}
use unison_orchestrator.Prelude.{
  ℕ, String, true, false, Option, none, some, List, [], ◌∷◌, ◌++◌, ◌≡◌, refl, sym, ◌∙◌, arith,
  Option-cases, Bool-cases, inl, inr, is_some, length, Result, ok, err, eq_iff, append_assoc,
  append-nil, eq_refl, All, All-append, All-split, ◌<◌,
}
use unison_orchestrator.Prelude.Dict.{
  Dict, lookup, insert, erase, contains, lookup-insert, lookup-insert_self, sum_of-insert,
  length-insert, keys,
}
use unison_orchestrator.Household.{
  AssistantResourceQuota, ResourceLease, SchedulerError, Scheduler, active_count, init, register,
  submit, dispatch_next, complete, complete_in, restart, new_lease,
}
use unison_orchestrator.Household.Dispatch.{IsRegistered, Ready, granted}
use unison_orchestrator.Household.Invariant.{
  IsValid, All-Keeps, is_some-insert, fresh, init-IsValid, register-IsValid, submitted,
  submit-IsValid, complete-IsValid,
}
use unison_orchestrator.Household.Fairness.{Fair, dispatch_next-Fair}
use unison_orchestrator.Household.Restart.{
  Distinct, Queued, recovered, restart_lem, restart-kept, restart-Distinct,
}

-- The invariant with the pairing of the dictionaries: each assistant has one entry among the
-- active leases, and a queue.
pub record IsSound (s : Scheduler) : Type 0 where
  pub valid : IsValid s
  pub distinct : Distinct s.active
  pub queued : Queued s.active s.queues

Distinct-insert {ℓ} :
    {V : Type ℓ} (k : String) (v : V) (d : Dict V) → Distinct d → Distinct (insert k v d)
unfolding insert lookup
Distinct-insert k v [] h = (refl, tt)
Distinct-insert k v ((j, w) ∷ d) h =
    ground (arith, Distinct-insert k v d h.1, lookup-insert k j v d, eq_iff j k, eq_iff k j)

Queued-grow :
    (d : Dict (Dict ResourceLease)) (k : String) (q : List String) (qs : Dict (List String))
    → Queued d qs
    → Queued d (insert k q qs)
Queued-grow [] k q qs h = tt
Queued-grow ((j, w) ∷ d) k q qs h = (is_some-insert k j q qs h.0, Queued-grow d k q qs h.1)

Queued-insert :
    (k : String) (v : Dict ResourceLease) (d : Dict (Dict ResourceLease)) (qs : Dict (List String))
    → is_some (lookup k qs) ≡ true
    → Queued d qs
    → Queued (insert k v d) qs
unfolding insert
Queued-insert k v [] qs e h = (e, tt)
Queued-insert k v ((j, w) ∷ d) qs e h = ground (arith, Queued-insert k v d qs e h.1)

init-IsSound : (n : ℕ) {s : Scheduler} → init n ≡ ok s → IsSound s
init-IsSound n h = record {
  valid = init-IsValid n h;
  distinct = rw (fresh n h) tt;
  queued = rw (fresh n h) tt;
}

register-IsSound : (q : AssistantResourceQuota) (s : Scheduler) → IsSound s → IsSound (register q s)
unfolding register
register-IsSound q s v =
    let k = q.assistant_instance_id in
    record {
      valid = unfold register in register-IsValid q s v.valid;
      distinct = ground (arith, Distinct-insert k [] s.active v.distinct, v.distinct);
      queued = ground (
        arith,
        v.queued,
        Queued-insert k [] s.active (insert k [] s.queues) (rw lookup-insert_self)
            (Queued-grow s.active k [] s.queues v.queued),
      );
    }

submit-IsSound :
    (a t : String) (s : Scheduler) {s' : Scheduler} → IsSound s → submit a t s ≡ ok s' → IsSound s'
submit-IsSound a t s v h =
    let (q, e) = submitted a t s h in
    record {
      valid = submit-IsValid a t s v.valid h;
      distinct = rw e v.distinct;
      queued = rw e (Queued-grow s.active a q s.queues v.queued);
    }

complete_in-paired :
    (id : String) (d : Dict (Dict ResourceLease)) (qs : Dict (List String))
    {d' : Dict (Dict ResourceLease)}
    → complete_in id d ≡ some d'
    → Distinct d
    → Queued d qs
    → Distinct d' × Queued d' qs × ((a : String) → lookup a d ≡ none → lookup a d' ≡ none)
unfolding complete_in lookup
complete_in-paired id [] qs h n k = ground arith
complete_in-paired id ((a, l) ∷ d) qs {d'} h n k = elim (Option-cases (complete_in id d)) [
  | inl e ↦ elim (Bool-cases (contains id l)) [
    | inl c ↦ rw (taken c) (n, k, λ b g. ground (arith, g))
    | inr c ↦ absurd (ground arith)
  ]
  | inr (rest, e) ↦ elim (Bool-cases (contains id l)) [
    | inl c ↦ rw (taken c) (n, k, λ b g. ground (arith, g))
    | inr c ↦
        let (n', k', gone) = complete_in-paired id d qs e n.1 k.1 in
        rw (passed c rest e) ((gone a n.0, n'), (k.0, k'), λ b g. ground (arith, g, gone b))
  ]
]
  where
    taken : contains id l ≡ true → d' ≡ (a, erase id l) ∷ d
    taken c = ground arith

    passed :
        contains id l ≡ false
        → (rest : Dict (Dict ResourceLease)) → complete_in id d ≡ some rest
        → d' ≡ (a, l) ∷ rest
    passed c rest e = ground arith

complete-IsSound : (id : String) (s : Scheduler) → IsSound s → IsSound (complete id s).1
complete-IsSound id s v = elim (Option-cases (complete_in id s.active)) [
  | inl e ↦ rw (unchanged e) v
  | inr (d, e) ↦
      let (n, k, _) = complete_in-paired id s.active s.queues e v.distinct v.queued in
      record {
        valid = complete-IsValid id s v.valid;
        distinct = rw (changed d e) n;
        queued = rw (changed d e) k;
      }
]
  where
    unchanged : complete_in id s.active ≡ none → (complete id s).1 ≡ s
    unchanged e = unfold complete in ground arith

    changed :
        (d : Dict (Dict ResourceLease))
        → complete_in id s.active ≡ some d
        → (complete id s).1 ≡ record s { active = d }
    changed d e = unfold complete in ground arith

All-turn :
    (P : String → Type 0) (pre post : List String) (a : String)
    → All P (pre ++ a ∷ post)
    → All P ((post ++ pre) ++ a ∷ [])
All-turn P [] post a h = All-append P (post ++ []) (a ∷ []) (rw append-nil h.1) (h.0, tt)
All-turn P (p ∷ pre) post a h =
    let (front, last) = All-split P (post ++ pre) (a ∷ []) (All-turn P pre post a h.1) in
    let (l, r) = All-split P post pre front in
    All-append P (post ++ p ∷ pre) (a ∷ []) (All-append P post (p ∷ pre) l (h.0, r)) last

Perm-turn : (pre post : List String) (a : String) → Perm ((post ++ pre) ++ a ∷ []) (pre ++ a ∷ post)
Perm-turn pre post a = rw append_assoc (
    subst (λ l. Perm (post ++ (pre ++ a ∷ [])) l) (append_assoc pre (a ∷ []) post)
      (perm_append_comm post (pre ++ a ∷ [])))

-- The state in which `a` has been served.
granted-IsValid :
    (id : String) (s : Scheduler) (pre : List String) (a : String) (post : List String)
    → active_count s < s.total_concurrent_tasks
    → s.rotation ≡ pre ++ a ∷ post
    → (r : Ready s a) → IsValid s
    → IsValid (record (granted id a s r) { rotation = (post ++ pre) ++ a ∷ [] })
unfolding active_count
granted-IsValid id s pre a post lt e r v = record {
  registered =
      All-turn _ pre post a
        (subst (All _) e (All-Keeps s (granted id a s r) s.rotation keep v.registered));
  listed = Perm.trans (Perm-turn pre post a) (subst (λ l. Perm l (keys s.quotas)) e v.listed);
  bounded = omega (
    arith,
    sum_of-insert length a (insert id (new_lease id a r.task r.quota) r.leases) r.leases s.active
        r.active_eq,
    length-insert id (new_lease id a r.task r.quota) r.leases,
  );
}
  where
    keep : (b : String) → IsRegistered s b → IsRegistered (granted id a s r) b
    keep b (x, y, z) = (x, is_some-insert a b _ s.queues y, is_some-insert a b _ s.active z)

Fair-IsSound :
    (id : String) (s : Scheduler) {r : Result SchedulerError (Option ResourceLease) × Scheduler}
    → IsSound s
    → Fair id s r
    → IsSound r.1
Fair-IsSound id s v (Fair.full h) = v
Fair-IsSound id s v (Fair.idle h) = v
Fair-IsSound id s v (Fair.served pre a post lt e h r) = record {
  valid = granted-IsValid id s pre a post lt e r v.valid;
  distinct = Distinct-insert a _ s.active v.distinct;
  queued =
      Queued-insert a _ s.active (insert a r.rest s.queues) (rw lookup-insert_self)
        (Queued-grow s.active a r.rest s.queues v.queued);
}

-- `Queued`, read by key.
Queued-at :
    (d : Dict (Dict ResourceLease)) (qs : Dict (List String)) (a : String)
    → Queued d qs
    → is_some (lookup a d) ≡ true
    → is_some (lookup a qs) ≡ true
unfolding lookup
Queued-at [] qs a h e = ground arith
Queued-at ((k, v) ∷ d) qs a h e = ground (arith, eq_iff k a, Queued-at d qs a h.1)

Queued-of :
    (d : Dict (Dict ResourceLease)) (qs : Dict (List String))
    → ((a : String) → is_some (lookup a d) ≡ true → is_some (lookup a qs) ≡ true)
    → Queued d qs
unfolding lookup
Queued-of [] qs h = tt
Queued-of ((k, v) ∷ d) qs h = (h k (rw eq_refl), Queued-of d qs (λ a e. h a (ground (arith, e))))

recovered-is_some :
    (l : Option (Dict ResourceLease)) (q : Option (List String))
    → is_some q ≡ true
    → is_some (recovered l q) ≡ true
recovered-is_some (some l) (some q) h = refl
recovered-is_some (some l) none h = h
recovered-is_some none q h = h

restart-Keeps :
    (s : Scheduler) → IsSound s → (a : String) → IsRegistered s a → IsRegistered (restart s).1 a
restart-Keeps s v a (x, y, z) =
    let (run, empty, queued) = restart_lem s v.distinct v.queued in
    (
      unfold restart in x,
      rw (queued a) (recovered-is_some (lookup a s.active) (lookup a s.queues) y),
      rw (restart-kept s v.distinct v.queued a) z,
    )

restart-Queued : (s : Scheduler) → IsSound s → Queued (restart s).1.active (restart s).1.queues
restart-Queued s v = Queued-of _ _ (λ a e.
    let (run, empty, queued) = restart_lem s v.distinct v.queued in
    rw (queued a) (
      recovered-is_some (lookup a s.active) (lookup a s.queues)
        (Queued-at s.active s.queues a v.queued (sym (restart-kept s v.distinct v.queued a) ∙ e))))

restart-IsSound : (s : Scheduler) → IsSound s → IsSound (restart s).1
unfolding restart
restart-IsSound s v =
    let (run, empty, queued) = restart_lem s v.distinct v.queued in
    record {
      valid = record {
        registered = All-Keeps s (restart s).1 s.rotation (restart-Keeps s v) v.valid.registered;
        listed = v.valid.listed;
        bounded = omega (arith, empty);
      };
      distinct = restart-Distinct s v.distinct v.queued;
      queued = restart-Queued s v;
    }

-- A call of a method of the scheduler.
pub data Call : Type 0 where
  register_call : AssistantResourceQuota → Call
  submit_call : String → String → Call
  dispatch_call complete_call : String → Call
  restart_call : Call

abbrev kept : Scheduler → Result SchedulerError Scheduler → Scheduler
kept s (ok s') = s'
kept s (err e) = s

pub call : Call → Scheduler → Scheduler
call (register_call q) s = register q s
call (submit_call a t) s = kept s (submit a t s)
call (dispatch_call id) s = (dispatch_next id s).1
call (complete_call id) s = (complete id s).1
call restart_call s = (restart s).1

pub calls : List Call → Scheduler → Scheduler
calls [] s = s
calls (c ∷ cs) s = calls cs (call c s)

kept-IsSound :
    (a t : String) (s : Scheduler) (r : Result SchedulerError Scheduler)
    → submit a t s ≡ r
    → IsSound s
    → IsSound (kept s r)
kept-IsSound a t s (ok s') e v = submit-IsSound a t s v e
kept-IsSound a t s (err x) e v = v

call-IsSound : (c : Call) (s : Scheduler) → IsSound s → IsSound (call c s)
unfolding call
call-IsSound (register_call q) s v = register-IsSound q s v
call-IsSound (submit_call a t) s v = kept-IsSound a t s (submit a t s) refl v
call-IsSound (dispatch_call id) s v = Fair-IsSound id s v (dispatch_next-Fair id s v.valid)
call-IsSound (complete_call id) s v = complete-IsSound id s v
call-IsSound restart_call s v = restart-IsSound s v

calls-IsSound : (cs : List Call) (s : Scheduler) → IsSound s → IsSound (calls cs s)
unfolding calls
calls-IsSound [] s v = v
calls-IsSound (c ∷ cs) s v = calls-IsSound cs (call c s) (call-IsSound c s v)

-- Whatever calls are made on a new scheduler, in whatever order, the state satisfies the
-- invariant: never more leases than `total_concurrent_tasks`, the rotation lists each assistant
-- with a quota once, and each of them has its queue and its leases.
pub reachable-IsSound :
    (n : ℕ) {s : Scheduler} (cs : List Call) → init n ≡ ok s → IsSound (calls cs s)
reachable-IsSound n cs h = calls-IsSound cs _ (init-IsSound n h)
