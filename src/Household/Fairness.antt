-- ===== src/Household/Fairness.antt =====
-- Whom `dispatch_next` serves: the first assistant of the rotation that may run, after which the
-- rotation goes on behind it.
use unison_orchestrator.Prelude.{
  ℕ, suc, ◌≤◌, ◌<◌, String, true, false, Option, none, some, List, [], ◌∷◌, ◌++◌, ◌≡◌, refl, inl,
  inr, length, leb, is_empty, All, arith, Bool-cases, append_assoc, append-nil, Result, ok, ap, ◌∙◌,
  sym,
}
use unison_orchestrator.Household.{
  ResourceLease, Scheduler, SchedulerError, dispatch_loop, dispatch_next, active_count, round,
  new_lease,
}
use unison_orchestrator.Household.Dispatch.{
  IsRegistered, may_run, Ready, granted, Ready_of_may_run, visit-skip, visit-leased,
}
use unison_orchestrator.Household.Invariant.{IsValid}

abbrev pub Waits : Scheduler → String → Type 0
Waits s a = IsRegistered s a × (may_run s a ≡ false)

abbrev at : Scheduler → List String → Scheduler
at s r = record s { rotation = r }

-- The number of rounds that pass over a list, and `n` more.
abbrev rounds : List String → ℕ → ℕ
rounds [] n = n
rounds (a ∷ rest) n = suc (rounds rest n)

rounds-length : (xs ys : List String) → rounds xs (length ys) ≡ length (xs ++ ys)
rounds-length [] ys = refl
rounds-length (x ∷ xs) ys = ap suc (rounds-length xs ys)

-- Assistants that may not run go to the end of the rotation, in their order.
dispatch_loop-skip :
    (id : String) (s : Scheduler) (pre post : List String) (n : ℕ)
    → All (Waits s) pre
    → dispatch_loop id (rounds pre n) (at s (pre ++ post)) ≡ dispatch_loop id n (at s (post ++ pre))
unfolding dispatch_loop round
dispatch_loop-skip id s [] post n h = rw append-nil
dispatch_loop-skip id s (p ∷ pre) post n h =
    rw (visit-skip id p (at s ((pre ++ post) ++ p ∷ [])) h.0.0 h.0.1) (
      rw append_assoc (
        dispatch_loop-skip id s pre (post ++ p ∷ []) n h.1
        ∙ ap (λ r. dispatch_loop id n (at s r)) (append_assoc post (p ∷ []) pre)))

-- How a call of `dispatch_next` ends, and why.
pub data Fair (id : String) (s : Scheduler)
    : Result SchedulerError (Option ResourceLease) × Scheduler → Type 0 where
  -- The appliance is full.
  full : s.total_concurrent_tasks ≤ active_count s → Fair id s (ok none, s)
  -- Nobody may run.
  idle : All (λ a. may_run s a ≡ false) s.rotation → Fair id s (ok none, s)
  -- `a` may run, and nobody before it may.
  served :
      (pre : List String) (a : String) (post : List String)
      → active_count s < s.total_concurrent_tasks
      → s.rotation ≡ pre ++ a ∷ post
      → All (λ b. may_run s b ≡ false) pre
      → (r : Ready s a)
      → Fair id s (
        ok (some (new_lease id a r.task r.quota)),
        record (granted id a s r) { rotation = (post ++ pre) ++ a ∷ [] },
      )

-- A list of registered assistants has a first one that may run, or nobody may.
data Search (s : Scheduler) (rot : List String) : Type 0 where
  nobody : All (Waits s) rot → Search s rot
  first :
      (pre : List String) (a : String) (post : List String)
      → rot ≡ pre ++ a ∷ post
      → All (Waits s) pre
      → Ready s a
      → Search s rot

Search-cons :
    (s : Scheduler) (a : String) (rot : List String) → Waits s a → Search s rot → Search s (a ∷ rot)
Search-cons s a rot w (nobody h) = nobody (w, h)
Search-cons s a rot w (first pre b post e h r) = first (a ∷ pre) b post (ap (λ t. a ∷ t) e) (w, h) r

Search-rotation : (s : Scheduler) (rot : List String) → All (IsRegistered s) rot → Search s rot
Search-rotation s [] h = nobody tt
Search-rotation s (a ∷ rot) (g, h) = elim (Bool-cases (may_run s a)) [
  | inl e ↦ first [] a rot refl tt (Ready_of_may_run s a e)
  | inr e ↦ Search-cons s a rot (g, e) (Search-rotation s rot h)
]

Waits-may_run :
    (s : Scheduler) (l : List String) → All (Waits s) l → All (λ a. may_run s a ≡ false) l
Waits-may_run s [] h = tt
Waits-may_run s (a ∷ l) h = (h.0.1, Waits-may_run s l h.1)

-- The loop over a whole rotation, whatever the list is called.
dispatch_loop-idle :
    (id : String) (s : Scheduler) (rot : List String)
    → All (Waits s) rot
    → dispatch_loop id (length rot) (at s rot) ≡ (ok none, at s rot)
unfolding dispatch_loop
dispatch_loop-idle id s rot h =
    ap (λ n. dispatch_loop id n (at s rot)) (count rot)
    ∙ (ap (λ r. dispatch_loop id (rounds rot 0) (at s r)) (sym (append-nil rot))
        ∙ dispatch_loop-skip id s rot [] 0 h)
  where
    count : (l : List String) → length l ≡ rounds l 0
    count [] = refl
    count (x ∷ l) = ap suc (count l)

-- Being ready does not depend on the rotation.
abbrev Ready_at : {s : Scheduler} {a : String} (rot : List String) → Ready s a → Ready (at s rot) a
Ready_at rot r = record {
  quota = r.quota;
  task = r.task;
  rest = r.rest;
  leases = r.leases;
  quota_eq = r.quota_eq;
  queue_eq = r.queue_eq;
  active_eq = r.active_eq;
  room = r.room;
}

dispatch_loop-served :
    (id : String) (s : Scheduler) (pre : List String) (a : String) (post : List String)
    → All (Waits s) pre
    → (r : Ready s a)
    → dispatch_loop id (length (pre ++ a ∷ post)) (at s (pre ++ a ∷ post)) ≡ (
      ok (some (new_lease id a r.task r.quota)),
      record (granted id a s r) { rotation = (post ++ pre) ++ a ∷ [] },
    )
unfolding dispatch_loop round
dispatch_loop-served id s pre a post h r =
    ap (λ n. dispatch_loop id n (at s (pre ++ a ∷ post))) (sym (rounds-length pre (a ∷ post)))
    ∙ (dispatch_loop-skip id s pre (a ∷ post) (length (a ∷ post)) h
        ∙ rw (
            visit-leased id a (at s ((post ++ pre) ++ a ∷ []))
              (Ready_at ((post ++ pre) ++ a ∷ []) r)))

dispatch-Search :
    (id : String) (s : Scheduler)
    → active_count s < s.total_concurrent_tasks
    → Search s s.rotation
    → Fair id s (dispatch_loop id (length s.rotation) s)
dispatch-Search id s lt (nobody h) =
    rw (dispatch_loop-idle id s s.rotation h) (Fair.idle (Waits-may_run s s.rotation h))
dispatch-Search id s lt (first pre a post e h r) =
    rw (dispatch_loop_at) (Fair.served pre a post lt e (Waits-may_run s pre h) r)
  where
    dispatch_loop_at : dispatch_loop id (length s.rotation) s ≡ (
      ok (some (new_lease id a r.task r.quota)),
      record (granted id a s r) { rotation = (post ++ pre) ++ a ∷ [] },
    )
    dispatch_loop_at =
        ap (λ l. dispatch_loop id (length l) (at s l)) e ∙ dispatch_loop-served id s pre a post h r

none_in : (P : String → Type 0) (l : List String) → is_empty l ≡ true → All P l
none_in P [] o = tt
none_in P (a ∷ l) o = cc

-- In a valid state `dispatch_next` raises nothing; it leaves the scheduler as it was if the
-- appliance is full or nobody may run, and otherwise serves the first assistant of the rotation
-- that may run: its first task becomes a lease, and the rotation goes on behind it.
pub dispatch_next-Fair : (id : String) (s : Scheduler) → IsValid s → Fair id s (dispatch_next id s)
unfolding dispatch_next
dispatch_next-Fair id s v = elim (Bool-cases (leb s.total_concurrent_tasks (active_count s))) [
  | inl e ↦ rw e (Fair.full (ground arith))
  | inr e ↦ rw e (elim (Bool-cases (is_empty s.rotation)) [
    | inl o ↦ rw o (Fair.idle (none_in _ s.rotation o))
    | inr o ↦ rw o (dispatch-Search id s (ground arith) (Search-rotation s s.rotation v.registered))
  ])
]
