-- ===== src/Household/Invariant.antt =====
-- The scheduler's invariant, and that every method keeps it.
use mathlib.Core.List.{Perm}
use mathlib.Core.List.Perm
use unison_orchestrator.Prelude.{
  ℕ, ◌+◌, String, true, none, some, List, [], ◌∷◌, ◌++◌, ◌≤◌, ◌≡◌, refl, ap, All, All-append, arith,
  Option-cases, ◌⊎◌, inl, inr, is_some, length, ok, eq_iff,
}
use unison_orchestrator.Prelude.Dict.{
  Dict, lookup, keys, insert, lookup-insert, sum_of, sum_of-insert, sum_of-insert_new, keys-insert,
  insert_new, length-erase,
}
use unison_orchestrator.Household.{
  AssistantResourceQuota, ResourceLease, Scheduler, active_count, init, register, submit, complete,
  complete_in,
}
use unison_orchestrator.Household.Dispatch.{IsRegistered}

-- Every assistant of the rotation has its entries, the rotation lists each assistant with a quota
-- once, and no more leases are out than the appliance allows.
pub record IsValid (s : Scheduler) : Type 0 where
  pub registered : All (IsRegistered s) s.rotation
  pub listed : Perm s.rotation (keys s.quotas)
  pub bounded : active_count s ≤ s.total_concurrent_tasks

-- An assistant that is registered in one state is registered in another that has its keys.
abbrev Keeps : Scheduler → Scheduler → Type 0
Keeps s t = (a : String) → IsRegistered s a → IsRegistered t a

pub All-Keeps :
    (s t : Scheduler) (l : List String)
    → Keeps s t
    → All (IsRegistered s) l
    → All (IsRegistered t) l
All-Keeps s t [] k h = tt
All-Keeps s t (a ∷ l) k h = (k a h.0, All-Keeps s t l k h.1)

-- An insertion loses no key.
module _ {ℓ} {V : Type ℓ} where
  pub is_some-insert :
      (k a : String) (v : V) (d : Dict V)
      → is_some (lookup a d) ≡ true
      → is_some (lookup a (insert k v d)) ≡ true
  is_some-insert k a v d h = ground (arith, lookup-insert k a v d)

  keys-insert_new :
      (k : String) (v : V) (d : Dict V) → lookup k d ≡ none → keys (insert k v d) ≡ keys d ++ k ∷ []
  keys-insert_new k v d h = rw (insert_new k v d h) (go d)
    where
      go : (e : Dict V) → keys (e ++ (k, v) ∷ []) ≡ keys e ++ k ∷ []
      go [] = refl
      go ((j, w) ∷ e) = ap (λ l. j ∷ l) (go e)

register-Keeps : (q : AssistantResourceQuota) (s : Scheduler) → Keeps s (register q s)
unfolding register
register-Keeps q s a h =
    let k = q.assistant_instance_id in
    ground (
      arith,
      is_some-insert k a q s.quotas h.0,
      is_some-insert k a [] s.queues h.1,
      is_some-insert k a [] s.active h.2,
    )

-- An insertion at a key adds at most what the new value counts.
sum_of-insert-le :
    {V : Type 0} (f : V → ℕ) (k : String) (v : V) (d : Dict V)
    → sum_of f (insert k v d) ≤ sum_of f d + f v
sum_of-insert-le f k v d = elim (Option-cases (lookup k d)) [
  | inl e ↦ omega (arith, sum_of-insert_new f k v d e)
  | inr (old, e) ↦ omega (arith, sum_of-insert f k v old d e)
]

pub fresh :
    (n : ℕ) {s : Scheduler}
    → init n ≡ ok s
    → s
      ≡ record { total_concurrent_tasks = n; quotas = []; queues = []; active = []; rotation = [] }
unfolding init
fresh n h = ground arith

pub init-IsValid : (n : ℕ) {s : Scheduler} → init n ≡ ok s → IsValid s
unfolding active_count
init-IsValid n h =
    rw (fresh n h) (record { registered = tt; listed = Perm.refl []; bounded = omega arith })

register-IsRegistered :
    (q : AssistantResourceQuota) (s : Scheduler)
    → All (IsRegistered s) s.rotation
    → All (IsRegistered (register q s)) (register q s).rotation
register-IsRegistered q s h = elim (Option-cases (lookup q.assistant_instance_id s.quotas)) [
  | inl e ↦ rw (same_new e) (
      All-append _ s.rotation _ (All-Keeps s (register q s) s.rotation (register-Keeps q s) h)
        (own e, tt))
  | inr (old, e) ↦ rw (same e) (All-Keeps s (register q s) s.rotation (register-Keeps q s) h)
]
  where
    same_new :
        lookup q.assistant_instance_id s.quotas ≡ none
        → (register q s).rotation ≡ s.rotation ++ q.assistant_instance_id ∷ []
    same_new e = unfold register in rw e

    same :
        {old : AssistantResourceQuota}
        → lookup q.assistant_instance_id s.quotas ≡ some old
        → (register q s).rotation ≡ s.rotation
    same e = unfold register in rw e

    own :
        lookup q.assistant_instance_id s.quotas ≡ none
        → IsRegistered (register q s) q.assistant_instance_id
    own e =
        let k = q.assistant_instance_id in
        unfold register in
        ground (
          arith,
          lookup-insert k k q s.quotas,
          lookup-insert k k [] s.queues,
          lookup-insert k k [] s.active,
          eq_iff k k,
        )

pub register-IsValid :
    (q : AssistantResourceQuota) (s : Scheduler) → IsValid s → IsValid (register q s)
unfolding register active_count
register-IsValid q s v = record {
  registered = unfold register in register-IsRegistered q s v.registered;
  listed = listed_by (Option-cases (lookup q.assistant_instance_id s.quotas));
  bounded = ground (arith, v.bounded, sum_of-insert-le length q.assistant_instance_id [] s.active);
}
  where
    listed_by :
        (lookup q.assistant_instance_id s.quotas ≡ none)
          ⊎ ((old : AssistantResourceQuota) × (lookup q.assistant_instance_id s.quotas ≡ some old))
        → Perm (register q s).rotation (keys (register q s).quotas)
    listed_by (inl e) = rw e (
        rw (keys-insert_new q.assistant_instance_id q s.quotas e)
          (Perm.append v.listed (Perm.refl _)))
    listed_by (inr (old, e)) =
        rw e (rw (keys-insert q.assistant_instance_id q old s.quotas e) v.listed)

pub submitted :
    (a t : String) (s : Scheduler) {s' : Scheduler}
    → submit a t s ≡ ok s'
    → (q : List String) × (s' ≡ record s { queues = insert a q s.queues })
unfolding submit
submitted a t s h = elim (Option-cases (lookup a s.queues)) [
  | inl e ↦ absurd (ground arith)
  | inr (q, e) ↦ (q ++ t ∷ [], ground arith)
]

pub submit-IsValid :
    (a t : String) (s : Scheduler) {s' : Scheduler} → IsValid s → submit a t s ≡ ok s' → IsValid s'
unfolding active_count
submit-IsValid a t s v h =
    let (q, e) = submitted a t s h in
    rw e (record {
      registered =
          All-Keeps s (record s { queues = insert a q s.queues }) s.rotation
            (λ b r. (r.0, is_some-insert a b q s.queues r.1, r.2)) v.registered;
      listed = v.listed;
      bounded = v.bounded;
    })

complete_in-sum :
    (id : String) (d : Dict (Dict ResourceLease)) {d' : Dict (Dict ResourceLease)}
    → complete_in id d ≡ some d'
    → sum_of length d' ≤ sum_of length d
unfolding complete_in
complete_in-sum id [] h = ground arith
complete_in-sum id ((a, l) ∷ d) h = elim (Option-cases (complete_in id d)) [
  | inl e ↦ ground (arith, length-erase id l)
  | inr (rest, e) ↦ ground (arith, length-erase id l, complete_in-sum id d e)
]

complete_in-keys :
    (id a : String) (d : Dict (Dict ResourceLease)) {d' : Dict (Dict ResourceLease)}
    → complete_in id d ≡ some d'
    → is_some (lookup a d) ≡ true
    → is_some (lookup a d') ≡ true
unfolding complete_in lookup
complete_in-keys id a [] h k = ground arith
complete_in-keys id a ((b, l) ∷ d) h k = elim (Option-cases (complete_in id d)) [
  | inl e ↦ ground arith
  | inr (rest, e) ↦ ground (arith, complete_in-keys id a d e)
]

pub complete-IsValid : (id : String) (s : Scheduler) → IsValid s → IsValid (complete id s).1
unfolding complete active_count
complete-IsValid id s v = elim (Option-cases (complete_in id s.active)) [
  | inl e ↦ rw (e, complete) v
  | inr (d, e) ↦
      rw (e, complete)
        (record {
          registered =
              All-Keeps s (record s { active = d }) s.rotation
                (λ b r. (r.0, r.1, complete_in-keys id b s.active e r.2)) v.registered;
          listed = v.listed;
          bounded = omega (arith, complete_in-sum id s.active e, v.bounded);
        })
]
