-- ===== src/WriteBehind/Flush.antt =====
-- src/orchestrator/interaction/write_behind.py: what one batch writes.
use unison_orchestrator.Prelude.{
  ℕ, String, true, not, ◌&&◌, Option, none, some, List, [], ◌∷◌, ◌++◌, append-nil, append_assoc,
  if◌then◌else◌, all, arith, ◌≡◌, refl, sym, ap, ◌∙◌, inl, inr, Bool-cases, Option-cases,
}
use unison_orchestrator.Prelude.Json.{Items, nil, cons, Fields}
use unison_orchestrator.WriteBehind.{
  Batch, Reply, Flushed, WriteBehind, payload_of, is_refused, put_error, noted, flush_updates,
  flush_one,
}

-- The payloads of some updates, without those that are passed over.
unfoldable pub payloads : String → Items → List Fields
payloads person_id nil = []
payloads person_id (cons upd upds) =
    let rest = payloads person_id upds in
    elim (payload_of person_id upd) [ none ↦ rest | some p ↦ p ∷ rest ]

module _ (shown : ℕ → String) (answer : List Fields → Reply) where
  -- The answers to some posts, after others.
  unfoldable pub replies : List Fields → List Fields → List Reply
  replies posted [] = []
  replies posted (p ∷ ps) = let posted = posted ++ p ∷ [] in answer posted ∷ replies posted ps

  -- The error of the last answer that refuses.
  unfoldable pub last_refusal : Option String → List Reply → Option String
  last_refusal e [] = e
  last_refusal e (r ∷ rs) =
      last_refusal (if is_refused r then some (put_error shown r.status) else e) rs

  -- The posts of some payloads.
  unfoldable post_all : List Fields → List Fields → Flushed → Flushed × List Fields
  post_all [] posted f = (f, posted)
  post_all (p ∷ ps) posted f =
      let posted = posted ++ p ∷ [] in post_all ps posted (noted shown answer (answer posted) f)

  flush_updates_lem :
      (person : String) (upds : Items) (posted : List Fields) (f : Flushed)
      → flush_updates shown answer person upds posted f ≡ post_all (payloads person upds) posted f
  unfolding flush_updates payloads post_all
  flush_updates_lem person nil posted f = refl
  flush_updates_lem person (cons upd upds) posted f = elim (Option-cases (payload_of person upd)) [
    | inl e ↦ rw (flush_updates, payloads, e) (flush_updates_lem person upds posted f)
    | inr (p, e) ↦
        rw (flush_updates, payloads, e)
          (flush_updates_lem person upds (posted ++ p ∷ [])
            (noted shown answer (answer (posted ++ p ∷ [])) f))
  ]

  post_all_posted :
      (ps posted : List Fields) (f : Flushed) → (post_all ps posted f).1 ≡ posted ++ ps
  unfolding post_all
  post_all_posted [] posted f = sym (append-nil posted)
  post_all_posted (p ∷ ps) posted f =
      post_all_posted ps (posted ++ p ∷ []) (noted shown answer (answer (posted ++ p ∷ [])) f)
      ∙ append_assoc posted (p ∷ []) ps

  noted_error :
      (r : Reply) (f : Flushed)
      → (noted shown answer r f).last_error
        ≡ (if is_refused r then some (put_error shown r.status) else f.last_error)
  noted_error r f = elim (Bool-cases (is_refused r)) [ inl e ↦ rw e refl | inr e ↦ rw e refl ]

  post_all_error :
      (ps posted : List Fields) (f : Flushed)
      → (post_all ps posted f).0.last_error ≡ last_refusal f.last_error (replies posted ps)
  unfolding post_all last_refusal replies
  post_all_error [] posted f = refl
  post_all_error (p ∷ ps) posted f =
      let r = answer (posted ++ p ∷ []) in
      post_all_error ps (posted ++ p ∷ []) (noted shown answer r f)
      ∙ ap (λ e. last_refusal e (replies (posted ++ p ∷ []) ps)) (noted_error r f)

  post_all_ok :
      (ps posted : List Fields) (f : Flushed)
      → (post_all ps posted f).0.ok_all
        ≡ (f.ok_all && all (λ r. not (is_refused r)) (replies posted ps))
  unfolding post_all replies
  post_all_ok [] posted f = ground arith
  post_all_ok (p ∷ ps) posted f = elim (Bool-cases (is_refused (answer (posted ++ p ∷ [])))) [
    | inl e ↦
        post_all_ok ps (posted ++ p ∷ []) (noted shown answer (answer (posted ++ p ∷ [])) f)
        ∙ rw e (ground arith)
    | inr e ↦
        post_all_ok ps (posted ++ p ∷ []) (noted shown answer (answer (posted ++ p ∷ [])) f)
        ∙ rw e (ground arith)
  ]

  pub flush_one_posted :
      (b : Batch) (s : WriteBehind)
      → (flush_one shown answer b s).1.posted ≡ s.posted ++ payloads b.person_id b.updates
  unfolding flush_one
  flush_one_posted b s =
      ap (λ r. r.1)
        (flush_updates_lem b.person_id b.updates s.posted
          (record { ok_all = true; last_error = none }))
      ∙ post_all_posted (payloads b.person_id b.updates) s.posted
          (record { ok_all = true; last_error = none })

  -- Writing a batch posts the payload of each of its updates that is one, in order, also after the
  -- service refused one; it reports success exactly if no answer refuses, and otherwise the status
  -- of the last answer that does.
  pub flush_one_lem :
      (b : Batch) (s : WriteBehind)
      → ((flush_one shown answer b s).1.posted ≡ s.posted ++ payloads b.person_id b.updates)
        × ((flush_one shown answer b s).0.ok_all
            ≡ all (λ r. not (is_refused r)) (replies s.posted (payloads b.person_id b.updates)))
        × ((flush_one shown answer b s).0.last_error
            ≡ last_refusal none (replies s.posted (payloads b.person_id b.updates)))
  unfolding flush_one
  flush_one_lem b s = (
    flush_one_posted b s,
    rw
        (flush_updates_lem b.person_id b.updates s.posted
          (record { ok_all = true; last_error = none }))
        (post_all_ok (payloads b.person_id b.updates) s.posted
          (record { ok_all = true; last_error = none })),
    rw
        (flush_updates_lem b.person_id b.updates s.posted
          (record { ok_all = true; last_error = none }))
        (post_all_error (payloads b.person_id b.updates) s.posted
          (record { ok_all = true; last_error = none })),
  )
