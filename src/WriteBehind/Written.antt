-- ===== src/WriteBehind/Written.antt =====
-- src/orchestrator/interaction/write_behind.py: what is written of what is queued, where the worker
-- alone writes: a caller of flush_sync would post between the posts of the worker's batch. Within
-- one batch the worker makes its posts at once, since what else may happen meanwhile posts nothing.
use unison_orchestrator.Prelude.{
  Bool, true, false, not, ◌&&◌, ℕ, ◌≤◌, String, not, ◌&&◌, Option, none, some, List, [], ◌∷◌, ◌++◌,
  append-nil, append_assoc, if◌then◌else◌, length, length-append, arith, ◌≡◌, refl, sym, ap, ◌∙◌,
  inl, inr, Bool-cases, Option-cases, List-cases, ◌⊎◌,
}
use unison_orchestrator.Prelude.Json.{Fields}
use unison_orchestrator.WriteBehind.{
  Batch, Reply, WriteBehind, new_queue, has_room, enqueue, flush_one, start, stop, await_batch,
  take_batch, write_batch,
}
use unison_orchestrator.WriteBehind.Flush.{payloads, flush_one_posted}

-- The payloads of some batches.
unfoldable pub payloads_all : List Batch → List Fields
payloads_all [] = []
payloads_all (b ∷ bs) = payloads b.person_id b.updates ++ payloads_all bs

payloads_all-append :
    (cs bs : List Batch) → payloads_all (cs ++ bs) ≡ payloads_all cs ++ payloads_all bs
unfolding payloads_all
payloads_all-append [] bs = refl
payloads_all-append (a ∷ cs) bs =
    ap (λ l. payloads a.person_id a.updates ++ l) (payloads_all-append cs bs)
    ∙ sym (append_assoc (payloads a.person_id a.updates) (payloads_all cs) (payloads_all bs))

-- The bound is `n`, and no more wait.
abbrev Within : ℕ → WriteBehind → Type 0
Within n s = (s.maxsize ≡ n) × (length s.queue ≤ n)

pub data Step : Type 0 where
  enqueued : Batch → Step
  started : Step
  halted : Step
  awaited : Step
  taken : Step
  written : Step

-- The batch that the worker holds.
abbrev pub in_hand : Option Batch → List Batch
in_hand none = []
in_hand (some b) = b ∷ []

-- What waits to be written, the next one first.
abbrev pub pending : WriteBehind → List Batch
pending s = in_hand s.held ++ s.queue

-- The batch that a step puts into the queue, or that the worker writes.
unfoldable pub accepted_by : Step → WriteBehind → List Batch
accepted_by (enqueued b) s = if has_room s then b ∷ [] else []
accepted_by _ s = []

unfoldable pub worked_by : Step → WriteBehind → List Batch
worked_by written s = in_hand s.held
worked_by _ s = []

module _ (shown : ℕ → String) (answer : List Fields → Reply) where
  unfoldable pub step : Step → WriteBehind → WriteBehind
  step (enqueued b) s = enqueue b s
  step started s = start shown answer s
  step halted s = stop shown answer s
  step awaited s = await_batch shown answer s
  step taken s = take_batch shown answer s
  step written s = write_batch shown answer s

  unfoldable pub run : List Step → WriteBehind → WriteBehind
  run [] s = s
  run (t ∷ ts) s = run ts (step t s)

  -- The batches of some steps, in the order of the steps.
  unfoldable pub over : (Step → WriteBehind → List Batch) → List Step → WriteBehind → List Batch
  over at [] s = []
  over at (t ∷ ts) s = at t s ++ over at ts (step t s)

  await_batch_lem :
      (s : WriteBehind) → (w : Bool) × (await_batch shown answer s ≡ record s { waiting = w })
  unfolding await_batch
  await_batch_lem s = elim (Option-cases s.held) [
    | inr (b, e) ↦
        (let same : await_batch shown answer s ≡ s = simp (await_batch, e) in (s.waiting, same))
    | inl e ↦ elim (Bool-cases (s.worker && not s.stopped)) [
      | inl w ↦ (true, simp (await_batch, e, w))
      | inr w ↦
          (let same : await_batch shown answer s ≡ s = simp (await_batch, e, w) in
            (s.waiting, same))
    ]
  ]

  -- No more than the worker's waiting changes, or the worker takes the first batch.
  take_batch_cases :
      (s : WriteBehind)
      → ((w : Bool) × (take_batch shown answer s ≡ record s { waiting = w }))
        ⊎ ((b : Batch) × (q : List Batch) × (s.held ≡ none)
            × (s.queue ≡ b ∷ q)
            × (take_batch shown answer s ≡ record s { queue = q; held = some b; waiting = false }))
  unfolding take_batch
  take_batch_cases s = elim (Option-cases s.held) [
    | inr (b, e) ↦
        (let same : take_batch shown answer s ≡ s = simp (take_batch, e) in inl (s.waiting, same))
    | inl e ↦ elim (Bool-cases s.waiting) [
      | inr w ↦
          (let same : take_batch shown answer s ≡ s = simp (take_batch, e, w) in
            inl (s.waiting, same))
      | inl w ↦ elim (List-cases s.queue) [
        | inl k ↦ inl (false, simp (take_batch, e, w, k))
        | inr (b, q, k) ↦ inr (b, q, e, k, simp (take_batch, e, w, k))
      ]
    ]
  ]

  -- What waits and what is accepted meanwhile is what the worker writes and what waits then.
  step_pending :
      (t : Step) (s : WriteBehind)
      → pending s ++ accepted_by t s ≡ worked_by t s ++ pending (step t s)
  unfolding step accepted_by worked_by enqueue flush_one write_batch
  step_pending (enqueued b) s = elim (Bool-cases (has_room s)) [
    | inl e ↦ rw (enqueue, e) (append_assoc (in_hand s.held) s.queue (b ∷ []))
    | inr e ↦ rw (enqueue, e) (append-nil (pending s))
  ]
  step_pending started s = elim (Bool-cases s.worker) [
    | inl e ↦ rw e (append-nil (pending s))
    | inr e ↦ rw e (append-nil (pending s))
  ]
  step_pending halted s = append-nil (pending s)
  step_pending awaited s = append-nil (pending s) ∙ ap pending (sym (await_batch_lem s).1)
  step_pending taken s = append-nil (pending s) ∙ elim (take_batch_cases s) [
    | inl (_, e) ↦ ap pending (sym e)
    | inr (b, q, h, k, e) ↦ rw (h, k) refl ∙ ap pending (sym e)
  ]
  step_pending written s = elim (Option-cases s.held) [
    | inl e ↦ rw (write_batch, e) (append-nil s.queue ∙ rw e refl)
    | inr (b, e) ↦ rw (write_batch, e) (append-nil (b ∷ s.queue))
  ]

  step_posted :
      (t : Step) (s : WriteBehind) → (step t s).posted ≡ s.posted ++ payloads_all (worked_by t s)
  unfolding step worked_by payloads_all enqueue write_batch
  step_posted (enqueued b) s = elim (Bool-cases (has_room s)) [
    | inl e ↦ rw (enqueue, e) (sym (append-nil s.posted))
    | inr e ↦ rw (enqueue, e) (sym (append-nil s.posted))
  ]
  step_posted started s = elim (Bool-cases s.worker) [
    | inl e ↦ rw e (sym (append-nil s.posted))
    | inr e ↦ rw e (sym (append-nil s.posted))
  ]
  step_posted halted s = sym (append-nil s.posted)
  step_posted awaited s = ap (λ x. x.posted) (await_batch_lem s).1 ∙ sym (append-nil s.posted)
  step_posted taken s = elim (take_batch_cases s) [
    | inl (_, e) ↦ ap (λ x. x.posted) e ∙ sym (append-nil s.posted)
    | inr (b, q, h, k, e) ↦ ap (λ x. x.posted) e ∙ sym (append-nil s.posted)
  ]
  step_posted written s = elim (Option-cases s.held) [
    | inl e ↦ rw (write_batch, e) (sym (append-nil s.posted))
    | inr (b, e) ↦
        rw (write_batch, e)
          (flush_one_posted shown answer b s
            ∙ ap (λ l. s.posted ++ l) (sym (append-nil (payloads b.person_id b.updates))))
  ]

  step-Within : (n : ℕ) (t : Step) (s : WriteBehind) → 1 ≤ n → Within n s → Within n (step t s)
  unfolding step enqueue flush_one write_batch
  step-Within n (enqueued b) s pos h = elim (Bool-cases (has_room s)) [
    | inl e ↦
        rw (enqueue, e) (h.0, ground (arith, h.0, h.1, pos, e, length-append s.queue (b ∷ [])))
    | inr e ↦ rw (enqueue, e) h
  ]
  step-Within n started s pos h = elim (Bool-cases s.worker) [ inl e ↦ rw e h | inr e ↦ rw e h ]
  step-Within n halted s pos h = h
  step-Within n awaited s pos h = rw (await_batch_lem s).1 h
  step-Within n taken s pos h = elim (take_batch_cases s) [
    | inl (_, e) ↦ rw e h
    | inr (b, q, _, k, e) ↦ rw e (h.0, ground (arith, h.1, ap length k))
  ]
  step-Within n written s pos h = elim (Option-cases s.held) [
    | inl e ↦ rw (write_batch, e) h
    | inr (b, e) ↦ rw (write_batch, e) h
  ]

  run-Within : (n : ℕ) (ts : List Step) (s : WriteBehind) → 1 ≤ n → Within n s → Within n (run ts s)
  unfolding run
  run-Within n [] s pos h = h
  run-Within n (t ∷ ts) s pos h = run-Within n ts (step t s) pos (step-Within n t s pos h)

  pending-run :
      (ts : List Step) (s : WriteBehind)
      → pending s ++ over accepted_by ts s ≡ over worked_by ts s ++ pending (run ts s)
  unfolding run over
  pending-run [] s = append-nil (pending s)
  pending-run (t ∷ ts) s =
      sym (append_assoc (pending s) (accepted_by t s) (over accepted_by ts (step t s)))
      ∙ ap (λ l. l ++ over accepted_by ts (step t s)) (step_pending t s)
      ∙ append_assoc (worked_by t s) (pending (step t s)) (over accepted_by ts (step t s))
      ∙ ap (λ l. worked_by t s ++ l) (pending-run ts (step t s))
      ∙ sym (
          append_assoc (worked_by t s) (over worked_by ts (step t s)) (pending (run ts (step t s))))

  run_posted :
      (ts : List Step) (s : WriteBehind)
      → (run ts s).posted ≡ s.posted ++ payloads_all (over worked_by ts s)
  unfolding run over payloads_all
  run_posted [] s = sym (append-nil s.posted)
  run_posted (t ∷ ts) s =
      run_posted ts (step t s)
      ∙ ap (λ l. l ++ payloads_all (over worked_by ts (step t s))) (step_posted t s)
      ∙ append_assoc s.posted (payloads_all (worked_by t s))
          (payloads_all (over worked_by ts (step t s)))
      ∙ ap (λ l. s.posted ++ l)
          (sym (payloads_all-append (worked_by t s) (over worked_by ts (step t s))))

  -- Whatever steps are made on a new queue with a bound, in whatever order, while nobody calls
  -- flush_sync: the batches that found room are those that the worker has written, in that order,
  -- before the one in its hand and those that wait; never more wait than the bound; and what is
  -- posted is, in order, the payloads of the batches that the worker wrote, whatever the service
  -- answers.
  pub run-new_queue :
      (n : ℕ) (ts : List Step)
      → 1 ≤ n
      → (over accepted_by ts (new_queue n)
          ≡ over worked_by ts (new_queue n) ++ pending (run ts (new_queue n)))
        × (length (run ts (new_queue n)).queue ≤ n)
        × ((run ts (new_queue n)).posted ≡ payloads_all (over worked_by ts (new_queue n)))
  run-new_queue n ts pos = (
    pending-run ts (new_queue n),
    (run-Within n ts (new_queue n) pos (refl, omega arith)).1,
    run_posted ts (new_queue n),
  )
