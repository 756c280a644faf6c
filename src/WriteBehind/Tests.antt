-- ===== src/WriteBehind/Tests.antt =====
-- src/orchestrator/interaction/write_behind.py: runs.
use unison_orchestrator.Prelude.{
  ℕ, ◌≤◌, String, true, false, none, List, [], ◌∷◌, ◌++◌, length, all, not, arith, ◌≡◌, refl,
}
use unison_orchestrator.Prelude.Json.{
  Json, null, bool, str, obj, Items, nil, cons, Fields, end, dict, get,
}
use unison_orchestrator.WriteBehind.{
  await_batch, Batch, Reply, new_queue, enqueue, payload_of, is_refused, flush_updates, flush_one,
  take_batch, write_batch, last_interaction,
}
use unison_orchestrator.WriteBehind.Flush.{payloads, replies, last_refusal, flush_one_lem}
use unison_orchestrator.WriteBehind.Written.{
  Step, enqueued, started, halted, awaited, taken, written, accepted_by, worked_by, worked_by,
  payloads_all, over, pending, step, run, run-new_queue,
}

abbrev shown : ℕ → String
shown n = "status"

-- The second post is refused.
abbrev answer : List Fields → Reply
answer (p ∷ q ∷ []) = record { success = true; status = 500; body = null }
answer _ = record { success = true; status = 200; body = obj (dict (("ok", bool true) ∷ [])) }

abbrev write : Json
write = obj (dict (("op", str "kv.put") ∷ ("items", obj end) ∷ []))

abbrev batch : Items → Batch
batch updates = record {
  batch_id = "b";
  person_id = "ann";
  session_id = "s";
  queued_at_unix_ms = null;
  updates = updates;
}

abbrev first : Batch
first = batch (cons write (cons (str "no") (cons write (cons write nil))))

abbrev second : Batch
second = batch nil

abbrev third : Batch
third = last_interaction "i" null null "ann" "s" "t" "hello"

abbrev steps : List Step
steps =
    enqueued first
    ∷ started
    ∷ enqueued second
    ∷ enqueued third
    ∷ awaited
    ∷ taken
    ∷ awaited
    ∷ halted
    ∷ written
    ∷ taken
    ∷ []

-- The third batch finds no room, and after the stop the second one waits for ever.
dropped : over shown answer accepted_by steps (new_queue 2) ≡ first ∷ second ∷ []
unfolding over accepted_by step enqueue await_batch take_batch write_batch flush_one flush_updates
    payload_of get last_interaction
dropped = refl

waits : pending (run shown answer steps (new_queue 2)) ≡ second ∷ []
unfolding run step enqueue await_batch take_batch write_batch flush_one flush_updates payload_of get
    last_interaction
waits = refl

refused_once : (flush_one shown answer first (new_queue 2)).0.ok_all ≡ false
unfolding flush_one flush_updates payload_of get
refused_once = refl

run-new_queue_example :
    (over shown answer accepted_by steps (new_queue 2)
      ≡ over shown answer worked_by steps (new_queue 2)
        ++ pending (run shown answer steps (new_queue 2)))
    × (length (run shown answer steps (new_queue 2)).queue ≤ 2)
    × ((run shown answer steps (new_queue 2)).posted
        ≡ payloads_all (over shown answer worked_by steps (new_queue 2)))
run-new_queue_example = run-new_queue shown answer 2 steps (omega arith)

flush_one_lem_example :
    ((flush_one shown answer first (new_queue 2)).1.posted ≡ payloads "ann" first.updates)
    × ((flush_one shown answer first (new_queue 2)).0.ok_all
        ≡ all (λ r. not (is_refused r)) (replies shown answer [] (payloads "ann" first.updates)))
    × ((flush_one shown answer first (new_queue 2)).0.last_error
        ≡ last_refusal shown answer none (replies shown answer [] (payloads "ann" first.updates)))
flush_one_lem_example = flush_one_lem shown answer first (new_queue 2)
