-- ===== src/WriteBehind.antt =====
-- src/orchestrator/interaction/write_behind.py: the queue of context updates that are written
-- later. The answer of the context service to a post depends on all posts so far, the last one at
-- the end. Headers, spans, trace events and a post that raises are left out. The worker's loop is
-- three steps, since others may act between them. A batch is written in one step: this is the order
-- of the posts where one caller flushes at a time, as the worker does by itself; flush_sync takes no
-- lock, and posts of two callers at once may stand between each other.
pub mod Flush
pub mod Written
mod Tests
use Prim.Native.String
use unison_orchestrator.Prelude.{
  ℕ, String, Bool, true, false, not, ◌&&◌, ◌||◌, Option, none, some, List, [], ◌∷◌, ◌++◌,
  if◌then◌else◌, ltb, leb, length, first_chars,
}
use unison_orchestrator.Prelude.Json.{
  Json, bool, str, arr, obj, Items, nil, cons, Fields, end, get, truthy, is_text, dict, py_or,
  value_or,
}

pub record Batch : Type 0 where
  pub batch_id : String
  pub person_id : String
  pub session_id : String
  pub queued_at_unix_ms : Json
  pub updates : Items

-- The answer to a post.
pub record Reply : Type 0 where
  pub success : Bool
  pub status : ℕ
  pub body : Json

-- What a flush returns.
pub record Flushed : Type 0 where
  pub ok_all : Bool
  pub last_error : Option String

pub record WriteBehind : Type 0 where
  pub maxsize : ℕ
  pub queue : List Batch
  pub worker : Bool
  pub stopped : Bool
  -- The worker has passed the test of `_stop` and waits for a batch.
  pub waiting : Bool
  -- The batch that the worker has taken and not yet written.
  pub held : Option Batch
  -- The payloads posted.
  pub posted : List Fields

-- `__post_init__`
abbrev pub new_queue : ℕ → WriteBehind
new_queue maxsize = record {
  maxsize = maxsize;
  queue = [];
  worker = false;
  stopped = false;
  waiting = false;
  held = none;
  posted = [];
}

-- `put_nowait` has room; a maxsize of zero is no bound.
abbrev pub has_room : WriteBehind → Bool
has_room s = not (ltb 0 s.maxsize && leb s.maxsize (length s.queue))

-- A batch that finds no room is dropped.
unfoldable pub enqueue : Batch → WriteBehind → WriteBehind
enqueue b s = if has_room s then record s { queue = s.queue ++ b ∷ [] } else s

-- The batch of a last interaction, queued at a time and created at another.
unfoldable pub last_interaction : String → Json → Json → String → String → String → String → Batch
last_interaction id queued_at now person_id session_id trace_id input_text = record {
  batch_id = id;
  person_id = person_id;
  session_id = session_id;
  queued_at_unix_ms = queued_at;
  updates =
      cons
        (obj (
          dict (
            ("op", str "kv.put")
            ∷ ("tier", str "B")
            ∷ (
              "items",
              obj (
                  dict (
                    (
                      String.◌++◌ person_id ":profile:last_interaction",
                      obj (
                          dict (
                            ("trace_id", str trace_id)
                            ∷ ("session_id", str session_id)
                            ∷ ("text", str (first_chars 500 input_text))
                            ∷ ("ts_unix_ms", now)
                            ∷ [])),
                    )
                    ∷ [])),
            )
            ∷ [])))
        nil;
}

unfoldable pub enqueue_last_interaction :
    String → Json → Json → String → String → String → String → WriteBehind → Batch × WriteBehind
enqueue_last_interaction id queued_at now person_id session_id trace_id input_text s =
    let batch = last_interaction id queued_at now person_id session_id trace_id input_text in
    (batch, enqueue batch s)

-- The payload of an update, if it is one that is written.
unfoldable pub payload_of : String → Json → Option Fields
payload_of person_id (obj upd) =
    if is_text "kv.put" (get "op" upd)
    then elim (py_or (value_or (str "") (get "items" upd)) (obj end)) [
      | obj items ↦ some (
          dict (
            ("person_id", str person_id)
            ∷ ("tier", py_or (value_or (str "") (get "tier" upd)) (str "B"))
            ∷ ("items", obj items)
            ∷ []))
      | _ ↦ none
    ]
    else none
payload_of person_id _ = none

-- `body.get("ok") is True`
abbrev pub is_ok : Json → Bool
is_ok (obj d) = elim (get "ok" d) [ some (bool b) ↦ b | _ ↦ false ]
is_ok _ = false

abbrev pub is_refused : Reply → Bool
is_refused r = not r.success || leb 400 r.status || not (is_ok r.body)

module _ (shown : ℕ → String) where
  -- `f"context kv.put failed status={status}"`
  abbrev pub put_error : ℕ → String
  put_error status = String.◌++◌ "context kv.put failed status=" (shown status)

  module _ (answer : List Fields → Reply) where
    -- One post, and what is known after it.
    abbrev pub noted : Reply → Flushed → Flushed
    noted r f =
        if is_refused r
        then record { ok_all = false; last_error = some (put_error r.status) }
        else f

    -- `_do_flush`: the loop over the updates
    unfoldable pub flush_updates : String → Items → List Fields → Flushed → Flushed × List Fields
    flush_updates person_id nil posted f = (f, posted)
    flush_updates person_id (cons upd upds) posted f = elim (payload_of person_id upd) [
      | none ↦ flush_updates person_id upds posted f
      | some payload ↦
          (let posted = posted ++ payload ∷ [] in
            flush_updates person_id upds posted (noted (answer posted) f))
    ]

    unfoldable pub flush_one : Batch → WriteBehind → Flushed × WriteBehind
    flush_one b s =
        let (f, posted) =
          flush_updates b.person_id b.updates s.posted
            (record { ok_all = true; last_error = none }) in
        (f, record s { posted = posted })

    -- `flush_sync`
    abbrev pub flush_sync : Batch → WriteBehind → Flushed × WriteBehind
    flush_sync = flush_one

    -- The worker starts once.
    abbrev pub start : WriteBehind → WriteBehind
    start s = if s.worker then s else record s { worker = true }

    abbrev pub stop : WriteBehind → WriteBehind
    stop s = record s { stopped = true }

    -- The head of the worker's loop: once stopped it does not wait for a batch any more.
    unfoldable pub await_batch : WriteBehind → WriteBehind
    await_batch s = elim (s.held) [
      | some b ↦ s
      | none ↦ if s.worker && not s.stopped then record s { waiting = true } else s
    ]

    -- A worker that waits takes the first batch, or gives up for now.
    unfoldable pub take_batch : WriteBehind → WriteBehind
    take_batch s = elim (s.held) [
      | some b ↦ s
      | none ↦
          if s.waiting
          then elim (s.queue) [
            | [] ↦ record s { waiting = false }
            | b ∷ q ↦ record s { queue = q; held = some b; waiting = false }
          ]
          else s
    ]

    -- The worker writes the batch that it has taken.
    unfoldable pub write_batch : WriteBehind → WriteBehind
    write_batch s = elim (s.held) [ none ↦ s | some b ↦ record (flush_one b s).1 { held = none } ]
