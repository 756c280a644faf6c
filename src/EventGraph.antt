-- ===== src/EventGraph.antt =====
-- src/orchestrator/event_graph/store.py: the append-only store of events. The lines of a file are a
-- type that is an argument, as are the line that is written of an event (model_dump, the redaction
-- where it is on, and json.dumps) and the event that a line gives, nothing where the line is blank,
-- is no JSON or is no event.
pub mod Order
mod Tests
use unison_orchestrator.Prelude.{
  ℕ, zero, suc, String, Bool, true, false, not, ◌&&◌, ◌||◌, Option, none, some, List, [], ◌∷◌, ◌++◌,
  map, if◌then◌else◌, leb, ltb, nat_eq, ◌==◌, length,
}
use unison_orchestrator.Prelude.Json.{Fields}

pub record EventGraphEvent : Type 0 where
  pub event_id : String
  pub trace_id : String
  pub person_id : Option String
  pub session_id : Option String
  pub ts_unix_ms : ℕ
  pub ts_monotonic_ns : Option ℕ
  pub payload : Fields

-- What stands in a batch: an event; a dict, with what EventGraphEvent(**raw) makes of it, nothing
-- where it raises; or something else.
pub data RawEvent : Type 0 where
  raw_event : EventGraphEvent → RawEvent
  coerced : Option EventGraphEvent → RawEvent
  other : RawEvent

pub data ℤ : Type 0 where
  pos : ℕ → ℤ
  -- `negsuc n` is -(n + 1).
  negsuc : ℕ → ℤ

pub record EventGraphAppend : Type 0 where
  pub trace_id : String
  pub person_id : Option String
  pub session_id : Option String
  pub events : List RawEvent

pub record EventGraphQuery : Type 0 where
  pub trace_id : Option String
  pub person_id : Option String
  pub session_id : Option String
  pub limit : Option ℤ

abbrev or_else : Option String → Option String → Option String
or_else (some s) default = some s
or_else none default = default

-- An event, with what it lacks taken from its batch.
unfoldable pub filled : EventGraphAppend → EventGraphEvent → EventGraphEvent
filled batch e = record e {
  trace_id = if e.trace_id == "" then batch.trace_id else e.trace_id;
  person_id = or_else e.person_id batch.person_id;
  session_id = or_else e.session_id batch.session_id;
}

-- An event in front of the others, if there are any.
abbrev also : EventGraphEvent → Option (List EventGraphEvent) → Option (List EventGraphEvent)
also e none = none
also e (some es) = some (e ∷ es)

-- The events of a batch; nothing where the coercion of a dict raises.
unfoldable pub accepted : EventGraphAppend → List RawEvent → Option (List EventGraphEvent)
unfolding filled
accepted batch [] = some []
accepted batch (raw_event e ∷ es) = also (filled batch e) (accepted batch es)
accepted batch (coerced (some e) ∷ es) = also (filled batch e) (accepted batch es)
accepted batch (coerced none ∷ es) = none
accepted batch (other ∷ es) = accepted batch es

-- `append`: how many events were written, and the file; nothing where it raises
unfoldable pub append :
    {L : Type 0} → (EventGraphEvent → L) → EventGraphAppend → List L → Option (ℕ × List L)
unfolding accepted
append write batch file = elim (accepted batch batch.events) [
  | none ↦ none
  | some events ↦ some (length events, file ++ map write events)
]

-- A filter that is missing or empty lets everything through.
abbrev pub passes : Option String → Option String → Bool
passes none value = true
passes (some s) none = s == ""
passes (some s) (some t) = s == "" || t == s

unfoldable pub matches : EventGraphQuery → EventGraphEvent → Bool
matches q e =
    passes q.trace_id (some e.trace_id)
    && passes q.session_id e.session_id
    && passes q.person_id e.person_id

-- `int(query.limit or 500)`
abbrev pub or_default : Option ℤ → ℤ
or_default none = pos 500
or_default (some (pos zero)) = pos 500
or_default (some n) = n

abbrev pub at_most_5000 : ℤ → ℤ
at_most_5000 (pos n) = pos (if leb n 5000 then n else 5000)
at_most_5000 (negsuc n) = negsuc n

abbrev pub at_least_1 : ℤ → ℕ
at_least_1 (pos n) = if leb 1 n then n else 1
at_least_1 (negsuc n) = 1

-- `max(1, min(int(query.limit or 500), 5000))`
unfoldable pub limit_of : EventGraphQuery → ℕ
limit_of q = at_least_1 (at_most_5000 (or_default q.limit))

module _ {L : Type 0} (parse : L → Option EventGraphEvent) where
  -- The scan: at most this many more events that match.
  unfoldable pub scan : EventGraphQuery → ℕ → List L → List EventGraphEvent
  unfolding matches
  scan q zero file = []
  scan q (suc n) [] = []
  scan q (suc n) (line ∷ file) =
      let taken = scan q n file in
      let passed = scan q (suc n) file in
      elim (parse line) [ none ↦ passed | some e ↦ if matches q e then e ∷ taken else passed ]

abbrev pub ns_of : EventGraphEvent → ℕ
ns_of e = elim (e.ts_monotonic_ns) [ some n ↦ n | none ↦ 0 ]

-- `(e.ts_unix_ms, e.ts_monotonic_ns or 0)`, in order
abbrev pub before : EventGraphEvent → EventGraphEvent → Bool
before a b =
    if nat_eq a.ts_unix_ms b.ts_unix_ms
    then leb (ns_of a) (ns_of b)
    else ltb a.ts_unix_ms b.ts_unix_ms

unfoldable pub place : EventGraphEvent → List EventGraphEvent → List EventGraphEvent
place e [] = e ∷ []
place e (x ∷ xs) = let rest = place e xs in if before e x then e ∷ x ∷ xs else x ∷ rest

-- `out.sort(key=...)`, which is stable
unfoldable pub sort : List EventGraphEvent → List EventGraphEvent
unfolding place
sort [] = []
sort (e ∷ es) = place e (sort es)

-- `query`
unfoldable pub query :
    {L : Type 0} → (L → Option EventGraphEvent) → EventGraphQuery → List L → List EventGraphEvent
unfolding limit_of scan sort
query parse q file = sort (scan parse q (limit_of q) file)
