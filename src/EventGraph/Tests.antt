-- ===== src/EventGraph/Tests.antt =====
-- Runs of the event graph store.
use mathlib.Core.List.{Perm}
use unison_orchestrator.Prelude.{ℕ, String, Option, none, some, List, [], ◌∷◌, ◌≡◌, refl}
use unison_orchestrator.Prelude.Json.{end}
use unison_orchestrator.EventGraph.{
  EventGraphEvent, EventGraphAppend, EventGraphQuery, query, append, accepted, raw_event, coerced,
  other, filled,
}
use unison_orchestrator.EventGraph.Order.{query_lem, Selected, LimitIs, InOrder, first}

abbrev event : String → ℕ → EventGraphEvent
event id ms = record {
  event_id = id;
  trace_id = "";
  person_id = none;
  session_id = none;
  ts_unix_ms = ms;
  ts_monotonic_ns = none;
  payload = end;
}

abbrev batch : EventGraphAppend
batch = record {
  trace_id = "t";
  person_id = some "ada";
  session_id = none;
  events = raw_event (event "b" 9) ∷ other ∷ coerced (some (event "a" 3)) ∷ [];
}

abbrev by_trace : EventGraphQuery
by_trace = record { trace_id = some "t"; person_id = none; session_id = none; limit = none }

-- Lines that are events, or blank.
abbrev parse : Option EventGraphEvent → Option EventGraphEvent
parse line = line

query_lem_example :
    (all : List EventGraphEvent) × (n : ℕ) × Selected parse by_trace
      (some (event "x" 1) ∷ none ∷ [])
      all
    × LimitIs none n
    × Perm (query parse by_trace (some (event "x" 1) ∷ none ∷ [])) (first n all)
    × InOrder (query parse by_trace (some (event "x" 1) ∷ none ∷ []))
query_lem_example = query_lem parse by_trace (some (event "x" 1) ∷ none ∷ [])

-- What lacks a trace and a person has those of its batch; a dict that is no event raises.
written :
    append (λ e. some e) batch []
    ≡ some (2, some (filled batch (event "b" 9)) ∷ some (filled batch (event "a" 3)) ∷ [])
unfolding append accepted
written = refl

raised :
    append (λ e. some e) (record batch { events = raw_event (event "b" 9) ∷ coerced none ∷ [] }) []
    ≡ none
unfolding append accepted
raised = refl
