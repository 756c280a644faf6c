-- ===== src/Replay/Tests.antt =====
-- src/orchestrator/replay.py: runs on a store that keeps the envelopes of each trace.
use unison_orchestrator.Prelude.{
  ℕ, String, Option, none, some, List, [], ◌∷◌, length, ok, err, ◌>>=◌, arith, ◌≡◌, ◌≢◌, refl, ap,
}
use unison_orchestrator.Prelude.Json.{Json, null, bool, int, str, obj, Fields, end, dict, get}
use unison_orchestrator.Prelude.Dict.{Dict, lookup, erase, contains, keys, lookup-erase_ne}
use unison_orchestrator.Replay.{
  Envelope, Manager, Response, is_user, csv_file, owner_id, require_owned_trace, envelopes_in,
  list_traces, export_trace, delete_trace, value_error,
}
use unison_orchestrator.Replay.Owned.{Call, delete, respond_all, respond, respond_all_kept}

abbrev Store : Type 0
Store = Dict (List Envelope)

abbrev found_or_empty : Option (List Envelope) → List Envelope
found_or_empty none = []
found_or_empty (some envs) = envs

abbrev envelopes : Store → String → List Envelope
envelopes s t = found_or_empty (lookup t s)

abbrev manager : Manager Store
manager = record {
  get_envelopes_by_trace = envelopes;
  filter_traces = λ s f. (keys s, length s);
  get_trace_summary = λ s t. dict (("found", bool (contains t s)) ∷ []);
  delete_trace = λ s t. (contains t s, erase t s);
}

abbrev shown : Json → String
shown v = "shown"

abbrev envelope : String → Envelope
envelope user = record {
  envelope_id = str "e";
  trace_id = str "t";
  correlation_id = str "c";
  timestamp = str "2026-01-01";
  event_type = str "input";
  source = str "io";
  user_id = some user;
  processing_time_ms = int 0;
  status_code = null;
  error_message = null;
  envelope_data = end;
  as_dict = obj end;
}

abbrev rows : Response → ℕ
rows (csv_file rs _) = length rs
rows _ = 0

abbrev two_traces : Store
two_traces = ("a", envelope "ann" ∷ []) ∷ ("b", envelope "bob" ∷ envelope "bob" ∷ []) ∷ []

abbrev bob : Fields
bob = dict (("username", str "bob") ∷ [])

abbrev calls : List Call
calls =
    record { request = delete null; trace = "b"; caller = bob }
    ∷ record { request = delete null; trace = "a"; caller = bob }
    ∷ []

deletes_own : respond_all shown manager calls two_traces ≡ ("a", envelope "ann" ∷ []) ∷ []
unfolding respond_all respond delete_trace require_owned_trace owner_id lookup erase get
deletes_own = refl

two_envelopes : envelopes_in (envelopes two_traces) ("b" ∷ []) ≡ 2
unfolding envelopes_in lookup
two_envelopes = refl

erase_law :
    (s : Store) (t j : String) → t ≢ j → envelopes (manager.delete_trace s t).1 j ≡ envelopes s j
erase_law s t j ne = ap found_or_empty (lookup-erase_ne t j s ne)

foreign : some "ann" ≢ some (owner_id shown bob)
unfolding owner_id get
foreign e = ground (arith, ap (is_user "ann") e)

bad_date :
    list_traces shown manager (λ _. none) two_traces (int 9) (int 0) (str "x") null null null bob
    ≡ err value_error
unfolding list_traces
bad_date = refl

csv_of_b :
    (export_trace shown manager (λ v. v) null two_traces "b" "csv" bob >>= λ r. ok (rows r)) ≡ ok 2
unfolding export_trace require_owned_trace owner_id lookup get
csv_of_b = refl

respond_all_kept_example :
    envelopes (respond_all shown manager calls two_traces) "a" ≡ envelope "ann" ∷ []
unfolding lookup owner_id get
respond_all_kept_example =
    respond_all_kept shown manager calls "a" two_traces erase_law (foreign, (foreign, tt))
