-- ===== src/Replay.antt =====
-- src/orchestrator/replay.py: the routes of the replay store. The store, its manager and the envelopes
-- are unison_common's: the record Manager has the calls that the routes make of them. The claims
-- of the caller are a dict; what FastAPI checks before a route is called, the roles among it, is
-- left out. The content of a file is given before it is written as JSON or CSV.
pub mod Owned
mod Tests
use Prim.Native.String
use unison_orchestrator.Prelude.{
  ℕ, ◌+◌, String, Bool, true, false, Option, none, some, List, [], ◌∷◌, map, if◌then◌else◌, length,
  ◌==◌, Result, ok, err, ◌>>=◌,
}
use unison_orchestrator.Prelude.Json.{
  Json, null, int, str, arr, obj, Fields, end, get, truthy, has_truthy, to_items, dict, py_or,
  value_or, text_for,
}

-- The attributes of an envelope that the routes read.
pub record Envelope : Type 0 where
  pub envelope_id : Json
  pub trace_id : Json
  pub correlation_id : Json
  -- `timestamp.isoformat()`
  pub timestamp : Json
  pub event_type : Json
  pub source : Json
  pub user_id : Option String
  pub processing_time_ms : Json
  pub status_code : Json
  pub error_message : Json
  pub envelope_data : Fields
  -- `to_dict()`
  pub as_dict : Json

-- The arguments of `filter_traces`; none for one that the call leaves out.
pub record TraceFilter : Type 0 where
  pub filter_user : String
  pub start_date : Option (Option Json)
  pub end_date : Option (Option Json)
  pub status : Option Json
  pub intent : Option Json
  pub limit : Json
  pub offset : Option Json

pub record Manager (Store : Type 0) : Type 0 where
  pub get_envelopes_by_trace : Store → String → List Envelope
  pub filter_traces : Store → TraceFilter → List String × ℕ
  pub get_trace_summary : Store → String → Fields
  pub delete_trace : Store → String → Bool × Store

pub data ReplayError : Type 0 where
  -- `HTTPException`, with its status and detail
  http_exception : ℕ → String → ReplayError
  -- `fromisoformat` raises.
  value_error : ReplayError

pub data Response : Type 0 where
  body : Fields → Response
  csv_file : List Fields → String → Response
  json_file : Fields → String → Response

abbrev pub not_found : String → ReplayError
not_found trace_id = http_exception 404 (String.◌++◌ "Trace " (String.◌++◌ trace_id " not found"))

-- `envelopes[0].user_id == owner`
abbrev pub is_user : String → Option String → Bool
is_user owner none = false
is_user owner (some user) = user == owner

-- The row of an envelope in a CSV file.
abbrev pub csv_row : (Json → Json) → Envelope → Fields
csv_row dumps env = dict (
    ("envelope_id", env.envelope_id)
    ∷ ("trace_id", env.trace_id)
    ∷ ("correlation_id", env.correlation_id)
    ∷ ("timestamp", env.timestamp)
    ∷ ("event_type", env.event_type)
    ∷ ("source", env.source)
    ∷ ("user_id", elim (env.user_id) [ none ↦ str "" | some user ↦ str user ])
    ∷ ("processing_time_ms", py_or env.processing_time_ms (str ""))
    ∷ ("status_code", py_or env.status_code (str ""))
    ∷ ("error_message", py_or env.error_message (str ""))
    ∷ ("intent", value_or (str "") (get "intent" env.envelope_data))
    ∷ ("payload", dumps (value_or (obj end) (get "payload" env.envelope_data)))
    ∷ [])

-- `datetime.fromisoformat(d) if d else None`
abbrev pub parsed_date : (String → Option Json) → Json → Result ReplayError (Option Json)
parsed_date fromisoformat (str s) =
    if s == "" then ok none else elim (fromisoformat s) [ none ↦ err value_error | d ↦ ok d ]
parsed_date fromisoformat _ = ok none

-- The envelopes of the traces with these ids, in number.
unfoldable pub envelopes_in : (String → List Envelope) → List String → ℕ
envelopes_in find [] = 0
envelopes_in find (t ∷ ts) = length (find t) + envelopes_in find ts

-- The summaries that are found.
unfoldable pub found_summaries : (String → Fields) → List String → List Json
found_summaries find [] = []
found_summaries find (t ∷ ts) =
    let rest = found_summaries find ts in
    if has_truthy (get "found" (find t)) then obj (find t) ∷ rest else rest

abbrev pub summary_of : Fields → String → Result ReplayError Fields
summary_of summary trace_id =
    if has_truthy (get "found" summary) then ok summary else err (not_found trace_id)

module _ (shown : Json → String) where
  unfoldable pub owner_id : Fields → String
  owner_id current_user = text_for shown (
      py_or (value_or null (get "person_id" current_user)) (
        py_or (value_or null (get "principal_id" current_user))
          (py_or (value_or null (get "username" current_user)) (str ""))))

  module _ {Store : Type 0} (m : Manager Store) where
    unfoldable pub require_owned_trace :
        Store → String → Fields → Result ReplayError (List Envelope)
    require_owned_trace store trace_id current_user =
        elim (m.get_envelopes_by_trace store trace_id) [
          | [] ↦ err (not_found trace_id)
          | env ∷ envs ↦
              if is_user (owner_id current_user) env.user_id
              then ok (env ∷ envs)
              else err (not_found trace_id)
        ]

    unfoldable pub get_trace_summary : Store → String → Fields → Result ReplayError Response
    get_trace_summary store trace_id current_user = do
      _ ← require_owned_trace store trace_id current_user
      summary ← summary_of (m.get_trace_summary store trace_id) trace_id
      ok (body summary)

    unfoldable pub replay_trace :
        Json → Store → String → Fields → Json → Result ReplayError Response
    replay_trace now store trace_id current_user replay_options = do
      envelopes ← require_owned_trace store trace_id current_user
      summary ← summary_of (m.get_trace_summary store trace_id) trace_id
      ok (
          body (
            dict (
              ("status", str "replayed")
              ∷ ("trace_id", str trace_id)
              ∷ ("envelopes", arr (to_items (map (λ (env : Envelope). env.as_dict) envelopes)))
              ∷ ("summary", obj summary)
              ∷ ("replay_options", replay_options)
              ∷ ("requested_by", value_or null (get "username" current_user))
              ∷ ("replay_time", now)
              ∷ [])))

    abbrev pub deleted_body : Json → String → Fields → Fields
    deleted_body now trace_id current_user = dict (
        ("status", str "deleted")
        ∷ ("trace_id", str trace_id)
        ∷ ("deleted_by", value_or null (get "username" current_user))
        ∷ ("deleted_at", now)
        ∷ [])

    unfoldable pub delete_trace :
        Json → Store → String → Fields → Result ReplayError Response × Store
    delete_trace now store trace_id current_user =
        elim (require_owned_trace store trace_id current_user >>= λ _.
        summary_of (m.get_trace_summary store trace_id) trace_id) [
          | err e ↦ (err e, store)
          | ok _ ↦
              (let (success, left) = m.delete_trace store trace_id in
                if success
                then (ok (body (deleted_body now trace_id current_user)), left)
                else (err (http_exception 500 "Failed to delete trace"), left))
        ]

    unfoldable pub export_trace :
        (Json → Json) → Json → Store → String → String → Fields → Result ReplayError Response
    export_trace dumps now store trace_id format current_user = do
      envelopes ← require_owned_trace store trace_id current_user
      summary ← summary_of (m.get_trace_summary store trace_id) trace_id
      if format == "csv"
          then ok (csv_file (map (csv_row dumps) envelopes) trace_id)
          else ok (
              json_file
                (dict (
                  ("trace_id", str trace_id)
                  ∷ ("exported_at", now)
                  ∷ ("exported_by", value_or null (get "username" current_user))
                  ∷ ("events_count", int (length envelopes))
                  ∷ ("events", arr (to_items (map (λ (env : Envelope). env.as_dict) envelopes)))
                  ∷ ("summary", obj summary)
                  ∷ []))
                trace_id)

    -- The summaries of the caller's traces. The user that the request asks for is not looked at.
    unfoldable pub list_traces :
        (String → Option Json)
        → Store
        → (limit offset start_date end_date status intent : Json) → Fields
        → Result ReplayError Response
    list_traces fromisoformat store limit offset start_date end_date status intent current_user = do
      start_dt ← parsed_date fromisoformat start_date
      end_dt ← parsed_date fromisoformat end_date
      let (ids, total) = m.filter_traces store (record {
        filter_user = owner_id current_user;
        start_date = some start_dt;
        end_date = some end_dt;
        status = some status;
        intent = some intent;
        limit = limit;
        offset = some offset;
      })
      let traces = found_summaries (m.get_trace_summary store) ids
      ok (
          body (
            dict (
              ("traces", arr (to_items traces))
              ∷ ("total", int total)
              ∷ ("limit", limit)
              ∷ ("offset", offset)
              ∷ ("filtered", int (length traces))
              ∷ (
                "filters",
                obj (
                    dict (
                      ("user_id", str (owner_id current_user))
                      ∷ ("start_date", start_date)
                      ∷ ("end_date", end_date)
                      ∷ ("status", status)
                      ∷ ("intent", intent)
                      ∷ [])),
              )
              ∷ [])))

    -- A filter that names the owner and a limit only.
    abbrev all_of : String → TraceFilter
    all_of owner = record {
      filter_user = owner;
      start_date = none;
      end_date = none;
      status = none;
      intent = none;
      limit = int 50000;
      offset = none;
    }

    unfoldable pub replay_statistics : Json → Store → Fields → Response
    replay_statistics now store current_user =
        let (ids, count) = m.filter_traces store (all_of (owner_id current_user)) in
        body (
          dict (
            (
              "statistics",
              obj (
                  dict (
                    ("total_traces", int count)
                    ∷ ("total_envelopes", int (envelopes_in (m.get_envelopes_by_trace store) ids))
                    ∷ [])),
            )
            ∷ ("timestamp", now)
            ∷ []))
