-- ===== src/Phase1/Memory.antt =====
-- phase1/memory_runtime.py: memory operations against the context service. The service, and
-- Python's `str` of a value that is no text, are arguments. A reply is the client's triple.
use unison_orchestrator.Prelude.{
  ℕ, String, Bool, true, false, not, ◌&&◌, ◌||◌, Option, none, some, List, [], ◌∷◌, ◌++◌,
  if◌then◌else◌, ltb, ◌==◌,
}
use unison_orchestrator.Prelude.Json.{
  Json, null, bool, int, str, arr, obj, Items, nil, cons, Fields, end, field, get, put, pop,
  dict_or_empty, dict, truthy, is_text,
}

-- The dict at a key, if one is there.
abbrev pub dict_of : Option Json → Option Fields
dict_of (some (obj d)) = some d
dict_of _ = none

-- `_deep_merge`: a dict in a dict is merged, any other value replaces. The lookup in `base` is
-- one in `out`, since the keys of a patch are distinct.
unfoldable pub deep_merge : Fields → Fields → Fields
deep_merge base end = base
deep_merge base (field k (obj p) rest) = elim (dict_of (get k base)) [
  | some b ↦ deep_merge (put k (obj (deep_merge b p)) base) rest
  | none ↦ deep_merge (put k (obj p) base) rest
]
deep_merge base (field k v rest) = deep_merge (put k v base) rest

pub record MemoryOpResult : Type 0 where
  pub op_id : String
  pub ok : Bool
  pub result : Fields
  pub error : Option String

-- The client's reply: `ok`, status and body.
abbrev pub Reply : Type 0
Reply = Bool × ℕ × Json

-- The context service, and the calls of `invalidate_context_cache` so far.
pub record World (S : Type 0) : Type 0 where
  pub service : S
  pub invalidated : List String

-- `isinstance(body, dict) and body.get("ok") is True and isinstance(body.get("profile"), dict)`
abbrev accepted_body : Json → Bool
accepted_body (obj b) = elim (get "ok" b) [ some (bool true) ↦ true | _ ↦ false ]
accepted_body _ = false

abbrev body_profile : Json → Fields
body_profile (obj b) = dict_or_empty (get "profile" b)
body_profile _ = end

unfoldable pub read_profile : Reply → Fields
read_profile (ok, status, body) = if ok && accepted_body body then body_profile body else end

abbrev pub or_null : Option Json → Json
or_null (some v) = v
or_null none = null

-- `str(v or "")`, given `str` of a value that is no text.
abbrev pub text_or_empty : (Json → String) → Option Json → String
text_or_empty py_str (some (str s)) = s
text_or_empty py_str (some v) = if truthy v then py_str v else ""
text_or_empty py_str none = ""

abbrev pub failed : String → String → Fields → MemoryOpResult
failed op_id error result = record {
  op_id = op_id;
  ok = false;
  result = result;
  error = some error;
}

abbrev pub is_success : Bool → ℕ → Bool
is_success ok status = ok && ltb status 400

-- The body of a write, `body_w or {}`.
abbrev body_or_empty : Json → Json
body_or_empty body = if truthy body then body else obj end

-- `for k in keys: if isinstance(k, str): d.pop(k, None)`
unfoldable pub pop_all : Items → Fields → Fields
pop_all nil d = d
pop_all (cons (str k) ks) d = pop_all ks (pop k d)
pop_all (cons v ks) d = pop_all ks d

-- The profile that an upsert writes.
unfoldable pub upserted : Bool → Fields → Fields → Fields
upserted to_profile profile payload =
    if to_profile
    then deep_merge profile payload
    else put "preferences" (obj (deep_merge (dict_or_empty (get "preferences" profile)) payload))
        profile

-- The profile that a delete writes.
unfoldable pub deleted : Bool → Fields → Items → Fields
deleted to_profile profile keys =
    if to_profile
    then pop_all keys profile
    else put "preferences" (obj (pop_all keys (dict_or_empty (get "preferences" profile)))) profile

-- A list and a dict have no hash, so they cannot be looked up in a set.
abbrev pub is_hashable : Option Json → Bool
is_hashable (some (arr _)) = false
is_hashable (some (obj _)) = false
is_hashable _ = true

-- What an operation asks for, once its target is known.
pub data Request : Type 0 where
  query upsert delete other : Request

abbrev pub request_of : Option Json → Request
request_of op =
    if is_text "query" op
    then query
    else if is_text "upsert" op
    then upsert
    else if is_text "delete" op
    then delete
    else other

module _ {S : Type 0} (py_str : Json → String) (fetch : S → String → Reply)
    (post : S → String → Fields → Reply × S) where
  -- `clients.context.post(...)`, the invalidation, and the result.
  unfoldable pub write_back :
      String → String → Option Json → Fields → World S → MemoryOpResult × World S
  write_back op_id person target profile w =
      let ((ok, status, body), s) = post w.service person profile in
      (
        record {
          op_id = op_id;
          ok = is_success ok status;
          result = dict (
              ("status", int status)
              ∷ ("body", body_or_empty body)
              ∷ ("target", or_null target)
              ∷ []);
          error = if is_success ok status then none else some "write_failed";
        },
        record {
          service = s;
          invalidated =
              if is_success ok status then w.invalidated ++ person ∷ [] else w.invalidated;
        },
      )

  -- `payload.get("keys")`, which has to be a list.
  unfoldable pub delete_keys :
      String
      → String
      → Option Json
      → Bool
      → Fields
      → Option Json
      → World S
      → MemoryOpResult × World S
  unfolding write_back
  delete_keys op_id person target to_profile profile (some (arr keys)) w =
      write_back op_id person target (deleted to_profile profile keys) w
  delete_keys op_id person target to_profile profile _ w = (
    failed op_id "invalid_payload"
        (dict (("expected", obj (dict (("keys", arr (cons (str "...") nil)) ∷ []))) ∷ [])),
    w,
  )

  -- The operation on a known target.
  unfoldable pub perform :
      Request → String → String → Fields → Option Json → World S → MemoryOpResult × World S
  unfolding write_back delete_keys
  perform query op_id person op target w =
      let (ok, status, body) = fetch w.service person in
      let profile = read_profile (ok, status, body) in
      (
        record {
          op_id = op_id;
          ok = true;
          result =
              if is_text "profile" target
              then dict (("profile", obj profile) ∷ ("status", int status) ∷ [])
              else dict (
                  ("preferences", obj (dict_or_empty (get "preferences" profile)))
                  ∷ ("status", int status)
                  ∷ []);
          error = none;
        },
        w,
      )
  perform upsert op_id person op target w =
      write_back op_id person target
        (upserted (is_text "profile" target) (read_profile (fetch w.service person))
          (dict_or_empty (get "payload" op)))
        w
  perform delete op_id person op target w =
      delete_keys op_id person target (is_text "profile" target)
        (read_profile (fetch w.service person)) (get "keys" (dict_or_empty (get "payload" op))) w
  perform other op_id person op target w =
      (failed op_id "unknown_op" (dict (("op", or_null (get "op" op)) ∷ [])), w)

  -- A result is returned.
  abbrev pub returned : MemoryOpResult × World S → Option MemoryOpResult × World S
  returned (result, w) = (some result, w)

  -- `Phase1MemoryRuntime.execute`, no result where it raises. `configured` says that there are
  -- clients.
  unfoldable pub execute : Fields → Bool → Option String → World S → Option MemoryOpResult × World S
  unfolding perform
  execute op configured person w =
      let op_id = text_or_empty py_str (get "op_id" op) in
      let target = get "target" op in
      if not configured
      then (some (failed op_id "clients_not_configured" end), w)
      else elim person [
        | none ↦ (some (failed op_id "missing_person_id" end), w)
        | some p ↦
            if p == ""
            then (some (failed op_id "missing_person_id" end), w)
            else if is_text "profile" target || is_text "preferences" target
            then returned (perform (request_of (get "op" op)) op_id p op target w)
            else if is_hashable target
            then (some (failed op_id "not_available" (dict (("target", or_null target) ∷ []))), w)
            else (none, w)
      ]
