-- ===== src/Skills/Types.antt =====
-- src/orchestrator/skills.py: what the handlers share. The environment is read when a handler runs;
-- which clients are configured is fixed.
use Prim.Native.String
use unison_orchestrator.Prelude.{
  ℕ, String, Bool, false, Option, none, some, List, [], ◌∷◌, if◌then◌else◌, ◌==◌, Result, ok,
}
use unison_orchestrator.Prelude.Json.{
  Json, bool, int, str, obj, Items, Fields, end, get, dict, py_or, value_or, text_for,
}
use unison_orchestrator.Companion.Types.{
  CompanionError, unusable, engine_failed, value_error, runtime_error, Python, Act, as_dict,
}

pub record SkillConfig : Type 0 where
  -- UNISON_CONTEXT_GRAPH_URL or UNISON_CONTEXT_GRAPH_BASE_URL is set
  pub graph_url : Bool
  -- UNISON_RENDERER_URL, and UNISON_EXPERIENCE_RENDERER_URL or its host and port
  pub renderer_url : Bool
  pub experience_url : Bool
  -- the clients that are there
  pub capability : Bool
  pub actuation : Bool
  pub consent : Bool
  -- `os.getenv("UNISON_LOCALE_HINT") or os.getenv("LANG") or ""`
  pub locale : String
  -- `uuid4`, for an action without an id
  pub new_action : String
  -- `list` of the set of some texts
  pub listed_set : List String → Items

-- `envelope.get("payload", {})`, of which the handler reads keys
abbrev pub payload_of : Fields → Result CompanionError Fields
payload_of envelope = as_dict (value_or (obj end) (get "payload" envelope))

-- `envelope.get("payload", {}) or {}`
abbrev pub payload_or_empty : Fields → Result CompanionError Fields
payload_or_empty envelope = as_dict (py_or (value_or (obj end) (get "payload" envelope)) (obj end))

-- A text that is not empty.
abbrev pub name_of : Option Json → Option String
name_of (some (str s)) = if s == "" then none else some s
name_of _ = none

abbrev pub refusal : String → Fields
refusal e = dict (("ok", bool false) ∷ ("error", str e) ∷ [])

-- `d or {}`, of which the handler reads keys
abbrev pub dict_in : Option Json → Result CompanionError Fields
dict_in (some v) = as_dict (py_or v (obj end))
dict_in none = ok end

-- `try: ... except Exception`: what was done stays done.
unfoldable pub attempt {ℓ} : {A : Type ℓ} → Act A → Act (Result CompanionError A)
attempt m s = let (r, t) = m s in (ok r, t)

module _ (python : Python) where
  -- `f"context error {status}"`
  abbrev pub error_with : String → ℕ → String
  error_with e status = String.◌++◌ e (python.shown (int status))

  -- `str(exc)`
  abbrev pub text_of_error : CompanionError → String
  text_of_error unusable = python.complaint
  text_of_error (engine_failed body) = text_for python.shown body
  text_of_error (value_error e) = e
  text_of_error (runtime_error e) = e
