-- ===== src/Phase1/Planner.antt =====
-- phase1/planner.py: the functions the planner is made of. `hostname` stands for
-- `urlparse(url).hostname` in lower case, empty where there is none or parsing fails; `domains` is
-- the text of UNISON_PHASE1_VDI_ALLOWLIST_DOMAINS, with its default. Texts are ASCII where they
-- are stripped, lowered or matched.
use Prim.Native.Char.{code}
use Prim.Native.String
use unison_orchestrator.Prelude.{
  ℕ, String, Bool, not, ◌&&◌, ◌||◌, Option, none, some, List, [], ◌∷◌, if◌then◌else◌, map, nat_eq,
  ◌==◌, elem, any, strip, lower, is_space, starts_with, split_on,
}
use unison_orchestrator.Prelude.Json.{
  Json, null, int, str, arr, obj, Items, nil, cons, Fields, get, put, dict_or_empty, dict, is_text,
}

abbrev pub plan_step_types : List String
plan_step_types = "respond" ∷ "clarify" ∷ "tool" ∷ "memory" ∷ []

abbrev first_allowed : List String → List String → Option String
first_allowed allowed [] = none
first_allowed allowed (p ∷ ps) =
    if elem (strip p) allowed then some (strip p) else first_allowed allowed ps

-- `_coerce_enum`, on a text.
unfoldable pub coerce_text : List String → String → String
coerce_text allowed value =
    if elem value allowed
    then value
    else elim (first_allowed allowed (split_on b'|' value)) [ some p ↦ p | none ↦ value ]

-- `_coerce_enum` of a value that may be missing, as `step.get("type")` is.
unfoldable pub coerce_enum : List String → Option Json → Json
unfolding coerce_text
coerce_enum allowed (some (str s)) = str (coerce_text allowed s)
coerce_enum allowed (some v) = v
coerce_enum allowed none = null

unfoldable pub normalize_steps : Items → Items
unfolding coerce_enum
normalize_steps nil = nil
normalize_steps (cons (obj step) rest) =
    cons (obj (put "type" (coerce_enum plan_step_types (get "type" step)) step))
      (normalize_steps rest)
normalize_steps (cons v rest) = cons v (normalize_steps rest)

-- The list at a key, if there is one.
abbrev pub list_of : Option Json → Option Items
list_of (some (arr items)) = some items
list_of _ = none

-- `_normalize_plan_v1`
unfoldable pub normalize_plan : Fields → Fields
unfolding normalize_steps
normalize_plan out = elim (list_of (get "steps" out)) [
  | some steps ↦ put "steps" (arr (normalize_steps steps)) out
  | none ↦ out
]

-- The text up to the first white space.
word : String → String
word String.[] = String.[]
word (String.◌∷◌ c s) = if is_space (code c) then String.[] else (String.◌∷◌ c (word s))

-- A match of `https?://\S+` at the beginning of a text, whatever the case of its letters.
unfoldable pub url_here : String → Option String
unfolding word
url_here s =
    let w = word s in
    if (starts_with "http://" (lower w) && not (lower w == "http://"))
      || (starts_with "https://" (lower w) && not (lower w == "https://"))
    then some w
    else none

unfoldable pub find_url : String → Option String
unfolding url_here
find_url String.[] = none
find_url (String.◌∷◌ c s) =
    let later = find_url s in elim (url_here (String.◌∷◌ c s)) [ some u ↦ some u | none ↦ later ]

-- The characters `).,]}>"'`.
abbrev closes : ℕ → Bool
closes n = any (nat_eq n) (41 ∷ 46 ∷ 44 ∷ 93 ∷ 125 ∷ 62 ∷ 34 ∷ 39 ∷ [])

trim_end : String → String
trim_end String.[] = String.[]
trim_end (String.◌∷◌ c s) =
    let r = trim_end s in if closes (code c) && r == "" then String.[] else (String.◌∷◌ c r)

-- `_extract_url`
unfoldable pub extract_url : String → Option String
unfolding find_url trim_end
extract_url text = elim (find_url text) [ some u ↦ some (trim_end u) | none ↦ none ]

drop_blank : List String → List String
drop_blank [] = []
drop_blank (s ∷ ss) = if s == "" then drop_blank ss else s ∷ drop_blank ss

-- `_domain_allowlist`
unfoldable pub domain_allowlist : String → List String
unfolding drop_blank
domain_allowlist domains = drop_blank (map (λ p. lower (strip p)) (split_on b',' (strip domains)))

module _ (hostname : String → String) (domains : String) where
  -- The host is known and stands on the allowlist.
  unfoldable pub is_allowlisted : String → Bool
  unfolding domain_allowlist
  is_allowlisted url = not (hostname url == "") && elem (hostname url) (domain_allowlist domains)

  -- `_policy_decision_for_url`, as the `authorization` of a call.
  unfoldable pub authorization_of : String → Fields
  unfolding is_allowlisted
  authorization_of url =
      if is_allowlisted url
      then dict (
          ("policy_decision", str "allow")
          ∷ ("reason", str (String.◌++◌ "host allowlisted: " (hostname url)))
          ∷ [])
      else dict (
          ("policy_decision", str "confirm")
          ∷ ("reason", str "URL navigation requires confirmation")
          ∷ [])

  -- The tool call for a URL.
  abbrev pub browse_call : String → String → Fields
  browse_call call_id url = dict (
      ("tool_call_id", str call_id)
      ∷ ("tool_name", str "vdi.use_computer")
      ∷ ("args", obj (dict (("action", str "open_url") ∷ ("url", str url) ∷ [])))
      ∷ ("authorization", obj (authorization_of url))
      ∷ ("timeout_ms", int 60000)
      ∷ [])

  -- A call as `_parse_validate` leaves it: whatever a model authorized, a browse gets this decision.
  unfoldable pub harden_call : Fields → Fields
  unfolding authorization_of
  harden_call tc =
      if is_text "vdi.use_computer" (get "tool_name" tc)
      then elim (get "url" (dict_or_empty (get "args" tc))) [
        | some (str url) ↦
            if url == "" then tc else put "authorization" (obj (authorization_of url)) tc
        | _ ↦ tc
      ]
      else tc

  unfoldable pub harden_calls : Items → Items
  unfolding harden_call
  harden_calls nil = nil
  harden_calls (cons (obj tc) rest) = cons (obj (harden_call tc)) (harden_calls rest)
  harden_calls (cons v rest) = cons v (harden_calls rest)

  unfoldable pub harden : Fields → Fields
  unfolding harden_calls
  harden out = elim (list_of (get "tool_calls" out)) [
    | some calls ↦ put "tool_calls" (arr (harden_calls calls)) out
    | none ↦ out
  ]
