-- ===== src/Payments/Metadata.antt =====
-- payments/service.py, `_persist_instrument_metadata`: an instrument in the profile of its person.
-- The context service is a state C: a read gives its reply, or nothing where it raises, and a write
-- gives the next state. What raises in between is caught, and then nothing is written.
use unison_orchestrator.Prelude.{
  ℕ, String, Bool, Option, none, some, [], ◌∷◌, if◌then◌else◌, ◌&&◌, nat_eq,
}
use unison_orchestrator.Prelude.Json.{
  append, items_or_empty, Json, null, str, arr, obj, Items, nil, cons, Fields, end, get, put, dict,
  dict_or_empty, is_text, value_or, py_or,
}
use unison_orchestrator.Payments.Types.{PaymentInstrument}

-- The context client's reply: `ok`, status and body.
abbrev pub ContextReply : Type 0
ContextReply = Bool × ℕ × Json

abbrev text_or_null : Option String → Json
text_or_null (some s) = str s
text_or_null none = null

-- What is shown of an instrument, and where its token is.
unfoldable pub instrument_entry : PaymentInstrument → Fields
instrument_entry i = dict (
    ("instrument_id", str i.instrument_id)
    ∷ ("provider", str i.provider)
    ∷ ("kind", str i.kind)
    ∷ ("display_name", text_or_null i.display_name)
    ∷ ("brand", text_or_null i.brand)
    ∷ ("last4", text_or_null i.last4)
    ∷ ("expiry", text_or_null i.expiry)
    ∷ ("handle", text_or_null i.handle)
    ∷ ("vault_key", text_or_null i.vault_key)
    ∷ ("created_at", i.created_at)
    ∷ [])

-- A dict, in front of the others that are kept.
abbrev pub keep_unless : Bool → Fields → Option Items → Option Items
keep_unless same d none = none
keep_unless same d (some rest) = some (if same then rest else cons (obj d) rest)

-- `[i for i in instruments if i.get("instrument_id") != id]`; an item that is no dict raises
unfoldable pub other_instruments : String → Items → Option Items
other_instruments id nil = some nil
other_instruments id (cons (obj d) rest) =
    keep_unless (is_text id (get "instrument_id" d)) d (other_instruments id rest)
other_instruments id (cons v rest) = none

-- The instruments that a profile lists.
abbrev pub instruments_in : Fields → Items
instruments_in profile = items_or_empty (get "instruments" (dict_or_empty (get "payments" profile)))

-- A profile that lists these instruments.
abbrev pub list_instruments : Fields → Items → Fields
list_instruments profile l =
    put "payments" (obj (put "instruments" (arr l) (dict_or_empty (get "payments" profile))))
      profile

-- The profile with the instrument, if nothing raises.
unfoldable pub with_instrument : PaymentInstrument → Fields → Option Fields
unfolding other_instruments instrument_entry
with_instrument i profile = elim (other_instruments i.instrument_id (instruments_in profile)) [
  | none ↦ none
  | some others ↦ some (list_instruments profile (append others (obj (instrument_entry i))))
]

-- `profile.get` raises on what is no dict.
abbrev as_profile : Json → Option Fields
as_profile (obj d) = some d
as_profile _ = none

abbrev body_profile : Json → Option Fields
body_profile (obj body) = as_profile (py_or (value_or null (get "profile" body)) (obj end))
body_profile _ = some end

-- The profile of a reply; that of a read that failed is empty.
unfoldable pub profile_read : ContextReply → Option Fields
profile_read (success, status, body) =
    if success && nat_eq status 200 then body_profile body else some end

module _ {C : Type 0} (context_get : C → String → Option ContextReply)
    (context_post : C → String → Fields → C) where
  -- What is written, if anything is.
  abbrev write_profile : C → String → Option Fields → C
  write_profile c person (some profile) = context_post c person profile
  write_profile c person none = c

  abbrev pub profile_to_write : PaymentInstrument → Option ContextReply → Option Fields
  profile_to_write i none = none
  profile_to_write i (some reply) = elim (profile_read reply) [
    | some profile ↦ with_instrument i profile
    | none ↦ none
  ]

  -- `_persist_instrument_metadata`
  unfoldable pub persist_instrument : PaymentInstrument → Option C → Option C
  unfolding profile_read with_instrument
  persist_instrument i none = none
  persist_instrument i (some c) =
      some (write_profile c i.person_id (profile_to_write i (context_get c i.person_id)))
