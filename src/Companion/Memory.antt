-- ===== src/Companion/Memory.antt =====
-- src/orchestrator/companion.py: `_remember_turn` and `_load_memory`, the turns that a session
-- keeps in the process.
use Prim.Native.String
use unison_orchestrator.Prelude.{
  ℕ, String, none, some, List, [], ◌∷◌, ◌++◌, if◌then◌else◌, ltb, length, Result, ok, err,
}
use unison_orchestrator.Prelude.Json.{
  Json, null, arr, str, obj, Items, nil, cons, Fields, get, truthy, is_text,
}
use unison_orchestrator.Prelude.Dict.{Dict, lookup, insert}
use unison_orchestrator.Companion.Types.{
  Turn, Request, Reply, CompanionError, unusable, State, Act, ◌>>=◌, ◌>>◌, return, read, change,
  value_or, py_or, text_for,
}
use unison_orchestrator.Companion.Context.{store_conversation_turn, load_conversation_messages}

-- `xs + ys`
unfoldable pub joined : Items → Items → Items
joined nil ys = ys
joined (cons x xs) ys = cons x (joined xs ys)

-- The content of the first message of the assistant.
unfoldable pub assistant_content : Items → Result CompanionError Json
assistant_content nil = ok null
assistant_content (cons (obj msg) rest) =
    let later = assistant_content rest in
    if is_text "assistant" (get "role" msg) then ok (value_or null (get "content" msg)) else later
assistant_content (cons v rest) = err unusable

-- `_first_assistant_content`
unfoldable pub first_assistant_content : Json → Result CompanionError Json
unfolding assistant_content
first_assistant_content (arr l) = assistant_content l
first_assistant_content v = if truthy v then err unusable else ok null

-- The end of a list: at most so many of its last elements.
unfoldable pub last_of {ℓ} : {A : Type ℓ} → ℕ → List A → List A
last_of n [] = []
last_of n (x ∷ xs) = let rest = last_of n xs in if ltb (length xs) n then x ∷ xs else rest

abbrev pub memory_bound : ℕ
memory_bound = 25

-- The turns of a session, with one more.
unfoldable pub remembered : Turn → List Turn → List Turn
unfolding last_of
remembered turn memory =
    let longer = memory ++ turn ∷ [] in
    if ltb memory_bound (length longer) then last_of memory_bound longer else longer

abbrev pub turns_of : String → Dict (List Turn) → List Turn
turns_of key memory = elim (lookup key memory) [ some turns ↦ turns | none ↦ [] ]

unfoldable pub messages_of : List Turn → Items
unfolding joined
messages_of [] = nil
messages_of (turn ∷ turns) = joined turn.messages (messages_of turns)

-- What is kept in the process, with one more turn under a key.
unfoldable pub remember : String → Turn → State → State
unfolding remembered
remember key turn s = record s {
  memory = insert key (remembered turn (turns_of key s.memory)) s.memory;
}

module _ (shown : Json → String) where
  -- `f"{person_id}:{session_id}"`
  abbrev pub memory_key : Json → Json → String
  memory_key person session =
      String.◌++◌ (text_for shown person) (String.◌++◌ ":" (text_for shown session))

  module _ (answer : List Request → Reply) where
    -- The turn is stored with a summary; where the summary raises, that is caught.
    unfoldable pub store_summary :
        Json → Json → Items → Fields → Result CompanionError Json → Act (Unit {0})
    store_summary person session messages response (err _) = return tt
    store_summary person session messages response (ok summary) = do
      _ ← store_conversation_turn answer person session messages response (py_or summary (str ""))
      return tt

    -- `response.get("result") or _first_assistant_content(response.get("messages"))`
    unfoldable pub summary_of : Fields → Result CompanionError Json
    unfolding first_assistant_content
    summary_of response =
        let result = value_or null (get "result" response) in
        if truthy result
        then ok result
        else first_assistant_content (value_or null (get "messages" response))

    -- `_remember_turn`
    unfoldable pub remember_turn : Json → Json → Items → Fields → Json → Act (Unit {0})
    unfolding remember store_summary summary_of
    remember_turn person session messages response event_id = do
      change (
          remember (memory_key person session)
            record { messages = messages; response = response; event_id = event_id })
      store_summary person session messages response (summary_of response)

    -- The messages of the turns that are kept, or those that the context service has.
    unfoldable pub messages_from : Json → Json → List Turn → Act Items
    unfolding messages_of
    messages_from person session [] = load_conversation_messages answer person session
    messages_from person session (turn ∷ turns) = return (messages_of (turn ∷ turns))

    -- `_load_memory`
    unfoldable pub load_memory : Json → Json → Act Items
    unfolding messages_from
    load_memory person session = do
      s ← read
      messages_from person session (turns_of (memory_key person session) s.memory)
