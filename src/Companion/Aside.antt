-- ===== src/Companion/Aside.antt =====
-- src/orchestrator/companion.py: the steps of a turn that are no tool's keep what calls that are no acts keep.
use unison_orchestrator.Prelude.{
  String, false, Option, none, some, List, [], ◌∷◌, Result, ok, err, ◌≡◌,
}
use unison_orchestrator.Prelude.Json.{
  Json, null, bool, int, negative, float, str, arr, obj, Items, nil, cons, Fields,
}
use unison_orchestrator.Companion.Types.{
  Turn, ToolDescriptor, Request, Reply, CompanionError, Config, Python, change, send,
}
use unison_orchestrator.Companion.Registry.{
  published, keep_answered, keep_named, refresh_from_context_graph, refresh_from_mcp,
  publish_to_context_graph, refresh, register_mcp_tools, keep_capabilities, keep_servers,
}
use unison_orchestrator.Companion.Context.{store_conversation_turn, load_conversation_messages}
use unison_orchestrator.Companion.Memory.{
  remember, store_summary, messages_from, remember_turn, load_memory,
}
use unison_orchestrator.Companion.Downstream.{Surface, spoken, emit_downstream, log_context_graph}
use unison_orchestrator.Companion.Kept.{
  Keeps, next-Keeps, then-Keeps, if-Keeps, return-Keeps, raise-Keeps, lift-Keeps, read-Keeps,
  send-Keeps, change-Keeps,
}
use unison_orchestrator.Companion.Guard.{is_act}

pub ruleset steps =
    (next-Keeps, then-Keeps, if-Keeps, return-Keeps, raise-Keeps, lift-Keeps, read-Keeps)

module _ (answer : List Request → Reply) (P : List Request → Type 0)
    (send-P : (q : Request) → is_act q ≡ false → Keeps P (send answer q)) where
  keep_named-Keeps : (v : Json) (t : String → ToolDescriptor) → Keeps P (keep_named v t)
  unfolding keep_named
  keep_named-Keeps (str s) t = if-Keeps _ (return-Keeps _) (change-Keeps _ (λ s p. p))
  keep_named-Keeps null t = search steps
  keep_named-Keeps (bool _) t = search steps
  keep_named-Keeps (int _) t = search steps
  keep_named-Keeps (negative _) t = search steps
  keep_named-Keeps (float _) t = search steps
  keep_named-Keeps (arr _) t = search steps
  keep_named-Keeps (obj _) t = search steps

  register_mcp_tools-Keeps : (id : Json) (l : Items) → Keeps P (register_mcp_tools id l)
  unfolding register_mcp_tools
  register_mcp_tools-Keeps id nil = return-Keeps _
  register_mcp_tools-Keeps id (cons (obj d) l) =
      then-Keeps (search keep_named-Keeps) (register_mcp_tools-Keeps id l)
  register_mcp_tools-Keeps id (cons _ l) = register_mcp_tools-Keeps id l

  keep_capabilities-Keeps : (l : Items) → Keeps P (keep_capabilities l)
  unfolding keep_capabilities
  keep_capabilities-Keeps nil = return-Keeps _
  keep_capabilities-Keeps (cons (obj d) l) =
      then-Keeps (search keep_named-Keeps) (keep_capabilities-Keeps l)
  keep_capabilities-Keeps (cons _ l) = keep_capabilities-Keeps l

  keep_servers-Keeps : (l : Items) → Keeps P (keep_servers l)
  unfolding keep_servers
  keep_servers-Keeps nil = return-Keeps _
  keep_servers-Keeps (cons v l) = next-Keeps (lift-Keeps _) (λ server.
      next-Keeps (lift-Keeps _)
        (λ tools. then-Keeps (register_mcp_tools-Keeps _ tools) (keep_servers-Keeps l)))

  module _ (config : Config) where
    refresh_from_mcp-Keeps : Keeps P (refresh_from_mcp answer config)
    unfolding refresh_from_mcp is_act
    refresh_from_mcp-Keeps = search (steps, send-P, keep_servers-Keeps)

    keep_answered-Keeps : (o : Option Fields) → Keeps P (keep_answered o)
    unfolding keep_answered
    keep_answered-Keeps none = return-Keeps _
    keep_answered-Keeps (some body) = next-Keeps (lift-Keeps _) (search keep_capabilities-Keeps)

    refresh_from_context_graph-Keeps : Keeps P (refresh_from_context_graph answer config)
    unfolding refresh_from_context_graph is_act
    refresh_from_context_graph-Keeps = search (steps, send-P, keep_answered-Keeps)

    published-Keeps : (names : List String) → Keeps P (change (published names))
    published-Keeps names = change-Keeps _ (λ s p. p)

    publish_to_context_graph-Keeps : Keeps P (publish_to_context_graph answer config)
    unfolding publish_to_context_graph is_act
    publish_to_context_graph-Keeps = search (steps, send-P, published-Keeps)

    -- Renewing the tools makes no act.
    pub refresh-Keeps : Keeps P (refresh answer config)
    unfolding refresh
    refresh-Keeps = search (
      steps, refresh_from_mcp-Keeps, refresh_from_context_graph-Keeps,
      publish_to_context_graph-Keeps,
    )

  store_conversation_turn-Keeps :
      (p s : Json) (m : Items) (r : Fields) (t : Json)
      → Keeps P (store_conversation_turn answer p s m r t)
  unfolding store_conversation_turn is_act
  store_conversation_turn-Keeps p s m r t = search send-P

  load_conversation_messages-Keeps : (p s : Json) → Keeps P (load_conversation_messages answer p s)
  unfolding load_conversation_messages is_act
  load_conversation_messages-Keeps p s = search (steps, send-P)

  module _ (shown : Json → String) where
    store_summary-Keeps :
        (p s : Json) (m : Items) (r : Fields) (t : Result CompanionError Json)
        → Keeps P (store_summary shown answer p s m r t)
    unfolding store_summary
    store_summary-Keeps p s m r (ok t) = search (steps, store_conversation_turn-Keeps)
    store_summary-Keeps p s m r (err e) = return-Keeps _

    messages_from-Keeps :
        (p s : Json) (turns : List Turn) → Keeps P (messages_from shown answer p s turns)
    unfolding messages_from
    messages_from-Keeps p s [] = load_conversation_messages-Keeps p s
    messages_from-Keeps p s (_ ∷ _) = return-Keeps _

    pub load_memory-Keeps : (p s : Json) → Keeps P (load_memory shown answer p s)
    unfolding load_memory
    load_memory-Keeps p s = search (steps, messages_from-Keeps)

    remember-Keeps : (key : String) (turn : Turn) → Keeps P (change (remember key turn))
    unfolding remember
    remember-Keeps key turn = change-Keeps _ (λ s p. p)

    pub remember_turn-Keeps :
        (p s : Json) (m : Items) (r : Fields) (e : Json)
        → Keeps P (remember_turn shown answer p s m r e)
    unfolding remember_turn
    remember_turn-Keeps p s m r e = search (steps, remember-Keeps, store_summary-Keeps)

  module _ (python : Python) (config : Config) where
    spoken-Keeps : (turn : Surface) → Keeps P (spoken python answer config turn)
    unfolding spoken is_act
    spoken-Keeps turn = search (steps, send-P)

    pub emit_downstream-Keeps :
        (turn : Surface) → Keeps P (emit_downstream python answer config turn)
    unfolding emit_downstream is_act
    emit_downstream-Keeps turn = search (steps, send-P, spoken-Keeps)

    pub log_context_graph-Keeps :
        (turn : Surface) → Keeps P (log_context_graph python answer config turn)
    unfolding log_context_graph is_act
    log_context_graph-Keeps turn = search (steps, send-P)
