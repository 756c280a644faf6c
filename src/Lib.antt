-- ===== src/Lib.antt =====
-- A verification library of the orchestrator, which turns what a person says into plans, runs
-- them under policies, and shares one appliance among the assistants of a household.
--
-- Parts of the program, and the modules that model them:
--   src/orchestrator/household_resources.py: Household and its children. The scheduler's state is
--     the record Scheduler; register, submit, dispatch_next, complete and restart are functions on
--     it, with a raised exception as an err value. Lease ids are arguments. The loop of dispatch_next
--     runs over the length of the rotation, as in the source, so that no fuel is needed.
--   src/orchestrator/phase7/engine.py, phase7/providers.py: Workflow and its children. plan, approve,
--     execute, cancel, retry and replace_provider are functions on the record Engine. The digest of a
--     receipt and the generated plan ids are arguments.
--   src/orchestrator/phase1: Phase1 and its children. Memory is memory_runtime.py, Onboarding and
--     Reply are onboarding.py, Planner, Stub, StubPlan, Model and Plan are planner.py, Tools is
--     tool_runtime.py. JSON values are the type Json of Prelude.Json. The context and actuation services, urlparse,
--     Python's str of a value that is no text, json, the schema validator and the ids are arguments;
--     the inference service's answer is a function of the planner's requests so far.
--   src/orchestrator/payments: Payments and its children. Provider is providers.py, Service is
--     service.py, Metadata its copy of an instrument in a profile, Types is models.py. The vault, the
--     context service and the HMAC are arguments.
--   src/orchestrator/event_graph/store.py: EventGraph. A file is a list of lines, which are an
--     abstract type: the line that is written of an event, redacted where that is on, and the event
--     that a line gives are arguments.
--   src/orchestrator/interaction/policy_gate.py: PolicyGate. The reply of the policy service is an
--     argument, and so is whether the gate is told to fail open.
--   src/orchestrator/power_on/controller.py: PowerOn. run is a function of the services' answers;
--     Polling is the wait for the renderer, which has the number of its rounds as fuel.
--   src/router.py: Router and its children. Rules, Score and Hybrid are the strategies, Service is the
--     class Router. Float arithmetic, the hour of a time and == on values are the record Runtime of
--     Router.Runtime, with the laws of an order that is total away from NaN; an exception is an err
--     value, which Service turns into a counter.
--   src/orchestrator/companion.py, context_client.py: Companion and its children. The state of a
--     session manager and the calls that it made of other services are the record State; a method is
--     a step on it that may raise, and what it did before it raised stays done. A service's answer is
--     a function of all calls so far, an argument; so are the parts of Python that say what becomes of
--     a value of another type. Process is process_turn, Registry the tools, Memory the turns, Executor
--     and Dispatch the tool calls, Recall and Design the workflows, Downstream the other surfaces.
--   src/orchestrator/replay.py: Replay. A route is a function of the store, which is an abstract type
--     with the operations of the record Manager.
--   src/orchestrator/interaction/write_behind.py: WriteBehind and its children. The queue, the batch in
--     the worker's hand and the payloads posted are one record; an answer of the context service is a
--     function of all posts so far.
--   src/orchestrator/skills.py: Skills and its children. A handler is a step of the companion's state;
--     its calls stand in the same log as the companion's. Basic, Person, Action, Comms, Messages,
--     Dashboard and Startup are the handlers, Registered the tools that the companion is given and the
--     table of the skills.
-- Prelude holds the shared names: Boolean tests on the native numbers, lists, dicts, texts and JSON.
--
-- A plan made by Planner or Reply names memory operations and tool calls; Memory and Tools run them.
-- The proofs about a part stand beside it, in files named for what they show. Texts are taken to be
-- ASCII where the source strips, lowers or searches them. Recursion is structural; only the wait for
-- the renderer has fuel, as many rounds as quarters of a second until the deadline, and one more.
--
-- Not modelled: HTTP routes, clients, telemetry, timestamps, the manifest of power-on,
-- the voice loop, the other interaction stages and the channel ingress.
pub mod Prelude
pub mod Household
pub mod Workflow
pub mod Phase1
pub mod Payments
pub mod EventGraph
pub mod PolicyGate
pub mod PowerOn
pub mod Router
pub mod Companion
pub mod Replay
pub mod WriteBehind
pub mod Skills
