-- ===== src/Replay/Owned.antt =====
-- src/orchestrator/replay.py: what the routes of a trace do for callers that do not own it.
use mathlib.Core.Path.{subst}
use unison_orchestrator.Prelude.{
  String, false, Option, none, some, List, [], ◌∷◌, ◌==◌, eq_iff, Result, err, ◌>>=◌, arith, ◌≡◌,
  ◌≢◌, ◌⊎◌, Result-cases, refl, sym, ap, ◌∙◌, All, inl, inr, Bool-cases,
}
use unison_orchestrator.Prelude.Json.{Json, Fields}
use unison_orchestrator.Replay.{
  Envelope, Manager, ReplayError, Response, not_found, is_user, owner_id, require_owned_trace,
  get_trace_summary, replay_trace, delete_trace, export_trace, summary_of,
}

-- A request about one trace.
pub data Request : Type 0 where
  summary : Request
  replay : (now options : Json) → Request
  delete : (now : Json) → Request
  export : (dumps : Json → Json) → (now : Json) → (format : String) → Request

-- A request, with the trace it is about and the claims of its caller.
pub record Call : Type 0 where
  pub request : Request
  pub trace : String
  pub caller : Fields

-- The user of the trace's first envelope.
abbrev pub trace_user : List Envelope → Option String
trace_user [] = none
trace_user (env ∷ _) = env.user_id

is_user_no : (owner : String) (u : Option String) → u ≢ some owner → is_user owner u ≡ false
is_user_no owner none h = refl
is_user_no owner (some user) h = ground (arith, eq_iff user owner, h)

module _ (shown : Json → String) {Store : Type 0} (m : Manager Store) where
  unfoldable pub respond : Request → String → Fields → Store → Result ReplayError Response × Store
  respond summary t user s = (get_trace_summary shown m s t user, s)
  respond (replay now options) t user s = (replay_trace shown m now s t user options, s)
  respond (delete now) t user s = delete_trace shown m now s t user
  respond (export dumps now format) t user s = (export_trace shown m dumps now s t format user, s)

  -- The store after some calls.
  unfoldable pub respond_all : List Call → Store → Store
  respond_all [] s = s
  respond_all (c ∷ cs) s = respond_all cs (respond c.request c.trace c.caller s).1

  refused_at :
      (user : Fields) (t : String) (s : Store) (envs : List Envelope)
      → m.get_envelopes_by_trace s t ≡ envs
      → trace_user envs ≢ some (owner_id shown user)
      → require_owned_trace shown m s t user ≡ err (not_found t)
  unfolding require_owned_trace
  refused_at user t s [] e h = rw (require_owned_trace, e) refl
  refused_at user t s (env ∷ envs) e h =
      rw (require_owned_trace, e, is_user_no (owner_id shown user) env.user_id h) refl

  refused :
      (user : Fields) (t : String) (s : Store)
      → trace_user (m.get_envelopes_by_trace s t) ≢ some (owner_id shown user)
      → require_owned_trace shown m s t user ≡ err (not_found t)
  refused user t s h = refused_at user t s (m.get_envelopes_by_trace s t) refl h

  -- Whatever is asked about a trace by a caller who is not the user of its first envelope: the
  -- answer is that the trace is not found, and the store stays as it is.
  pub respond_foreign :
      (request : Request) (t : String) (user : Fields) (s : Store)
      → trace_user (m.get_envelopes_by_trace s t) ≢ some (owner_id shown user)
      → respond request t user s ≡ (err (not_found t), s)
  unfolding respond get_trace_summary replay_trace delete_trace export_trace
  respond_foreign summary t user s h = rw (get_trace_summary, refused user t s h) refl
  respond_foreign (replay now options) t user s h = rw (replay_trace, refused user t s h) refl
  respond_foreign (delete now) t user s h = rw (delete_trace, refused user t s h) refl
  respond_foreign (export dumps now format) t user s h = rw (export_trace, refused user t s h) refl

  -- What a deletion leaves is what was there, or what the manager's deletion leaves.
  delete_trace_left :
      (now : Json) (t : String) (user : Fields) (s : Store)
      → ((delete_trace shown m now s t user).1 ≡ s)
        ⊎ ((delete_trace shown m now s t user).1 ≡ (m.delete_trace s t).1)
  unfolding delete_trace
  delete_trace_left now t user s =
      elim (Result-cases
        (require_owned_trace shown m s t user >>= λ _. summary_of (m.get_trace_summary s t) t)) [
          | inl (_, e) ↦ inr (elim (Bool-cases (m.delete_trace s t).0) [
            | inl b ↦ rw (delete_trace, e, b) refl
            | inr b ↦ rw (delete_trace, e, b) refl
          ])
          | inr (_, e) ↦ inl (rw (delete_trace, e) refl)
        ]

  -- A request about another trace leaves the envelopes of this one, where the store deletes no more
  -- than it is told.
  kept_other :
      (request : Request) (t j : String) (user : Fields) (s : Store)
      → ((s : Store) (t j : String)
          → t ≢ j
          → m.get_envelopes_by_trace (m.delete_trace s t).1 j ≡ m.get_envelopes_by_trace s j)
      → t ≢ j
      → m.get_envelopes_by_trace (respond request t user s).1 j ≡ m.get_envelopes_by_trace s j
  unfolding respond
  kept_other summary t j user s law ne = refl
  kept_other (replay now options) t j user s law ne = refl
  kept_other (delete now) t j user s law ne = elim (delete_trace_left now t user s) [
    | inl e ↦ ap (λ x. m.get_envelopes_by_trace x j) e
    | inr e ↦ ap (λ x. m.get_envelopes_by_trace x j) e ∙ law s t j ne
  ]
  kept_other (export dumps now format) t j user s law ne = refl

  -- A call by someone who is not the user of a trace leaves its envelopes as they are.
  kept :
      (c : Call) (j : String) (s : Store)
      → ((s : Store) (t j : String)
          → t ≢ j
          → m.get_envelopes_by_trace (m.delete_trace s t).1 j ≡ m.get_envelopes_by_trace s j)
      → trace_user (m.get_envelopes_by_trace s j) ≢ some (owner_id shown c.caller)
      → m.get_envelopes_by_trace (respond c.request c.trace c.caller s).1 j
        ≡ m.get_envelopes_by_trace s j
  kept c j s law foreign = elim (Bool-cases (c.trace == j)) [
    | inl e ↦
        (let same : c.trace ≡ j = (eq_iff c.trace j).0 e in
          ap (λ x. m.get_envelopes_by_trace x.1 j)
            (respond_foreign c.request c.trace c.caller s (
              subst
                (λ i. trace_user (m.get_envelopes_by_trace s i) ≢ some (owner_id shown c.caller))
                (sym same) foreign)))
    | inr e ↦ kept_other c.request c.trace j c.caller s law (ground (arith, eq_iff c.trace j, e))
  ]

  -- Where the store's deletion of a trace leaves the envelopes of the others: whatever calls are made
  -- by callers that are not the user of a trace's first envelope, in whatever order and about whatever
  -- traces, its envelopes stay as they are.
  pub respond_all_kept :
      (cs : List Call) (j : String) (s : Store)
      → ((s : Store) (t j : String)
          → t ≢ j
          → m.get_envelopes_by_trace (m.delete_trace s t).1 j ≡ m.get_envelopes_by_trace s j)
      → All (λ c. trace_user (m.get_envelopes_by_trace s j) ≢ some (owner_id shown c.caller)) cs
      → m.get_envelopes_by_trace (respond_all cs s) j ≡ m.get_envelopes_by_trace s j
  unfolding respond_all
  respond_all_kept [] j s law h = refl
  respond_all_kept (c ∷ cs) j s law h =
      (let e = kept c j s law h.0 in
        respond_all_kept cs j (respond c.request c.trace c.caller s).1 law (
          subst (λ envs. All (λ (d : Call). trace_user envs ≢ some (owner_id shown d.caller)) cs)
            (sym e) h.1)
        ∙ e)
