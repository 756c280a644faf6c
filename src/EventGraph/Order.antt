-- ===== src/EventGraph/Order.antt =====
-- The answers to queries of the event graph.
use mathlib.Core.List.{Perm}
use mathlib.Core.List.Perm
use unison_orchestrator.Prelude.{
  ℕ, zero, suc, String, Bool, ◌↔◌, ◌⊎◌, ◌<◌, ◌==◌, eq_iff, Option-cases, ◌&&◌, true, false, Option,
  none, some, List, [], ◌∷◌, if◌then◌else◌, ◌≡◌, refl, sym, ap, arith, ◌≤◌, leb, Bool-cases, inl,
  inr,
}
use unison_orchestrator.EventGraph.{
  EventGraphEvent, EventGraphQuery, matches, passes, ℤ, pos, negsuc, at_least_1, at_most_5000,
  limit_of, scan, before, place, sort, query, or_default,
}

-- A filter that is missing or empty lets everything through; any other one its own text.
unfoldable pub Allows : Option String → Option String → Type 0
Allows none value = Unit
Allows (some s) value = (s ≡ "") ⊎ (value ≡ some s)

unfoldable pub Matches : EventGraphQuery → EventGraphEvent → Type 0
Matches q e =
    Allows q.trace_id (some e.trace_id)
    × Allows q.session_id e.session_id
    × Allows q.person_id e.person_id

-- The limit of a query, between 1 and 5000.
unfoldable pub LimitIs : Option ℤ → ℕ → Type 0
LimitIs none n = n ≡ 500
LimitIs (some (pos zero)) n = n ≡ 500
LimitIs (some (pos (suc k))) n = (n ≤ suc k) × (n ≤ 5000) × ((n ≡ suc k) ⊎ (n ≡ 5000))
LimitIs (some (negsuc k)) n = n ≡ 1

-- The nanoseconds of an event, 0 where it has none.
abbrev nanoseconds : Option ℕ → ℕ
nanoseconds (some n) = n
nanoseconds none = 0

-- An event is earlier than another, by milliseconds and then by nanoseconds, or at its time.
unfoldable pub NotLater : EventGraphEvent → EventGraphEvent → Type 0
NotLater a b =
    (a.ts_unix_ms < b.ts_unix_ms)
    ⊎ ((a.ts_unix_ms ≡ b.ts_unix_ms)
        × (nanoseconds a.ts_monotonic_ns ≤ nanoseconds b.ts_monotonic_ns))

unfoldable pub InOrder : List EventGraphEvent → Type 0
InOrder [] = Unit
InOrder (e ∷ []) = Unit
InOrder (e ∷ x ∷ l) = NotLater e x × InOrder (x ∷ l)

-- The first so many elements.
abbrev pub first : ℕ → List EventGraphEvent → List EventGraphEvent
first zero l = []
first (suc n) [] = []
first (suc n) (e ∷ l) = e ∷ first n l

passes_iff : (filter value : Option String) → (passes filter value ≡ true) ↔ Allows filter value
unfolding Allows
passes_iff none value = (λ _. tt, λ _. refl)
passes_iff (some s) none = (
  λ h. inl ((eq_iff s "").0 h),
  λ a. elim a [ inl e ↦ (eq_iff s "").1 e | inr e ↦ absurd (ground (arith, e)) ],
)
passes_iff (some s) (some t) = (
  λ h. elim (Bool-cases (s == "")) [
    | inl e ↦ inl ((eq_iff s "").0 e)
    | inr e ↦ inr (ap some ((eq_iff t s).0 (ground (arith, h, e))))
  ],
  λ a. elim a [
    | inl e ↦ ground (arith, (eq_iff s "").1 e)
    | inr e ↦
        let same : t ≡ s = ap (λ o. elim o [ some x ↦ x | none ↦ t ]) e in
        ground (arith, (eq_iff t s).1 same)
  ],
)

all_true : (a b c : Bool) → a && b && c ≡ true → (a ≡ true) × (b ≡ true) × (c ≡ true)
all_true a b c h = ground (arith, h)

matches_iff : (q : EventGraphQuery) (e : EventGraphEvent) → (matches q e ≡ true) ↔ Matches q e
unfolding matches Matches
matches_iff q e =
    let t = passes_iff q.trace_id (some e.trace_id) in
    let s = passes_iff q.session_id e.session_id in
    let p = passes_iff q.person_id e.person_id in
    (
      λ h.
          let (a, b, c) =
            all_true (passes q.trace_id (some e.trace_id)) (passes q.session_id e.session_id)
              (passes q.person_id e.person_id) h in
          (t.0 a, s.0 b, p.0 c),
      λ (a, b, c). rw (t.1 a, s.1 b, p.1 c) refl,
    )

module _ {L : Type 0} (parse : L → Option EventGraphEvent) where
  -- The events that match of the lines, in their order.
  pub data Selected (q : EventGraphQuery) : List L → List EventGraphEvent → Type 0 where
    done : Selected q [] []
    no_event :
        {line : L} {file : List L} {es : List EventGraphEvent}
        → parse line ≡ none
        → Selected q file es
        → Selected q (line ∷ file) es
    passed_over :
        {line : L} {file : List L} {es : List EventGraphEvent} {e : EventGraphEvent}
        → parse line ≡ some e
        → (Matches q e → ⊥)
        → Selected q file es
        → Selected q (line ∷ file) es
    taken :
        {line : L} {file : List L} {es : List EventGraphEvent} {e : EventGraphEvent}
        → parse line ≡ some e
        → Matches q e
        → Selected q file es
        → Selected q (line ∷ file) (e ∷ es)

  -- The events of a file that match, in its order.
  unfoldable matching : EventGraphQuery → List L → List EventGraphEvent
  matching q [] = []
  matching q (line ∷ file) =
      let rest = matching q file in
      elim (parse line) [ none ↦ rest | some e ↦ if matches q e then e ∷ rest else rest ]

  scan-first :
      (q : EventGraphQuery) (n : ℕ) (file : List L)
      → scan parse q n file ≡ first n (matching q file)
  unfolding scan matching
  scan-first q zero file = refl
  scan-first q (suc n) [] = refl
  scan-first q (suc n) (line ∷ file) = elim (Option-cases (parse line)) [
    | inl p ↦ rw (p, scan, matching) (scan-first q (suc n) file)
    | inr (e, p) ↦ elim (Bool-cases (matches q e)) [
      | inl m ↦ rw (p, m, scan, matching) (ap (λ l. e ∷ l) (scan-first q n file))
      | inr m ↦ rw (p, m, scan, matching) (scan-first q (suc n) file)
    ]
  ]

  matching-Selected : (q : EventGraphQuery) (file : List L) → Selected q file (matching q file)
  unfolding matching
  matching-Selected q [] = done
  matching-Selected q (line ∷ file) = elim (Option-cases (parse line)) [
    | inl p ↦ rw (p, matching) (no_event p (matching-Selected q file))
    | inr (e, p) ↦ elim (Bool-cases (matches q e)) [
      | inl m ↦ rw (p, m, matching) (taken p ((matches_iff q e).0 m) (matching-Selected q file))
      | inr m ↦
          rw (p, m, matching)
            (passed_over p (λ k. absurd (ground (arith, m, (matches_iff q e).1 k)))
              (matching-Selected q file))
    ]
  ]

Perm-place : (e : EventGraphEvent) (l : List EventGraphEvent) → Perm (place e l) (e ∷ l)
unfolding place
Perm-place e [] = Perm.refl (e ∷ [])
Perm-place e (x ∷ l) = elim (Bool-cases (before e x)) [
  | inl b ↦ rw b (Perm.refl (e ∷ x ∷ l))
  | inr b ↦ rw b (Perm.trans (Perm.cons x (Perm-place e l)) (Perm.swap e x l))
]

Perm-sort : (l : List EventGraphEvent) → Perm (sort l) l
unfolding sort
Perm-sort [] = Perm.refl []
Perm-sort (e ∷ l) = Perm.trans (Perm-place e (sort l)) (Perm.cons e (Perm-sort l))

-- Each event stands before the next.
abbrev pub Ordered : List EventGraphEvent → Type 0
Ordered [] = Unit
Ordered (e ∷ []) = Unit
Ordered (e ∷ x ∷ l) = (before e x ≡ true) × Ordered (x ∷ l)

before_total : (a b : EventGraphEvent) → before a b ≡ false → before b a ≡ true
before_total a b h = ground (arith, h)

place-Ordered : (e : EventGraphEvent) (l : List EventGraphEvent) → Ordered l → Ordered (place e l)
unfolding place
place-Ordered e [] h = tt
place-Ordered e (x ∷ []) h = elim (Bool-cases (before e x)) [
  | inl b ↦ rw b (b, tt)
  | inr b ↦ rw b (before_total e x b, tt)
]
place-Ordered e (x ∷ y ∷ l) (hx, h) = elim (Bool-cases (before e x)) [
  | inl b ↦ rw b (b, (hx, h))
  | inr b ↦ rw b (elim (Bool-cases (before e y)) [
    | inl c ↦ rw c (before_total e x b, (c, h))
    | inr c ↦ rw c (hx, rw (place, c) at (place-Ordered e (y ∷ l) h))
  ])
]

limit_lem : (q : EventGraphQuery) → LimitIs q.limit (limit_of q)
unfolding limit_of LimitIs
limit_lem q = go q.limit
  where
    go : (v : Option ℤ) → LimitIs v (at_least_1 (at_most_5000 (or_default v)))
    go none = refl
    go (some (pos zero)) = refl
    go (some (pos (suc k))) = elim (Bool-cases (leb (suc k) 5000)) [
      | inl e ↦ rw e (ground (arith, e))
      | inr e ↦ rw e (ground (arith, e))
    ]
    go (some (negsuc k)) = refl

Ordered-sort : (l : List EventGraphEvent) → Ordered (sort l)
unfolding sort
Ordered-sort [] = tt
Ordered-sort (e ∷ l) = place-Ordered e (sort l) (Ordered-sort l)

NotLater-before : (a b : EventGraphEvent) → before a b ≡ true → NotLater a b
unfolding NotLater
NotLater-before a b h = ground (arith, h)

InOrder-Ordered : (l : List EventGraphEvent) → Ordered l → InOrder l
unfolding InOrder
InOrder-Ordered [] h = tt
InOrder-Ordered (e ∷ []) h = tt
InOrder-Ordered (e ∷ x ∷ l) h = (NotLater-before e x h.0, InOrder-Ordered (x ∷ l) h.1)

-- A query gives, in the order of their times, the first of the events that match it among the lines
-- of the file, in number at most its limit: 500 where it has none or 0, 1 where it is negative, and
-- otherwise the smaller of its number and 5000.
pub query_lem :
    {L : Type 0} (parse : L → Option EventGraphEvent) (q : EventGraphQuery) (file : List L)
    → (all : List EventGraphEvent) × (n : ℕ) × Selected parse q file all
      × LimitIs q.limit n
      × Perm (query parse q file) (first n all)
      × InOrder (query parse q file)
unfolding query
query_lem parse q file = (
  matching parse q file,
  limit_of q,
  matching-Selected parse q file,
  limit_lem q,
  rw (sym (scan-first parse q (limit_of q) file)) (Perm-sort (scan parse q (limit_of q) file)),
  InOrder-Ordered _ (Ordered-sort (scan parse q (limit_of q) file)),
)
