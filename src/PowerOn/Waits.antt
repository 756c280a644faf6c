-- ===== src/PowerOn/Waits.antt =====
-- Waiting for the renderer ends, and what it finds.
use mathlib.Core.Path.{subst}
use unison_orchestrator.Prelude.{
  ℕ, zero, suc, Bool, true, false, Option, some, ◌≡◌, ◌↔◌, refl, arith, ◌+◌, ◌*◌, ◌≤◌, ltb,
  Bool-cases, inl, inr,
}
use unison_orchestrator.Prelude.Json.{Fields}
use unison_orchestrator.PowerOn.Polling.{poll, says_ready, wait_ms, wait_renderer_ready}

module _ (clock : ℕ → ℕ) (answer : ℕ → Option (ℕ × Fields)) where
  -- The renderer is ready in a round, from the first on, that begins before the deadline.
  unfoldable pub ReadyIn : ℕ → ℕ → Type 0
  ReadyIn deadline first =
      (round : ℕ) × (first ≤ round)
      × (ltb (clock round) deadline ≡ true)
      × (says_ready (answer round) ≡ true)

  -- How the rounds from one on end.
  Ends : ℕ → ℕ → Option Bool → Type 0
  Ends deadline first found = (b : Bool) × (found ≡ some b) × ((b ≡ true) ↔ ReadyIn deadline first)

  -- Each round takes a quarter of a second at least.
  Moves : Type 0
  Moves = (k : ℕ) → clock k + 250 ≤ clock (suc k)

  clock_mono : (n m : ℕ) → Moves → n ≤ m → clock n ≤ clock m
  unfolding Moves
  clock_mono zero zero step h = omega arith
  clock_mono (suc n) zero step h = absurd (omega arith)
  clock_mono n (suc m) step h = elim (Bool-cases (ltb m n)) [
    | inl e ↦ subst (λ k. clock n ≤ clock k) (same e) (omega arith)
    | inr e ↦ omega (arith, clock_mono n m step (ground (arith, e)), step m)
  ]
    where
      same : ltb m n ≡ true → n ≡ suc m
      same e = ground (arith, e, h)

  late-Ends :
      (deadline n : ℕ) → Moves → ltb (clock n) deadline ≡ false → Ends deadline n (some false)
  unfolding Ends ReadyIn
  late-Ends deadline n step late = (
    false,
    refl,
    (
      λ e. absurd (ground (arith, e)),
      λ (m, from, early, ready). ground (arith, late, early, clock_mono n m step from),
    ),
  )

  now-Ends :
      (deadline n : ℕ)
      → ltb (clock n) deadline ≡ true
      → says_ready (answer n) ≡ true
      → Ends deadline n (some true)
  unfolding Ends ReadyIn
  now-Ends deadline n early ready = (true, refl, (λ e. (n, omega arith, early, ready), λ e. refl))

  -- A round in which the renderer is not ready leaves it to those that follow.
  later-Ends :
      (deadline n : ℕ) (found : Option Bool)
      → says_ready (answer n) ≡ false
      → Ends deadline (suc n) found
      → Ends deadline n found
  unfolding Ends ReadyIn
  later-Ends deadline n found busy (b, made, (to, from)) = (
    b,
    made,
    (
      λ e. let (m, after, early, ready) = to e in (m, omega (arith, after), early, ready),
      λ (m, after, early, ready). from (m, follows m after ready, early, ready),
    ),
  )
    where
      follows : (m : ℕ) → n ≤ m → says_ready (answer m) ≡ true → suc n ≤ m
      follows m after ready = elim (Bool-cases (ltb n m)) [
        | inl e ↦ ground (arith, e)
        | inr e ↦
            let same : m ≡ n = ground (arith, e, after) in
            absurd (ground (arith, subst (λ k. says_ready (answer k) ≡ true) same ready, busy))
      ]

  poll-Ends :
      (deadline n fuel : ℕ)
      → Moves
      → deadline ≤ clock n + 250 * fuel
      → Ends deadline n (poll clock answer deadline n (suc fuel))
  unfolding poll Moves
  poll-Ends deadline n zero step h =
      let late : ltb (clock n) deadline ≡ false = ground (arith, h) in
      rw late (late-Ends deadline n step late)
  poll-Ends deadline n (suc fuel) step h = elim (Bool-cases (ltb (clock n) deadline)) [
    | inr late ↦ rw late (late-Ends deadline n step late)
    | inl early ↦ elim (Bool-cases (says_ready (answer n))) [
      | inl r ↦ rw (early, r) (now-Ends deadline n early r)
      | inr r ↦
          rw (early, r)
            (later-Ends deadline n (poll clock answer deadline (suc n) (suc fuel)) r
              (poll-Ends deadline (suc n) fuel step (omega (arith, h, step n))))
    ]
  ]

  -- Where each round takes a quarter of a second at least, and the clock does not run backwards
  -- before the first: waiting for the renderer ends, within as many rounds as quarters of a second
  -- are waited for, and one more; it has found the renderer ready exactly if the renderer is ready
  -- in some round that begins before the deadline.
  pub wait_renderer_ready_ends :
      (start timeout rounds : ℕ)
      → ((k : ℕ) → clock k + 250 ≤ clock (suc k))
      → start ≤ clock 0
      → wait_ms timeout ≤ 250 * rounds
      → (b : Bool) × (wait_renderer_ready clock answer start timeout (suc rounds) ≡ some b)
        × ((b ≡ true) ↔ ReadyIn (start + wait_ms timeout) 0)
  unfolding wait_renderer_ready Ends Moves
  wait_renderer_ready_ends start timeout rounds step from enough =
      poll-Ends (start + wait_ms timeout) 0 rounds step (omega (arith, from, enough))
