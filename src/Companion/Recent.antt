-- ===== src/Companion/Recent.antt =====
-- src/orchestrator/companion.py: a session keeps its last turns.
use unison_orchestrator.Prelude.{
  inl, inr, Bool-cases, ℕ, suc, ◌≤◌, String, false, List, [], ◌∷◌, ◌++◌, if◌then◌else◌, ltb, length,
  length-append, ◌==◌, eq_iff, arith, ◌≡◌, refl, sym, ◌∙◌, ap, append_assoc, append-nil,
}
use unison_orchestrator.Prelude.Dict.{lookup, lookup-insert}
use unison_orchestrator.Companion.Types.{Turn, State}
use unison_orchestrator.Companion.Memory.{last_of, memory_bound, remembered, remember, turns_of}

-- The turns of some sessions, one after another, each under its key.
unfoldable pub remember_all : List (String × Turn) → State → State
remember_all [] s = s
remember_all ((key, turn) ∷ rest) s = remember_all rest (remember key turn s)

-- The turns under a key.
unfoldable pub turns_under : String → List (String × Turn) → List Turn
turns_under k [] = []
turns_under k ((key, turn) ∷ rest) =
    let later = turns_under k rest in if key == k then turn ∷ later else later

module _ {ℓ} {A : Type ℓ} where
  -- A list that is no longer than the bound is its own end.
  last_of_short : (n : ℕ) (l : List A) → length l ≤ n → last_of n l ≡ l
  unfolding last_of
  last_of_short n [] h = refl
  last_of_short n (x ∷ xs) h = ground arith

  length-last_of : (n : ℕ) (l : List A) → length (last_of n l) ≤ n
  unfolding last_of
  length-last_of n [] = omega arith
  length-last_of n (x ∷ xs) = ground (arith, length-last_of n xs)

  -- Cutting before an element comes is the same as cutting after it came.
  last_of-append :
      (n : ℕ) (l : List A) (y : A)
      → last_of (suc n) (last_of (suc n) l ++ y ∷ []) ≡ last_of (suc n) (l ++ y ∷ [])
  unfolding last_of
  last_of-append n [] y = refl
  last_of-append n (x ∷ xs) y = elim (Bool-cases (ltb (length xs) (suc n))) [
    | inl e ↦ rw e refl
    | inr e ↦
        (let longer : ltb (length (xs ++ y ∷ [])) (suc n) ≡ false =
            ground (arith, e, length-append xs (y ∷ [])) in
          rw (e, longer) (last_of-append n xs y))
  ]

remembered_lem :
    (turn : Turn) (turns : List Turn)
    → remembered turn turns ≡ last_of memory_bound (turns ++ turn ∷ [])
unfolding remembered
remembered_lem turn turns = elim (Bool-cases (ltb memory_bound (length longer))) [
  | inl e ↦ rw e refl
  | inr e ↦ rw e (sym (last_of_short memory_bound longer (ground (arith, e))))
]
  where
    longer : List Turn
    longer = turns ++ turn ∷ []

-- One more turn leaves the last turns of what was there and it.
remembered-last_of :
    (turn : Turn) (turns : List Turn)
    → remembered turn (last_of memory_bound turns) ≡ last_of memory_bound (turns ++ turn ∷ [])
remembered-last_of turn turns =
    remembered_lem turn (last_of memory_bound turns) ∙ last_of-append 24 turns turn

turns_of-remember :
    (k key : String) (turn : Turn) (s : State)
    → turns_of key (remember k turn s).memory
      ≡ (if k == key then remembered turn (turns_of key s.memory) else turns_of key s.memory)
unfolding remember
turns_of-remember k key turn s =
    ground
      (arith, lookup-insert k key (remembered turn (turns_of k s.memory)) s.memory, eq_iff k key)

remember_all_after :
    (turns : List (String × Turn)) (key : String) (s : State) (before : List Turn)
    → turns_of key s.memory ≡ last_of memory_bound before
    → turns_of key (remember_all turns s).memory
      ≡ last_of memory_bound (before ++ turns_under key turns)
unfolding remember_all turns_under
remember_all_after [] key s before e = e ∙ ap (last_of memory_bound) (sym (append-nil before))
remember_all_after ((k, turn) ∷ turns) key s before e = elim (Bool-cases (k == key)) [
  | inl q ↦
      (let now : turns_of key (remember k turn s).memory
            ≡ last_of memory_bound (before ++ turn ∷ []) =
          turns_of-remember k key turn s
          ∙ rw q (ap (remembered turn) e ∙ remembered-last_of turn before) in
        remember_all_after turns key (remember k turn s) (before ++ turn ∷ []) now
        ∙ rw q
            (ap (last_of memory_bound) (append_assoc before (turn ∷ []) (turns_under key turns))))
  | inr q ↦
      (let now : turns_of key (remember k turn s).memory ≡ last_of memory_bound before =
          turns_of-remember k key turn s ∙ rw q e in
        remember_all_after turns key (remember k turn s) before now ∙ rw q refl)
]

-- From an empty memory on, what a session keeps is the last 25 turns that were remembered under its
-- key, in their order, however the sessions take turns.
pub remember_all-last_of :
    (turns : List (String × Turn)) (key : String) (s : State)
    → s.memory ≡ []
    → turns_of key (remember_all turns s).memory ≡ last_of 25 (turns_under key turns)
unfolding last_of lookup
remember_all-last_of turns key s e = remember_all_after turns key s [] (ap (turns_of key) e)
