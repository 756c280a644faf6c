-- ===== src/Prelude/Dict.antt =====
-- A Python dict with text keys, in insertion order.
use Prim.Native.Nat.{ℕ, ◌+◌, ◌≤◌}
use Prim.Native.String.{String}
use mathlib.Core.Path.{◌≡◌, refl, subst}
use mathlib.Core.Logic.{◌≢◌, inl, inr}
use mathlib.Core.Bool.{Bool, true}
use mathlib.Core.Option.{Option, none, some}
use mathlib.Core.List.{List, [], ◌∷◌, ◌++◌}
use native.Mathlib.Omega.{arith}
use text.Mathlib.Text.{◌==◌}
use text.Mathlib.TextEquality.{eq_iff}
use unison_orchestrator.Prelude.Tests.{if◌then◌else◌, is_some, Bool-cases}
use unison_orchestrator.Prelude.Lists.{length, All}

abbrev pub Dict {ℓ} : Type ℓ → Type ℓ
Dict V = List (String × V)

module _ {ℓ} {V : Type ℓ} where
  -- `d.get(k)`
  unfoldable pub lookup : String → Dict V → Option V
  lookup k [] = none
  lookup k ((j, v) ∷ d) = if j == k then some v else lookup k d

  -- `k in d`
  abbrev pub contains : String → Dict V → Bool
  contains k d = is_some (lookup k d)

  -- `d[k] = v`: in place, or at the end
  unfoldable pub insert : String → V → Dict V → Dict V
  insert k v [] = (k, v) ∷ []
  insert k v ((j, w) ∷ d) = if j == k then (j, v) ∷ d else (j, w) ∷ insert k v d

  -- `d.pop(k, None)`
  unfoldable pub erase : String → Dict V → Dict V
  erase k [] = []
  erase k ((j, v) ∷ d) = if j == k then d else (j, v) ∷ erase k d

  abbrev pub keys : Dict V → List String
  keys [] = []
  keys ((j, _) ∷ d) = j ∷ keys d

  abbrev pub values : Dict V → List V
  values [] = []
  values ((_, v) ∷ d) = v ∷ values d

  pub lookup-insert :
      (k j : String) (v : V) (d : Dict V)
      → lookup j (insert k v d) ≡ (if k == j then some v else lookup j d)
  unfolding lookup insert
  lookup-insert k j v [] = refl
  lookup-insert k j v ((i, w) ∷ d) =
      ground (arith, eq_iff k j, eq_iff i k, eq_iff i j, lookup-insert k j v d)

  pub lookup-insert_self : (k : String) (v : V) (d : Dict V) → lookup k (insert k v d) ≡ some v
  lookup-insert_self k v d = ground (arith, lookup-insert k k v d, eq_iff k k)

  pub lookup-insert_ne :
      (k j : String) (v : V) (d : Dict V) → k ≢ j → lookup j (insert k v d) ≡ lookup j d
  lookup-insert_ne k j v d h = ground (arith, lookup-insert k j v d, eq_iff k j)

  pub lookup-erase_ne : (k j : String) (d : Dict V) → k ≢ j → lookup j (erase k d) ≡ lookup j d
  unfolding lookup erase
  lookup-erase_ne k j [] h = refl
  lookup-erase_ne k j ((i, w) ∷ d) h =
      ground (arith, eq_iff k j, eq_iff i k, eq_iff i j, lookup-erase_ne k j d h)

  -- An update of a key that is there keeps the keys and their order.
  pub keys-insert :
      (k : String) (v old : V) (d : Dict V) → lookup k d ≡ some old → keys (insert k v d) ≡ keys d
  unfolding lookup insert
  keys-insert k v old [] h = ground arith
  keys-insert k v old ((i, w) ∷ d) h = ground (arith, keys-insert k v old d)

  -- A new key goes to the end.
  pub insert_new :
      (k : String) (v : V) (d : Dict V) → lookup k d ≡ none → insert k v d ≡ d ++ (k, v) ∷ []
  unfolding lookup insert
  insert_new k v [] h = refl
  insert_new k v ((i, w) ∷ d) h = ground (arith, insert_new k v d)

  pub length-insert : (k : String) (v : V) (d : Dict V) → length (insert k v d) ≤ length d + 1
  unfolding insert
  length-insert k v [] = omega arith
  length-insert k v ((i, w) ∷ d) = ground (arith, length-insert k v d)

  pub length-erase : (k : String) (d : Dict V) → length (erase k d) ≤ length d
  unfolding erase
  length-erase k [] = omega arith
  length-erase k ((i, w) ∷ d) = ground (arith, length-erase k d)

  -- A sum over the values, and how an update moves it.
  abbrev pub sum_of : (V → ℕ) → Dict V → ℕ
  sum_of f [] = 0
  sum_of f ((_, v) ∷ d) = f v + sum_of f d

  pub sum_of-insert :
      (f : V → ℕ) (k : String) (v old : V) (d : Dict V)
      → lookup k d ≡ some old
      → sum_of f (insert k v d) + f old ≡ sum_of f d + f v
  unfolding lookup insert
  sum_of-insert f k v old [] h = ground arith
  sum_of-insert f k v old ((i, w) ∷ d) h = grind (arith, sum_of-insert f k v old d)

  pub sum_of-insert_new :
      (f : V → ℕ) (k : String) (v : V) (d : Dict V)
      → lookup k d ≡ none
      → sum_of f (insert k v d) ≡ sum_of f d + f v
  unfolding lookup insert
  sum_of-insert_new f k v [] h = omega arith
  sum_of-insert_new f k v ((i, w) ∷ d) h = grind (arith, sum_of-insert_new f k v d)

  -- What holds of every entry holds of what a lookup finds, and stays true under an insertion.
  pub All-lookup {κ} :
      (P : String × V → Type κ) (k : String) (d : Dict V) {v : V}
      → All P d
      → lookup k d ≡ some v
      → P (k, v)
  unfolding lookup
  All-lookup P k [] h e = absurd (ground arith)
  All-lookup P k ((j, w) ∷ d) {v} h e = elim (Bool-cases (j == k)) [
    | inl q ↦ subst P (same q) h.0
    | inr q ↦ All-lookup P k d h.1 (ground arith)
  ]
    where
      same : (j == k) ≡ true → Path (String × V) (j, w) (k, v)
      same q = ground (arith, eq_iff j k)

  pub All-insert {κ} :
      (P : String × V → Type κ) (k : String) (v : V) (d : Dict V)
      → P (k, v)
      → All P d
      → All P (insert k v d)
  unfolding insert
  All-insert P k v [] p h = (p, tt)
  All-insert P k v ((j, w) ∷ d) p h = elim (Bool-cases (j == k)) [
    | inl q ↦ rw (q, insert) (rw ((eq_iff j k).0 q) (p, h.1))
    | inr q ↦ rw (q, insert) (h.0, All-insert P k v d p h.1)
  ]

  -- No key stands twice.
  abbrev pub Unique : Dict V → Type ℓ
  Unique [] = Unit
  Unique ((k, _) ∷ d) = (lookup k d ≡ none) × Unique d

  -- What a new first entry leaves as it was.
  lookup_later :
      (k : String) (v : V) (d rest : Dict V)
      → lookup k rest ≡ none
      → All (λ e. lookup e.0 d ≡ some e.1) rest
      → All (λ e. lookup e.0 ((k, v) ∷ d) ≡ some e.1) rest
  unfolding lookup
  lookup_later k v d [] n h = tt
  lookup_later k v d ((j, w) ∷ rest) n h =
      (ground (arith, eq_iff k j, eq_iff j k), lookup_later k v d rest (ground arith) h.1)

  -- Every entry is what its key finds.
  pub lookup-Unique : (d : Dict V) → Unique d → All (λ e. lookup e.0 d ≡ some e.1) d
  unfolding lookup
  lookup-Unique [] u = tt
  lookup-Unique ((k, v) ∷ d) u =
      (ground (arith, eq_iff k k), lookup_later k v d d u.0 (lookup-Unique d u.1))
