-- ===== src/Companion/Numbered.antt =====
-- src/orchestrator/companion.py: the design of a workflow loses no step, adds what is asked for, and
-- numbers the steps.
use mathlib.Core.Path.{subst}
use unison_orchestrator.Prelude.{
  ℕ, zero, suc, ◌+◌, String, Bool, true, false, Option, none, some, if◌then◌else◌, ltb, Result, ok,
  err, ◌==◌, eq_iff, sym, arith, ◌≡◌, refl, ◌∙◌, ap, ◌⊎◌, inl, inr,
}
use unison_orchestrator.Prelude.Json.{
  Json, null, bool, int, negative, float, str, arr, obj, Items, nil, cons, Fields, get, put,
  get-put, is_text,
}
use unison_orchestrator.Companion.Types.{Python, CompanionError, value_or}
use unison_orchestrator.Companion.Memory.{joined}
use unison_orchestrator.Companion.Design.{
  items_length, insert_at, place_step, stripped, renumbered, changed_steps, designed,
}

-- The first list's values stand in the second one, in their order.
abbrev pub Sublist : Items → Items → Type 0
Sublist nil ys = Unit
Sublist (cons x xs) nil = Path Bool true false
Sublist (cons x xs) (cons y ys) = ((x ≡ y) × Sublist xs ys) ⊎ Sublist (cons x xs) ys

-- Every step that is a dict has its place as its order.
abbrev pub Numbered : ℕ → Items → Type 0
Numbered n nil = Unit
Numbered n (cons (obj d) rest) = (get "order" d ≡ some (int n)) × Numbered (suc n) rest
Numbered n (cons _ rest) = Numbered (suc n) rest

-- A change adds a step when it says so and its title is not blank.
abbrev adds_step : Fields → Bool
adds_step change =
    if is_text "add_step" (get "op" change)
    then elim (stripped (value_or null (get "title" change))) [
      | ok title ↦ if title == "" then false else true
      | err _ ↦ false
    ]
    else false

unfoldable pub added_count : Items → ℕ
added_count nil = 0
added_count (cons (obj change) rest) =
    let later = added_count rest in if adds_step change then suc later else later
added_count (cons _ rest) = added_count rest

Sublist_self : (xs : Items) → Sublist xs xs
Sublist_self nil = tt
Sublist_self (cons x xs) = inl (refl, Sublist_self xs)

Sublist_trans : (xs ys zs : Items) → Sublist xs ys → Sublist ys zs → Sublist xs zs
Sublist_trans nil ys zs h k = tt
Sublist_trans (cons x xs) (cons y ys) (cons z zs) (inl (e, h)) (inl (f, k)) =
    inl (e ∙ f, Sublist_trans xs ys zs h k)
Sublist_trans (cons x xs) (cons y ys) (cons z zs) (inr h) (inl (f, k)) =
    inr (Sublist_trans (cons x xs) ys zs h k)
Sublist_trans (cons x xs) (cons y ys) (cons z zs) h (inr k) =
    inr (Sublist_trans (cons x xs) (cons y ys) zs h k)
Sublist_trans (cons x xs) (cons y ys) nil h k = absurd (ground (arith, k))
Sublist_trans (cons x xs) nil zs h k = absurd (ground (arith, h))

Sublist_later : (xs ys : Items) (y : Json) → Sublist xs ys → Sublist xs (cons y ys)
Sublist_later nil ys y h = tt
Sublist_later (cons x xs) ys y h = inr h

Sublist-insert_at : (n : ℕ) (step : Json) (xs : Items) → Sublist xs (insert_at n step xs)
unfolding insert_at
Sublist-insert_at zero step xs = Sublist_later xs xs step (Sublist_self xs)
Sublist-insert_at (suc n) step nil = tt
Sublist-insert_at (suc n) step (cons x xs) = inl (refl, Sublist-insert_at n step xs)

Sublist-joined : (xs ys : Items) → Sublist xs (joined xs ys)
unfolding joined
Sublist-joined nil ys = tt
Sublist-joined (cons x xs) ys = inl (refl, Sublist-joined xs ys)

items_length-insert_at :
    (n : ℕ) (step : Json) (xs : Items) → items_length (insert_at n step xs) ≡ suc (items_length xs)
unfolding insert_at items_length
items_length-insert_at zero step xs = refl
items_length-insert_at (suc n) step nil = refl
items_length-insert_at (suc n) step (cons x xs) = ap suc (items_length-insert_at n step xs)

items_length-joined :
    (step : Json) (xs : Items) → items_length (joined xs (cons step nil)) ≡ suc (items_length xs)
unfolding joined items_length
items_length-joined step nil = refl
items_length-joined step (cons x xs) = ap suc (items_length-joined step xs)

-- Where a step goes, the others stay, and there is one more.
place_step-Sublist :
    (p : Option ℕ) (step : Json) (xs : Items)
    → Sublist xs (place_step p step xs)
      × (items_length (place_step p step xs) ≡ suc (items_length xs))
unfolding place_step
place_step-Sublist none step xs = (Sublist-joined xs _, items_length-joined step xs)
place_step-Sublist (some n) step xs = go (ltb n (items_length xs))
  where
    go :
        (t : Bool)
        → Sublist xs (if t then insert_at n step xs else joined xs (cons step nil))
          × (items_length (if t then insert_at n step xs else joined xs (cons step nil))
              ≡ suc (items_length xs))
    go true = (Sublist-insert_at n step xs, items_length-insert_at n step xs)
    go false = (Sublist-joined xs _, items_length-joined step xs)

renumbered-Numbered : (n : ℕ) (xs : Items) → Numbered n (renumbered n xs)
unfolding renumbered
renumbered-Numbered n nil = tt
renumbered-Numbered n (cons (obj d) xs) =
    (ground (arith, get-put "order" "order" (int n) d), renumbered-Numbered (suc n) xs)
renumbered-Numbered n (cons null xs) = renumbered-Numbered (suc n) xs
renumbered-Numbered n (cons (bool _) xs) = renumbered-Numbered (suc n) xs
renumbered-Numbered n (cons (int _) xs) = renumbered-Numbered (suc n) xs
renumbered-Numbered n (cons (negative _) xs) = renumbered-Numbered (suc n) xs
renumbered-Numbered n (cons (float _) xs) = renumbered-Numbered (suc n) xs
renumbered-Numbered n (cons (str _) xs) = renumbered-Numbered (suc n) xs
renumbered-Numbered n (cons (arr _) xs) = renumbered-Numbered (suc n) xs

-- The second step is the first one, but for its order.
abbrev pub SameStep : Json → Json → Type 0
SameStep (obj d) (obj e) = (k : String) → (k == "order") ≡ false → get k e ≡ get k d
SameStep x y = x ≡ y

-- The steps of the first list stand in the second one, in their order, but for their numbers.
abbrev pub KeptIn : Items → Items → Type 0
KeptIn nil ys = Unit
KeptIn (cons x xs) nil = Path Bool true false
KeptIn (cons x xs) (cons y ys) = (SameStep x y × KeptIn xs ys) ⊎ KeptIn (cons x xs) ys

with_order : ℕ → Json → Json
with_order n (obj d) = obj (put "order" (int n) d)
with_order n v = v

renumbered-cons :
    (n : ℕ) (v : Json) (rest : Items)
    → renumbered n (cons v rest) ≡ cons (with_order n v) (renumbered (suc n) rest)
unfolding renumbered with_order
renumbered-cons n (obj d) rest = refl
renumbered-cons n null rest = refl
renumbered-cons n (bool _) rest = refl
renumbered-cons n (int _) rest = refl
renumbered-cons n (negative _) rest = refl
renumbered-cons n (float _) rest = refl
renumbered-cons n (str _) rest = refl
renumbered-cons n (arr _) rest = refl

with_order-SameStep : (n : ℕ) (v : Json) → SameStep v (with_order n v)
unfolding with_order
with_order-SameStep n (obj d) =
    λ k h. ground (arith, get-put "order" k (int n) d, h, eq_iff k "order", eq_iff "order" k)
with_order-SameStep n null = refl
with_order-SameStep n (bool _) = refl
with_order-SameStep n (int _) = refl
with_order-SameStep n (negative _) = refl
with_order-SameStep n (float _) = refl
with_order-SameStep n (str _) = refl
with_order-SameStep n (arr _) = refl

KeptIn-renumbered : (n : ℕ) (xs ys : Items) → Sublist xs ys → KeptIn xs (renumbered n ys)
unfolding renumbered
KeptIn-renumbered n nil ys h = tt
KeptIn-renumbered n (cons x xs) nil h = h
KeptIn-renumbered n (cons x xs) (cons y ys) (inl (e, h)) =
    subst (KeptIn (cons x xs)) (sym (renumbered-cons n y ys)) (
      inl (
        subst (λ z. SameStep z (with_order n y)) (sym e) (with_order-SameStep n y),
        KeptIn-renumbered (suc n) xs ys h,
      ))
KeptIn-renumbered n (cons x xs) (cons y ys) (inr h) =
    subst (KeptIn (cons x xs)) (sym (renumbered-cons n y ys))
      (inr (KeptIn-renumbered (suc n) (cons x xs) ys h))

items_length-renumbered : (n : ℕ) (xs : Items) → items_length (renumbered n xs) ≡ items_length xs
unfolding items_length renumbered
items_length-renumbered n nil = refl
items_length-renumbered n (cons y ys) =
    ap items_length (renumbered-cons n y ys) ∙ ap suc (items_length-renumbered (suc n) ys)

module _ (python : Python) where
  abbrev Grown : Items → Items → ℕ → Type 0
  Grown steps out n = Sublist steps out × (items_length out ≡ items_length steps + n)

  place_step-Grown :
      (p : Option ℕ) (step : Json) (steps out : Items) (n : ℕ)
      → Grown (place_step p step steps) out n
      → Grown steps out (suc n)
  place_step-Grown p step steps out n g =
      let (kept, longer) = place_step-Sublist p step steps in
      (Sublist_trans steps (place_step p step steps) out kept g.0, omega (arith, longer, g.1))

  change-Grown :
      (t : Bool) (r : Result CompanionError String) (rest steps : Items) (b : Bool) (p : Option ℕ)
      (new : String → Json) {out : Items} {b' : Bool}
      → ((s : Items) (c : Bool)
          → changed_steps python rest s c ≡ ok (out, b')
          → Grown s out (added_count rest))
      → (if t
          then elim r [
            | err e ↦ err e
            | ok title ↦
                if title == ""
                then changed_steps python rest steps b
                else changed_steps python rest (place_step p (new title) steps) true
          ]
          else changed_steps python rest steps b)
        ≡ ok (out, b')
      → Grown steps out (
          if (if t
            then elim r [ ok title ↦ if title == "" then false else true | err _ ↦ false ]
            else false)
          then suc (added_count rest)
          else added_count rest)
  change-Grown false r rest steps b p new ih e = ih steps b e
  change-Grown true (err x) rest steps b p new ih e = absurd (ground (arith, e))
  change-Grown true (ok title) rest steps b p new {out} {b'} ih e = go (title == "") e
    where
      go :
          (u : Bool)
          → (if u
              then changed_steps python rest steps b
              else changed_steps python rest (place_step p (new title) steps) true)
            ≡ ok (out, b')
          → Grown steps out
              (if (if u then false else true) then suc (added_count rest) else added_count rest)
      go true e = ih steps b e
      go false e = place_step-Grown p (new title) steps out _ (ih _ true e)

  -- The steps that were there stay in their order, and each change that says so adds one.
  changed_steps-Grown :
      (changes steps : Items) (b : Bool) {out : Items} {b' : Bool}
      → changed_steps python changes steps b ≡ ok (out, b')
      → Grown steps out (added_count changes)
  unfolding changed_steps added_count
  changed_steps-Grown nil steps b {out} e =
      let same : steps ≡ out = ground (arith, e) in
      subst (λ l. Grown steps l 0) same (Sublist_self steps, omega arith)
  changed_steps-Grown (cons (obj change) rest) steps b e =
      change-Grown _ (stripped (value_or null (get "title" change))) rest steps b _ _
        (λ s c. changed_steps-Grown rest s c) e
  changed_steps-Grown (cons null rest) steps b e = changed_steps-Grown rest steps b e
  changed_steps-Grown (cons (bool _) rest) steps b e = changed_steps-Grown rest steps b e
  changed_steps-Grown (cons (int _) rest) steps b e = changed_steps-Grown rest steps b e
  changed_steps-Grown (cons (negative _) rest) steps b e = changed_steps-Grown rest steps b e
  changed_steps-Grown (cons (float _) rest) steps b e = changed_steps-Grown rest steps b e
  changed_steps-Grown (cons (str _) rest) steps b e = changed_steps-Grown rest steps b e
  changed_steps-Grown (cons (arr _) rest) steps b e = changed_steps-Grown rest steps b e

  designed-steps :
      (w : String) (person : Json) (project : Option String) (steps : Items) (doc : Fields)
      → get "steps" (designed python w person project steps doc) ≡ some (arr (renumbered 1 steps))
  unfolding designed
  designed-steps w person project steps doc =
      get-put "updated_at" "steps" python.now _
      ∙ get-put "steps" "steps" (arr (renumbered 1 steps)) _

  -- When the changes to a workflow are usable: the document that is stored has the steps that were
  -- there, in their order and but for their numbers, and one more for each change that adds a step and has a title; and every
  -- step that is a dict has its place as its order.
  pub designed-Numbered :
      (w : String) (person : Json) (project : Option String) (changes steps : Items) (doc : Fields)
      {out : Items} {b : Bool}
      → changed_steps python changes steps false ≡ ok (out, b)
      → (stored : Items) × (get "steps" (designed python w person project out doc)
          ≡ some (arr stored))
        × Numbered 1 stored
        × KeptIn steps stored
        × (items_length stored ≡ items_length steps + added_count changes)
  designed-Numbered w person project changes steps doc {out} e =
      let g = changed_steps-Grown changes steps false e in
      (
        renumbered 1 out,
        designed-steps w person project out doc,
        renumbered-Numbered 1 out,
        KeptIn-renumbered 1 steps out g.0,
        items_length-renumbered 1 out ∙ g.1,
      )
