-- ===== src/Companion/Kept.antt =====
-- src/orchestrator/companion.py: what steps keep true of the calls made so far.
use unison_orchestrator.Prelude.{
  Bool, true, false, List, ◌∷◌, if◌then◌else◌, Result, ok, err, ◌≡◌, refl,
}
use unison_orchestrator.Companion.Types.{
  Request, Reply, CompanionError, State, Act, next, ◌>>=◌, ◌>>◌, return, raise, lift, read, change,
  send,
}

-- A step after which a property of the calls made still holds.
pub record Keeps {ℓ κ} {A : Type ℓ} (P : List Request → Type κ) (m : Act A) : Type κ where
  pub kept : (s : State) → P s.log → P (m s).1.log

module _ {ι} {P : List Request → Type ι} where
  module _ {ℓ κ} {A : Type ℓ} {B : Type κ} where
    pub next-Keeps :
        {m : Act A} {f : A → Act B} → Keeps P m → ((a : A) → Keeps P (f a)) → Keeps P (m >>= f)
    unfolding ◌>>=◌ next
    next-Keeps {m} {f} hm hf = record { kept = λ s p. go (m s) (hm.kept s p) }
      where
        go : (r : Result CompanionError A × State) → P r.1.log → P (next f r).1.log
        go (ok a, s) p = (hf a).kept s p
        go (err e, s) p = p

  module _ {ℓ} {A : Type ℓ} where
    pub then-Keeps : {m : Act (Unit {0})} {k : Act A} → Keeps P m → Keeps P k → Keeps P (m >> k)
    unfolding ◌>>◌
    then-Keeps hm hk = next-Keeps hm (λ _. hk)

    pub if-Keeps : (t : Bool) {a b : Act A} → Keeps P a → Keeps P b → Keeps P (if t then a else b)
    if-Keeps true ha hb = ha
    if-Keeps false ha hb = hb

    -- Each branch with what its test says.
    pub if_eq-Keeps :
        (t : Bool) {a b : Act A}
        → (t ≡ true → Keeps P a)
        → (t ≡ false → Keeps P b)
        → Keeps P (if t then a else b)
    if_eq-Keeps true ha hb = ha refl
    if_eq-Keeps false ha hb = hb refl

    pub return-Keeps : (a : A) → Keeps P (return a)
    unfolding return
    return-Keeps a = record { kept = λ s p. p }

    pub raise-Keeps : (e : CompanionError) → Keeps P (raise {A = A} e)
    unfolding raise
    raise-Keeps e = record { kept = λ s p. p }

    pub lift-Keeps : (r : Result CompanionError A) → Keeps P (lift r)
    unfolding lift
    lift-Keeps r = record { kept = λ s p. p }

  pub read-Keeps : Keeps P read
  unfolding read
  read-Keeps = record { kept = λ s p. p }

  pub send-Keeps :
      (answer : List Request → Reply) (q : Request)
      → ((log : List Request) → P log → P (q ∷ log))
      → Keeps P (send answer q)
  unfolding send
  send-Keeps answer q h = record { kept = λ s p. h s.log p }

  -- A change of the state that makes no call.
  pub change-Keeps :
      (f : State → State) → ((s : State) → P s.log → P (f s).log) → Keeps P (change f)
  unfolding change
  change-Keeps f h = record { kept = h }
