-- ===== src/Router/Runtime.antt =====
-- What src/router.py takes from Python's runtime: float arithmetic with the literals it writes,
-- the hour that `time.gmtime` finds, and `==` on values of a dictionary.
use unison_orchestrator.Prelude.{
  ℕ, ◌+◌, ◌-◌, ◌*◌, ◌≡◌, ◌⊎◌, ◌==◌, ◌/◌, ◌%◌, Bool, true, false, not, Option, none, some, arith,
  if◌then◌else◌, leb, ltb, nat_eq,
}
use unison_orchestrator.Prelude.Json.{Json, null, int, str}

pub record Runtime {ℓ} (F : Type ℓ) : Type ℓ where
  pub nought : F
  pub tenth : F
  pub fifth : F
  pub three_tenths : F
  pub half : F
  pub seven_tenths : F
  pub eight_tenths : F
  pub nine_tenths : F
  pub one : F
  pub thousand : F
  pub add : F → F → F
  pub sub : F → F → F
  pub mul : F → F → F
  -- The quotient of two whole numbers.
  pub ratio : ℕ → ℕ → F
  pub lt : F → F → Bool
  pub le : F → F → Bool
  -- `time.gmtime(t).tm_hour`, or nothing when the call raises
  pub hour_of : F → Option ℕ
  -- `==` on two values
  pub same : Json → Json → Bool

infix 4 ◌≼◌
abbrev pub ◌≼◌ {ℓ} : {F : Type ℓ} ⦃r : Runtime F⦄ → F → F → Type 0
◌≼◌ ⦃r⦄ x y = r.le x y ≡ true

-- NaN is the value that is not `<=` itself. The order is total only away from it.
pub record IsOrdered {ℓ} (F : Type ℓ) ⦃r : Runtime F⦄ : Type ℓ where
  pub le_trans : (x y z : F) → x ≼ y → y ≼ z → x ≼ z
  pub le_total : (x y : F) → x ≼ x → y ≼ y → (x ≼ y) ⊎ (y ≼ x)
  pub lt-eq-not-le : (x y : F) → x ≼ x → y ≼ y → r.lt x y ≡ not (r.le y x)
  pub refl_of_lt : (x y : F) → r.lt x y ≡ true → (x ≼ x) × (y ≼ y)
  pub nine_le_one : r.nine_tenths ≼ r.one
  pub nine_le_eight : r.le r.nine_tenths r.eight_tenths ≡ false

-- `min(a, b)`, which is its first argument unless the second is less
abbrev pub min_of {ℓ} : {F : Type ℓ} ⦃r : Runtime F⦄ → F → F → F
min_of ⦃r⦄ a b = if r.lt b a then b else a

-- The laws can be met: whole thousandths, with `none` for NaN.
abbrev pub Milli : Type 0
Milli = Option ℕ

abbrev on_both {ℓ} : {A : Type ℓ} → A → (ℕ → ℕ → A) → Milli → Milli → A
on_both d f (some a) (some b) = f a b
on_both d f _ _ = d

abbrev hour_in : Milli → Option ℕ
hour_in (some t) = some (t / 3_600_000 % 24)
hour_in none = none

abbrev same_json : Json → Json → Bool
same_json (str a) (str b) = a == b
same_json (int a) (int b) = nat_eq a b
same_json null null = true
same_json _ _ = false

instance abbrev pub milli_runtime : Runtime Milli
milli_runtime = record {
  nought = some 0;
  tenth = some 100;
  fifth = some 200;
  three_tenths = some 300;
  half = some 500;
  seven_tenths = some 700;
  eight_tenths = some 800;
  nine_tenths = some 900;
  one = some 1000;
  thousand = some 1_000_000;
  add = on_both none (λ a b. some (a + b));
  sub = on_both none (λ a b. some (a - b));
  mul = on_both none (λ a b. some (a * b / 1000));
  ratio = λ a b. some (1000 * a / b);
  lt = on_both false ltb;
  le = on_both false leb;
  hour_of = hour_in;
  same = same_json;
}

pub Milli-IsOrdered : IsOrdered Milli
Milli-IsOrdered = ground arith
