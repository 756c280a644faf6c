-- ===== src/Prelude/Json.antt =====
-- The values of a dictionary that came out of JSON. A float is its text.
use Prim.Native.Nat.{ℕ, zero, suc}
use Prim.Native.String.{String}
use mathlib.Core.Path.{◌≡◌, refl}
use mathlib.Core.Bool.{Bool, true, false, not, ◌||◌}
use mathlib.Core.List.{List, [], ◌∷◌}
use mathlib.Core.Option.{Option, none, some}
use native.Mathlib.Omega.{arith}
use text.Mathlib.Text.{◌==◌}
use text.Mathlib.TextEquality.{eq_iff}
use unison_orchestrator.Prelude.Tests.{if◌then◌else◌}

mutual
  pub data Json : Type 0 where
    null : Json
    bool : Bool → Json
    int : ℕ → Json
    -- `negative n` is -(n + 1).
    negative : ℕ → Json
    float : String → Json
    str : String → Json
    arr : Items → Json
    obj : Fields → Json

  pub data Items : Type 0 where
    nil : Items
    cons : Json → Items → Items

  pub data Fields : Type 0 where
    end : Fields
    field : String → Json → Fields → Fields

-- `d.get(k)`
unfoldable pub get : String → Fields → Option Json
get k end = none
get k (field j v d) = if j == k then some v else get k d

-- `d[k] = v`: in place, or at the end
unfoldable pub put : String → Json → Fields → Fields
put k v end = field k v end
put k v (field j w d) = if j == k then field j v d else field j w (put k v d)

-- `d.pop(k, None)`
unfoldable pub pop : String → Fields → Fields
pop k end = end
pop k (field j v d) = if j == k then d else field j v (pop k d)

-- No key stands twice.
abbrev pub Distinct : Fields → Type 0
Distinct end = Unit
Distinct (field k v d) = (get k d ≡ none) × Distinct d

-- `x if isinstance(x, dict) else {}`
abbrev pub dict_or_empty : Option Json → Fields
dict_or_empty (some (obj d)) = d
dict_or_empty _ = end

pub get-put :
    (k j : String) (v : Json) (d : Fields)
    → get j (put k v d) ≡ (if k == j then some v else get j d)
unfolding get put
get-put k j v end = refl
get-put k j v (field i w d) = ground (arith, eq_iff k j, eq_iff i k, eq_iff i j, get-put k j v d)

pub get-pop_ne : (k j : String) (d : Fields) → (k == j) ≡ false → get j (pop k d) ≡ get j d
unfolding get pop
get-pop_ne k j end h = refl
get-pop_ne k j (field i w d) h =
    ground (arith, eq_iff k j, eq_iff i k, eq_iff i j, get-pop_ne k j d h)

pub get-pop_self : (k : String) (d : Fields) → Distinct d → get k (pop k d) ≡ none
unfolding get pop
get-pop_self k end h = refl
get-pop_self k (field i w d) h = ground (arith, eq_iff i k, get-pop_self k d h.1)

pub put-Distinct : (k : String) (v : Json) (d : Fields) → Distinct d → Distinct (put k v d)
unfolding put get
put-Distinct k v end h = (refl, tt)
put-Distinct k v (field i w d) h =
    ground (arith, put-Distinct k v d h.1, get-put k i v d, eq_iff i k, eq_iff k i)

pub pop-Distinct : (k : String) (d : Fields) → Distinct d → Distinct (pop k d)
unfolding pop get
pop-Distinct k end h = tt
pop-Distinct k (field i w d) h =
    ground (arith, pop-Distinct k d h.1, get-pop_ne k i d, eq_iff i k, eq_iff k i)

-- A dict display, with distinct keys.
abbrev pub dict : List (String × Json) → Fields
dict [] = end
dict ((k, v) ∷ rest) = field k v (dict rest)

-- `bool(v)`
abbrev pub truthy : Json → Bool
truthy null = false
truthy (bool b) = b
truthy (int n) = elim n [ zero ↦ false | suc _ ↦ true ]
truthy (negative _) = true
truthy (float s) = not (s == "0.0" || s == "-0.0")
truthy (str s) = not (s == "")
truthy (arr nil) = false
truthy (arr (cons _ _)) = true
truthy (obj end) = false
truthy (obj (field _ _ _)) = true

-- `bool(d.get(k))`
abbrev pub has_truthy : Option Json → Bool
has_truthy (some v) = truthy v
has_truthy none = false

-- `v` if it is a text.
abbrev pub text_of : Option Json → Option String
text_of (some (str s)) = some s
text_of _ = none

-- `d.get(k) == text`
abbrev pub is_text : String → Option Json → Bool
is_text s (some (str t)) = s == t
is_text s _ = false

-- A list of values as a Python list of them.
abbrev pub to_items : List Json → Items
to_items [] = nil
to_items (v ∷ vs) = cons v (to_items vs)

-- `d.get(k)`, with `None` for a key that is not there
abbrev pub value_or : Json → Option Json → Json
value_or d (some v) = v
value_or d none = d

-- `a or b`
abbrev pub py_or : Json → Json → Json
py_or a b = if truthy a then a else b

-- `str(v)` and `f"{v}"`
abbrev pub text_for : (Json → String) → Json → String
text_for shown (str s) = s
text_for shown v = shown v

-- `l.append(v)`
abbrev pub append : Items → Json → Items
append nil v = cons v nil
append (cons w rest) v = cons w (append rest v)

-- `l if isinstance(l, list) else []`
abbrev pub items_or_empty : Option Json → Items
items_or_empty (some (arr items)) = items
items_or_empty _ = nil
