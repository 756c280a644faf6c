-- ===== src/Prelude/Text.antt =====
-- Operations on texts that several components use, by code point.
use Prim.Native.Nat.{ℕ, zero, suc, Ordering}
use Prim.Native.Char.{Char, code}
use Prim.Native.String
use Prim.Native.String.{String}
use mathlib.Core.Path.{◌≡◌, refl, sym}
use mathlib.Core.Bool.{not, Bool, true, false, ◌||◌, ◌&&◌}
use mathlib.Core.Option.{Option, none, some}
use mathlib.Core.List.{List, [], ◌∷◌}
use native.Mathlib.Omega.{arith}
use text.Mathlib.Text.{◌==◌}
use text.Mathlib.TextEquality.{eq_iff}
use text.Mathlib.TextLemmas.{nil≢cons}
use mathlib.Core.Logic.{inl, inr}
use unison_orchestrator.Prelude.Tests.{if◌then◌else◌, nat_eq, leb, Bool-cases}
use unison_orchestrator.Prelude.Lists.{elem}

-- What follows the last occurrence of a character.
unfoldable pub after_last : ℕ → String → Option String
after_last n String.[] = none
after_last n (String.◌∷◌ c s) = elim (after_last n s) [
  | some r ↦ some r
  | none ↦ if nat_eq (code c) n then some s else none
]

abbrev or_whole : Option String → String → String
or_whole (some r) s = r
or_whole none s = s

-- `s.rsplit(".", 1)[-1]`
unfoldable pub last_segment : String → String
unfolding after_last
last_segment s = or_whole (after_last b'.' s) s

unfoldable pub insert_sorted : String → List String → List String
insert_sorted s [] = s ∷ []
insert_sorted s (t ∷ ts) = elim (String.compare s t) [
  | Ordering.gt ↦ t ∷ insert_sorted s ts
  | _ ↦ s ∷ t ∷ ts
]

-- `sorted`, on texts
unfoldable pub sorted : List String → List String
unfolding insert_sorted
sorted [] = []
sorted (s ∷ ss) = insert_sorted s (sorted ss)

elem-insert_sorted :
    (k s : String) (l : List String) → elem k (insert_sorted s l) ≡ (k == s || elem k l)
unfolding insert_sorted
elem-insert_sorted k s [] = refl
elem-insert_sorted k s (t ∷ ts) = ground (arith, elem-insert_sorted k s ts)

-- Sorting keeps the members.
pub elem-sorted : (k : String) (l : List String) → elem k (sorted l) ≡ elem k l
unfolding sorted
elem-sorted k [] = refl
elem-sorted k (s ∷ ss) = ground (arith, elem-insert_sorted k s (sorted ss), elem-sorted k ss)

-- Equality of two tuples of texts.
abbrev pub texts_eq : List String → List String → Bool
texts_eq [] [] = true
texts_eq (s ∷ ss) (t ∷ ts) = if s == t then texts_eq ss ts else false
texts_eq _ _ = false

pub texts_eq→eq : (ss ts : List String) → texts_eq ss ts ≡ true → ss ≡ ts
texts_eq→eq [] [] h = refl
texts_eq→eq (s ∷ ss) (t ∷ ts) h = ground (arith, eq_iff s t, texts_eq→eq ss ts)
texts_eq→eq (s ∷ ss) [] h = ground arith
texts_eq→eq [] (t ∷ ts) h = ground arith

pub texts_eq_refl : (ss : List String) → texts_eq ss ss ≡ true
texts_eq_refl [] = refl
texts_eq_refl (s ∷ ss) = ground (arith, eq_iff s s, texts_eq_refl ss)

-- ASCII white space, as `str.strip` cuts it.
abbrev pub is_space : ℕ → Bool
is_space n = nat_eq n 32 || (leb 9 n && leb n 13) || (leb 28 n && leb n 31)

-- A letter of one alphabet becomes the letter at its place in the other.
swap_char : String → String → Char → Char
swap_char (String.◌∷◌ a rest) (String.◌∷◌ b bs) c =
    if nat_eq (code a) (code c) then b else swap_char rest bs c
swap_char _ _ c = c

-- `s.lower()`, on ASCII
unfoldable pub lower : String → String
unfolding swap_char
lower String.[] = String.[]
lower (String.◌∷◌ c s) =
    String.◌∷◌ (swap_char "ABCDEFGHIJKLMNOPQRSTUVWXYZ" "abcdefghijklmnopqrstuvwxyz" c) (lower s)

lstrip : String → String
lstrip String.[] = String.[]
lstrip (String.◌∷◌ c s) = if is_space (code c) then lstrip s else (String.◌∷◌ c s)

rstrip : String → String
rstrip String.[] = String.[]
rstrip (String.◌∷◌ c s) =
    let r = rstrip s in if is_space (code c) && r == "" then String.[] else (String.◌∷◌ c r)

-- `s.strip()`, on ASCII
unfoldable pub strip : String → String
unfolding lstrip rstrip
strip s = rstrip (lstrip s)

-- Some character is no white space.
has_ink : String → Bool
has_ink String.[] = false
has_ink (String.◌∷◌ c s) = not (is_space (code c)) || has_ink s

has_ink-lstrip : (s : String) → has_ink (lstrip s) ≡ has_ink s
unfolding has_ink lstrip
has_ink-lstrip String.[] = refl
has_ink-lstrip (String.◌∷◌ c s) = ground (arith, has_ink-lstrip s)

cons_ne : (c : Char) (s : String) → (String.◌∷◌ c s == "") ≡ false
cons_ne c s = elim (Bool-cases (String.◌∷◌ c s == "")) [
  | inl e ↦ absurd (nil≢cons (sym ((eq_iff (String.◌∷◌ c s) "").0 e)))
  | inr e ↦ e
]

blank_step :
    (space ink : Bool) (c : Char) (r : String)
    → (r == "") ≡ not ink
    → ((if space && r == "" then String.[] else (String.◌∷◌ c r)) == "") ≡ not (not space || ink)
blank_step false ink c r e = cons_ne c r
blank_step true true c r e = rw e (cons_ne c r)
blank_step true false c r e = rw e refl

rstrip_blank : (s : String) → (rstrip s == "") ≡ not (has_ink s)
unfolding has_ink rstrip
rstrip_blank String.[] = refl
rstrip_blank (String.◌∷◌ c s) =
    blank_step (is_space (code c)) (has_ink s) c (rstrip s) (rstrip_blank s)

ink_step :
    (space ink : Bool) (c : Char) (r : String)
    → space ≡ is_space (code c)
    → (r == "") ≡ not ink
    → has_ink r ≡ ink
    → has_ink (if space && r == "" then String.[] else (String.◌∷◌ c r)) ≡ (not space || ink)
unfolding has_ink
ink_step false ink c r h e i = rw (sym h) refl
ink_step true true c r h e i = rw (e, sym h) i
ink_step true false c r h e i = rw e refl

has_ink-rstrip : (s : String) → has_ink (rstrip s) ≡ has_ink s
unfolding has_ink rstrip
has_ink-rstrip String.[] = refl
has_ink-rstrip (String.◌∷◌ c s) =
    ink_step (is_space (code c)) (has_ink s) c (rstrip s) refl (rstrip_blank s) (has_ink-rstrip s)

-- Stripping once more leaves a text as empty as it was.
pub strip-strip_blank : (s : String) → (strip (strip s) == "") ≡ (strip s == "")
unfolding strip
strip-strip_blank s =
    rw
      (
        rstrip_blank (lstrip (rstrip (lstrip s))),
        has_ink-lstrip (rstrip (lstrip s)),
        has_ink-rstrip (lstrip s),
        rstrip_blank (lstrip s),
      )
      refl

-- `text[:n]`
unfoldable pub first_chars : ℕ → String → String
first_chars n String.[] = String.[]
first_chars zero (String.◌∷◌ c s) = String.[]
first_chars (suc n) (String.◌∷◌ c s) = String.◌∷◌ c (first_chars n s)

-- `len(s)`
unfoldable pub text_length : String → ℕ
text_length String.[] = 0
text_length (String.◌∷◌ c s) = suc (text_length s)
