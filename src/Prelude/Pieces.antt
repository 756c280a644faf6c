-- ===== src/Prelude/Pieces.antt =====
-- Looking for one text in another, by code point.
use Prim.Native.Nat.{ℕ}
use Prim.Native.Char.{code}
use Prim.Native.String
use Prim.Native.String.{String}
use mathlib.Core.Bool.{Bool, true, false, ◌||◌}
use mathlib.Core.List.{List, [], ◌∷◌}
use unison_orchestrator.Prelude.Tests.{if◌then◌else◌, nat_eq}

-- `s.startswith(p)`, the prefix first
unfoldable pub starts_with : String → String → Bool
starts_with String.[] s = true
starts_with (String.◌∷◌ d p) String.[] = false
starts_with (String.◌∷◌ d p) (String.◌∷◌ c s) =
    if nat_eq (code d) (code c) then starts_with p s else false

-- `p in s`
unfoldable pub contains_text : String → String → Bool
unfolding starts_with
contains_text p String.[] = starts_with p String.[]
contains_text p (String.◌∷◌ c s) = starts_with p (String.◌∷◌ c s) || contains_text p s

abbrev before_first : String → List String → List String
before_first s [] = s ∷ []
before_first s (p ∷ ps) = String.◌++◌ s p ∷ ps

-- `s.split(sep)`, for a separator of one character
unfoldable pub split_on : ℕ → String → List String
split_on n String.[] = "" ∷ []
split_on n (String.◌∷◌ c s) =
    let rest = split_on n s in
    if nat_eq (code c) n then "" ∷ rest else before_first (String.◌∷◌ c String.[]) rest
