-- ===== src/Phase1/Directives.antt =====
-- The renderer directives of phase1/planner.py stay in their sets and bounds.
use unison_orchestrator.Prelude.{
  Bool, false, ◌&&◌, ℕ, String, true, Option, none, some, List, ◌≡◌, refl, arith, elem, ◌≤◌,
}
use unison_orchestrator.Prelude.Json.{arr, obj, Json, int, str, Fields, get, dict_or_empty}
use unison_orchestrator.Phase1.Memory.{is_hashable}
use unison_orchestrator.Phase1.Stub.{
  default_renderer_directives, directives_for, with_texts, member_or, override_or, wpm_of,
  profile_or_empty, verbosities, densities, presences,
}

-- The value is a text of the list.
abbrev pub IsMember : List String → Option Json → Type 0
IsMember allowed (some (str s)) = elem s allowed ≡ true
IsMember allowed _ = ⊥

-- The value is a number in these bounds.
abbrev pub IsBetween : ℕ → ℕ → Option Json → Type 0
IsBetween low high (some (int n)) = (low ≤ n) × (n ≤ high)
IsBetween low high _ = ⊥

-- The lookup gives a text of the list, or it raises for want of a hash.
abbrev IsLookup : List String → Bool → Option String → Type 0
IsLookup allowed hashable (some s) = (hashable ≡ true) × (elem s allowed ≡ true)
IsLookup allowed hashable none = hashable ≡ false

member_or-IsLookup :
    (default : String) (allowed : List String) (v : Option Json)
    → elem default allowed ≡ true
    → IsLookup allowed (is_hashable v) (member_or default allowed v)
member_or-IsLookup default allowed (some (str s)) h = (refl, ground (arith, h))
member_or-IsLookup default allowed (some (arr xs)) h = refl
member_or-IsLookup default allowed (some (obj d)) h = refl
member_or-IsLookup default allowed (some v) h = (refl, h)
member_or-IsLookup default allowed none h = (refl, h)

override_or-elem :
    (current : String) (allowed : List String) (o : Option String)
    → elem current allowed ≡ true
    → elem (override_or current allowed o) allowed ≡ true
override_or-elem current allowed (some s) h = ground (arith, h)
override_or-elem current allowed none h = h

wpm_of_bounds : (v : Option Json) → (80 ≤ wpm_of v) × (wpm_of v ≤ 240)
wpm_of_bounds (some (int n)) = ground arith
wpm_of_bounds (some v) = ground arith
wpm_of_bounds none = ground arith

-- Directives are made where the three preferences have hashes, and then they are in their sets and
-- bounds.
abbrev pub IsAllowed : Bool → Option Fields → Type 0
IsAllowed hashable (some d) =
    (hashable ≡ true)
    × IsMember verbosities (get "verbosity" d)
    × IsMember densities (get "visual_density" d)
    × IsMember presences (get "presence" d)
    × IsBetween 80 240 (get "pacing_wpm" d)
IsAllowed hashable none = hashable ≡ false

with_texts-IsAllowed :
    (modality : String) (verbosity density : Option String) (prefs : Fields) (h1 h2 h3 : Bool)
    (v d p : Option String)
    → IsLookup verbosities h1 v
    → IsLookup densities h2 d
    → IsLookup presences h3 p
    → IsAllowed
        (h1 && h2 && h3)
        (with_texts (directives_for modality verbosity density prefs) v d p)
unfolding get
with_texts-IsAllowed modality verbosity density prefs h1 h2 h3 (some v) (some d) (some p) (a, x)
      (b, y) (c, z) =
    (
      ground (arith, a, b, c),
      override_or-elem v verbosities verbosity x,
      override_or-elem d densities density y,
      z,
      wpm_of_bounds (get "pacing_wpm" prefs),
    )
with_texts-IsAllowed modality verbosity density prefs h1 h2 h3 (some v) (some d) none a b c =
    ground (arith, c)
with_texts-IsAllowed modality verbosity density prefs h1 h2 h3 (some v) none p a b c =
    ground (arith, b)
with_texts-IsAllowed modality verbosity density prefs h1 h2 h3 none d p a b c = ground (arith, a)

-- The directives of a profile: they are made unless the preference for verbosity, visual density or
-- presence is a list or a dict, when the lookup raises. Whatever else the profile and the overrides
-- hold, verbosity, visual density and presence are among their three texts, and the pacing is
-- between 80 and 240 words a minute.
pub default_renderer_directives-IsAllowed :
    (modality : String) (profile : Option Fields) (verbosity density : Option String)
    → let prefs = dict_or_empty (get "preferences" (profile_or_empty profile)) in
      IsAllowed
        (is_hashable (get "verbosity" prefs)
          && is_hashable (get "visual_density" prefs)
          && is_hashable (get "presence" prefs))
        (default_renderer_directives modality profile verbosity density)
unfolding default_renderer_directives
default_renderer_directives-IsAllowed modality profile verbosity density =
    let prefs = dict_or_empty (get "preferences" (profile_or_empty profile)) in
    with_texts-IsAllowed modality verbosity density prefs _ _ _ _ _ _
      (member_or-IsLookup "normal" verbosities (get "verbosity" prefs) refl)
      (member_or-IsLookup "balanced" densities (get "visual_density" prefs) refl)
      (member_or-IsLookup "calm" presences (get "presence" prefs) refl)
