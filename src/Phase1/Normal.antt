-- ===== src/Phase1/Normal.antt =====
-- What `_norm` of phase1/onboarding.py does to white space.
use Prim.Native.Char.{code}
use unison_orchestrator.Prelude.{
  ℕ, String, Bool, false, ◌||◌, ◌≡◌, refl, ap, arith, nat_eq, strip, lower,
}
use unison_orchestrator.Phase1.Onboarding.{plain, norm, squash}

abbrev pub has_code : ℕ → String → Bool
has_code n String.[] = false
has_code n (String.◌∷◌ c s) = nat_eq (code c) n || has_code n s

squash-plain : (s : String) → has_code 92 s ≡ false → squash plain s ≡ s
unfolding squash
squash-plain String.[] h = refl
squash-plain (String.◌∷◌ c s) h = ground (arith, h, squash-plain s)

-- A text that, stripped, has no backslash is only stripped and lowered: white space within it stays
-- as it is.
pub norm_plain : (text : String) → has_code 92 (strip text) ≡ false → norm text ≡ lower (strip text)
unfolding norm
norm_plain text h = ap lower (squash-plain (strip text) h)
