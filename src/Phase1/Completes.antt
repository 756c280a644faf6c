-- ===== src/Phase1/Completes.antt =====
-- Four proper answers complete the onboarding.

use mathlib.Core.Path.{subst}
use unison_orchestrator.Prelude.{
  String, Bool, true, false, not, ◌||◌, none, some, [], ◌∷◌, if◌then◌else◌, ◌≡◌, refl, sym, ap, ◌∙◌,
  arith, ◌==◌, strip, strip-strip_blank,
}
use unison_orchestrator.Prelude.Json.{
  Json, null, str, obj, Fields, get, put, dict_or_empty, dict, Distinct, get-put,
}
use unison_orchestrator.Phase1.Memory.{deep_merge, upserted}
use unison_orchestrator.Phase1.Merge.{get-deep_merge}
use unison_orchestrator.Phase1.Onboarding.{
  Turn, patch, turn_of, stage_turn, norm, finishes, name_turn, verbosity_turn, density_turn,
  confirm_turn, greets, is_filler, verbosity_of, density_of, onboarding_fields, onboarding_patch,
  has_name, has_prefs,
}
use unison_orchestrator.Phase1.Reply.{apply_patches}
use unison_orchestrator.Phase1.Progress.{is_completed, stage_in, kept, Stands-profile, Stands}

-- The profile once what a turn comes to is done.
unfoldable pub settle : Fields → Turn → Fields
unfolding apply_patches
settle prof (patch ps) = apply_patches ps prof
settle prof _ = prof

-- The profile after a turn.
unfoldable pub after : (Json → String) → String → Fields → Fields
unfolding settle
after py_str raw prof = settle prof (turn_of py_str raw prof)

-- An answer that is taken at a stage.
abbrev At : (Json → String) → String → Fields → String → Type 0
At py_str stage prof raw =
    (is_completed prof ≡ false) × (stage_in py_str prof ≡ stage) × ((strip raw == "") ≡ false)

abbrev setup : Fields → Fields
setup prof = dict_or_empty (get "preferences" prof)

abbrev named : String → Fields
named text = dict (
    ("preferred_name", str (strip text))
    ∷ ("onboarding", obj (onboarding_fields false "verbosity" (str "verbosity")))
    ∷ [])

abbrev with_prefs : Fields → Fields → Fields
with_prefs payload prof = put "preferences" (obj (deep_merge (setup prof) payload)) prof

turn_of-At :
    (py_str : Json → String) (stage raw : String) (prof : Fields)
    → At py_str stage prof raw
    → turn_of py_str raw prof ≡ stage_turn stage (strip raw) prof
unfolding turn_of
turn_of-At py_str stage raw prof (c, s, b) = ground (arith, c, s, b)

stage_turn-name :
    (text : String) (prof : Fields)
    → finishes (norm text) ≡ false
    → (greets text || is_filler (norm text)) ≡ false
    → settle prof (stage_turn "name" text prof) ≡ deep_merge prof (named text)
unfolding stage_turn name_turn settle apply_patches upserted
stage_turn-name text prof f g = ground (arith, f, g)

stage_turn-verbosity :
    (text v : String) (prof : Fields)
    → finishes (norm text) ≡ false
    → verbosity_of (norm text) ≡ some v
    → settle prof (stage_turn "verbosity" text prof)
      ≡ deep_merge
          (with_prefs (dict (("verbosity", str v) ∷ [])) prof)
          (onboarding_patch false "density" (str "visual_density"))
unfolding stage_turn verbosity_turn settle apply_patches upserted
stage_turn-verbosity text v prof f g = ground (arith, f, g)

stage_turn-density :
    (text d : String) (prof : Fields)
    → finishes (norm text) ≡ false
    → density_of (norm text) ≡ some d
    → settle prof (stage_turn "density" text prof)
      ≡ deep_merge
          (with_prefs (dict (("visual_density", str d) ∷ [])) prof)
          (onboarding_patch false "confirm" (str "confirm"))
unfolding stage_turn density_turn settle apply_patches upserted
stage_turn-density text d prof f g = ground (arith, f, g)

stage_turn-confirm :
    (text : String) (prof : Fields)
    → has_name prof ≡ true
    → has_prefs prof ≡ true
    → settle prof (stage_turn "confirm" text prof)
      ≡ deep_merge prof (onboarding_patch true "done" null)
unfolding stage_turn confirm_turn settle apply_patches upserted
stage_turn-confirm text prof n p = ground (arith, n, p)

-- A patch that names no preferences leaves those just written.
setup-with_prefs :
    (payload p q : Fields)
    → Distinct q
    → get "preferences" q ≡ none
    → setup (deep_merge (with_prefs payload p) q) ≡ deep_merge (setup p) payload
setup-with_prefs payload p q h e =
    rw
      (
        kept "preferences" (with_prefs payload p) q h e,
        get-put "preferences" "preferences" (obj (deep_merge (setup p) payload)) p,
      )
      refl

name-with_prefs :
    (payload p q : Fields)
    → Distinct q
    → get "preferred_name" q ≡ none
    → get "preferred_name" (deep_merge (with_prefs payload p) q) ≡ get "preferred_name" p
name-with_prefs payload p q h e =
    rw
      (
        kept "preferred_name" (with_prefs payload p) q h e,
        get-put "preferences" "preferred_name" (obj (deep_merge (setup p) payload)) p,
      )
      refl

-- What the turns build up.
Named : String → Fields → Type 0
Named raw p = get "preferred_name" p ≡ some (str (strip (strip raw)))

At-stage :
    (py_str : Json → String) (stage raw : String) (p : Fields)
    → Stands stage false p
    → (stage == "") ≡ false
    → (strip raw == "") ≡ false
    → At py_str stage p raw
At-stage py_str stage raw p (s, c) e b = (rw c refl, rw (s, e) refl, b)

-- An answer that asks for nothing else: not blank, and no request to finish.
abbrev pub Answers : String → Type 0
Answers raw = ((strip raw == "") ≡ false) × (finishes (norm (strip raw)) ≡ false)

name_step :
    (py_str : Json → String) (raw : String) (prof : Fields)
    → At py_str "name" prof raw
    → finishes (norm (strip raw)) ≡ false
    → (greets (strip raw) || is_filler (norm (strip raw))) ≡ false
    → let p = after py_str raw prof in Stands "verbosity" false p × Named raw p
unfolding after get Named
name_step py_str raw prof a f g =
    let e : after py_str raw prof ≡ deep_merge prof (named (strip raw)) =
      ap (settle prof) (turn_of-At py_str "name" raw prof a)
      ∙ stage_turn-name (strip raw) prof f g in
    subst (λ p. Stands "verbosity" false p × Named raw p) (sym e)
      (
        Stands-profile "verbosity" false (str "verbosity") prof (named (strip raw))
            (refl, (refl, tt)) refl,
        rw (get-deep_merge "preferred_name" prof (named (strip raw)) (refl, (refl, tt))) refl,
      )

verbosity_step :
    (py_str : Json → String) (name raw v : String) (prof : Fields)
    → Stands "verbosity" false prof × Named name prof
    → Answers raw
    → verbosity_of (norm (strip raw)) ≡ some v
    → let p = after py_str raw prof in
      Stands "density" false p × Named name p × get "verbosity" (setup p) ≡ some (str v)
unfolding after get Named
verbosity_step py_str name raw v prof (st, n) (b, f) g =
    let payload = dict (("verbosity", str v) ∷ []) in
    let q = onboarding_patch false "density" (str "visual_density") in
    let e : after py_str raw prof ≡ deep_merge (with_prefs payload prof) q =
      ap (settle prof)
        (turn_of-At py_str "verbosity" raw prof (At-stage py_str "verbosity" raw prof st refl b))
      ∙ stage_turn-verbosity (strip raw) v prof f g in
    subst (λ p. Stands "density" false p × Named name p × get "verbosity" (setup p) ≡ some (str v))
      (sym e)
      (
        Stands-profile "density" false (str "visual_density") (with_prefs payload prof) q (refl, tt)
            refl,
        name-with_prefs payload prof q (refl, tt) refl ∙ n,
        ap (get "verbosity") (setup-with_prefs payload prof q (refl, tt) refl)
            ∙ get-deep_merge "verbosity" (setup prof) payload (refl, tt),
      )

density_step :
    (py_str : Json → String) (name raw v d : String) (prof : Fields)
    → Stands "density" false prof × Named name prof × get "verbosity" (setup prof) ≡ some (str v)
    → Answers raw
    → density_of (norm (strip raw)) ≡ some d
    → let p = after py_str raw prof in
      Stands "confirm" false p
      × Named name p
      × get "verbosity" (setup p) ≡ some (str v)
      × get "visual_density" (setup p) ≡ some (str d)
unfolding after get Named
density_step py_str name raw v d prof (st, n, o) (b, f) g =
    let payload = dict (("visual_density", str d) ∷ []) in
    let q = onboarding_patch false "confirm" (str "confirm") in
    let e : after py_str raw prof ≡ deep_merge (with_prefs payload prof) q =
      ap (settle prof)
        (turn_of-At py_str "density" raw prof (At-stage py_str "density" raw prof st refl b))
      ∙ stage_turn-density (strip raw) d prof f g in
    let written = setup-with_prefs payload prof q (refl, tt) refl in
    subst
      (λ p.
        Stands "confirm" false p
        × Named name p
        × get "verbosity" (setup p) ≡ some (str v)
        × get "visual_density" (setup p) ≡ some (str d))
      (sym e)
      (
        Stands-profile "confirm" false (str "confirm") (with_prefs payload prof) q (refl, tt) refl,
        name-with_prefs payload prof q (refl, tt) refl ∙ n,
        ap (get "verbosity") written ∙ kept "verbosity" (setup prof) payload (refl, tt) refl ∙ o,
        ap (get "visual_density") written
            ∙ get-deep_merge "visual_density" (setup prof) payload (refl, tt),
      )

chosen_nonempty :
    (a b c : Bool) (x y z v : String)
    → (x == "") ≡ false
    → (y == "") ≡ false
    → (z == "") ≡ false
    → (if a then some x else if b then some y else if c then some z else none) ≡ some v
    → (v == "") ≡ false
chosen_nonempty a b c x y z v hx hy hz e = ground (arith, e, hx, hy, hz)

verbosity_of_nonempty : (s v : String) → verbosity_of s ≡ some v → (v == "") ≡ false
unfolding verbosity_of
verbosity_of_nonempty s v e = chosen_nonempty _ _ _ "minimal" "detailed" "normal" v refl refl refl e

density_of_nonempty : (s d : String) → density_of s ≡ some d → (d == "") ≡ false
unfolding density_of
density_of_nonempty s d e = chosen_nonempty _ _ _ "sparse" "balanced" "dense" d refl refl refl e

confirm_step :
    (py_str : Json → String) (name raw v d : String) (prof : Fields)
    → (strip name == "") ≡ false
    → (v == "") ≡ false
    → (d == "") ≡ false
    → Stands "confirm" false prof
      × Named name prof
      × get "verbosity" (setup prof) ≡ some (str v)
      × get "visual_density" (setup prof) ≡ some (str d)
    → (strip raw == "") ≡ false
    → let p = after py_str raw prof in
      is_completed p ≡ true
      × Named name p
      × get "verbosity" (setup p) ≡ some (str v)
      × get "visual_density" (setup p) ≡ some (str d)
unfolding after get Named
confirm_step py_str name raw v d prof nb vn dn (st, n, o, u) b =
    let q = onboarding_patch true "done" null in
    let named_there : has_name prof ≡ true =
      rw (n, has_name) (ap not (strip-strip_blank (strip name) ∙ strip-strip_blank name ∙ nb)) in
    let chosen : has_prefs prof ≡ true = rw (o, u, vn, dn) refl in
    let e : after py_str raw prof ≡ deep_merge prof q =
      ap (settle prof)
        (turn_of-At py_str "confirm" raw prof (At-stage py_str "confirm" raw prof st refl b))
      ∙ stage_turn-confirm (strip raw) prof named_there chosen in
    subst
      (λ p.
        is_completed p ≡ true
        × Named name p
        × get "verbosity" (setup p) ≡ some (str v)
        × get "visual_density" (setup p) ≡ some (str d))
      (sym e)
      (
        rw ((Stands-profile "done" true null prof q (refl, tt) refl).1) refl,
        kept "preferred_name" prof q (refl, tt) refl ∙ n,
        ap (λ j. get "verbosity" (dict_or_empty j)) (kept "preferences" prof q (refl, tt) refl) ∙ o,
        ap (λ j. get "visual_density" (dict_or_empty j)) (kept "preferences" prof q (refl, tt) refl)
            ∙ u,
      )

-- From any profile that is not onboarded and stands at its name, four answers complete the
-- onboarding: a name that is no greeting and no filler, a verbosity and a density that are known,
-- none of them a request to finish, and a last one that is not blank. The profile then has the
-- name and the two preferences that were chosen.
pub onboarding_completes :
    (py_str : Json → String) (prof : Fields) (name verbosity density last v d : String)
    → is_completed prof ≡ false
    → stage_in py_str prof ≡ "name"
    → Answers name
    → (greets (strip name) || is_filler (norm (strip name))) ≡ false
    → Answers verbosity
    → verbosity_of (norm (strip verbosity)) ≡ some v
    → Answers density
    → density_of (norm (strip density)) ≡ some d
    → (strip last == "") ≡ false
    → let p =
        after py_str last
          (after py_str density (after py_str verbosity (after py_str name prof))) in
      (is_completed p ≡ true)
      × (get "preferred_name" p ≡ some (str (strip (strip name))))
      × (get "verbosity" (dict_or_empty (get "preferences" p)) ≡ some (str v))
      × (get "visual_density" (dict_or_empty (get "preferences" p)) ≡ some (str d))
unfolding Named
onboarding_completes py_str prof name verbosity density last v d c s (nb, nf) g vb vk db dk lb =
    let named_now = name_step py_str name prof (c, s, nb) nf g in
    let p1 = after py_str name prof in
    let p2 = after py_str verbosity p1 in
    let p3 = after py_str density p2 in
    confirm_step py_str name last v d p3 nb (verbosity_of_nonempty (norm (strip verbosity)) v vk)
      (density_of_nonempty (norm (strip density)) d dk)
      (density_step py_str name density v d p2
        (verbosity_step py_str name verbosity v p1 named_now vb vk) db dk)
      lb
