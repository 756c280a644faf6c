-- ===== src/Phase1/Merge.antt =====
-- `_deep_merge`, key by key.
use unison_orchestrator.Prelude.{
  String, Option, none, some, ◌≡◌, refl, arith, ◌==◌, eq_iff, if◌then◌else◌, Option-cases, inl, inr,
}
use unison_orchestrator.Prelude.Json.{
  Json, null, obj, Fields, end, field, get, put, Distinct, get-put,
}
use unison_orchestrator.Phase1.Memory.{deep_merge, dict_of}

-- What a merge leaves at a key that has the second value in the base.
abbrev pub merged : Option Json → Option Json → Option Json
merged none old = old
merged (some (obj p)) old = some (obj (elim (dict_of old) [ none ↦ p | some b ↦ deep_merge b p ]))
merged (some v) old = some v

-- After one key of the patch, the rest of it is merged into the result.
merge_step :
    (k j : String) (v w : Json) (base rest : Fields)
    → get j rest ≡ none
    → merged (some v) (get j base) ≡ some w
    → get k (deep_merge (put j w base) rest) ≡ merged (get k rest) (get k (put j w base))
    → get k (deep_merge (put j w base) rest)
      ≡ merged (if j == k then some v else get k rest) (get k base)
merge_step k j v w base rest new value ih =
    ground (arith, ih, new, value, get-put j k w base, eq_iff j k)

-- Where the patch has nothing the base stays; a dict goes into a dict by the same rule; any other
-- value of the patch replaces what was there. The keys of the patch are distinct.
pub get-deep_merge :
    (k : String) (base patch : Fields)
    → Distinct patch
    → get k (deep_merge base patch) ≡ merged (get k patch) (get k base)
unfolding get deep_merge
get-deep_merge k base end h = refl
get-deep_merge k base (field j (obj p) rest) (new, h) = elim (Option-cases (dict_of (get j base))) [
  | inl e ↦
      rw (e, deep_merge)
        (merge_step k j (obj p) (obj p) base rest new (ground (arith, e))
          (get-deep_merge k (put j (obj p) base) rest h))
  | inr (b, e) ↦
      let w = obj (deep_merge b p) in
      rw (e, deep_merge)
        (merge_step k j (obj p) w base rest new (ground (arith, e))
          (get-deep_merge k (put j w base) rest h))
]
get-deep_merge k base (field j null rest) (new, h) =
    merge_step k j null null base rest new refl (get-deep_merge k (put j null base) rest h)
get-deep_merge k base (field j v rest) (new, h) =
    merge_step k j v v base rest new refl (get-deep_merge k (put j v base) rest h)
