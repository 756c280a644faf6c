-- ===== src/Phase1/Parts.antt =====
-- phase1/memory_runtime.py: the part of a profile that a memory operation changes, and what it leaves
-- at each key.
use unison_orchestrator.Prelude.{
  String, Bool, true, false, ◌||◌, Option, none, some, if◌then◌else◌, ◌≡◌, refl, ◌⊎◌, arith, ◌==◌,
  eq_iff, Bool-cases, inl, inr,
}
use unison_orchestrator.Prelude.Json.{
  Json, str, arr, Items, nil, cons, Fields, get, get-put, pop, dict_or_empty, is_text, Distinct,
  get-pop_ne, get-pop_self, pop-Distinct,
}
use unison_orchestrator.Phase1.Memory.{deep_merge, pop_all, upserted, deleted}
use unison_orchestrator.Phase1.Merge.{merged}

-- Some item is this text.
abbrev pub names : String → Items → Bool
names k nil = false
names k (cons (str j) ks) = j == k || names k ks
names k (cons v ks) = names k ks

-- In a profile with distinct keys, deleting a list of keys removes the keys that the list names and
-- no other.
pub get-pop_all :
    (k : String) (keys : Items) (d : Fields)
    → Distinct d
    → get k (pop_all keys d) ≡ (if names k keys then none else get k d)
unfolding pop_all
get-pop_all k nil d h = refl
get-pop_all k (cons (str j) ks) d h = ground (
  arith,
  get-pop_all k ks (pop j d) (pop-Distinct j d h),
  get-pop_ne j k d,
  get-pop_self j d h,
  eq_iff j k,
)
get-pop_all k (cons v ks) d h = get-pop_all k ks d h

-- The part of a profile that the operation is about: the whole, or the preferences.
abbrev pub part : Fields → Fields → Fields
part op profile =
    if is_text "profile" (get "target" op)
    then profile
    else dict_or_empty (get "preferences" profile)

-- The keys that a delete names.
abbrev pub named_keys : Fields → Items
named_keys op = elim (get "keys" (dict_or_empty (get "payload" op))) [
  | some (arr ks) ↦ ks
  | _ ↦ nil
]

-- What an upsert or a delete is to leave at a key of the part.
abbrev pub value_after : String → Fields → Fields → Option Json
value_after k op old =
    if is_text "upsert" (get "op" op)
    then merged (get k (dict_or_empty (get "payload" op))) (get k old)
    else if names k (named_keys op)
    then none
    else get k old

-- The profile that an upsert or a delete writes.
abbrev pub profile_after : Fields → Fields → Fields
profile_after op old =
    let to_profile = is_text "profile" (get "target" op) in
    if is_text "upsert" (get "op" op)
    then upserted to_profile old (dict_or_empty (get "payload" op))
    else deleted to_profile old (named_keys op)

pub upserted-part :
    (op old payload : Fields)
    → part op (upserted (is_text "profile" (get "target" op)) old payload)
      ≡ deep_merge (part op old) payload
unfolding upserted
upserted-part op old payload = elim (Bool-cases (is_text "profile" (get "target" op))) [
  | inl e ↦ rw e refl
  | inr e ↦ rw (e, get-put "preferences" "preferences" _ old) refl
]

pub deleted-part :
    (op old : Fields) (keys : Items)
    → part op (deleted (is_text "profile" (get "target" op)) old keys) ≡ pop_all keys (part op old)
unfolding deleted
deleted-part op old keys = elim (Bool-cases (is_text "profile" (get "target" op))) [
  | inl e ↦ rw e refl
  | inr e ↦ rw (e, get-put "preferences" "preferences" _ old) refl
]

profile_after_kept :
    (k : String) (op old : Fields)
    → is_text "profile" (get "target" op) ≡ false
    → ("preferences" == k) ≡ false
    → get k (profile_after op old) ≡ get k old
unfolding upserted deleted
profile_after_kept k op old t e = elim (Bool-cases (is_text "upsert" (get "op" op))) [
  | inl u ↦ rw (u, t, get-put "preferences" k _ old, e) refl
  | inr u ↦ rw (u, t, get-put "preferences" k _ old, e) refl
]

-- An operation on the preferences leaves the other keys of the profile.
pub written_kept :
    (k : String) (op old : Fields)
    → ((is_text "profile" (get "target" op) || k == "preferences") ≡ true)
      ⊎ (get k (profile_after op old) ≡ get k old)
unfolding upserted deleted
written_kept k op old =
    elim (Bool-cases (is_text "profile" (get "target" op) || k == "preferences")) [
      | inl e ↦ inl e
      | inr e ↦ inr (
          profile_after_kept k op old (ground (arith, e))
            (ground (arith, e, eq_iff k "preferences", eq_iff "preferences" k)))
    ]
