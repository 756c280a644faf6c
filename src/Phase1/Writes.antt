-- ===== src/Phase1/Writes.antt =====
-- What memory operations leave in the context service.
use mathlib.Core.Path.{subst}
use unison_orchestrator.Prelude.{
  String, Bool, true, false, not, ◌&&◌, ◌||◌, Option, none, some, [], ◌∷◌, ◌++◌, ◌≡◌, refl, sym,
  ◌⊎◌, arith, ◌==◌, Bool-cases, inl, inr,
}
use unison_orchestrator.Prelude.Json.{Json, arr, Fields, get, dict_or_empty, is_text, Distinct}
use unison_orchestrator.Phase1.Memory.{
  returned, MemoryOpResult, Reply, World, read_profile, is_success, Request, query, upsert, delete,
  other, request_of, text_or_empty, write_back, delete_keys, perform, execute,
}
use unison_orchestrator.Phase1.Merge.{get-deep_merge}
use unison_orchestrator.Phase1.Parts.{
  part, named_keys, value_after, profile_after, upserted-part, deleted-part, written_kept,
  get-pop_all,
}

-- The operation names a list of keys.
abbrev has_keys : Option Json → Bool
has_keys (some (arr _)) = true
has_keys _ = false

abbrev pub is_write : Request → Option Json → Bool
is_write upsert _ = true
is_write delete keys = has_keys keys
is_write _ _ = false

abbrev known_target : Fields → Bool
known_target op = is_text "profile" (get "target" op) || is_text "preferences" (get "target" op)

abbrev is_person : Option String → Bool
is_person (some p) = not (p == "")
is_person none = false

-- The operation goes as far as the post.
abbrev pub posts : Fields → Bool → Option String → Bool
posts op configured person =
    configured
    && is_person person
    && known_target op
    && is_write (request_of (get "op" op)) (get "keys" (dict_or_empty (get "payload" op)))

is_upsert :
    (op : Fields) → request_of (get "op" op) ≡ upsert → is_text "upsert" (get "op" op) ≡ true
is_upsert op e = ground (arith, e)

no_upsert :
    (op : Fields) → request_of (get "op" op) ≡ delete → is_text "upsert" (get "op" op) ≡ false
no_upsert op e = ground (arith, e)

module _ {S : Type 0} (py_str : Json → String) (fetch : S → String → Reply)
    (post : S → String → Fields → Reply × S) where
  perform_idle :
      (r : Request) (op_id p : String) (op : Fields) (target : Option Json) (w : World S)
      → is_write r (get "keys" (dict_or_empty (get "payload" op))) ≡ false
      → (perform py_str fetch post r op_id p op target w).1 ≡ w
  unfolding perform delete_keys
  perform_idle query op_id p op target w h = refl
  perform_idle upsert op_id p op target w h = absurd (ground arith)
  perform_idle delete op_id p op target w h = go (get "keys" (dict_or_empty (get "payload" op))) h
    where
      go :
          (keys : Option Json)
          → has_keys keys ≡ false
          → (delete_keys py_str fetch post op_id p target
              (is_text "profile" target)
              (read_profile (fetch w.service p))
              keys
              w).1
            ≡ w
      go none h = refl
      go (some (arr ks)) h = absurd (ground arith)
      go (some v) h = refl
  perform_idle other op_id p op target w h = refl

  -- An operation without clients, without a person, on another target than the two, of another kind,
  -- or that deletes without a list of keys posts nothing and invalidates nothing.
  pub execute_idle :
      (op : Fields) (configured : Bool) (person : Option String) (w : World S)
      → posts op configured person ≡ false
      → (execute py_str fetch post op configured person w).1 ≡ w
  unfolding execute
  execute_idle op false person w h = refl
  execute_idle op true none w h = refl
  execute_idle op true (some p) w h = elim (Bool-cases (p == "")) [
    | inl e ↦ rw e refl
    | inr e ↦ rw e (elim (Bool-cases (known_target op)) [
      | inl t ↦ rw t (
          perform_idle (request_of (get "op" op)) _ p op (get "target" op) w
            (rw (sym h, e, t) refl))
      | inr t ↦ rw t (ground arith)
    ])
  ]

  write_back_read :
      (op_id p : String) (target : Option Json) (profile : Fields) (w : World S)
      → (is_success ((post w.service p profile).0.0) ((post w.service p profile).0.1) ≡ true
          → read_profile (fetch ((post w.service p profile).1) p) ≡ profile)
      → (write_back py_str fetch post op_id p target profile w).0.ok ≡ true
      → (read_profile (fetch ((write_back py_str fetch post op_id p target profile w).1.service) p)
          ≡ profile)
        × ((write_back py_str fetch post op_id p target profile w).1.invalidated
            ≡ w.invalidated ++ p ∷ [])
  unfolding write_back
  write_back_read op_id p target profile w keep ok = (keep ok, rw ok refl)

  -- The profile that the operation writes for the person.
  abbrev pub written : Fields → String → World S → Fields
  written op p w = profile_after op (read_profile (fetch w.service p))

  perform_posts :
      (r : Request) (op_id p : String) (op : Fields) (w : World S)
      → request_of (get "op" op) ≡ r
      → is_write r (get "keys" (dict_or_empty (get "payload" op))) ≡ true
      → perform py_str fetch post r op_id p op (get "target" op) w
        ≡ write_back py_str fetch post op_id p (get "target" op) (written op p w) w
  unfolding perform delete_keys
  perform_posts query op_id p op w e h = absurd (ground arith)
  perform_posts upsert op_id p op w e h = rw (is_upsert op e) refl
  perform_posts delete op_id p op w e h = go (get "keys" (dict_or_empty (get "payload" op))) h refl
    where
      go :
          (keys : Option Json)
          → has_keys keys ≡ true
          → get "keys" (dict_or_empty (get "payload" op)) ≡ keys
          → delete_keys py_str fetch post op_id p
              (get "target" op)
              (is_text "profile" (get "target" op))
              (read_profile (fetch w.service p))
              keys
              w
            ≡ write_back py_str fetch post op_id p (get "target" op) (written op p w) w
      go (some (arr ks)) h k = rw (no_upsert op e, named_keys, k) refl
      go none h k = absurd (ground arith)
      go (some v) h k = absurd (ground arith)
  perform_posts other op_id p op w e h = absurd (ground arith)

  -- The service gives back the profile of the last post that it accepted.
  abbrev pub Keeps : Type 0
  Keeps =
      (s : S) (p : String) (profile : Fields)
      → is_success ((post s p profile).0.0) ((post s p profile).0.1) ≡ true
      → read_profile (fetch ((post s p profile).1) p) ≡ profile

  execute-posts :
      (op : Fields) (configured : Bool) (p : String) (w : World S)
      → posts op configured (some p) ≡ true
      → execute py_str fetch post op configured (some p) w
        ≡ returned py_str fetch post (
            write_back py_str fetch post
              (text_or_empty py_str (get "op_id" op))
              p
              (get "target" op)
              (written op p w)
              w)
  unfolding execute
  execute-posts op false p w h = absurd (ground arith)
  execute-posts op true p w h = elim (Bool-cases (p == "")) [
    | inl e ↦ absurd (ground (arith, h, e))
    | inr e ↦ rw e (elim (Bool-cases (known_target op)) [
      | inr t ↦ absurd (ground (arith, h, t))
      | inl t ↦
          rw
            (
              t,
              perform_posts (request_of (get "op" op)) (text_or_empty py_str (get "op_id" op)) p op
                  w refl (ground (arith, h)),
            )
            refl
    ])
  ]

  returned_ok :
      (x : MemoryOpResult × World S) (result : MemoryOpResult)
      → (returned py_str fetch post x).0 ≡ some result
      → result.ok ≡ true
      → x.0.ok ≡ true
  returned_ok (r, w) result e ok = ground (arith, e, ok)

  execute-written :
      (op : Fields) (configured : Bool) (p : String) (w : World S) (result : MemoryOpResult)
      → Keeps
      → posts op configured (some p) ≡ true
      → (execute py_str fetch post op configured (some p) w).0 ≡ some result
      → result.ok ≡ true
      → (read_profile (fetch ((execute py_str fetch post op configured (some p) w).1.service) p)
          ≡ written op p w)
        × ((execute py_str fetch post op configured (some p) w).1.invalidated
            ≡ w.invalidated ++ p ∷ [])
  execute-written op configured p w result keep h gives ok =
      let op_id = text_or_empty py_str (get "op_id" op) in
      let target = get "target" op in
      let e = execute-posts op configured p w h in
      subst
        (λ r.
          (read_profile (fetch (r.1.service) p) ≡ written op p w)
          × (r.1.invalidated ≡ w.invalidated ++ p ∷ []))
        (sym e)
        (write_back_read op_id p target (written op p w) w (keep w.service p (written op p w)) (
          returned_ok (write_back py_str fetch post op_id p target (written op p w) w) result
            (subst (λ r. r.0 ≡ some result) e gives) ok))

  -- The value of a key after the write, from the part of the profile that stood before.
  get-written :
      (k : String) (op : Fields) (p : String) (w : World S)
      → Distinct (dict_or_empty (get "payload" op))
      → Distinct (part op (read_profile (fetch w.service p)))
      → get k (part op (written op p w))
        ≡ value_after k op (part op (read_profile (fetch w.service p)))
  get-written k op p w new old = elim (Bool-cases (is_text "upsert" (get "op" op))) [
    | inl e ↦
        rw (e, upserted-part, get-deep_merge k (part op (read_profile (fetch w.service p))) _ new)
          refl
    | inr e ↦
        rw
          (
            e,
            deleted-part,
            get-pop_all k (named_keys op) (part op (read_profile (fetch w.service p))) old,
          )
          refl
  ]

  -- With a service that gives back the profile of a post it accepted, and an upsert or a delete
  -- that reaches the post and succeeds, a payload and a target with distinct keys: at every key of
  -- the target (the profile, or its preferences) an upsert leaves the payload's value, a dict merged
  -- into the dict that stood there, and what stood there where the payload has none; a delete removes
  -- the keys that it names and no other. An operation on the preferences leaves every other key of
  -- the profile. The person's cache is invalidated once.
  pub execute_writes :
      (k : String) (op : Fields) (configured : Bool) (p : String) (w : World S)
      (result : MemoryOpResult)
      → Keeps
      → posts op configured (some p) ≡ true
      → (execute py_str fetch post op configured (some p) w).0 ≡ some result
      → result.ok ≡ true
      → Distinct (dict_or_empty (get "payload" op))
      → Distinct (part op (read_profile (fetch w.service p)))
      → let after = (execute py_str fetch post op configured (some p) w).1 in
        let old = read_profile (fetch w.service p) in
        let new = read_profile (fetch (after.service) p) in
        (get k (part op new) ≡ value_after k op (part op old))
        × (((is_text "profile" (get "target" op) || k == "preferences") ≡ true)
            ⊎ (get k new ≡ get k old))
        × (after.invalidated ≡ w.invalidated ++ p ∷ [])
  execute_writes k op configured p w result keep h gives ok new old =
      let (read, invalidated) = execute-written op configured p w result keep h gives ok in
      (
        rw read (get-written k op p w new old),
        rw read (written_kept k op (read_profile (fetch w.service p))),
        invalidated,
      )
