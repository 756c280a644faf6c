-- ===== src/Payments/Listed.antt =====
-- An instrument that was registered, in the profile of its person.
use unison_orchestrator.Prelude.{
  String, Bool, true, false, Option, none, some, List, [], ◌∷◌, ◌++◌, if◌then◌else◌, ◌≡◌, refl, ap,
  ◌∙◌, arith, ◌==◌, eq_iff, Bool-cases, inl, inr, append-nil,
}
use unison_orchestrator.Prelude.Json.{
  Json, arr, str, obj, Items, nil, cons, Fields, get, put, dict_or_empty, is_text, append, get-put,
}
use unison_orchestrator.Payments.Types.{PaymentInstrument}
use unison_orchestrator.Payments.Metadata.{
  ContextReply, instrument_entry, other_instruments, instruments_in, list_instruments,
  with_instrument, profile_read, profile_to_write, persist_instrument,
}
use unison_orchestrator.Payments.Service.{
  PaymentService, Outside, store_secret, with_key, register_instrument,
}

-- The entries of an instrument, in their order.
unfoldable pub entries_for : String → Items → List Fields
entries_for id nil = []
entries_for id (cons (obj d) rest) =
    let later = entries_for id rest in
    if is_text id (get "instrument_id" d) then d ∷ later else later
entries_for id (cons v rest) = entries_for id rest

-- Every item is a dict.
unfoldable pub all_dicts : Items → Bool
all_dicts nil = true
all_dicts (cons (obj d) rest) = all_dicts rest
all_dicts (cons v rest) = false

entries_for-append :
    (id : String) (l : Items) (e : Fields)
    → entries_for id (append l (obj e))
      ≡ entries_for id l ++ (if is_text id (get "instrument_id" e) then e ∷ [] else [])
unfolding entries_for
entries_for-append id nil e = refl
entries_for-append id (cons (obj d) rest) e =
    elim (Bool-cases (is_text id (get "instrument_id" d))) [
      | inl b ↦ rw b (ap (λ l. d ∷ l) (entries_for-append id rest e))
      | inr b ↦ rw b (entries_for-append id rest e)
    ]
entries_for-append id (cons v rest) e = entries_for-append id rest e

-- What the others are, where every item is a dict.
record Others (id : String) (l others : Items) : Type 0 where
  found : other_instruments id l ≡ some others
  none_left : entries_for id others ≡ []
  rest_left : (j : String) → (j == id) ≡ false → entries_for j others ≡ entries_for j l

-- A dict with one text for its id has no other.
other_text :
    (id j : String) (v : Option Json)
    → is_text id v ≡ true
    → (j == id) ≡ false
    → is_text j v ≡ false
other_text id j (some (str t)) e n = ground (arith, e, n, eq_iff id t, eq_iff j t, eq_iff j id)
other_text id j (some v) e n = absurd (ground (arith, e))
other_text id j none e n = absurd (ground (arith, e))

other_instruments_lem :
    (id : String) (l : Items) → all_dicts l ≡ true → (others : Items) × Others id l others
unfolding other_instruments entries_for all_dicts
other_instruments_lem id nil h =
    (nil, record { found = refl; none_left = refl; rest_left = λ j n. refl })
other_instruments_lem id (cons (obj d) rest) h =
    let (others, o) = other_instruments_lem id rest h in
    elim (Bool-cases (is_text id (get "instrument_id" d))) [
      | inl b ↦ (
        others,
        record {
          found = rw (o.found, b) refl;
          none_left = o.none_left;
          rest_left =
              λ j n. o.rest_left j n ∙ rw (other_text id j (get "instrument_id" d) b n) refl;
        },
      )
      | inr b ↦ (
        cons (obj d) others,
        record {
          found = rw (o.found, b) refl;
          none_left = rw b (o.none_left);
          rest_left = λ j n. rw (o.rest_left j n) refl;
        },
      )
    ]
other_instruments_lem id (cons v rest) h = absurd (ground (arith, h))

instruments_in-list_instruments :
    (profile : Fields) (l : Items) → instruments_in (list_instruments profile l) ≡ l
instruments_in-list_instruments profile l =
    let payments = dict_or_empty (get "payments" profile) in
    rw
      (
        get-put "payments" "payments" (obj (put "instruments" (arr l) payments)) profile,
        get-put "instruments" "instruments" (arr l) payments,
      )
      refl

-- The profile has one entry of the instrument, as it is now; the entries of the other instruments,
-- what else stands with the payments, and the rest of the profile are as before.
unfoldable pub Listed : PaymentInstrument → Fields → Fields → Type 0
Listed i before after =
    (entries_for i.instrument_id (instruments_in after) ≡ instrument_entry i ∷ [])
    × ((j : String)
        → (j == i.instrument_id) ≡ false
        → entries_for j (instruments_in after) ≡ entries_for j (instruments_in before))
    × ((k : String)
        → (k == "instruments") ≡ false
        → get k (dict_or_empty (get "payments" after))
          ≡ get k (dict_or_empty (get "payments" before)))
    × ((k : String) → (k == "payments") ≡ false → get k after ≡ get k before)

-- The others, and the entry after them.
abbrev with_entry : PaymentInstrument → Items → Items
with_entry i others = append others (obj (instrument_entry i))

entries_for_self :
    (i : PaymentInstrument) (l others : Items)
    → Others i.instrument_id l others
    → entries_for i.instrument_id (with_entry i others) ≡ instrument_entry i ∷ []
unfolding instrument_entry get
entries_for_self i l others o =
    rw
      (
        entries_for-append i.instrument_id others (instrument_entry i),
        o.none_left,
        (eq_iff i.instrument_id i.instrument_id).1 refl,
      )
      refl

entries_for_other :
    (i : PaymentInstrument) (l others : Items)
    → Others i.instrument_id l others
    → (j : String) → (j == i.instrument_id) ≡ false
    → entries_for j (with_entry i others) ≡ entries_for j l
unfolding instrument_entry get
entries_for_other i l others o j n =
    rw (entries_for-append j others (instrument_entry i), n, append-nil (entries_for j others))
      (o.rest_left j n)

get-put_ne : (k j : String) (v : Json) (d : Fields) → (j == k) ≡ false → get j (put k v d) ≡ get j d
get-put_ne k j v d n = ground (arith, get-put k j v d, n, eq_iff k j, eq_iff j k)

list_instruments-Listed :
    (i : PaymentInstrument) (profile : Fields) (others : Items)
    → Others i.instrument_id (instruments_in profile) others
    → Listed i profile (list_instruments profile (with_entry i others))
unfolding Listed
list_instruments-Listed i profile others o =
    let l = with_entry i others in
    let payments = dict_or_empty (get "payments" profile) in
    let listed = instruments_in-list_instruments profile l in
    (
      ap (entries_for i.instrument_id) listed
          ∙ entries_for_self i (instruments_in profile) others o,
      λ j n. ap (entries_for j) listed ∙ entries_for_other i (instruments_in profile) others o j n,
      λ k n.
          ap (λ o. get k (dict_or_empty o))
            (get-put "payments" "payments" (obj (put "instruments" (arr l) payments)) profile)
          ∙ get-put_ne "instruments" k (arr l) payments n,
      λ k n. get-put_ne "payments" k (obj (put "instruments" (arr l) payments)) profile n,
    )

with_instrument-Listed :
    (i : PaymentInstrument) (profile : Fields)
    → all_dicts (instruments_in profile) ≡ true
    → (out : Fields) × (with_instrument i profile ≡ some out) × Listed i profile out
unfolding with_instrument
with_instrument-Listed i profile h =
    let (others, o) = other_instruments_lem i.instrument_id (instruments_in profile) h in
    (
      list_instruments profile (with_entry i others),
      rw (o.found, with_instrument) refl,
      list_instruments-Listed i profile others o,
    )

module _ {V C : Type 0} (outside : Outside V C) where
  persist_instrument-Listed :
      (i : PaymentInstrument) (c : C) (reply : ContextReply) (profile : Fields)
      → outside.context_get c i.person_id ≡ some reply
      → profile_read reply ≡ some profile
      → all_dicts (instruments_in profile) ≡ true
      → (out : Fields) × (persist_instrument outside.context_get outside.context_post i (some c)
          ≡ some (outside.context_post c i.person_id out))
        × Listed i profile out
  unfolding persist_instrument
  persist_instrument-Listed i c reply profile e r h =
      let (out, made, listed) = with_instrument-Listed i profile h in
      (out, rw (e, profile_to_write, r, made) refl, listed)

  with_key-Listed :
      (key : Option String) (i : PaymentInstrument) (c : C) (reply : ContextReply)
      (profile : Fields)
      → outside.context_get c i.person_id ≡ some reply
      → profile_read reply ≡ some profile
      → all_dicts (instruments_in profile) ≡ true
      → (out : Fields) × (persist_instrument outside.context_get outside.context_post
            (with_key outside key i)
            (some c)
          ≡ some (outside.context_post c i.person_id out))
        × Listed (with_key outside key i) profile out
  with_key-Listed (some k) i c reply profile e r h =
      persist_instrument-Listed (record i { vault_key = some k }) c reply profile e r h
  with_key-Listed none i c reply profile e r h = persist_instrument-Listed i c reply profile e r h

  -- Registering an instrument for a person whose profile, as the context service's reply gives it,
  -- lists dicts alone: one profile is written, with one entry of the instrument as it was registered;
  -- the entries of the others, what else stands with the payments, and the rest of the profile are
  -- as in that reply, where the profile of a read that failed is empty.
  pub register_instrument-Listed :
      (i : PaymentInstrument) (token : Option String) (s : PaymentService V C) (c : C)
      (reply : ContextReply) (profile : Fields)
      → s.context ≡ some c
      → outside.context_get c i.person_id ≡ some reply
      → profile_read reply ≡ some profile
      → all_dicts (instruments_in profile) ≡ true
      → let done = register_instrument outside i token s in
        (out : Fields) × (done.1.context ≡ some (outside.context_post c i.person_id out))
        × Listed (done.0) profile out
  unfolding register_instrument
  register_instrument-Listed i token s c reply profile there e r h =
      let key = (store_secret outside i token s.storage).0 in
      let (out, written, listed) = with_key-Listed key i c reply profile e r h in
      (
        out,
        ap (persist_instrument outside.context_get outside.context_post (with_key outside key i))
              there
            ∙ written,
        listed,
      )
