-- ===== src/Phase1/Browse.antt =====
-- The browser goes only where the allowlist lets it, whatever a planner model answers.
use mathlib.Core.Path.{subst}
use unison_orchestrator.Prelude.{
  ℕ, zero, suc, String, Bool, true, false, Option, none, some, if◌then◌else◌, ◌≡◌, refl, sym, ap,
  ◌∙◌, arith, ◌==◌, Bool-cases, Option-cases, inl, inr,
}
use unison_orchestrator.Prelude.Json.{
  append, items_or_empty, Json, str, arr, obj, Items, nil, cons, Fields, get, put, dict_or_empty,
  is_text, get-put,
}
use unison_orchestrator.Phase1.Planner.{
  is_allowlisted, authorization_of, browse_call, harden_call, harden_calls, harden, normalize_plan,
  normalize_steps, list_of, extract_url,
}
use unison_orchestrator.Phase1.Stub.{any_text, inject, ensure_vdi_tool_call}

abbrev pub args_of : Fields → Fields
args_of tc = dict_or_empty (get "args" tc)

abbrev pub allows : Fields → Bool
allows tc = is_text "allow" (get "policy_decision" (dict_or_empty (get "authorization" tc)))

-- The n-th item of a list, if it is a dict.
abbrev pub nth_call : ℕ → Items → Option Fields
nth_call n nil = none
nth_call zero (cons (obj tc) rest) = some tc
nth_call zero (cons v rest) = none
nth_call (suc n) (cons v rest) = nth_call n rest

same_text : {a b : String} → some (str a) ≡ some (str b) → a ≡ b
same_text e = ap (λ o. elim o [ some (str s) ↦ s | _ ↦ "" ]) e

module _ (hostname : String → String) (domains : String) where
  -- A browse to a URL off the allowlist is not allowed.
  unfoldable pub Guarded : Fields → Type 0
  Guarded tc =
      (url : String)
      → is_text "vdi.use_computer" (get "tool_name" tc) ≡ true
      → get "url" (args_of tc) ≡ some (str url)
      → (url == "") ≡ false
      → is_allowlisted hostname domains url ≡ false
      → allows tc ≡ false

  unfoldable pub AllGuarded : Items → Type 0
  AllGuarded nil = Unit
  AllGuarded (cons (obj tc) rest) = Guarded tc × AllGuarded rest
  AllGuarded (cons v rest) = AllGuarded rest

  not_allowed :
      (url : String)
      → is_allowlisted hostname domains url ≡ false
      → is_text "allow" (get "policy_decision" (authorization_of hostname domains url)) ≡ false
  unfolding authorization_of get
  not_allowed url h = rw h refl

  pub browse_call-Guarded : (id url : String) → Guarded (browse_call hostname domains id url)
  unfolding Guarded get
  browse_call-Guarded id url other t u ne h =
      not_allowed url (subst (λ x. is_allowlisted hostname domains x ≡ false) (sym (same_text u)) h)

  set-Guarded :
      (tc : Fields) (url : String)
      → get "url" (args_of tc) ≡ some (str url)
      → Guarded (put "authorization" (obj (authorization_of hostname domains url)) tc)
  unfolding Guarded
  set-Guarded tc url e other t u ne h =
      let auth = obj (authorization_of hostname domains url) in
      let same : url ≡ other = same_text (
        sym e
        ∙ ap (λ o. get "url" (dict_or_empty o)) (sym (get-put "authorization" "args" auth tc))
        ∙ u) in
      rw (get-put "authorization" "authorization" auth tc)
        (not_allowed url (subst (λ x. is_allowlisted hostname domains x ≡ false) (sym same) h))

  browse-Guarded :
      (tc : Fields) (v : Option Json)
      → get "url" (args_of tc) ≡ v
      → Guarded (elim v [
        | some (str url) ↦
            if url == ""
            then tc
            else put "authorization" (obj (authorization_of hostname domains url)) tc
        | _ ↦ tc
      ])
  unfolding Guarded
  browse-Guarded tc (some (str url)) e = elim (Bool-cases (url == "")) [
    | inl b ↦
        rw (b, Guarded) (λ other t u ne h. absurd (ground (arith, b, ne, same_text (sym e ∙ u))))
    | inr b ↦ rw (b, Guarded) (set-Guarded tc url e)
  ]
  browse-Guarded tc (some v) e = λ other t u ne h. absurd (ground (arith, sym e ∙ u))
  browse-Guarded tc none e = λ other t u ne h. absurd (ground (arith, sym e ∙ u))

  harden_call-Guarded : (tc : Fields) → Guarded (harden_call hostname domains tc)
  unfolding harden_call Guarded
  harden_call-Guarded tc = elim (Bool-cases (is_text "vdi.use_computer" (get "tool_name" tc))) [
    | inl b ↦ rw (b, Guarded) (browse-Guarded tc (get "url" (args_of tc)) refl)
    | inr b ↦ rw (b, Guarded) (λ other t u ne h. absurd (ground (arith, b, t)))
  ]

  harden_calls-AllGuarded : (items : Items) → AllGuarded (harden_calls hostname domains items)
  unfolding harden_calls AllGuarded
  harden_calls-AllGuarded nil = tt
  harden_calls-AllGuarded (cons (obj tc) rest) =
      (harden_call-Guarded tc, harden_calls-AllGuarded rest)
  harden_calls-AllGuarded (cons v rest) = harden_calls-AllGuarded rest

  append-AllGuarded :
      (items : Items) (tc : Fields)
      → AllGuarded items
      → Guarded tc
      → AllGuarded (append items (obj tc))
  unfolding AllGuarded
  append-AllGuarded nil tc a g = (g, tt)
  append-AllGuarded (cons (obj d) rest) tc a g = (a.0, append-AllGuarded rest tc a.1 g)
  append-AllGuarded (cons v rest) tc a g = append-AllGuarded rest tc a g

  pub nth_call-Guarded :
      (n : ℕ) (items : Items) (tc : Fields)
      → AllGuarded items
      → nth_call n items ≡ some tc
      → Guarded tc
  unfolding AllGuarded
  nth_call-Guarded n nil tc a e = absurd (ground (arith, e))
  nth_call-Guarded zero (cons (obj d) rest) tc a e =
      subst Guarded (ap (λ o. elim o [ some x ↦ x | none ↦ d ]) e) a.0
  nth_call-Guarded zero (cons v rest) tc a e = absurd (ground (arith, e))
  nth_call-Guarded (suc n) (cons (obj d) rest) tc a e = nth_call-Guarded n rest tc a.1 e
  nth_call-Guarded (suc n) (cons v rest) tc a e = nth_call-Guarded n rest tc a e

  unfoldable pub calls : Fields → Items
  calls out = items_or_empty (get "tool_calls" out)

  calls-put :
      (k : String) (v : Json) (out : Fields)
      → (k == "tool_calls") ≡ false
      → calls (put k v out) ≡ calls out
  unfolding calls
  calls-put k v out e = rw (get-put k "tool_calls" v out, e) refl

  pub calls-normalize_plan : (out : Fields) → calls (normalize_plan out) ≡ calls out
  unfolding normalize_plan
  calls-normalize_plan out = elim (Option-cases (list_of (get "steps" out))) [
    | inl e ↦ rw (e, normalize_plan) refl
    | inr (steps, e) ↦
        rw (e, normalize_plan) (calls-put "steps" (arr (normalize_steps steps)) out refl)
  ]

  pub harden-AllGuarded : (out : Fields) → AllGuarded (calls (harden hostname domains out))
  unfolding harden calls AllGuarded
  harden-AllGuarded out = go (get "tool_calls" out) refl
    where
      go :
          (v : Option Json)
          → get "tool_calls" out ≡ v
          → AllGuarded (
              calls (elim (list_of v) [
                | some items ↦ put "tool_calls" (arr (harden_calls hostname domains items)) out
                | none ↦ out
              ]))
      go (some (arr items)) e =
          subst (λ o. AllGuarded (items_or_empty o))
            (sym
              (get-put "tool_calls" "tool_calls" (arr (harden_calls hostname domains items)) out))
            (harden_calls-AllGuarded items)
      go (some v) e = subst (λ o. AllGuarded (items_or_empty o)) (sym e) tt
      go none e = subst (λ o. AllGuarded (items_or_empty o)) (sym e) tt

  inject-AllGuarded :
      (id url : String) (out : Fields)
      → AllGuarded (calls out)
      → AllGuarded (calls (inject hostname domains id url out))
  unfolding inject calls
  inject-AllGuarded id url out a =
      let items =
        append (items_or_empty (get "tool_calls" out))
          (obj (browse_call hostname domains id url)) in
      let called = put "tool_calls" (arr items) out in
      let there : AllGuarded (calls called) =
        subst (λ o. AllGuarded (items_or_empty o))
          (sym (get-put "tool_calls" "tool_calls" (arr items) out))
          (append-AllGuarded (calls out) (browse_call hostname domains id url) a
            (browse_call-Guarded id url)) in
      elim (Bool-cases (any_text "type" "tool" (items_or_empty (get "steps" called)))) [
        | inl e ↦ rw e there
        | inr e ↦ rw e (subst AllGuarded (sym (calls-put "steps" _ called refl)) there)
      ]

  pub ensure-AllGuarded :
      (id : String) (intent : Fields) (raw : String) (out : Fields)
      → AllGuarded (calls out)
      → AllGuarded (calls (ensure_vdi_tool_call hostname domains id intent raw out))
  unfolding ensure_vdi_tool_call
  ensure-AllGuarded id intent raw out a =
      elim (Bool-cases (is_text "actuation" (get "category" intent))) [
        | inr e ↦ rw e a
        | inl e ↦ rw e (elim (Option-cases (extract_url raw)) [
          | inl u ↦ rw u a
          | inr (url, u) ↦
              rw u
                (elim (Bool-cases (
                  any_text "tool_name" "vdi.use_computer"
                    (items_or_empty (get "tool_calls" out)))) [
                      | inl c ↦ rw c a
                      | inr c ↦ rw c (inject-AllGuarded id url out a)
                    ])
        ])
      ]
