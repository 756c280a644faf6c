-- ===== src/Payments/Agreement.antt =====
-- What the service answers about a transaction is what its provider holds.
use mathlib.Core.Path.{subst}
use unison_orchestrator.Prelude.{
  String, Bool, true, false, Option, none, some, List, [], ◌∷◌, ◌==◌, ◌≡◌, refl, sym, ap, eq_iff,
  Result, ok, err, Bool-cases, Option-cases, inl, inr,
}
use unison_orchestrator.Prelude.Dict.{Dict, lookup, insert, lookup-insert}
use unison_orchestrator.Payments.Types.{
  PaymentInstrument, PaymentTransactionRequest, PaymentTransaction, status_named, WebhookPayload,
  PaymentError, value_error, key_error,
}
use unison_orchestrator.Payments.Provider.{
  Provider, ProviderKind, mock, cardbank, provider_create, provider_status, provider_webhook,
  mock_webhook, card_webhook, update_known, known_txn, tagged, keep_txn, mock_transaction,
  synthetic, or_default, with_default, verify_signature, updated,
}
use unison_orchestrator.Payments.Service.{
  PaymentService, Outside, get_transaction_status, noted, with_token, settled, Call, register,
  create, webhook, register_instrument, after_call, after_calls, new_service,
}

-- What stands under an id has this id.
HasId : String → Option PaymentTransaction → Type 0
HasId q none = Unit
HasId q (some txn) = txn.txn_id ≡ q

KeyedAt : String → Dict PaymentTransaction → Type 0
KeyedAt q d = HasId q (lookup q d)

-- A provider's step: it stores the transaction that it gives back under its id, and leaves the rest.
Stores : Provider → Result PaymentError (PaymentTransaction × Provider) → Type 0
Stores p (ok (txn, q)) = q ≡ keep_txn (txn.txn_id) txn p
Stores p (err e) = Unit

create-Stores :
    (id : String) (r : PaymentTransactionRequest) (p : Provider) → Stores p (provider_create id r p)
unfolding provider_create mock_transaction Stores
create-Stores id r p = go (p.kind) refl
  where
    go : (k : ProviderKind) → p.kind ≡ k → Stores p (provider_create id r p)
    go mock e = rw (e, Stores) refl
    go cardbank e = elim (Bool-cases (or_default "" r.provider_token == "")) [
      | inl b ↦ rw (e, b, Stores) tt
      | inr b ↦ rw (e, b, Stores) refl
    ]

update-Stores :
    (key text : String) (brought : Bool) (txn : PaymentTransaction) (p : Provider)
    → txn.txn_id ≡ key
    → Stores p (update_known key text brought txn p)
unfolding update_known Stores
update-Stores key text brought txn p e = elim (Option-cases (status_named text)) [
  | inl n ↦ rw (n, Stores) tt
  | inr (s, n) ↦ rw (n, Stores) (ap (λ k. keep_txn k (updated s text brought txn) p) (sym e))
]

synthetic-Stores :
    (id text : String) (w : WebhookPayload) (p : Provider)
    → Stores p (elim (status_named text) [
      | none ↦ err (value_error text)
      | some s ↦
          let txn = synthetic (or_default id w.txn_id) p.name s text w in
          ok (txn, keep_txn (txn.txn_id) txn p)
    ])
unfolding Stores
synthetic-Stores id text w p = elim (Option-cases (status_named text)) [
  | inl n ↦ rw (n, Stores) tt
  | inr (s, n) ↦ rw (n, Stores) refl
]

-- The transaction that a webhook names stands under its own id.
NamedAt : Option (String × PaymentTransaction) → Type 0
NamedAt (some (key, txn)) = txn.txn_id ≡ key
NamedAt none = Unit

known_txn-NamedAt :
    (p : Provider) (id : Option String)
    → ((q : String) → KeyedAt q p.txns)
    → NamedAt (known_txn id p)
unfolding KeyedAt NamedAt HasId
known_txn-NamedAt p none h = tt
known_txn-NamedAt p (some id) h = go (lookup id p.txns) (h id)
  where
    go : (v : Option PaymentTransaction) → HasId id v → NamedAt (tagged id v)
    go none h = tt
    go (some txn) h = h

mock-Stores :
    (id : String) (w : WebhookPayload) (p : Provider)
    → NamedAt (known_txn w.txn_id p)
    → Stores p (mock_webhook id w p)
unfolding mock_webhook NamedAt
mock-Stores id w p h = elim (Option-cases (known_txn w.txn_id p)) [
  | inl e ↦ rw (e, mock_webhook) (synthetic-Stores id (with_default "succeeded" w.status) w p)
  | inr ((key, txn), e) ↦
      rw (e, mock_webhook)
        (update-Stores key (with_default "succeeded" w.status) false txn p (subst NamedAt e h))
]

card-Stores :
    (hmac : String → String → String) (w : WebhookPayload) (p : Provider)
    → NamedAt (known_txn w.txn_id p)
    → Stores p (card_webhook hmac w p)
unfolding card_webhook NamedAt Stores
card-Stores hmac w p h =
    elim (Bool-cases (verify_signature hmac p (with_default "" w.raw_body) w.signature)) [
      | inr b ↦ rw (b, Stores, card_webhook) tt
      | inl b ↦
          rw (b, Stores, card_webhook)
            (elim (Option-cases (known_txn w.txn_id p)) [
              | inl e ↦ rw (e, Stores) tt
              | inr ((key, txn), e) ↦
                  rw (e, Stores)
                    (update-Stores key (with_default "failed" w.status) true txn p
                      (subst NamedAt e h))
            ])
    ]

webhook-Stores :
    (hmac : String → String → String) (id : String) (w : WebhookPayload) (p : Provider)
    → ((q : String) → KeyedAt q p.txns)
    → Stores p (provider_webhook hmac id w p)
unfolding provider_webhook
webhook-Stores hmac id w p h = go (p.kind)
  where
    named : NamedAt (known_txn w.txn_id p)
    named = known_txn-NamedAt p w.txn_id h

    go :
        (k : ProviderKind)
        → Stores p (elim k [ mock ↦ mock_webhook id w p | cardbank ↦ card_webhook hmac w p ])
    go mock = mock-Stores id w p named
    go cardbank = card-Stores hmac w p named

-- The service's answer, from the two entries under an id, is the provider's.
Seen : String → Option PaymentTransaction → Option PaymentTransaction → Type 0
Seen q mine held =
    let theirs : Result PaymentError PaymentTransaction = elim held [
      | some txn ↦ ok txn
      | none ↦ err (key_error q)
    ] in
    elim mine [ some txn ↦ ok txn | none ↦ theirs ] ≡ theirs

Seen-same : (q : String) (txn : PaymentTransaction) → Seen q (some txn) (some txn)
unfolding Seen
Seen-same q txn = refl

Seen-insert :
    (q id : String) (txn : PaymentTransaction) (mine held : Dict PaymentTransaction)
    → Seen q (lookup q mine) (lookup q held)
    → Seen q (lookup q (insert id txn mine)) (lookup q (insert id txn held))
Seen-insert q id txn mine held h =
    rw (lookup-insert id q txn mine, lookup-insert id q txn held)
      (elim (Bool-cases (id == q)) [ inl b ↦ rw b (Seen-same q txn) | inr b ↦ rw b h ])

KeyedAt-insert :
    (q : String) (txn : PaymentTransaction) (held : Dict PaymentTransaction)
    → KeyedAt q held
    → KeyedAt q (insert (txn.txn_id) txn held)
unfolding KeyedAt HasId
KeyedAt-insert q txn held h =
    rw (lookup-insert (txn.txn_id) q txn held) (elim (Bool-cases (txn.txn_id == q)) [
      | inl b ↦ rw b ((eq_iff (txn.txn_id) q).0 b)
      | inr b ↦ rw b h
    ])

module _ {V C : Type 0} (outside : Outside V C) where
  -- At an id, what the provider holds has this id, and the service answers what the provider does.
  AgreesAt : String → PaymentService V C → Type 0
  AgreesAt q s =
      KeyedAt q s.provider.txns × Seen q (lookup q s.transactions) (lookup q s.provider.txns)

  noted-AgreesAt :
      (q : String) (txn : PaymentTransaction) (p : Provider) (i : Option PaymentInstrument)
      (s : PaymentService V C)
      → p ≡ keep_txn (txn.txn_id) txn s.provider
      → AgreesAt q s
      → AgreesAt q (noted outside txn p i s)
  unfolding AgreesAt
  noted-AgreesAt q txn p i s e (k, a) =
      subst (λ z. AgreesAt q (noted outside txn z i s)) (sym e)
        (
          KeyedAt-insert q txn s.provider.txns k,
          Seen-insert q (txn.txn_id) txn s.transactions s.provider.txns a,
        )

  after_call-AgreesAt :
      (hmac : String → String → String) (c : Call) (s : PaymentService V C)
      → ((q : String) → AgreesAt q s)
      → (q : String) → AgreesAt q (after_call outside hmac c s)
  unfolding after_call register_instrument AgreesAt Stores
  after_call-AgreesAt hmac (register i token) s h q = h q
  after_call-AgreesAt hmac (create id r) s h q =
      go (provider_create id (with_token outside r s) s.provider)
        (create-Stores id (with_token outside r s) s.provider)
    where
      go :
          (r' : Result PaymentError (PaymentTransaction × Provider))
          → Stores s.provider r'
          → AgreesAt q (
              settled outside
                (elim r' [
                  | err e ↦ err e
                  | ok (txn, p) ↦
                      ok (txn, noted outside txn p (lookup (r.instrument_id) s.instruments) s)
                ])
                s)
      go (ok (txn, p)) e = noted-AgreesAt q txn p (lookup (r.instrument_id) s.instruments) s e (h q)
      go (err e) _ = h q
  after_call-AgreesAt hmac (webhook id name w) s h q = elim (Bool-cases (name == s.provider.name)) [
    | inl b ↦ rw b (
        go (provider_webhook hmac id w s.provider)
          (webhook-Stores hmac id w s.provider (λ x. (h x).0)))
    | inr b ↦ rw b (h q)
  ]
    where
      go :
          (r' : Result PaymentError (PaymentTransaction × Provider))
          → Stores s.provider r'
          → AgreesAt q (
              settled outside
                (elim r' [
                  | err e ↦ err e
                  | ok (txn, p) ↦
                      ok (txn, noted outside txn p (lookup (txn.instrument_id) s.instruments) s)
                ])
                s)
      go (ok (txn, p)) e =
          noted-AgreesAt q txn p (lookup (txn.instrument_id) s.instruments) s e (h q)
      go (err e) _ = h q

  after_calls-AgreesAt :
      (hmac : String → String → String) (cs : List Call) (s : PaymentService V C)
      → ((q : String) → AgreesAt q s)
      → (q : String) → AgreesAt q (after_calls outside hmac cs s)
  unfolding after_calls
  after_calls-AgreesAt hmac [] s h q = h q
  after_calls-AgreesAt hmac (c ∷ cs) s h q =
      after_calls-AgreesAt hmac cs (after_call outside hmac c s) (after_call-AgreesAt hmac c s h) q

  -- Whatever calls are made on a new service whose provider has no transactions, raising ones
  -- included: it answers about each transaction what its provider holds.
  pub status_agrees :
      (hmac : String → String → String) (p : Provider) (context : Option C) (storage : Option V)
      (cs : List Call) (q : String)
      → p.txns ≡ []
      → let s = after_calls outside hmac cs (new_service outside p context storage) in
        get_transaction_status outside q s ≡ provider_status q s.provider
  unfolding AgreesAt Seen KeyedAt HasId get_transaction_status provider_status lookup
  status_agrees hmac p context storage cs q e =
      (after_calls-AgreesAt hmac cs (new_service outside p context storage)
        (λ x. (subst (KeyedAt x) (sym e) tt, refl)) q).1
