-- ===== src/Payments/Guards.antt =====
-- What a card or bank provider asks for before it changes a transaction.
use unison_orchestrator.Prelude.{
  String, Bool, true, false, Option, none, some, ◌==◌, ◌≡◌, arith, eq_iff, Result, ok, err,
  Bool-cases, inl, inr,
}
use unison_orchestrator.Payments.Types.{
  PaymentTransaction, PaymentTransactionRequest, WebhookPayload, PaymentError, pending,
}
use unison_orchestrator.Payments.Provider.{
  Provider, ProviderKind, mock, cardbank, provider_webhook, provider_create, mock_webhook,
  card_webhook, with_default, or_default, verify_signature,
}
use unison_orchestrator.Payments.Service.{
  PaymentService, Outside, process_webhook, create_transaction, with_token,
}

is_ok : {A : Type 0} → Result PaymentError A → Bool
is_ok (ok _) = true
is_ok (err _) = false

verified_signature :
    (hmac : String → String → String) (p : Provider) (body : String) (signature : Option String)
    → (p.webhook_secret == "") ≡ false
    → verify_signature hmac p body signature ≡ true
    → signature ≡ some (hmac p.webhook_secret body)
unfolding verify_signature
verified_signature hmac p body none secret v = absurd (ground (arith, secret, v))
verified_signature hmac p body (some s) secret v =
    ground (arith, secret, v, eq_iff (hmac p.webhook_secret body) s)

card_webhook_verified :
    (hmac : String → String → String) (w : WebhookPayload) (p : Provider)
    → is_ok (card_webhook hmac w p) ≡ true
    → verify_signature hmac p (with_default "" w.raw_body) w.signature ≡ true
unfolding card_webhook is_ok
card_webhook_verified hmac w p e =
    elim (Bool-cases (verify_signature hmac p (with_default "" w.raw_body) w.signature)) [
      | inl b ↦ b
      | inr b ↦ absurd (ground (arith, e, b))
    ]

card_branch :
    (k : ProviderKind) (a b : Result PaymentError (PaymentTransaction × Provider))
    → k ≡ cardbank
    → is_ok (elim k [ mock ↦ a | cardbank ↦ b ]) ≡ true
    → is_ok b ≡ true
card_branch mock a b e h = absurd (ground (arith, e))
card_branch cardbank a b e h = h

module _ {V C : Type 0} (outside : Outside V C) where
  -- A webhook that a card or bank provider with a secret accepts names this provider and carries
  -- the HMAC of its body under the secret.
  pub process_webhook_signed :
      (hmac : String → String → String) (id name : String) (w : WebhookPayload)
      (s t : PaymentService V C) (txn : PaymentTransaction)
      → s.provider.kind ≡ cardbank
      → (s.provider.webhook_secret == "") ≡ false
      → process_webhook outside hmac id name w s ≡ ok (txn, t)
      → (name ≡ s.provider.name)
        × (w.signature ≡ some (hmac s.provider.webhook_secret (with_default "" w.raw_body)))
  unfolding process_webhook provider_webhook is_ok
  process_webhook_signed hmac id name w s t txn kind secret e =
      elim (Bool-cases (name == s.provider.name)) [
        | inr b ↦ absurd (ground (arith, e, b))
        | inl b ↦ (
          (eq_iff name s.provider.name).0 b,
          verified_signature hmac s.provider (with_default "" w.raw_body) w.signature secret (
              card_webhook_verified hmac w s.provider (
                card_branch s.provider.kind (mock_webhook id w s.provider)
                  (card_webhook hmac w s.provider) kind (ground (arith, e, b)))),
        )
      ]

  -- A payment that a card or bank provider takes has a token, its own or the one in the vault, and
  -- starts as pending.
  pub create_transaction-pending :
      (id : String) (r : PaymentTransactionRequest) (s t : PaymentService V C)
      (txn : PaymentTransaction)
      → s.provider.kind ≡ cardbank
      → create_transaction outside id r s ≡ ok (txn, t)
      → (txn.status ≡ pending)
        × ((or_default "" (with_token outside r s).provider_token == "") ≡ false)
  unfolding create_transaction provider_create
  create_transaction-pending id r s t txn kind e = ground (arith, kind, e)
