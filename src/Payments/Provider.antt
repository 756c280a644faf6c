-- ===== src/Payments/Provider.antt =====
-- payments/providers.py: the mock provider and the one for cards and banks. A provider's state is
-- its name, its secret and its transactions. New ids are arguments, and `hmac` stands for the
-- hexadecimal HMAC-SHA256 of a body under a secret.
use unison_orchestrator.Prelude.{
  String, Bool, true, false, Option, none, some, [], ◌∷◌, ◌++◌, if◌then◌else◌, ◌==◌, Result, ok,
  err,
}
use unison_orchestrator.Prelude.Dict.{Dict, lookup, insert}
use unison_orchestrator.Payments.Types.{
  PaymentTransactionStatus, pending, succeeded, status_named, PaymentTransactionRequest,
  PaymentTransaction, WebhookPayload, PaymentError, value_error, key_error,
}

pub data ProviderKind : Type 0 where
  mock cardbank : ProviderKind

pub record Provider : Type 0 where
  pub kind : ProviderKind
  pub name : String
  pub webhook_secret : String
  pub txns : Dict PaymentTransaction

-- `MockPaymentProvider()` and `CardBankProvider(...)`
abbrev pub new_mock : Provider
new_mock = record { kind = mock; name = "mock"; webhook_secret = ""; txns = [] }

abbrev pub new_cardbank : Option String → Provider
new_cardbank secret = record {
  kind = cardbank;
  name = "cardbank";
  webhook_secret = elim secret [ some s ↦ s | none ↦ "" ];
  txns = [];
}

abbrev pub with_default : String → Option String → String
with_default d (some s) = s
with_default d none = d

-- `x or default`, for a text that may be missing
abbrev pub or_default : String → Option String → String
or_default d (some s) = if s == "" then d else s
or_default d none = d

-- `self._txns[key] = txn`
abbrev pub keep_txn : String → PaymentTransaction → Provider → Provider
keep_txn key txn p = record p { txns = insert key txn p.txns }

-- `MockPaymentProvider.create_transaction`
unfoldable pub mock_transaction : String → String → PaymentTransactionRequest → PaymentTransaction
mock_transaction id name r = record {
  txn_id = id;
  person_id = r.person_id;
  instrument_id = r.instrument_id;
  provider = name;
  amount = r.amount;
  currency = r.currency;
  status = succeeded;
  description = r.description;
  counterparty = r.counterparty;
  events = record { status = "succeeded"; webhook = false } ∷ [];
}

-- The status that a webhook brings.
abbrev pub updated :
    PaymentTransactionStatus → String → Bool → PaymentTransaction → PaymentTransaction
updated status text webhook txn = record txn {
  status = status;
  events = txn.events ++ record { status = text; webhook = webhook } ∷ [];
}

-- `create_transaction`: a card or bank needs a token, and starts as pending.
unfoldable pub provider_create :
    String
    → PaymentTransactionRequest
    → Provider
    → Result PaymentError (PaymentTransaction × Provider)
unfolding mock_transaction
provider_create id r p = elim (p.kind) [
  | mock ↦ let txn = mock_transaction id p.name r in ok (txn, keep_txn (txn.txn_id) txn p)
  | cardbank ↦
      if or_default "" r.provider_token == ""
      then err (value_error "provider token required for card/ACH transaction")
      else let txn = updated pending "pending" false (mock_transaction id p.name r) in
        ok (txn, keep_txn (txn.txn_id) txn p)
]

-- `get_status`
unfoldable pub provider_status : String → Provider → Result PaymentError PaymentTransaction
provider_status id p = elim (lookup id p.txns) [ some txn ↦ ok txn | none ↦ err (key_error id) ]

-- A webhook on a transaction that is known.
unfoldable pub update_known :
    String
    → String
    → Bool
    → PaymentTransaction
    → Provider
    → Result PaymentError (PaymentTransaction × Provider)
update_known key text webhook txn p = elim (status_named text) [
  | none ↦ err (value_error text)
  | some s ↦ let done = updated s text webhook txn in ok (done, keep_txn key done p)
]

-- The synthetic transaction of the mock for an id that it does not know.
unfoldable pub synthetic :
    String → String → PaymentTransactionStatus → String → WebhookPayload → PaymentTransaction
synthetic id name status text w = record {
  txn_id = id;
  person_id = with_default "" w.person_id;
  instrument_id = with_default "" w.instrument_id;
  provider = name;
  amount = with_default "0.0" w.amount;
  currency = with_default "USD" w.currency;
  status = status;
  description = w.description;
  counterparty = w.counterparty;
  events = record { status = text; webhook = false } ∷ [];
}

abbrev pub tagged : String → Option PaymentTransaction → Option (String × PaymentTransaction)
tagged id (some txn) = some (id, txn)
tagged id none = none

-- The key and the transaction that a webhook names, if there is one.
abbrev pub known_txn : Option String → Provider → Option (String × PaymentTransaction)
known_txn (some id) p = tagged id (lookup id p.txns)
known_txn none p = none

-- `MockPaymentProvider.handle_webhook`
unfoldable pub mock_webhook :
    String → WebhookPayload → Provider → Result PaymentError (PaymentTransaction × Provider)
unfolding update_known synthetic
mock_webhook id w p =
    let text = with_default "succeeded" w.status in
    elim (known_txn w.txn_id p) [
      | some (key, txn) ↦ update_known key text false txn p
      | none ↦ elim (status_named text) [
        | none ↦ err (value_error text)
        | some s ↦
            let txn = synthetic (or_default id w.txn_id) p.name s text w in
            ok (txn, keep_txn (txn.txn_id) txn p)
      ]
    ]

module _ (hmac : String → String → String) where
  -- `_verify_signature`
  unfoldable pub verify_signature : Provider → String → Option String → Bool
  verify_signature p raw_body signature = if p.webhook_secret == "" then true else elim signature [
    | none ↦ false
    | some s ↦ if s == "" then false else hmac p.webhook_secret raw_body == s
  ]

  -- `CardBankProvider.handle_webhook`
  unfoldable pub card_webhook :
      WebhookPayload → Provider → Result PaymentError (PaymentTransaction × Provider)
  unfolding verify_signature update_known
  card_webhook w p =
      if verify_signature p (with_default "" w.raw_body) w.signature
      then elim (known_txn w.txn_id p) [
        | some (key, txn) ↦ update_known key (with_default "failed" w.status) true txn p
        | none ↦ err (key_error "unknown transaction")
      ]
      else err (value_error "invalid webhook signature")

  -- `handle_webhook`
  unfoldable pub provider_webhook :
      String → WebhookPayload → Provider → Result PaymentError (PaymentTransaction × Provider)
  unfolding mock_webhook card_webhook
  provider_webhook id w p = elim (p.kind) [
    | mock ↦ mock_webhook id w p
    | cardbank ↦ card_webhook w p
  ]
