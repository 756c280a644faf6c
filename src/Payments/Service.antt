-- ===== src/Payments/Service.antt =====
-- payments/service.py: the service in front of a provider.
-- A transaction is one object in the source, shared with the provider; every change of it goes
-- through the service, which then stores it again, so that values stored twice agree with it.
use Prim.Native.String
use unison_orchestrator.Prelude.{
  String, Bool, Option, none, some, List, [], ◌∷◌, ◌++◌, if◌then◌else◌, ◌==◌, Result, ok, err,
}
use unison_orchestrator.Prelude.Dict.{Dict, lookup, insert}
use unison_orchestrator.Payments.Types.{
  PaymentTransactionStatus, authorized, succeeded, failed, value, PaymentInstrument,
  PaymentTransactionRequest, PaymentTransaction, WebhookPayload, PaymentError, value_error,
}
use unison_orchestrator.Prelude.Json.{Fields}
use unison_orchestrator.Payments.Metadata.{ContextReply, persist_instrument}
use unison_orchestrator.Payments.Provider.{
  Provider, or_default, provider_create, provider_status, provider_webhook,
}

-- A call of `log_event`.
pub record PaymentEvent : Type 0 where
  pub event_type : String
  pub subject_id : String
  pub person_id : String
  pub provider : String
  pub status : String
  pub instrument_kind : Option String

pub record PaymentService (V C : Type 0) : Type 0 where
  pub provider : Provider
  pub context : Option C
  pub storage : Option V
  pub instruments : Dict PaymentInstrument
  pub transactions : Dict PaymentTransaction
  pub logged : List PaymentEvent

-- `_event_type_for_status`
unfoldable pub event_type_for_status : PaymentTransactionStatus → String
event_type_for_status succeeded = "PaymentTransactionSucceeded"
event_type_for_status failed = "PaymentTransactionFailed"
event_type_for_status authorized = "PaymentTransactionAuthorized"
event_type_for_status _ = "PaymentTransactionCreated"

abbrev pub kind_of : Option PaymentInstrument → Option String
kind_of (some i) = some (i.kind)
kind_of none = none

abbrev pub transaction_event : PaymentTransaction → Option PaymentInstrument → PaymentEvent
transaction_event txn instrument = record {
  event_type = event_type_for_status (txn.status);
  subject_id = txn.txn_id;
  person_id = txn.person_id;
  provider = txn.provider;
  status = value (txn.status);
  instrument_kind = kind_of instrument;
}

abbrev pub vault_path : PaymentInstrument → String
vault_path i = String.◌++◌ "payment:" (String.◌++◌ i.person_id (String.◌++◌ ":" i.instrument_id))

-- The vault and the context service: `vault_put` says whether a write was answered with ok and 200
-- or 201, `vault_get` gives the token of an answer with ok and 200.
pub record Outside (V C : Type 0) : Type 0 where
  pub vault_put : V → String → String → String → String → Bool × V
  pub vault_get : V → String → Option String
  pub context_get : C → String → Option ContextReply
  pub context_post : C → String → Fields → C

-- A call of the service, with what it needs from outside.
pub data Call : Type 0 where
  register : PaymentInstrument → Option String → Call
  create : String → PaymentTransactionRequest → Call
  webhook : String → String → WebhookPayload → Call

module _ {V C : Type 0} (outside : Outside V C) where
  -- `_store_instrument_secret`: the key, if the token was stored
  unfoldable pub store_secret :
      PaymentInstrument → Option String → Option V → Option String × Option V
  store_secret i token none = (none, none)
  store_secret i token (some v) =
      if or_default "" token == ""
      then (none, some v)
      else let (stored, u) =
          outside.vault_put v (vault_path i) i.provider i.kind (or_default "" token) in
        (if stored then some (vault_path i) else none, some u)

  -- `_load_instrument_secret`
  unfoldable pub load_secret : Option PaymentInstrument → Option V → Option String
  load_secret (some i) (some v) =
      if or_default "" i.vault_key == ""
      then none
      else outside.vault_get v (or_default "" i.vault_key)
  load_secret _ _ = none

  -- The instrument with the key of its token, if that was stored.
  abbrev pub with_key : Option String → PaymentInstrument → PaymentInstrument
  with_key (some k) i = record i { vault_key = some k }
  with_key none i = i

  -- `register_instrument`
  unfoldable pub register_instrument :
      PaymentInstrument
      → Option String
      → PaymentService V C
      → PaymentInstrument × PaymentService V C
  unfolding store_secret persist_instrument
  register_instrument i token s =
      let (key, storage) = store_secret i token s.storage in
      let registered = with_key key i in
      (
        registered,
        record s {
          storage = storage;
          context =
              persist_instrument outside.context_get outside.context_post registered s.context;
          instruments = insert (registered.instrument_id) registered s.instruments;
          logged =
              s.logged
              ++ record {
                event_type = "PaymentInstrumentRegistered";
                subject_id = registered.instrument_id;
                person_id = registered.person_id;
                provider = registered.provider;
                status = "registered";
                instrument_kind = some (registered.kind);
              }
                ∷ [];
        },
      )

  -- The request with the token of the vault, if it came without one.
  abbrev pub with_token : PaymentTransactionRequest → PaymentService V C → PaymentTransactionRequest
  with_token r s =
      if or_default "" r.provider_token == ""
      then record r {
        provider_token = load_secret (lookup (r.instrument_id) s.instruments) s.storage;
      }
      else r

  -- What the service keeps of a transaction, and what it logs.
  abbrev pub noted :
      PaymentTransaction
      → Provider
      → Option PaymentInstrument
      → PaymentService V C
      → PaymentService V C
  noted txn p instrument s = record s {
    provider = p;
    transactions = insert (txn.txn_id) txn s.transactions;
    logged = s.logged ++ transaction_event txn instrument ∷ [];
  }

  -- `create_transaction`
  unfoldable pub create_transaction :
      String
      → PaymentTransactionRequest
      → PaymentService V C
      → Result PaymentError (PaymentTransaction × PaymentService V C)
  unfolding load_secret
  create_transaction id r s = elim (provider_create id (with_token r s) s.provider) [
    | err e ↦ err e
    | ok (txn, p) ↦ ok (txn, noted txn p (lookup (r.instrument_id) s.instruments) s)
  ]

  -- `get_transaction_status`
  unfoldable pub get_transaction_status :
      String → PaymentService V C → Result PaymentError PaymentTransaction
  get_transaction_status id s = elim (lookup id s.transactions) [
    | some txn ↦ ok txn
    | none ↦ provider_status id s.provider
  ]

  -- `process_webhook`
  unfoldable pub process_webhook :
      (String → String → String)
      → String
      → String
      → WebhookPayload
      → PaymentService V C
      → Result PaymentError (PaymentTransaction × PaymentService V C)
  process_webhook hmac id provider_name w s =
      if provider_name == s.provider.name
      then elim (provider_webhook hmac id w s.provider) [
        | err e ↦ err e
        | ok (txn, p) ↦ ok (txn, noted txn p (lookup (txn.instrument_id) s.instruments) s)
      ]
      else err (value_error "unknown provider")

  abbrev pub settled :
      Result PaymentError (PaymentTransaction × PaymentService V C)
      → PaymentService V C
      → PaymentService V C
  settled (ok (txn, t)) s = t
  settled (err e) s = s

  -- The service after a call; one that raises leaves it as it was.
  unfoldable pub after_call :
      (String → String → String) → Call → PaymentService V C → PaymentService V C
  unfolding register_instrument create_transaction process_webhook
  after_call hmac (register i token) s = (register_instrument i token s).1
  after_call hmac (create id r) s = settled (create_transaction id r s) s
  after_call hmac (webhook id name w) s = settled (process_webhook hmac id name w s) s

  unfoldable pub after_calls :
      (String → String → String) → List Call → PaymentService V C → PaymentService V C
  unfolding after_call
  after_calls hmac [] s = s
  after_calls hmac (c ∷ cs) s = after_calls hmac cs (after_call hmac c s)

  -- `PaymentService(provider)`
  abbrev pub new_service : Provider → Option C → Option V → PaymentService V C
  new_service p context storage = record {
    provider = p;
    context = context;
    storage = storage;
    instruments = [];
    transactions = [];
    logged = [];
  }
