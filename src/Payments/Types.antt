-- ===== src/Payments/Types.antt =====
-- payments/models.py: statuses, instruments, requests and transactions. Amounts are the texts of the
-- numbers; the timestamps of events are left out, so an event is its status and whether a webhook
-- brought it.
use unison_orchestrator.Prelude.Json.{Json}
use unison_orchestrator.Prelude.{String, Bool, Option, none, some, List, if◌then◌else◌, ◌==◌}

pub data PaymentTransactionStatus : Type 0 where
  created pending authorized succeeded failed refunded : PaymentTransactionStatus

-- `status.value`
abbrev pub value : PaymentTransactionStatus → String
value created = "created"
value pending = "pending"
value authorized = "authorized"
value succeeded = "succeeded"
value failed = "failed"
value refunded = "refunded"

-- `PaymentTransactionStatus(text)`, nothing where it raises
unfoldable pub status_named : String → Option PaymentTransactionStatus
status_named s =
    if s == "created"
    then some created
    else if s == "pending"
    then some pending
    else if s == "authorized"
    then some authorized
    else if s == "succeeded"
    then some succeeded
    else if s == "failed"
    then some failed
    else if s == "refunded"
    then some refunded
    else none

pub record PaymentInstrument : Type 0 where
  pub instrument_id : String
  pub person_id : String
  pub provider : String
  pub kind : String
  pub display_name : Option String
  pub brand : Option String
  pub last4 : Option String
  pub expiry : Option String
  pub handle : Option String
  pub created_at : Json
  -- `metadata.get("vault_key")`
  pub vault_key : Option String

pub record PaymentTransactionRequest : Type 0 where
  pub person_id : String
  pub instrument_id : String
  pub amount : String
  pub currency : String
  pub description : Option String
  pub counterparty : Option String
  pub surface : Option String
  pub provider_token : Option String

pub record TransactionEvent : Type 0 where
  pub status : String
  pub webhook : Bool

pub record PaymentTransaction : Type 0 where
  pub txn_id : String
  pub person_id : String
  pub instrument_id : String
  pub provider : String
  pub amount : String
  pub currency : String
  pub status : PaymentTransactionStatus
  pub description : Option String
  pub counterparty : Option String
  pub events : List TransactionEvent

-- The payload of a webhook, its keys missing or texts.
pub record WebhookPayload : Type 0 where
  pub signature : Option String
  pub raw_body : Option String
  pub txn_id : Option String
  pub status : Option String
  pub person_id : Option String
  pub instrument_id : Option String
  pub amount : Option String
  pub currency : Option String
  pub description : Option String
  pub counterparty : Option String

pub data PaymentError : Type 0 where
  value_error key_error : String → PaymentError
