-- ===== src/Payments/Tests.antt =====
-- Runs of the payment service.
use unison_orchestrator.Prelude.{
  String, Bool, true, false, Option, none, some, [], ◌∷◌, ◌++◌, ◌≡◌, refl,
}
use unison_orchestrator.Prelude.Json.{obj, Fields, dict, str, float, arr, to_items, get}
use unison_orchestrator.Prelude.Dict.{lookup, insert}
use unison_orchestrator.Payments.Types.{
  PaymentInstrument, PaymentTransactionRequest, PaymentTransaction, WebhookPayload, pending,
  succeeded, status_named,
}
use unison_orchestrator.Payments.Provider.{
  Provider, new_cardbank, provider_status, provider_webhook, provider_create, card_webhook,
  verify_signature, update_known, mock_transaction,
}
use unison_orchestrator.Payments.Service.{
  register_instrument, PaymentService, Outside, create, webhook, after_calls, after_call,
  new_service, get_transaction_status, process_webhook, create_transaction,
}
use unison_orchestrator.Payments.Agreement.{status_agrees}
use unison_orchestrator.Payments.Guards.{process_webhook_signed}
use unison_orchestrator.Payments.Metadata.{profile_read}
use unison_orchestrator.Payments.Listed.{Listed, all_dicts, register_instrument-Listed}

abbrev vault_put : Bool → String → String → String → String → Bool × Bool
vault_put v path provider kind token = (true, v)

abbrev vault_get : Bool → String → Option String
vault_get v path = none

-- A context service that serves one profile.
abbrev services : Outside Bool Fields
services = record {
  vault_put = vault_put;
  vault_get = vault_get;
  context_get = λ profile person. some (true, 200, obj (dict (("profile", obj profile) ∷ [])));
  context_post = λ profile person written. written;
}

abbrev hmac : String → String → String
hmac secret body = "signed"

abbrev request : PaymentTransactionRequest
request = record {
  person_id = "ada";
  instrument_id = "i1";
  amount = "12.5";
  currency = "USD";
  description = none;
  counterparty = none;
  surface = none;
  provider_token = some "tok";
}

abbrev notice : WebhookPayload
notice = record {
  signature = some "signed";
  raw_body = some "{}";
  txn_id = some "t1";
  status = some "succeeded";
  person_id = none;
  instrument_id = none;
  amount = none;
  currency = none;
  description = none;
  counterparty = none;
}

abbrev bank : Provider
bank = new_cardbank (some "secret")

abbrev fresh : PaymentService Bool Fields
fresh = new_service services bank none none

abbrev charged : PaymentService Bool Fields
charged = after_calls services hmac (create "t1" request ∷ []) fresh

status_agrees_example :
    let s =
      after_calls services hmac (create "t1" request ∷ webhook "n" "cardbank" notice ∷ []) fresh in
    get_transaction_status services "t1" s ≡ provider_status "t1" s.provider
status_agrees_example =
    status_agrees services hmac bank none none
      (create "t1" request ∷ webhook "n" "cardbank" notice ∷ []) "t1" refl

abbrev charge : PaymentTransaction
charge = record {
  txn_id = "t1";
  person_id = "ada";
  instrument_id = "i1";
  provider = "cardbank";
  amount = "12.5";
  currency = "USD";
  status = pending;
  description = none;
  counterparty = none;
  events =
      record { status = "succeeded"; webhook = false }
      ∷ record { status = "pending"; webhook = false }
      ∷ [];
}

abbrev paid : PaymentTransaction
paid = record charge {
  status = succeeded;
  events = charge.events ++ record { status = "succeeded"; webhook = true } ∷ [];
}

abbrev settled : PaymentService Bool Fields
settled = after_calls services hmac (webhook "n" "cardbank" notice ∷ []) charged

process_webhook_signed_example :
    ("cardbank" ≡ charged.provider.name)
    × (some "signed" ≡ some (hmac charged.provider.webhook_secret "{}"))
unfolding process_webhook provider_webhook card_webhook verify_signature update_known status_named
    create_transaction provider_create mock_transaction after_calls after_call insert lookup
process_webhook_signed_example =
    process_webhook_signed services hmac "n" "cardbank" notice charged settled paid refl refl refl

abbrev card : PaymentInstrument
card = record {
  instrument_id = "i1";
  person_id = "ada";
  provider = "mock";
  kind = "card";
  display_name = some "Ada's card";
  brand = none;
  last4 = some "4242";
  expiry = none;
  handle = none;
  created_at = float "1.0";
  vault_key = none;
}

-- A profile that lists an older entry of the card, and another instrument.
abbrev ada : Fields
ada = dict (
    ("name", str "Ada")
    ∷ (
      "payments",
      obj (
          dict (
            (
              "instruments",
              arr (
                  to_items (
                    obj (dict (("instrument_id", str "i1") ∷ ("brand", str "old") ∷ []))
                    ∷ obj (dict (("instrument_id", str "i2") ∷ []))
                    ∷ [])),
            )
            ∷ [])),
    )
    ∷ [])

register_instrument-Listed_example :
    let done =
      register_instrument services card
        (some "tok")
        (new_service services bank (some ada) (some true)) in
    (out : Fields) × (done.1.context ≡ some out) × Listed (done.0) ada out
unfolding get profile_read all_dicts
register_instrument-Listed_example =
    register_instrument-Listed services card (some "tok")
      (new_service services bank (some ada) (some true)) ada
      (true, 200, obj (dict (("profile", obj ada) ∷ []))) ada refl refl refl refl
