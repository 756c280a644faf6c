-- ===== src/Workflow/Provider.antt =====
-- providers.py: the deterministic provider. What `json.dumps`, `sha256` and the cut to twenty
-- characters make of provider id, kind, action and payload is an argument, `Digest`.
use unison_orchestrator.Prelude.{
  String, Option, none, some, List, [], ◌∷◌, ◌++◌, if◌then◌else◌, elem, Result, ok, err, ◌==◌,
}
use unison_orchestrator.Prelude.Dict.{Dict, lookup, insert}
use unison_orchestrator.Prelude.Json.{Json}

-- `ProviderTimeout`, and any other `ProviderError`.
pub data ProviderFailure : Type 0 where
  timeout failed : ProviderFailure

pub record ProviderCall : Type 0 where
  pub action : String
  pub payload : Dict Json
  pub receipt : String

pub record FakeProvider : Type 0 where
  pub kind : String
  pub provider_id : String
  pub fail_once : Option String
  pub calls : List ProviderCall
  pub compensations : List String
  pub receipts : Dict String

abbrev pub Digest : Type 0
Digest = String → String → String → Dict Json → String

-- `if self.fail_once`: an empty text does not count.
abbrev pub pending_failure : Option String → Option ProviderFailure
pending_failure none = none
pending_failure (some f) =
    if f == "" then none else some (if f == "timeout" then timeout else failed)

-- The call that succeeds.
unfoldable pub accept_call :
    Digest
    → String
    → Dict Json
    → String
    → FakeProvider
    → Result ProviderFailure String × FakeProvider
accept_call digest action payload key p =
    let receipt = digest p.provider_id p.kind action payload in
    (
      ok receipt,
      record p {
        calls = p.calls ++ (record { action = action; payload = payload; receipt = receipt }) ∷ [];
        receipts = insert key receipt p.receipts;
      },
    )

unfoldable pub provider_execute :
    Digest
    → String
    → Dict Json
    → String
    → FakeProvider
    → Result ProviderFailure String × FakeProvider
unfolding accept_call
provider_execute digest action payload key p = elim (lookup key p.receipts) [
  | some receipt ↦ (ok receipt, p)
  | none ↦ elim (pending_failure p.fail_once) [
    | some f ↦ (err f, record p { fail_once = none })
    | none ↦ accept_call digest action payload key p
  ]
]

unfoldable pub compensate : String → FakeProvider → FakeProvider
compensate receipt p =
    if elem receipt p.compensations
    then p
    else record p { compensations = p.compensations ++ receipt ∷ [] }

default_provider : String → String × FakeProvider
default_provider kind = (
  kind,
  record {
    kind = kind;
    provider_id = "fake-primary";
    fail_once = none;
    calls = [];
    compensations = [];
    receipts = [];
  },
)

pub default_fake_providers : Dict FakeProvider
unfolding default_provider
default_fake_providers =
    default_provider "calendar"
    ∷ default_provider "mail"
    ∷ default_provider "tasks"
    ∷ default_provider "household"
    ∷ default_provider "contacts"
    ∷ default_provider "research"
    ∷ default_provider "travel"
    ∷ []
