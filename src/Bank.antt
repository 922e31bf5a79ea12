-- ===== src/Bank.antt =====
-- The bank's service layer: services/bank/internal/bankapi/bankapi.go. A handler runs against any
-- ledger, and appends the facts that it publishes to a list. What a broker does with them
-- (events.go) is not modelled: a publisher returns nothing to the handler.
pub mod Consumer
pub mod Purchases
pub mod Escheat
pub mod Delivery
pub mod Settled
pub mod Reclaim
pub mod Replies
pub mod Events
mod Tests
use pipsim.Common.{
  ℕ, Bool, true, false, not, ◌||◌, Option, none, some, List, [], ◌∷◌, ◌++◌, if◌then◌else◌,
}
use pipsim.Common.Tests.{◌==◌}
use pipsim.Common.Strings.{Bytes, Bytes-Eq, bytes}
use pipsim.Ledger.{
  Kind, Credit, Result, kind_wage, kind_purchase, kind_issuance, kind_escheat, total_from,
}
use pipsim.Connect.{Reply, ok, err, invalid_argument, unavailable}
use pipsim.Ledger.Interface.{LedgerCalls}

-- The facts of `EventPublisher` that a handler can publish.
pub data Event : Type 0 where
  wage_paid : Bytes → Bytes → ℕ → ℕ → Event
  account_overdrawn : Bytes → ℕ → ℕ → ℕ → Event
  money_issued : Bytes → ℕ → ℕ → Event

-- `bankv1.TransferKind`; a number that names no kind is `unrecognized`.
pub data TransferKind : Type 0 where
  unspecified wage purchase issuance escheat : TransferKind
  unrecognized : ℕ → TransferKind

pub record TransferRequest : Type 0 where
  pub payer : Bytes
  pub payee : Bytes
  pub amount : ℕ
  pub kind : TransferKind
  pub tick : ℕ

pub record BatchTransferRequest : Type 0 where
  pub payer : Bytes
  pub credits : List Credit
  pub kind : TransferKind
  pub tick : ℕ

-- The ledger behind a handler, and what the handler has published.
pub record Server (S : Type 0) : Type 0 where
  pub ledger : S
  pub events : List Event

unfoldable pub kind_from_proto : TransferKind → Kind
kind_from_proto wage = kind_wage
kind_from_proto purchase = kind_purchase
kind_from_proto issuance = kind_issuance
kind_from_proto escheat = kind_escheat
kind_from_proto unspecified = bytes ""
kind_from_proto (unrecognized n) = bytes ""

-- The `if !res.OK … else switch kind` of `Transfer`.
unfoldable pub transfer_events : TransferRequest → Kind → Result → List Event
transfer_events req kind res =
    if not res.ok
    then account_overdrawn req.payer req.amount res.payer_balance req.tick ∷ []
    else if kind == kind_wage
    then wage_paid req.payer req.payee req.amount req.tick ∷ []
    else if kind == kind_purchase
    then []
    else if kind == kind_issuance
    then money_issued req.payee req.amount req.tick ∷ []
    else []

unfoldable pub wage_events : Bytes → ℕ → List Credit → List Event
wage_events payer tick [] = []
wage_events payer tick (c ∷ cs) = wage_paid payer c.payee c.amount tick ∷ wage_events payer tick cs

unfoldable pub batch_events : BatchTransferRequest → Kind → Result → List Event
batch_events req kind res =
    if not res.ok
    then account_overdrawn req.payer (total_from 0 req.credits) res.payer_balance req.tick ∷ []
    else if kind == kind_wage
    then wage_events req.payer req.tick req.credits
    else []

-- A handler's end: the new ledger, and the events if the call returned a result.
unfoldable pub finish :
    {S A : Type 0} → Server S → (A → List Event) → S × Option A → Server S × Reply A
finish b facts (s, none) = (record b { ledger = s }, err unavailable)
finish b facts (s, some a) = (record { ledger = s; events = b.events ++ facts a }, ok a)

module _ {S : Type 0} (calls : LedgerCalls S) where
  unfoldable pub open_account : Bytes → Server S → Server S × Reply ℕ
  unfolding finish
  open_account id b =
      if id == bytes ""
      then (b, err invalid_argument)
      else finish b (λ _. []) (calls.open_account id b.ledger)

  unfoldable pub transfer : Bytes → TransferRequest → Server S → Server S × Reply Result
  unfolding finish
  transfer id req b =
      let kind = kind_from_proto req.kind in
      if req.payer == bytes "" || req.payee == bytes ""
      then (b, err invalid_argument)
      else finish b (transfer_events req kind)
          (calls.transfer id req.payer req.payee req.amount kind req.tick b.ledger)

  unfoldable pub batch_transfer : Bytes → BatchTransferRequest → Server S → Server S × Reply Result
  unfolding finish
  batch_transfer id req b =
      let kind = kind_from_proto req.kind in
      if req.payer == bytes ""
      then (b, err invalid_argument)
      else finish b (batch_events req kind)
          (calls.batch_transfer id req.payer req.credits kind req.tick b.ledger)

  unfoldable pub get_balance : Bytes → Server S → Server S × Reply ℕ
  unfolding finish
  get_balance id b = finish b (λ _. []) (calls.get_balance id b.ledger)
