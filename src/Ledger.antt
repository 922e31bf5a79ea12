-- ===== src/Ledger.antt =====
-- The double-entry ledger: services/bank/internal/ledger/ledger.go and memory.go.
-- A method is a function from the state to the new state and the reply. The mutex makes each
-- call one step, so a history is a list of calls. `uuid.NewString` is not modelled: the id that
-- it draws is an argument of the call.
pub mod History
pub mod Movement
pub mod Keys
pub mod Interface
mod Tests
pub mod Holdings
pub mod Solvency
pub mod Idempotency
pub mod Cases
pub mod Balance
pub mod Journal
pub mod Supply
use pipsim.Common.{
  ℕ, ◌≡◌, Bool, true, false, not, ◌&&◌, Option, none, some, List, [], ◌∷◌, ◌++◌, if◌then◌else◌,
}
use pipsim.Common.Words.{add64, sub64, neg64, lt64}
use pipsim.Common.Strings.{Bytes, Bytes-Eq, bytes, decimal}
use pipsim.Common.Tests.{◌==◌}
use pipsim.Common.Assoc.{Assoc, lookup, insert}

abbrev pub treasury_account : Bytes
treasury_account = bytes "treasury"

-- Go's `type Kind string`.
abbrev pub Kind : Type 0
Kind = Bytes

abbrev pub kind_wage : Kind
kind_wage = bytes "WAGE"

abbrev pub kind_purchase : Kind
kind_purchase = bytes "PURCHASE"

abbrev pub kind_issuance : Kind
kind_issuance = bytes "ISSUANCE"

abbrev pub kind_escheat : Kind
kind_escheat = bytes "ESCHEAT"

pub record Credit : Type 0 where
  pub payee : Bytes
  pub amount : ℕ

pub record Result : Type 0 where
  pub ok : Bool
  pub reason : Bytes
  pub payer_balance : ℕ

pub record JournalEntry : Type 0 where
  pub transfer_id : Bytes
  pub account : Bytes
  pub amount : ℕ
  pub kind : Kind
  pub tick : ℕ

abbrev pub Balances : Type 0
Balances = Assoc Bytes ℕ

pub record Memory : Type 0 where
  pub balances : Balances
  pub journal : List JournalEntry
  pub idempotent : Assoc Bytes Result
  pub posted : Assoc Bytes (Unit {0})

abbrev pub new_memory : Memory
new_memory = record { balances = []; journal = []; idempotent = []; posted = [] }

-- `m.balances[account]`: a key that was never set reads as zero.
abbrev pub or_zero : Option ℕ → ℕ
or_zero none = 0
or_zero (some v) = v

abbrev pub balance_of : Bytes → Balances → ℕ
balance_of account b = or_zero (lookup account b)

-- `m.balances[account] -= amount` and `m.balances[account] += amount`.
unfoldable pub debit : Bytes → ℕ → Balances → Balances
debit account amount b = insert account (sub64 (balance_of account b) amount) b

unfoldable pub credit : Bytes → ℕ → Balances → Balances
credit account amount b = insert account (add64 (balance_of account b) amount) b

abbrev pub separator : ℕ
separator = b'|'

unfoldable pub idempotency_key : Bytes → Bytes → ℕ → Kind → Bytes
idempotency_key payer payee tick kind =
    payer ++ (separator ∷ (payee ++ (separator ∷ (decimal tick ++ (separator ∷ kind)))))

-- `payer != TreasuryAccount && payerBalance < amount`
unfoldable pub cannot_cover : Bytes → ℕ → ℕ → Bool
cannot_cover payer payer_balance amount =
    not (payer == treasury_account) && lt64 payer_balance amount

abbrev pub insufficient_funds : ℕ → Result
insufficient_funds payer_balance = record {
  ok = false;
  reason = bytes "insufficient funds";
  payer_balance = payer_balance;
}

abbrev pub accepted : ℕ → Result
accepted payer_balance = record { ok = true; reason = bytes ""; payer_balance = payer_balance }

abbrev pub entry : Bytes → Bytes → ℕ → Kind → ℕ → JournalEntry
entry id account amount kind tick = record {
  transfer_id = id;
  account = account;
  amount = amount;
  kind = kind;
  tick = tick;
}

-- The pair of rows that a movement adds to the journal.
abbrev pub two_entries : Bytes → Bytes → Bytes → ℕ → Kind → ℕ → List JournalEntry
two_entries id payer payee amount kind tick =
    entry id payer (neg64 amount) kind tick ∷ entry id payee amount kind tick ∷ []

-- `OpenAccount` and `GetBalance` only read.
unfoldable pub open_account : Bytes → Memory → Memory × ℕ
open_account account m = (m, balance_of account m.balances)

unfoldable pub get_balance : Bytes → Memory → Memory × ℕ
get_balance account m = (m, balance_of account m.balances)

-- `Transfer` past the lookup of its key and the check of the balance.
unfoldable pub commit_transfer :
    Bytes → Bytes → Bytes → ℕ → Kind → ℕ → Bytes → Memory → Memory × Result
commit_transfer id payer payee amount kind tick key m =
    let b = credit payee amount (debit payer amount m.balances) in
    let r = accepted (balance_of payer b) in
    (
      record m {
        balances = b;
        journal = m.journal ++ two_entries id payer payee amount kind tick;
        idempotent = insert key r m.idempotent;
      },
      r,
    )

unfoldable pub transfer : Bytes → Bytes → Bytes → ℕ → Kind → ℕ → Memory → Memory × Result
transfer id payer payee amount kind tick m =
    let key = idempotency_key payer payee tick kind in
    let payer_balance = balance_of payer m.balances in
    elim (lookup key m.idempotent) [
      | some r ↦ (m, r)
      | none ↦
          if cannot_cover payer payer_balance amount
          then (m, insufficient_funds payer_balance)
          else commit_transfer id payer payee amount kind tick key m
    ]

-- `total += c.Amount` over the credits.
unfoldable pub total_from : ℕ → List Credit → ℕ
total_from total [] = total
total_from total (c ∷ cs) = total_from (add64 total c.amount) cs

-- The loop over the credits of `BatchTransfer`.
unfoldable pub credit_all : List Credit → Balances → Balances
credit_all [] b = b
credit_all (c ∷ cs) b = credit_all cs (credit c.payee c.amount b)

unfoldable pub credit_entries : Bytes → Kind → ℕ → List Credit → List JournalEntry
credit_entries id kind tick [] = []
credit_entries id kind tick (c ∷ cs) =
    entry id c.payee c.amount kind tick ∷ credit_entries id kind tick cs

unfoldable pub commit_batch :
    Bytes → Bytes → List Credit → ℕ → Kind → ℕ → Bytes → Memory → Memory × Result
commit_batch id payer credits total kind tick key m =
    let b = credit_all credits (debit payer total m.balances) in
    let r = accepted (balance_of payer b) in
    (
      record m {
        balances = b;
        journal =
            (m.journal ++ entry id payer (neg64 total) kind tick ∷ [])
            ++ credit_entries id kind tick credits;
        idempotent = insert key r m.idempotent;
      },
      r,
    )

unfoldable pub batch_transfer : Bytes → Bytes → List Credit → Kind → ℕ → Memory → Memory × Result
batch_transfer id payer credits kind tick m =
    let key = idempotency_key payer (bytes "batch") tick kind in
    let total = total_from 0 credits in
    let payer_balance = balance_of payer m.balances in
    elim (lookup key m.idempotent) [
      | some r ↦ (m, r)
      | none ↦
          if cannot_cover payer payer_balance total
          then (m, insufficient_funds payer_balance)
          else commit_batch id payer credits total kind tick key m
    ]

unfoldable pub post : Bytes → Bytes → Bytes → ℕ → Kind → ℕ → Memory → Memory
post id payer payee amount kind tick m = elim (lookup id m.posted) [
  | some _ ↦ m
  | none ↦ record m {
    posted = insert id tt m.posted;
    balances = credit payee amount (debit payer amount m.balances);
    journal = m.journal ++ two_entries id payer payee amount kind tick;
  }
]
