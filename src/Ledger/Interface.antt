-- ===== src/Ledger/Interface.antt =====
-- The interface `Ledger` of services/bank/internal/ledger/ledger.go, which the service layer is
-- written against, and memory.go as an instance of it.
use pipsim.Common.{ℕ, Bool, true, Option, some, List}
use pipsim.Common.Strings.{Bytes}
use pipsim.Ledger
use pipsim.Ledger.{Memory, Kind, Credit, Result}

-- The calls over a store of type `S`. A call that returns a Go error yields `none`, or `false`
-- for `Post`. The first argument of a transfer is the id that it draws.
pub record LedgerCalls (S : Type 0) : Type 0 where
  pub open_account : Bytes → S → S × Option ℕ
  pub transfer : Bytes → Bytes → Bytes → ℕ → Kind → ℕ → S → S × Option Result
  pub batch_transfer : Bytes → Bytes → List Credit → Kind → ℕ → S → S × Option Result
  pub post : Bytes → Bytes → Bytes → ℕ → Kind → ℕ → S → S × Bool
  pub get_balance : Bytes → S → S × Option ℕ

abbrev ok_reply : {A : Type 0} → Memory × A → Memory × Option A
ok_reply (m, a) = (m, some a)

-- No method of `Memory` returns an error.
abbrev pub memory_calls : LedgerCalls Memory
memory_calls = record {
  open_account = λ account m. ok_reply (Ledger.open_account account m);
  transfer = λ id payer payee amount kind tick m.
      ok_reply (Ledger.transfer id payer payee amount kind tick m);
  batch_transfer =
      λ id payer credits kind tick m. ok_reply (Ledger.batch_transfer id payer credits kind tick m);
  post = λ id payer payee amount kind tick m. (Ledger.post id payer payee amount kind tick m, true);
  get_balance = λ account m. ok_reply (Ledger.get_balance account m);
}
