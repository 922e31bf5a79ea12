-- ===== src/Ledger/Cases.antt =====
-- The ways in which a transfer can end: answered from memory, refused, or carried out.
use pipsim.Common.{ℕ, ◌≡◌, ◌⊎◌, none, some, List, arith}
use pipsim.Common.Strings.{Bytes, Bytes-Eq, bytes}
use pipsim.Common.Assoc.{lookup}
use pipsim.Ledger.{
  Kind, Result, Credit, Memory, balance_of, idempotency_key, insufficient_funds, transfer,
  commit_transfer, batch_transfer, commit_batch, total_from,
}

-- What an answer that is no commit was: the recorded result, or a refusal.
abbrev pub replied : Bytes → Bytes → Memory → Result
replied payer key m = elim (lookup key m.idempotent) [
  | some r ↦ r
  | none ↦ insufficient_funds (balance_of payer m.balances)
]

pub transfer_cases :
    (id payer payee : Bytes) (x : ℕ) (kind : Kind) (tick : ℕ) (m : Memory)
    → let key = idempotency_key payer payee tick kind in
      (transfer id payer payee x kind tick m ≡ (m, replied payer key m))
      ⊎ (transfer id payer payee x kind tick m ≡ commit_transfer id payer payee x kind tick key m)
unfolding transfer
transfer_cases id payer payee x kind tick m = ground arith

pub batch_transfer_cases :
    (id payer : Bytes) (cs : List Credit) (kind : Kind) (tick : ℕ) (m : Memory)
    → let key = idempotency_key payer (bytes "batch") tick kind in
      (batch_transfer id payer cs kind tick m ≡ (m, replied payer key m))
      ⊎ (batch_transfer id payer cs kind tick m
          ≡ commit_batch id payer cs (total_from 0 cs) kind tick key m)
unfolding batch_transfer
batch_transfer_cases id payer cs kind tick m = ground arith
