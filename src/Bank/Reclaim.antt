-- ===== src/Bank/Reclaim.antt =====
-- `Escheat` of services/bank/internal/bankapi/escheat.go over the in-memory ledger.
use pipsim.Common.{
  ℕ, ◌<◌, ◌≡◌, ◌≢◌, refl, true, inl, inr, none, List, arith, Option-cases, if◌then◌else◌,
}
use pipsim.Common.Tests.{==_iff}
use pipsim.Common.Words.{add64, lt64, sign_bit}
use pipsim.Common.Strings.{Bytes, Bytes-Eq, bytes_eq, ne_of_bytes_eq}
use pipsim.Common.Assoc.{lookup}
use pipsim.Ledger.{
  Memory, Result, kind_escheat, treasury_account, balance_of, transfer, commit_transfer,
  cannot_cover, idempotency_key, debit, get_balance,
}
use pipsim.Ledger.Balance.{balance_of-debit, balance_of-credit}
use pipsim.Ledger.Idempotency.{Recorded, transfer_answered, transfer_records, run-Recorded}
use pipsim.Ledger.History.{Call, run}
use pipsim.Ledger.Interface.{memory_calls}
use pipsim.Bank.Escheat.{pip_account, escheat}

pip_account-ne-treasury : (pip : ℕ) → pip_account pip ≢ treasury_account
unfolding pip_account bytes_eq
pip_account-ne-treasury pip = ne_of_bytes_eq (pip_account pip) treasury_account refl

-- The transfer that an escheat makes, with the amount that it read.
abbrev escheat_transfer : Bytes → ℕ → ℕ → Memory → Memory × Result
escheat_transfer id pip tick m =
    transfer id (pip_account pip) treasury_account (balance_of (pip_account pip) m.balances)
      kind_escheat tick m

escheat_cases :
    (id : Bytes) (pip tick : ℕ) (m : Memory)
    → escheat memory_calls id pip tick m ≡ (
        if lt64 0 (balance_of (pip_account pip) m.balances)
        then ((escheat_transfer id pip tick m).0, true)
        else (m, true))
unfolding escheat get_balance
escheat_cases id pip tick m = ground arith

-- The purse of a pip that has not been reclaimed at this tick, and holds something, is emptied
-- into the treasury, and no other account changes.
pub escheat_reclaims :
    (id : Bytes) (pip tick : ℕ) (m : Memory) (a : Bytes)
    → let account = pip_account pip in
      let purse = balance_of account m.balances in
      lookup (idempotency_key account treasury_account tick kind_escheat) m.idempotent ≡ none
      → 0 < purse
      → purse < sign_bit
      → a ≢ account
      → a ≢ treasury_account
      → let (m', handled) = escheat memory_calls id pip tick m in
        (balance_of account m'.balances ≡ 0)
        × (balance_of treasury_account m'.balances
            ≡ add64 (balance_of treasury_account m.balances) purse)
        × (balance_of a m'.balances ≡ balance_of a m.balances)
        × (handled ≡ true)
unfolding transfer commit_transfer cannot_cover
escheat_reclaims id pip tick m a new pos small na nt =
    let account = pip_account pip in
    let purse = balance_of account m.balances in
    let nat : account ≢ treasury_account = pip_account-ne-treasury pip in
    rw escheat_cases (
      ground (
        arith,
        nat,
        ==_iff account treasury_account,
        ==_iff account a,
        ==_iff treasury_account a,
        ==_iff account account,
        ==_iff treasury_account treasury_account,
        ==_iff treasury_account account,
        balance_of-debit account a purse m.balances,
        balance_of-debit account account purse m.balances,
        balance_of-debit account treasury_account purse m.balances,
        balance_of-credit treasury_account a purse (debit account purse m.balances),
        balance_of-credit treasury_account account purse (debit account purse m.balances),
        balance_of-credit treasury_account treasury_account purse (debit account purse m.balances),
      ))

escheat_answered :
    (id : Bytes) (pip tick : ℕ) (r : Result) (m : Memory)
    → Recorded (idempotency_key (pip_account pip) treasury_account tick kind_escheat) r m
    → escheat memory_calls id pip tick m ≡ (m, true)
escheat_answered id pip tick r m h = rw escheat_cases (
    ground (
      arith,
      transfer_answered id (pip_account pip) treasury_account
          (balance_of (pip_account pip) m.balances) kind_escheat tick r m h,
    ))

escheat_runs :
    (id : Bytes) (pip tick : ℕ) (m : Memory)
    → 0 < balance_of (pip_account pip) m.balances
    → balance_of (pip_account pip) m.balances < sign_bit
    → escheat memory_calls id pip tick m ≡ ((escheat_transfer id pip tick m).0, true)
escheat_runs id pip tick m pos small = rw escheat_cases (ground arith)

ok-escheat_transfer :
    (id : Bytes) (pip tick : ℕ) (m : Memory)
    → lookup (idempotency_key (pip_account pip) treasury_account tick kind_escheat) m.idempotent
      ≡ none
    → (escheat_transfer id pip tick m).1.ok ≡ true
unfolding transfer commit_transfer cannot_cover
ok-escheat_transfer id pip tick m new = ground arith

-- An escheat that found something leaves its answer on record.
escheat_leaves_record :
    (id : Bytes) (pip tick : ℕ) (m : Memory)
    → 0 < balance_of (pip_account pip) m.balances
    → balance_of (pip_account pip) m.balances < sign_bit
    → (r : Result) × Recorded
        (idempotency_key (pip_account pip) treasury_account tick kind_escheat)
        r
        (escheat memory_calls id pip tick m).0
escheat_leaves_record id pip tick m pos small =
    let key = idempotency_key (pip_account pip) treasury_account tick kind_escheat in
    elim (Option-cases (lookup key m.idempotent)) [
      | inl new ↦ (
        (escheat_transfer id pip tick m).1,
        rw (escheat_runs id pip tick m pos small) (
            transfer_records id (pip_account pip) treasury_account
              (balance_of (pip_account pip) m.balances) kind_escheat tick m
              (ok-escheat_transfer id pip tick m new)),
      )
      | inr (r, seen) ↦ (r, rw (escheat_answered id pip tick r m seen) seen)
    ]

-- A death that is delivered again, after any history of the ledger, moves no money: also where
-- the dead pip's account has been paid in the meantime.
pub escheat_replay :
    (id id' : Bytes) (pip tick : ℕ) (cs : List Call) (m : Memory)
    → 0 < balance_of (pip_account pip) m.balances
    → balance_of (pip_account pip) m.balances < sign_bit
    → let m' = run cs (escheat memory_calls id pip tick m).0 in
      escheat memory_calls id' pip tick m' ≡ (m', true)
escheat_replay id id' pip tick cs m pos small =
    let (r, recorded) = escheat_leaves_record id pip tick m pos small in
    let key = idempotency_key (pip_account pip) treasury_account tick kind_escheat in
    escheat_answered id' pip tick r (run cs (escheat memory_calls id pip tick m).0)
      (run-Recorded key r cs (escheat memory_calls id pip tick m).0 recorded)
