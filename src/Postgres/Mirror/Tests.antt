-- ===== src/Postgres/Mirror/Tests.antt =====
-- Histories with faults, and each theorem at an input that meets its hypotheses.
use pipsim.Common.{
  ◌≡◌, ◌≢◌, ◌<◌, ◌⊎◌, refl, sym, true, false, Bool, some, List, [], ◌∷◌, arith, All,
}
use pipsim.Common.Words.{sign_bit, neg64}
use pipsim.Common.Strings.{Bytes, Bytes-Eq, bytes, bytes_eq}
use pipsim.Common.Assoc.{lookup, insert}
use pipsim.Ledger
use pipsim.Ledger.{
  Credit, Memory, Result, new_memory, treasury_account, kind_issuance, kind_wage, kind_purchase,
  balance_of, cannot_cover, debit, credit, commit_transfer, idempotency_key,
}
use pipsim.Ledger.History.{Call, run}
use pipsim.Ledger.Keys.{IsPlain}
use pipsim.Ledger.Holdings.{credits_total}
use pipsim.Postgres.Statements.{
  Tables, exec, and_then, begin, subtract, add, ensure_account, lock_account, find_row,
  lookup_idempotent, record_idempotent, append_rows, is_before, lock_order,
}
use pipsim.Postgres.Calls.{made, unheard, transact, transfer_body}
use pipsim.Postgres.Mirror.Bodies.{Overflows}
use pipsim.Postgres.Mirror.Calls.{Mirrors}
use pipsim.Postgres.Mirror.Handlers.{
  postgres_calls, AsMemory, IsUnavailable, transfer-AsMemory, batch_transfer-AsMemory,
}
use pipsim.Postgres.Mirror.Batches.{BatchOverflows}
use pipsim.Ledger.Interface.{memory_calls}
use pipsim.Bank
use pipsim.Bank.Consumer.{Message, envelope, purchase_made}
use pipsim.Postgres.Mirror.Reposted.{deliver, redelivered_pays_twice}
use pipsim.Bank.{issuance, wage, BatchTransferRequest, Server, TransferRequest}
use pipsim.Postgres.Mirror.Histories.{
  Attempt, attempt_all, calls_of, IsSublist, IsProper, attempt_all-Mirrors,
}
use pipsim.Postgres.Mirror.Solvent.{empty_tables, empty_tables-Mirrors, tables-solvent}

abbrev farm : Bytes
farm = bytes "f"

abbrev ann : Bytes
ann = bytes "a"

abbrev wages : List Credit
wages = record { payee = ann; amount = 6 } ∷ []

abbrev one_fault : List Bool
one_fault = false ∷ false ∷ true ∷ []

-- The farm is endowed, the first attempt at its payroll fails, and the answer to the second is lost.
abbrev attempts : List Attempt
attempts =
    record {
      call = Call.transfer (bytes "1") treasury_account farm 15 kind_issuance 1;
      faults = [];
      commit = made;
    }
    ∷ record {
      call = Call.batch_transfer (bytes "2") farm wages kind_wage 2;
      faults = one_fault;
      commit = made;
    }
    ∷ record {
      call = Call.batch_transfer (bytes "3") farm wages kind_wage 2;
      faults = [];
      commit = unheard;
    }
    ∷ []

treasury_account-IsPlain : IsPlain treasury_account
treasury_account-IsPlain = (
  omega arith,
  (
    omega arith,
    (omega arith, (omega arith, (omega arith, (omega arith, (omega arith, (omega arith, tt)))))),
  ),
)

farm-IsPlain : IsPlain farm
farm-IsPlain = (omega arith, tt)

farm_is_not_ann : farm ≢ ann
farm_is_not_ann e = ground arith

attempts-AreProper : All IsProper (calls_of attempts)
attempts-AreProper =
    let payroll : IsProper (Call.batch_transfer (bytes "2") farm wages kind_wage 2) =
      (farm-IsPlain, omega arith, (farm_is_not_ann, tt)) in
    ((treasury_account-IsPlain, farm-IsPlain, omega arith, cc), (payroll, (payroll, tt)))

abbrev endowment : TransferRequest
endowment = record {
  payer = treasury_account;
  payee = farm;
  amount = 15;
  kind = issuance;
  tick = 1;
}

abbrev bank_in_memory : Server Memory
bank_in_memory = record { ledger = new_memory; events = [] }

abbrev bank_with_tables : Server Tables
bank_with_tables = record { ledger = empty_tables; events = [] }

transfer-AsMemory_example :
    (Overflows treasury_account farm 15 1 []
      ⊎ AsMemory
          (Bank.transfer memory_calls (bytes "1") endowment bank_in_memory)
          (Bank.transfer (postgres_calls [] made) (bytes "1") endowment bank_with_tables))
    × (AsMemory
          (Bank.transfer memory_calls (bytes "1") endowment bank_in_memory)
          (Bank.transfer (postgres_calls one_fault unheard) (bytes "1") endowment bank_with_tables)
        ⊎ IsUnavailable bank_in_memory
            (Bank.transfer memory_calls (bytes "1") endowment bank_in_memory)
            (Bank.transfer
              (postgres_calls one_fault unheard)
              (bytes "1")
              endowment
              bank_with_tables))
transfer-AsMemory_example =
    transfer-AsMemory one_fault unheard (bytes "1") endowment bank_in_memory bank_with_tables
      empty_tables-Mirrors refl treasury_account-IsPlain farm-IsPlain (omega arith) (cc)

abbrev payday : BatchTransferRequest
payday = record { payer = farm; credits = wages; kind = wage; tick = 2 }

batch_transfer-AsMemory_example :
    (BatchOverflows farm wages 2 []
      ⊎ AsMemory
          (Bank.batch_transfer memory_calls (bytes "1") payday bank_in_memory)
          (Bank.batch_transfer (postgres_calls [] made) (bytes "1") payday bank_with_tables))
    × (AsMemory (Bank.batch_transfer memory_calls (bytes "1") payday bank_in_memory) (
          Bank.batch_transfer
            (postgres_calls one_fault unheard)
            (bytes "1")
            payday
            bank_with_tables)
        ⊎ IsUnavailable bank_in_memory
            (Bank.batch_transfer memory_calls (bytes "1") payday bank_in_memory)
            (Bank.batch_transfer
              (postgres_calls one_fault unheard)
              (bytes "1")
              payday
              bank_with_tables))
batch_transfer-AsMemory_example =
    batch_transfer-AsMemory one_fault unheard (bytes "1") payday bank_in_memory bank_with_tables
      empty_tables-Mirrors refl farm-IsPlain (omega arith) (farm_is_not_ann, tt)

attempt_all-Mirrors_example :
    (cs : List Call) × IsSublist cs (calls_of attempts)
    × Mirrors (run cs new_memory) (attempt_all attempts empty_tables)
attempt_all-Mirrors_example =
    attempt_all-Mirrors attempts new_memory empty_tables empty_tables-Mirrors attempts-AreProper
      (tt, (tt, (tt, tt))) ((tt, (tt, tt)), ((tt, tt), (tt, tt)))

tables-solvent_example : balance_of farm (attempt_all attempts empty_tables).accounts < sign_bit
unfolding credits_total bytes_eq
tables-solvent_example =
    tables-solvent attempts farm attempts-AreProper (omega arith, (omega arith, (omega arith, tt)))
      (omega arith) (cc)

-- A payment to oneself reports the balance before it in memory, and less in the tables.
abbrev rich : Tables
rich = record empty_tables { accounts = (farm, 15) ∷ [] }

run-to_oneself_tables :
    (transact (transfer_body (bytes "1") farm farm 6 kind_wage 1) [] made rich).1
    ≡ some (record { ok = true; reason = bytes ""; payer_balance = 9 })
unfolding transact lookup transfer_body and_then begin exec lookup_idempotent find_row lock_order
    bytes_eq is_before ensure_account lock_account insert cannot_cover subtract add append_rows
    record_idempotent
run-to_oneself_tables = refl

run-to_oneself_memory :
    (Ledger.transfer
      (bytes "1")
      farm
      farm
      6
      kind_wage
      1
      (record new_memory { balances = (farm, 15) ∷ [] })).1
    ≡ record { ok = true; reason = bytes ""; payer_balance = 15 }
unfolding Ledger.transfer commit_transfer lookup cannot_cover bytes_eq debit credit insert
run-to_oneself_memory = refl

abbrev meal : Message
meal = envelope (bytes "e1") 9 (purchase_made ann farm 5)

redelivered_pays_twice_example :
    let t' = deliver meal (deliver meal empty_tables) in
    Overflows ann farm 5 9 []
    ⊎ Overflows ann farm 5 9
        (Ledger.post (bytes "e1") ann farm 5 kind_purchase 9 new_memory).balances
    ⊎ ((balance_of farm t'.accounts ≡ 10) × (balance_of ann t'.accounts ≡ neg64 10))
unfolding lookup
redelivered_pays_twice_example =
    redelivered_pays_twice (bytes "e1") ann farm 5 9 new_memory empty_tables empty_tables-Mirrors
      refl (cc) (λ e. farm_is_not_ann (sym e))
