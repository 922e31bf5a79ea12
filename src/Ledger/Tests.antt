-- ===== src/Ledger/Tests.antt =====
-- Runs of the ledger on small inputs, and each theorem at an input that meets its hypotheses.
use pipsim.Common.{
  ℕ, ◌≡◌, ◌≢◌, ◌⊎◌, ◌≤◌, ◌<◌, refl, true, List, [], ◌∷◌, ◌++◌, arith, if◌then◌else◌,
}
use pipsim.Common.Tests.{◌==◌}
use pipsim.Common.Words.{add64, sub64, neg64, sign_bit}
use pipsim.Common.Strings.{Bytes, Bytes-Eq, bytes, bytes_eq, decimal}
use pipsim.Common.Assoc.{lookup, insert}
use pipsim.Ledger.{
  Credit, Memory, new_memory, treasury_account, balance_of, debit, credit, transfer,
  commit_transfer, batch_transfer, commit_batch, total_from, credit_all, post, idempotency_key,
  cannot_cover, kind_wage, kind_issuance, kind_purchase, accepted, insufficient_funds, JournalEntry,
  Result,
}
use pipsim.Ledger.History.{Call, after, run}
use pipsim.Ledger.Supply.{supply, supply-run}
use pipsim.Ledger.Journal.{account_sum, journal_sum, balance_of-journal, journal_grows_balanced}
use pipsim.Ledger.Idempotency.{transfer_replay, batch_transfer_replay, post_replay}
use pipsim.Ledger.Holdings.{holdings, credits_total}
use pipsim.Ledger.Solvency.{issued_total, run-solvent}
use pipsim.Ledger.Movement.{
  moved, credited, transfer_decides, batch_transfer_decides, transfer_negative_overdraws,
}
use pipsim.Ledger.Keys.{idempotency_key-injective}

abbrev farm : Bytes
farm = bytes "workplace:1"

abbrev ann : Bytes
ann = bytes "pip:1"

abbrev bob : Bytes
bob = bytes "pip:2"

abbrev wages : List Credit
wages = record { payee = ann; amount = 6 } ∷ record { payee = bob; amount = 7 } ∷ []

-- The farm is endowed, pays its workers, is too poor for a second round, and sells a meal.
abbrev script : List Call
script =
    Call.transfer (bytes "a") treasury_account farm 15 kind_issuance 1
    ∷ Call.batch_transfer (bytes "b") farm wages kind_wage 2
    ∷ Call.batch_transfer (bytes "c") farm wages kind_wage 3
    ∷ []

abbrev full_script : List Call
full_script = Call.post (bytes "d") ann farm 5 kind_purchase 4 ∷ script

run-script :
    (run script new_memory).balances
    ≡ (treasury_account, neg64 15) ∷ (farm, 2) ∷ (ann, 6) ∷ (bob, 7) ∷ []
unfolding run after transfer commit_transfer batch_transfer commit_batch idempotency_key
    cannot_cover debit credit credit_all total_from lookup insert decimal bytes_eq
run-script = refl

supply-run_example : supply (run full_script new_memory).balances ≡ supply new_memory.balances
supply-run_example = supply-run full_script new_memory

balance_of-journal_example :
    balance_of ann (run full_script new_memory).balances
    ≡ account_sum ann (run full_script new_memory).journal
balance_of-journal_example = balance_of-journal ann full_script

-- The farm's state when it can pay no second round.
abbrev endowed : Memory
endowed = record new_memory { balances = (treasury_account, neg64 15) ∷ (farm, 15) ∷ [] }

journal_grows_balanced_example :
    (rows : List JournalEntry) × ((after
        (Call.batch_transfer (bytes "b") farm wages kind_wage 2)
        endowed).journal
      ≡ endowed.journal ++ rows)
    × (journal_sum rows ≡ 0)
journal_grows_balanced_example =
    journal_grows_balanced (Call.batch_transfer (bytes "b") farm wages kind_wage 2) endowed

abbrev paid : Memory × Result
paid = transfer (bytes "x") farm ann 6 kind_wage 2 endowed

transfer_replay_example :
    transfer (bytes "y") farm ann 9 kind_wage 2 (run script paid.0) ≡ (run script paid.0, paid.1)
unfolding transfer commit_transfer cannot_cover lookup debit bytes_eq
transfer_replay_example =
    transfer_replay (bytes "x") (bytes "y") farm ann 6 9 kind_wage 2 script endowed refl

abbrev paid_all : Memory × Result
paid_all = batch_transfer (bytes "x") farm wages kind_wage 2 endowed

batch_transfer_replay_example :
    batch_transfer (bytes "y") farm [] kind_wage 2 (run script paid_all.0)
    ≡ (run script paid_all.0, paid_all.1)
unfolding batch_transfer commit_batch cannot_cover lookup debit bytes_eq total_from
batch_transfer_replay_example =
    batch_transfer_replay (bytes "x") (bytes "y") farm wages [] kind_wage 2 script endowed refl

post_replay_example :
    let m = post (bytes "e1") ann farm 5 kind_purchase 4 endowed in
    post (bytes "e1") ann farm 5 kind_purchase 4 (run script m) ≡ run script m
post_replay_example =
    post_replay (bytes "e1") ann ann farm farm 5 5 kind_purchase kind_purchase 4 4 script endowed

run-solvent_example :
    (balance_of ann (run script new_memory).balances < sign_bit)
    × (holdings (run script new_memory).balances ≤ issued_total script)
unfolding bytes_eq credits_total
run-solvent_example =
    run-solvent script ann (omega arith, (omega arith, (omega arith, tt))) (omega arith) (cc)

transfer_decides_example :
    let (m', r) = transfer (bytes "x") farm ann 6 kind_wage 2 endowed in
    (((farm ≡ treasury_account) ⊎ (6 ≤ balance_of farm endowed.balances))
      × (balance_of farm m'.balances ≡ moved farm ann 6 farm (balance_of farm endowed.balances))
      × (r ≡ accepted (balance_of farm m'.balances)))
    ⊎ ((farm ≢ treasury_account)
        × (balance_of farm endowed.balances < 6)
        × (m' ≡ endowed)
        × (r ≡ insufficient_funds (balance_of farm endowed.balances)))
unfolding lookup bytes_eq
transfer_decides_example =
    transfer_decides (bytes "x") farm ann 6 kind_wage 2 endowed farm refl (omega arith)
      (omega arith) (omega arith)

batch_transfer_decides_example :
    let (m', r) = batch_transfer (bytes "x") farm wages kind_wage 2 endowed in
    (((farm ≡ treasury_account) ⊎ (credits_total wages ≤ balance_of farm endowed.balances))
      × (balance_of ann m'.balances
          ≡ add64
              (sub64
                (balance_of ann endowed.balances)
                (if farm == ann then credits_total wages else 0))
              (credited ann wages))
      × (r ≡ accepted (balance_of farm m'.balances)))
    ⊎ ((farm ≢ treasury_account)
        × (balance_of farm endowed.balances < credits_total wages)
        × (m' ≡ endowed)
        × (r ≡ insufficient_funds (balance_of farm endowed.balances)))
unfolding lookup bytes_eq credits_total
batch_transfer_decides_example =
    batch_transfer_decides (bytes "x") farm wages kind_wage 2 endowed ann refl (omega arith)
      (omega arith) (omega arith)

-- The total of these wraps round to 0, so a farm that holds nothing can pay them.
abbrev huge : List Credit
huge =
    let credit_of : Bytes → Credit = λ who. record { payee = who; amount = 0x4000000000000000 } in
    credit_of ann ∷ credit_of ann ∷ credit_of bob ∷ credit_of bob ∷ []

run-total_wraps :
    let (m', r) = batch_transfer (bytes "x") farm huge kind_wage 2 new_memory in
    (r.ok ≡ true) × (balance_of ann m'.balances ≡ sign_bit)
unfolding batch_transfer commit_batch cannot_cover total_from credit_all debit credit lookup insert
    bytes_eq
run-total_wraps = (refl, refl)

transfer_negative_overdraws_example :
    let (m', r) = transfer (bytes "x") farm ann (neg64 4) kind_wage 2 endowed in
    (r.ok ≡ true) × (sign_bit ≤ balance_of ann m'.balances)
unfolding lookup bytes_eq
transfer_negative_overdraws_example =
    transfer_negative_overdraws (bytes "x") farm ann (neg64 4) kind_wage 2 endowed refl (cc)
      (omega arith) (omega arith) (omega arith)

idempotency_key-injective_example :
    (farm ≡ farm) × (ann ≡ ann) × (◌≡◌ {A = ℕ} 2 2) × (kind_wage ≡ kind_wage)
idempotency_key-injective_example =
    idempotency_key-injective farm farm ann ann 2 2 kind_wage kind_wage (omega arith) (omega arith)
      (omega arith) (omega arith) (omega arith) (omega arith) refl
