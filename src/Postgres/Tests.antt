-- ===== src/Postgres/Tests.antt =====
-- Runs of the transactions, and the theorems at inputs that meet their hypotheses.
use pipsim.Common.{ℕ, ◌≡◌, refl, Bool, true, false, Option, some, List, [], ◌∷◌}
use pipsim.Common.Strings.{bytes, bytes_eq, Bytes-Eq}
use pipsim.Common.Assoc.{lookup, insert}
use pipsim.Ledger.{Result, treasury_account, kind_issuance, kind_purchase, cannot_cover}
use pipsim.Postgres.Statements.{
  Tables, exec, and_then, begin, subtract, add, ensure_account, lock_account, find_row,
  lookup_idempotent, record_idempotent, append_rows, is_before, lock_order,
}
use pipsim.Postgres.Calls.{made, unheard, transact, transfer_body, post_body, batch_transfer_body}
use pipsim.Ledger.Supply.{supply}
use pipsim.Postgres.Conserve.{supply-calls}

abbrev no_rows : Tables
no_rows = record { accounts = []; journal = []; idempotency = [] }

abbrev issued : Tables × Option Result
issued =
    transact (transfer_body (bytes "a") treasury_account (bytes "farm") 90 kind_issuance 1) [] made
      no_rows

run-issue : lookup (bytes "farm") issued.0.accounts ≡ some 90
unfolding transact lookup transfer_body and_then begin exec lookup_idempotent find_row lock_order
    bytes_eq is_before ensure_account lock_account insert cannot_cover subtract add append_rows
    record_idempotent
run-issue = refl

-- The journal takes the rows of a repeated delivery, so the purchase moves money twice.
run-post_twice :
    let post = post_body (bytes "p") (bytes "x") (bytes "y") 30 kind_purchase 2 in
    let once = (transact post [] made no_rows).0 in
    let twice = (transact post [] made once).0 in lookup (bytes "y") twice.accounts ≡ some 60
unfolding transact lookup post_body and_then begin exec lock_order bytes_eq is_before ensure_account
    lock_account insert append_rows subtract add
run-post_twice = refl

supply-calls_example :
    let total : Tables → ℕ = λ tables. supply tables.accounts in
    let t = issued.0 in
    let faults : List Bool = false ∷ false ∷ true ∷ [] in
    (total
        (transact
          (transfer_body (bytes "b") (bytes "farm") (bytes "x") 9 kind_purchase 2)
          faults
          unheard
          t).0
      ≡ total t)
    × (total
          (transact
            (batch_transfer_body
              (bytes "b")
              (bytes "farm")
              (record { payee = bytes "x"; amount = 4 } ∷ [])
              kind_purchase
              2)
            faults
            unheard
            t).0
        ≡ total t)
    × (total
          (transact
            (post_body (bytes "b") (bytes "farm") (bytes "x") 9 kind_purchase 2)
            faults
            unheard
            t).0
        ≡ total t)
supply-calls_example =
    supply-calls (bytes "b") (bytes "farm") (bytes "x") 9
      (record { payee = bytes "x"; amount = 4 } ∷ []) kind_purchase 2 (false ∷ false ∷ true ∷ [])
      unheard issued.0
