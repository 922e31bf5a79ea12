-- ===== src/Postgres/Mirror/Solvent.antt =====
-- The balance check of services/bank/internal/ledger/postgres.go, over whole histories with faults.
use pipsim.Common.{◌≤◌, ◌<◌, ◌≢◌, refl, List, [], ◌∷◌, arith, All, All-mono}
use pipsim.Common.Words.{sign_bit}
use pipsim.Common.Strings.{Bytes, Bytes-Eq}
use pipsim.Common.Assoc.{lookup}
use pipsim.Ledger.{Memory, new_memory, treasury_account, balance_of}
use pipsim.Ledger.History.{Call, run}
use pipsim.Ledger.Solvency.{IsGated, issued_total, run-solvent}
use pipsim.Postgres.Statements.{Tables, find_row}
use pipsim.Postgres.Mirror.Calls.{Mirrors}
use pipsim.Postgres.Mirror.Once.{IsUnbooked, BooksOther, BookOnce}
use pipsim.Postgres.Mirror.Histories.{
  Attempt, attempt_all, calls_of, IsSublist, nothing, kept, left_out, IsProper, attempt_all-Mirrors,
}

abbrev pub empty_tables : Tables
empty_tables = record { accounts = []; journal = []; idempotency = [] }

pub empty_tables-Mirrors : Mirrors new_memory empty_tables
unfolding lookup find_row
empty_tables-Mirrors = (λ a. refl, refl, λ p q t k hp hq ht. refl)

IsSublist-All : (P : Call → Type 0) {cs ds : List Call} → IsSublist cs ds → All P ds → All P cs
IsSublist-All P nothing h = tt
IsSublist-All P (kept s) (p, h) = (p, IsSublist-All P s h)
IsSublist-All P (left_out s) (p, h) = IsSublist-All P s h

IsSublist-issued_total : {cs ds : List Call} → IsSublist cs ds → issued_total cs ≤ issued_total ds
IsSublist-issued_total nothing = omega arith
IsSublist-issued_total (kept s) = omega (arith, IsSublist-issued_total s)
IsSublist-issued_total (left_out s) = omega (arith, IsSublist-issued_total s)

-- A gated call books no settled movement.
IsGated-IsUnbooked : (m : Memory) (c : Call) → IsGated c → IsUnbooked m c
IsGated-IsUnbooked m (Call.open_account a) g = tt
IsGated-IsUnbooked m (Call.get_balance a) g = tt
IsGated-IsUnbooked m (Call.transfer id p q x k t) g = tt
IsGated-IsUnbooked m (Call.batch_transfer id p cs k t) g = tt
IsGated-IsUnbooked m (Call.post id p q x k t) g = absurd g

IsGated-BooksOther : (c d : Call) → IsGated c → BooksOther c d
IsGated-BooksOther (Call.open_account a) d g = tt
IsGated-BooksOther (Call.get_balance a) d g = tt
IsGated-BooksOther (Call.transfer id p q x k t) d g = tt
IsGated-BooksOther (Call.batch_transfer id p cs k t) d g = tt
IsGated-BooksOther (Call.post id p q x k t) d g = absurd g

AreGated-BookOnce : (cs : List Call) → All IsGated cs → BookOnce cs
AreGated-BookOnce [] h = tt
AreGated-BookOnce (c ∷ cs) (g, h) = (others cs, AreGated-BookOnce cs h)
  where
    others : (ds : List Call) → All (BooksOther c) ds
    others [] = tt
    others (d ∷ ds) = (IsGated-BooksOther c d g, others ds)

-- After any history of transfers of amounts of zero or more, and of batches whose amounts are zero
-- or more and add up to less than 2^63, on empty tables and with less than 2^63 asked from the
-- treasury in all, no row but the treasury's is negative, whatever
-- statements fail and however the commits end. Names hold no `|`, ticks fit 64 bits, and no payer
-- pays itself.
pub tables-solvent :
    (attempts : List Attempt) (a : Bytes)
    → All IsProper (calls_of attempts)
    → All IsGated (calls_of attempts)
    → issued_total (calls_of attempts) < sign_bit
    → a ≢ treasury_account
    → balance_of a (attempt_all attempts empty_tables).accounts < sign_bit
tables-solvent attempts a proper gated small ne =
    let (cs, sub, mirrors) =
      attempt_all-Mirrors attempts new_memory empty_tables empty_tables-Mirrors proper
        (All-mono (IsGated-IsUnbooked new_memory) (calls_of attempts) gated)
        (AreGated-BookOnce (calls_of attempts) gated) in
    let solvent : balance_of a (run cs new_memory).balances < sign_bit =
      (run-solvent cs a (IsSublist-All IsGated sub gated)
        (omega (arith, IsSublist-issued_total sub)) ne).0 in
    omega (arith, solvent, mirrors.0 a)
