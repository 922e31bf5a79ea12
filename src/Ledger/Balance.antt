-- ===== src/Ledger/Balance.antt =====
-- How the writes of a balance show in a later read.
use pipsim.Common.{ℕ, ◌≡◌, arith, if◌then◌else◌}
use pipsim.Common.Tests.{◌==◌}
use pipsim.Common.Words.{add64, sub64}
use pipsim.Common.Strings.{Bytes, Bytes-Eq}
use pipsim.Common.Assoc.{lookup-insert}
use pipsim.Ledger.{Balances, balance_of, debit, credit}

pub balance_of-debit :
    (p a : Bytes) (x : ℕ) (b : Balances)
    → balance_of a (debit p x b) ≡ (if p == a then sub64 (balance_of p b) x else balance_of a b)
unfolding debit
balance_of-debit p a x b = ground (arith, lookup-insert p a (sub64 (balance_of p b) x) b)

pub balance_of-credit :
    (p a : Bytes) (x : ℕ) (b : Balances)
    → balance_of a (credit p x b) ≡ (if p == a then add64 (balance_of p b) x else balance_of a b)
unfolding credit
balance_of-credit p a x b = ground (arith, lookup-insert p a (add64 (balance_of p b) x) b)
