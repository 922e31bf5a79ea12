-- ===== src/Ledger/Holdings.antt =====
-- What the accounts other than the treasury hold together, and how each write moves it.
use pipsim.Common.{
  ℕ, ◌+◌, ◌≤◌, ◌<◌, ◌≡◌, ◌≢◌, inl, inr, List, [], ◌∷◌, arith, Bool-cases, if◌then◌else◌,
}
use pipsim.Common.Tests.{◌==◌, ==_iff}
use pipsim.Common.Words.{add64, sub64, word_size}
use pipsim.Common.Strings.{Bytes, Bytes-Eq}
use pipsim.Common.Assoc.{lookup, insert}
use pipsim.Ledger.{
  Balances, Credit, treasury_account, balance_of, debit, credit, credit_all, total_from,
}

-- What all accounts but the treasury hold, added up without wrapping round.
unfoldable pub holdings : Balances → ℕ
holdings [] = 0
holdings ((a, v) ∷ b) = let rest = holdings b in if a == treasury_account then rest else v + rest

pub balance-le-holdings :
    (a : Bytes) (b : Balances) → a ≢ treasury_account → balance_of a b ≤ holdings b
unfolding holdings lookup
balance-le-holdings a [] h = omega arith
balance-le-holdings a ((k, v) ∷ b) h =
    ground (arith, ==_iff k a, ==_iff k treasury_account, balance-le-holdings a b)

pub holdings-insert :
    (a : Bytes) (v : ℕ) (b : Balances)
    → a ≢ treasury_account
    → holdings (insert a v b) + balance_of a b ≡ holdings b + v
unfolding holdings lookup insert
holdings-insert a v [] h = ground (arith, ==_iff a treasury_account)
holdings-insert a v ((k, w) ∷ b) h =
    ground (arith, ==_iff k a, ==_iff k treasury_account, holdings-insert a v b)

pub holdings-insert_treasury :
    (v : ℕ) (b : Balances) → holdings (insert treasury_account v b) ≡ holdings b
unfolding holdings insert
holdings-insert_treasury v [] = ground (arith, ==_iff treasury_account treasury_account)
holdings-insert_treasury v ((k, w) ∷ b) =
    ground (arith, ==_iff k treasury_account, holdings-insert_treasury v b)

pub holdings-debit :
    (a : Bytes) (x : ℕ) (b : Balances)
    → a ≢ treasury_account
    → holdings b < word_size
    → x ≤ balance_of a b
    → holdings (debit a x b) + x ≡ holdings b
unfolding debit
holdings-debit a x b h small le =
    omega (arith, balance-le-holdings a b h, holdings-insert a (sub64 (balance_of a b) x) b h)

pub holdings-debit_treasury :
    (x : ℕ) (b : Balances) → holdings (debit treasury_account x b) ≡ holdings b
unfolding debit
holdings-debit_treasury x b = holdings-insert_treasury _ b

pub holdings-credit :
    (a : Bytes) (x : ℕ) (b : Balances)
    → holdings b + x < word_size
    → holdings (credit a x b) ≤ holdings b + x
unfolding credit
holdings-credit a x b small = elim (Bool-cases (a == treasury_account)) [
  | inl is ↦ ground (
    arith,
    (==_iff a treasury_account).0 is,
    holdings-insert_treasury (add64 (balance_of treasury_account b) x) b,
  )
  | inr other ↦ ground (
    arith,
    ==_iff a treasury_account,
    balance-le-holdings a b,
    holdings-insert a (add64 (balance_of a b) x) b,
  )
]

-- The sum of a batch's credits, added up without wrapping round.
unfoldable pub credits_total : List Credit → ℕ
credits_total [] = 0
credits_total (c ∷ cs) = c.amount + credits_total cs

pub total_from-credits_total :
    (t : ℕ) (cs : List Credit)
    → t + credits_total cs < word_size
    → total_from t cs ≡ t + credits_total cs
unfolding total_from credits_total
total_from-credits_total t [] h = omega arith
total_from-credits_total t (c ∷ cs) h =
    ground (arith, total_from-credits_total (add64 t c.amount) cs)

pub holdings-credit_all :
    (cs : List Credit) (b : Balances)
    → holdings b + credits_total cs < word_size
    → holdings (credit_all cs b) ≤ holdings b + credits_total cs
unfolding credit_all credits_total
holdings-credit_all [] b h = omega arith
holdings-credit_all (c ∷ cs) b h = omega (
  arith,
  holdings-credit c.payee c.amount b (omega arith),
  holdings-credit_all cs (credit c.payee c.amount b)
      (omega (arith, holdings-credit c.payee c.amount b (omega arith))),
)
