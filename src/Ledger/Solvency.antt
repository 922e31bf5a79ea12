-- ===== src/Ledger/Solvency.antt =====
-- The balance check of services/bank/internal/ledger/memory.go, over whole histories: what the
-- accounts other than the treasury hold, and what was issued.
use pipsim.Common.{
  ℕ, ◌+◌, ◌≤◌, ◌<◌, ◌≡◌, ◌≢◌, inl, inr, false, List, [], ◌∷◌, arith, Bool-cases, if◌then◌else◌, All,
}
use pipsim.Common.Tests.{◌==◌, ==_iff}
use pipsim.Common.Words.{sign_bit}
use pipsim.Common.Strings.{Bytes, Bytes-Eq}
use pipsim.Ledger.{
  Balances, Kind, Credit, Memory, new_memory, treasury_account, balance_of, debit, total_from,
  transfer, batch_transfer, commit_transfer, commit_batch, cannot_cover, open_account, get_balance,
}
use pipsim.Ledger.Holdings.{
  holdings, balance-le-holdings, holdings-debit, holdings-debit_treasury, holdings-credit,
  holdings-credit_all, credits_total, total_from-credits_total,
}
use pipsim.Ledger.History.{Call, after, run}

-- What a payment of `x` by `p` adds to the money outside the treasury.
abbrev pub issued_by : Bytes → ℕ → ℕ
issued_by p x = if p == treasury_account then x else 0

-- A debit that passed the check, for an amount of zero or more.
holdings-covered :
    (p : Bytes) (x : ℕ) (b : Balances)
    → holdings b < sign_bit
    → x < sign_bit
    → cannot_cover p (balance_of p b) x ≡ false
    → holdings (debit p x b) + x ≡ holdings b + issued_by p x
unfolding cannot_cover
holdings-covered p x b small nonneg covered = elim (Bool-cases (p == treasury_account)) [
  | inl is ↦ ground (arith, (==_iff p treasury_account).0 is, holdings-debit_treasury x b)
  | inr other ↦
      ground (arith, ==_iff p treasury_account, balance-le-holdings p b, holdings-debit p x b)
]

-- The calls that the bank itself gates, with amounts of zero or more that add up to less than 2^63.
-- `Post` books movements
-- that another service has decided, and is left out.
abbrev pub IsGated : Call → Type 0
IsGated (Call.open_account _) = Unit
IsGated (Call.get_balance _) = Unit
IsGated (Call.transfer _ _ _ x _ _) = x < sign_bit
IsGated (Call.batch_transfer _ _ cs _ _) = credits_total cs < sign_bit
IsGated (Call.post _ _ _ _ _ _) = ⊥

-- The most that a call can issue from the treasury.
abbrev pub issued : Call → ℕ
issued (Call.transfer _ p _ x _ _) = issued_by p x
issued (Call.batch_transfer _ p cs _ _) = issued_by p (credits_total cs)
issued _ = 0

abbrev pub issued_total : List Call → ℕ
issued_total [] = 0
issued_total (c ∷ cs) = issued c + issued_total cs

holdings-transfer :
    (id p q : Bytes) (x : ℕ) (k : Kind) (t : ℕ) (m : Memory)
    → x < sign_bit
    → holdings m.balances + issued_by p x < sign_bit
    → holdings (transfer id p q x k t m).0.balances ≤ holdings m.balances + issued_by p x
unfolding transfer commit_transfer
holdings-transfer id p q x k t m nonneg small =
    ground (arith, holdings-covered p x m.balances, holdings-credit q x (debit p x m.balances))

holdings-batch_transfer :
    (id p : Bytes) (cs : List Credit) (k : Kind) (t : ℕ) (m : Memory)
    → credits_total cs < sign_bit
    → holdings m.balances + issued_by p (credits_total cs) < sign_bit
    → holdings (batch_transfer id p cs k t m).0.balances
      ≤ holdings m.balances + issued_by p (credits_total cs)
unfolding batch_transfer commit_batch
holdings-batch_transfer id p cs k t m nonneg small = ground (
  arith,
  total_from-credits_total 0 cs,
  holdings-covered p (total_from 0 cs) m.balances,
  holdings-credit_all cs (debit p (total_from 0 cs) m.balances),
)

holdings-after :
    (c : Call) (m : Memory)
    → IsGated c
    → holdings m.balances + issued c < sign_bit
    → holdings (after c m).balances ≤ holdings m.balances + issued c
unfolding after open_account get_balance
holdings-after (Call.open_account a) m g h = omega arith
holdings-after (Call.get_balance a) m g h = omega arith
holdings-after (Call.transfer id p q x k t) m g h = holdings-transfer id p q x k t m g h
holdings-after (Call.batch_transfer id p cs k t) m g h = holdings-batch_transfer id p cs k t m g h
holdings-after (Call.post id p q x k t) m g h = absurd g

holdings-run :
    (cs : List Call) (m : Memory)
    → All IsGated cs
    → holdings m.balances + issued_total cs < sign_bit
    → holdings (run cs m).balances ≤ holdings m.balances + issued_total cs
unfolding run
holdings-run [] m g h = omega arith
holdings-run (c ∷ cs) m g h =
    let step : holdings (after c m).balances ≤ holdings m.balances + issued c =
      holdings-after c m g.0 (omega arith) in
    omega (arith, holdings-run cs (after c m) g.1 (omega arith))

-- After any history of transfers of amounts of zero or more, and of batches whose amounts are zero
-- or more and add up to less than 2^63, from a new ledger and with less than 2^63 issued in all, no
-- account but the treasury is negative, and all of them together hold no more than was issued. (The
-- total of a batch from 2^63 on wraps round in the code, and may then pass the balance check.)
pub run-solvent :
    (cs : List Call) (a : Bytes)
    → All IsGated cs
    → issued_total cs < sign_bit
    → a ≢ treasury_account
    → (balance_of a (run cs new_memory).balances < sign_bit)
      × (holdings (run cs new_memory).balances ≤ issued_total cs)
unfolding holdings
run-solvent cs a g h ne =
    let held : holdings (run cs new_memory).balances ≤ issued_total cs =
      omega (arith, holdings-run cs new_memory g (omega arith)) in
    (omega (arith, balance-le-holdings a (run cs new_memory).balances ne), held)
