-- ===== src/Ledger/Movement.antt =====
-- What a transfer and a batch do to each balance, on every branch.
use pipsim.Common.{ℕ, ◌+◌, ◌≤◌, ◌<◌, ◌≡◌, ◌≢◌, ◌⊎◌, none, true, List, [], ◌∷◌, arith, if◌then◌else◌}
use pipsim.Common.Tests.{◌==◌, ==_iff}
use pipsim.Common.Words.{add64, sub64, word_size, sign_bit}
use pipsim.Common.Strings.{Bytes, Bytes-Eq, bytes}
use pipsim.Common.Assoc.{lookup}
use pipsim.Ledger.{
  Balances, Kind, Credit, Memory, treasury_account, balance_of, debit, credit, credit_all, transfer,
  batch_transfer, commit_transfer, commit_batch, cannot_cover, idempotency_key, total_from,
  insufficient_funds, accepted,
}
use pipsim.Ledger.Holdings.{credits_total, total_from-credits_total}
use pipsim.Ledger.Balance.{balance_of-debit, balance_of-credit}

-- The balance of `a` after `x` has moved from `p` to `q`.
abbrev pub moved : Bytes → Bytes → ℕ → Bytes → ℕ → ℕ
moved p q x a before = add64 (sub64 before (if p == a then x else 0)) (if q == a then x else 0)

-- A request whose key is new is carried out exactly when the payer is the treasury or holds the
-- amount. Then every balance has moved as stated and the reply names the payer's new balance;
-- otherwise nothing has changed and the reply is the refusal with the balance held. The amount
-- and the payer's balance are zero or more here.
pub transfer_decides :
    (id p q : Bytes) (x : ℕ) (k : Kind) (t : ℕ) (m : Memory) (a : Bytes)
    → lookup (idempotency_key p q t k) m.idempotent ≡ none
    → x < sign_bit
    → balance_of p m.balances < sign_bit
    → balance_of a m.balances < word_size
    → let (m', r) = transfer id p q x k t m in
      (((p ≡ treasury_account) ⊎ (x ≤ balance_of p m.balances))
        × (balance_of a m'.balances ≡ moved p q x a (balance_of a m.balances))
        × (r ≡ accepted (balance_of p m'.balances)))
      ⊎ ((p ≢ treasury_account)
          × (balance_of p m.balances < x)
          × (m' ≡ m)
          × (r ≡ insufficient_funds (balance_of p m.balances)))
unfolding transfer commit_transfer cannot_cover
transfer_decides id p q x k t m a new hx hp ha = ground (
  arith,
  ==_iff p treasury_account,
  ==_iff p a,
  ==_iff q a,
  ==_iff p q,
  balance_of-debit p a x m.balances,
  balance_of-debit p q x m.balances,
  balance_of-credit q a x (debit p x m.balances),
)

-- What a batch's credits bring to `a`.
unfoldable pub credited : Bytes → List Credit → ℕ
credited a [] = 0
credited a (c ∷ cs) = let rest = credited a cs in if c.payee == a then add64 c.amount rest else rest

balance_of-credit_all :
    (a : Bytes) (cs : List Credit) (b : Balances)
    → balance_of a b < word_size
    → balance_of a (credit_all cs b) ≡ add64 (balance_of a b) (credited a cs)
unfolding credit_all credited
balance_of-credit_all a [] b h = omega arith
balance_of-credit_all a (c ∷ cs) b h = ground (
  arith,
  ==_iff c.payee a,
  balance_of-credit c.payee a c.amount b,
  balance_of-credit_all a cs (credit c.payee c.amount b),
)

-- A batch whose key is new pays all of its credits or none: it is carried out exactly when the
-- payer is the treasury or holds the sum of all amounts. Then the payer has lost the sum and every
-- account has gained its credits, and otherwise nothing has changed. The amounts are
-- zero or more and add up to less than 2^63, and the payer's balance is zero or more. (The code adds
-- the amounts up in an int64, so a larger sum would wrap round.)
pub batch_transfer_decides :
    (id p : Bytes) (cs : List Credit) (k : Kind) (t : ℕ) (m : Memory) (a : Bytes)
    → lookup (idempotency_key p (bytes "batch") t k) m.idempotent ≡ none
    → credits_total cs < sign_bit
    → balance_of p m.balances < sign_bit
    → balance_of a m.balances < word_size
    → let (m', r) = batch_transfer id p cs k t m in
      (((p ≡ treasury_account) ⊎ (credits_total cs ≤ balance_of p m.balances))
        × (balance_of a m'.balances
            ≡ add64
                (sub64 (balance_of a m.balances) (if p == a then credits_total cs else 0))
                (credited a cs))
        × (r ≡ accepted (balance_of p m'.balances)))
      ⊎ ((p ≢ treasury_account)
          × (balance_of p m.balances < credits_total cs)
          × (m' ≡ m)
          × (r ≡ insufficient_funds (balance_of p m.balances)))
unfolding batch_transfer commit_batch cannot_cover
batch_transfer_decides id p cs k t m a new hx hp ha = ground (
  arith,
  total_from-credits_total 0 cs,
  ==_iff p treasury_account,
  ==_iff p a,
  balance_of-debit p a (total_from 0 cs) m.balances,
  balance_of-credit_all a cs (debit p (total_from 0 cs) m.balances),
)

-- A transfer of a negative amount -n is not refused: with a new key, from a payer whose balance is
-- zero or more to another account that holds less than n, it is carried out and leaves the payee
-- overdrawn.
pub transfer_negative_overdraws :
    (id p q : Bytes) (x : ℕ) (k : Kind) (t : ℕ) (m : Memory)
    → lookup (idempotency_key p q t k) m.idempotent ≡ none
    → p ≢ q
    → balance_of p m.balances < sign_bit
    → sign_bit ≤ x
    → balance_of q m.balances + x < word_size
    → let (m', r) = transfer id p q x k t m in (r.ok ≡ true) × (sign_bit ≤ balance_of q m'.balances)
unfolding transfer commit_transfer cannot_cover
transfer_negative_overdraws id p q x k t m new ne hp neg hq = ground (
  arith,
  ==_iff p q,
  balance_of-debit p q x m.balances,
  balance_of-credit q q x (debit p x m.balances),
  ==_iff q q,
)
