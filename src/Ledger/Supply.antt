-- ===== src/Ledger/Supply.antt =====
-- The money supply of services/bank/internal/ledger/memory.go: the sum of all balances, the
-- treasury's own included.
use pipsim.Common.{ℕ, ◌<◌, ◌≡◌, refl, ◌∙◌, List, [], ◌∷◌, arith}
use pipsim.Common.Words.{add64, sub64, word_size}
use pipsim.Common.Strings.{Bytes, Bytes-Eq}
use pipsim.Common.Assoc.{lookup, insert}
use pipsim.Ledger.{
  Balances, Kind, Credit, Memory, balance_of, debit, credit, credit_all, total_from, transfer,
  batch_transfer, post, commit_transfer, commit_batch, open_account, get_balance,
}
use pipsim.Ledger.History.{Call, after, run}

-- `sum(balances)`, in int64 as the ledger's tests add it up.
unfoldable pub supply : Balances → ℕ
supply [] = 0
supply ((_, v) ∷ b) = add64 v (supply b)

pub supply-lt : (b : Balances) → supply b < word_size
unfolding supply
supply-lt [] = omega arith
supply-lt (e ∷ b) = omega arith

-- A write moves the supply by the difference of the two values.
pub supply-insert :
    (a : Bytes) (v : ℕ) (b : Balances)
    → add64 (supply (insert a v b)) (balance_of a b) ≡ add64 (supply b) v
unfolding supply insert lookup
supply-insert a v [] = omega arith
supply-insert a v ((k, w) ∷ b) = ground (arith, supply-insert a v b)

supply-debit : (a : Bytes) (x : ℕ) (b : Balances) → supply (debit a x b) ≡ sub64 (supply b) x
unfolding debit
supply-debit a x b = omega (
  arith,
  supply-insert a (sub64 (balance_of a b) x) b,
  supply-lt (insert a (sub64 (balance_of a b) x) b),
  supply-lt b,
)

supply-credit : (a : Bytes) (x : ℕ) (b : Balances) → supply (credit a x b) ≡ add64 (supply b) x
unfolding credit
supply-credit a x b = omega (
  arith,
  supply-insert a (add64 (balance_of a b) x) b,
  supply-lt (insert a (add64 (balance_of a b) x) b),
  supply-lt b,
)

-- The credits of a batch, as one sum.
supply-credit_all :
    (cs : List Credit) (t : ℕ) (b : Balances)
    → add64 (supply (credit_all cs b)) t ≡ add64 (supply b) (total_from t cs)
unfolding credit_all total_from
supply-credit_all [] t b = refl
supply-credit_all (c ∷ cs) t b = omega (
  arith,
  supply-credit_all cs (add64 t c.amount) (credit c.payee c.amount b),
  supply-credit c.payee c.amount b,
)

supply-transfer :
    (id payer payee : Bytes) (amount : ℕ) (kind : Kind) (tick : ℕ) (m : Memory)
    → supply (transfer id payer payee amount kind tick m).0.balances ≡ supply m.balances
unfolding transfer commit_transfer
supply-transfer id payer payee amount kind tick m = ground (
  arith,
  supply-debit payer amount m.balances,
  supply-credit payee amount (debit payer amount m.balances),
  supply-lt m.balances,
)

supply-batch_transfer :
    (id payer : Bytes) (cs : List Credit) (kind : Kind) (tick : ℕ) (m : Memory)
    → supply (batch_transfer id payer cs kind tick m).0.balances ≡ supply m.balances
unfolding batch_transfer commit_batch
supply-batch_transfer id payer cs kind tick m = ground (
  arith,
  supply-debit payer (total_from 0 cs) m.balances,
  supply-credit_all cs 0 (debit payer (total_from 0 cs) m.balances),
  supply-lt (credit_all cs (debit payer (total_from 0 cs) m.balances)),
  supply-lt m.balances,
)

supply-post :
    (id payer payee : Bytes) (amount : ℕ) (kind : Kind) (tick : ℕ) (m : Memory)
    → supply (post id payer payee amount kind tick m).balances ≡ supply m.balances
unfolding post
supply-post id payer payee amount kind tick m = ground (
  arith,
  supply-debit payer amount m.balances,
  supply-credit payee amount (debit payer amount m.balances),
  supply-lt m.balances,
)

supply-after : (c : Call) (m : Memory) → supply (after c m).balances ≡ supply m.balances
unfolding after open_account get_balance
supply-after (Call.open_account a) m = refl
supply-after (Call.get_balance a) m = refl
supply-after (Call.transfer id p q x k t) m = supply-transfer id p q x k t m
supply-after (Call.batch_transfer id p cs k t) m = supply-batch_transfer id p cs k t m
supply-after (Call.post id p q x k t) m = supply-post id p q x k t m

-- No call of the ledger, refused, repeated or carried out, changes the supply, whatever the
-- amounts are and also where a balance wraps round.
pub supply-run : (cs : List Call) (m : Memory) → supply (run cs m).balances ≡ supply m.balances
unfolding run
supply-run [] m = refl
supply-run (c ∷ cs) m = supply-run cs (after c m) ∙ supply-after c m
