-- ===== src/Postgres/Calls.antt =====
-- The methods of `Postgres`, services/bank/internal/ledger/postgres.go, as transactions. The id of
-- a transfer is an argument of its call.
use pipsim.Common.{ℕ, Bool, true, false, Option, none, some, List, [], ◌∷◌, if◌then◌else◌}
use pipsim.Common.Words.{sub64, neg64}
use pipsim.Common.Strings.{Bytes, Bytes-Eq, bytes}
use pipsim.Common.Assoc.{lookup}
use pipsim.Ledger.{
  Kind, Credit, Result, balance_of, cannot_cover, insufficient_funds, accepted, entry, two_entries,
  total_from,
}
use pipsim.Postgres.Statements.{
  Tables, Session, Tx, pure, ◌>>=◌, exec, or_insert, begin, subtract, add, append_rows,
  lookup_idempotent, record_idempotent, ensure_account, lock_account, lock_order, lock_all,
}

-- The end of `Transfer`, once the payer can pay. The flag says whether to commit.
unfoldable pub pay : Bytes → Bytes → Bytes → ℕ → Kind → ℕ → ℕ → Tx (Result × Bool)
pay id payer payee amount kind tick payer_balance = do
  _ ← subtract payer amount
  _ ← add payee amount
  _ ← append_rows (two_entries id payer payee amount kind tick)
  let r : Result = accepted (sub64 payer_balance amount)
  _ ← record_idempotent payer payee tick kind r
  pure (r, true)

-- An answer that leaves the transaction to its rollback.
abbrev pub answered : Result → Tx (Result × Bool)
answered r = pure (r, false)

unfoldable pub pay_if_covered : Bytes → Bytes → Bytes → ℕ → Kind → ℕ → ℕ → Tx (Result × Bool)
unfolding pay
pay_if_covered id payer payee amount kind tick payer_balance =
    if cannot_cover payer payer_balance amount
    then answered (insufficient_funds payer_balance)
    else pay id payer payee amount kind tick payer_balance

unfoldable pub transfer_unless_seen :
    Bytes → Bytes → Bytes → ℕ → Kind → ℕ → Option Result → Tx (Result × Bool)
unfolding lock_all pay_if_covered
transfer_unless_seen id payer payee amount kind tick (some r) = answered r
transfer_unless_seen id payer payee amount kind tick none = do
  balances ← lock_all (lock_order payer payee) []
  pay_if_covered id payer payee amount kind tick (balance_of payer balances)

unfoldable pub transfer_body : Bytes → Bytes → Bytes → ℕ → Kind → ℕ → Tx (Result × Bool)
unfolding transfer_unless_seen
transfer_body id payer payee amount kind tick = do
  _ ← begin
  seen ← lookup_idempotent payer payee tick kind
  transfer_unless_seen id payer payee amount kind tick seen

-- The loop over the credits of `BatchTransfer`.
unfoldable pub pay_credits : Bytes → Kind → ℕ → List Credit → Tx (Unit {0})
pay_credits id kind tick [] = pure tt
pay_credits id kind tick (c ∷ cs) = do
  _ ← ensure_account c.payee
  _ ← add c.payee c.amount
  _ ← append_rows (entry id c.payee c.amount kind tick ∷ [])
  pay_credits id kind tick cs

unfoldable pub pay_batch : Bytes → Bytes → List Credit → ℕ → Kind → ℕ → ℕ → Tx (Result × Bool)
unfolding pay_credits
pay_batch id payer credits total kind tick payer_balance = do
  _ ← subtract payer total
  _ ← append_rows (entry id payer (neg64 total) kind tick ∷ [])
  _ ← pay_credits id kind tick credits
  let r : Result = accepted (sub64 payer_balance total)
  _ ← record_idempotent payer (bytes "batch") tick kind r
  pure (r, true)

unfoldable pub batch_if_covered :
    Bytes → Bytes → List Credit → ℕ → Kind → ℕ → ℕ → Tx (Result × Bool)
unfolding pay_batch
batch_if_covered id payer credits total kind tick payer_balance =
    if cannot_cover payer payer_balance total
    then answered (insufficient_funds payer_balance)
    else pay_batch id payer credits total kind tick payer_balance

unfoldable pub batch_unless_seen :
    Bytes → Bytes → List Credit → Kind → ℕ → Option Result → Tx (Result × Bool)
unfolding batch_if_covered
batch_unless_seen id payer credits kind tick (some r) = answered r
batch_unless_seen id payer credits kind tick none = do
  _ ← ensure_account payer
  payer_balance ← lock_account payer
  batch_if_covered id payer credits (total_from 0 credits) kind tick payer_balance

unfoldable pub batch_transfer_body : Bytes → Bytes → List Credit → Kind → ℕ → Tx (Result × Bool)
unfolding batch_unless_seen
batch_transfer_body id payer credits kind tick = do
  _ ← begin
  seen ← lookup_idempotent payer (bytes "batch") tick kind
  batch_unless_seen id payer credits kind tick seen

-- `Post`. The journal's primary key is a serial number, so ON CONFLICT never drops a row, and the
-- branch for no rows affected is never taken.
unfoldable pub post_body : Bytes → Bytes → Bytes → ℕ → Kind → ℕ → Tx ((Unit {0}) × Bool)
unfolding lock_all
post_body id payer payee amount kind tick = do
  _ ← begin
  _ ← lock_all (lock_order payer payee) []
  _ ← append_rows (two_entries id payer payee amount kind tick)
  _ ← subtract payer amount
  _ ← add payee amount
  pure (tt, true)

-- How a commit ends: it is made and reported, it is refused, or it is made and the answer is lost.
pub data Commit : Type 0 where
  made refused unheard : Commit

-- `tx.Commit`, or else the deferred `tx.Rollback`; `none` is an error.
unfoldable pub finish :
    {A : Type 0} → Commit → Tables → Option ((A × Bool) × Session) → Tables × Option A
finish commit before none = (before, none)
finish commit before (some ((a, false), (_, t))) = (before, some a)
finish made before (some ((a, true), (_, t))) = (t, some a)
finish refused before (some ((a, true), (_, t))) = (before, none)
finish unheard before (some ((a, true), (_, t))) = (t, none)

unfoldable pub transact :
    {A : Type 0} → Tx (A × Bool) → List Bool → Commit → Tables → Tables × Option A
unfolding finish
transact body faults commit t = finish commit t (body (faults, t))

-- A statement outside a transaction commits by itself.
unfoldable pub auto_commit : {A : Type 0} → Tables → Option (A × Session) → Tables × Option A
auto_commit before none = (before, none)
auto_commit before (some (a, (_, t))) = (t, some a)

unfoldable pub open_account : Bytes → List Bool → Tables → Tables × Option ℕ
unfolding auto_commit
open_account account faults t = auto_commit t (
    exec
      (λ before.
        let b = or_insert account (lookup account before.accounts) before.accounts in
        some (balance_of account b, record before { accounts = b }))
      (faults, t))

-- No row reads as zero.
unfoldable pub get_balance : Bytes → List Bool → Tables → Tables × Option ℕ
unfolding auto_commit
get_balance account faults t =
    auto_commit t (exec (λ before. some (balance_of account before.accounts, before)) (faults, t))
