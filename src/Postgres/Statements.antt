-- ===== src/Postgres/Statements.antt =====
-- The ledger over Postgres, services/bank/internal/ledger/postgres.go. The tables are the state,
-- each SQL statement is a step on them, and a transaction is a sequence of statements. A list of
-- faults says which of its statements fail, whatever the cause; a statement past the list does
-- not. Row locks make transactions that touch the same accounts wait, so they run one by one here.
-- A statement with a tick that does not fit a BIGINT fails.
use pipsim.Common.{
  ℕ, Bool, true, false, not, ◌&&◌, Option, none, some, List, [], ◌∷◌, ◌++◌, if◌then◌else◌, nat_eq,
  ltb,
}
use pipsim.Common.Tests.{◌==◌}
use pipsim.Common.Words.{add64, sub64, lt64, sign_bit}
use pipsim.Common.Strings.{Bytes, Bytes-Eq}
use pipsim.Common.Assoc.{lookup, insert}
use pipsim.Ledger.{Balances, Kind, Result, JournalEntry}

-- A row of bank.idempotency, whose primary key is its first four columns.
pub record IdempotencyRow : Type 0 where
  pub payer : Bytes
  pub payee : Bytes
  pub tick : ℕ
  pub kind : Kind
  pub result : Result

-- bank.accounts, bank.journal and bank.idempotency.
pub record Tables : Type 0 where
  pub accounts : Balances
  pub journal : List JournalEntry
  pub idempotency : List IdempotencyRow

-- What is left of the faults, and the tables as the transaction sees them.
abbrev pub Session : Type 0
Session = List Bool × Tables

-- Statements of one transaction; `none` is an error.
abbrev pub Tx : Type 0 → Type 0
Tx A = Session → Option (A × Session)

abbrev pub pure : {A : Type 0} → A → Tx A
pure a s = some (a, s)

unfoldable pub resume : {A B : Type 0} → Option (A × Session) → (A → Tx B) → Option (B × Session)
resume none k = none
resume (some (a, s)) k = k a s

unfoldable pub and_then : {A B : Type 0} → Tx A → (A → Tx B) → Tx B
unfolding resume
and_then m k s = resume (m s) k

infixl 5 ◌>>=◌
abbrev pub ◌>>=◌ : {A B : Type 0} → Tx A → (A → Tx B) → Tx B
m >>= k = and_then m k

-- A uint64 that is bound to a BIGINT has to fit it.
abbrev pub fits : ℕ → Bool
fits tick = ltb tick sign_bit

abbrev pub if_fits : {A : Type 0} → Bool → Option A → Option A
if_fits true r = r
if_fits false r = none

-- One statement.
unfoldable pub done : {A : Type 0} → List Bool → Option (A × Tables) → Option (A × Session)
done faults none = none
done faults (some (a, t)) = some (a, (faults, t))

unfoldable pub exec : {A : Type 0} → (Tables → Option (A × Tables)) → Tx A
unfolding done
exec statement ([], t) = done [] (statement t)
exec statement (true ∷ faults, t) = none
exec statement (false ∷ faults, t) = done faults (statement t)

-- A BIGINT below zero, and the ranges of `balance - $1` and `balance + $1`.
abbrev is_negative : ℕ → Bool
is_negative x = lt64 x 0

abbrev same_sign : ℕ → ℕ → Bool
same_sign x y = if is_negative x then is_negative y else not (is_negative y)

unfoldable pub checked_add : ℕ → ℕ → Option ℕ
checked_add x y = if same_sign x y && not (same_sign x (add64 x y)) then none else some (add64 x y)

unfoldable pub checked_sub : ℕ → ℕ → Option ℕ
checked_sub x y =
    if not (same_sign x y) && not (same_sign x (sub64 x y)) then none else some (sub64 x y)

-- `UPDATE … SET balance = … WHERE id = …`: a value out of range is an error, and no row is no change.
unfoldable pub set_balance : Bytes → Option ℕ → Tables → Option ((Unit {0}) × Tables)
set_balance account none t = none
set_balance account (some balance) t =
    some (tt, record t { accounts = insert account balance t.accounts })

unfoldable pub update_balance :
    Bytes → (ℕ → Option ℕ) → Option ℕ → Tables → Option ((Unit {0}) × Tables)
unfolding set_balance
update_balance account change none t = some (tt, t)
update_balance account change (some balance) t = set_balance account (change balance) t

unfoldable pub subtract : Bytes → ℕ → Tx (Unit {0})
unfolding exec update_balance checked_sub
subtract account amount =
    exec (λ t. update_balance account (λ b. checked_sub b amount) (lookup account t.accounts) t)

unfoldable pub add : Bytes → ℕ → Tx (Unit {0})
unfolding exec update_balance checked_add
add account amount =
    exec (λ t. update_balance account (λ b. checked_add b amount) (lookup account t.accounts) t)

abbrev pub or_insert : Bytes → Option ℕ → Balances → Balances
or_insert account none b = insert account 0 b
or_insert account (some _) b = b

-- `INSERT … ON CONFLICT DO NOTHING`
unfoldable pub ensure_account : Bytes → Tx (Unit {0})
ensure_account account = exec (λ t.
    some (tt, record t { accounts = or_insert account (lookup account t.accounts) t.accounts }))

-- `SELECT … FOR UPDATE`: no row is an error.
abbrev pub found : Option ℕ → Tables → Option (ℕ × Tables)
found none t = none
found (some balance) t = some (balance, t)

unfoldable pub lock_account : Bytes → Tx ℕ
lock_account account = exec (λ t. found (lookup account t.accounts) t)

unfoldable pub find_row : Bytes → Bytes → ℕ → Kind → List IdempotencyRow → Option Result
find_row payer payee tick kind [] = none
find_row payer payee tick kind (row ∷ rows) =
    let later = find_row payer payee tick kind rows in
    if (row.payer == payer) && (row.payee == payee) && nat_eq row.tick tick && (row.kind == kind)
    then some row.result
    else later

unfoldable pub lookup_idempotent : Bytes → Bytes → ℕ → Kind → Tx (Option Result)
lookup_idempotent payer payee tick kind =
    exec (λ t. if_fits (fits tick) (some (find_row payer payee tick kind t.idempotency, t)))

-- A row with the key is a violation of the primary key.
abbrev pub add_row : IdempotencyRow → Option Result → Tables → Option ((Unit {0}) × Tables)
add_row row (some _) t = none
add_row row none t = some (tt, record t { idempotency = row ∷ t.idempotency })

unfoldable pub record_idempotent : Bytes → Bytes → ℕ → Kind → Result → Tx (Unit {0})
record_idempotent payer payee tick kind result = exec (λ t. if_fits (fits tick) (
    add_row (record { payer = payer; payee = payee; tick = tick; kind = kind; result = result })
      (find_row payer payee tick kind t.idempotency) t))

abbrev pub fits_all : List JournalEntry → Bool
fits_all [] = true
fits_all (row ∷ rows) = fits row.tick && fits_all rows

-- `INSERT INTO bank.journal`
unfoldable pub append_rows : List JournalEntry → Tx (Unit {0})
append_rows rows =
    exec (λ t. if_fits (fits_all rows) (some (tt, record t { journal = t.journal ++ rows })))

unfoldable pub begin : Tx (Unit {0})
begin = exec (λ t. some (tt, t))

-- Byte order, as `sort.Strings` compares.
unfoldable pub is_before : Bytes → Bytes → Bool
is_before [] b = true
is_before (x ∷ a) [] = false
is_before (x ∷ a) (y ∷ b) =
    let rest = is_before a b in if ltb x y then true else if nat_eq x y then rest else false

unfoldable pub lock_order : Bytes → Bytes → List Bytes
lock_order a b = if a == b then a ∷ [] else if is_before a b then a ∷ b ∷ [] else b ∷ a ∷ []

-- The loop over the accounts in that order, with the balances that it has read.
unfoldable pub lock_all : List Bytes → Balances → Tx Balances
lock_all [] balances = pure balances
lock_all (account ∷ rest) balances = do
  _ ← ensure_account account
  balance ← lock_account account
  lock_all rest (insert account balance balances)
