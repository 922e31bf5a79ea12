-- ===== src/Ledger/Journal.antt =====
-- The journal of services/bank/internal/ledger/memory.go and the balances.
use pipsim.Common.{
  ℕ, ◌<◌, ◌≡◌, refl, List, [], ◌∷◌, ◌++◌, arith, ap, inl, inr, Option-cases, if◌then◌else◌,
}
use pipsim.Common.Tests.{◌==◌, ==_iff}
use pipsim.Common.Words.{add64, neg64, word_size}
use pipsim.Common.Strings.{Bytes, Bytes-Eq}
use pipsim.Ledger.{
  Balances, Kind, Result, Credit, Memory, JournalEntry, new_memory, balance_of, debit, credit,
  credit_all, credit_entries, total_from, transfer, two_entries, entry, batch_transfer, post,
  commit_transfer, commit_batch, open_account, get_balance,
}
use pipsim.Common.Assoc.{lookup}
use mathlib.Core.List.{append-nil, append_assoc}
use pipsim.Ledger.Balance.{balance_of-debit, balance_of-credit}
use pipsim.Ledger.Cases.{transfer_cases, batch_transfer_cases}
use pipsim.Ledger.History.{Call, after, run}

-- The fold over the journal that gives one account's balance.
unfoldable pub account_sum : Bytes → List JournalEntry → ℕ
account_sum a [] = 0
account_sum a (e ∷ j) =
    let rest = account_sum a j in if e.account == a then add64 e.amount rest else rest

-- The sum over all rows.
unfoldable pub journal_sum : List JournalEntry → ℕ
journal_sum [] = 0
journal_sum (e ∷ j) = add64 e.amount (journal_sum j)

account_sum-lt : (a : Bytes) (j : List JournalEntry) → account_sum a j < word_size
unfolding account_sum
account_sum-lt a [] = omega arith
account_sum-lt a (e ∷ j) = ground (arith, account_sum-lt a j)

account_sum-append :
    (a : Bytes) (i j : List JournalEntry)
    → account_sum a (i ++ j) ≡ add64 (account_sum a i) (account_sum a j)
unfolding account_sum
account_sum-append a [] j = omega (arith, account_sum-lt a j)
account_sum-append a (e ∷ i) j = ground (arith, account_sum-append a i j)

journal_sum-append :
    (i j : List JournalEntry) → journal_sum (i ++ j) ≡ add64 (journal_sum i) (journal_sum j)
unfolding journal_sum
journal_sum-append [] [] = omega arith
journal_sum-append [] (e ∷ j) = omega arith
journal_sum-append (e ∷ i) j = omega (arith, journal_sum-append i j)

-- The ledger's balance of `a` is what the journal says it is.
abbrev pub IsExplained : Bytes → Memory → Type 0
IsExplained a m = balance_of a m.balances ≡ account_sum a m.journal

-- A batch moves each account by the rows that it writes for it.
balance_of-credit_all :
    (a id : Bytes) (kind : Kind) (tick : ℕ) (cs : List Credit) (b : Balances)
    → balance_of a b < word_size
    → balance_of a (credit_all cs b)
      ≡ add64 (balance_of a b) (account_sum a (credit_entries id kind tick cs))
unfolding credit_all credit_entries account_sum
balance_of-credit_all a id kind tick [] b h = omega arith
balance_of-credit_all a id kind tick (c ∷ cs) b h = ground (
  arith,
  ==_iff c.payee a,
  balance_of-credit c.payee a c.amount b,
  balance_of-credit_all a id kind tick cs (credit c.payee c.amount b),
)

account_sum-two :
    (a id p q : Bytes) (x : ℕ) (kind : Kind) (tick : ℕ) (b : Balances)
    → balance_of a b < word_size
    → balance_of a (credit q x (debit p x b))
      ≡ add64 (balance_of a b) (account_sum a (two_entries id p q x kind tick))
unfolding account_sum
account_sum-two a id p q x kind tick b h = ground (
  arith,
  ==_iff p a,
  ==_iff q a,
  ==_iff p q,
  balance_of-debit p a x b,
  balance_of-debit p q x b,
  balance_of-credit q a x (debit p x b),
)

transfer-IsExplained :
    (a id payer payee : Bytes) (x : ℕ) (kind : Kind) (tick : ℕ) (m : Memory)
    → IsExplained a m
    → IsExplained a (transfer id payer payee x kind tick m).0
unfolding transfer commit_transfer
transfer-IsExplained a id p q x kind tick m h = ground (
  arith,
  account_sum-lt a m.journal,
  account_sum-two a id p q x kind tick m.balances,
  account_sum-append a m.journal (two_entries id p q x kind tick),
)

post-IsExplained :
    (a id payer payee : Bytes) (x : ℕ) (kind : Kind) (tick : ℕ) (m : Memory)
    → IsExplained a m
    → IsExplained a (post id payer payee x kind tick m)
unfolding post
post-IsExplained a id p q x kind tick m h = ground (
  arith,
  account_sum-lt a m.journal,
  account_sum-two a id p q x kind tick m.balances,
  account_sum-append a m.journal (two_entries id p q x kind tick),
)

batch_transfer-IsExplained :
    (a id payer : Bytes) (cs : List Credit) (kind : Kind) (tick : ℕ) (m : Memory)
    → IsExplained a m
    → IsExplained a (batch_transfer id payer cs kind tick m).0
unfolding batch_transfer commit_batch account_sum
batch_transfer-IsExplained a id p cs kind tick m h =
    let total = total_from 0 cs in
    let row = entry id p (neg64 total) kind tick in
    ground (
      arith,
      ==_iff p a,
      account_sum-lt a m.journal,
      balance_of-debit p a total m.balances,
      balance_of-credit_all a id kind tick cs (debit p total m.balances),
      account_sum-append a m.journal (row ∷ []),
      account_sum-append a (m.journal ++ row ∷ []) (credit_entries id kind tick cs),
    )

after-IsExplained :
    (a : Bytes) (c : Call) (m : Memory) → IsExplained a m → IsExplained a (after c m)
unfolding after open_account get_balance
after-IsExplained a (Call.open_account _) m h = h
after-IsExplained a (Call.get_balance _) m h = h
after-IsExplained a (Call.transfer id p q x k t) m h = transfer-IsExplained a id p q x k t m h
after-IsExplained a (Call.batch_transfer id p cs k t) m h =
    batch_transfer-IsExplained a id p cs k t m h
after-IsExplained a (Call.post id p q x k t) m h = post-IsExplained a id p q x k t m h

run-IsExplained :
    (a : Bytes) (cs : List Call) (m : Memory) → IsExplained a m → IsExplained a (run cs m)
unfolding run
run-IsExplained a [] m h = h
run-IsExplained a (c ∷ cs) m h = run-IsExplained a cs (after c m) (after-IsExplained a c m h)

-- After any history of a new ledger, every account's balance is the sum of its journal rows.
pub balance_of-journal :
    (a : Bytes) (cs : List Call)
    → balance_of a (run cs new_memory).balances ≡ account_sum a (run cs new_memory).journal
unfolding account_sum lookup
balance_of-journal a cs = run-IsExplained a cs new_memory refl

journal_sum-two :
    (id p q : Bytes) (x : ℕ) (kind : Kind) (tick : ℕ)
    → journal_sum (two_entries id p q x kind tick) ≡ 0
unfolding journal_sum
journal_sum-two id p q x kind tick = omega arith

journal_sum-credit_entries :
    (id : Bytes) (kind : Kind) (tick t : ℕ) (cs : List Credit)
    → t < word_size
    → add64 t (journal_sum (credit_entries id kind tick cs)) ≡ total_from t cs
unfolding journal_sum credit_entries total_from
journal_sum-credit_entries id kind tick t [] h = omega arith
journal_sum-credit_entries id kind tick t (c ∷ cs) h =
    omega (arith, journal_sum-credit_entries id kind tick (add64 t c.amount) cs (omega arith))

abbrev Grows : Memory → Memory → Type 0
Grows m m' = (rows : List JournalEntry) × (m'.journal ≡ m.journal ++ rows) × (journal_sum rows ≡ 0)

Grows-refl : (m m' : Memory) → m' ≡ m → Grows m m'
unfolding journal_sum
Grows-refl m m' e = ([], rw (e, append-nil), refl)

transfer-Grows :
    (id p q : Bytes) (x : ℕ) (kind : Kind) (tick : ℕ) (m : Memory)
    → Grows m (transfer id p q x kind tick m).0
unfolding commit_transfer
transfer-Grows id p q x kind tick m = elim (transfer_cases id p q x kind tick m) [
  | inl e ↦ Grows-refl m _ (ap (λ (r : Memory × Result). r.0) e)
  | inr e ↦ rw e (two_entries id p q x kind tick, refl, journal_sum-two id p q x kind tick)
]

post-Grows :
    (id p q : Bytes) (x : ℕ) (kind : Kind) (tick : ℕ) (m : Memory)
    → Grows m (post id p q x kind tick m)
unfolding post
post-Grows id p q x kind tick m = elim (Option-cases (lookup id m.posted)) [
  | inl e ↦ rw (e, post) (two_entries id p q x kind tick, refl, journal_sum-two id p q x kind tick)
  | inr (u, e) ↦ Grows-refl m (post id p q x kind tick m) (rw (e, post))
]

batch_transfer-Grows :
    (id p : Bytes) (cs : List Credit) (kind : Kind) (tick : ℕ) (m : Memory)
    → Grows m (batch_transfer id p cs kind tick m).0
unfolding commit_batch journal_sum
batch_transfer-Grows id p cs kind tick m = elim (batch_transfer_cases id p cs kind tick m) [
  | inl e ↦ Grows-refl m _ (ap (λ (r : Memory × Result). r.0) e)
  | inr e ↦ rw e (
    entry id p (neg64 (total_from 0 cs)) kind tick ∷ credit_entries id kind tick cs,
    append_assoc m.journal _ _,
    omega (arith, journal_sum-credit_entries id kind tick 0 cs (omega arith)),
  )
]

-- Every call appends rows to the journal, none is taken away or changed, and the rows that it
-- adds sum to zero: a movement is a debit and its credits, never a creation.
pub journal_grows_balanced :
    (c : Call) (m : Memory)
    → (rows : List JournalEntry) × ((after c m).journal ≡ m.journal ++ rows)
      × (journal_sum rows ≡ 0)
unfolding after open_account get_balance
journal_grows_balanced (Call.open_account _) m = Grows-refl m m refl
journal_grows_balanced (Call.get_balance _) m = Grows-refl m m refl
journal_grows_balanced (Call.transfer id p q x k t) m = transfer-Grows id p q x k t m
journal_grows_balanced (Call.batch_transfer id p cs k t) m = batch_transfer-Grows id p cs k t m
journal_grows_balanced (Call.post id p q x k t) m = post-Grows id p q x k t m
