-- ===== src/Postgres/Mirror/Calls.antt =====
-- The transactions of services/bank/internal/ledger/postgres.go beside the methods of memory.go,
-- where no statement fails by a fault.
use pipsim.Common.{
  ℕ, ◌≡◌, ◌≢◌, ◌⊎◌, ◌<◌, refl, ◌∙◌, sym, Bool, true, false, Option, none, some, List, [], ◌∷◌, inl,
  inr, arith, Bool-cases,
}
use pipsim.Common.Tests.{==_iff}
use pipsim.Common.Words.{sub64, word_size}
use pipsim.Common.Strings.{Bytes, Bytes-Eq}
use pipsim.Common.Assoc.{lookup, insert}
use pipsim.Ledger
use pipsim.Ledger.{
  Balances, Credit, Memory, Kind, Result, JournalEntry, balance_of, debit, credit, credit_all,
  cannot_cover, insufficient_funds, accepted, total_from, idempotency_key, commit_transfer,
  commit_batch,
}
use pipsim.Ledger.Balance.{balance_of-debit, balance_of-credit}
use pipsim.Ledger.Idempotency.{transfer_answered}
use pipsim.Ledger.Keys.{IsPlain}
use pipsim.Postgres.Statements.{Tables, IdempotencyRow}
use pipsim.Postgres.Calls.{pay, pay_if_covered, transfer_unless_seen, transfer_body}
use pipsim.Postgres.Mirror.Whole.{Whole, and_then-Whole, weaken-Whole}
use pipsim.Postgres.Mirror.Rows.{SameBalances, Shows, begin-Shows, lookup_idempotent-Shows}
use pipsim.Postgres.Mirror.Bodies.{Overflows, lock_both-Shows, pay-Shows, Moved}
use pipsim.Postgres.Mirror.Answered.{SameAnswers, insert-SameAnswers}

-- The tables hold what the memory holds: the same balances, with no row for zero, the same journal
-- and the same answers on record.
abbrev pub Mirrors : Memory → Tables → Type 0
Mirrors m t =
    SameBalances t.accounts m.balances
    × (t.journal ≡ m.journal)
    × SameAnswers t.idempotency m.idempotent

-- The body of a transaction gives the answer of the method, and either leaves what it did to the
-- rollback, where the method changed nothing, or asks for a commit of what the method did.
abbrev pub Follows : {A : Type 0} → Memory → Memory × A → A × Bool → Tables → Type 0
Follows m (m', answer) reply t =
    ((reply ≡ (answer, false)) × (m' ≡ m)) ⊎ ((reply ≡ (answer, true)) × Mirrors m' t)

transfer_refused :
    (id p q : Bytes) (x : ℕ) (k : Kind) (t : ℕ) (m : Memory)
    → lookup (idempotency_key p q t k) m.idempotent ≡ none
    → cannot_cover p (balance_of p m.balances) x ≡ true
    → Ledger.transfer id p q x k t m ≡ (m, insufficient_funds (balance_of p m.balances))
unfolding Ledger.transfer
transfer_refused id p q x k t m fresh poor = rw (fresh, Ledger.transfer) (rw poor refl)

transfer_commits :
    (id p q : Bytes) (x : ℕ) (k : Kind) (t : ℕ) (m : Memory)
    → lookup (idempotency_key p q t k) m.idempotent ≡ none
    → cannot_cover p (balance_of p m.balances) x ≡ false
    → Ledger.transfer id p q x k t m ≡ commit_transfer id p q x k t (idempotency_key p q t k) m
unfolding Ledger.transfer
transfer_commits id p q x k t m fresh rich = rw (fresh, Ledger.transfer) (rw rich refl)

payer_after :
    (p q : Bytes) (x : ℕ) (b : Balances)
    → p ≢ q
    → balance_of p (credit q x (debit p x b)) ≡ sub64 (balance_of p b) x
payer_after p q x b ne =
    ground (
      arith,
      balance_of-credit q p x (debit p x b),
      balance_of-debit p p x b,
      ==_iff q p,
      ==_iff p p,
    )

module _ (Reason : Type 0) (id p q : Bytes) (x : ℕ) (k : Kind) (t : ℕ) (m : Memory)
    (fails : Overflows p q x t m.balances → Reason) (plain_payer : IsPlain p)
    (plain_payee : IsPlain q) (small : t < word_size) (ne : p ≢ q) (rows : List IdempotencyRow)
    (same : SameAnswers rows m.idempotent) where
  Moved-Follows :
      (reply : Result × Bool) (tables : Tables)
      → Moved Reason m.balances m.journal rows id p q x k t fails reply tables
      → Follows m (commit_transfer id p q x k t (idempotency_key p q t k) m) reply tables
  unfolding commit_transfer
  Moved-Follows reply tables (e, shown) =
      let r : Result = accepted (sub64 (balance_of p m.balances) x) in
      let answers : SameAnswers tables.idempotency
          (insert (idempotency_key p q t k) r m.idempotent) =
        rw shown.2
          (insert-SameAnswers p q t k r rows m.idempotent plain_payer plain_payee small same) in
      rw (payer_after p q x m.balances ne) (inr (e, (shown.0, shown.1, answers)))

  pay_if_covered-Follows :
      (held : ℕ)
      → held ≡ balance_of p m.balances
      → lookup (idempotency_key p q t k) m.idempotent ≡ none
      → Whole Reason
          (Shows m.balances m.journal rows (p ∷ q ∷ []))
          (pay_if_covered id p q x k t held)
          (Follows m (Ledger.transfer id p q x k t m))
  unfolding pay_if_covered commit_transfer
  pay_if_covered-Follows held right fresh =
      elim (Bool-cases (cannot_cover p (balance_of p m.balances) x)) [
        | inl poor ↦
            let refused : Ledger.transfer id p q x k t m
                ≡ (m, insufficient_funds (balance_of p m.balances)) =
              transfer_refused id p q x k t m fresh poor in
            rw (right, poor, refused) (λ tables h. (refl, inl (refl, refl)))
        | inr rich ↦
            rw (right, rich, transfer_commits id p q x k t m fresh rich)
              (weaken-Whole Reason (Shows m.balances m.journal rows (p ∷ q ∷ []))
                (Moved Reason m.balances m.journal rows id p q x k t fails)
                (Follows m (commit_transfer id p q x k t (idempotency_key p q t k) m))
                (pay id p q x k t (balance_of p m.balances))
                (λ reply tables g. Moved-Follows reply tables g)
                (pay-Shows Reason m.balances m.journal rows id p q x k t fails _ refl
                  (same p q t k plain_payer plain_payee small ∙ fresh)))
      ]

  transfer_unless_seen-Follows :
      (seen : Option Result)
      → seen ≡ lookup (idempotency_key p q t k) m.idempotent
      → Whole Reason
          (Shows m.balances m.journal rows [])
          (transfer_unless_seen id p q x k t seen)
          (Follows m (Ledger.transfer id p q x k t m))
  unfolding transfer_unless_seen
  transfer_unless_seen-Follows none e =
      and_then-Whole Reason _ _ _ _ _ (lock_both-Shows Reason m.balances m.journal rows p q)
        (λ held tables h. pay_if_covered-Follows (balance_of p held) h.0 (sym e) tables h.1)
  transfer_unless_seen-Follows (some r) e =
      rw (transfer_answered id p q x k t r m (sym e)) (λ tables h. (refl, inl (refl, refl)))

  pub transfer_body-Follows :
      Whole Reason
        (Shows m.balances m.journal rows [])
        (transfer_body id p q x k t)
        (Follows m (Ledger.transfer id p q x k t m))
  unfolding transfer_body
  transfer_body-Follows =
      and_then-Whole Reason _ _ _ _ _ (begin-Shows Reason m.balances m.journal rows []) (λ _.
        and_then-Whole Reason _ _ _ _ _
          (lookup_idempotent-Shows Reason m.balances m.journal rows [] p q t k
            (λ e. fails (inr (inr e))))
          (λ seen tables h.
            transfer_unless_seen-Follows seen (h.0 ∙ same p q t k plain_payer plain_payee small)
              tables h.1))
