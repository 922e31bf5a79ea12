-- ===== src/Postgres/Mirror/Credits.antt =====
-- `BatchTransfer` and `Post` of services/bank/internal/ledger/postgres.go beside those of memory.go,
-- where no statement fails by a fault.
use pipsim.Common.{
  ℕ, ◌≡◌, ◌≢◌, ◌<◌, refl, ◌∙◌, sym, Bool, true, false, Option, none, some, List, [], ◌∷◌, inl, inr,
  arith, Bool-cases, All,
}
use pipsim.Common.Tests.{==_iff}
use pipsim.Common.Words.{sub64, word_size}
use pipsim.Common.Strings.{Bytes, Bytes-Eq, bytes}
use pipsim.Common.Assoc.{lookup, insert}
use pipsim.Ledger
use pipsim.Ledger.{
  Balances, Credit, Memory, Kind, Result, balance_of, debit, credit, credit_all, cannot_cover,
  insufficient_funds, accepted, total_from, idempotency_key, commit_batch,
}
use pipsim.Ledger.Balance.{balance_of-debit, balance_of-credit}
use pipsim.Ledger.Idempotency.{batch_transfer_answered}
use pipsim.Ledger.Keys.{IsPlain}
use pipsim.Postgres.Statements.{Tables, IdempotencyRow}
use pipsim.Postgres.Calls.{
  post_body, pay_batch, batch_if_covered, batch_unless_seen, batch_transfer_body,
}
use pipsim.Postgres.Mirror.Whole.{Whole, and_then-Whole, weaken-Whole}
use pipsim.Postgres.Mirror.Rows.{
  Shows, ensure_account-Shows, lock_account-Shows, begin-Shows, lookup_idempotent-Shows,
}
use pipsim.Postgres.Mirror.Bodies.{Overflows, post_body-Shows}
use pipsim.Postgres.Mirror.Batches.{BatchOverflows, pay_batch-Shows, BatchMoved}
use pipsim.Postgres.Mirror.Answered.{SameAnswers, insert-SameAnswers}
use pipsim.Postgres.Mirror.Calls.{Follows}

batch_refused :
    (id p : Bytes) (cs : List Credit) (k : Kind) (t : ℕ) (m : Memory)
    → lookup (idempotency_key p (bytes "batch") t k) m.idempotent ≡ none
    → cannot_cover p (balance_of p m.balances) (total_from 0 cs) ≡ true
    → Ledger.batch_transfer id p cs k t m ≡ (m, insufficient_funds (balance_of p m.balances))
unfolding Ledger.batch_transfer
batch_refused id p cs k t m fresh poor = rw (fresh, Ledger.batch_transfer) (rw poor refl)

batch_commits :
    (id p : Bytes) (cs : List Credit) (k : Kind) (t : ℕ) (m : Memory)
    → lookup (idempotency_key p (bytes "batch") t k) m.idempotent ≡ none
    → cannot_cover p (balance_of p m.balances) (total_from 0 cs) ≡ false
    → Ledger.batch_transfer id p cs k t m
      ≡ commit_batch id p cs (total_from 0 cs) k t (idempotency_key p (bytes "batch") t k) m
unfolding Ledger.batch_transfer
batch_commits id p cs k t m fresh rich = rw (fresh, Ledger.batch_transfer) (rw rich refl)

-- The payer is none of those that the credits go to.
abbrev pub PaysOthers : Bytes → List Credit → Type 0
PaysOthers p = All (λ (c : Credit). p ≢ c.payee)

balance_of-credit_all :
    (p : Bytes) (cs : List Credit) (b : Balances)
    → PaysOthers p cs
    → balance_of p (credit_all cs b) ≡ balance_of p b
unfolding credit_all
balance_of-credit_all p [] b h = refl
balance_of-credit_all p (c ∷ cs) b (ne, h) =
    balance_of-credit_all p cs (credit c.payee c.amount b) h
    ∙ ground (arith, balance_of-credit c.payee p c.amount b, ==_iff c.payee p)

payer_after_batch :
    (p : Bytes) (cs : List Credit) (x : ℕ) (b : Balances)
    → PaysOthers p cs
    → balance_of p (credit_all cs (debit p x b)) ≡ sub64 (balance_of p b) x
payer_after_batch p cs x b h =
    balance_of-credit_all p cs (debit p x b) h
    ∙ ground (arith, balance_of-debit p p x b, ==_iff p p)

batch-IsPlain : IsPlain (bytes "batch")
batch-IsPlain = (omega arith, (omega arith, (omega arith, (omega arith, (omega arith, tt)))))

module _ (Reason : Type 0) (id p : Bytes) (cs : List Credit) (k : Kind) (t : ℕ) (m : Memory)
    (fails : BatchOverflows p cs t m.balances → Reason) (plain_payer : IsPlain p)
    (small : t < word_size) (others : PaysOthers p cs) (rows : List IdempotencyRow)
    (same : SameAnswers rows m.idempotent) where
  abbrev batch_key : Bytes
  batch_key = idempotency_key p (bytes "batch") t k

  BatchMoved-Follows :
      (reply : Result × Bool) (tables : Tables)
      → BatchMoved Reason id k t rows p m.balances m.journal cs fails reply tables
      → Follows m (commit_batch id p cs (total_from 0 cs) k t batch_key m) reply tables
  unfolding commit_batch
  BatchMoved-Follows reply tables (e, shown) =
      let r : Result = accepted (sub64 (balance_of p m.balances) (total_from 0 cs)) in
      let answers : SameAnswers tables.idempotency (insert batch_key r m.idempotent) = rw shown.2 (
        insert-SameAnswers p (bytes "batch") t k r rows m.idempotent plain_payer batch-IsPlain small
          same) in
      rw (payer_after_batch p cs (total_from 0 cs) m.balances others)
        (inr (e, (shown.0, shown.1, answers)))

  batch_if_covered-Follows :
      (held : ℕ)
      → held ≡ balance_of p m.balances
      → lookup batch_key m.idempotent ≡ none
      → Whole Reason
          (Shows m.balances m.journal rows (p ∷ []))
          (batch_if_covered id p cs (total_from 0 cs) k t held)
          (Follows m (Ledger.batch_transfer id p cs k t m))
  unfolding batch_if_covered
  batch_if_covered-Follows held right fresh =
      elim (Bool-cases (cannot_cover p (balance_of p m.balances) (total_from 0 cs))) [
        | inl poor ↦
            rw (right, poor, batch_refused id p cs k t m fresh poor)
              (λ tables h. (refl, inl (refl, refl)))
        | inr rich ↦
            rw (right, rich, batch_commits id p cs k t m fresh rich)
              (weaken-Whole Reason (Shows m.balances m.journal rows (p ∷ []))
                (BatchMoved Reason id k t rows p m.balances m.journal cs fails)
                (Follows m (commit_batch id p cs (total_from 0 cs) k t batch_key m))
                (pay_batch id p cs (total_from 0 cs) k t (balance_of p m.balances))
                BatchMoved-Follows
                (pay_batch-Shows Reason id k t rows p m.balances m.journal cs fails _ refl
                  (same p (bytes "batch") t k plain_payer batch-IsPlain small ∙ fresh)))
      ]

  batch_unless_seen-Follows :
      (seen : Option Result)
      → seen ≡ lookup batch_key m.idempotent
      → Whole Reason
          (Shows m.balances m.journal rows [])
          (batch_unless_seen id p cs k t seen)
          (Follows m (Ledger.batch_transfer id p cs k t m))
  unfolding batch_unless_seen
  batch_unless_seen-Follows none e =
      and_then-Whole Reason _ _ _ _ _ (ensure_account-Shows Reason m.balances m.journal rows [] p)
        (λ _.
          and_then-Whole Reason _ _ _ _ _ (lock_account-Shows Reason m.balances m.journal rows [] p)
            (λ held tables h. batch_if_covered-Follows held h.0 (sym e) tables h.1))
  batch_unless_seen-Follows (some r) e =
      rw (batch_transfer_answered id p cs k t r m (sym e)) (λ tables h. (refl, inl (refl, refl)))

  pub batch_transfer_body-Follows :
      Whole Reason
        (Shows m.balances m.journal rows [])
        (batch_transfer_body id p cs k t)
        (Follows m (Ledger.batch_transfer id p cs k t m))
  unfolding batch_transfer_body
  batch_transfer_body-Follows =
      and_then-Whole Reason _ _ _ _ _ (begin-Shows Reason m.balances m.journal rows []) (λ _.
        and_then-Whole Reason _ _ _ _ _
          (lookup_idempotent-Shows Reason m.balances m.journal rows [] p (bytes "batch") t k
            (λ e. fails (inr (inr e))))
          (λ seen tables h.
            batch_unless_seen-Follows seen
              (h.0 ∙ same p (bytes "batch") t k plain_payer batch-IsPlain small) tables h.1))

-- A fact that was not booked before.
pub post_body-Follows :
    (Reason : Type 0) (id p q : Bytes) (x : ℕ) (k : Kind) (t : ℕ) (m : Memory)
    (rows : List IdempotencyRow)
    → (Overflows p q x t m.balances → Reason)
    → SameAnswers rows m.idempotent
    → lookup id m.posted ≡ none
    → Whole Reason
        (Shows m.balances m.journal rows [])
        (post_body id p q x k t)
        (Follows m (Ledger.post id p q x k t m, tt))
unfolding Ledger.post
post_body-Follows Reason id p q x k t m rows fails same fresh =
    weaken-Whole Reason (Shows m.balances m.journal rows []) _
      (Follows m (Ledger.post id p q x k t m, tt)) (post_body id p q x k t)
      (λ done tables h. rw (fresh, Ledger.post) (inr (h.0, (h.1.0, h.1.1, rw h.1.2 same))))
      (post_body-Shows Reason m.balances m.journal rows id p q x k t fails)
