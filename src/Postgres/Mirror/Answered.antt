-- ===== src/Postgres/Mirror/Answered.antt =====
-- The answers on record: the rows of bank.idempotency beside the map of memory.go.
use pipsim.Common.{ℕ, ◌≡◌, ◌<◌, List, ◌∷◌, arith, inl, inr, Bool-cases}
use pipsim.Common.Tests.{◌==◌, ==_iff}
use pipsim.Common.Words.{word_size}
use pipsim.Common.Strings.{Bytes, Bytes-Eq}
use pipsim.Common.Assoc.{Assoc, lookup, insert, lookup-insert}
use pipsim.Ledger.{Kind, Result, idempotency_key}
use pipsim.Ledger.Keys.{IsPlain, idempotency_key-injective}
use pipsim.Postgres.Statements.{IdempotencyRow, find_row}

-- Both hold the same answer for every payer, payee, tick and kind, where no name holds a `|`.
abbrev pub SameAnswers : List IdempotencyRow → Assoc Bytes Result → Type 0
SameAnswers rows answers =
    (p q : Bytes) (t : ℕ) (k : Kind)
    → IsPlain p
    → IsPlain q
    → t < word_size
    → find_row p q t k rows ≡ lookup (idempotency_key p q t k) answers

idempotency_key_agrees :
    (p p' q q' : Bytes) (t t' : ℕ) (k k' : Kind)
    → p ≡ p'
    → q ≡ q'
    → t ≡ t'
    → k ≡ k'
    → idempotency_key p q t k ≡ idempotency_key p' q' t' k'
idempotency_key_agrees p p' q q' t t' k k' ep eq et ek = cc

-- The same answer for one more transfer.
pub insert-SameAnswers :
    (p q : Bytes) (t : ℕ) (k : Kind) (r : Result) (rows : List IdempotencyRow)
    (answers : Assoc Bytes Result)
    → IsPlain p
    → IsPlain q
    → t < word_size
    → SameAnswers rows answers
    → SameAnswers
        (record { payer = p; payee = q; tick = t; kind = k; result = r } ∷ rows)
        (insert (idempotency_key p q t k) r answers)
unfolding find_row
insert-SameAnswers p q t k r rows answers hp hq ht h p' q' t' k' hp' hq' ht' =
    elim (Bool-cases (idempotency_key p q t k == idempotency_key p' q' t' k')) [
      | inl e ↦
          let same : (p ≡ p') × (q ≡ q') × (t ≡ t') × (k ≡ k') =
            idempotency_key-injective p p' q q' t t' k k' hp hp' hq hq' ht ht' ((==_iff _ _).0 e) in
          ground (
            arith,
            ==_iff p p',
            ==_iff q q',
            ==_iff k k',
            same.0,
            same.1,
            same.2,
            same.3,
            lookup-insert (idempotency_key p q t k) (idempotency_key p' q' t' k') r answers,
          )
      | inr e ↦ ground (
        arith,
        ==_iff p p',
        ==_iff q q',
        ==_iff k k',
        ==_iff (idempotency_key p q t k) (idempotency_key p' q' t' k'),
        idempotency_key_agrees p p' q q' t t' k k',
        h p' q' t' k' hp' hq' ht',
        lookup-insert (idempotency_key p q t k) (idempotency_key p' q' t' k') r answers,
      )
    ]
