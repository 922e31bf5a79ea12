-- ===== src/Postgres/Mirror/Implements.antt =====
-- The methods of services/bank/internal/ledger/postgres.go under faults, beside those of memory.go.
use pipsim.Common.{
  ℕ, ◌≡◌, ◌≢◌, ◌⊎◌, ◌<◌, refl, ◌∙◌, ap, Bool, true, false, Option, none, some, List, [], inl, inr,
}
use pipsim.Common.Words.{word_size}
use pipsim.Common.Strings.{Bytes, Bytes-Eq}
use pipsim.Common.Assoc.{lookup}
use pipsim.Ledger
use pipsim.Ledger.{Credit, Memory, Kind, Result}
use pipsim.Ledger.Keys.{IsPlain}
use pipsim.Postgres.Statements.{Tables, Session, Tx}
use pipsim.Postgres.Calls.{
  Commit, made, unheard, transact, finish, transfer_body, batch_transfer_body, post_body,
}
use pipsim.Postgres.Atomic.{IsAtomic, calls-AreAtomic}
use pipsim.Postgres.Mirror.Whole.{Finishes, Whole}
use pipsim.Postgres.Mirror.Rows.{Shows}
use pipsim.Postgres.Mirror.Bodies.{Overflows}
use pipsim.Postgres.Mirror.Batches.{BatchOverflows}
use pipsim.Postgres.Mirror.Calls.{Follows, Mirrors, transfer_body-Follows}
use pipsim.Postgres.Mirror.Credits.{PaysOthers, batch_transfer_body-Follows, post_body-Follows}

-- Without faults the call did what the method does and answers as it does, unless a balance would
-- leave its range.
abbrev pub Succeeds : {A : Type 0} → Type 0 → Memory × A → Tables × Option A → Type 0
Succeeds TooLarge (m', answer) (t', reply) = TooLarge ⊎ (Mirrors m' t' × (reply ≡ some answer))

-- With faults it either did nothing and reports an error, or did what the method does; then it
-- answers as the method, or with an error where the answer to the commit was lost.
abbrev pub Happens : {A : Type 0} → Memory → Memory × A → Commit → Tables × Option A → Type 0
Happens m (m', answer) commit (t', reply) =
    (Mirrors m t' × (reply ≡ none))
    ⊎ (Mirrors m' t' × ((reply ≡ some answer) ⊎ ((commit ≡ unheard) × (reply ≡ none))))

abbrev pub Implements :
    {A : Type 0}
    → Type 0
    → Memory
    → Memory × A
    → Tx (A × Bool)
    → List Bool
    → Commit
    → Tables
    → Type 0
Implements TooLarge m answer body faults commit t =
    Succeeds TooLarge answer (transact body [] made t)
    × Happens m answer commit (transact body faults commit t)

-- How a run without faults ends.
abbrev Ended : {A : Type 0} → Type 0 → Memory → Memory × A → Tables × Option A → Type 0
Ended TooLarge m (m', answer) (t', reply) =
    (TooLarge × Mirrors m t' × (reply ≡ none)) ⊎ (Mirrors m' t' × (reply ≡ some answer))

finish-Ended :
    {A : Type 0} (TooLarge : Type 0) (m : Memory) (answer : Memory × A) (t : Tables)
    (r : Option ((A × Bool) × Session))
    → Mirrors m t
    → Finishes TooLarge (Follows m answer) r
    → Ended TooLarge m answer (finish made t r)
unfolding finish
finish-Ended TooLarge m answer t none h e = inl (e, h, refl)
finish-Ended {A} TooLarge m answer t (some ((a, false), (faults, t'))) h (_, inl (e, same)) =
    inr (rw same h, ap (λ (reply : A × Bool). some reply.0) e)
finish-Ended TooLarge m answer t (some ((a, false), (faults, t'))) h (_, inr (e, moved)) = cc e
finish-Ended TooLarge m answer t (some ((a, true), (faults, t'))) h (_, inl (e, same)) = cc e
finish-Ended {A} TooLarge m answer t (some ((a, true), (faults, t'))) h (_, inr (e, moved)) =
    inr (moved, ap (λ (reply : A × Bool). some reply.0) e)

transact-Ended :
    {A : Type 0} (TooLarge : Type 0) (m : Memory) (answer : Memory × A) (body : Tx (A × Bool))
    (t : Tables)
    → Mirrors m t
    → Whole TooLarge (Shows m.balances m.journal t.idempotency []) body (Follows m answer)
    → Ended TooLarge m answer (transact body [] made t)
unfolding transact
transact-Ended TooLarge m answer body t h whole =
    finish-Ended TooLarge m answer t (body ([], t)) h (whole t (h.0, h.1, refl, tt))

Ended-Implements :
    {A : Type 0} (TooLarge : Type 0) (m : Memory) (answer : Memory × A) (body : Tx (A × Bool))
    (faults : List Bool) (commit : Commit) (t : Tables)
    → Mirrors m t
    → Ended TooLarge m answer (transact body [] made t)
    → IsAtomic body faults commit t
    → Implements TooLarge m answer body faults commit t
Ended-Implements TooLarge m answer body faults commit t h (inl (large, same, e))
      (inl (kept, lost)) =
    (inl large, inl (rw kept h, lost))
Ended-Implements TooLarge m answer body faults commit t h (inl (large, same, e))
      (inr (whole, inl reply)) =
    (inl large, inl (rw whole same, reply ∙ e))
Ended-Implements TooLarge m answer body faults commit t h (inl (large, same, e))
      (inr (whole, inr (c, lost))) =
    (inl large, inl (rw whole same, lost))
Ended-Implements TooLarge m answer body faults commit t h (inr (moved, e)) (inl (kept, lost)) =
    (inr (moved, e), inl (rw kept h, lost))
Ended-Implements TooLarge m answer body faults commit t h (inr (moved, e))
      (inr (whole, inl reply)) =
    (inr (moved, e), inr (rw whole moved, inl (reply ∙ e)))
Ended-Implements TooLarge m answer body faults commit t h (inr (moved, e))
      (inr (whole, inr (c, lost))) =
    (inr (moved, e), inr (rw whole moved, inr (c, lost)))

-- A transfer over tables that mirror the memory, between two different accounts whose names hold no
-- `|`: without faults it does what the method of memory.go does and answers the same, unless the
-- payer's or the payee's balance would leave its range, and whatever fails it does all of that or
-- nothing.
pub transfer-Implements :
    (id p q : Bytes) (x : ℕ) (k : Kind) (tick : ℕ) (faults : List Bool) (commit : Commit)
    (m : Memory) (t : Tables)
    → Mirrors m t
    → IsPlain p
    → IsPlain q
    → tick < word_size
    → p ≢ q
    → Implements
        (Overflows p q x tick m.balances)
        m
        (Ledger.transfer id p q x k tick m)
        (transfer_body id p q x k tick)
        faults
        commit
        t
transfer-Implements id p q x k tick faults commit m t h hp hq small ne =
    let TooLarge : Type 0 = Overflows p q x tick m.balances in
    Ended-Implements TooLarge m (Ledger.transfer id p q x k tick m) (transfer_body id p q x k tick)
      faults commit t h
      (transact-Ended TooLarge m (Ledger.transfer id p q x k tick m) (transfer_body id p q x k tick)
        t h
        (transfer_body-Follows TooLarge id p q x k tick m (λ e. e) hp hq small ne t.idempotency
          h.2))
      (calls-AreAtomic id p q x [] k tick faults commit t).0

-- The same for a batch from a payer that is not among its own payees.
pub batch_transfer-Implements :
    (id p : Bytes) (cs : List Credit) (k : Kind) (tick : ℕ) (faults : List Bool) (commit : Commit)
    (m : Memory) (t : Tables)
    → Mirrors m t
    → IsPlain p
    → tick < word_size
    → PaysOthers p cs
    → Implements
        (BatchOverflows p cs tick m.balances)
        m
        (Ledger.batch_transfer id p cs k tick m)
        (batch_transfer_body id p cs k tick)
        faults
        commit
        t
batch_transfer-Implements id p cs k tick faults commit m t h hp small others =
    let TooLarge : Type 0 = BatchOverflows p cs tick m.balances in
    Ended-Implements TooLarge m (Ledger.batch_transfer id p cs k tick m)
      (batch_transfer_body id p cs k tick) faults commit t h
      (transact-Ended TooLarge m (Ledger.batch_transfer id p cs k tick m)
        (batch_transfer_body id p cs k tick) t h
        (batch_transfer_body-Follows TooLarge id p cs k tick m (λ e. e) hp small others
          t.idempotency h.2))
      (calls-AreAtomic id p p 0 cs k tick faults commit t).1

-- The same for a settled movement that is not yet booked in memory.
pub post-Implements :
    (id p q : Bytes) (x : ℕ) (k : Kind) (tick : ℕ) (faults : List Bool) (commit : Commit)
    (m : Memory) (t : Tables)
    → Mirrors m t
    → lookup id m.posted ≡ none
    → Implements
        (Overflows p q x tick m.balances)
        m
        (Ledger.post id p q x k tick m, tt)
        (post_body id p q x k tick)
        faults
        commit
        t
post-Implements id p q x k tick faults commit m t h fresh =
    let TooLarge : Type 0 = Overflows p q x tick m.balances in
    Ended-Implements TooLarge m (Ledger.post id p q x k tick m, tt) (post_body id p q x k tick)
      faults commit t h
      (transact-Ended TooLarge m (Ledger.post id p q x k tick m, tt) (post_body id p q x k tick) t h
        (post_body-Follows TooLarge id p q x k tick m t.idempotency (λ e. e) h.2 fresh))
      (calls-AreAtomic id p q x [] k tick faults commit t).2
