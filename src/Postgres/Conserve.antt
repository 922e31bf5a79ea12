-- ===== src/Postgres/Conserve.antt =====
-- The sum of bank.accounts under the transactions of services/bank/internal/ledger/postgres.go.
use pipsim.Common.{
  ℕ, ◌≡◌, ◌<◌, refl, ap, ◌∙◌, Bool, true, false, Option, none, some, List, [], ◌∷◌, arith,
}
use pipsim.Common.Words.{add64, sub64, word_size}
use pipsim.Common.Strings.{Bytes, Bytes-Eq, bytes}
use pipsim.Ledger.{Kind, Credit, Result, balance_of, cannot_cover, total_from}
use pipsim.Ledger.Supply.{supply, supply-lt}
use pipsim.Postgres.Statements.{Tables, Session, Tx, subtract, add}
use pipsim.Postgres.Calls.{
  Commit, made, refused, unheard, transact, finish, pay, pay_if_covered, transfer_unless_seen,
  transfer_body, post_body, pay_credits, pay_batch, batch_if_covered, batch_unless_seen,
  batch_transfer_body,
}
use pipsim.Postgres.Triples.{Ends, Triple, and_then-Triple, weaken-Triple, either-Triple}
use pipsim.Postgres.Rows.{
  Sums, ensure_account-Sums, lock_account-Sums, subtract-Sums, add-Sums, append_rows-Sums,
  begin-Sums, lookup_idempotent-Sums, record_idempotent-Sums, lock_both-Sums, take-Sums, give-Sums,
}

module _ (v : ℕ) (small : v < word_size) (id payer payee : Bytes) (amount : ℕ) (kind : Kind)
    (tick : ℕ) where
  post_body-Sums : Triple (Sums v []) (post_body id payer payee amount kind tick) (λ _. Sums v [])
  unfolding post_body
  post_body-Sums = and_then-Triple _ _ _ _ _ (begin-Sums v []) (λ _.
      and_then-Triple _ _ _ _ _ (lock_both-Sums v payer payee) (λ _.
        and_then-Triple _ _ _ _ _ (append_rows-Sums v (payer ∷ payee ∷ []) _) (λ _.
          and_then-Triple _ _ _ _ _ (take-Sums v amount payer payee small) (λ _.
            and_then-Triple _ _ _ _ _ (give-Sums v amount payer payee small) (λ _ faults t h. h)))))

  pay-Sums :
      (held : ℕ)
      → Triple
          (Sums v (payer ∷ payee ∷ []))
          (pay id payer payee amount kind tick held)
          (λ _. Sums v [])
  unfolding pay
  pay-Sums held = and_then-Triple _ _ _ _ _ (take-Sums v amount payer payee small) (λ _.
      and_then-Triple _ _ _ _ _ (give-Sums v amount payer payee small) (λ _.
        and_then-Triple _ _ _ _ _ (append_rows-Sums v [] _) (λ _.
          and_then-Triple _ _ _ _ _ (record_idempotent-Sums v [] payer payee tick kind _)
            (λ _ faults t h. h))))

  pay_if_covered-Sums :
      (held : ℕ)
      → Triple
          (Sums v (payer ∷ payee ∷ []))
          (pay_if_covered id payer payee amount kind tick held)
          (λ _. Sums v [])
  unfolding pay_if_covered
  pay_if_covered-Sums held =
      either-Triple (cannot_cover payer held amount) _ _ _ _ (λ faults t h. (h.0, tt))
        (pay-Sums held)

  transfer_unless_seen-Sums :
      (seen : Option Result)
      → Triple
          (Sums v [])
          (transfer_unless_seen id payer payee amount kind tick seen)
          (λ _. Sums v [])
  unfolding transfer_unless_seen
  transfer_unless_seen-Sums (some r) = λ faults t h. h
  transfer_unless_seen-Sums none =
      and_then-Triple _ _ _ _ _ (lock_both-Sums v payer payee)
        (λ balances. pay_if_covered-Sums (balance_of payer balances))

  transfer_body-Sums :
      Triple (Sums v []) (transfer_body id payer payee amount kind tick) (λ _. Sums v [])
  unfolding transfer_body
  transfer_body-Sums = and_then-Triple _ _ _ _ _ (begin-Sums v []) (λ _.
      and_then-Triple _ _ _ _ _ (lookup_idempotent-Sums v [] payer payee tick kind)
        transfer_unless_seen-Sums)

total_from-add64 :
    (a b : ℕ) (cs : List Credit) → total_from (add64 a b) cs ≡ add64 a (total_from b cs)
unfolding total_from
total_from-add64 a b [] = refl
total_from-add64 a b (c ∷ cs) =
    ap (λ x. total_from x cs) (omega arith) ∙ total_from-add64 a (add64 b c.amount) cs

-- The credits of a batch add up to what its payer loses.
total_from-sub64 :
    (v : ℕ) (cs : List Credit) → v < word_size → total_from (sub64 v (total_from 0 cs)) cs ≡ v
total_from-sub64 v cs small =
    let total = total_from 0 cs in
    ap (λ x. total_from x cs) (omega arith) ∙ (total_from-add64 (sub64 v total) 0 cs ∙ omega arith)

module _ (id payer : Bytes) (kind : Kind) (tick : ℕ) where
  pay_credits-Sums :
      (v : ℕ) (cs : List Credit)
      → v < word_size
      → Triple (Sums v []) (pay_credits id kind tick cs) (λ _. Sums (total_from v cs) [])
  unfolding pay_credits total_from
  pay_credits-Sums v [] small = λ faults t h. h
  pay_credits-Sums v (c ∷ cs) small =
      and_then-Triple _ _ _ _ _ (ensure_account-Sums v [] c.payee) (λ _.
        and_then-Triple _ _ _ _ _
          (weaken-Triple _ (λ _. Sums (add64 v c.amount) (c.payee ∷ []))
            (λ _. Sums (add64 v c.amount) []) (add c.payee c.amount) (λ _ t h. (h.0, tt))
            (add-Sums v c.amount [] c.payee small))
          (λ _.
            and_then-Triple _ _ _ _ _ (append_rows-Sums (add64 v c.amount) [] _)
              (λ _. pay_credits-Sums (add64 v c.amount) cs (omega arith))))

  module _ (v : ℕ) (small : v < word_size) (cs : List Credit) where
    pay_batch-Sums :
        (held : ℕ)
        → Triple
            (Sums v (payer ∷ []))
            (pay_batch id payer cs (total_from 0 cs) kind tick held)
            (λ _. Sums v [])
    unfolding pay_batch
    pay_batch-Sums held =
        let total = total_from 0 cs in
        and_then-Triple _ _ _ _ _
          (weaken-Triple _ (λ _. Sums (sub64 v total) (payer ∷ [])) (λ _. Sums (sub64 v total) [])
            (subtract payer total) (λ _ t h. (h.0, tt)) (subtract-Sums v total [] payer small))
          (λ _. and_then-Triple _ _ _ _ _ (append_rows-Sums (sub64 v total) [] _) (λ _.
            and_then-Triple _ _ _ _ _
              (weaken-Triple _ (λ _. Sums (total_from (sub64 v total) cs) []) (λ _. Sums v [])
                (pay_credits id kind tick cs) (λ _ t h. (h.0 ∙ total_from-sub64 v cs small, tt))
                (pay_credits-Sums (sub64 v total) cs (omega arith)))
              (λ _.
                and_then-Triple _ _ _ _ _
                  (record_idempotent-Sums v [] payer (bytes "batch") tick kind _)
                  (λ _ faults t h. h))))

    batch_unless_seen-Sums :
        (seen : Option Result)
        → Triple (Sums v []) (batch_unless_seen id payer cs kind tick seen) (λ _. Sums v [])
    unfolding batch_unless_seen batch_if_covered
    batch_unless_seen-Sums (some r) = λ faults t h. h
    batch_unless_seen-Sums none = and_then-Triple _ _ _ _ _ (ensure_account-Sums v [] payer) (λ _.
        and_then-Triple _ _ _ _ _ (lock_account-Sums v (payer ∷ []) payer) (λ held.
          either-Triple (cannot_cover payer held (total_from 0 cs)) _ _ _ _
            (λ faults t h. (h.0, tt)) (pay_batch-Sums held)))

    batch_transfer_body-Sums :
        Triple (Sums v []) (batch_transfer_body id payer cs kind tick) (λ _. Sums v [])
    unfolding batch_transfer_body
    batch_transfer_body-Sums = and_then-Triple _ _ _ _ _ (begin-Sums v []) (λ _.
        and_then-Triple _ _ _ _ _ (lookup_idempotent-Sums v [] payer (bytes "batch") tick kind)
          batch_unless_seen-Sums)

finish-Sums :
    {A : Type 0} (commit : Commit) (t : Tables) (r : Option ((A × Bool) × Session))
    → Ends (λ _. Sums (supply t.accounts) []) r
    → supply (finish commit t r).0.accounts ≡ supply t.accounts
unfolding finish
finish-Sums commit t none h = refl
finish-Sums commit t (some ((a, false), (faults, t'))) h = refl
finish-Sums made t (some ((a, true), (faults, t'))) h = h.0
finish-Sums refused t (some ((a, true), (faults, t'))) h = refl
finish-Sums unheard t (some ((a, true), (faults, t'))) h = h.0

transact-Sums :
    {A : Type 0} (body : Tx (A × Bool)) (faults : List Bool) (commit : Commit) (t : Tables)
    → Triple (Sums (supply t.accounts) []) body (λ _. Sums (supply t.accounts) [])
    → supply (transact body faults commit t).0.accounts ≡ supply t.accounts
unfolding transact
transact-Sums body faults commit t h =
    finish-Sums commit t (body (faults, t)) (h faults t (refl, tt))

-- No transfer, batch or settled movement changes the sum of the table of accounts, whatever
-- statements fail, however the commit ends, and also where rows are created on the way.
pub supply-calls :
    (id payer payee : Bytes) (amount : ℕ) (credits : List Credit) (kind : Kind) (tick : ℕ)
    (faults : List Bool) (commit : Commit) (t : Tables)
    → let total : Tables → ℕ = λ tables. supply tables.accounts in
      (total (transact (transfer_body id payer payee amount kind tick) faults commit t).0 ≡ total t)
      × (total (transact (batch_transfer_body id payer credits kind tick) faults commit t).0
          ≡ total t)
      × (total (transact (post_body id payer payee amount kind tick) faults commit t).0 ≡ total t)
supply-calls id payer payee amount credits kind tick faults commit t =
    let v = supply t.accounts in
    let small = supply-lt t.accounts in
    (
      transact-Sums _ faults commit t (transfer_body-Sums v small id payer payee amount kind tick),
      transact-Sums _ faults commit t (batch_transfer_body-Sums id payer kind tick v small credits),
      transact-Sums _ faults commit t (post_body-Sums v small id payer payee amount kind tick),
    )
