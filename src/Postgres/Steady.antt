-- ===== src/Postgres/Steady.antt =====
-- Runs of the transactions of services/bank/internal/ledger/postgres.go, compared with the same
-- runs without faults.
use pipsim.Common.{
  ℕ, ◌≡◌, refl, inl, inr, Bool, true, false, Option, none, some, List, [], ◌∷◌, Bool-cases,
}
use pipsim.Common.Strings.{Bytes, Bytes-Eq, bytes}
use pipsim.Common.Assoc.{insert}
use pipsim.Ledger.{
  Kind, Credit, Result, Balances, JournalEntry, balance_of, cannot_cover, total_from,
}
use pipsim.Postgres.Statements.{
  Tables, Session, Tx, pure, resume, and_then, exec, done, begin, subtract, add, append_rows,
  lookup_idempotent, record_idempotent, ensure_account, lock_account, lock_order, lock_all,
}
use pipsim.Postgres.Calls.{
  pay, pay_if_covered, transfer_unless_seen, transfer_body, post_body, pay_credits, pay_batch,
  batch_if_covered, batch_unless_seen, batch_transfer_body,
}

-- A run with faults fails, or ends as the run without them.
abbrev pub AgreesWith : {A : Type 0} → Option (A × Session) → Option (A × Session) → Type 0
AgreesWith none free = Unit
AgreesWith (some (a, (faults, t))) free = free ≡ some (a, ([], t))

abbrev pub IsSteady : {A : Type 0} → Tx A → Type 0
IsSteady m = (faults : List Bool) (t : Tables) → AgreesWith (m (faults, t)) (m ([], t))

done-AgreesWith :
    {A : Type 0} (faults : List Bool) (r : Option (A × Tables))
    → AgreesWith (done faults r) (done [] r)
unfolding done
done-AgreesWith faults none = tt
done-AgreesWith faults (some (a, t)) = refl

exec-IsSteady : {A : Type 0} (statement : Tables → Option (A × Tables)) → IsSteady (exec statement)
unfolding exec
exec-IsSteady statement [] t = done-AgreesWith [] (statement t)
exec-IsSteady statement (true ∷ faults) t = tt
exec-IsSteady statement (false ∷ faults) t = done-AgreesWith faults (statement t)

resume-AgreesWith :
    {A B : Type 0} (r free : Option (A × Session)) (k : A → Tx B)
    → AgreesWith r free
    → ((a : A) → IsSteady (k a))
    → AgreesWith (resume r k) (resume free k)
unfolding resume
resume-AgreesWith none free k h hk = tt
resume-AgreesWith (some (a, (faults, t))) free k h hk = rw h (hk a faults t)

and_then-IsSteady :
    {A B : Type 0} (m : Tx A) (k : A → Tx B)
    → IsSteady m
    → ((a : A) → IsSteady (k a))
    → IsSteady (and_then m k)
unfolding and_then
and_then-IsSteady m k hm hk faults t =
    resume-AgreesWith (m (faults, t)) (m ([], t)) k (hm faults t) hk

pure-IsSteady : {A : Type 0} (a : A) → IsSteady (pure a)
pure-IsSteady a faults t = refl

module _ (account : Bytes) where
  subtract-IsSteady : (amount : ℕ) → IsSteady (subtract account amount)
  unfolding subtract
  subtract-IsSteady amount = exec-IsSteady _

  add-IsSteady : (amount : ℕ) → IsSteady (add account amount)
  unfolding add
  add-IsSteady amount = exec-IsSteady _

  ensure_account-IsSteady : IsSteady (ensure_account account)
  unfolding ensure_account
  ensure_account-IsSteady = exec-IsSteady _

  lock_account-IsSteady : IsSteady (lock_account account)
  unfolding lock_account
  lock_account-IsSteady = exec-IsSteady _

append_rows-IsSteady : (rows : List JournalEntry) → IsSteady (append_rows rows)
unfolding append_rows
append_rows-IsSteady rows = exec-IsSteady _

begin-IsSteady : IsSteady begin
unfolding begin
begin-IsSteady = exec-IsSteady _

module _ (payer payee : Bytes) (tick : ℕ) (kind : Kind) where
  lookup_idempotent-IsSteady : IsSteady (lookup_idempotent payer payee tick kind)
  unfolding lookup_idempotent
  lookup_idempotent-IsSteady = exec-IsSteady _

  record_idempotent-IsSteady : (r : Result) → IsSteady (record_idempotent payer payee tick kind r)
  unfolding record_idempotent
  record_idempotent-IsSteady r = exec-IsSteady _

lock_all-IsSteady :
    (accounts : List Bytes) (balances : Balances) → IsSteady (lock_all accounts balances)
unfolding lock_all
lock_all-IsSteady [] balances = pure-IsSteady balances
lock_all-IsSteady (account ∷ rest) balances =
    and_then-IsSteady _ _ (ensure_account-IsSteady account) (λ _.
      and_then-IsSteady _ _ (lock_account-IsSteady account)
        (λ balance. lock_all-IsSteady rest (insert account balance balances)))

module _ (id payer payee : Bytes) (amount : ℕ) (kind : Kind) (tick : ℕ) where
  pay-IsSteady : (held : ℕ) → IsSteady (pay id payer payee amount kind tick held)
  unfolding pay
  pay-IsSteady held = and_then-IsSteady _ _ (subtract-IsSteady payer amount) (λ _.
      and_then-IsSteady _ _ (add-IsSteady payee amount) (λ _.
        and_then-IsSteady _ _ (append_rows-IsSteady _) (λ _.
          and_then-IsSteady _ _ (record_idempotent-IsSteady payer payee tick kind _)
            (λ _. pure-IsSteady _))))

  pay_if_covered-IsSteady :
      (held : ℕ) → IsSteady (pay_if_covered id payer payee amount kind tick held)
  unfolding pay_if_covered
  pay_if_covered-IsSteady held = elim (Bool-cases (cannot_cover payer held amount)) [
    | inl e ↦ rw e (pure-IsSteady _)
    | inr e ↦ rw e (pay-IsSteady held)
  ]

  transfer_unless_seen-IsSteady :
      (seen : Option Result) → IsSteady (transfer_unless_seen id payer payee amount kind tick seen)
  unfolding transfer_unless_seen
  transfer_unless_seen-IsSteady (some r) = pure-IsSteady _
  transfer_unless_seen-IsSteady none =
      and_then-IsSteady _ _ (lock_all-IsSteady (lock_order payer payee) [])
        (λ balances. pay_if_covered-IsSteady (balance_of payer balances))

  pub transfer_body-IsSteady : IsSteady (transfer_body id payer payee amount kind tick)
  unfolding transfer_body
  transfer_body-IsSteady = and_then-IsSteady _ _ begin-IsSteady (λ _.
      and_then-IsSteady _ _ (lookup_idempotent-IsSteady payer payee tick kind)
        transfer_unless_seen-IsSteady)

  pub post_body-IsSteady : IsSteady (post_body id payer payee amount kind tick)
  unfolding post_body
  post_body-IsSteady = and_then-IsSteady _ _ begin-IsSteady (λ _.
      and_then-IsSteady _ _ (lock_all-IsSteady (lock_order payer payee) []) (λ _.
        and_then-IsSteady _ _ (append_rows-IsSteady _) (λ _.
          and_then-IsSteady _ _ (subtract-IsSteady payer amount)
            (λ _. and_then-IsSteady _ _ (add-IsSteady payee amount) (λ _. pure-IsSteady _)))))

module _ (id payer : Bytes) (kind : Kind) (tick : ℕ) where
  pay_credits-IsSteady : (cs : List Credit) → IsSteady (pay_credits id kind tick cs)
  unfolding pay_credits
  pay_credits-IsSteady [] = pure-IsSteady _
  pay_credits-IsSteady (c ∷ cs) = and_then-IsSteady _ _ (ensure_account-IsSteady c.payee) (λ _.
      and_then-IsSteady _ _ (add-IsSteady c.payee c.amount)
        (λ _. and_then-IsSteady _ _ (append_rows-IsSteady _) (λ _. pay_credits-IsSteady cs)))

  pay_batch-IsSteady :
      (cs : List Credit) (total held : ℕ) → IsSteady (pay_batch id payer cs total kind tick held)
  unfolding pay_batch
  pay_batch-IsSteady cs total held = and_then-IsSteady _ _ (subtract-IsSteady payer total) (λ _.
      and_then-IsSteady _ _ (append_rows-IsSteady _) (λ _.
        and_then-IsSteady _ _ (pay_credits-IsSteady cs) (λ _.
          and_then-IsSteady _ _ (record_idempotent-IsSteady payer (bytes "batch") tick kind _)
            (λ _. pure-IsSteady _))))

  batch_if_covered-IsSteady :
      (cs : List Credit) (total held : ℕ)
      → IsSteady (batch_if_covered id payer cs total kind tick held)
  unfolding batch_if_covered
  batch_if_covered-IsSteady cs total held = elim (Bool-cases (cannot_cover payer held total)) [
    | inl e ↦ rw e (pure-IsSteady _)
    | inr e ↦ rw e (pay_batch-IsSteady cs total held)
  ]

  batch_unless_seen-IsSteady :
      (cs : List Credit) (seen : Option Result)
      → IsSteady (batch_unless_seen id payer cs kind tick seen)
  unfolding batch_unless_seen
  batch_unless_seen-IsSteady cs (some r) = pure-IsSteady _
  batch_unless_seen-IsSteady cs none = and_then-IsSteady _ _ (ensure_account-IsSteady payer) (λ _.
      and_then-IsSteady _ _ (lock_account-IsSteady payer)
        (λ held. batch_if_covered-IsSteady cs (total_from 0 cs) held))

  pub batch_transfer_body-IsSteady :
      (cs : List Credit) → IsSteady (batch_transfer_body id payer cs kind tick)
  unfolding batch_transfer_body
  batch_transfer_body-IsSteady cs = and_then-IsSteady _ _ begin-IsSteady (λ _.
      and_then-IsSteady _ _ (lookup_idempotent-IsSteady payer (bytes "batch") tick kind)
        (batch_unless_seen-IsSteady cs))
