-- ===== src/Postgres/Mirror/Bodies.antt =====
-- What the transactions of services/bank/internal/ledger/postgres.go do to tables that show given
-- balances, journal and answers.
use pipsim.Common.{ℕ, ◌≡◌, ◌⊎◌, refl, Bool, true, none, List, [], ◌∷◌, ◌++◌, inl, inr, arith, ◌≤◌}
use pipsim.Common.Words.{sub64, sign_bit}
use pipsim.Common.Strings.{Bytes, Bytes-Eq}
use pipsim.Common.Assoc.{lookup, insert}
use pipsim.Ledger.{
  Balances, Kind, Result, JournalEntry, balance_of, debit, credit, two_entries, accepted,
}
use pipsim.Postgres.Statements.{
  Tables, IdempotencyRow, checked_add, checked_sub, find_row, lock_order, lock_all, add, subtract,
}
use pipsim.Postgres.Calls.{pay, post_body}
use pipsim.Postgres.Rows.{AllOpen, lock_order-AllOpen}
use pipsim.Postgres.Mirror.Whole.{Whole, and_then-Whole, weaken-Whole}
use pipsim.Postgres.Mirror.Rows.{
  Shows, Right, insert-Right, open_insert, Right-balance_of, ensure_account-Shows,
  lock_account-Shows, subtract-Shows, add-Shows, append_rows-Shows, begin-Shows,
  record_idempotent-Shows,
}

-- A number leaves the range of a BIGINT: the payer's balance, the payee's, or the tick.
abbrev pub Overflows : Bytes → Bytes → ℕ → ℕ → Balances → Type 0
Overflows payer payee amount tick b =
    (checked_sub (balance_of payer b) amount ≡ none)
    ⊎ (checked_add (balance_of payee (debit payer amount b)) amount ≡ none)
    ⊎ (sign_bit ≤ tick)

module _ (Reason : Type 0) (b : Balances) (journal : List JournalEntry)
    (rows : List IdempotencyRow) where
  -- The accounts that were locked have rows and were read.
  abbrev Locked : List Bytes → List Bytes → Balances → Tables → Type 0
  Locked accounts ids held t =
      Shows b journal rows ids t
      × AllOpen accounts t.accounts
      × Right b held
      × AllOpen ids held
      × AllOpen accounts held

  lock_all-Locked :
      (accounts ids : List Bytes) (held : Balances)
      → Right b held
      → AllOpen ids held
      → Whole Reason
          (Shows b journal rows ids)
          (lock_all accounts held)
          (λ r t. Locked accounts ids r t)
  unfolding lock_all
  lock_all-Locked [] ids held right read = λ t h. (refl, (h, tt, right, read, tt))
  lock_all-Locked (a ∷ rest) ids held right read =
      and_then-Whole Reason _ _ _ _ _ (ensure_account-Shows Reason b journal rows ids a) (λ _.
        and_then-Whole Reason _ _ _ _ _ (lock_account-Shows Reason b journal rows ids a) (λ v t h.
          weaken-Whole Reason (Shows b journal rows (a ∷ ids)) (Locked rest (a ∷ ids))
            (Locked (a ∷ rest) ids) (lock_all rest (insert a v held))
            (λ r after g.
              ((g.0.0, g.0.1, g.0.2, g.0.3.1), (g.0.3.0, g.1), g.2, g.3.1, (g.3.0, g.4)))
            (lock_all-Locked rest (a ∷ ids) (insert a v held) (insert-Right b held a v h.0 right)
              (open_insert a v ids held read))
            t h.1))

  pub lock_both-Shows :
      (p q : Bytes)
      → Whole Reason
          (Shows b journal rows [])
          (lock_all (lock_order p q) [])
          (λ held t. (balance_of p held ≡ balance_of p b) × Shows b journal rows (p ∷ q ∷ []) t)
  unfolding lookup
  lock_both-Shows p q =
      weaken-Whole Reason (Shows b journal rows []) (Locked (lock_order p q) [])
        (λ held t. (balance_of p held ≡ balance_of p b) × Shows b journal rows (p ∷ q ∷ []) t)
        (lock_all (lock_order p q) [])
        (λ held t h. (
          Right-balance_of b held p h.2 (lock_order-AllOpen p q held h.4).0,
          (h.0.0, h.0.1, h.0.2, lock_order-AllOpen p q t.accounts h.1),
        ))
        (lock_all-Locked (lock_order p q) [] [] (λ a v e. ground arith) tt)

  module _ (id payer payee : Bytes) (amount : ℕ) (kind : Kind) (tick : ℕ)
      (fails : Overflows payer payee amount tick b → Reason) where
    abbrev pub moved_balances : Balances
    moved_balances = credit payee amount (debit payer amount b)

    abbrev pub moved_journal : List JournalEntry
    moved_journal = journal ++ two_entries id payer payee amount kind tick

    -- The two halves of a movement.
    take-Shows :
        (j : List JournalEntry)
        → Whole Reason
            (Shows b j rows (payer ∷ payee ∷ []))
            (subtract payer amount)
            (λ _. Shows (debit payer amount b) j rows (payee ∷ []))
    take-Shows j =
        weaken-Whole Reason _ (λ _. Shows (debit payer amount b) j rows (payer ∷ payee ∷ []))
          (λ _. Shows (debit payer amount b) j rows (payee ∷ [])) (subtract payer amount)
          (λ _ t h. (h.0, h.1, h.2, h.3.1))
          (subtract-Shows Reason b j rows (payee ∷ []) payer amount (λ e. fails (inl e)))

    give-Shows :
        (j : List JournalEntry)
        → Whole Reason
            (Shows (debit payer amount b) j rows (payee ∷ []))
            (add payee amount)
            (λ _. Shows moved_balances j rows [])
    give-Shows j =
        weaken-Whole Reason _ (λ _. Shows moved_balances j rows (payee ∷ []))
          (λ _. Shows moved_balances j rows []) (add payee amount) (λ _ t h. (h.0, h.1, h.2, tt))
          (add-Shows Reason (debit payer amount b) j rows [] payee amount
            (λ e. fails (inr (inl e))))

    abbrev pub Moved : Result × Bool → Tables → Type 0
    Moved reply t =
        let r : Result = accepted (sub64 (balance_of payer b) amount) in
        (reply ≡ (r, true))
        × Shows moved_balances moved_journal
            (record { payer = payer; payee = payee; tick = tick; kind = kind; result = r } ∷ rows)
            [] t

    pub pay-Shows :
        (held : ℕ)
        → held ≡ balance_of payer b
        → find_row payer payee tick kind rows ≡ none
        → Whole Reason
            (Shows b journal rows (payer ∷ payee ∷ []))
            (pay id payer payee amount kind tick held)
            Moved
    unfolding pay
    pay-Shows held right fresh = rw right (
        and_then-Whole Reason _ _ _ _ _ (take-Shows journal) (λ _.
          and_then-Whole Reason _ _ _ _ _ (give-Shows journal) (λ _.
            and_then-Whole Reason _ _ _ _ _
              (append_rows-Shows Reason moved_balances journal rows [] tick _
                (λ e. fails (inr (inr e))) (refl, (refl, tt)))
              (λ _.
                and_then-Whole Reason _ _ _ _ _
                  (record_idempotent-Shows Reason moved_balances moved_journal rows [] payer payee
                    tick kind (λ e. fails (inr (inr e))) _ fresh)
                  (λ _ t h. (refl, (refl, h)))))))

    pub post_body-Shows :
        Whole Reason
          (Shows b journal rows [])
          (post_body id payer payee amount kind tick)
          (λ done t. (done ≡ (tt, true)) × Shows moved_balances moved_journal rows [] t)
    unfolding post_body
    post_body-Shows = and_then-Whole Reason _ _ _ _ _ (begin-Shows Reason b journal rows []) (λ _.
        and_then-Whole Reason _ _ _ _ _ (lock_both-Shows payer payee) (λ _.
          and_then-Whole Reason _ _ _ _ _
            (λ t h.
              append_rows-Shows Reason b journal rows (payer ∷ payee ∷ []) tick _
                (λ e. fails (inr (inr e))) (refl, (refl, tt)) t h.1)
            (λ _. and_then-Whole Reason _ _ _ _ _ (take-Shows moved_journal) (λ _.
              and_then-Whole Reason _ _ _ _ _ (give-Shows moved_journal)
                (λ _ t h. (refl, (refl, h)))))))
