-- ===== src/Postgres/Mirror/Batches.antt =====
-- What the transaction of `BatchTransfer`, services/bank/internal/ledger/postgres.go, does to tables
-- that show given balances, journal and answers.
use pipsim.Common.{
  ℕ, ◌≡◌, ◌⊎◌, refl, ◌∙◌, sym, Bool, true, none, List, [], ◌∷◌, ◌++◌, inl, inr, ◌≤◌,
}
use mathlib.Core.List.{append_assoc, append-nil}
use pipsim.Common.Words.{sub64, neg64, sign_bit}
use pipsim.Common.Strings.{Bytes, bytes}
use pipsim.Ledger.{
  Balances, Credit, Kind, Result, JournalEntry, balance_of, debit, credit, credit_all, entry,
  credit_entries, accepted, total_from,
}
use pipsim.Postgres.Statements.{Tables, IdempotencyRow, checked_add, checked_sub, find_row}
use pipsim.Postgres.Calls.{pay_credits, pay_batch}
use pipsim.Postgres.Mirror.Whole.{Whole, and_then-Whole, weaken-Whole}
use pipsim.Postgres.Mirror.Rows.{
  Shows, ensure_account-Shows, subtract-Shows, add-Shows, append_rows-Shows,
  record_idempotent-Shows,
}

abbrev pub CreditsOverflow : List Credit → Balances → Type 0
CreditsOverflow [] b = ⊥
CreditsOverflow (c ∷ cs) b =
    (checked_add (balance_of c.payee b) c.amount ≡ none)
    ⊎ CreditsOverflow cs (credit c.payee c.amount b)

-- A number leaves the range of a BIGINT: the payer's balance, that of one of the credited accounts,
-- or the tick.
abbrev pub BatchOverflows : Bytes → List Credit → ℕ → Balances → Type 0
BatchOverflows payer credits tick b =
    (checked_sub (balance_of payer b) (total_from 0 credits) ≡ none)
    ⊎ CreditsOverflow credits (debit payer (total_from 0 credits) b)
    ⊎ (sign_bit ≤ tick)

module _ (Reason : Type 0) (id : Bytes) (kind : Kind) (tick : ℕ) (rows : List IdempotencyRow) where
  pay_credits-Shows :
      (cs : List Credit) (b : Balances) (journal : List JournalEntry)
      → (CreditsOverflow cs b → Reason)
      → (sign_bit ≤ tick → Reason)
      → Whole Reason
          (Shows b journal rows [])
          (pay_credits id kind tick cs)
          (λ _. Shows (credit_all cs b) (journal ++ credit_entries id kind tick cs) rows [])
  unfolding pay_credits credit_all credit_entries
  pay_credits-Shows [] b journal fails late =
      λ t h. (refl, (h.0, h.1 ∙ sym (append-nil journal), h.2, tt))
  pay_credits-Shows (c ∷ cs) b journal fails late =
      let b' : Balances = credit c.payee c.amount b in
      let row : JournalEntry = entry id c.payee c.amount kind tick in
      and_then-Whole Reason _ _ _ _ _ (ensure_account-Shows Reason b journal rows [] c.payee) (λ _.
        and_then-Whole Reason _ _ _ _ _
          (add-Shows Reason b journal rows [] c.payee c.amount (λ e. fails (inl e)))
          (λ _.
            and_then-Whole Reason _ _ _ _ _
              (append_rows-Shows Reason b' journal rows (c.payee ∷ []) tick (row ∷ []) late
                (refl, tt))
              (λ _ t h.
                weaken-Whole Reason (Shows b' (journal ++ (row ∷ [])) rows [])
                  (λ _.
                    Shows (credit_all cs b')
                      ((journal ++ (row ∷ [])) ++ credit_entries id kind tick cs) rows [])
                  (λ _.
                    Shows (credit_all cs b') (journal ++ (row ∷ credit_entries id kind tick cs))
                      rows [])
                  (pay_credits id kind tick cs)
                  (λ _ after g. (g.0, g.1 ∙ append_assoc journal (row ∷ []) _, g.2, tt))
                  (pay_credits-Shows cs b' (journal ++ (row ∷ [])) (λ e. fails (inr e)) late) t
                  (h.0, h.1, h.2, tt))))

  module _ (payer : Bytes) (b : Balances) (journal : List JournalEntry) (cs : List Credit)
      (fails : BatchOverflows payer cs tick b → Reason) where
    abbrev pub batch_journal : List JournalEntry
    batch_journal =
        (journal ++ entry id payer (neg64 (total_from 0 cs)) kind tick ∷ [])
        ++ credit_entries id kind tick cs

    abbrev pub BatchMoved : Result × Bool → Tables → Type 0
    BatchMoved reply t =
        let r : Result = accepted (sub64 (balance_of payer b) (total_from 0 cs)) in
        (reply ≡ (r, true))
        × Shows (credit_all cs (debit payer (total_from 0 cs) b)) batch_journal
            (record { payer = payer; payee = bytes "batch"; tick = tick; kind = kind; result = r }
              ∷ rows)
            [] t

    pub pay_batch-Shows :
        (held : ℕ)
        → held ≡ balance_of payer b
        → find_row payer (bytes "batch") tick kind rows ≡ none
        → Whole Reason
            (Shows b journal rows (payer ∷ []))
            (pay_batch id payer cs (total_from 0 cs) kind tick held)
            BatchMoved
    unfolding pay_batch
    pay_batch-Shows held right fresh =
        let total : ℕ = total_from 0 cs in
        let paid : Balances = debit payer total b in
        rw right (
          and_then-Whole Reason _ _ _ _ _
            (subtract-Shows Reason b journal rows [] payer total (λ e. fails (inl e)))
            (λ _.
              and_then-Whole Reason _ _ _ _ _
                (append_rows-Shows Reason paid journal rows (payer ∷ []) tick _
                  (λ e. fails (inr (inr e))) (refl, tt))
                (λ _.
                  and_then-Whole Reason _ _ _ _ _
                    (λ t h.
                      pay_credits-Shows cs paid _ (λ e. fails (inr (inl e)))
                        (λ e. fails (inr (inr e))) t (h.0, h.1, h.2, tt))
                    (λ _.
                      and_then-Whole Reason _ _ _ _ _
                        (record_idempotent-Shows Reason (credit_all cs paid) batch_journal rows []
                          payer (bytes "batch") tick kind (λ e. fails (inr (inr e))) _ fresh)
                        (λ _ t h. (refl, (refl, h)))))))
