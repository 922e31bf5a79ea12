-- ===== src/Postgres/Mirror/Rows.antt =====
-- What each statement does to tables that show given balances, journal and answers.
use pipsim.Common.{
  ℕ, ◌≤◌, Bool, true, false, [], All, Bool-cases, ◌≡◌, ◌≢◌, refl, ◌∙◌, Option, none, some, List,
  ◌∷◌, ◌++◌, arith, inl, inr, Option-cases, ap, sym, if◌then◌else◌,
}
use pipsim.Common.Tests.{◌==◌, ==_iff, ==-refl}
use pipsim.Common.Words.{add64, sub64, sign_bit}
use pipsim.Common.Strings.{Bytes, Bytes-Eq}
use pipsim.Common.Assoc.{lookup, insert, lookup-insert}
use pipsim.Ledger.{Balances, Kind, Result, JournalEntry, balance_of, debit, credit}
use pipsim.Ledger.Balance.{balance_of-debit, balance_of-credit}
use pipsim.Postgres.Statements.{
  fits, fits_all, if_fits, found, or_insert, Tables, begin, update_balance, set_balance,
  checked_add, checked_sub, subtract, add, append_rows, IdempotencyRow, add_row, find_row,
  lookup_idempotent, record_idempotent, ensure_account, lock_account,
}
use pipsim.Postgres.Rows.{AllOpen, insert-AllOpen}
use pipsim.Postgres.Mirror.Whole.{Answers, Whole, exec-Whole}

abbrev pub AtTick : ℕ → JournalEntry → Type 0
AtTick tick row = row.tick ≡ tick

abbrev pub SameBalances : Balances → Balances → Type 0
SameBalances b b' = (a : Bytes) → balance_of a b ≡ balance_of a b'

-- The tables hold these balances, journal and answers, and the accounts of the list have rows.
abbrev pub Shows : Balances → List JournalEntry → List IdempotencyRow → List Bytes → Tables → Type 0
Shows b journal rows ids t =
    SameBalances t.accounts b
    × (t.journal ≡ journal)
    × (t.idempotency ≡ rows)
    × AllOpen ids t.accounts

pub or_insert-SameBalances :
    (a : Bytes) (b : Balances) (row : Option ℕ)
    → lookup a b ≡ row
    → SameBalances (or_insert a row b) b
or_insert-SameBalances a b none e y = ground (arith, lookup-insert a y 0 b, ==_iff a y)
or_insert-SameBalances a b (some v) e y = refl

pub open_insert :
    (a : Bytes) (v : ℕ) (ids : List Bytes) (b : Balances)
    → AllOpen ids b
    → AllOpen (a ∷ ids) (insert a v b)
open_insert a v ids b h =
    (ground (arith, lookup-insert a a v b, ==-refl a), insert-AllOpen a v ids b h)

or_insert-AllOpen :
    (a : Bytes) (ids : List Bytes) (b : Balances) (row : Option ℕ)
    → lookup a b ≡ row
    → AllOpen ids b
    → AllOpen (a ∷ ids) (or_insert a row b)
or_insert-AllOpen a ids b none e h = open_insert a 0 ids b h
or_insert-AllOpen a ids b (some v) e h = (ground arith, h)

-- Every balance that was read is the one that the tables show.
abbrev pub Right : Balances → Balances → Type 0
Right b held = (a : Bytes) (v : ℕ) → lookup a held ≡ some v → v ≡ balance_of a b

pub insert-Right :
    (b held : Balances) (a : Bytes) (v : ℕ)
    → v ≡ balance_of a b
    → Right b held
    → Right b (insert a v held)
insert-Right b held a v e h y w found = ground (arith, lookup-insert a y v held, ==_iff a y, h y w)

pub Right-balance_of :
    (b held : Balances) (a : Bytes)
    → Right b held
    → lookup a held ≢ none
    → balance_of a held ≡ balance_of a b
Right-balance_of b held a h has_row = elim (Option-cases (lookup a held)) [
  | inl missing ↦ absurd (has_row missing)
  | inr (v, e) ↦ ground (arith, h a v e)
]

checked_sub-some : (v x n : ℕ) → checked_sub v x ≡ some n → sub64 v x ≡ n
unfolding checked_sub
checked_sub-some v x n e = ground arith

checked_add-some : (v x n : ℕ) → checked_add v x ≡ some n → add64 v x ≡ n
unfolding checked_add
checked_add-some v x n e = ground arith

module _ (Reason : Type 0) (b : Balances) (journal : List JournalEntry) (rows : List IdempotencyRow)
    (ids : List Bytes) where
  pub ensure_account-Shows :
      (a : Bytes)
      → Whole Reason
          (Shows b journal rows ids)
          (ensure_account a)
          (λ _. Shows b journal rows (a ∷ ids))
  unfolding ensure_account
  ensure_account-Shows a = exec-Whole Reason _ _ _ (λ t h. (
    λ y. or_insert-SameBalances a t.accounts (lookup a t.accounts) refl y ∙ h.0 y,
    h.1,
    h.2,
    or_insert-AllOpen a ids t.accounts (lookup a t.accounts) refl h.3,
  ))

  found-Shows :
      (a : Bytes) (row : Option ℕ) (t : Tables)
      → lookup a t.accounts ≡ row
      → Shows b journal rows (a ∷ ids) t
      → Answers Reason
          (λ v after. (v ≡ balance_of a b) × Shows b journal rows (a ∷ ids) after)
          (found row t)
  found-Shows a none t e h = absurd (h.3.0 e)
  found-Shows a (some v) t e h = (ground (arith, h.0 a), h)

  pub lock_account-Shows :
      (a : Bytes)
      → Whole Reason
          (Shows b journal rows (a ∷ ids))
          (lock_account a)
          (λ v t. (v ≡ balance_of a b) × Shows b journal rows (a ∷ ids) t)
  unfolding lock_account
  lock_account-Shows a =
      exec-Whole Reason _ _ _ (λ t h. found-Shows a (lookup a t.accounts) t refl h)

  -- A row that is changed shows the changed balance.
  set_balance-Shows :
      (a : Bytes) (changed : Balances) (new : Option ℕ) (t : Tables)
      → (new ≡ none → Reason)
      → ((n : ℕ) → new ≡ some n → SameBalances (insert a n t.accounts) changed)
      → Shows b journal rows (a ∷ ids) t
      → Answers Reason (λ _. Shows changed journal rows (a ∷ ids)) (set_balance a new t)
  unfolding set_balance
  set_balance-Shows a changed none t fails same h = fails refl
  set_balance-Shows a changed (some n) t fails same h =
      (same n refl, h.1, h.2, insert-AllOpen a n (a ∷ ids) t.accounts h.3)

  update_balance-Shows :
      (a : Bytes) (changed : Balances) (change : ℕ → Option ℕ) (row : Option ℕ) (t : Tables)
      → lookup a t.accounts ≡ row
      → (change (balance_of a b) ≡ none → Reason)
      → ((n : ℕ) → change (balance_of a b) ≡ some n → SameBalances (insert a n t.accounts) changed)
      → Shows b journal rows (a ∷ ids) t
      → Answers Reason (λ _. Shows changed journal rows (a ∷ ids)) (update_balance a change row t)
  unfolding update_balance
  update_balance-Shows a changed change none t e fails same h = absurd (h.3.0 e)
  update_balance-Shows a changed change (some v) t e fails same h =
      let held : v ≡ balance_of a b = ground (arith, h.0 a) in
      set_balance-Shows a changed (change v) t (λ n. fails (ap change (sym held) ∙ n))
        (λ n made. same n (ap change (sym held) ∙ made)) h

  insert-SameBalances :
      (a : Bytes) (n : ℕ) (accounts : Balances) (changed : Balances)
      → SameBalances accounts b
      → ((y : Bytes) → balance_of y changed ≡ (if a == y then n else balance_of y b))
      → SameBalances (insert a n accounts) changed
  insert-SameBalances a n accounts changed same moved y =
      ground (arith, lookup-insert a y n accounts, same y, moved y)

  pub subtract-Shows :
      (a : Bytes) (x : ℕ)
      → (checked_sub (balance_of a b) x ≡ none → Reason)
      → Whole Reason
          (Shows b journal rows (a ∷ ids))
          (subtract a x)
          (λ _. Shows (debit a x b) journal rows (a ∷ ids))
  unfolding subtract
  subtract-Shows a x fails = exec-Whole Reason _ _ _ (λ t h.
      update_balance-Shows a (debit a x b) (λ v. checked_sub v x) (lookup a t.accounts) t refl fails
        (λ n made. insert-SameBalances a n t.accounts (debit a x b) h.0 (λ y.
          balance_of-debit a y x b
          ∙ ap (λ v. if a == y then v else balance_of y b)
              (checked_sub-some (balance_of a b) x n made)))
        h)

  pub add-Shows :
      (a : Bytes) (x : ℕ)
      → (checked_add (balance_of a b) x ≡ none → Reason)
      → Whole Reason
          (Shows b journal rows (a ∷ ids))
          (add a x)
          (λ _. Shows (credit a x b) journal rows (a ∷ ids))
  unfolding add
  add-Shows a x fails = exec-Whole Reason _ _ _ (λ t h.
      update_balance-Shows a (credit a x b) (λ v. checked_add v x) (lookup a t.accounts) t refl
        fails
        (λ n made. insert-SameBalances a n t.accounts (credit a x b) h.0 (λ y.
          balance_of-credit a y x b
          ∙ ap (λ v. if a == y then v else balance_of y b)
              (checked_add-some (balance_of a b) x n made)))
        h)

  if_fits-Answers :
      {A : Type 0} (q : A → Tables → Type 0) (fit : Bool) (r : Option (A × Tables))
      → (fit ≡ false → Reason)
      → Answers Reason q r
      → Answers Reason q (if_fits fit r)
  if_fits-Answers q true r late h = h
  if_fits-Answers q false r late h = late refl

  late_tick : (tick : ℕ) → (sign_bit ≤ tick → Reason) → fits tick ≡ false → Reason
  late_tick tick late e = late (ground arith)

  late_rows :
      (tick : ℕ) (more : List JournalEntry)
      → (sign_bit ≤ tick → Reason)
      → All (AtTick tick) more
      → fits_all more ≡ false
      → Reason
  late_rows tick [] late h e = ground arith
  late_rows tick (row ∷ more) late (at, h) e = elim (Bool-cases (fits row.tick)) [
    | inl fit ↦ late_rows tick more late h (rw fit at e)
    | inr bad ↦ late_tick tick late (rw (← at) bad)
  ]

  pub append_rows-Shows :
      (tick : ℕ) (more : List JournalEntry)
      → (sign_bit ≤ tick → Reason)
      → All (AtTick tick) more
      → Whole Reason
          (Shows b journal rows ids)
          (append_rows more)
          (λ _. Shows b (journal ++ more) rows ids)
  unfolding append_rows
  append_rows-Shows tick more late at = exec-Whole Reason _ _ _ (λ t h.
      if_fits-Answers _ (fits_all more) _ (late_rows tick more late at)
        (h.0, ap (λ j. j ++ more) h.1, h.2, h.3))

  pub begin-Shows : Whole Reason (Shows b journal rows ids) begin (λ _. Shows b journal rows ids)
  unfolding begin
  begin-Shows = exec-Whole Reason _ _ _ (λ t h. h)

  module _ (payer payee : Bytes) (tick : ℕ) (kind : Kind) (late : sign_bit ≤ tick → Reason) where
    pub lookup_idempotent-Shows :
        Whole Reason
          (Shows b journal rows ids)
          (lookup_idempotent payer payee tick kind)
          (λ seen t. (seen ≡ find_row payer payee tick kind rows) × Shows b journal rows ids t)
    unfolding lookup_idempotent
    lookup_idempotent-Shows = exec-Whole Reason _ _ _ (λ t h.
        if_fits-Answers _ (fits tick) _ (late_tick tick late)
          (ap (find_row payer payee tick kind) h.2, h))

    add_row-Shows :
        (row : IdempotencyRow) (old : Option Result) (t : Tables)
        → old ≡ none
        → Shows b journal rows ids t
        → Answers Reason (λ _. Shows b journal (row ∷ rows) ids) (add_row row old t)
    add_row-Shows row none t e h = (h.0, h.1, ap (λ l. row ∷ l) h.2, h.3)
    add_row-Shows row (some r) t e h = ground arith

    pub record_idempotent-Shows :
        (r : Result)
        → find_row payer payee tick kind rows ≡ none
        → Whole Reason (Shows b journal rows ids) (record_idempotent payer payee tick kind r) (λ _.
          Shows b journal
            (record { payer = payer; payee = payee; tick = tick; kind = kind; result = r } ∷ rows)
            ids)
    unfolding record_idempotent
    record_idempotent-Shows r fresh = exec-Whole Reason _ _ _ (λ t h.
        if_fits-Answers _ (fits tick) _ (late_tick tick late)
          (add_row-Shows _ _ t (ap (find_row payer payee tick kind) h.2 ∙ fresh) h))
