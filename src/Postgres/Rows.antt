-- ===== src/Postgres/Rows.antt =====
-- What each statement does to the sum of all balances, and which accounts have rows.
use pipsim.Common.{
  ℕ, ◌≡◌, ◌≢◌, ◌<◌, refl, ◌∙◌, Option, none, some, List, [], ◌∷◌, arith, inl, inr, Bool-cases, Bool,
  true, false,
}
use pipsim.Common.Tests.{◌==◌, ==_iff, ==-refl}
use pipsim.Common.Words.{add64, sub64, word_size}
use pipsim.Common.Strings.{Bytes, Bytes-Eq}
use pipsim.Common.Assoc.{lookup, insert, lookup-insert}
use pipsim.Ledger.{Balances, Kind, Result, JournalEntry, balance_of}
use pipsim.Ledger.Supply.{supply, supply-insert, supply-lt}
use pipsim.Postgres.Statements.{
  found, or_insert, Tables, begin, update_balance, set_balance, checked_add, checked_sub, subtract,
  add, append_rows, IdempotencyRow, add_row, lookup_idempotent, record_idempotent, ensure_account,
  lock_account, is_before, lock_order, lock_all, fits, fits_all, if_fits,
}
use pipsim.Postgres.Triples.{Yields, Triple, exec-Triple, and_then-Triple, weaken-Triple}

abbrev pub AllOpen : List Bytes → Balances → Type 0
AllOpen [] b = Unit
AllOpen (a ∷ ids) b = (lookup a b ≢ none) × AllOpen ids b

-- The accounts of the list have rows, and all balances sum to `v`.
abbrev pub Sums : ℕ → List Bytes → Tables → Type 0
Sums v ids t = (supply t.accounts ≡ v) × AllOpen ids t.accounts

pub insert-AllOpen :
    (a : Bytes) (v : ℕ) (ids : List Bytes) (b : Balances)
    → AllOpen ids b
    → AllOpen ids (insert a v b)
insert-AllOpen a v [] b h = tt
insert-AllOpen a v (x ∷ ids) b h =
    (ground (arith, lookup-insert a x v b, h.0), insert-AllOpen a v ids b h.1)

or_insert-Sums :
    (a : Bytes) (ids : List Bytes) (b : Balances) (row : Option ℕ)
    → lookup a b ≡ row
    → AllOpen ids b
    → (supply (or_insert a row b) ≡ supply b) × AllOpen (a ∷ ids) (or_insert a row b)
or_insert-Sums a ids b none e h = (
  omega (arith, supply-insert a 0 b, supply-lt b, supply-lt (insert a 0 b), zero_balance),
  (ground (arith, lookup-insert a a 0 b, ==-refl a), insert-AllOpen a 0 ids b h),
)
  where
    zero_balance : balance_of a b ≡ 0
    zero_balance = rw e refl
or_insert-Sums a ids b (some v) e h = (refl, (ground arith, h))

pub ensure_account-Sums :
    (v : ℕ) (ids : List Bytes) (a : Bytes)
    → Triple (Sums v ids) (ensure_account a) (λ _. Sums v (a ∷ ids))
unfolding ensure_account
ensure_account-Sums v ids a = exec-Triple _ _ _ (λ t h.
    let (same, rows) = or_insert-Sums a ids t.accounts (lookup a t.accounts) refl h.1 in
    (same ∙ h.0, rows))

found-Sums :
    (v : ℕ) (ids : List Bytes) (row : Option ℕ) (t : Tables)
    → Sums v ids t
    → Yields (λ _. Sums v ids) (found row t)
found-Sums v ids none t h = tt
found-Sums v ids (some balance) t h = h

pub lock_account-Sums :
    (v : ℕ) (ids : List Bytes) (a : Bytes) → Triple (Sums v ids) (lock_account a) (λ _. Sums v ids)
unfolding lock_account
lock_account-Sums v ids a = exec-Triple _ _ _ (λ t h. found-Sums v ids (lookup a t.accounts) t h)

-- A row that is changed moves the sum by as much.
set_balance-Sums :
    (v w old : ℕ) (ids : List Bytes) (a : Bytes) (new : Option ℕ) (t : Tables)
    → lookup a t.accounts ≡ some old
    → ((n : ℕ) → new ≡ some n → add64 w old ≡ add64 v n)
    → w < word_size
    → Sums v ids t
    → Yields (λ _. Sums w ids) (set_balance a new t)
unfolding set_balance
set_balance-Sums v w old ids a none t e moved small h = tt
set_balance-Sums v w old ids a (some n) t e moved small h = (
  omega (
    arith,
    supply-insert a n t.accounts,
    moved n refl,
    supply-lt (insert a n t.accounts),
    supply-lt t.accounts,
    h.0,
    old_balance,
  ),
  insert-AllOpen a n ids t.accounts h.1,
)
  where
    old_balance : balance_of a t.accounts ≡ old
    old_balance = rw e refl

update_balance-Sums :
    (v w : ℕ) (ids : List Bytes) (a : Bytes) (change : ℕ → Option ℕ) (row : Option ℕ) (t : Tables)
    → lookup a t.accounts ≡ row
    → ((old n : ℕ) → change old ≡ some n → add64 w old ≡ add64 v n)
    → w < word_size
    → Sums v (a ∷ ids) t
    → Yields (λ _. Sums w (a ∷ ids)) (update_balance a change row t)
unfolding update_balance
update_balance-Sums v w ids a change none t e moved small h = absurd (h.1.0 e)
update_balance-Sums v w ids a change (some old) t e moved small h =
    set_balance-Sums v w old (a ∷ ids) a (change old) t e (moved old) small h

checked_sub-moves :
    (v x old n : ℕ) → v < word_size → checked_sub old x ≡ some n → add64 (sub64 v x) old ≡ add64 v n
unfolding checked_sub
checked_sub-moves v x old n small e = ground arith

checked_add-moves :
    (v x old n : ℕ) → v < word_size → checked_add old x ≡ some n → add64 (add64 v x) old ≡ add64 v n
unfolding checked_add
checked_add-moves v x old n small e = ground arith

module _ (v x : ℕ) (ids : List Bytes) (a : Bytes) (small : v < word_size) where
  pub subtract-Sums : Triple (Sums v (a ∷ ids)) (subtract a x) (λ _. Sums (sub64 v x) (a ∷ ids))
  unfolding subtract
  subtract-Sums = exec-Triple _ _ _ (λ t h.
      update_balance-Sums v (sub64 v x) ids a (λ b. checked_sub b x) (lookup a t.accounts) t refl
        (λ old n e. checked_sub-moves v x old n small e) (omega arith) h)

  pub add-Sums : Triple (Sums v (a ∷ ids)) (add a x) (λ _. Sums (add64 v x) (a ∷ ids))
  unfolding add
  add-Sums = exec-Triple _ _ _ (λ t h.
      update_balance-Sums v (add64 v x) ids a (λ b. checked_add b x) (lookup a t.accounts) t refl
        (λ old n e. checked_add-moves v x old n small e) (omega arith) h)

if_fits-Yields :
    {A : Type 0} (q : A → Tables → Type 0) (fit : Bool) (r : Option (A × Tables))
    → Yields q r
    → Yields q (if_fits fit r)
if_fits-Yields q true r h = h
if_fits-Yields q false r h = tt

module _ (v : ℕ) (ids : List Bytes) where
  pub append_rows-Sums :
      (rows : List JournalEntry) → Triple (Sums v ids) (append_rows rows) (λ _. Sums v ids)
  unfolding append_rows
  append_rows-Sums rows = exec-Triple _ _ _ (λ t h. if_fits-Yields _ (fits_all rows) _ h)

  pub begin-Sums : Triple (Sums v ids) begin (λ _. Sums v ids)
  unfolding begin
  begin-Sums = exec-Triple _ _ _ (λ t h. h)

  module _ (payer payee : Bytes) (tick : ℕ) (kind : Kind) where
    pub lookup_idempotent-Sums :
        Triple (Sums v ids) (lookup_idempotent payer payee tick kind) (λ _. Sums v ids)
    unfolding lookup_idempotent
    lookup_idempotent-Sums = exec-Triple _ _ _ (λ t h. if_fits-Yields _ (fits tick) _ h)

    add_row-Sums :
        (row : IdempotencyRow) (old : Option Result) (t : Tables)
        → Sums v ids t
        → Yields (λ _. Sums v ids) (add_row row old t)
    add_row-Sums row none t h = h
    add_row-Sums row (some r) t h = tt

    pub record_idempotent-Sums :
        (r : Result)
        → Triple (Sums v ids) (record_idempotent payer payee tick kind r) (λ _. Sums v ids)
    unfolding record_idempotent
    record_idempotent-Sums r =
        exec-Triple _ _ _ (λ t h. if_fits-Yields _ (fits tick) _ (add_row-Sums _ _ t h))

-- The accounts that were locked have rows, besides those that had before.
abbrev Locked : ℕ → List Bytes → List Bytes → Tables → Type 0
Locked v accounts ids t = Sums v ids t × AllOpen accounts t.accounts

lock_all-Locked :
    (v : ℕ) (accounts ids : List Bytes) (balances : Balances)
    → Triple (Sums v ids) (lock_all accounts balances) (λ _. Locked v accounts ids)
unfolding lock_all
lock_all-Locked v [] ids balances = λ faults t h. (h, tt)
lock_all-Locked v (a ∷ rest) ids balances =
    and_then-Triple _ _ _ _ _ (ensure_account-Sums v ids a) (λ _.
      and_then-Triple _ _ _ _ _ (lock_account-Sums v (a ∷ ids) a) (λ balance.
        weaken-Triple _ (λ _. Locked v rest (a ∷ ids)) (λ _. Locked v (a ∷ rest) ids)
          (lock_all rest (insert a balance balances)) (λ _ t h. ((h.0.0, h.0.1.1), (h.0.1.0, h.1)))
          (lock_all-Locked v rest (a ∷ ids) (insert a balance balances))))

pub lock_order-AllOpen :
    (p q : Bytes) (b : Balances) → AllOpen (lock_order p q) b → AllOpen (p ∷ q ∷ []) b
unfolding lock_order
lock_order-AllOpen p q b h = elim (Bool-cases (p == q)) [
  | inl e ↦ (ground (arith, ==_iff p q), (ground (arith, ==_iff p q), tt))
  | inr e ↦ elim (Bool-cases (is_before p q)) [
    | inl before ↦ (ground arith, (ground arith, tt))
    | inr after ↦ (ground arith, (ground arith, tt))
  ]
]

pub lock_both-Sums :
    (v : ℕ) (p q : Bytes)
    → Triple (Sums v []) (lock_all (lock_order p q) []) (λ _. Sums v (p ∷ q ∷ []))
lock_both-Sums v p q =
    weaken-Triple _ (λ _. Locked v (lock_order p q) []) (λ _. Sums v (p ∷ q ∷ []))
      (lock_all (lock_order p q) []) (λ _ t h. (h.0.0, lock_order-AllOpen p q t.accounts h.1))
      (lock_all-Locked v (lock_order p q) [] [])

-- The two halves of a payment.
module _ (v x : ℕ) (p q : Bytes) (small : v < word_size) where
  pub take-Sums : Triple (Sums v (p ∷ q ∷ [])) (subtract p x) (λ _. Sums (sub64 v x) (q ∷ []))
  take-Sums =
      weaken-Triple _ (λ _. Sums (sub64 v x) (p ∷ q ∷ [])) (λ _. Sums (sub64 v x) (q ∷ []))
        (subtract p x) (λ _ t h. (h.0, h.1.1)) (subtract-Sums v x (q ∷ []) p small)

  pub give-Sums : Triple (Sums (sub64 v x) (q ∷ [])) (add q x) (λ _. Sums v [])
  give-Sums =
      weaken-Triple _ (λ _. Sums (add64 (sub64 v x) x) (q ∷ [])) (λ _. Sums v []) (add q x)
        (λ _ t h. (omega (arith, h.0), tt)) (add-Sums (sub64 v x) x [] q (omega arith))
