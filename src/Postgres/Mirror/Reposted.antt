-- ===== src/Postgres/Mirror/Reposted.antt =====
-- A purchase that is delivered twice, services/bank/internal/bankapi/purchases.go over
-- services/bank/internal/ledger/postgres.go.
use pipsim.Common.{ℕ, ◌≡◌, ◌≢◌, ◌⊎◌, refl, inl, inr, none, [], arith, ap, if◌then◌else◌, ◌∙◌}
use pipsim.Common.Tests.{◌==◌, ==_iff, ==-eq-false}
use pipsim.Common.Words.{add64, sub64}
use pipsim.Common.Strings.{Bytes, Bytes-Eq, bytes}
use pipsim.Common.Assoc.{lookup}
use pipsim.Ledger
use pipsim.Ledger.{Balances, Memory, balance_of, debit, credit, kind_purchase}
use pipsim.Ledger.Balance.{balance_of-debit, balance_of-credit}
use pipsim.Bank.Consumer.{Message, envelope, purchase_made}
use pipsim.Bank.Purchases.{handle_purchase, book_purchase}
use pipsim.Postgres.Statements.{Tables}
use pipsim.Postgres.Calls.{made, transact, post_body}
use pipsim.Postgres.Mirror.Bodies.{Overflows}
use pipsim.Postgres.Mirror.Calls.{Mirrors}
use pipsim.Postgres.Mirror.Implements.{post-Implements}
use pipsim.Postgres.Mirror.Handlers.{postgres_calls}

-- `handle` over tables of which no statement and no commit fails.
abbrev pub deliver : Message → Tables → Tables
deliver msg t = (handle_purchase (postgres_calls [] made) (bytes "") msg t).0

balance_of-moved :
    (p q a : Bytes) (x : ℕ) (b : Balances)
    → p ≢ q
    → balance_of a (credit q x (debit p x b)) ≡ (
        if q == a
        then add64 (balance_of a b) x
        else if p == a
        then sub64 (balance_of a b) x
        else balance_of a b)
balance_of-moved p q a x b ne = ground (
  arith,
  ==_iff p a,
  ==_iff q a,
  ==_iff p q,
  balance_of-debit p a x b,
  balance_of-debit p q x b,
  balance_of-credit q a x (debit p x b),
)

payee_gains :
    (p q : Bytes) (x : ℕ) (b : Balances)
    → p ≢ q
    → balance_of q (credit q x (debit p x (credit q x (debit p x b))))
      ≡ add64 (add64 (balance_of q b) x) x
payee_gains p q x b ne = ground (
  arith,
  ==_iff q q,
  balance_of-moved p q q x b ne,
  balance_of-moved p q q x (credit q x (debit p x b)) ne,
)

payer_loses :
    (p q : Bytes) (x : ℕ) (b : Balances)
    → p ≢ q
    → balance_of p (credit q x (debit p x (credit q x (debit p x b))))
      ≡ sub64 (sub64 (balance_of p b) x) x
payer_loses p q x b ne = ground (
  arith,
  ==_iff p p,
  ==_iff q p,
  balance_of-moved p q p x b ne,
  balance_of-moved p q p x (credit q x (debit p x b)) ne,
)

module _ (e p q : Bytes) (x tick : ℕ) where
  abbrev movement : Balances → Balances
  movement b = credit q x (debit p x b)

  abbrev booked : Memory → Memory
  booked m = Ledger.post e p q x kind_purchase tick m

  balances-booked :
      (m : Memory) → lookup e m.posted ≡ none → (booked m).balances ≡ movement m.balances
  unfolding Ledger.post
  balances-booked m fresh = rw (fresh, Ledger.post) refl

  deliver-post :
      (t : Tables)
      → e ≢ bytes ""
      → deliver (envelope e tick (purchase_made p q x)) t
        ≡ (transact (post_body e p q x kind_purchase tick) [] made t).0
  unfolding handle_purchase book_purchase
  deliver-post t named = rw (==-eq-false e (bytes "") named, deliver) refl

  -- One delivery moves the money, whatever the memory has marked as posted.
  deliver-Mirrors :
      (m : Memory) (t : Tables)
      → e ≢ bytes ""
      → Mirrors m t
      → lookup e m.posted ≡ none
      → Overflows p q x tick m.balances
        ⊎ Mirrors (booked m) (deliver (envelope e tick (purchase_made p q x)) t)
  deliver-Mirrors m t named h fresh =
      elim (post-Implements e p q x kind_purchase tick [] made m t h fresh).0 [
        | inl large ↦ inl large
        | inr (mirrors, done) ↦ rw (deliver-post t named) (inr mirrors)
      ]

-- Over Postgres, a purchase with an id that is delivered twice is booked twice: after both deliveries
-- the payee has gained the amount two times and the payer has lost it two times, unless a number
-- would leave the range of a BIGINT. No statement fails here, the tables mirror a ledger in memory
-- that has not booked the purchase, and the payer is not the payee.
pub redelivered_pays_twice :
    (e p q : Bytes) (x tick : ℕ) (m : Memory) (t : Tables)
    → Mirrors m t
    → lookup e m.posted ≡ none
    → e ≢ bytes ""
    → p ≢ q
    → let msg = envelope e tick (purchase_made p q x) in
      let t' = deliver msg (deliver msg t) in
      Overflows p q x tick m.balances
      ⊎ Overflows p q x tick (Ledger.post e p q x kind_purchase tick m).balances
      ⊎ ((balance_of q t'.accounts ≡ add64 (add64 (balance_of q m.balances) x) x)
          × (balance_of p t'.accounts ≡ sub64 (sub64 (balance_of p m.balances) x) x))
unfolding lookup
redelivered_pays_twice e p q x tick m t h fresh named ne =
    elim (deliver-Mirrors e p q x tick m t named h fresh) [
      | inl large ↦ inl large
      | inr once ↦
          let m' : Memory = record (booked e p q x tick m) { posted = [] } in
          let msg : Message = envelope e tick (purchase_made p q x) in
          elim (deliver-Mirrors e p q x tick m' (deliver msg t) named once refl) [
            | inl large ↦ inr (inl large)
            | inr twice ↦
                let first = balances-booked e p q x tick m fresh in
                let b : Balances = movement e p q x tick m.balances in
                let second : (booked e p q x tick m').balances ≡ movement e p q x tick b =
                  balances-booked e p q x tick m' refl ∙ ap (movement e p q x tick) first in
                inr (
                  inr (
                    twice.0 q ∙ ap (balance_of q) second ∙ payee_gains p q x m.balances ne,
                    twice.0 p ∙ ap (balance_of p) second ∙ payer_loses p q x m.balances ne,
                  ))
          ]
    ]
