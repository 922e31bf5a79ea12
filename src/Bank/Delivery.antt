-- ===== src/Bank/Delivery.antt =====
-- Deliveries of services/bank/internal/bankapi/purchases.go to the in-memory ledger, again and in any
-- order.
use pipsim.Common.{ℕ, ◌≡◌, ◌≢◌, Bool, true, inl, inr, List, [], ◌∷◌, Bool-cases}
use pipsim.Common.Tests.{◌==◌, ==-eq-false}
use pipsim.Common.Strings.{Bytes, Bytes-Eq, bytes}
use pipsim.Ledger.{Memory, kind_purchase}
use pipsim.Ledger.Interface.{memory_calls}
use pipsim.Ledger.Idempotency.{Booked, post-Booked, post_books, post_again}
use pipsim.Bank.Consumer.{
  Message, undecodable, envelope, purchase_made, pip_died, other, Fetch, failed, fetched, State,
  step, run,
}
use pipsim.Bank.Purchases.{handle_purchase}

pub handle_purchase-Booked :
    (f id : Bytes) (msg : Message) (m : Memory)
    → Booked f m
    → Booked f (handle_purchase memory_calls id msg m).0
unfolding handle_purchase
handle_purchase-Booked f id undecodable m h = h
handle_purchase-Booked f id (envelope e t (purchase_made p q x)) m h =
    elim (Bool-cases (e == bytes "")) [
      | inl empty ↦ rw empty h
      | inr named ↦ rw named (post-Booked f e p q x kind_purchase t m h)
    ]
handle_purchase-Booked f id (envelope e t (pip_died pip)) m h = h
handle_purchase-Booked f id (envelope e t other) m h = h

run-Booked :
    (f : Bytes) (fs : List Fetch) (c : State Memory)
    → Booked f c.ledger
    → Booked f (run (handle_purchase memory_calls) fs c).ledger
unfolding run step
run-Booked f [] c h = h
run-Booked f (failed ∷ fs) c h = run-Booked f fs c h
run-Booked f (fetched id offset msg commits ∷ fs) c h =
    run-Booked f fs (step (handle_purchase memory_calls) (fetched id offset msg commits) c)
      (handle_purchase-Booked f id msg c.ledger h)

pub handle_purchase_first :
    (id e p q : Bytes) (t x : ℕ) (m : Memory)
    → e ≢ bytes ""
    → Booked e (handle_purchase memory_calls id (envelope e t (purchase_made p q x)) m).0
unfolding handle_purchase
handle_purchase_first id e p q t x m ne =
    rw (==-eq-false e (bytes "") ne) (post_books e p q x kind_purchase t m)

handle_purchase_again :
    (id e p q : Bytes) (t x : ℕ) (m : Memory)
    → e ≢ bytes ""
    → Booked e m
    → handle_purchase memory_calls id (envelope e t (purchase_made p q x)) m ≡ (m, true)
unfolding handle_purchase
handle_purchase_again id e p q t x m ne h =
    rw (==-eq-false e (bytes "") ne) (rw (post_again e p q x kind_purchase t m h))

-- Over the in-memory ledger, a purchase with an id that is delivered again, after any further
-- deliveries of purchases, does not change the ledger again, and is handled without an error.
pub purchase_redelivered :
    (id id' e p q : Bytes) (offset t x : ℕ) (commits : Bool) (fs : List Fetch) (c : State Memory)
    → e ≢ bytes ""
    → let msg = envelope e t (purchase_made p q x) in
      let c' = run (handle_purchase memory_calls) (fetched id offset msg commits ∷ fs) c in
      handle_purchase memory_calls id' msg c'.ledger ≡ (c'.ledger, true)
unfolding step run
purchase_redelivered id id' e p q offset t x commits fs c ne =
    let msg = envelope e t (purchase_made p q x) in
    let first = step (handle_purchase memory_calls) (fetched id offset msg commits) c in
    handle_purchase_again id' e p q t x (run (handle_purchase memory_calls) fs first).ledger ne
      (run-Booked e fs first (handle_purchase_first id e p q t x c.ledger ne))
