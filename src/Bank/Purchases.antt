-- ===== src/Bank/Purchases.antt =====
-- Booking purchases: services/bank/internal/bankapi/purchases.go.
use pipsim.Common.{ℕ, Bool, true, false, if◌then◌else◌}
use pipsim.Common.Tests.{◌==◌}
use pipsim.Common.Strings.{Bytes, Bytes-Eq, bytes}
use pipsim.Ledger.{kind_purchase}
use pipsim.Ledger.Interface.{LedgerCalls}
use pipsim.Bank.Consumer.{Message, undecodable, envelope, purchase_made, pip_died, other}

module _ {S : Type 0} (calls : LedgerCalls S) where
  -- Without an id the purchase is refused with an error.
  unfoldable pub book_purchase : Bytes → Bytes → Bytes → ℕ → ℕ → S → S × Bool
  book_purchase event_id payer payee amount tick s =
      if event_id == bytes ""
      then (s, false)
      else calls.post event_id payer payee amount kind_purchase tick s

  unfoldable pub handle_purchase : Bytes → Message → S → S × Bool
  unfolding book_purchase
  handle_purchase id undecodable s = (s, true)
  handle_purchase id (envelope event_id tick (purchase_made payer payee amount)) s =
      book_purchase event_id payer payee amount tick s
  handle_purchase id (envelope event_id tick (pip_died pip)) s = (s, true)
  handle_purchase id (envelope event_id tick other) s = (s, true)
