-- ===== src/Ledger/History.antt =====
-- A history of the ledger: the calls of the interface `Ledger` in ledger.go, one after another, as
-- the mutex of memory.go orders them.
use pipsim.Common.{ℕ, List, [], ◌∷◌}
use pipsim.Common.Strings.{Bytes}
use pipsim.Ledger
use pipsim.Ledger.{Memory, Kind, Credit}

-- A call with its arguments; the first argument of a transfer is the id that it draws.
pub data Call : Type 0 where
  open_account : Bytes → Call
  get_balance : Bytes → Call
  transfer : Bytes → Bytes → Bytes → ℕ → Kind → ℕ → Call
  batch_transfer : Bytes → Bytes → List Credit → Kind → ℕ → Call
  post : Bytes → Bytes → Bytes → ℕ → Kind → ℕ → Call

unfoldable pub after : Call → Memory → Memory
after (open_account a) m = (Ledger.open_account a m).0
after (get_balance a) m = (Ledger.get_balance a m).0
after (transfer id payer payee amount kind tick) m =
    (Ledger.transfer id payer payee amount kind tick m).0
after (batch_transfer id payer credits kind tick) m =
    (Ledger.batch_transfer id payer credits kind tick m).0
after (post id payer payee amount kind tick) m = Ledger.post id payer payee amount kind tick m

unfoldable pub run : List Call → Memory → Memory
run [] m = m
run (c ∷ cs) m = run cs (after c m)
