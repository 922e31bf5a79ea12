-- ===== src/Bank/Escheat.antt =====
-- Reclaiming the purses of the dead: services/bank/internal/bankapi/escheat.go.
use pipsim.Common.{ℕ, Bool, true, false, none, some, ◌++◌, if◌then◌else◌}
use pipsim.Common.Words.{lt64}
use pipsim.Common.Strings.{Bytes, bytes, decimal}
use pipsim.Ledger.{kind_escheat, treasury_account}
use pipsim.Ledger.Interface.{LedgerCalls}
use pipsim.Bank.Consumer.{Message, undecodable, envelope, purchase_made, pip_died, other}

-- `fmt.Sprintf("pip:%d", pipID)`
unfoldable pub pip_account : ℕ → Bytes
pip_account pip = bytes "pip:" ++ decimal pip

-- `balance <= 0`
abbrev pub nothing_to_reclaim : ℕ → Bool
nothing_to_reclaim balance = if lt64 0 balance then false else true

module _ {S : Type 0} (calls : LedgerCalls S) where
  -- The transfer's result is only logged, so it decides nothing here.
  unfoldable pub reclaim : Bytes → Bytes → ℕ → ℕ → S → S × Bool
  reclaim id account balance tick s =
      let (s', res) = calls.transfer id account treasury_account balance kind_escheat tick s in
      elim res [ none ↦ (s', false) | some _ ↦ (s', true) ]

  unfoldable pub escheat : Bytes → ℕ → ℕ → S → S × Bool
  unfolding reclaim
  escheat id pip tick s =
      let account = pip_account pip in
      let (s', balance) = calls.get_balance account s in
      elim balance [
        | none ↦ (s', false)
        | some v ↦ if nothing_to_reclaim v then (s', true) else reclaim id account v tick s'
      ]

  unfoldable pub handle_lifecycle : Bytes → Message → S → S × Bool
  handle_lifecycle id undecodable s = (s, true)
  handle_lifecycle id (envelope event_id tick (pip_died pip)) s = escheat id pip tick s
  handle_lifecycle id (envelope event_id tick (purchase_made payer payee amount)) s = (s, true)
  handle_lifecycle id (envelope event_id tick other) s = (s, true)
