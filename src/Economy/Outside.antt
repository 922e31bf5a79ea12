-- ===== src/Economy/Outside.antt =====
-- The services that the gateway calls, as a parameter: sim-core, the workplaces, the bank and the
-- broker. A call takes the outside world to its next state; `none` and `false` are errors.
use pipsim.Common.{ℕ, Bool, Option, List}
use pipsim.Common.Strings.{Bytes}
use pipsim.Connect.{Reply}
use pipsim.Ledger.{Result}
use pipsim.Bank.{TransferRequest, BatchTransferRequest, TransferKind}
use pipsim.Workplace.{ResourceKind, BuyResponse}

-- A pip, as a snapshot of sim-core shows it. The id 0 names no workplace.
pub record Pip : Type 0 where
  pub id : ℕ
  pub employer_workplace_id : ℕ
  pub inside_workplace_id : ℕ
  pub balance : ℕ

pub record Snapshot : Type 0 where
  pub tick : ℕ
  pub pips : List Pip

pub record PipCredit : Type 0 where
  pub pip_id : ℕ
  pub amount : ℕ

-- The needs that a shift changes are only handed on.
abbrev pub NeedDeltas : Type 0
NeedDeltas = List (ℕ × ℕ)

-- The intents that this package submits to sim-core.
pub data Intent : Type 0 where
  hire : ℕ → ℕ → Intent
  end_employment : ℕ → Intent
  apply_needs : ℕ → NeedDeltas → Intent
  credit_balances : Bytes → List PipCredit → ℕ → Intent
  transfer : Bytes → Bytes → ℕ → ResourceKind → TransferKind → ℕ → Intent

-- `pips.workplace.v1.WorkResponse`, as far as the driver reads it.
pub record Shift : Type 0 where
  pub shift_should_end : Bool
  pub need_deltas : NeedDeltas
  pub wage : ℕ

pub record Outside (W : Type 0) : Type 0 where
  pub now : W → ℕ
  pub snapshot : W → W × Option Snapshot
  pub submit : Intent → W → W × Bool
  pub work : ℕ → ℕ → ℕ → W → W × Option Shift
  pub end_shift : ℕ → ℕ → ℕ → Bytes → W → W
  pub buy : ℕ → ℕ → ResourceKind → ℕ → W → W × Reply BuyResponse
  pub publish_offer : Bytes → ℕ → ℕ → W → W × Bool
  pub get_balance : Bytes → W → W × Reply ℕ
  pub transfer : TransferRequest → W → W × Reply Result
  pub batch_transfer : BatchTransferRequest → W → W × Reply Result
