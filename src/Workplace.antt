-- ===== src/Workplace.antt =====
-- The messages of the workplace contract that the farm answers with and the gateway reads
-- (pips.workplace.v1, generated from the proto file).
use pipsim.Common.{ℕ, Bool, List}
use pipsim.Common.Strings.{Bytes}

pub data ResourceKind : Type 0 where
  unspecified grain food tool ale : ResourceKind

pub record Offer : Type 0 where
  pub kind : ResourceKind
  pub price : ℕ

pub record Description : Type 0 where
  pub workplace_id : ℕ
  pub kind : Bytes
  pub display_name : Bytes
  pub max_workers : ℕ
  pub current_workers : ℕ
  pub produces : List ResourceKind
  pub wage : ℕ
  pub effort : ℕ
  pub sells : List Offer

pub record ResourceAmount : Type 0 where
  pub kind : ResourceKind
  pub amount : ℕ

pub record WorkResponse : Type 0 where
  pub produced : List ResourceAmount
  pub wage : ℕ
  pub shift_should_end : Bool

-- `ok` with a price, or a reason.
pub record BuyResponse : Type 0 where
  pub ok : Bool
  pub reason : Bytes
  pub price : ℕ

pub record Verdict : Type 0 where
  pub accepted : Bool
  pub reason : Bytes
