-- ===== src/Work.antt =====
-- The work exchange between the gateway and the farms: the messages, and the declarations that both
-- sides make to the broker (services/workplaces/farm/internal/queue/queue.go and
-- services/world-gateway/internal/economy/queue.go). The broker and the protobuf form of a
-- message are parameters.
pub mod Consumer
pub mod Outcomes
pub mod Topology
pub mod Hiring
pub mod Outage
pub mod Reconnect
mod Tests
use pipsim.Common.{ℕ, Bool, Option, ◌++◌}
use pipsim.Common.Strings.{Bytes, bytes}

-- pips.work.v1
pub record WorkOffer : Type 0 where
  pub pip_id : ℕ
  pub tick : ℕ
  pub trace_id : Bytes

pub record HireOutcome : Type 0 where
  pub pip_id : ℕ
  pub workplace_id : ℕ
  pub workplace_kind : Bytes
  pub accepted : Bool
  pub reason : Bytes
  pub tick : ℕ
  pub trace_id : Bytes

-- proto.Marshal and proto.Unmarshal.
pub record Codec (Body : Type 0) : Type 0 where
  pub marshal_offer : WorkOffer → Option Body
  pub unmarshal_offer : Body → Option WorkOffer
  pub marshal_outcome : HireOutcome → Option Body
  pub unmarshal_outcome : Body → Option HireOutcome

-- What a consumer tells the broker of a delivery: it is done with, it goes to the dead-letter
-- exchange, or it comes again.
pub data Settlement : Type 0 where
  ack reject requeue : Settlement

abbrev pub exchange : Bytes
exchange = bytes "pipsim.work"

abbrev pub dlx : Bytes
dlx = bytes "pipsim.work.dlx"

abbrev pub hired_queue : Bytes
hired_queue = bytes "pipsim.work.hired"

abbrev pub offer_prefix : Bytes
offer_prefix = bytes "offer."

abbrev pub hired_key : Bytes
hired_key = bytes "hired"

abbrev pub offer_queue : Bytes
offer_queue = bytes "pipsim.work.farm"

abbrev pub work_queue_prefix : Bytes
work_queue_prefix = bytes "pipsim.work."

-- A publication with its routing key; `false` is an error.
pub record Broker (W Body : Type 0) : Type 0 where
  pub publish : Bytes → Bytes → Body → W → W × Bool

-- What a party asks the broker to set up.
pub data Declaration : Type 0 where
  exchange_declare : Bytes → Bytes → Declaration
  queue_declare : Bytes → Bytes → Declaration
  queue_bind : Bytes → Bytes → Bytes → Declaration
