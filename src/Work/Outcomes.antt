-- ===== src/Work/Outcomes.antt =====
-- The gateway's side, services/world-gateway/internal/economy/queue.go. `F` is the state that
-- `onHired` changes.
use pipsim.Common.{ℕ, Bool, false, Option, none, some, List, [], ◌∷◌, ◌++◌, if◌then◌else◌}
use pipsim.Common.Strings.{Bytes, bytes}
use pipsim.Work.{
  HireOutcome, Codec, Settlement, ack, reject, exchange, dlx, hired_queue, hired_key, offer_prefix,
  work_queue_prefix, Broker, Declaration, exchange_declare, queue_declare, queue_bind,
}
use pipsim.Work.Consumer.{Event, delivery, closed, cancelled}

-- `Publisher.declare`
unfoldable pub declare_outcomes : List Declaration
declare_outcomes =
    exchange_declare exchange (bytes "topic")
    ∷ exchange_declare dlx (bytes "fanout")
    ∷ queue_declare hired_queue dlx
    ∷ queue_bind hired_queue hired_key exchange
    ∷ []

-- The queue that `QueueDepth` asks for.
abbrev pub depth_queue : Bytes → Bytes
depth_queue kind = work_queue_prefix ++ kind

module _ {W Body : Type 0} (codec : Codec Body) (broker : Broker W Body) where
  unfoldable pub publish_offer_body : Bytes → Option Body → W → W × Bool
  publish_offer_body kind none w = (w, false)
  publish_offer_body kind (some body) w = broker.publish exchange (offer_prefix ++ kind) body w

  -- `Publisher.Offer`
  unfoldable pub publish_offer : Bytes → ℕ → ℕ → Bytes → W → W × Bool
  unfolding publish_offer_body
  publish_offer kind pip tick trace_id w =
      publish_offer_body kind
        (codec.marshal_offer (record { pip_id = pip; tick = tick; trace_id = trace_id })) w

module _ {F Body : Type 0} (codec : Codec Body) (on_hired : ℕ → ℕ → F → F) where
  unfoldable pub handle_outcome : Option HireOutcome → F → F × Settlement
  handle_outcome none f = (f, reject)
  handle_outcome (some o) f = (if o.accepted then on_hired o.pip_id o.workplace_id f else f, ack)

  -- The loop of `ConsumeOutcomes`, with how each delivery was settled.
  unfoldable pub consume_outcomes : List (Event Body) → F → F × List Settlement
  unfolding handle_outcome
  consume_outcomes [] f = (f, [])
  consume_outcomes (closed ∷ events) f = (f, [])
  consume_outcomes (cancelled ∷ events) f = (f, [])
  consume_outcomes (delivery body ∷ events) f =
      let (f', settlement) = handle_outcome (codec.unmarshal_outcome body) f in
      let (f'', settlements) = consume_outcomes events f' in (f'', settlement ∷ settlements)
