-- ===== src/Work/Consumer.antt =====
-- A farm's side, services/workplaces/farm/internal/queue/queue.go. `D` is the state of the decider.
-- Connecting to the broker, and the wait before it is tried again, are not modelled.
use pipsim.Common.{ℕ, Bool, true, false, Option, none, some, List, [], ◌∷◌, ◌++◌}
use pipsim.Common.Strings.{Bytes, bytes}
use pipsim.Work.{
  WorkOffer, Codec, Settlement, ack, reject, requeue, exchange, dlx, offer_prefix, offer_queue,
  hired_key, Broker, Declaration, exchange_declare, queue_declare, queue_bind,
}

-- `declare`
unfoldable pub declare : Bytes → List Declaration
declare kind =
    exchange_declare exchange (bytes "topic")
    ∷ exchange_declare dlx (bytes "fanout")
    ∷ queue_declare offer_queue dlx
    ∷ queue_bind offer_queue (offer_prefix ++ kind) exchange
    ∷ []

-- Whether a pip is taken, why not, and by which building.
abbrev pub Decider : Type 0 → Type 0
Decider D = ℕ → ℕ → D → D × Bool × Bytes × ℕ

-- What the loop of a session meets: a delivery, the end of the connection, or of the context.
pub data Event (Body : Type 0) : Type 0 where
  delivery : Body → Event Body
  closed : Event Body
  cancelled : Event Body

module _ {W D Body : Type 0} (codec : Codec Body) (broker : Broker W Body) (decide : Decider D)
    (kind : Bytes) where
  abbrev pub settled_by : Bool → Settlement
  settled_by true = ack
  settled_by false = requeue

  -- An outcome that cannot be published brings the offer back.
  unfoldable pub publish_outcome : Option Body → W → W × Settlement
  publish_outcome none w = (w, reject)
  publish_outcome (some body) w =
      let (w', sent) = broker.publish exchange hired_key body w in (w', settled_by sent)

  unfoldable pub answer : WorkOffer → D → W → D × W × Settlement
  unfolding publish_outcome
  answer offer d w =
      let (d', accepted, reason, workplace_id) = decide offer.pip_id offer.tick d in
      let (w', settlement) =
        publish_outcome
          (codec.marshal_outcome (record {
            pip_id = offer.pip_id;
            workplace_id = workplace_id;
            workplace_kind = kind;
            accepted = accepted;
            reason = reason;
            tick = offer.tick;
            trace_id = offer.trace_id;
          }))
          w in
      (d', w', settlement)

  unfoldable pub handle_offer : Option WorkOffer → D → W → D × W × Settlement
  unfolding answer
  handle_offer none d w = (d, w, reject)
  handle_offer (some offer) d w = answer offer d w

  -- `handle`
  unfoldable pub handle : Body → D → W → D × W × Settlement
  unfolding handle_offer
  handle body d w = handle_offer (codec.unmarshal_offer body) d w

  -- The loop of `session`, with how each delivery was settled.
  unfoldable pub session : List (Event Body) → D → W → D × W × List Settlement
  unfolding handle
  session [] d w = (d, w, [])
  session (closed ∷ events) d w = (d, w, [])
  session (cancelled ∷ events) d w = (d, w, [])
  session (delivery body ∷ events) d w =
      let (d', w', settlement) = handle body d w in
      let (d'', w'', settlements) = session events d' w' in (d'', w'', settlement ∷ settlements)
