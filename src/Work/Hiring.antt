-- ===== src/Work/Hiring.antt =====
-- An offer on its way: published by the gateway, answered by a farm, and the outcome taken in by the
-- gateway's fleet.
use pipsim.Common.{ℕ, ◌≡◌, refl, Bool, true, false, some, arith}
use pipsim.Common.Tests.{ℕ-Eq}
use pipsim.Common.Strings.{Bytes}
use pipsim.Common.Assoc.{lookup, lookup-insert}
use pipsim.Work.{WorkOffer, HireOutcome, Codec, ack, Broker, exchange, hired_key}
use pipsim.Work.Consumer.{Decider, handle, handle_offer, answer, publish_outcome, settled_by}
use pipsim.Work.Outcomes.{handle_outcome}
use pipsim.Economy.Outside.{Outside, hire}
use pipsim.Economy.Driver.{Driver, holds, on_hired}
use pipsim.Economy.Fleet.{Fleet, hired}
use pipsim.Farm.Shifts.{ShiftSet}
use pipsim.Farm.Store.{mem_store}
use pipsim.Farm.Service.{Service}
use pipsim.Farm.Host.{Host, consider}
use pipsim.Farm.Host.Offers.{Names, consider-Names, new_shift}

-- Messages are written and read back.
pub record IsCodec {Body : Type 0} (codec : Codec Body) : Type 0 where
  pub reads_offer :
      (o : WorkOffer) (body : Body)
      → codec.marshal_offer o ≡ some body
      → codec.unmarshal_offer body ≡ some o
  pub reads_outcome :
      (o : HireOutcome) (body : Body)
      → codec.marshal_outcome o ≡ some body
      → codec.unmarshal_outcome body ≡ some o

-- The outcome that a decision makes.
abbrev pub outcome_of : {D : Type 0} → Bytes → WorkOffer → D × Bool × Bytes × ℕ → HireOutcome
outcome_of kind o (d, accepted, reason, workplace_id) = record {
  pip_id = o.pip_id;
  workplace_id = workplace_id;
  workplace_kind = kind;
  accepted = accepted;
  reason = reason;
  tick = o.tick;
  trace_id = o.trace_id;
}

-- An offer that can be read and whose outcome can be written is answered: the outcome goes out.
pub handle_publishes :
    {W D Body : Type 0} (codec : Codec Body) (broker : Broker W Body) (decide : Decider D)
    (kind : Bytes) (o : WorkOffer) (body text : Body) (d : D) (w : W)
    → codec.unmarshal_offer body ≡ some o
    → codec.marshal_outcome (outcome_of kind o (decide o.pip_id o.tick d)) ≡ some text
    → handle codec broker decide kind body d w ≡ (
      (decide o.pip_id o.tick d).0,
      (broker.publish exchange hired_key text w).0,
      settled_by codec broker decide kind (broker.publish exchange hired_key text w).1,
    )
unfolding handle handle_offer answer publish_outcome
handle_publishes codec broker decide kind o body text d w read written = rw (read, written) refl

-- What `Names` says of an answer that accepts.
named_building :
    (pip tick now : ℕ) (answer : Host ShiftSet × Bool × Bytes × ℕ)
    → Names pip tick now answer
    → answer.1 ≡ true
    → (b : Service ShiftSet) × (lookup answer.3 answer.0.buildings ≡ some b)
      × (lookup pip b.store.shifts ≡ some (new_shift tick now))
named_building pip tick now (h, true, reason, id) names accepted = names
named_building pip tick now (h, false, reason, id) names accepted = ground arith

on_hired-holds :
    {W : Type 0} (out : Outside W) (pip : ℕ) (d : Driver) (v : W)
    → (out.submit (hire pip d.id) v).1 ≡ true
    → holds pip (on_hired out pip d v).0.employed ≡ true
unfolding on_hired
on_hired-holds out pip d v sent = rw sent (ground (arith, lookup-insert pip pip true d.employed))

lookup-hired :
    {W : Type 0} (out : Outside W) (pip id : ℕ) (f : Fleet) (v : W) (d : Driver)
    → lookup id f.drivers ≡ some d
    → lookup id (hired out pip id f v).0.drivers ≡ some (on_hired out pip d v).0
unfolding hired
lookup-hired out pip id f v d driven =
    rw (driven, hired) (ground (arith, lookup-insert id id (on_hired out pip d v).0 f.drivers))

-- The farm's decision, over in-memory stores.
abbrev pub decide_at : ℕ → Decider (Host ShiftSet)
decide_at now pip tick h = consider mem_store pip tick now h

-- The gateway's reaction to an outcome.
abbrev pub react : {W : Type 0} → Outside W → ℕ → ℕ → Fleet × W → Fleet × W
react out pip id (f, v) = hired out pip id f v

-- A hire from end to end. An offer is read by a farm, one of the buildings accepts, the outcome can
-- be written and is taken by the broker, and it names a building that the gateway drives; the
-- intent to hire is accepted by sim-core. Then the farm acknowledges the offer, the building that
-- the outcome names holds a new shift for the pip, the gateway acknowledges the outcome, and its
-- driver of that building holds the pip as employed.
pub hire_completes :
    {B W Body : Type 0} (codec : Codec Body) (broker : Broker B Body) (out : Outside W)
    (kind : Bytes) (now : ℕ) (o : WorkOffer) (offered text : Body) (h : Host ShiftSet) (b : B)
    (f : Fleet) (v : W) (d : Driver)
    → IsCodec codec
    → codec.marshal_offer o ≡ some offered
    → (let outcome = outcome_of kind o (decide_at now o.pip_id o.tick h) in
        (outcome.accepted ≡ true)
        × (codec.marshal_outcome outcome ≡ some text)
        × (lookup outcome.workplace_id f.drivers ≡ some d))
    → (broker.publish exchange hired_key text b).1 ≡ true
    → (out.submit (hire o.pip_id d.id) v).1 ≡ true
    → let outcome = outcome_of kind o (decide_at now o.pip_id o.tick h) in
      let (h', _, settled) = handle codec broker (decide_at now) kind offered h b in
      let ((f', _), taken) =
        handle_outcome codec (react out) (codec.unmarshal_outcome text) (f, v) in
      (settled ≡ ack)
      × (taken ≡ ack)
      × ((building : Service ShiftSet) × (lookup outcome.workplace_id h'.buildings ≡ some building)
          × (lookup o.pip_id building.store.shifts ≡ some (new_shift o.tick now)))
      × ((driver : Driver) × (lookup outcome.workplace_id f'.drivers ≡ some driver)
          × (holds o.pip_id driver.employed ≡ true))
unfolding handle_outcome
hire_completes codec broker out kind now o offered text h b f v d codes written
      (accepted, told, driven) sent submitted =
    let decision = decide_at now o.pip_id o.tick h in
    rw
      (handle_publishes codec broker (decide_at now) kind o offered text h b
        (codes.reads_offer o offered written) told)
      (rw (codes.reads_outcome (outcome_of kind o decision) text told) (
        rw accepted (
          rw sent refl,
          refl,
          named_building o.pip_id o.tick now decision (consider-Names o.pip_id o.tick now h)
              accepted,
          (
            (on_hired out o.pip_id d v).0,
            lookup-hired out o.pip_id decision.3 f v d driven,
            on_hired-holds out o.pip_id d v submitted,
          ),
        )))
