-- ===== src/Work/Reconnect/Capacity.antt =====
-- A farm that consumes offers (`Consumer.Run` of services/workplaces/farm/internal/queue/queue.go)
-- and the positions of its buildings, over in-memory stores.
use pipsim.Common.{ℕ, Option, none, some, List, [], ◌∷◌, inl, inr, Bool-cases}
use pipsim.Common.Strings.{Bytes}
use pipsim.Farm.Shifts.{ShiftSet}
use pipsim.Farm.Store.{mem_store}
use pipsim.Farm.Host.{Host, consider}
use pipsim.Farm.Host.Capacity.{AllWithin, consider-AllWithin}
use pipsim.Work.{WorkOffer, Codec, Broker}
use pipsim.Work.Consumer.{
  Event, delivery, closed, cancelled, Decider, session, handle, handle_offer, answer,
}
use pipsim.Work.Reconnect.{Attempt, unreachable, connected, is_cancelled, run_consumer}

module _ {W D Body : Type 0} (codec : Codec Body) (broker : Broker W Body) (decide : Decider D)
    (kind : Bytes) (Invariant : D → Type 0)
    (keeps : (pip tick : ℕ) (d : D) → Invariant d → Invariant (decide pip tick d).0) where
  handle_offer-keeps :
      (o : Option WorkOffer) (d : D) (w : W)
      → Invariant d
      → Invariant (handle_offer codec broker decide kind o d w).0
  unfolding handle_offer answer
  handle_offer-keeps none d w h = h
  handle_offer-keeps (some o) d w h = keeps o.pip_id o.tick d h

  session-keeps :
      (events : List (Event Body)) (d : D) (w : W)
      → Invariant d
      → Invariant (session codec broker decide kind events d w).0
  unfolding session handle
  session-keeps [] d w h = h
  session-keeps (closed ∷ events) d w h = h
  session-keeps (cancelled ∷ events) d w h = h
  session-keeps (delivery body ∷ events) d w h =
      session-keeps events (handle codec broker decide kind body d w).0
        ((handle codec broker decide kind body d w).1)
        (handle_offer-keeps (codec.unmarshal_offer body) d w h)

  -- What every decision keeps, a whole run keeps.
  pub run_consumer-keeps :
      (attempts : List (Attempt Body)) (d : D) (w : W)
      → Invariant d
      → Invariant (run_consumer codec broker decide kind attempts d w).0
  unfolding run_consumer
  run_consumer-keeps [] d w h = h
  run_consumer-keeps (unreachable ∷ attempts) d w h = run_consumer-keeps attempts d w h
  run_consumer-keeps (connected events ∷ attempts) d w h =
      let kept = session-keeps events d w h in
      elim (Bool-cases (is_cancelled events)) [
        | inl over ↦ rw over kept
        | inr on ↦ rw on (run_consumer-keeps attempts _ _ kept)
      ]

-- The farm's decision with a clock that is read once for each offer; its readings come from a list.
abbrev pub decide_by_clock : Decider (List ℕ × Host ShiftSet)
decide_by_clock pip tick ([], h) =
    let (h', accepted, reason, id) = consider mem_store pip tick 0 h in
    (([], h'), accepted, reason, id)
decide_by_clock pip tick (now ∷ later, h) =
    let (h', accepted, reason, id) = consider mem_store pip tick now h in
    ((later, h'), accepted, reason, id)

decide_by_clock-AllWithin :
    (pip tick : ℕ) (d : List ℕ × Host ShiftSet)
    → AllWithin d.1
    → AllWithin (decide_by_clock pip tick d).0.1
decide_by_clock-AllWithin pip tick ([], h) within = consider-AllWithin pip tick 0 h within
decide_by_clock-AllWithin pip tick (now ∷ later, h) within =
    consider-AllWithin pip tick now h within

-- A farm that starts with no building over its positions stays so while it consumes offers, whatever
-- connections are lost and made again, whatever is delivered and however often, and whatever
-- outcomes cannot be published and bring their offers back.
pub run_consumer-AllWithin :
    {W Body : Type 0} (codec : Codec Body) (broker : Broker W Body) (kind : Bytes)
    (attempts : List (Attempt Body)) (clock : List ℕ) (h : Host ShiftSet) (w : W)
    → AllWithin h
    → AllWithin (run_consumer codec broker decide_by_clock kind attempts (clock, h) w).0.1
run_consumer-AllWithin codec broker kind attempts clock h w within =
    run_consumer-keeps codec broker decide_by_clock kind
      (λ (d : List ℕ × Host ShiftSet). AllWithin d.1) decide_by_clock-AllWithin attempts (clock, h)
      w within
