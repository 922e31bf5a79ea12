-- ===== src/Work/Reconnect.antt =====
-- The loops that outlive a connection: `Consumer.Run` of
-- services/workplaces/farm/internal/queue/queue.go and `RunOutcomes` of
-- services/world-gateway/internal/economy/queue.go. A run is the list of its attempts to connect; it
-- ends with the list, or where the context is cancelled. The wait before the next attempt is not
-- modelled.
pub mod Capacity
use pipsim.Common.{ℕ, Bool, true, false, List, [], ◌∷◌, ◌++◌, if◌then◌else◌}
use pipsim.Common.Strings.{Bytes}
use pipsim.Work.{Codec, Settlement, Broker}
use pipsim.Work.Consumer.{Event, delivery, closed, cancelled, Decider, session}
use pipsim.Work.Outcomes.{consume_outcomes}

-- An attempt: the broker is not reached, or does not take the declarations, or a session follows.
pub data Attempt (Body : Type 0) : Type 0 where
  unreachable : Attempt Body
  connected : List (Event Body) → Attempt Body

-- `ctx.Err() != nil` at the end of the session.
unfoldable pub is_cancelled : {Body : Type 0} → List (Event Body) → Bool
is_cancelled [] = false
is_cancelled (closed ∷ events) = false
is_cancelled (cancelled ∷ events) = true
is_cancelled (delivery body ∷ events) = is_cancelled events

module _ {W D Body : Type 0} (codec : Codec Body) (broker : Broker W Body) (decide : Decider D)
    (kind : Bytes) where
  -- `Consumer.Run`, with how each delivery was settled.
  unfoldable pub run_consumer : List (Attempt Body) → D → W → D × W × List Settlement
  unfolding is_cancelled
  run_consumer [] d w = (d, w, [])
  run_consumer (unreachable ∷ attempts) d w = run_consumer attempts d w
  run_consumer (connected events ∷ attempts) d w =
      let (d', w', settled) = session codec broker decide kind events d w in
      let (d'', w'', later) = run_consumer attempts d' w' in
      if is_cancelled events then (d', w', settled) else (d'', w'', settled ++ later)

module _ {F Body : Type 0} (codec : Codec Body) (on_hired : ℕ → ℕ → F → F) where
  -- `RunOutcomes`, with how each delivery was settled.
  unfoldable pub run_outcomes : List (Attempt Body) → F → F × List Settlement
  unfolding is_cancelled
  run_outcomes [] f = (f, [])
  run_outcomes (unreachable ∷ attempts) f = run_outcomes attempts f
  run_outcomes (connected events ∷ attempts) f =
      let (f', settled) = consume_outcomes codec on_hired events f in
      let (f'', later) = run_outcomes attempts f' in
      if is_cancelled events then (f', settled) else (f'', settled ++ later)
