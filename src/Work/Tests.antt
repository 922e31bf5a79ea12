-- ===== src/Work/Tests.antt =====
-- A broker that keeps what is published, and each theorem at an offer that goes through it.
use pipsim.Common.{arith, ap, ◌≡◌, refl, true, false, Option, none, some, List, [], ◌∷◌}
use pipsim.Common.Tests.{ℕ-Eq}
use pipsim.Common.Strings.{bytes, bytes_eq}
use pipsim.Common.Assoc.{lookup, insert}
use pipsim.Connect.{err, unavailable}
use pipsim.Farm.Shifts.{ShiftSet, claim, take_position, reap, live}
use pipsim.Farm.Store.{StoreCalls}
use pipsim.Work.Outage.{outage_refuses}
use pipsim.Farm.Service.{Service, consider_offer}
use pipsim.Farm.Host.{
  Host, try_buildings, consider, rotation, sort_ids, insert_sorted, ids, resolve,
}
use pipsim.Farm.Host.Offers.{new_shift}
use pipsim.Economy.Outside.{Outside, Intent}
use pipsim.Economy.Driver.{Driver, holds}
use pipsim.Economy.Fleet.{Fleet}
use pipsim.Work.{WorkOffer, HireOutcome, Codec, ack, Broker}
use pipsim.Farm.Host.Capacity.{AllWithin}
use pipsim.Work.Reconnect.{Attempt, unreachable, connected, run_consumer}
use pipsim.Work.Reconnect.Capacity.{decide_by_clock, run_consumer-AllWithin}
use pipsim.Work.Consumer.{Decider, delivery, closed, cancelled, handle}
use pipsim.Work.Outcomes.{handle_outcome}
use pipsim.Work.Hiring.{IsCodec, outcome_of, hire_completes, decide_at, react}

-- A message in its encoded form.
data Wire : Type 0 where
  offer_wire : WorkOffer → Wire
  outcome_wire : HireOutcome → Wire

abbrev read_offer : Wire → Option WorkOffer
read_offer (offer_wire o) = some o
read_offer (outcome_wire o) = none

abbrev read_outcome : Wire → Option HireOutcome
read_outcome (offer_wire o) = none
read_outcome (outcome_wire o) = some o

abbrev wires : Codec Wire
wires = record {
  marshal_offer = λ o. some (offer_wire o);
  unmarshal_offer = read_offer;
  marshal_outcome = λ o. some (outcome_wire o);
  unmarshal_outcome = read_outcome;
}

wires-IsCodec : IsCodec wires
wires-IsCodec = record {
  reads_offer = λ o body e. let same : offer_wire o ≡ body = cc in rw (← same) refl;
  reads_outcome = λ o body e. let same : outcome_wire o ≡ body = cc in rw (← same) refl;
}

abbrev outbox : Broker (List Wire) Wire
outbox = record { publish = λ to key body w. (body ∷ w, true) }

abbrev empty : ShiftSet
empty = record { shifts = []; max = 2; lease = 15; max_gap = 40 }

abbrev one_farm : Host ShiftSet
one_farm = record { buildings = (3, record { store = empty; id = 3 }) ∷ []; next = 1 }

abbrev candidate : WorkOffer
candidate = record { pip_id = 7; tick = 120; trace_id = bytes "t" }

abbrev answered : HireOutcome
answered = record {
  pip_id = 7;
  workplace_id = 3;
  workplace_kind = bytes "farm";
  accepted = true;
  reason = bytes "";
  tick = 120;
  trace_id = bytes "t";
}

-- The store of the farm does not answer.
abbrev no_store : StoreCalls ShiftSet
no_store = record {
  claim = λ pip tick now s. (s, none);
  touch = λ pip tick now s. (s, none);
  release = λ pip tick now s. (s, none);
  count = λ now s. (s, none);
}

abbrev unavailing : HireOutcome
unavailing = record answered {
  workplace_id = 0;
  accepted = false;
  reason = bytes "store unavailable";
}

abbrev decide_without : Decider (Host ShiftSet)
decide_without pip tick h = consider no_store pip tick 9 h

not_taken : outcome_of (bytes "farm") candidate (decide_without 7 120 one_farm) ≡ unavailing
unfolding consider try_buildings rotation ids sort_ids insert_sorted resolve consider_offer lookup
    bytes_eq
not_taken = refl

outage_refuses_example :
    let outcome = outcome_of (bytes "farm") candidate (decide_without 7 120 one_farm) in
    let (_, w', settled) =
      handle wires outbox decide_without (bytes "farm") (offer_wire candidate) one_farm [] in
    (settled ≡ ack)
    × (w' ≡ outcome_wire unavailing ∷ [])
    × (outcome.accepted ≡ false)
    × (outcome.workplace_id ≡ 0)
outage_refuses_example =
    outage_refuses no_store 9 wires outbox (bytes "farm") candidate (offer_wire candidate)
      (outcome_wire unavailing) one_farm [] (λ pip tick now s. refl) refl
      (ap (λ o. some (outcome_wire o)) not_taken) refl

-- sim-core accepts each intent, and nothing else is asked for.
abbrev core : Outside (List Intent)
core = record {
  now = λ w. 0;
  snapshot = λ w. (w, none);
  submit = λ i w. (i ∷ w, true);
  work = λ id pip tick w. (w, none);
  end_shift = λ id pip tick reason w. w;
  buy = λ id pip kind tick w. (w, err unavailable);
  publish_offer = λ kind pip tick w. (w, false);
  get_balance = λ account w. (w, err unavailable);
  transfer = λ request w. (w, err unavailable);
  batch_transfer = λ request w. (w, err unavailable);
}

abbrev farm : Driver
farm = record { id = 3; kind = bytes "farm"; employed = []; hired_at = []; pending = (7, 0) ∷ [] }

abbrev fleet : Fleet
fleet = record { drivers = (3, farm) ∷ []; next = 0 }

-- The farm takes the pip on in building 3.
taken_on : outcome_of (bytes "farm") candidate (decide_at 9 7 120 one_farm) ≡ answered
unfolding consider try_buildings consider_offer claim take_position reap live lookup insert rotation
    ids sort_ids insert_sorted resolve
taken_on = refl

hire_completes_example :
    let (h', _, settled) =
      handle wires outbox (decide_at 9) (bytes "farm") (offer_wire candidate) one_farm [] in
    let ((f', _), taken) = handle_outcome wires (react core) (some answered) (fleet, []) in
    (settled ≡ ack)
    × (taken ≡ ack)
    × ((building : Service ShiftSet) × (lookup 3 h'.buildings ≡ some building)
        × (lookup 7 building.store.shifts ≡ some (new_shift 120 9)))
    × ((driver : Driver) × (lookup 3 f'.drivers ≡ some driver) × (holds 7 driver.employed ≡ true))
unfolding consider try_buildings consider_offer claim take_position reap live lookup insert rotation
    ids sort_ids insert_sorted resolve
hire_completes_example =
    hire_completes wires outbox core (bytes "farm") 9 candidate (offer_wire candidate)
      (outcome_wire answered) one_farm [] fleet [] farm wires-IsCodec refl (refl, refl, refl) refl
      refl

-- The broker is away, sends the offer twice, drops the connection, and sends it once more.
abbrev attempts : List (Attempt Wire)
attempts =
    unreachable
    ∷ connected (delivery (offer_wire candidate) ∷ delivery (offer_wire candidate) ∷ closed ∷ [])
    ∷ connected (delivery (offer_wire candidate) ∷ cancelled ∷ [])
    ∷ []

run_consumer-AllWithin_example :
    AllWithin
      (run_consumer wires outbox decide_by_clock
        (bytes "farm")
        attempts
        (9 ∷ 10 ∷ 30 ∷ [], one_farm)
        []).0.1
run_consumer-AllWithin_example =
    run_consumer-AllWithin wires outbox (bytes "farm") attempts (9 ∷ 10 ∷ 30 ∷ []) one_farm []
      (omega arith, tt)
