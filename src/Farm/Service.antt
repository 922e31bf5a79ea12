-- ===== src/Farm/Service.antt =====
-- One farm's service, services/workplaces/farm/internal/farm/farm.go, over any store. The numbers
-- are the file's constants; a wage and an amount are small enough never to wrap round.
use pipsim.Common.{
  ℕ, ◌*◌, Bool, true, false, not, Option, none, some, [], ◌∷◌, ◌++◌, leb, if◌then◌else◌, nat_eq,
}
use pipsim.Common.Strings.{Bytes, bytes, decimal}
use pipsim.Connect.{Reply, ok, err, unavailable}
use pipsim.Workplace.{Description, WorkResponse, BuyResponse, Verdict, ResourceKind, grain, food}
use pipsim.Farm.Store.{StoreCalls}

abbrev pub max_workers : ℕ
max_workers = 24

abbrev pub grain_per_tick : ℕ
grain_per_tick = 3

abbrev pub wage_per_tick : ℕ
wage_per_tick = 6

abbrev pub food_price : ℕ
food_price = 50

abbrev pub effort : ℕ
effort = 1

abbrev pub max_ticks_per_work : ℕ
max_ticks_per_work = 40

-- Fifteen seconds, in nanoseconds.
abbrev pub shift_lease : ℕ
shift_lease = 15_000_000_000

-- A building: its store, and its id.
pub record Service (S : Type 0) : Type 0 where
  pub store : S
  pub id : ℕ

-- The store's answer turned into a response; an error of the store is `unavailable`.
unfoldable pub answer : {S A B : Type 0} → Service S → (A → B) → S × Option A → Service S × Reply B
answer b respond (s, none) = (record b { store = s }, err unavailable)
answer b respond (s, some a) = (record b { store = s }, ok (respond a))

unfoldable pub description : ℕ → ℕ → Description
description id workers = record {
  workplace_id = id;
  kind = bytes "farm";
  display_name = bytes "Farm #" ++ decimal id;
  max_workers = max_workers;
  current_workers = workers;
  produces = grain ∷ [];
  wage = wage_per_tick;
  effort = effort;
  sells = record { kind = food; price = food_price } ∷ [];
}

abbrev pub employable : ℕ → Verdict
employable workers =
    if leb max_workers workers
    then record { accepted = false; reason = bytes "no free positions" }
    else record { accepted = true; reason = bytes "" }

-- The response of `StartShift`: the reason is passed on only with a refusal.
abbrev pub started : Bool × Bytes → Verdict
started (true, reason) = record { accepted = true; reason = bytes "" }
started (false, reason) = record { accepted = false; reason = reason }

-- The response of `Work`, from the ticks owed and whether the pip is on shift.
unfoldable pub work_response : ℕ × Bool → WorkResponse
work_response (elapsed, working) =
    if not working
    then record { produced = []; wage = 0; shift_should_end = true }
    else if nat_eq elapsed 0
    then record { produced = []; wage = 0; shift_should_end = false }
    else record {
      produced = record { kind = grain; amount = grain_per_tick * elapsed } ∷ [];
      wage = wage_per_tick * elapsed;
      shift_should_end = false;
    }

unfoldable pub buy : ResourceKind → BuyResponse
buy food = record { ok = true; reason = bytes ""; price = food_price }
buy kind = record { ok = false; reason = bytes "the farm sells only food"; price = 0 }

abbrev pub considered : {S : Type 0} → Service S × Reply (Bool × Bytes) → Service S × Bool × Bytes
considered (b, ok (accepted, reason)) = (b, accepted, reason)
considered (b, err c) = (b, false, bytes "store unavailable")

module _ {S : Type 0} (calls : StoreCalls S) where
  unfoldable pub describe : ℕ → Service S → Service S × Reply Description
  unfolding answer
  describe now b = answer b (description b.id) (calls.count now b.store)

  unfoldable pub can_employ : ℕ → Service S → Service S × Reply Verdict
  unfolding answer
  can_employ now b = answer b employable (calls.count now b.store)

  unfoldable pub start_shift : ℕ → ℕ → ℕ → Service S → Service S × Reply Verdict
  unfolding answer
  start_shift pip tick now b = answer b started (calls.claim pip tick now b.store)

  unfoldable pub work : ℕ → ℕ → ℕ → Service S → Service S × Reply WorkResponse
  unfolding answer work_response
  work pip tick now b = answer b work_response (calls.touch pip tick now b.store)

  -- The response is empty; what was released is only logged.
  unfoldable pub end_shift : ℕ → ℕ → ℕ → Service S → Service S × Reply (Unit {0})
  unfolding answer
  end_shift pip tick now b = answer b (λ _. tt) (calls.release pip tick now b.store)

  unfoldable pub consider_offer : ℕ → ℕ → ℕ → Service S → Service S × Bool × Bytes
  unfolding answer
  consider_offer pip tick now b = considered (answer b (λ r. r) (calls.claim pip tick now b.store))
