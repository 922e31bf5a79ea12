-- ===== src/Farm/Dapr.antt =====
-- A building's shifts in the state store of a Dapr actor: `daprStore` of
-- services/workplaces/farm/internal/farm/dapr.go. The state API of the sidecar and the JSON form
-- of a shift map are parameters; the address of the store and the header are fixed by them.
pub mod Refines
mod Tests
use pipsim.Common.{
  ℕ, Bool, true, false, not, ◌||◌, Option, none, some, List, [], ◌∷◌, ltb, nat_eq, if◌then◌else◌,
}
use pipsim.Common.Strings.{Bytes, bytes}
use pipsim.Common.Assoc.{Assoc}
use pipsim.Common.Text.{trim, trim_space}
use pipsim.Farm.Shifts
use pipsim.Farm.Shifts.{Shift, ShiftSet}
use pipsim.Farm.Store.{StoreCalls}

-- The sidecar: an answer is a status and a body, `none` a request that failed.
pub record StateApi (W : Type 0) : Type 0 where
  pub get : W → W × Option (ℕ × Bytes)
  pub post : Bytes → W → W × Option ℕ

-- encoding/json: the body that upserts a shift map, and the reading of a stored one.
pub record Codec : Type 0 where
  pub upsert : Assoc ℕ Shift → Option Bytes
  pub decode : Bytes → Option (Assoc ℕ Shift)

-- The rules of a building.
pub record Rules : Type 0 where
  pub max : ℕ
  pub lease : ℕ
  pub max_gap : ℕ

abbrev pub with_rules : Rules → Assoc ℕ Shift → ShiftSet
with_rules r shifts = record { shifts = shifts; max = r.max; lease = r.lease; max_gap = r.max_gap }

abbrev pub is_saved : Option ℕ → Bool
is_saved none = false
is_saved (some status) = ltb status 300

-- What a call answers once it has saved; `none` is an error.
unfoldable pub answer_if_saved : {W A : Type 0} → A → W × Bool → W × Option A
answer_if_saved a (w, true) = (w, some a)
answer_if_saved a (w, false) = (w, none)

module _ {W : Type 0} (api : StateApi W) (codec : Codec) (rules : Rules) where
  abbrev pub decoded : Option (Assoc ℕ Shift) → Option ShiftSet
  decoded none = none
  decoded (some shifts) = some (with_rules rules shifts)

  unfoldable pub read_body : Bytes → Bytes → Option ShiftSet
  read_body [] body = some (with_rules rules [])
  read_body (c ∷ text) body = decoded (codec.decode body)

  -- The answer to the GET: a miss and a blank body are an empty building.
  unfoldable pub read_answer : Option (ℕ × Bytes) → Option ShiftSet
  unfolding read_body
  read_answer none = none
  read_answer (some (status, body)) =
      if nat_eq status 204 || nat_eq status 404
      then some (with_rules rules [])
      else if not (nat_eq status 200)
      then none
      else read_body (trim_space body) body

  unfoldable pub load : W → W × Option ShiftSet
  unfolding read_answer
  load w = let (w', answer) = api.get w in (w', read_answer answer)

  unfoldable pub send : Option Bytes → W → W × Bool
  send none w = (w, false)
  send (some body) w = let (w', status) = api.post body w in (w', is_saved status)

  unfoldable pub save : ShiftSet → W → W × Bool
  unfolding send
  save set w = send (codec.upsert set.shifts) w

  -- A refused claim writes nothing, so what it has reaped stays in the store.
  unfoldable pub claim_in : ℕ → ℕ → ℕ → Option ShiftSet → W → W × Option (Bool × Bytes)
  unfolding save answer_if_saved
  claim_in pip tick now none w = (w, none)
  claim_in pip tick now (some set) w =
      let (set', accepted, reason) = Shifts.claim pip tick now set in
      if not accepted
      then (w, some (false, reason))
      else answer_if_saved (true, bytes "") (save set' w)

  unfoldable pub claim : ℕ → ℕ → ℕ → W → W × Option (Bool × Bytes)
  unfolding load claim_in
  claim pip tick now w = let (w', set) = load w in claim_in pip tick now set w'

  unfoldable pub touch_in : ℕ → ℕ → ℕ → Option ShiftSet → W → W × Option (ℕ × Bool)
  unfolding save answer_if_saved
  touch_in pip tick now none w = (w, none)
  touch_in pip tick now (some set) w =
      let (set', elapsed, working) = Shifts.touch pip tick now set in
      if not working then (w, some (0, false)) else answer_if_saved (elapsed, true) (save set' w)

  unfoldable pub touch : ℕ → ℕ → ℕ → W → W × Option (ℕ × Bool)
  unfolding load touch_in
  touch pip tick now w = let (w', set) = load w in touch_in pip tick now set w'

  unfoldable pub release_in : ℕ → Option ShiftSet → W → W × Option (ℕ × Bool)
  unfolding save answer_if_saved
  release_in pip none w = (w, none)
  release_in pip (some set) w =
      let (set', started, found) = Shifts.release pip set in
      if not found then (w, some (0, false)) else answer_if_saved (started, true) (save set' w)

  unfoldable pub release : ℕ → W → W × Option (ℕ × Bool)
  unfolding load release_in
  release pip w = let (w', set) = load w in release_in pip set w'

  abbrev pub counted : Option ShiftSet → Option ℕ
  counted none = none
  counted (some set) = some (Shifts.count set)

  unfoldable pub count : W → W × Option ℕ
  unfolding load
  count w = let (w', set) = load w in (w', counted set)

  abbrev pub dapr_store : StoreCalls W
  dapr_store = record {
    claim = λ pip tick now w. claim pip tick now w;
    touch = λ pip tick now w. touch pip tick now w;
    release = λ pip tick now w. release pip w;
    count = λ now w. count w;
  }
