-- ===== src/Farm/Shifts.antt =====
-- The shifts of one building: `shiftSet` of services/workplaces/farm/internal/farm/store.go, the
-- rules that its in-memory and Dapr stores share. A time is a count of nanoseconds; the clock,
-- which a method may read several times, stands still during a call and is its argument `now`.
pub mod Capacity
pub mod Pay
use pipsim.Common.{
  ℕ, ◌-◌, ◌%◌, Bool, true, false, Option, none, some, List, [], ◌∷◌, ltb, leb, if◌then◌else◌,
  length,
}
use pipsim.Common.Tests.{ℕ-Eq}
use Prim.Native.Nat.{min}
use pipsim.Common.Strings.{Bytes, bytes}
use pipsim.Common.Assoc.{Assoc, lookup, insert, delete}

pub record Shift : Type 0 where
  pub started_tick : ℕ
  pub last_work_tick : ℕ
  pub last_work : ℕ

pub record ShiftSet : Type 0 where
  pub shifts : Assoc ℕ Shift
  pub max : ℕ
  pub lease : ℕ
  pub max_gap : ℕ

unfoldable pub new_shift_set : ℕ → ℕ → ℕ → ShiftSet
new_shift_set max lease max_gap = record {
  shifts = [];
  max = max;
  lease = lease;
  max_gap = max_gap;
}

-- `s.now().Sub(sh.lastWork) > s.lease`; a shift worked in the future has not expired.
abbrev pub is_expired : ℕ → ℕ → Shift → Bool
is_expired now lease sh = ltb lease (now - sh.last_work)

unfoldable pub live : ℕ → ℕ → Assoc ℕ Shift → Assoc ℕ Shift
live now lease [] = []
live now lease (entry ∷ entries) =
    let rest = live now lease entries in if is_expired now lease entry.1 then rest else entry ∷ rest

unfoldable pub reap : ℕ → ShiftSet → ShiftSet
unfolding live
reap now s = record s { shifts = live now s.lease s.shifts }

abbrev pub already_on_shift : Bytes
already_on_shift = bytes "already on shift here"

abbrev pub no_free_positions : Bytes
no_free_positions = bytes "no free positions"

-- `claim` after the reap.
unfoldable pub take_position : ℕ → ℕ → ℕ → ShiftSet → ShiftSet × Bool × Bytes
take_position pip tick now s = elim (lookup pip s.shifts) [
  | some _ ↦ (s, false, already_on_shift)
  | none ↦ if leb s.max (length s.shifts) then (s, false, no_free_positions) else (
    record s {
      shifts =
          insert pip (record { started_tick = tick; last_work_tick = tick; last_work = now })
            s.shifts;
    },
    true,
    bytes "",
  )
]

unfoldable pub claim : ℕ → ℕ → ℕ → ShiftSet → ShiftSet × Bool × Bytes
claim pip tick now s = take_position pip tick now (reap now s)

-- `int32(x)` of a uint64, as a bit pattern of 32 bits.
abbrev pub to_int32 : ℕ → ℕ
to_int32 x = x % 0x100000000

-- The ticks that a shift is owed for.
unfoldable pub elapsed : ℕ → ℕ → Shift → ℕ
elapsed tick max_gap sh =
    if ltb sh.last_work_tick tick then to_int32 (min (tick - sh.last_work_tick) max_gap) else 0

unfoldable pub touch : ℕ → ℕ → ℕ → ShiftSet → ShiftSet × ℕ × Bool
touch pip tick now s = elim (lookup pip s.shifts) [
  | none ↦ (s, 0, false)
  | some sh ↦ (
    record s {
      shifts = insert pip (record sh { last_work_tick = tick; last_work = now }) s.shifts;
    },
    elapsed tick s.max_gap sh,
    true,
  )
]

unfoldable pub release : ℕ → ShiftSet → ShiftSet × ℕ × Bool
release pip s = elim (lookup pip s.shifts) [
  | none ↦ (s, 0, false)
  | some sh ↦ (record s { shifts = delete pip s.shifts }, sh.started_tick, true)
]

unfoldable pub count : ShiftSet → ℕ
count s = length s.shifts

-- The calls of a `Store` on one building, as its lock orders them.
pub data Call : Type 0 where
  claims : ℕ → ℕ → ℕ → Call
  touches : ℕ → ℕ → ℕ → Call
  releases : ℕ → Call
  counts : Call

unfoldable pub after : Call → ShiftSet → ShiftSet
after (claims pip tick now) s = (claim pip tick now s).0
after (touches pip tick now) s = (touch pip tick now s).0
after (releases pip) s = (release pip s).0
after counts s = s

unfoldable pub run : List Call → ShiftSet → ShiftSet
run [] s = s
run (c ∷ cs) s = run cs (after c s)
