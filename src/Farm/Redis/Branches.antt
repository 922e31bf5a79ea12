-- ===== src/Farm/Redis/Branches.antt =====
-- The rules of a building (shiftSet of services/workplaces/farm/internal/farm/store.go) on each
-- branch, as the scripts meet them.
use pipsim.Common.{
  ℕ, ◌-◌, ◌<◌, ◌≡◌, refl, ap, inl, inr, true, false, none, some, [], ◌∷◌, ltb, leb, length, arith,
  All, Bool-cases,
}
use pipsim.Common.Words.{word_size}
use Prim.Native.Nat.{min}
use pipsim.Common.Tests.{◌==◌, ℕ-Eq}
use pipsim.Common.Strings.{Bytes-Eq, bytes}
use pipsim.Common.Assoc.{Assoc, lookup, insert, delete}
use pipsim.Farm.Shifts
use pipsim.Farm.Shifts.{
  Shift, ShiftSet, live, is_expired, take_position, reap, elapsed, to_int32, already_on_shift,
  no_free_positions,
}
use pipsim.Farm.Redis.{exact_limit, over}
use pipsim.Farm.Redis.Scripts.{IsSmall}

pub live-live :
    (now lease : ℕ) (shifts : Assoc ℕ Shift)
    → live now lease (live now lease shifts) ≡ live now lease shifts
unfolding live
live-live now lease [] = refl
live-live now lease (e ∷ shifts) = elim (Bool-cases (is_expired now lease e.1)) [
  | inl over ↦ rw over (live-live now lease shifts)
  | inr alive ↦ rw alive (rw alive (ap (λ rest. e ∷ rest) (live-live now lease shifts)))
]

pub live-All :
    (now lease : ℕ) (shifts : Assoc ℕ Shift)
    → All IsSmall shifts
    → All IsSmall (live now lease shifts)
unfolding live
live-All now lease [] h = tt
live-All now lease (e ∷ shifts) (first, h) = elim (Bool-cases (is_expired now lease e.1)) [
  | inl over ↦ rw over (live-All now lease shifts h)
  | inr alive ↦ rw alive (first, live-All now lease shifts h)
]

module _ (pip tick now : ℕ) (s : ShiftSet) where
  pub take_position-mine :
      (sh : Shift)
      → lookup pip s.shifts ≡ some sh
      → take_position pip tick now s ≡ (s, false, already_on_shift)
  unfolding take_position
  take_position-mine sh mine = rw (mine, take_position) refl

  pub take_position-full :
      lookup pip s.shifts ≡ none
      → leb s.max (length s.shifts) ≡ true
      → take_position pip tick now s ≡ (s, false, no_free_positions)
  unfolding take_position
  take_position-full free full = rw (free, take_position) (rw full refl)

  pub take_position-room :
      lookup pip s.shifts ≡ none
      → leb s.max (length s.shifts) ≡ false
      → take_position pip tick now s ≡ (
        record s {
          shifts =
              insert pip
                (record { started_tick = tick; last_work_tick = tick; last_work = now })
                s.shifts;
        },
        true,
        bytes "",
      )
  unfolding take_position
  take_position-room free room = rw (free, take_position) (rw room refl)

  pub touch-idle : lookup pip s.shifts ≡ none → Shifts.touch pip tick now s ≡ (s, 0, false)
  unfolding Shifts.touch
  touch-idle idle = rw (idle, Shifts.touch) refl

  pub touch-working :
      (sh : Shift)
      → lookup pip s.shifts ≡ some sh
      → Shifts.touch pip tick now s ≡ (
        record s {
          shifts = insert pip (record sh { last_work_tick = tick; last_work = now }) s.shifts;
        },
        elapsed tick s.max_gap sh,
        true,
      )
  unfolding Shifts.touch
  touch-working sh working = rw (working, Shifts.touch) refl

  pub release-absent : lookup pip s.shifts ≡ none → Shifts.release pip s ≡ (s, 0, false)
  unfolding Shifts.release
  release-absent absent = rw (absent, Shifts.release) refl

  pub release-found :
      (sh : Shift)
      → lookup pip s.shifts ≡ some sh
      → Shifts.release pip s ≡ (record s { shifts = delete pip s.shifts }, sh.started_tick, true)
  unfolding Shifts.release
  release-found sh found = rw (found, Shifts.release) refl

-- Lua's difference and limit are the rules' elapsed ticks.
pub elapsed-min :
    (tick cap : ℕ) (sh : Shift)
    → to_int32 (min (tick - sh.last_work_tick) cap) ≡ elapsed tick cap sh
unfolding elapsed
elapsed-min tick cap sh = elim (Bool-cases (ltb sh.last_work_tick tick)) [
  | inl later ↦ rw later refl
  | inr back ↦
      rw back
        (let none_owed : min (tick - sh.last_work_tick) cap ≡ 0 = ground arith in rw none_owed refl)
]

pub lookup-IsSmall :
    (pip : ℕ) (shifts : Assoc ℕ Shift) (sh : Shift)
    → All IsSmall shifts
    → lookup pip shifts ≡ some sh
    → (sh.started_tick < word_size) × (sh.last_work_tick < exact_limit)
unfolding lookup
lookup-IsSmall pip [] sh h found = cc
lookup-IsSmall pip (e ∷ shifts) sh ((_, started, last, _), h) found =
    elim (Bool-cases (e.0 == pip)) [
      | inl mine ↦
          (let same : e.1 ≡ sh = ground (arith, found, mine) in
            let small : e.1.started_tick < word_size = omega (arith, started) in
            rw (← same) (small, last))
      | inr other ↦ lookup-IsSmall pip shifts sh h (rw other at found)
    ]
